-- ===== src/Logging/Sanitized.antt =====
-- What `SanitizeForLogging` returns, and which functions log nothing else.
use tierceron.Base.{ℕ, ◌≡◌, ap, ◌∙◌, Bool, Option, none, some, [], ◌∷◌, All, arith}
use tierceron.GoStrings.{Text, replace_all}
use tierceron.GoStrings.Search.{Lacks}
use tierceron.GoStrings.Parts.{remove, replace_all-remove, remove-Lacks, Lacks-remove}
use tierceron.Logging.{
  Logger, World, sanitize_for_logging, log_error_object, log_info, log_and_safe_exit,
  log_error_and_safe_exit,
}

-- no line feed and no carriage return
abbrev pub OneLine : Text → Type 0
OneLine s = Lacks b'\n' s × Lacks b'\r' s

sanitize-remove : (s : Text) → sanitize_for_logging s ≡ remove b'\r' (remove b'\n' s)
unfolding sanitize_for_logging
sanitize-remove s =
    ap (λ (t : Text). replace_all t (b'\r' ∷ []) []) (replace_all-remove b'\n' s)
    ∙ replace_all-remove b'\r' (remove b'\n' s)

-- A sanitized text is the text without its line feeds and carriage returns, and so holds none.
sanitize_for_logging_lem :
    (s : Text)
    → (sanitize_for_logging s ≡ remove b'\r' (remove b'\n' s)) × OneLine (sanitize_for_logging s)
sanitize_for_logging_lem s = (
  sanitize-remove s,
  rw sanitize-remove (
      (
        Lacks-remove b'\n' b'\r' (remove b'\n' s) (remove-Lacks b'\n' s),
        remove-Lacks b'\r' (remove b'\n' s),
      )),
)

abbrev LinesClean : Option Logger → Type 0
LinesClean none = Unit
LinesClean (some l) = All (λ (e : Text × Text). OneLine e.1) l.lines

-- each line in the log of the configuration is one line of text
abbrev pub CleanLog : World → Type 0
CleanLog w = LinesClean w.logger

log_info-CleanLog : (msg : Text) (w : World) → CleanLog w → CleanLog (log_info msg w)
unfolding log_info
log_info-CleanLog msg w h = ground (arith, (sanitize_for_logging_lem msg).1)

error_object-CleanLog :
    (exit_on_failure exit : Bool) (err : Option Text) (w : World)
    → CleanLog w
    → CleanLog (log_error_object exit_on_failure err exit w)
unfolding log_error_object
error_object-CleanLog exit_on_failure exit none w h = h
error_object-CleanLog exit_on_failure exit (some err) w h =
    ground (arith, (sanitize_for_logging_lem err).1)

safe_exit-CleanLog :
    (exit_on_failure : Bool) (msg : Text) (code : ℕ) (w : World)
    → CleanLog w
    → CleanLog (log_and_safe_exit exit_on_failure msg code w).0
unfolding log_and_safe_exit
safe_exit-CleanLog exit_on_failure msg code w h = ground (arith, (sanitize_for_logging_lem msg).1)

error_safe_exit-CleanLog :
    (exit_on_failure : Bool) (err : Option Text) (code : ℕ) (w : World)
    → CleanLog w
    → CleanLog (log_error_and_safe_exit exit_on_failure err code w).0
unfolding log_error_and_safe_exit
error_safe_exit-CleanLog exit_on_failure none code w h = h
error_safe_exit-CleanLog exit_on_failure (some err) code w h =
    ground (arith, (sanitize_for_logging_lem err).1)

-- `LogErrorObject`, `LogInfo`, `LogAndSafeExit` and `LogErrorAndSafeExit` keep the log clean: what
-- they write into it holds no line break, whatever the message or the error says.
pub logging-CleanLog :
    (exit_on_failure exit : Bool) (msg : Text) (err : Option Text) (code : ℕ) (w : World)
    → CleanLog w
    → CleanLog (log_error_object exit_on_failure err exit w)
      × CleanLog (log_info msg w)
      × CleanLog (log_and_safe_exit exit_on_failure msg code w).0
      × CleanLog (log_error_and_safe_exit exit_on_failure err code w).0
logging-CleanLog exit_on_failure exit msg err code w h = (
  error_object-CleanLog exit_on_failure exit err w h,
  log_info-CleanLog msg w h,
  safe_exit-CleanLog exit_on_failure msg code w h,
  error_safe_exit-CleanLog exit_on_failure err code w h,
)
