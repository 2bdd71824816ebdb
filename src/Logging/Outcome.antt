-- ===== src/Logging/Outcome.antt =====
-- When the functions of errorUtils.go end the process, and what they leave behind when they do not.
use tierceron.Base.{
  ℕ, ◌≡◌, refl, Bool, true, false, not, ◌&&◌, Option, none, some, List, [], ◌∷◌, arith,
  if◌then◌else◌,
}
use tierceron.GoStrings.{Text, is_empty}
use tierceron.Logging.{
  Logger, running, exited, World, say, say_all, check_error, check_error_no_stack, check_warning,
  check_warnings, log_error, log_warnings, log_warning_message, log_message_error_object,
  log_error_message, log_error_object, log_info, log_warnings_object, log_and_safe_exit,
  log_error_and_safe_exit,
}

-- A call of one of the functions, with its arguments.
pub data Call : Type 0 where
  error : Option Text → Bool → Call
  error_no_stack : Option Text → Bool → Call
  warning : Text → Bool → Call
  warnings : List Text → Bool → Call
  error_to_file : Option Text → Text → Bool → Call
  warnings_to_file : List Text → Text → Bool → Call
  warning_message : Text → Bool → Call
  message_error : Text → Option Text → Bool → Call
  error_message : Text → Bool → Call
  error_object : Option Text → Bool → Call
  info : Text → Call
  warnings_object : List Text → Bool → Call
  safe_exit : Text → ℕ → Call
  error_safe_exit : Option Text → ℕ → Call

unfoldable pub perform : Bool → Call → World → World
unfolding check_error check_error_no_stack check_warning check_warnings log_error log_warnings
    log_warning_message log_message_error_object log_error_message log_error_object log_info
    log_warnings_object log_and_safe_exit log_error_and_safe_exit
perform b (error e x) w = check_error b e x w
perform b (error_no_stack e x) w = check_error_no_stack b e x w
perform b (warning s x) w = check_warning b s x w
perform b (warnings l x) w = check_warnings b l x w
perform b (error_to_file e f x) w = log_error b e f x w
perform b (warnings_to_file l f x) w = log_warnings b l f x w
perform b (warning_message s x) w = log_warning_message b s x w
perform b (message_error s e x) w = log_message_error_object b s e x w
perform b (error_message s x) w = log_error_message b s x w
perform b (error_object e x) w = log_error_object b e x w
perform b (info s) w = log_info s w
perform b (warnings_object l x) w = log_warnings_object b l x w
perform b (safe_exit s n) w = (log_and_safe_exit b s n w).0
perform b (error_safe_exit e n) w = (log_error_and_safe_exit b e n w).0

abbrev is_error : Option Text → Bool
is_error none = false
is_error (some _) = true

-- There is something to report, and the caller wants the process to end.
abbrev pub wants_exit : Call → Bool
wants_exit (error e x) = is_error e && x
wants_exit (error_no_stack e x) = is_error e && x
wants_exit (warning s x) = not (is_empty s) && x
wants_exit (warnings l x) = not (is_empty l) && x
wants_exit (error_to_file e f x) = is_error e && x
wants_exit (warnings_to_file l f x) = not (is_empty l) && x
wants_exit (warning_message s x) = x
wants_exit (message_error s e x) = is_error e && x
wants_exit (error_message s x) = x
wants_exit (error_object e x) = is_error e && x
wants_exit (info s) = false
wants_exit (warnings_object l x) = not (is_empty l) && x
wants_exit (safe_exit s n) = true
wants_exit (error_safe_exit e n) = is_error e

abbrev pub exit_code : Call → Bool → ℕ
exit_code (error_to_file e f x) true = 255
exit_code (safe_exit s n) headless = n
exit_code (error_safe_exit e n) headless = n
exit_code _ headless = 1

say_all_frame :
    (lines : List Text) (w : World)
    → ((say_all lines w).status ≡ w.status)
      × ((say_all lines w).logger ≡ w.logger)
      × ((say_all lines w).std ≡ w.std)
unfolding say_all
say_all_frame [] w = (refl, refl, refl)
say_all_frame (line ∷ lines) w = ground (arith, say_all_frame lines (say line w))

abbrev prefix_of : Option Logger → Option Text
prefix_of none = none
prefix_of (some l) = some l.prefix

-- Each logger has the prefix that it had.
pub record Restored (l : Logger) (w w' : World) : Type 0 where
  pub logger_kept : prefix_of w'.logger ≡ some l.prefix
  pub std_kept : w'.std.prefix ≡ w.std.prefix

-- Where the configuration has a logger, a call ends the process exactly if there is something to
-- report, the caller asks for it and `ExitOnFailure` is set, and then with the code of the call.
pub perform-status :
    (exit_on_failure : Bool) (c : Call) (l : Logger) (w : World)
    → w.logger ≡ some l
    → w.status ≡ running
    → (perform exit_on_failure c w).status
      ≡ (if wants_exit c && exit_on_failure then exited (exit_code c w.headless) else running)
unfolding perform
perform-status b (error none x) l w h r = ground arith
perform-status b (error (some e) x) l w h r = ground arith
perform-status b (error_no_stack none x) l w h r = ground arith
perform-status b (error_no_stack (some e) x) l w h r = ground arith
perform-status b (warning [] x) l w h r = ground arith
perform-status b (warning (a ∷ s) x) l w h r = ground arith
perform-status b (warnings [] x) l w h r = ground arith
perform-status b (warnings (a ∷ s) x) l w h r = ground (arith, say_all_frame (a ∷ s) w)
perform-status b (error_to_file none f x) l w h r = ground arith
perform-status b (error_to_file (some e) f x) l w h r = ground arith
perform-status b (warnings_to_file [] f x) l w h r = ground arith
perform-status b (warnings_to_file (a ∷ s) f x) l w h r = ground arith
perform-status b (warning_message s x) l w h r = ground arith
perform-status b (message_error s none x) l w h r = ground arith
perform-status b (message_error s (some e) x) l w h r = ground arith
perform-status b (error_message s x) l w h r = ground arith
perform-status b (error_object none x) l w h r = ground arith
perform-status b (error_object (some e) x) l w h r = ground arith
perform-status b (info s) l w h r = ground arith
perform-status b (warnings_object [] x) l w h r = ground arith
perform-status b (warnings_object (a ∷ s) x) l w h r = ground arith
perform-status b (safe_exit [] n) l w h r = ground arith
perform-status b (safe_exit (a ∷ s) n) l w h r = ground arith
perform-status b (error_safe_exit none n) l w h r = ground arith
perform-status b (error_safe_exit (some e) n) l w h r = ground arith

-- Where the configuration has a logger, a call that does not end the process leaves both loggers with
-- the prefix that they had.
perform-Restored :
    (exit_on_failure : Bool) (c : Call) (l : Logger) (w : World)
    → w.logger ≡ some l
    → wants_exit c && exit_on_failure ≡ false
    → Restored l w (perform exit_on_failure c w)
unfolding perform
perform-Restored b (error none x) l w h r = ground arith
perform-Restored b (error (some e) x) l w h r = ground arith
perform-Restored b (error_no_stack none x) l w h r = ground arith
perform-Restored b (error_no_stack (some e) x) l w h r = ground arith
perform-Restored b (warning [] x) l w h r = ground arith
perform-Restored b (warning (a ∷ s) x) l w h r = ground arith
perform-Restored b (warnings [] x) l w h r = ground arith
perform-Restored b (warnings (a ∷ s) x) l w h r = ground (arith, say_all_frame (a ∷ s) w)
perform-Restored b (error_to_file none f x) l w h r = ground arith
perform-Restored b (error_to_file (some e) f x) l w h r = ground arith
perform-Restored b (warnings_to_file [] f x) l w h r = ground arith
perform-Restored b (warnings_to_file (a ∷ s) f x) l w h r = ground arith
perform-Restored b (warning_message s x) l w h r = ground arith
perform-Restored b (message_error s none x) l w h r = ground arith
perform-Restored b (message_error s (some e) x) l w h r = ground arith
perform-Restored b (error_message s x) l w h r = ground arith
perform-Restored b (error_object none x) l w h r = ground arith
perform-Restored b (error_object (some e) x) l w h r = ground arith
perform-Restored b (info s) l w h r = ground arith
perform-Restored b (warnings_object [] x) l w h r = ground arith
perform-Restored b (warnings_object (a ∷ s) x) l w h r = ground arith
perform-Restored b (safe_exit [] n) l w h r = ground arith
perform-Restored b (safe_exit (a ∷ s) n) l w h r = ground arith
perform-Restored b (error_safe_exit none n) l w h r = ground arith
perform-Restored b (error_safe_exit (some e) n) l w h r = ground arith
