-- ===== src/Logging.antt =====
-- pkg/utils/errorUtils.go: what is printed and logged on an error or a warning, and when the
-- process ends. The process is a record; after an exit or a panic no later statement runs.
pub mod Sanitized
pub mod Outcome
mod Examples
use tierceron.Base.{
  ℕ, Bool, true, false, not, ◌&&◌, Option, none, some, List, [], ◌∷◌, ◌++◌, if◌then◌else◌,
}
use tierceron.GoStrings.{Text, codes, is_empty, replace_all}

-- A `log.Logger`: its prefix, the file that it writes to, and its lines, newest first, each with
-- the prefix of its time.
pub record Logger : Type 0 where
  pub prefix : Text
  pub output : Text
  pub lines : List (Text × Text)

-- An exit code -1 stands as the status 255.
pub data Status : Type 0 where
  running : Status
  exited : ℕ → Status
  panicked : Status

-- `logger` is `config.Log`, `std` is the logger of the package `log`, `console` is what
-- `fmt.Println` and `fmt.Printf` print, newest first, and `headless` is `headlessService`.
pub record World : Type 0 where
  pub logger : Option Logger
  pub std : Logger
  pub console : List Text
  pub headless : Bool
  pub status : Status

abbrev pub error_prefix : Text
error_prefix = codes "[ERROR]"

abbrev pub warn_prefix : Text
warn_prefix = codes "[WARN]"

abbrev pub warns_prefix : Text
warns_prefix = codes "[WARNS]"

abbrev pub info_prefix : Text
info_prefix = codes "[INFO]"

-- `os.Exit(code)`
abbrev os_exit : ℕ → World → World
os_exit code w = record w { status = exited code }

-- `fmt.Println(line)` if the service is not headless
say : Text → World → World
say line w = if w.headless then w else record w { console = line ∷ w.console }

-- `for _, w := range warnings { fmt.Println(w) }` if the service is not headless
say_all : List Text → World → World
unfolding say
say_all [] w = w
say_all (line ∷ lines) w = say_all lines (say line w)

abbrev write_line : Text → Logger → Logger
write_line line l = record l { lines = (l.prefix, line) ∷ l.lines }

abbrev write_lines : List Text → Logger → Logger
write_lines [] l = l
write_lines (line ∷ rest) l = write_lines rest (write_line line l)

-- `SanitizeForLogging`
unfoldable pub sanitize_for_logging : Text → Text
unfolding replace_all
sanitize_for_logging s = replace_all (replace_all s (codes "\n") []) (codes "\r") []

abbrev errors_notice : Text
errors_notice = codes "Errors encountered, exiting and writing to log file"

abbrev warnings_notice : Text
warnings_notice = codes "Warnings encountered, exiting and writing to log file"

-- `CheckError`: `log.Fatal` writes to the standard logger and ends the process.
unfoldable pub check_error : Bool → Option Text → Bool → World → World
check_error exit_on_failure none exit w = w
check_error exit_on_failure (some err) exit w =
    if exit && exit_on_failure then os_exit 1 (record w { std = write_line err w.std }) else w

-- `CheckErrorNoStack`
unfoldable pub check_error_no_stack : Bool → Option Text → Bool → World → World
unfolding say
check_error_no_stack exit_on_failure none exit w = w
check_error_no_stack exit_on_failure (some err) exit w =
    let w' = say err w in if exit && exit_on_failure then os_exit 1 w' else w'

-- `CheckWarning`
unfoldable pub check_warning : Bool → Text → Bool → World → World
unfolding say
check_warning exit_on_failure [] exit w = w
check_warning exit_on_failure (c ∷ s) exit w =
    let w' = say (c ∷ s) w in if exit && exit_on_failure then os_exit 1 w' else w'

-- `CheckWarnings`
unfoldable pub check_warnings : Bool → List Text → Bool → World → World
unfolding say_all
check_warnings exit_on_failure [] exit w = w
check_warnings exit_on_failure (x ∷ xs) exit w =
    let w' = say_all (x ∷ xs) w in if exit && exit_on_failure then os_exit 1 w' else w'

-- `LogError`: the standard logger is sent to the file and stays there.
unfoldable pub log_error : Bool → Option Text → Text → Bool → World → World
unfolding say
log_error exit_on_failure none file exit w = w
log_error exit_on_failure (some err) file exit w =
    let l = record (w.std) { output = file; prefix = error_prefix } in
    let written = write_line err l in
    let silent = os_exit 255 (record w { std = l }) in
    let fatal =
      os_exit 1 (say (errors_notice ++ codes ": " ++ file) (record w { std = written })) in
    let quiet = record w { std = record l { prefix = w.std.prefix } } in
    let logged = record w { std = record written { prefix = w.std.prefix } } in
    if exit && exit_on_failure
    then if w.headless then silent else fatal
    else if w.headless
    then quiet
    else logged

-- `LogWarnings`
unfoldable pub log_warnings : Bool → List Text → Text → Bool → World → World
unfolding say
log_warnings exit_on_failure [] file exit w = w
log_warnings exit_on_failure (x ∷ xs) file exit w =
    let l = record (w.std) { output = file; prefix = warns_prefix } in
    let written = if w.headless then l else write_lines (x ∷ xs) l in
    if exit && exit_on_failure
    then os_exit 1 (say (warnings_notice ++ codes ": " ++ file) (record w { std = written }))
    else record w { std = record written { prefix = w.std.prefix } }

-- A use of `config.Log`: a method of a nil logger panics.
abbrev with_logger : Option Logger → (Logger → World) → World → World
with_logger none k w = record w { status = panicked }
with_logger (some l) k w = k l

-- The common end of the functions on `config.Log`: under another prefix the lines are written, and
-- the process ends, or the prefix is put back.
log_under : Text → List Text → Bool → Logger → World → World
log_under prefix lines fatal l w =
    let written = write_lines lines (record l { prefix = prefix }) in
    if fatal
    then os_exit 1 (record w { logger = some written })
    else record w { logger = some (record written { prefix = l.prefix }) }

-- `LogWarningMessage`
unfoldable pub log_warning_message : Bool → Text → Bool → World → World
unfolding say log_under
log_warning_message exit_on_failure message exit w =
    let fatal = exit && exit_on_failure in
    let w' = if fatal then say errors_notice w else w in
    with_logger w.logger (λ l. log_under warn_prefix (message ∷ []) fatal l w') w

-- the lines of `LogMessageErrorObject` that do not end the process
abbrev message_and_error : Text → Text → List Text
message_and_error [] err = err ∷ []
message_and_error (c ∷ s) err = (c ∷ s) ∷ err ∷ []

-- `LogMessageErrorObject`
unfoldable pub log_message_error_object : Bool → Text → Option Text → Bool → World → World
unfolding say log_under
log_message_error_object exit_on_failure message none exit w = w
log_message_error_object exit_on_failure message (some err) exit w =
    let fatal = exit && exit_on_failure in
    let w' = if fatal then say (errors_notice ++ codes ": " ++ err) w else w in
    let lines = if fatal then err ∷ [] else message_and_error message err in
    with_logger w.logger (λ l. log_under error_prefix lines fatal l w') w

-- `LogErrorMessage`
unfoldable pub log_error_message : Bool → Text → Bool → World → World
unfolding say log_under
log_error_message exit_on_failure message exit w =
    let fatal = exit && exit_on_failure in
    let w' = if fatal then say errors_notice w else w in
    with_logger w.logger (λ l. log_under error_prefix (message ∷ []) fatal l w') w

-- `LogErrorObject`
unfoldable pub log_error_object : Bool → Option Text → Bool → World → World
unfolding say log_under
log_error_object exit_on_failure none exit w = w
log_error_object exit_on_failure (some err) exit w =
    let fatal = exit && exit_on_failure in
    let w' = if fatal then say (errors_notice ++ codes ": " ++ err) w else w in
    let lines = sanitize_for_logging err ∷ [] in
    with_logger w.logger (λ l. log_under error_prefix lines fatal l w') w

-- `LogInfo` does nothing to a logger that is nil.
abbrev info_line : Text → Option Logger → World → World
info_line line none w = w
info_line line (some l) w = log_under info_prefix (line ∷ []) false l w

-- `LogInfo`
unfoldable pub log_info : Text → World → World
unfolding say log_under
log_info msg w = let line = sanitize_for_logging msg in info_line line w.logger (say line w)

-- `LogWarningsObject` prints its notice after the warnings are logged.
unfoldable pub log_warnings_object : Bool → List Text → Bool → World → World
unfolding say log_under
log_warnings_object exit_on_failure [] exit w = w
log_warnings_object exit_on_failure (x ∷ xs) exit w =
    let fatal = exit && exit_on_failure in
    let w' = if fatal then say warnings_notice w else w in
    with_logger w.logger (λ l. log_under warns_prefix (x ∷ xs) fatal l w') w

abbrev info_if_set : Text → Option Logger → World → World
info_if_set message none w = w
info_if_set message (some l) w = log_info message w

-- `LogAndSafeExit`: where the process goes on, the message comes back as an error.
unfoldable pub log_and_safe_exit : Bool → Text → ℕ → World → World × Text
unfolding log_info
log_and_safe_exit exit_on_failure message code w =
    let w' = if is_empty message then w else info_if_set message w.logger w in
    (if exit_on_failure then os_exit code w' else w', message)

-- `LogErrorAndSafeExit`
unfoldable pub log_error_and_safe_exit : Bool → Option Text → ℕ → World → World × Option Text
unfolding log_info
log_error_and_safe_exit exit_on_failure none code w = (w, none)
log_error_and_safe_exit exit_on_failure (some err) code w =
    let w' = info_if_set err w.logger w in
    (if exit_on_failure then os_exit code w' else w', some err)
