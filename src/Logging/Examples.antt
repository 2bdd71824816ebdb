-- ===== src/Logging/Examples.antt =====
-- Runs of the logging functions, and their theorems at concrete calls.
use tierceron.Base.{◌≡◌, refl, true, false, some, [], ◌∷◌}
use tierceron.GoStrings.{Text, codes}
use tierceron.Logging.{
  Logger, running, World, sanitize_for_logging, log_error_object, log_info, log_and_safe_exit,
  log_error_and_safe_exit,
}
use tierceron.Logging.Sanitized.{CleanLog, logging-CleanLog}

abbrev fresh : Logger
fresh = record { prefix = codes "[trc]"; output = codes "trc.log"; lines = [] }

abbrev start : World
start = record {
  logger = some fresh;
  std = fresh;
  console = [];
  headless = false;
  status = running;
}

abbrev forged : Text
forged = codes "denied\n[INFO]granted"

logged_on_one_line :
    (log_error_object false (some forged) false start).logger
    ≡ some (record fresh { lines = (codes "[ERROR]", codes "denied[INFO]granted") ∷ [] })
unfolding log_error_object sanitize_for_logging
logged_on_one_line = refl

logging-CleanLog_example :
    CleanLog (log_error_object true (some forged) false start)
    × CleanLog (log_info forged start)
    × CleanLog (log_and_safe_exit true forged 1 start).0
    × CleanLog (log_error_and_safe_exit true (some forged) 1 start).0
logging-CleanLog_example = logging-CleanLog true false forged (some forged) 1 start tt
