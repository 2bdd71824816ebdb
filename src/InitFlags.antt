-- ===== src/InitFlags.antt =====
-- pkg/utils/indexedFlagUtil.go: the flags that name indexed, restricted and protected projects.
-- The global pointers are the fields of a record; `os.Exit(1)` is an error with its reason.
pub mod Acceptance
mod Examples
use tierceron.Base.{Bool, true, false, not, ◌&&◌, ◌||◌, ◌≡◌, [], ◌∷◌, if◌then◌else◌}
use tierceron.GoStrings.{Text, codes, is_empty, contains}

pub record Flags : Type 0 where
  pub sub_path_filter : Text
  pub service_name_filter : Text
  pub service_filter : Text
  pub index_name_filter : Text
  pub index_value_filter : Text
  pub indexed : Text
  pub restricted : Text
  pub protected : Text
  pub base : Bool
  pub only_base : Bool

-- What is printed before the exit.
pub data Reason : Type 0 where
  comma_with_additional_filters : Reason
  index_filter_required : Reason
  index_value_filter_required : Reason
  restricted_with_indexed : Reason
  protected_with_indexed : Reason
  restricted_with_protected : Reason
  comma_with_filters : Reason

pub data Checked : Type 0 where
  accepted : Flags → Checked
  exited : Reason → Checked

-- `initglobals`: the flags are registered, with their default values. `OnlyBasePtr` is no flag.
unfoldable pub init_globals : Flags → Flags
init_globals f = record {
  sub_path_filter = [];
  service_name_filter = [];
  service_filter = [];
  index_name_filter = [];
  index_value_filter = [];
  indexed = [];
  restricted = [];
  protected = [];
  base = false;
  only_base = f.only_base;
}

-- `len(*ptr) > 0`
abbrev pub given : Text → Bool
given s = not (is_empty s)

abbrev pub has_comma : Flags → Bool
has_comma f = contains f.restricted (codes ",") || contains f.indexed (codes ",")

abbrev pub filtered : Flags → Bool
filtered f =
    given f.index_name_filter || (given f.service_name_filter || given f.index_value_filter)

-- `checkInitFlagHelper`, and what follows it where it returns
unfoldable pub check_init_flag_helper : Flags → Checked → Checked
unfolding contains
check_init_flag_helper f next =
    if given f.index_value_filter
    then if given f.index_name_filter
      then if has_comma f then exited comma_with_additional_filters else next
      else exited index_filter_required
    else exited index_value_filter_required

-- `if len(restricted) == 0 && … { if *BasePtr { OnlyBasePtr = true }; *BasePtr = true }`
unfoldable pub set_base : Flags → Flags
set_base f =
    if is_empty f.restricted && (is_empty f.indexed && is_empty f.protected)
    then record f { base = true; only_base = if f.base then true else f.only_base }
    else f

-- The index value becomes the service name where no service name is given.
unfoldable pub shift_filters : Flags → Flags
shift_filters f =
    if given f.index_value_filter && is_empty f.service_name_filter
    then record f { service_name_filter = f.index_value_filter; index_value_filter = [] }
    else f

-- The body of `CheckInitFlags` behind `initglobals`, which leaves it nothing but the default values.
unfoldable pub check_values : Flags → Checked
unfolding check_init_flag_helper set_base shift_filters
check_values f =
    let done = accepted (shift_filters (set_base f)) in
    let helped = check_init_flag_helper f done in
    if given f.restricted && (given f.indexed && filtered f)
    then exited restricted_with_indexed
    else if given f.protected && given f.indexed
    then exited protected_with_indexed
    else if given f.restricted && (given f.protected && filtered f)
    then exited restricted_with_protected
    else if (given f.restricted || given f.indexed) && (filtered f && has_comma f)
    then exited comma_with_filters
    else if given f.restricted || given f.indexed
    then if given f.service_name_filter
      then helped
      else if given f.index_value_filter
      then helped
      else done
    else done

-- `CheckInitFlags`, on what the global pointers hold before
unfoldable pub check_init_flags : Flags → Checked
unfolding check_values init_globals
check_init_flags f = check_values (init_globals f)
