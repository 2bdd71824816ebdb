-- ===== src/InitFlags/Examples.antt =====
-- Runs of `CheckInitFlags`, and its theorems at concrete flags.
use tierceron.Base.{◌≡◌, ◌↔◌, refl, true, false, []}
use tierceron.GoStrings.{codes}
use tierceron.InitFlags.{
  Flags, accepted, exited, protected_with_indexed, check_values, check_init_flags,
}
use tierceron.InitFlags.Acceptance.{Allowed, defaults_with_base, check_init_flags-Allowed}

-- One restricted project, filtered by an index and a value.
abbrev one_index : Flags
one_index = record {
  sub_path_filter = [];
  service_name_filter = [];
  service_filter = [];
  index_name_filter = codes "tenant";
  index_value_filter = codes "7";
  indexed = [];
  restricted = codes "Hive";
  protected = [];
  base = false;
  only_base = false;
}

abbrev after_index : Flags
after_index = record one_index { service_name_filter = codes "7"; index_value_filter = [] }

abbrev two_kinds : Flags
two_kinds = record one_index {
  indexed = codes "A";
  protected = codes "B";
  restricted = [];
  only_base = true;
}

refused : check_values two_kinds ≡ exited protected_with_indexed
unfolding check_values
refused = refl

passes : check_values one_index ≡ accepted after_index
unfolding check_values
passes = refl

-- What the tests would refuse, the function lets through.
check_init_flags-Allowed_example :
    (check_init_flags two_kinds ≡ accepted (defaults_with_base true))
    × (((g : Flags) × (check_values two_kinds ≡ accepted g)) ↔ Allowed two_kinds)
check_init_flags-Allowed_example = check_init_flags-Allowed two_kinds
