-- ===== src/InitFlags/Acceptance.antt =====
-- What `CheckInitFlags` leaves of the flags, and what its tests would say of them.
use tierceron.Base.{◌↔◌, ◌≡◌, refl, Bool, true, false, ◌&&◌, ◌||◌, [], arith, if◌then◌else◌}
use tierceron.GoStrings.{is_empty}
use tierceron.InitFlags.{
  Flags, accepted, given, has_comma, filtered, set_base, shift_filters, check_values,
  check_init_flags,
}

-- The rules for the combination of flags.
pub record Allowed (f : Flags) : Type 0 where
  pub one_kind :
      filtered f ≡ true → given f.restricted && (given f.indexed || given f.protected) ≡ false
  pub not_both : given f.protected && given f.indexed ≡ false
  pub one_project :
      filtered f ≡ true → given f.restricted || given f.indexed ≡ true → has_comma f ≡ false
  pub full_index :
      given f.restricted || given f.indexed ≡ true
      → given f.service_name_filter || given f.index_value_filter ≡ true
      → given f.index_value_filter && given f.index_name_filter ≡ true

-- Flags are accepted only if they follow the rules.
check_values-Allowed : (f g : Flags) → check_values f ≡ accepted g → Allowed f
unfolding check_values
check_values-Allowed f g h = ground arith

Allowed-accepted : (f : Flags) → Allowed f → check_values f ≡ accepted (shift_filters (set_base f))
unfolding check_values
Allowed-accepted f a = ground arith

-- The tests pass exactly where the flags follow the rules, and leave one state.
check_values_iff :
    (f g : Flags) → (check_values f ≡ accepted g) ↔ (Allowed f × (g ≡ shift_filters (set_base f)))
check_values_iff f g = (
  (λ h. (
    check_values-Allowed f g h,
    ground (arith, Allowed-accepted f (check_values-Allowed f g h)),
  )),
  (λ a. ground (arith, Allowed-accepted f a.0)),
)

abbrev pub no_section : Flags → Bool
no_section f = is_empty f.restricted && (is_empty f.indexed && is_empty f.protected)

-- Where flags are accepted, `base` is set if it was or if no section is named, `only_base` if it was
-- or if `base` came without a section; an index value without a service name has become the service
-- name, and the names of the sections and of the index are as they were.
accepted_state :
    (f g : Flags)
    → check_values f ≡ accepted g
    → (g.base ≡ (f.base || no_section f))
      × (g.only_base ≡ (f.only_base || (f.base && no_section f)))
      × (g.service_name_filter ≡ (
          if is_empty f.service_name_filter then f.index_value_filter else f.service_name_filter))
      × (g.index_value_filter
          ≡ (if is_empty f.service_name_filter then [] else f.index_value_filter))
      × (g.indexed ≡ f.indexed)
      × (g.restricted ≡ f.restricted)
      × (g.protected ≡ f.protected)
      × (g.index_name_filter ≡ f.index_name_filter)
unfolding set_base shift_filters
accepted_state f g h =
    let leaves : g ≡ shift_filters (set_base f) = ((check_values_iff f g).0 h).1 in ground arith

-- The flags with their defaults but for `base`; `only_base` is no flag and stays.
abbrev pub defaults_with_base : Bool → Flags
defaults_with_base only = record {
  sub_path_filter = [];
  service_name_filter = [];
  service_filter = [];
  index_name_filter = [];
  index_value_filter = [];
  indexed = [];
  restricted = [];
  protected = [];
  base = true;
  only_base = only;
}

-- Whatever the flags are before, `CheckInitFlags` goes on, with each flag at its default but for
-- `base`, which it sets, and with `only_base` as it was. Its tests, which it makes only on the
-- defaults, would pass on the flags from before exactly if they follow the rules.
pub check_init_flags-Allowed :
    (f : Flags)
    → (check_init_flags f ≡ accepted (defaults_with_base f.only_base))
      × (((g : Flags) × (check_values f ≡ accepted g)) ↔ Allowed f)
unfolding check_init_flags
check_init_flags-Allowed f = (
  refl,
  (
    (λ h. check_values-Allowed f h.0 h.1),
    (λ a. (shift_filters (set_base f), Allowed-accepted f a)),
  ),
)
