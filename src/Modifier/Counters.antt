-- ===== src/Modifier/Counters.antt =====
-- `AdjustValue`: counters in the data of a path. `none` is a panic.
use tierceron.Base.{
  ◌+◌, ◌≡◌, ◌≢◌, refl, Bool, true, false, Option, none, some, List, [], ◌∷◌, ◌++◌, if◌then◌else◌, ℤ,
  pos, negsuc, ◌+ℤ◌, ltb_ℤ,
}
use tierceron.GoStrings.{Text, codes}
use tierceron.GoStrings.Equality.{text_eq-false}
use tierceron.GoNumbers.{atoi, itoa, max_int}
use tierceron.GoNumbers.RoundTrip.{InInt64, atoi-itoa}
use tierceron.Modifier.{Modifier}
use tierceron.Modifier.Operations.{write_data}
use tierceron.Modifier.ReadData.{Memory, read_data}
use tierceron.Modifier.Vault.{
  text, null, Value, scalar, items, Fields, Vault, Outcome, returned, panicked, lookup, assign,
  lookup-assign, lookup-assign_other,
}

-- the sum of two int64
unfoldable pub add_int64 : ℤ → ℤ → ℤ
add_int64 a b =
    let sum = a +ℤ b in
    if ltb_ℤ (pos max_int) sum
    then sum +ℤ negsuc 18446744073709551615
    else if ltb_ℤ sum (negsuc max_int)
    then sum +ℤ pos 18446744073709551616
    else sum

-- the stored text, which is 0 where there is none; `none` is a value that is no text
abbrev pub stored : Option Value → Option Text
stored none = some (codes "0")
stored (some (scalar (text s))) = some s
stored (some (scalar null)) = some (codes "0")
stored (some _) = none

abbrev adjusted : Text → ℤ → Fields → ℤ × Bool → Fields
adjusted key n d (value, false) = d
adjusted key n d (value, true) = assign key (scalar (text (itoa (add_int64 value n)))) d

abbrev adjust_stored : Text → ℤ → Fields → Option Text → Option Fields
adjust_stored key n d none = none
adjust_stored key n d (some s) = some (adjusted key n d (atoi s))

unfoldable pub adjust_key : Text → ℤ → Fields → Option Fields
adjust_key key n d = adjust_stored key n d (stored (lookup key d))

-- one entry of the data: a list names the key by its first two texts, all else is passed over
abbrev pub adjust_entry : ℤ → Value → Fields → Option Fields
adjust_entry n (scalar s) d = some d
adjust_entry n (items (text a ∷ text b ∷ rest)) d = adjust_key (a ++ (codes "." ++ b)) n d
adjust_entry n (items _) d = none

abbrev and_then : Option Fields → (Fields → Option Fields) → Option Fields
and_then none k = none
and_then (some d) k = k d

-- the loop over the values of the data, in the order in which they are visited
unfoldable pub adjust_all : ℤ → List Value → Fields → Option Fields
unfolding adjust_key
adjust_all n [] d = some d
adjust_all n (v ∷ vs) d = and_then (adjust_entry n v d) (adjust_all n vs)

abbrev or_new : Option Fields → Fields
or_new none = []
or_new (some d) = d

abbrev write_adjusted : Modifier → Vault → Text → Option Fields → Outcome (List Text)
write_adjusted m vault path none = panicked
write_adjusted m vault path (some d) = write_data m vault path d

abbrev adjust_read :
    Modifier → Vault → Text → List Value → ℤ → Outcome (Option Fields) → Outcome (List Text)
adjust_read m vault path vs n panicked = panicked
adjust_read m vault path vs n (returned d (some e) requests log) = returned [] (some e) requests log
adjust_read m vault path vs n (returned d none requests log) =
    write_adjusted m (λ k r. vault (requests + k) r) path (adjust_all n vs (or_new d))

-- `AdjustValue`; the requests of the write are counted from the end of the read on.
unfoldable pub adjust_value :
    Memory → Modifier → Vault → Text → List Value → ℤ → Outcome (List Text)
unfolding read_data write_data adjust_all
adjust_value memory m vault path vs n =
    let (result, m') = read_data memory m vault path in adjust_read m' vault path vs n result

-- A counter that holds a number in decimal, or that is missing and counts as 0, holds the sum
-- afterwards, with the wrap around of int64, and no other counter changes.
pub adjust_key-sum :
    (key other : Text) (old n : ℤ) (d : Fields)
    → InInt64 old
    → stored (lookup key d) ≡ some (itoa old)
    → key ≢ other
    → (e : Fields) × (adjust_key key n d ≡ some e)
      × (lookup key e ≡ some (scalar (text (itoa (add_int64 old n)))))
      × (lookup other e ≡ lookup other d)
unfolding adjust_key
adjust_key-sum key other old n d h k l =
    let v : Value = scalar (text (itoa (add_int64 old n))) in
    (
      assign key v d,
      rw (k, atoi-itoa old h) refl,
      lookup-assign key v d,
      lookup-assign_other key other v d (text_eq-false key other l),
    )
