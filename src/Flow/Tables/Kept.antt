-- ===== src/Flow/Tables/Kept.antt =====
-- The triggers that stand before and after a table is filled.
use mathlib.Core.List.{Permᴰ}
use tierceron.Base.{
  ◌≡◌, refl, sym, ◌∙◌, Bool, false, List, [], ◌∷◌, ◌++◌, All, Bool-cases, inl, inr, append-nil,
  append_assoc,
}
use tierceron.GoStrings.{Text}
use tierceron.ChangeTracking.Triggers.{Trigger}
use tierceron.Flow.Tables.{taken, remove_triggers, restore_triggers, seed_trc_db_cycle}

restore-append :
    (create_fails : Trigger → Bool) (removed triggers : List Trigger)
    → All (λ t. create_fails t ≡ false) removed
    → restore_triggers create_fails removed triggers ≡ triggers ++ removed
unfolding restore_triggers
restore-append create_fails [] triggers h = sym (append-nil triggers)
restore-append create_fails (t ∷ removed) triggers (h, hs) = rw h (
    restore-append create_fails removed (triggers ++ t ∷ []) hs
    ∙ append_assoc triggers (t ∷ []) removed)

remove-All :
    (P : Trigger → Type 0) (flow : Text) (drop_fails : Trigger → Bool) (triggers : List Trigger)
    → All P triggers
    → All P (remove_triggers flow drop_fails triggers).1
unfolding remove_triggers
remove-All P flow drop_fails [] h = tt
remove-All P flow drop_fails (t ∷ triggers) (h, hs) =
    let rest = remove-All P flow drop_fails triggers hs in
    elim (Bool-cases (taken flow drop_fails t)) [ inl e ↦ rw e (h, rest) | inr e ↦ rw e rest ]

remove-kept :
    (flow : Text) (drop_fails : Trigger → Bool) (triggers : List Trigger)
    → All (λ t. taken flow drop_fails t ≡ false) (remove_triggers flow drop_fails triggers).0
unfolding remove_triggers
remove-kept flow drop_fails [] = tt
remove-kept flow drop_fails (t ∷ triggers) =
    let rest = remove-kept flow drop_fails triggers in
    elim (Bool-cases (taken flow drop_fails t)) [ inl e ↦ rw e rest | inr e ↦ rw e (e, rest) ]

same-Perm : (ts : List Trigger) → Permᴰ ts ts
same-Perm [] = Permᴰ.nil
same-Perm (t ∷ ts) = Permᴰ.cons refl (same-Perm ts)

middle : (t : Trigger) (xs ys : List Trigger) → Permᴰ (xs ++ t ∷ ys) (t ∷ (xs ++ ys))
middle t [] ys = same-Perm (t ∷ ys)
middle t (x ∷ xs) ys = Permᴰ.trans (Permᴰ.cons refl (middle t xs ys)) (Permᴰ.swap refl refl)

remove-Perm :
    (flow : Text) (drop_fails : Trigger → Bool) (triggers : List Trigger)
    → Permᴰ
        ((remove_triggers flow drop_fails triggers).0
          ++ (remove_triggers flow drop_fails triggers).1)
        triggers
unfolding remove_triggers
remove-Perm flow drop_fails [] = Permᴰ.nil
remove-Perm flow drop_fails (t ∷ triggers) =
    let (kept, removed) = remove_triggers flow drop_fails triggers in
    let rest = Permᴰ.cons (refl {a = t}) (remove-Perm flow drop_fails triggers) in
    elim (Bool-cases (taken flow drop_fails t)) [
      | inl e ↦ rw e (Permᴰ.trans (middle t kept removed) rest)
      | inr e ↦ rw e rest
    ]

-- Where `GetTriggers` is answered, no trigger of the flow that the database lets go stands while the
-- table is filled, and if no trigger fails to be made again, then afterwards the triggers are those
-- from before, each as often, in some order.
pub seed_trc_db_cycle-Perm :
    (drop_fails create_fails : Trigger → Bool) (flow : Text) (triggers : List Trigger)
    → All (λ t. create_fails t ≡ false) triggers
    → All
        (λ t. taken flow drop_fails t ≡ false)
        (seed_trc_db_cycle false drop_fails create_fails flow triggers).0
      × Permᴰ (seed_trc_db_cycle false drop_fails create_fails flow triggers).1 triggers
unfolding seed_trc_db_cycle
seed_trc_db_cycle-Perm drop_fails create_fails flow triggers h =
    let (kept, removed) = remove_triggers flow drop_fails triggers in
    let again =
      restore-append create_fails removed kept
        (remove-All (λ t. create_fails t ≡ false) flow drop_fails triggers h) in
    (remove-kept flow drop_fails triggers, rw again (remove-Perm flow drop_fails triggers))
