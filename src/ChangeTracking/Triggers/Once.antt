-- ===== src/ChangeTracking/Triggers/Once.antt =====
-- The triggers after calls of the functions, and errors of the database.
use tierceron.Base.{
  ◌≡◌, refl, true, false, List, [], ◌∷◌, ◌++◌, arith, if◌then◌else◌, Bool-cases, inl, inr, ap, ◌∙◌,
}
use tierceron.GoStrings.{Text, codes}
use tierceron.GoStrings.Equality.{text_eq_refl}
use tierceron.ChangeTracking.Triggers.{
  Trigger, Tables, Created, created, fatal, blocked, trigger_name, trigger_exists, unlock,
  new_triggers, add_triggers, create_table_triggers, create_given_triggers, unlock_on_error,
  and_then, get_update_trigger, get_insert_trigger, get_delete_trigger,
}

trigger_exists-append :
    (table update insert delete : Text) (ts : List Trigger)
    → trigger_exists table (ts ++ new_triggers table update insert delete) ≡ true
unfolding trigger_exists
trigger_exists-append table update insert delete [] =
    ground (arith, text_eq_refl (trigger_name (codes "Update") table))
trigger_exists-append table update insert delete ((n, s) ∷ ts) =
    ground (arith, trigger_exists-append table update insert delete ts)

-- triggers that are there are not made again
add_triggers-exists :
    (table update insert delete : Text) (t : Tables)
    → t.refuses ≡ false
    → (trigger_exists table (add_triggers table update insert delete t).triggers ≡ true)
      × ((add_triggers table update insert delete t).refuses ≡ false)
      × ((add_triggers table update insert delete t).locked ≡ t.locked)
add_triggers-exists table update insert delete t h =
    elim (Bool-cases (trigger_exists table t.triggers)) [
      | inl e ↦ ground (arith, e, h)
      | inr e ↦ ground (arith, e, h, trigger_exists-append table update insert delete t.triggers)
    ]

unlock_on_error-none : (t : Tables) → t.refuses ≡ false → unlock_on_error t ≡ created t
unlock_on_error-none t h = ground (arith, h)

unlock-held : (t : Tables) → t.locked ≡ true → unlock t ≡ created (record t { locked = false })
unlock-held t h = ground (arith, h)

-- what a call does under the lock
abbrev run : Text → Text → Text → Text → Tables → Created
run table update insert delete t =
    and_then (unlock_on_error t) (λ s. unlock (add_triggers table update insert delete s))

run-held :
    (table update insert delete : Text) (t : Tables)
    → t.refuses ≡ false
    → t.locked ≡ true
    → run table update insert delete t
      ≡ created (record (add_triggers table update insert delete t) { locked = false })
run-held table update insert delete t h k =
    let (e, r, l) = add_triggers-exists table update insert delete t h in
    ap (λ c. and_then c (λ s. unlock (add_triggers table update insert delete s)))
      (unlock_on_error-none t h)
    ∙ unlock-held (add_triggers table update insert delete t) (l ∙ k)

add_triggers-again :
    (table update insert delete : Text) (t : Tables)
    → t.refuses ≡ false
    → trigger_exists table t.triggers ≡ true
    → add_triggers table update insert delete t ≡ t
add_triggers-again table update insert delete t h k = ground (arith, h, k)

-- Where the database answers and the lock of the tables is free, `CreateTableTriggers` goes on with
-- the lock free, the table has triggers, and a second call changes nothing.
pub create_table_triggers-once :
    (database table column : Text) (t : Tables)
    → t.locked ≡ false
    → t.refuses ≡ false
    → (s : Tables) × (create_table_triggers database table column t ≡ created s)
      × (s.locked ≡ false)
      × (trigger_exists table s.triggers ≡ true)
      × (create_table_triggers database table column s ≡ created s)
unfolding create_table_triggers
create_table_triggers-once database table column t h k =
    let update = get_update_trigger database table column in
    let insert = get_insert_trigger database table column in
    let delete = get_delete_trigger database table column in
    let held : Tables = record t { locked = true } in
    let added = add_triggers table update insert delete held in
    let (e, r, l) = add_triggers-exists table update insert delete held k in
    (
      record added { locked = false },
      ap (λ b. if b then blocked else run table update insert delete held) h
          ∙ run-held table update insert delete held k refl,
      refl,
      e,
      run-held table update insert delete (record added { locked = true }) r refl
          ∙ ap (λ s. created (record s { locked = false }))
              (add_triggers-again table update insert delete (record added { locked = true }) r e),
    )

no_triggers : (table : Text) → trigger_exists table [] ≡ false
unfolding trigger_exists
no_triggers table = refl

-- Where `GetTriggers` answers with an error: `CreateTableTriggers` ends the process by the unlock
-- of a free lock, if it has got the lock at all, and the functions for the other tables end the
-- process as well where the lock is free, and where it is not they free a lock that another holds
-- and add the triggers again, whether they are there or not.
pub triggers-on_error :
    (database table column update insert delete : Text) (t : Tables)
    → t.refuses ≡ true
    → (create_table_triggers database table column t ≡ (if t.locked then blocked else fatal))
      × (create_given_triggers table update insert delete t ≡ (
          if t.locked
          then created (record t {
            locked = false;
            triggers = t.triggers ++ new_triggers table update insert delete;
          })
          else fatal))
unfolding create_table_triggers create_given_triggers
triggers-on_error database table column update insert delete t h = elim (Bool-cases t.locked) [
  | inl e ↦ ground (arith, h, e, no_triggers table)
  | inr e ↦ ground (arith, h, e, no_triggers table)
]
