-- ===== src/Flow/Cycle/Waiting.antt =====
-- When the cycle of a flow waits for ever for the lock.
use tierceron.Base.{
  ℕ, ◌<◌, ◌≡◌, ◌⊎◌, inl, inr, refl, true, false, Bool, Option, none, some, List, [], ◌∷◌, arith,
  All, All-append,
}
use tierceron.GoStrings.{Text}
use tierceron.ChangeTracking.Removal.{
  Engine, Process, Removal, removed, failed, panicked, blocked, remove_changes,
}
use tierceron.ChangeTracking.Removal.Locking.{Leaves, remove_changes-Leaves}
use tierceron.Flow.Effects.{Settings, Calls, Effect, asked, pushed, deleted, seeded, alerted}
use tierceron.Flow.Persist.Allowed.{EffectsAllowed, persist-EffectsAllowed}
use tierceron.Flow.Persist.Steps.{Allowed, alerts_of}
use tierceron.Flow.Persist.{
  Persisted, persisted, not_removed, broken, waiting, finished, persist_entries, names_after,
  after_removal, vault_persist_push_remote_changes,
}
use tierceron.Flow.Cycle.{
  Event, signalled, changed, done, noticed, Cycling, Course, running, ended, exited, crashed, stuck,
  after_persist, persist_once, finish, cycle_event, next_turn, seed_vault_cycle,
}

-- What a call that persists changes leaves of a free lock: after an error of the removal, every
-- later call waits for ever.
abbrev pub Frees : Persisted → Type 0
Frees (persisted s names p) = p.locked ≡ false
Frees (not_removed p) =
    (engine : Engine) (w : Calls) (f : Settings)
    → vault_persist_push_remote_changes engine w f p ≡ waiting
Frees (broken p) = Unit
Frees waiting = ⊥

finished-Frees :
    (o : Option (List Effect)) (names : List Text) (p : Process)
    → p.locked ≡ false
    → Frees (finished o names p)
finished-Frees none names p h = tt
finished-Frees (some s) names p h = h

after_removal-Frees :
    (w : Calls) (f : Settings) (r : Removal) → Leaves r → Frees (after_removal w f r)
unfolding vault_persist_push_remote_changes
after_removal-Frees w f (removed rows p) h =
    finished-Frees (persist_entries w f rows []) (names_after f.identity f.index_names rows) p h
after_removal-Frees w f (failed p) h =
    λ engine v g. rw (h engine g.database g.change_table g.identity g.index_names) refl
after_removal-Frees w f (panicked p) h = tt
after_removal-Frees w f blocked h = absurd h

persist-Frees :
    (engine : Engine) (w : Calls) (f : Settings) (p : Process)
    → p.locked ≡ false
    → Frees (vault_persist_push_remote_changes engine w f p)
unfolding vault_persist_push_remote_changes
persist-Frees engine w f p h =
    after_removal-Frees w f
      (remove_changes engine f.database f.change_table f.identity f.index_names p)
      (remove_changes-Leaves engine f.database f.change_table f.identity f.index_names p h)

abbrev pub is_alert : Effect → Bool
is_alert (alerted a) = true
is_alert _ = false

-- No alert has been sent, and the flow sends none.
abbrev pub Silent : Cycling → Type 0
Silent c = (alerts_of c.settings ≡ false) × All (λ e. is_alert e ≡ false) c.effects

-- The flow is silent, and the lock is free, or a removal of the cycle has failed and then every later
-- call waits.
abbrev pub Sound : Cycling → Type 0
Sound c =
    Silent c
    × ((c.process.locked ≡ false)
        ⊎ ((0 < c.failures)
            × ((engine : Engine) (w : Calls) (f : Settings)
                → vault_persist_push_remote_changes engine w f c.process ≡ waiting)))

-- A cycle that waits for ever has had a failed removal and has sent no alert; one that has panicked
-- is not considered.
abbrev pub CourseSound : Course → Type 0
CourseSound (running c) = Sound c
CourseSound (ended again c) = Sound c
CourseSound (exited c) = Sound c
CourseSound (crashed c) = Unit
CourseSound (stuck c) = Silent c × (0 < c.failures)

Allowed-is_alert :
    (f : Settings) (es : List Effect)
    → alerts_of f ≡ false
    → All (Allowed f) es
    → All (λ e. is_alert e ≡ false) es
Allowed-is_alert f [] k h = tt
Allowed-is_alert f (asked q ∷ es) k h = (refl, Allowed-is_alert f es k h.1)
Allowed-is_alert f (pushed m ∷ es) k h = (refl, Allowed-is_alert f es k h.1)
Allowed-is_alert f (deleted path ∷ es) k h = (refl, Allowed-is_alert f es k h.1)
Allowed-is_alert f (seeded path m error ∷ es) k h = (refl, Allowed-is_alert f es k h.1)
Allowed-is_alert f (alerted a ∷ es) k h = cc

after_persist-Sound :
    (c : Cycling) (r : Persisted) (k : Cycling → Course)
    → Silent c
    → Frees r
    → EffectsAllowed c.settings r
    → ((d : Cycling) → Sound d → CourseSound (k d))
    → CourseSound (after_persist c r k)
after_persist-Sound c (persisted s names p) k q h a n = n _ (
  (q.0, All-append (λ e. is_alert e ≡ false) c.effects s q.1 (Allowed-is_alert c.settings s q.0 a)),
  inl h,
)
after_persist-Sound c (not_removed p) k q h a n = n _ (q, inr (omega arith, h))
after_persist-Sound c (broken p) k q h a n = tt
after_persist-Sound c waiting k q h a n = absurd h

persist_once-Sound :
    (engines : ℕ → Engine) (worlds : ℕ → Calls) (c : Cycling) (k : Cycling → Course)
    → Sound c
    → ((d : Cycling) → Sound d → CourseSound (k d))
    → CourseSound (persist_once engines worlds c k)
unfolding persist_once
persist_once-Sound engines worlds c k (q, inl h) n =
    let engine = engines c.calls in
    let world = worlds c.calls in
    after_persist-Sound c (vault_persist_push_remote_changes engine world c.settings c.process) k q
      (persist-Frees engine world c.settings c.process h)
      (persist-EffectsAllowed engine world c.settings c.process) n
persist_once-Sound engines worlds c k (q, inr (l, h)) n =
    rw (h (engines c.calls) (worlds c.calls) c.settings) (q, l)

cycle_event-Sound :
    (engines : ℕ → Engine) (worlds : ℕ → Calls) (e : Event) (c : Cycling)
    → Sound c
    → CourseSound (cycle_event engines worlds e c)
unfolding cycle_event
cycle_event-Sound engines worlds signalled c h = h
cycle_event-Sound engines worlds changed c h =
    persist_once-Sound engines worlds c running h (λ d k. k)
cycle_event-Sound engines worlds done c h = persist_once-Sound engines worlds c finish h (λ d k. k)
cycle_event-Sound engines worlds noticed c h = h

next_turn-Sound :
    (r : Course) (k : Cycling → Course)
    → CourseSound r
    → ((d : Cycling) → Sound d → CourseSound (k d))
    → CourseSound (next_turn r k)
next_turn-Sound (running c) k h n = n c h
next_turn-Sound (ended again c) k h n = h
next_turn-Sound (exited c) k h n = h
next_turn-Sound (crashed c) k h n = h
next_turn-Sound (stuck c) k h n = h

cycle-Sound :
    (engines : ℕ → Engine) (worlds : ℕ → Calls) (events : List Event) (c : Cycling)
    → Sound c
    → CourseSound (seed_vault_cycle engines worlds events c)
unfolding seed_vault_cycle
cycle-Sound engines worlds [] c h = h
cycle-Sound engines worlds (e ∷ events) c h =
    next_turn-Sound (cycle_event engines worlds e c) (seed_vault_cycle engines worlds events)
      (cycle_event-Sound engines worlds e c h) (λ d k. cycle-Sound engines worlds events d k)

-- For a flow that has sent no alerts and sends none, since its identity column is not `flowName` or
-- there is no channel of alerts, while no other flow uses the lock, and where nothing but the lock
-- makes it wait: whatever arrives, a cycle that starts with the lock free waits for ever for it
-- only after one of the removals has failed. Where the cycle goes on, ends, or ends the process,
-- either the lock is free, or a removal has failed and every later call that persists changes, of
-- any flow, waits for ever; no alert has been sent, also where it waits.
pub seed_vault_cycle-Sound :
    (engines : ℕ → Engine) (worlds : ℕ → Calls) (events : List Event) (c : Cycling)
    → Silent c
    → c.process.locked ≡ false
    → CourseSound (seed_vault_cycle engines worlds events c)
seed_vault_cycle-Sound engines worlds events c q h = cycle-Sound engines worlds events c (q, inl h)
