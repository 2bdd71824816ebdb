-- ===== src/Versions/Numbers/Bounds.antt =====
-- Which versions `BoundCheck` refuses.
use tierceron.Base.{
  ◌≡◌, ◌≢◌, ◌↔◌, ◌⊎◌, inl, inr, refl, Bool, true, ◌&&◌, List, [], ◌∷◌, length, arith, Bool-cases,
  if◌then◌else◌, All, ℤ, ◌≤ℤ◌, ◌<ℤ◌, ltb_ℤ, some,
}
use tierceron.GoStrings.{Text}
use tierceron.GoNumbers.Sorted.{IsSorted}
use tierceron.Logging.{Logger, World, running, exited, log_and_safe_exit}
use tierceron.Logging.Outcome.{safe_exit, perform, perform-status}
use tierceron.Versions.Numbers.{out_of_bounds, last_or, version_number, bound_check, bound_message}

last_or-greatest : (x : ℤ) (xs : List ℤ) → IsSorted (x ∷ xs) → All (λ v. v ≤ℤ last_or x xs) (x ∷ xs)
last_or-greatest x [] h = (omega arith, tt)
last_or-greatest x (y ∷ ys) h =
    let above = last_or-greatest y ys h.1 in (omega (arith, above.0, h.0.0), above)

All-below : (u m : ℤ) (xs : List ℤ) → All (λ v. v ≤ℤ m) xs → m <ℤ u → All (λ v. v <ℤ u) xs
All-below u m [] h k = tt
All-below u m (x ∷ xs) h k = (omega (arith, h.0), All-below u m xs h.1 k)

All-above : (u m : ℤ) (xs : List ℤ) → All (λ v. m ≤ℤ v) xs → u <ℤ m → All (λ v. u <ℤ v) xs
All-above u m [] h k = tt
All-above u m (x ∷ xs) h k = (omega (arith, h.0), All-above u m xs h.1 k)

last_or-below : (u x : ℤ) (xs : List ℤ) → All (λ v. v <ℤ u) (x ∷ xs) → last_or x xs <ℤ u
last_or-below u x [] h = h.0
last_or-below u x (y ∷ ys) h = last_or-below u y ys h.1

-- later than every version, or, where there is not one version alone, earlier than every version
abbrev pub Outside : List ℤ → ℤ → Type 0
Outside versions user =
    All (λ v. v <ℤ user) versions ⊎ (All (λ v. user <ℤ v) versions × (length versions ≢ 1))

out_of_bounds→Outside :
    (versions : List ℤ) (user : ℤ)
    → IsSorted versions
    → out_of_bounds versions user ≡ true
    → Outside versions user
unfolding out_of_bounds
out_of_bounds→Outside [] user s h = inl tt
out_of_bounds→Outside (x ∷ xs) user s h = elim (Bool-cases (ltb_ℤ (last_or x xs) user)) [
  | inl late ↦ inl (All-below user (last_or x xs) (x ∷ xs) (last_or-greatest x xs s) (ground arith))
  | inr early ↦ inr (All-above user x (x ∷ xs) ((omega arith), s.0) (ground arith), ground arith)
]

Outside→out_of_bounds :
    (versions : List ℤ) (user : ℤ) → Outside versions user → out_of_bounds versions user ≡ true
unfolding out_of_bounds
Outside→out_of_bounds [] user h = refl
Outside→out_of_bounds (x ∷ xs) user (inl late) = ground (arith, last_or-below user x xs late)
Outside→out_of_bounds (x ∷ xs) user (inr (early, many)) = ground (arith, early.0)

safe_exit-status :
    (exit_on_failure : Bool) (message : Text) (l : Logger) (w : World)
    → w.logger ≡ some l
    → w.status ≡ running
    → (log_and_safe_exit exit_on_failure message 1 w).0.status
      ≡ (if exit_on_failure then exited 1 else running)
unfolding perform
safe_exit-status b message l w h r = perform-status b (safe_exit message 1) l w h r

checked-status :
    (exit_on_failure windows : Bool) (env : Text) (versions : List ℤ) (version : Text) (l : Logger)
    (w : World)
    → w.logger ≡ some l
    → w.status ≡ running
    → (bound_check exit_on_failure windows env versions version w).status ≡ (
        if out_of_bounds versions (version_number version) && exit_on_failure
        then exited 1
        else running)
unfolding bound_check
checked-status b windows env versions version l w h r =
    ground (arith, safe_exit-status b (bound_message windows env versions) l w h r)

-- Over sorted versions `BoundCheck` ends a running process, with the code 1, exactly if
-- `ExitOnFailure` is set and the version asked for is later than every version, or earlier than
-- every version where there is not one version alone; without `ExitOnFailure` it never does.
pub bound_check-status :
    (exit_on_failure windows : Bool) (env : Text) (versions : List ℤ) (version : Text) (l : Logger)
    (w : World)
    → IsSorted versions
    → w.logger ≡ some l
    → w.status ≡ running
    → ((bound_check exit_on_failure windows env versions version w).status ≡ exited 1)
      ↔ ((exit_on_failure ≡ true) × Outside versions (version_number version))
bound_check-status b windows env versions version l w s h r =
    let user : ℤ = version_number version in
    let status = checked-status b windows env versions version l w h r in
    (
      (λ e. (ground arith, out_of_bounds→Outside versions user s (ground arith))),
      (λ o. ground (arith, Outside→out_of_bounds versions user o.1)),
    )
