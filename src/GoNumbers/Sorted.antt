-- ===== src/GoNumbers/Sorted.antt =====
-- A sorted list holds the same numbers in increasing order.
use tierceron.Base.{List, [], ◌∷◌, arith, Bool-cases, inl, inr, All, ℤ, ◌≤ℤ◌, ltb_ℤ, ≤ℤ_trans}
use mathlib.Core.List.{Perm}
use mathlib.Core.List.Perm
use tierceron.GoNumbers.{insert, sort_ints}

abbrev pub IsSorted : List ℤ → Type 0
IsSorted [] = Unit
IsSorted (x ∷ xs) = All (λ y. x ≤ℤ y) xs × IsSorted xs

module _ (P : ℤ → Type 0) where
  pub All-insert : (x : ℤ) (xs : List ℤ) → P x → All P xs → All P (insert x xs)
  unfolding insert
  All-insert x [] h k = (h, tt)
  All-insert x (y ∷ ys) h k = elim (Bool-cases (ltb_ℤ y x)) [
    | inl before ↦ rw before (k.0, All-insert x ys h k.1)
    | inr after ↦ rw after (h, k)
  ]

All-weaken : (x y : ℤ) (ys : List ℤ) → x ≤ℤ y → All (λ z. y ≤ℤ z) ys → All (λ z. x ≤ℤ z) ys
All-weaken x y [] h k = tt
All-weaken x y (z ∷ zs) h k = (≤ℤ_trans x y z h k.0, All-weaken x y zs h k.1)

insert-IsSorted : (x : ℤ) (xs : List ℤ) → IsSorted xs → IsSorted (insert x xs)
unfolding insert
insert-IsSorted x [] h = (tt, tt)
insert-IsSorted x (y ∷ ys) h = elim (Bool-cases (ltb_ℤ y x)) [
  | inl before ↦
      rw before (All-insert (λ z. y ≤ℤ z) x ys (ground arith) h.0, insert-IsSorted x ys h.1)
  | inr after ↦ rw after (((ground arith, All-weaken x y ys (ground arith) h.0)), h)
]

pub sort_ints-IsSorted : (xs : List ℤ) → IsSorted (sort_ints xs)
unfolding sort_ints
sort_ints-IsSorted [] = tt
sort_ints-IsSorted (x ∷ xs) = insert-IsSorted x (sort_ints xs) (sort_ints-IsSorted xs)

insert-perm : (x : ℤ) (xs : List ℤ) → Perm (insert x xs) (x ∷ xs)
unfolding insert
insert-perm x [] = Perm.refl (x ∷ [])
insert-perm x (y ∷ ys) = elim (Bool-cases (ltb_ℤ y x)) [
  | inl before ↦ rw before (Perm.trans (Perm.cons y (insert-perm x ys)) (Perm.swap x y ys))
  | inr after ↦ rw after (Perm.refl (x ∷ y ∷ ys))
]

pub sort_ints-perm : (xs : List ℤ) → Perm (sort_ints xs) xs
unfolding sort_ints
sort_ints-perm [] = Perm.refl []
sort_ints-perm (x ∷ xs) =
    Perm.trans (insert-perm x (sort_ints xs)) (Perm.cons x (sort_ints-perm xs))
