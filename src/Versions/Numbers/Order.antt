-- ===== src/Versions/Numbers/Order.antt =====
-- The result of `GetProjectVersions` does not depend on the order in which a map is visited.
use tierceron.Base.{◌≡◌, refl, ap, sym, ◌∙◌, false, List, [], ◌∷◌, ◌++◌, arith, ℤ, ltb_ℤ}
use mathlib.Core.List.{Perm, Permᴰ}
use mathlib.Core.Logic.{∥∥₁_elim}
use mathlib.Core.HLevel.{hedberg}
use native.Mathlib.Decide.{ℕ_discrete}
use tierceron.GoStrings.{Text}
use tierceron.GoNumbers.{insert, sort_ints}
use tierceron.GoNumbers.Sorted.{IsSorted, sort_ints-IsSorted, sort_ints-perm}
use tierceron.Versions.Numbers.{path_versions, collect_versions, get_project_versions}

ℤ_eq_of_not_lt : (x y : ℤ) → ltb_ℤ x y ≡ false → ltb_ℤ y x ≡ false → x ≡ y
ℤ_eq_of_not_lt x y h k = ground arith

insert_comm : (x y : ℤ) (l : List ℤ) → insert x (insert y l) ≡ insert y (insert x l)
unfolding insert
insert_comm x y [] = ground (arith, ℤ_eq_of_not_lt x y)
insert_comm x y (z ∷ l) = ground (arith, ℤ_eq_of_not_lt x y, insert_comm x y l)

-- Both lists are put, number by number, into one sorted list.
insert_all : List ℤ → List ℤ → List ℤ
insert_all [] l = l
insert_all (x ∷ xs) l = insert x (insert_all xs l)

sort_ints-append : (xs ys : List ℤ) → sort_ints (xs ++ ys) ≡ insert_all xs (sort_ints ys)
unfolding sort_ints insert_all
sort_ints-append [] ys = refl
sort_ints-append (x ∷ xs) ys = ap (insert x) (sort_ints-append xs ys)

insert-insert_all :
    (x : ℤ) (ys l : List ℤ) → insert x (insert_all ys l) ≡ insert_all ys (insert x l)
unfolding insert_all
insert-insert_all x [] l = refl
insert-insert_all x (y ∷ ys) l =
    insert_comm x y (insert_all ys l) ∙ ap (insert y) (insert-insert_all x ys l)

insert_all_comm :
    (xs ys l : List ℤ) → insert_all xs (insert_all ys l) ≡ insert_all ys (insert_all xs l)
unfolding insert_all
insert_all_comm [] ys l = refl
insert_all_comm (x ∷ xs) ys l =
    ap (insert x) (insert_all_comm xs ys l) ∙ insert-insert_all x ys (insert_all xs l)

module _ (service_filter version_filter : List Text) where
  abbrev versions_of : Text × List Text → List ℤ
  versions_of (path, keys) = path_versions service_filter version_filter path keys

  abbrev all_versions : List (Text × List Text) → List ℤ
  all_versions = collect_versions service_filter version_filter

  sorted_cons :
      (entry : Text × List Text) (metadata : List (Text × List Text))
      → sort_ints (all_versions (entry ∷ metadata))
        ≡ insert_all (versions_of entry) (sort_ints (all_versions metadata))
  unfolding collect_versions
  sorted_cons (path, keys) metadata =
      sort_ints-append (path_versions service_filter version_filter path keys)
        (all_versions metadata)

  sorted_two :
      (a b : Text × List Text) (metadata : List (Text × List Text))
      → sort_ints (all_versions (a ∷ b ∷ metadata))
        ≡ insert_all
            (versions_of a)
            (insert_all (versions_of b) (sort_ints (all_versions metadata)))
  sorted_two a b metadata =
      sorted_cons a (b ∷ metadata) ∙ ap (insert_all (versions_of a)) (sorted_cons b metadata)

  sorted-Permᴰ :
      {m m' : List (Text × List Text)}
      → Permᴰ m m'
      → sort_ints (all_versions m) ≡ sort_ints (all_versions m')
  sorted-Permᴰ Permᴰ.nil = refl
  sorted-Permᴰ (Permᴰ.cons {a = a} {b = b} {l₁ = l} {l₂ = l'} e p) =
      sorted_cons a l
      ∙ (ap (λ (t : Text × List Text). insert_all (versions_of t) (sort_ints (all_versions l))) e
          ∙ (ap (insert_all (versions_of b)) (sorted-Permᴰ p) ∙ sym (sorted_cons b l')))
  sorted-Permᴰ (Permᴰ.swap {a = a} {b = b} {a' = a'} {b' = b'} {l = l} e f) =
      let rest : List ℤ = sort_ints (all_versions l) in
      sorted_two a b l
      ∙ (insert_all_comm (versions_of a) (versions_of b) rest
          ∙ (ap
                (λ (t : Text × List Text).
                  insert_all (versions_of t) (insert_all (versions_of a) rest))
                f
              ∙ (ap
                    (λ (t : Text × List Text).
                      insert_all (versions_of a') (insert_all (versions_of t) rest))
                    e
                  ∙ sym (sorted_two a' b' l))))
  sorted-Permᴰ (Permᴰ.trans p q) = sorted-Permᴰ p ∙ sorted-Permᴰ q

ℤ-discrete : Discrete ℤ
ℤ-discrete = hlevel ℕ_discrete

versions_set : IsSet (List ℤ)
versions_set = hlevel (hedberg ℤ-discrete)

-- `GetProjectVersions` returns, in increasing order, the versions that the metadata has for the
-- paths that the filters take, and the same list in whatever order the map is visited.
get_project_versions_lem :
    (service_filter version_filter : List Text) (metadata metadata' : List (Text × List Text))
    → Perm metadata metadata'
    → (get_project_versions service_filter version_filter metadata
        ≡ get_project_versions service_filter version_filter metadata')
      × IsSorted (get_project_versions service_filter version_filter metadata)
      × Perm
          (get_project_versions service_filter version_filter metadata)
          (collect_versions service_filter version_filter metadata)
unfolding get_project_versions
get_project_versions_lem sf vf m m' p = (
  ∥∥₁_elim p (versions_set _ _) (sorted-Permᴰ sf vf),
  sort_ints-IsSorted (collect_versions sf vf m),
  sort_ints-perm (collect_versions sf vf m),
)
