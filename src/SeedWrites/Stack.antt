-- ===== src/SeedWrites/Stack.antt =====
-- The stack of SeedVaultFromData against a walk over the tree of the seed file.
use tierceron.Base.{
  ℕ, zero, suc, ◌+◌, ◌<◌, ◌≤◌, ◌≡◌, refl, sym, ap, ◌∙◌, some, List, [], ◌∷◌, ◌++◌, append_assoc,
  append-nil, arith, if◌then◌else◌, if_cases, Bool-cases, inl, inr,
}
use tierceron.GoStrings.{Text}
use tierceron.SeedWrites.{
  null, value, branch, Entries, no_entries, entry, Collection, is_verification, sub_path, leaves,
  push, collected, write_stack, maps_in, collections,
}

-- The values of the maps inside a map, the last one first, each in front of those of the maps inside
-- it.
pub walk_below : Text → Entries → List Collection
unfolding leaves sub_path
walk_below path no_entries = []
walk_below path (entry key (branch below) rest) =
    let inside : Text = sub_path path key in
    let found = collected inside (leaves inside below) ++ walk_below inside below in
    walk_below path rest ++ (if is_verification path key then [] else found)
walk_below path (entry key null rest) = walk_below path rest
walk_below path (entry key (value v) rest) = walk_below path rest

-- the values of a map, and of those inside it
abbrev pub walk : Text → Entries → List Collection
walk path entries = collected path (leaves path entries) ++ walk_below path entries

abbrev walk_all : List (Text × Entries) → List Collection
walk_all [] = []
walk_all ((path, entries) ∷ stack) = walk path entries ++ walk_all stack

-- the rounds that a stack takes at most
abbrev rounds : List (Text × Entries) → ℕ
rounds [] = 0
rounds ((path, entries) ∷ stack) = suc (maps_in entries) + rounds stack

push-walk :
    (path : Text) (entries : Entries) (stack : List (Text × Entries))
    → walk_all (push path entries stack) ≡ walk_below path entries ++ walk_all stack
unfolding push walk_below
push-walk path no_entries stack = refl
push-walk path (entry key null rest) stack = push-walk path rest stack
push-walk path (entry key (value v) rest) stack = push-walk path rest stack
push-walk path (entry key (branch below) rest) stack =
    elim (Bool-cases (is_verification path key)) [
      | inl e ↦ rw (e, append-nil (walk_below path rest)) (push-walk path rest stack)
      | inr e ↦
          let inside : Text = sub_path path key in
          rw e (
            push-walk path rest ((inside, below) ∷ stack)
            ∙ sym (append_assoc (walk_below path rest) (walk inside below) (walk_all stack)))
    ]

push-rounds :
    (path : Text) (entries : Entries) (stack : List (Text × Entries))
    → rounds (push path entries stack) ≤ maps_in entries + rounds stack
unfolding push maps_in
push-rounds path no_entries stack = omega arith
push-rounds path (entry key null rest) stack = push-rounds path rest stack
push-rounds path (entry key (value v) rest) stack = push-rounds path rest stack
push-rounds path (entry key (branch below) rest) stack =
    if_cases (λ st. rounds (push path rest st) ≤ suc (maps_in below + maps_in rest) + rounds stack)
      (is_verification path key) stack _
      (λ e. let h = push-rounds path rest stack in omega (arith, h))
      (λ e. let h = push-rounds path rest ((sub_path path key, below) ∷ stack) in omega (arith, h))

write_stack-walk :
    (fuel : ℕ) (stack : List (Text × Entries))
    → rounds stack < fuel
    → write_stack fuel stack ≡ some (walk_all stack)
unfolding write_stack
write_stack-walk zero stack h = absurd (omega (arith, h))
write_stack-walk (suc fuel) [] h = refl
write_stack-walk (suc fuel) ((path, entries) ∷ stack) h =
    let next = push path entries stack in
    let enough : rounds next < fuel = omega (arith, h, push-rounds path entries stack) in
    let own = collected path (leaves path entries) in
    rw (write_stack-walk fuel next enough, push-walk path entries stack)
      (ap (λ xs. some xs) (sym (append_assoc own (walk_below path entries) (walk_all stack))))

-- The loop over the stack of maps ends, and writes the values of the maps of the seed file as a walk
-- over its tree finds them: those of a map together under its path, each map that has values once.
pub collections-walk : (root : Entries) → collections root ≡ some (walk [] root)
unfolding collections
collections-walk root =
    write_stack-walk (suc (suc (maps_in root))) (([], root) ∷ []) (omega arith)
    ∙ ap (λ xs. some xs) (append-nil (walk [] root))
