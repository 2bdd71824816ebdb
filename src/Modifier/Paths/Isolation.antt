-- ===== src/Modifier/Paths/Isolation.antt =====
-- The environment in which a write ends up.
use tierceron.Base.{
  ◌≡◌, ◌≢◌, refl, false, true, Bool, Option, none, some, [], ◌∷◌, ◌++◌, arith, if◌then◌else◌, ap,
  ◌∙◌, sym, not, ◌&&◌, append_assoc, append-nil,
}
use tierceron.GoStrings.{Text, codes, is_empty, has_prefix, contains, replace_all, split_after}
use tierceron.GoStrings.Parts.{split_after_sep, split_after-Lacks}
use tierceron.GoStrings.Replace.{
  has_prefix-other, replace_all-pass, replace_all-miss, replace_all-head,
}
use tierceron.GoStrings.Search.{Lacks}
use tierceron.Modifier.{Modifier}
use tierceron.Modifier.Paths.{
  no_environments, write_path, raw_write_path, env_or_local, closed, add_rest, super_secrets,
}
use tierceron.Modifier.Paths.Agreement.{place}

data_folder : (t : Text) → has_prefix (b'/' ∷ codes "data/" ++ t) super_secrets ≡ false
unfolding has_prefix
data_folder t = refl

other_folder :
    (env rest : Text)
    → Lacks b'/' env
    → env ≢ codes "super-secrets"
    → has_prefix (b'/' ∷ env ++ b'/' ∷ rest) super_secrets ≡ false
unfolding has_prefix
other_folder env rest k n =
    has_prefix-other b'/' (codes "super-secrets") env rest (ground arith) k n

abbrev flat_place : Text → Text → Text → Text
flat_place bucket env rest = bucket ++ (b'/' ∷ (codes "data" ++ (b'/' ∷ (env ++ (b'/' ∷ rest)))))

place-flat_place :
    (bucket env rest : Text) → place bucket (codes "data/") env rest ≡ flat_place bucket env rest
place-flat_place bucket env rest = ground (
  arith,
  append_assoc bucket (codes "/") (codes "data/" ++ ((env ++ codes "/") ++ rest)),
  append_assoc env (codes "/") rest,
)

replace_all-flat_place :
    (bucket env rest r : Text)
    → Lacks b'/' bucket
    → Lacks b'/' env
    → env ≢ codes "super-secrets"
    → replace_all (b'/' ∷ rest) super_secrets (codes "/") ≡ b'/' ∷ r
    → replace_all (flat_place bucket env rest) super_secrets (codes "/") ≡ flat_place bucket env r
replace_all-flat_place bucket env rest r h k n e =
    let old = codes "super-secrets/" in
    let more = env ++ (b'/' ∷ rest) in
    replace_all-pass b'/' old (codes "/") bucket (b'/' ∷ (codes "data" ++ (b'/' ∷ more))) h
    ∙ ap (λ t. bucket ++ t)
        (replace_all-miss b'/' super_secrets (codes "/") (codes "data" ++ (b'/' ∷ more))
            (data_folder more)
          ∙ ap (λ t. b'/' ∷ t)
              (replace_all-pass b'/' old (codes "/") (codes "data") (b'/' ∷ more) (ground arith)
                ∙ ap (λ t. codes "data" ++ t)
                    (replace_all-miss b'/' super_secrets (codes "/") more
                        (other_folder env rest k n)
                      ∙ ap (λ t. b'/' ∷ t)
                          (replace_all-pass b'/' old (codes "/") env (b'/' ∷ rest) k
                            ∙ ap (λ t. env ++ t) e))))

place-append :
    (bucket folder env r t : Text)
    → place bucket folder env r ++ t ≡ place bucket folder env (r ++ t)
place-append bucket folder env r t = ground (
  arith,
  append_assoc (bucket ++ codes "/") (folder ++ ((env ++ codes "/") ++ r)) t,
  append_assoc folder ((env ++ codes "/") ++ r) t,
  append_assoc (env ++ codes "/") r t,
)

-- a path of a bucket, with or without more behind it
abbrev pub path_in : Text → Option Text → Text
path_in bucket none = bucket
path_in bucket (some rest) = bucket ++ b'/' ∷ rest

split_after-path_in :
    (bucket : Text) (o : Option Text)
    → Lacks b'/' bucket
    → (closed (split_after (path_in bucket o) b'/').0 (split_after (path_in bucket o) b'/').1
        ≡ bucket ++ codes "/")
      × ((split_after (path_in bucket o) b'/').1 ≡ o)
split_after-path_in bucket none h = rw (split_after-Lacks bucket b'/' h) (refl, refl)
split_after-path_in bucket (some rest) h = rw (split_after_sep bucket rest b'/' h) (refl, refl)

-- a text at a place of an environment
abbrev InPlace : Text → Text → Text → Type 0
InPlace bucket env full = (r : Text) × (full ≡ place bucket (codes "data/") env r)

InPlace-append :
    (bucket env full t : Text) → InPlace bucket env full → InPlace bucket env (full ++ t)
InPlace-append bucket env full t (r, e) =
    (r ++ t, ap (λ s. s ++ t) e ∙ place-append bucket (codes "data/") env r t)

InPlace-if :
    (bucket env full t : Text) (b : Bool)
    → InPlace bucket env full
    → InPlace bucket env (if b then full else full ++ t)
InPlace-if bucket env full t true h = h
InPlace-if bucket env full t false h = InPlace-append bucket env full t h

InPlace-add_rest :
    (bucket env full : Text) (o : Option Text)
    → InPlace bucket env full
    → InPlace bucket env (add_rest full o)
InPlace-add_rest bucket env full none h = h
InPlace-add_rest bucket env full (some t) h =
    InPlace-if bucket env full t (contains full (codes "/" ++ (t ++ codes "/"))) h

InPlace-section :
    (bucket env full t : Text) (b : Bool)
    → InPlace bucket env full
    → InPlace bucket env (if b then full ++ t else full)
InPlace-section bucket env full t true h = InPlace-append bucket env full t h
InPlace-section bucket env full t false h = h

InPlace-raw_write_path :
    (m : Modifier) (bucket : Text) (o : Option Text)
    → Lacks b'/' bucket
    → no_environments (bucket ++ codes "/") ≡ false
    → InPlace bucket m.env (raw_write_path m (path_in bucket o))
unfolding raw_write_path env_or_local
InPlace-raw_write_path m bucket o h k =
    let (e, q) = split_after-path_in bucket o h in
    let full = (bucket ++ codes "/") ++ (codes "data/" ++ (m.env ++ codes "/")) in
    let b = not (is_empty m.section_path) && not (has_prefix full (codes "templates")) in
    rw (e, q, k)
      (InPlace-add_rest bucket m.env (if b then full ++ (m.section_path ++ codes "/") else full) o (
        InPlace-section bucket m.env full (m.section_path ++ codes "/") b (
          [],
          ap (λ t. (bucket ++ codes "/") ++ (codes "data/" ++ t))
              (sym (append-nil (m.env ++ codes "/"))),
        )))

InPlace-replace_all :
    (bucket env full : Text)
    → Lacks b'/' bucket
    → Lacks b'/' env
    → env ≢ codes "super-secrets"
    → InPlace bucket env full
    → InPlace bucket env (replace_all full super_secrets (codes "/"))
InPlace-replace_all bucket env full h k n (rest, e) =
    let (r, q) = replace_all-head b'/' (codes "super-secrets/") [] rest in
    (
      r,
      ap (λ t. replace_all t super_secrets (codes "/")) (e ∙ place-flat_place bucket env rest)
          ∙ replace_all-flat_place bucket env rest r h k n q
          ∙ sym (place-flat_place bucket env r),
    )

-- A write into a bucket with environments goes to a place of the modifier's own environment,
-- whatever its section is and whatever the rest of the path is, if neither the bucket nor the
-- environment holds a slash and the environment is not named super-secrets: that super-secrets is
-- taken out of the path does not change the environment.
pub write_path-environment :
    (m : Modifier) (bucket : Text) (o : Option Text)
    → Lacks b'/' bucket
    → no_environments (bucket ++ codes "/") ≡ false
    → Lacks b'/' m.env
    → m.env ≢ codes "super-secrets"
    → (r : Text) × (write_path m (path_in bucket o) ≡ place bucket (codes "data/") m.env r)
unfolding write_path
write_path-environment m bucket o h k l n =
    let full = raw_write_path m (path_in bucket o) in
    let kept : InPlace bucket m.env full = InPlace-raw_write_path m bucket o h k in
    elim (contains full super_secrets)
      as (λ b.
        InPlace bucket m.env (if b then replace_all full super_secrets (codes "/") else full)) [
          | true ↦ InPlace-replace_all bucket m.env full h l n kept
          | false ↦ kept
        ]
