-- ===== src/Versions/Env.antt =====
-- `SplitEnv` and `GetRawEnv`: an environment is a name, or a name, an underscore and a version.
use tierceron.Base.{
  ℕ, suc, ◌≡◌, refl, Option, none, some, List, [], ◌∷◌, ◌++◌, take, drop, arith, if◌then◌else◌, inl,
  inr, ◌⊎◌, take-length, drop-length,
}
use tierceron.GoStrings.{Text, codes, has_prefix, split, last_index}
use tierceron.GoStrings.Search.{Lacks}
use tierceron.GoStrings.Split.{LastAt, last_index-LastAt, last_index-append}

-- the two cells of `envVersion`
abbrev env_version : Text → Option ℕ → Text × Text
env_version env none = (env, codes "0")
env_version env (some i) = (take i env, drop (suc i) env)

-- `SplitEnv`
unfoldable pub split_env : Text → Text × Text
unfolding last_index
split_env env = env_version env (last_index env (codes "_"))

abbrev head_or_empty : List Text → Text
head_or_empty [] = []
head_or_empty (p ∷ ps) = p

-- `GetRawEnv`
unfoldable pub get_raw_env : Text → Text
unfolding has_prefix split
get_raw_env env =
    if has_prefix env (codes "dev")
    then codes "dev"
    else if has_prefix env (codes "QA")
    then codes "QA"
    else if has_prefix env (codes "RQA")
    then codes "RQA"
    else if has_prefix env (codes "staging")
    then codes "staging"
    else if has_prefix env (codes "prod")
    then codes "prod"
    else head_or_empty (split env (codes "_"))

env_version_lem :
    (env : Text) (o : Option ℕ)
    → LastAt b'_' env o
    → Lacks b'_' (env_version env o).1
      × ((Lacks b'_' env × (env_version env o ≡ (env, codes "0")))
          ⊎ ((env_version env o).0 ++ b'_' ∷ (env_version env o).1 ≡ env))
env_version_lem env none h = (ground arith, inl (h, refl))
env_version_lem env (some i) h = (h.1, inr h.0)

-- The version of an environment holds no underscore. An environment without one is its own name,
-- at version 0, and any other is spelled by its name, an underscore and its version.
split_env_lem :
    (env : Text)
    → Lacks b'_' (split_env env).1
      × ((Lacks b'_' env × (split_env env ≡ (env, codes "0")))
          ⊎ ((split_env env).0 ++ b'_' ∷ (split_env env).1 ≡ env))
unfolding split_env
split_env_lem env = env_version_lem env (last_index env (codes "_")) (last_index-LastAt b'_' env)

-- An environment made of a name and a version without an underscore is split into these two.
split_env-join :
    (name version : Text)
    → Lacks b'_' version
    → split_env (name ++ b'_' ∷ version) ≡ (name, version)
unfolding split_env
split_env-join name version h =
    rw (last_index-append b'_' name version h, env_version)
      (ground (arith, take-length name (b'_' ∷ version), drop-length name b'_' version))
