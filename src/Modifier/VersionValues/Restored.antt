-- ===== src/Modifier/VersionValues/Restored.antt =====
-- The environment of a modifier after `GetVersionValues`.
use tierceron.Base.{
  ℕ, suc, take, drop, append_assoc, if◌then◌else◌, ◌≢◌, ◌≡◌, refl, sym, ap, ◌∙◌, Bool, true, false,
  Option, none, some, List, [], ◌∷◌, ◌++◌, arith,
}
use tierceron.GoStrings.{Text, codes, last_index, contains, has_prefix}
use tierceron.GoStrings.Search.{Lacks, contains-append}
use tierceron.GoStrings.Split.{LastAt, last_index-LastAt}
use tierceron.Modifier.{Modifier}
use tierceron.Modifier.Templates.{Listing, refused, missing, listed, get_paths}
use tierceron.Modifier.VersionValues.{
  Answers, VersionData, Values, values, nothing, failed, split_version, indexed, restored,
  cert_paths, cert_values, clean_filters, service_values, with_paths, get_version_values,
}

restored_env :
    (kept : Text) (m after : Modifier) (r : Values) (found : VersionData)
    → restored kept m r ≡ (values found, after)
    → after.env ≡ kept
restored_env kept m after (values f) found e = sym (ap (λ (x : Values × Modifier). x.1.env) e)
restored_env kept m after nothing found e = absurd (differs (ap (λ (x : Values × Modifier). x.0) e))
  where
    differs : {f : VersionData} → nothing ≢ values f
    differs e = cc
restored_env kept m after failed found e = absurd (differs (ap (λ (x : Values × Modifier). x.0) e))
  where
    differs : {f : VersionData} → failed ≢ values f
    differs e = cc

cert_paths_env :
    (w : Answers) (kept : Text) (m after : Modifier) (o : Option (List Text)) (found : VersionData)
    → cert_paths w kept m o ≡ (values found, after)
    → after.env ≡ kept
cert_paths_env w kept m after none found e = restored_env kept m after failed found e
cert_paths_env w kept m after (some paths) found e =
    let cleaned = record m { version_filter = clean_filters m.version_filter } in
    restored_env kept cleaned after (cert_values w cleaned paths []) found e

with_paths_env :
    (w : Answers) (certs : Bool) (kept : Text) (m after : Modifier) (engine : Text) (l : Listing)
    (found : VersionData)
    → with_paths w certs kept m engine l ≡ (values found, after)
    → after.env ≡ kept
with_paths_env w certs kept m after engine refused found e =
    restored_env kept m after failed found e
with_paths_env w certs kept m after engine missing found e =
    restored_env kept m after nothing found e
with_paths_env w true kept m after engine (listed paths) found e =
    cert_paths_env w kept m after
      (get_paths (w.list m (codes "values/Common/")) (codes "values/Common/")) found e
with_paths_env w false kept m after engine (listed paths) found e =
    restored_env kept m after (values (service_values w m engine paths [])) found e

contains-Lacks : (b : ℕ) (s : Text) → Lacks b s → contains s (b ∷ []) ≡ false
unfolding contains has_prefix
contains-Lacks b [] h = refl
contains-Lacks b (c ∷ s) (h, hs) = ground (arith, contains-Lacks b s hs, h)

kept_env :
    (env : Text) (o : Option ℕ)
    → LastAt b'_' env o
    → (split_version env o).1 ≡ (if contains env (codes "_") then [] else env)
kept_env env none h = rw (contains-Lacks b'_' env h) refl
kept_env env (some i) h =
    let name = take i env in
    let version = drop (suc i) env in
    let found : contains env (codes "_") ≡ true =
      ap (λ t. contains t (codes "_")) (sym h.0 ∙ sym (append_assoc name (b'_' ∷ []) version))
      ∙ contains-append name (b'_' ∷ []) version in
    rw found refl

-- Where `GetVersionValues` returns data, it leaves the modifier in the environment that it had only
-- if that has no version: an environment with an underscore is replaced by the empty text.
pub get_version_values_env :
    (w : Answers) (m after : Modifier) (certs : Bool) (engine : Text) (found : VersionData)
    → get_version_values w m certs engine ≡ (values found, after)
    → after.env ≡ (if contains m.env (codes "_") then [] else m.env)
unfolding get_version_values
get_version_values_env w m after certs engine found e =
    let (env, kept) = split_version m.env (last_index m.env (codes "_")) in
    let (n, path) = indexed (record m { env = env }) engine in
    with_paths_env w certs kept n after path (w.list n (path ++ codes "/")) found e
    ∙ kept_env m.env (last_index m.env (codes "_")) (last_index-LastAt b'_' m.env)
