-- ===== src/Kube/RoundTrip.antt =====
-- Directives and contexts that are written as arguments.
use tierceron.Base.{◌≡◌, refl, Bool, true, false, Option, some, List, [], ◌∷◌, ◌++◌, arith, ap, ◌∙◌}
use tierceron.GoStrings.{Text, codes, text_eq, split}
use tierceron.GoStrings.Search.{Lacks}
use tierceron.GoStrings.Split.{split-parts, parts-append, parts-Lacks}
use tierceron.Kube.{
  Directive, empty_directive, flag_of, directive_flag, directive_arg, directive_args,
  parse_trc_kube_deploy_directive,
}

-- an argument that is neither a kind of object nor a flag
abbrev pub IsPlain : Text → Type 0
IsPlain arg =
    (text_eq arg (codes "secret") ≡ false)
    × (text_eq arg (codes "configmap") ≡ false)
    × (text_eq (flag_of (split arg (codes "="))) (codes "--from-file") ≡ false)
    × (text_eq (flag_of (split arg (codes "="))) (codes "--dry-run") ≡ false)
    × (text_eq (flag_of (split arg (codes "="))) (codes "-f") ≡ false)

directive_arg-IsPlain :
    (d : Directive) (arg : Text) (rest : List Text)
    → IsPlain arg
    → directive_arg d arg rest ≡ some d
unfolding directive_arg directive_flag
directive_arg-IsPlain d arg rest (a, b, f, g, h) = ground (arith, a, b, f, g, h)

split_flag :
    (flag value : Text)
    → Lacks b'=' flag
    → Lacks b'=' value
    → split (flag ++ b'=' ∷ value) (codes "=") ≡ flag ∷ value ∷ []
split_flag flag value h k =
    split-parts b'=' (flag ++ b'=' ∷ value)
    ∙ parts-append b'=' flag value h
    ∙ ap (λ ps. flag ∷ ps) (parts-Lacks b'=' value k)

directive_arg-from_file :
    (d : Directive) (path : Text) (rest : List Text)
    → Lacks b'=' path
    → directive_arg d (codes "--from-file=" ++ path) rest
      ≡ some (record d { from_file_path = path })
unfolding directive_arg directive_flag text_eq
directive_arg-from_file d path rest h =
    let e = split_flag (codes "--from-file") path (ground arith) h in ground (arith, e)

directive_arg-dry_run :
    (d : Directive) (rest : List Text)
    → directive_arg d (codes "--dry-run") rest ≡ some (record d { dry_run = true })
unfolding directive_arg directive_flag text_eq
directive_arg-dry_run d rest = ground (arith, split-parts b'=' (codes "--dry-run"))

-- A line that makes a secret or a configmap from a file, or that applies a file.
pub data Line : Type 0 where
  secret : (type name path : Text) → Bool → Line
  configmap : (name path : Text) → Bool → Line
  apply : (path : Text) → Line

abbrev dry_args : Bool → List Text
dry_args true = codes "--dry-run" ∷ []
dry_args false = []

abbrev pub line_args : Line → List Text
line_args (secret type name path dry) =
    codes "create" ∷ codes "secret" ∷ type ∷ name ∷ (codes "--from-file=" ++ path) ∷ dry_args dry
line_args (configmap name path dry) =
    codes "create" ∷ codes "configmap" ∷ name ∷ (codes "--from-file=" ++ path) ∷ dry_args dry
line_args (apply path) = codes "apply" ∷ codes "-f" ∷ path ∷ []

abbrev pub line_directive : Line → Directive
line_directive (secret type name path dry) = record {
  action = codes "create";
  object = codes "secret";
  type = type;
  name = name;
  from_file_path = path;
  dry_run = dry;
}
line_directive (configmap name path dry) = record {
  action = codes "create";
  object = codes "configmap";
  type = [];
  name = name;
  from_file_path = path;
  dry_run = dry;
}
line_directive (apply path) = record {
  action = codes "apply";
  object = [];
  type = [];
  name = [];
  from_file_path = path;
  dry_run = false;
}

abbrev pub IsPlainLine : Line → Type 0
IsPlainLine (secret type name path dry) = IsPlain type × IsPlain name × Lacks b'=' path
IsPlainLine (configmap name path dry) = IsPlain name × Lacks b'=' path
IsPlainLine (apply path) = IsPlain path

directive_args-step :
    (d e : Directive) (arg : Text) (rest : List Text)
    → directive_arg d arg rest ≡ some e
    → directive_args d (arg ∷ rest) ≡ directive_args e rest
unfolding directive_args
directive_args-step d e arg rest h = rw (directive_args, h) refl

directive_args-end : (d : Directive) → directive_args d [] ≡ some d
unfolding directive_args
directive_args-end d = refl

directive_args-IsPlain :
    (d : Directive) (arg : Text) (rest : List Text)
    → IsPlain arg
    → directive_args d (arg ∷ rest) ≡ directive_args d rest
directive_args-IsPlain d arg rest h =
    directive_args-step d d arg rest (directive_arg-IsPlain d arg rest h)

file_args :
    (d : Directive) (path : Text) (dry : Bool)
    → d.dry_run ≡ false
    → Lacks b'=' path
    → directive_args d ((codes "--from-file=" ++ path) ∷ dry_args dry)
      ≡ some (record d { from_file_path = path; dry_run = dry })
file_args d path true h k =
    let e = record d { from_file_path = path } in
    directive_args-step d e (codes "--from-file=" ++ path) (codes "--dry-run" ∷ [])
      (directive_arg-from_file d path (codes "--dry-run" ∷ []) k)
    ∙ directive_args-step e (record e { dry_run = true }) (codes "--dry-run") []
        (directive_arg-dry_run e [])
    ∙ directive_args-end (record e { dry_run = true })
file_args d path false h k =
    let e = record d { from_file_path = path } in
    directive_args-step d e (codes "--from-file=" ++ path) [] (directive_arg-from_file d path [] k)
    ∙ directive_args-end e
    ∙ ap (λ b. some (record e { dry_run = b })) h

secret_found :
    (start : Directive) (type name : Text) (rest : List Text)
    → directive_arg (record start { action = codes "create" }) (codes "secret") (type ∷ name ∷ rest)
      ≡ some (record start {
        action = codes "create";
        object = codes "secret";
        type = type;
        name = name;
      })
unfolding directive_arg text_eq
secret_found start type name rest = refl

configmap_found :
    (start : Directive) (name : Text) (rest : List Text)
    → directive_arg (record start { action = codes "create" }) (codes "configmap") (name ∷ rest)
      ≡ some (record start { action = codes "create"; object = codes "configmap"; name = name })
unfolding directive_arg text_eq
configmap_found start name rest = refl

apply_found :
    (path : Text)
    → directive_arg (record empty_directive { action = codes "apply" }) (codes "-f") (path ∷ [])
      ≡ some (record empty_directive { action = codes "apply"; from_file_path = path })
unfolding directive_arg directive_flag text_eq
apply_found path = rw (split-parts b'=' (codes "-f")) refl

-- A line is parsed to its directive, whatever directive has been parsed before, if its type, its
-- name and, for `apply`, the path of its file are neither `secret` nor `configmap` and do not read
-- `--from-file`, `--dry-run` or `-f` up to their first equals sign, and if the path of a secret or of
-- a config map holds no equals sign; the path of an applied file may hold one.
pub parse-line_args :
    (o : Option Directive) (line : Line)
    → IsPlainLine line
    → parse_trc_kube_deploy_directive o (line_args line) ≡ some (line_directive line)
unfolding parse_trc_kube_deploy_directive
parse-line_args o (secret type name path dry) (h, k, l) =
    let start : Directive = record empty_directive { action = codes "create" } in
    let files : List Text = (codes "--from-file=" ++ path) ∷ dry_args dry in
    let d : Directive = record start { object = codes "secret"; type = type; name = name } in
    directive_args-step start d (codes "secret") (type ∷ name ∷ files)
      (secret_found start type name files)
    ∙ directive_args-IsPlain d type (name ∷ files) h
    ∙ directive_args-IsPlain d name files k
    ∙ file_args d path dry refl l
parse-line_args o (configmap name path dry) (h, l) =
    let start : Directive = record empty_directive { action = codes "create" } in
    let files : List Text = (codes "--from-file=" ++ path) ∷ dry_args dry in
    let d : Directive = record start { object = codes "configmap"; name = name } in
    directive_args-step start d (codes "configmap") (name ∷ files)
      (configmap_found start name files)
    ∙ directive_args-IsPlain d name files h
    ∙ file_args d path dry refl l
parse-line_args o (apply path) h =
    let start : Directive = record empty_directive { action = codes "apply" } in
    let d : Directive = record start { from_file_path = path } in
    directive_args-step start d (codes "-f") (path ∷ []) (apply_found path)
    ∙ directive_args-IsPlain d path [] h
    ∙ directive_args-end d
