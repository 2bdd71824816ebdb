-- ===== src/Kube.antt =====
-- atrium/vestibulum/trcsh/kube/native/trckube.go: the arguments of a deployment's kubectl lines.
-- `none` is the panic of an index out of range.
pub mod RoundTrip
mod Examples
use tierceron.Base.{
  ℕ, suc, Bool, true, false, ◌&&◌, ◌||◌, Option, none, some, List, [], ◌∷◌, ◌++◌, if◌then◌else◌,
}
use tierceron.GoStrings.{Text, codes, text_eq, split}

-- `TrcKubeContext`
pub record KubeContext : Type 0 where
  pub user : Text
  pub cluster : Text
  pub context : Text
  pub namespace : Text

-- `TrcKubeDirective`
pub record Directive : Type 0 where
  pub action : Text
  pub object : Text
  pub type : Text
  pub name : Text
  pub from_file_path : Text
  pub dry_run : Bool

abbrev pub empty_context : KubeContext
empty_context = record { user = []; cluster = []; context = []; namespace = [] }

abbrev pub empty_directive : Directive
empty_directive = record {
  action = [];
  object = [];
  type = [];
  name = [];
  from_file_path = [];
  dry_run = false;
}

-- `argsSlice[0]`
abbrev pub flag_of : List Text → Text
flag_of [] = []
flag_of (flag ∷ values) = flag

abbrev set_field : (Text → KubeContext) → List Text → Option KubeContext
set_field f [] = none
set_field f (flag ∷ []) = none
set_field f (flag ∷ value ∷ values) = some (f value)

abbrev set_context : KubeContext → List Text → KubeContext
set_context c [] = c
set_context c (next ∷ rest) = record c { context = next }

-- the argument `flag=value` of a context
unfoldable pub context_flag : KubeContext → List Text → Option KubeContext
context_flag c parts =
    if text_eq (flag_of parts) (codes "--cluster")
    then set_field (λ v. record c { cluster = v }) parts
    else if text_eq (flag_of parts) (codes "--user")
    then set_field (λ v. record c { user = v }) parts
    else if text_eq (flag_of parts) (codes "--namespace")
    then set_field (λ v. record c { namespace = v }) parts
    else some c

-- one argument of a context, and those behind it
unfoldable pub context_arg : KubeContext → Text → List Text → Option KubeContext
context_arg c arg rest =
    if text_eq arg (codes "set-context")
    then some (set_context c rest)
    else context_flag c (split arg (codes "="))

-- the loop over the arguments
unfoldable pub context_args : KubeContext → List Text → Option KubeContext
context_args c [] = some c
context_args c (arg ∷ rest) = elim (context_arg c arg rest) [
  | none ↦ none
  | some d ↦ context_args d rest
]

abbrev pub or_empty_context : Option KubeContext → KubeContext
or_empty_context none = empty_context
or_empty_context (some c) = c

-- `ParseTrcKubeContext`
unfoldable pub parse_trc_kube_context : Option KubeContext → List Text → Option KubeContext
parse_trc_kube_context o args = context_args (or_empty_context o) args

abbrev secret_arg : Directive → List Text → Option Directive
secret_arg d [] = some d
secret_arg d (type ∷ []) = none
secret_arg d (type ∷ name ∷ rest) = some (record d { type = type; name = name })

abbrev configmap_arg : Directive → List Text → Option Directive
configmap_arg d [] = some d
configmap_arg d (name ∷ rest) = some (record d { name = name })

abbrev from_file : Directive → List Text → Directive
from_file d [] = d
from_file d (flag ∷ []) = d
from_file d (flag ∷ value ∷ values) = record d { from_file_path = value }

-- The test of the code is always true, so `-f` as the last argument is an index out of range.
abbrev from_next : Directive → List Text → Option Directive
from_next d [] = none
from_next d (next ∷ rest) = some (record d { from_file_path = next })

unfoldable pub directive_flag : Directive → List Text → List Text → Option Directive
directive_flag d parts rest =
    if text_eq (flag_of parts) (codes "--from-file")
    then some (from_file d parts)
    else if text_eq (flag_of parts) (codes "--dry-run")
    then some (record d { dry_run = true })
    else if text_eq (flag_of parts) (codes "-f")
    then from_next d rest
    else some d

-- one argument of a directive, and those behind it
unfoldable pub directive_arg : Directive → Text → List Text → Option Directive
directive_arg d arg rest =
    let secret = text_eq arg (codes "secret") in
    let configmap = text_eq arg (codes "configmap") in
    let found = record d { object = arg } in
    if text_eq d.action (codes "create") && (secret || configmap)
    then if secret then secret_arg found rest else configmap_arg found rest
    else directive_flag d (split arg (codes "=")) rest

-- the loop over the arguments
unfoldable pub directive_args : Directive → List Text → Option Directive
directive_args d [] = some d
directive_args d (arg ∷ rest) = elim (directive_arg d arg rest) [
  | none ↦ none
  | some e ↦ directive_args e rest
]

-- `ParseTrcKubeDeployDirective`: every field of a directive that is given is reset.
unfoldable pub parse_trc_kube_deploy_directive : Option Directive → List Text → Option Directive
parse_trc_kube_deploy_directive o [] = none
parse_trc_kube_deploy_directive o (action ∷ args) =
    directive_args (record empty_directive { action = action }) args
