-- ===== src/Kube/Examples.antt =====
-- Lines of kubectl and what becomes of them, the shortest ones included.
use tierceron.Base.{◌≡◌, arith, refl, true, none, some, [], ◌∷◌}
use tierceron.GoStrings.{codes, text_eq, split}
use tierceron.Kube.{
  Directive, empty_directive, empty_context, parse_trc_kube_deploy_directive, directive_args,
  directive_arg, directive_flag, parse_trc_kube_context, context_args, context_arg, context_flag,
}
use tierceron.Kube.RoundTrip.{Line, secret, line_args, line_directive, parse-line_args}

abbrev pull_secret : Line
pull_secret = secret (codes "docker") (codes "puller") (codes "conf/auth.json") true

abbrev earlier : Directive
earlier = record empty_directive { action = codes "apply"; from_file_path = codes "old.yml" }

parse-line_args_example :
    parse_trc_kube_deploy_directive (some earlier) (line_args pull_secret)
    ≡ some (line_directive pull_secret)
unfolding text_eq split
parse-line_args_example =
    parse-line_args (some earlier) pull_secret
      ((refl, refl, refl, refl, refl), (refl, refl, refl, refl, refl), ground arith)

-- `-f` without a path
file_missing : parse_trc_kube_deploy_directive none (codes "apply" ∷ codes "-f" ∷ []) ≡ none
unfolding parse_trc_kube_deploy_directive directive_args directive_arg directive_flag split text_eq
file_missing = refl

-- a secret with a type and no name
name_missing :
    parse_trc_kube_deploy_directive none (codes "create" ∷ codes "secret" ∷ codes "tls" ∷ []) ≡ none
unfolding parse_trc_kube_deploy_directive directive_args directive_arg directive_flag split text_eq
name_missing = refl

context_found :
    parse_trc_kube_context none
      (codes "set-context" ∷ codes "dev" ∷ codes "--user=trc" ∷ codes "--other" ∷ [])
    ≡ some (record empty_context { context = codes "dev"; user = codes "trc" })
unfolding parse_trc_kube_context context_args context_arg context_flag split text_eq
context_found = refl

value_missing : parse_trc_kube_context none (codes "--user" ∷ []) ≡ none
unfolding parse_trc_kube_context context_args context_arg context_flag split text_eq
value_missing = refl
