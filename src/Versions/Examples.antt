-- ===== src/Versions/Examples.antt =====
-- Runs of the functions of versionUtil.go, and their theorems at concrete inputs.
use tierceron.Base.{◌≡◌, ◌↔◌, refl, true, false, some, List, [], ◌∷◌, ℤ, pos, negsuc, arith}
use tierceron.GoStrings.{Text, codes}
use tierceron.GoNumbers.{atoi, itoa, sort_ints}
use tierceron.GoNumbers.RoundTrip.{atoi-itoa}
use tierceron.Logging.{Logger, running, exited, World}
use tierceron.Versions.Env.{get_raw_env}
use tierceron.Versions.Projects.{
  get_project_service, slashes, offset_from, clean_service, get_template_file_name,
}
use tierceron.Versions.Numbers.{
  version_number, collect_versions, get_project_versions, out_of_bounds, bound_check,
}
use tierceron.Versions.Numbers.Bounds.{Outside, bound_check-status}

raw_envs :
    (get_raw_env (codes "dev.fred") ≡ codes "dev") × (get_raw_env (codes "itdev_3") ≡ codes "itdev")
unfolding get_raw_env
raw_envs = (refl, refl)

abbrev services : List Text
services = codes "a" ∷ codes "b" ∷ codes "a" ∷ []

abbrev folder : Text
folder = codes "trc_templates"

file_name :
    get_template_file_name (codes "trc_templates/P/S/config.yml.tmpl") (codes "S") ≡ codes "config"
unfolding get_template_file_name
file_name = refl

backslashes :
    get_project_service folder (codes "C:\\trc_templates\\P\\S.yml")
    ≡ some (codes "P", codes "S", codes "C:/trc_templates/P/S.yml")
unfolding get_project_service slashes offset_from clean_service
backslashes = refl

atoi-itoa_example : atoi (itoa (negsuc 41)) ≡ (negsuc 41, true)
atoi-itoa_example = atoi-itoa (negsuc 41) (omega arith)

abbrev metadata : List (Text × List Text)
metadata =
    (codes "super-secrets/P/S", codes "10" ∷ codes "9" ∷ [])
    ∷ (codes "values/P", codes "2" ∷ [])
    ∷ []

abbrev visited_otherwise : List (Text × List Text)
visited_otherwise =
    (codes "values/P", codes "2" ∷ [])
    ∷ (codes "super-secrets/P/S", codes "10" ∷ codes "9" ∷ [])
    ∷ []

versions : get_project_versions [] (codes "P" ∷ []) metadata ≡ pos 2 ∷ pos 9 ∷ pos 10 ∷ []
unfolding get_project_versions collect_versions sort_ints
versions = refl

abbrev logger : Logger
logger = record { prefix = []; output = []; lines = [] }

abbrev world : World
world = record {
  logger = some logger;
  std = logger;
  console = [];
  headless = true;
  status = running;
}

abbrev two_to_nine : List ℤ
two_to_nine = pos 2 ∷ pos 9 ∷ []

bound_check-status_example :
    ((bound_check true false (codes "dev") two_to_nine (codes "12") world).status ≡ exited 1)
    ↔ ((true ≡ true) × Outside two_to_nine (version_number (codes "12")))
bound_check-status_example =
    bound_check-status true false (codes "dev") two_to_nine (codes "12") logger world (omega arith)
      refl refl

-- A single version refuses no earlier one.
earlier_than_the_only_version : out_of_bounds (pos 9 ∷ []) (pos 3) ≡ false
unfolding out_of_bounds
earlier_than_the_only_version = refl
