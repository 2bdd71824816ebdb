-- ===== src/Versions/Numbers.antt =====
-- `GetProjectVersions` and `BoundCheck`. The metadata map is a list of paths, each with its version
-- keys, in the order in which the loops happen to visit it.
pub mod Order
pub mod Bounds
use tierceron.Base.{
  ℕ, Bool, true, false, not, ◌&&◌, ◌||◌, List, [], ◌∷◌, ◌++◌, map, length, ltb, ◌==◌, if◌then◌else◌,
  ℤ, pos, ltb_ℤ,
}
use tierceron.GoStrings.{Text, codes, is_empty, contains}
use tierceron.GoNumbers.{atoi, itoa, sort_ints}
use tierceron.Logging.{World, log_and_safe_exit}

-- whether one of the texts stands in the path
unfoldable pub any_in : Text → List Text → Bool
unfolding contains
any_in path [] = false
any_in path (t ∷ ts) = contains path t || any_in path ts

-- The value of a key, which is 0 where the key is no number.
unfoldable pub version_number : Text → ℤ
unfolding atoi
version_number key = (atoi key).0

-- The loop over the projects: the versions are taken once for each project in the path.
unfoldable pub project_versions : List Text → Text → List Text → List ℤ
unfolding version_number contains
project_versions [] path keys = []
project_versions (project ∷ projects) path keys =
    let rest = project_versions projects path keys in
    if contains path project then map version_number keys ++ rest else rest

-- The versions of one path, which the service filter may leave out.
unfoldable pub path_versions : List Text → List Text → Text → List Text → List ℤ
unfolding any_in project_versions
path_versions service_filter version_filter path keys =
    if not (is_empty service_filter) && not (any_in path service_filter)
    then []
    else project_versions version_filter path keys

unfoldable pub collect_versions : List Text → List Text → List (Text × List Text) → List ℤ
unfolding path_versions
collect_versions service_filter version_filter [] = []
collect_versions service_filter version_filter ((path, keys) ∷ metadata) =
    path_versions service_filter version_filter path keys
    ++ collect_versions service_filter version_filter metadata

-- `GetProjectVersions`
unfoldable pub get_project_versions : List Text → List Text → List (Text × List Text) → List ℤ
get_project_versions service_filter version_filter metadata =
    sort_ints (collect_versions service_filter version_filter metadata)

abbrev pub last_or : ℤ → List ℤ → ℤ
last_or x [] = x
last_or x (y ∷ ys) = last_or y ys

-- The test of `BoundCheck`. `&&` binds tighter than `||`.
unfoldable pub out_of_bounds : List ℤ → ℤ → Bool
out_of_bounds [] user = true
out_of_bounds (oldest ∷ rest) user =
    ltb_ℤ (last_or oldest rest) user || (ltb_ℤ user oldest && not (length (oldest ∷ rest) == 1))

abbrev cyan : Bool → Text
cyan windows = if windows then [] else codes "\u{1b}[36m"

abbrev reset : Bool → Text
reset windows = if windows then [] else codes "\u{1b}[0m"

-- the message of the refusal
abbrev bound_message : Bool → Text → List ℤ → Text
bound_message windows env [] = cyan windows ++ (codes "No version data found" ++ reset windows)
bound_message windows env (oldest ∷ rest) =
    cyan windows
    ++ (codes "This version "
        ++ (env
            ++ (codes " is not available as the latest version is "
                ++ (itoa (last_or oldest rest)
                    ++ (codes " and oldest version available is "
                        ++ (itoa oldest ++ reset windows))))))

-- `BoundCheck`: where `ExitOnFailure` is not set the error of `LogAndSafeExit` is dropped.
unfoldable pub bound_check : Bool → Bool → Text → List ℤ → Text → World → World
bound_check exit_on_failure windows env versions version w =
    if out_of_bounds versions (version_number version)
    then (log_and_safe_exit exit_on_failure (bound_message windows env versions) 1 w).0
    else w
