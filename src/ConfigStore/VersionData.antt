-- ===== src/ConfigStore/VersionData.antt =====
-- `InitTemplateVersionData` of pkg/cli/trcconfigbase/utils/dataStorePopulator.go, behind the search
-- for the paths. `read` is `mod.ReadVersionMetadata`, of which the data alone decides.
use tierceron.Base.{
  Bool, true, false, not, ◌&&◌, Option, none, some, List, [], ◌∷◌, ◌++◌, if◌then◌else◌,
}
use tierceron.ConfigStore.Links.{Result, done, refused, panicked, ◌>>=◌}
use tierceron.ConfigStore.Selection.{found_wanted, last_of}
use tierceron.GoStrings.{Text, codes, is_empty, contains, split}
use tierceron.Modifier.Vault.{Fields}

unfoldable pub all_but_last : List Text → List Text
all_but_last [] = []
all_but_last (p ∷ []) = []
all_but_last (p ∷ q ∷ ps) = p ∷ all_but_last (q ∷ ps)

-- the paths without the mark of a project that was found one path deeper
unfoldable pub without_marker : List Text → List Text
unfolding last_of all_but_last
without_marker paths =
    if not (is_empty paths) && contains (last_of paths) (codes "!=!")
    then all_but_last paths
    else paths

-- the data of a path, or what stands below it, with what was found below an earlier one
abbrev pub version_step :
    (Text → Option Fields) → Text → Option Fields → Option Fields → Option Fields × Option Fields
version_step read path (some d) deeper = (some d, deeper)
version_step read path none deeper = (none, read (path ++ codes "template-file"))

abbrev pub version_next :
    (Text → Option Fields)
    → Text
    → Option Bool
    → Option Fields × Option Fields
    → Result (Option Fields × Option Fields)
version_next read path none found = panicked
version_next read path (some false) found = done found
version_next read path (some true) (d, deeper) = done (version_step read path (read path) deeper)

-- the loop over the paths
unfoldable pub version_loop :
    (Text → Option Fields)
    → List Text
    → List Text
    → Option Fields × Option Fields
    → Result (Option Fields × Option Fields)
unfolding found_wanted
version_loop read services [] found = done found
version_loop read services (path ∷ rest) found =
    version_next read path (found_wanted (split path (codes "/")) services) found
    >>= version_loop read services rest

abbrev pub deeper_or : Option Fields × Option Fields → Option Fields
deeper_or (none, some deeper) = some deeper
deeper_or (d, deeper) = d

-- `InitTemplateVersionData`; the data is empty where no path is wanted.
unfoldable pub init_template_version_data :
    (Text → Option Fields) → List Text → Option (List Text) → Result (Option Fields)
unfolding version_loop without_marker
init_template_version_data read services none = refused (codes "Uninitialized environment.")
init_template_version_data read services (some paths) =
    version_loop read services (without_marker paths) (some [], none) >>= λ found.
    done (deeper_or found)
