-- ===== src/Modifier/VersionValues/Examples.antt =====
-- A modifier of version 3 of an environment, with one service.
use tierceron.Base.{◌≡◌, refl, false, some, [], ◌∷◌, if◌then◌else◌}
use tierceron.GoStrings.{codes, text_eq, contains, last_index, has_suffix, has_prefix, trim_prefix}
use tierceron.Modifier.{Modifier}
use tierceron.Modifier.Templates.{listed}
use tierceron.Modifier.Vault.{text, scalar}
use tierceron.Modifier.VersionValues.{
  Answers, VersionData, values, get_version_values, service_values, names_any, has_path,
}
use tierceron.Modifier.VersionValues.Restored.{get_version_values_env}

abbrev versioned : Modifier
versioned = record {
  insecure = false;
  address = [];
  env = codes "dev_3";
  raw_env = codes "dev";
  regions = [];
  version = [];
  version_filter = codes "Web" ∷ [];
  template_path = [];
  project_index = [];
  section_key = [];
  section_name = [];
  sub_section_name = [];
  sub_section_value = [];
  section_path = [];
  stale = false;
}

abbrev answers : Answers
answers = record {
  list = λ m path. listed (codes "Web/" ∷ []);
  metadata = λ m path. some ((codes "version", scalar (text (codes "3"))) ∷ []);
}

abbrev web_data : VersionData
web_data = (codes "values/Web/", (codes "version", scalar (text (codes "3"))) ∷ []) ∷ []

-- The environment is lost.
read_once :
    get_version_values answers versioned false (codes "values")
    ≡ (values web_data, record versioned { env = [] })
unfolding get_version_values service_values names_any has_path last_index has_suffix has_prefix
    trim_prefix text_eq
read_once = refl

get_version_values_env_example :
    (record versioned { env = [] }).env
    ≡ (if contains versioned.env (codes "_") then [] else versioned.env)
get_version_values_env_example =
    get_version_values_env answers versioned (record versioned { env = [] }) false (codes "values")
      web_data read_once
