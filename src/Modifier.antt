-- ===== src/Modifier.antt =====
-- pkg/vaulthelper/kv/Modifier.go: reads and writes of the vault under an environment and a version,
-- and the cache of modifiers.
pub mod Environment
pub mod Paths
pub mod Vault
pub mod Retry
pub mod Cache
pub mod Operations
pub mod HardDelete
pub mod ReadData
pub mod Counters
pub mod Templates
pub mod VersionValues
mod Examples
use tierceron.Base.{Bool, List}
use tierceron.GoStrings.{Text}

-- `Modifier`, with the address of its client in place of the client
pub record Modifier : Type 0 where
  pub insecure : Bool
  pub address : Text
  pub env : Text
  pub raw_env : Text
  pub regions : List Text
  pub version : Text
  pub version_filter : List Text
  pub template_path : Text
  pub project_index : List Text
  pub section_key : Text
  pub section_name : Text
  pub sub_section_name : Text
  pub sub_section_value : Text
  pub section_path : Text
  pub stale : Bool
