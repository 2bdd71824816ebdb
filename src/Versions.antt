-- ===== src/Versions.antt =====
-- pkg/utils/versionUtil.go: environments with versions, project and service names, version numbers.
pub mod Env
pub mod Unique
pub mod Accepted
pub mod Projects
pub mod Numbers
mod Examples
