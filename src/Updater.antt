-- ===== src/Updater.antt =====
-- internal/updater/updater.go: the self-update from a GitHub release.
pub mod Version
pub mod Release
pub mod Install
pub mod Update
mod Examples
