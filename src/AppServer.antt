-- ===== src/AppServer.antt =====
-- internal/appserver: the client of the Codex App Server and its normalised snapshots.
pub mod Snapshot
pub mod Json
pub mod Items
pub mod Collect
pub mod Details
pub mod Payload
pub mod Prompt
pub mod ThreadRead
pub mod ReadSnapshot
pub mod Compact
pub mod Timing
pub mod Diff
pub mod Events
pub mod Legacy
pub mod LiveEvent
pub mod ToolSnapshot
pub mod Requests
pub mod LiveNotification
mod Examples
