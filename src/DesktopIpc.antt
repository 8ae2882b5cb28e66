-- ===== src/DesktopIpc.antt =====
-- internal/desktopipc: requests to the Codex desktop app over a socket.
pub mod Client
pub mod Owners
mod Examples
