-- ===== src/Daemon.antt =====
-- internal/daemon: the service between Codex and Feishu.
pub mod Signals
pub mod LiveTool
pub mod DetailPages
pub mod TerminalGate
pub mod Polling
mod Examples
