-- ===== src/Daemon/TerminalGate.antt =====
-- internal/daemon/terminal_gate.go: the gate that holds back an `interrupted` status of a turn that
-- the chat started, since Codex reports it for a moment while the turn goes on.
pub mod State
pub mod Marks
pub mod Decide
pub mod Keys
pub mod Safety
pub mod Frame
pub mod Deadline
pub mod Polls
pub mod Expiry
pub mod Closed
pub mod Closing
pub mod Apply
mod Examples
