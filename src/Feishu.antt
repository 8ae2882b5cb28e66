-- ===== src/Feishu.antt =====
-- internal/feishu: what is sent to Feishu.
pub mod Content
mod Examples
