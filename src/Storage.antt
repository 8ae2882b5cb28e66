-- ===== src/Storage.antt =====
-- internal/storage: the SQLite store. A table is a list of rows in the order of insertion; one
-- statement or transaction is one function, which fails as a whole or takes effect as a whole.
pub mod State
pub mod Rows
pub mod Panels
pub mod Delivery
pub mod Approvals
pub mod Routes
pub mod ExternalIds
mod Examples
