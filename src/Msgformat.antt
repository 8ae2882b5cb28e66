-- ===== src/Msgformat.antt =====
-- internal/msgformat: Markdown as a text with entities, in messages of a bounded length. Offsets and
-- lengths count UTF-16 units.
pub mod Units
pub mod Markdown
pub mod Split
pub mod Segments
mod Examples
