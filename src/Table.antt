-- ===== src/Table.antt =====
-- The JavaScript `Map` of the sources: an association list in order of insertion, one entry for
-- each key.
mod Defs
mod Laws
unfoldable pub use Defs.*
pub use Laws.*
