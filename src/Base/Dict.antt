-- ===== src/Base/Dict.antt =====
-- Go's `map[string]V`. A nil map reads as an empty one, and a write to it panics. The entries of a
-- map that was made are kept in the order in which a `range` visits them.
mod Keys
pub use Keys.{insert_all-NodupKeys}
mod Loops
unfoldable pub use Loops.*
