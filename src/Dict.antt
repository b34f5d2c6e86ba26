-- ===== src/Dict.antt =====
-- Python's `dict`: an association list in the order of insertion. A write to a key that is there
-- keeps its place, a write to a new key goes to the end, and an unknown key is `none`.
mod Defs
mod Laws
pub use Laws.*
unfoldable pub use Defs.{Dict, get, set, del, has, keys, update}
