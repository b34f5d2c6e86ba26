-- ===== src/Text.antt =====
-- Python's `str` as the list of its code points: the splits and joins that the program uses.
mod Defs
mod Laws
pub use Laws.*
unfoldable pub use Defs.{Text, split_on, join, split_once, rsplit_once, non_empty, starts_with}
