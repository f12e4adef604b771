-- ===== src/Assoc.antt =====
-- Hash maps (`HashMap`, `DashMap`) as association lists over numeric keys. The order of the list
-- stands for the map's iteration order, which the program does not rely on.
mod Laws
mod Sums
pub use Laws.*
pub use Sums.*
unfoldable pub use Defs.{get, insert, erase, contains_key, insert_all, erase_all, retain}
pub use Defs.{Map, Unique, values, Every, kept}
mod Defs
