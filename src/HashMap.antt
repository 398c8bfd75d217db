-- ===== src/HashMap.antt =====
-- `std::collections::{HashMap, BTreeMap, HashSet}` with SPKI hashes as keys, as an association list.
-- The order of the entries is not observable: clients use the laws of `lookup`.
pub mod Order
pub use Order.{sort_keys, sort_keys-ext, IsAscending, sort_keys-IsAscending, contains-sort_keys}
pub mod Defs
pub use Defs.{HashMap, lookup, contains_key, erase, insert, keys}
pub use Defs.{lookup-insert, lookup-erase, contains-keys, map_laws}
