-- ===== src/Dict.antt =====
-- Maps: `std::collections::HashMap` as an association list, and `dashmap::DashMap` as an
-- interface, since its source is not part of the repository.
mod Hash
mod Shared
unfoldable pub use Hash.{HashMap, kept, get, insert, remove, retain}
pub use Hash.{get-nil, get-insert, get-remove, get-retain}
pub use Shared.{DashMap, list_map, or_insert, or_insert-value, get-insert-or_insert}
