-- ===== src/Base.antt =====
-- Names shared by every part: the libraries', passed on, and those of the children.
mod Tests
mod Lists
mod Results
mod Keys
mod Text
mod Utf8
mod Time
pub use Tests.*
pub use Lists.*
pub use Results.*
pub use Keys.*
pub use Text.*
unfoldable pub use Utf8.{encode_char, as_bytes, utf8_len, from_utf8_lossy}
pub use Time.*
pub use Prim.Native.Nat.{ℕ, zero, suc, ◌+◌, ◌-◌, ◌*◌, ◌/◌, ◌%◌, ◌^◌, ◌≤◌, ◌<◌}
pub use Prim.Native.String.{String}
pub use mathlib.Core.Path.{◌≡◌, refl, sym, ap, ◌∙◌}
pub use mathlib.Core.Logic.{◌≢◌, ◌↔◌, ◌⊎◌, inl, inr}
pub use mathlib.Core.Bool.{Bool, true, false, not, ◌&&◌, ◌||◌}
pub use mathlib.Core.Option.{Option, none, some}
pub use mathlib.Core.List.{List, [], ◌∷◌, ◌++◌, map}
pub use native.Mathlib.Omega.{arith}
