-- ===== src/Common.antt =====
-- The names that the other modules share: the libraries', passed on, and those of the children.
mod Tests
mod Lists
mod Results
mod ByteStrings
pub mod Assoc
pub mod Writing
mod Text
pub use Tests.*
pub use Text.*
pub use Lists.*
pub use Results.*
unfoldable pub use ByteStrings.{bytes_eq, slice, to_le_bytes}
pub use ByteStrings.{Bytes, u32_mod, u32_max, u64_mod, bytes_eq_sound, bytes_eq_refl}
pub use ByteStrings.{slice-append_right, slice_middle, slice_suffix, slice_within, IsByte, Lacks}
pub use Prim.Native.Nat.{ℕ, zero, suc, ◌+◌, ◌-◌, ◌*◌, ◌/◌, ◌%◌, ◌^◌, ◌≤◌, ◌<◌, min, bit_and}
pub use Prim.Native.String.{String}
pub use mathlib.Core.Path.{◌≡◌, refl, sym, ap, ◌∙◌, subst}
pub use mathlib.Core.Logic.{◌≢◌, ◌↔◌, ◌⊎◌, inl, inr}
pub use mathlib.Core.Bool.{Bool, true, false, not, ◌&&◌, ◌||◌}
pub use mathlib.Core.Option.{Option, none, some}
pub use mathlib.Core.List.{List, [], ◌∷◌, ◌++◌, map, append-nil, append_assoc}
pub use native.Mathlib.Omega.{arith}
