-- ===== src/Common.antt =====
-- The names that the modules share: the libraries', passed on, and those of the children below.
-- A Go `string` and a Go `[]byte` are both a list of byte values, `Bytes`.
pub mod Logic
pub mod Lists
pub mod Int
pub mod Text
pub mod Errors
unfoldable pub use Logic.*
unfoldable pub use Int.*
unfoldable pub use Lists.*
unfoldable pub use Text.*
unfoldable pub use Errors.*
pub use Prim.Native.Nat.{ℕ, zero, suc, ◌+◌, ◌-◌, ◌*◌, ◌/◌, ◌%◌, ◌^◌, ◌≤◌, ◌<◌}
pub use Prim.Native.String.{String}
pub use mathlib.Core.Path.{◌≡◌, refl, sym, ap, ◌∙◌, subst, fun_ext}
pub use mathlib.Core.Logic.{◌≢◌, ◌↔◌, ◌⊎◌, inl, inr}
pub use mathlib.Core.Bool.{Bool, true, false, not, ◌&&◌, ◌||◌}
pub use mathlib.Core.Option.{Option, none, some}
pub use mathlib.Core.List.{List, [], ◌∷◌, ◌++◌, map, append-nil, append_assoc}
pub use native.Mathlib.Omega.{arith}
