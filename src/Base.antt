-- ===== src/Base.antt =====
-- The names that the other modules share: the libraries', passed on, with tests, lists, words,
-- programs, their results and blocks of memory from six children.
mod Tests
mod Lists
mod Words
mod Each
mod Program
mod Hoare
mod Memory
pub use Tests.*
pub use Lists.*
pub use Words.*
pub use Each.*
pub use Program.*
pub use Hoare.*
unfoldable pub use Memory.{realloc, clear_bytes, memset}
pub use Memory.*
pub use Prim.Native.Nat.{ℕ, zero, suc, ◌+◌, ◌-◌, ◌*◌, ◌/◌, ◌%◌, ◌^◌, ◌≤◌, ◌<◌}
pub use mathlib.Core.Path.{◌≡◌, refl, sym, ap, ap₂, subst, ◌∙◌}
pub use mathlib.Core.Logic.{◌≢◌, ◌↔◌, ◌⊎◌, inl, inr}
pub use mathlib.Core.Bool.{Bool, true, false, not, ◌&&◌, ◌||◌}
pub use mathlib.Core.Option.{Option, none, some}
pub use mathlib.Core.List.{List, [], ◌∷◌, ◌++◌, map, append-nil, append_assoc}
pub use native.Mathlib.Omega.{arith}
