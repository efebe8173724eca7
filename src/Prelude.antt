-- ===== src/Prelude.antt =====
-- The names that the other modules share: the libraries', passed on, and those of the children.
mod Tests
mod Lists
mod Elements
pub mod Keyed
pub mod Double
pub mod Searching
pub mod Apart
pub mod Selection
unfoldable pub use Tests.*
unfoldable pub use Lists.*
unfoldable pub use Elements.*
pub use Prim.Native.Nat.{ℕ, zero, suc, ◌+◌, ◌-◌, ◌*◌, ◌/◌, ◌%◌, ◌^◌, ◌≤◌, ◌<◌, min, max}
pub use mathlib.Core.Path.{◌≡◌, refl, sym, ap, subst, ◌∙◌}
pub use mathlib.Core.Logic.{◌≢◌, ◌↔◌, ◌⊎◌, inl, inr}
pub use mathlib.Core.Bool.{Bool, true, false, not, ◌&&◌, ◌||◌}
pub use mathlib.Core.Option.{Option, none, some}
pub use mathlib.Core.List.{List, [], ◌∷◌, ◌++◌, map, Mem, Nodup, Perm}
pub use native.Mathlib.Omega.{arith}

-- A `std::wstring`: its UTF-16 code units.
abbrev pub Text : Type 0
Text = List ℕ

-- The values of a `std::uint64_t`, and its increment.
abbrev pub u64_mod : ℕ
u64_mod = 2 ^ 64

abbrev pub next_u64 : ℕ → ℕ
next_u64 n = (n + 1) % u64_mod
