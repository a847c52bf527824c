-- ===== src/Base.antt =====
-- The names that every module shares: the libraries', passed on, the Boolean tests, lists and
-- integers over the native numbers, and strings of bytes.
mod Bools
mod Lists
mod Find
pub mod Int
pub mod Numbers
pub use Bools.*
unfoldable pub use Bools.{holds_under}
pub use Lists.*
pub use Find.*
unfoldable pub use Find.{find_from}
pub use Int.*
unfoldable pub use Int.{◌+ℤ◌, ◌-ℤ◌}
unfoldable pub use Numbers.{
  strtol, scan_int, eq_bytes, show_ℕ_fuel, show_ℕ, show_ℤ, skip_spaces, read_digits, atoi,
}
pub use Numbers.*
pub use Prim.Native.Nat.{ℕ, zero, suc, ◌+◌, ◌-◌, ◌*◌, ◌/◌, ◌%◌, ◌^◌, ◌≤◌, ◌<◌, min, max}
pub use mathlib.Core.Path.{◌≡◌, refl, sym, ap, ap₂, subst, ◌∙◌, fun_ext}
pub use mathlib.Core.Logic.{◌≢◌, ◌↔◌, ◌⊎◌, inl, inr}
pub use mathlib.Core.Bool.{Bool, true, false, not, ◌&&◌, ◌||◌, xor}
pub use mathlib.Core.Option.{Option, none, some}
pub use mathlib.Core.List.{List, [], ◌∷◌, ◌++◌, map, append-nil, append_assoc}
pub use native.Mathlib.Omega.{arith}
unfoldable pub use native.Mathlib.Decide.{dec_lt, dec_le, ℕ_discrete}
pub use native.Mathlib.Nat.{mod-lt, mod-eq_of_lt}
