-- ===== src/Base.antt =====
-- The names that the other modules share: the libraries', and those of the children.
mod Tests
mod Int
mod Lists
mod Bytes
mod Decimal
mod Float
pub mod Sort
pub mod Base64
pub mod Trim
pub use Prim.Native.Nat.{ℕ, zero, suc, ◌+◌, ◌-◌, ◌*◌, ◌/◌, ◌%◌, ◌^◌, ◌≤◌, ◌<◌}
pub use mathlib.Core.Path.{◌≡◌, refl, sym, ap, ap₂, ◌∙◌, subst}
pub use mathlib.Core.Logic.{◌≢◌, ◌↔◌, ◌⊎◌, inl, inr}
pub use mathlib.Core.Bool.{Bool, true, false, not, ◌&&◌, ◌||◌}
pub use mathlib.Core.Option.{Option, none, some}
pub use mathlib.Core.List.{List, [], ◌∷◌, ◌++◌, map, append-nil, append_assoc}
pub use native.Mathlib.Omega.{arith}
pub use Tests.*
pub use Lists.*
pub use Int.*
pub use Bytes.{Text, codes, text_eq_iff, text_eq_refl, lookup-insert, lookup-delete}
unfoldable pub use Bytes.{text_eq, contains, lookup, insert, delete}
pub use Decimal.{int_limit, IsDigit, is_digit, decimal-IsDigit, decimal-ne-nil, atoi-decimal}
unfoldable pub use Decimal.{decimal, atoi}
pub use Float.{Float64, dyadic}
unfoldable pub use Float.{truncate, is_integral, is_below_zero, float_eq, float_of_int}
