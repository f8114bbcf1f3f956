-- ===== src/Base.antt =====
-- Names that every other file shares: the libraries' names, the tests and conditionals of C, arrays
-- as lists, and the error codes that the functions of the compiler return.
mod Tests
mod Lists
mod Codes
mod Texts
pub use Tests.*
pub use Lists.*
pub use Codes.*
pub use Texts.{Bytes, codes, bytes_eq_refl, bytes_eq→eq}
unfoldable pub use Texts.{bytes_eq, lookup}
pub use Prim.Native.Nat.{ℕ, zero, suc, ◌+◌, ◌-◌, ◌*◌, ◌/◌, ◌%◌, ◌^◌, ◌≤◌, ◌<◌}
pub use mathlib.Core.Path.{◌≡◌, refl, sym, ap, ◌∙◌}
pub use mathlib.Core.Logic.{◌≢◌, ◌↔◌, ◌⊎◌, inl, inr}
pub use mathlib.Core.Bool.{Bool, true, false, not, ◌&&◌, ◌||◌}
pub use mathlib.Core.Option.{Option, none, some}
pub use mathlib.Core.List.{List, [], ◌∷◌, ◌++◌, append-nil, append_assoc}
pub use native.Mathlib.Omega.{arith}
