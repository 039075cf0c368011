-- ===== src/Common.antt =====
-- The names that the component modules share: the libraries', passed on, and those of the children.
mod Tests
mod Lists
mod Errno
pub use Tests.*
pub use Lists.*
pub use Errno.*
pub use Prim.Native.Nat.{ℕ, zero, suc, ◌+◌, ◌-◌, ◌*◌, ◌/◌, ◌%◌, ◌^◌, ◌≤◌, ◌<◌}
pub use mathlib.Core.Path.{◌≡◌, refl, sym, ap, ap₂, subst, ◌∙◌, ◌≡⟨◌⟩◌, ◌∎}
pub use mathlib.Core.Logic.{◌≢◌, ◌↔◌, ◌⊎◌, inl, inr}
pub use mathlib.Core.Bool.{Bool, true, false, not, ◌&&◌, ◌||◌}
pub use mathlib.Core.Option.{Option, none, some}
pub use mathlib.Core.List.{List, [], ◌∷◌, ◌++◌, map, reverse, append-nil, append_assoc}
pub use native.Mathlib.Omega.{arith}

-- `unsigned long`, `size_t` and pointers have 32 bits (SPARC V8): what they count wraps here.
abbrev pub word : ℕ
word = 2 ^ 32
