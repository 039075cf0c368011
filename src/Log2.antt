-- ===== src/Log2.antt =====
-- include/kernel/log2.h: powers of two and their logarithms, for words of 32 bits.
pub mod Bounds
mod Tests
use flightos.Common.{
  ℕ, zero, suc, ◌+◌, ◌-◌, ◌*◌, ◌/◌, ◌%◌, ◌^◌, ◌≤◌, ◌<◌, ◌≡◌, refl, sym, ap, ap₂, subst, ◌∙◌, ◌≡⟨◌⟩◌,
  ◌∎, ◌≢◌, ◌↔◌, ◌⊎◌, inl, inr, Bool, true, false, not, ◌&&◌, ◌||◌, Option, none, some, List, [],
  ◌∷◌, ◌++◌, map, reverse, append-nil, append_assoc, arith, word, ltb, leb, ◌==◌, if◌then◌else◌,
  ltb→lt, lt→ltb, leb→le, le→leb, ==_iff, ==_refl, tests, Bool-cases, Option-cases, of_some, length,
  get_elem?, take, drop, set, All, filter, is_empty, length-append, length-set, get_elem?-set_self,
  get_elem?-set_ne, All-append, All-append_left, All-append_right, All-map, Status, success,
  failure, einval, enomem, enoexec, enodev, enosched, eperm,
}

-- The number of binary digits, by at most so many halvings.
unfoldable pub digits : ℕ → ℕ → ℕ
digits zero n = 0
digits (suc k) n = let d = digits k (n / 2) in if n == 0 then 0 else suc d

-- `sizeof(x) * 8 - __builtin_clz(x)`, and 0 for 0
unfoldable pub kfls : ℕ → ℕ
unfolding digits
kfls x = digits 32 x

unfoldable pub ilog2 : ℕ → ℕ
unfolding kfls
ilog2 n = kfls n - 1

unfoldable pub roundup_pow_of_two : ℕ → ℕ
unfolding kfls
roundup_pow_of_two n = 2 ^ kfls (n - 1)

unfoldable pub rounddown_pow_of_two : ℕ → ℕ
unfolding kfls
rounddown_pow_of_two n = 2 ^ (kfls n - 1)
