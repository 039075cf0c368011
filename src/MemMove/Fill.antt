-- ===== src/MemMove/Fill.antt =====
-- lib/string.c: memset, with its stores by double words, and the functions that fill, search or copy bytes.
-- The machine stores the first byte of a word at the lowest address.
pub mod Filled
use flightos.Common.{
  ℕ, zero, suc, ◌+◌, ◌-◌, ◌*◌, ◌/◌, ◌%◌, ◌^◌, ◌≤◌, ◌<◌, ◌≡◌, refl, sym, ap, ap₂, subst, ◌∙◌, ◌≡⟨◌⟩◌,
  ◌∎, ◌≢◌, ◌↔◌, ◌⊎◌, inl, inr, Bool, true, false, not, ◌&&◌, ◌||◌, Option, none, some, List, [],
  ◌∷◌, ◌++◌, map, reverse, append-nil, append_assoc, arith, word, ltb, leb, ◌==◌, if◌then◌else◌,
  ltb→lt, lt→ltb, leb→le, le→leb, ==_iff, ==_refl, tests, Bool-cases, Option-cases, of_some, length,
  get_elem?, take, drop, set, All, filter, is_empty, length-append, length-set, get_elem?-set_self,
  get_elem?-set_ne, All-append, All-append_left, All-append_right, All-map, Status, success,
  failure, einval, enomem, enoexec, enodev, enosched, eperm,
}
use flightos.MemMove.{Memory, write, memcpy}

-- Bytes are set one by one, `n` of them from `p` on.
unfoldable pub set_bytes : ℕ → ℕ → ℕ → Memory → Memory
set_bytes zero p b m = m
set_bytes (suc n) p b m = set_bytes n (p + 1) b (write m p b)

-- The loop that aligns the head: what is left of the bytes, the pointer, and the memory.
unfoldable pub align_head : ℕ → ℕ → ℕ → Memory → ℕ × ℕ × Memory
align_head zero p b m = (zero, p, m)
align_head (suc n) p b m =
    if p % 8 == 0 then (suc n, p, m) else align_head n (p + 1) b (write m p b)

-- `dw[0] = cc`, where each byte of `cc` is `b`
abbrev pub store_double : Memory → ℕ → ℕ → Memory
store_double m p b =
    write
      (write
        (write (write (write (write (write (write m p b) (p + 1) b) (p + 2) b) (p + 3) b) (p + 4) b)
          (p + 5) b)
        (p + 6) b)
      (p + 7) b

-- The loop with two stores, with `c` rounds left.
unfoldable pub set_doubles : ℕ → ℕ → ℕ → Memory → Memory
set_doubles zero p b m = m
set_doubles (suc c) p b m = set_doubles c (p + 16) b (store_double (store_double m p b) (p + 8) b)

abbrev pub set_rest : ℕ → ℕ × ℕ × Memory → Memory
set_rest b (n, p, m) = set_bytes (n % 16) (p + (n / 16) * 16) b (set_doubles (n / 16) p b m)

unfoldable pub memset : ℕ → ℕ → ℕ → Memory → ℕ × Memory
unfolding set_bytes align_head set_doubles
memset s c n m = (s, set_rest (c % 256) (align_head n s (c % 256) m))

unfoldable pub bzero : ℕ → ℕ → Memory → Memory
unfolding memset
bzero s n m = (memset s 0 n m).1

unfoldable pub memset16 : ℕ → ℕ → ℕ → Memory → Memory
memset16 p c zero m = m
memset16 p c (suc n) m =
    memset16 (p + 2) c n (write (write m p ((c / 2 ^ 8) % 2 ^ 8)) (p + 1) (c % 2 ^ 8))

unfoldable pub memset32 : ℕ → ℕ → ℕ → Memory → Memory
memset32 p c zero m = m
memset32 p c (suc n) m = memset32 (p + 4) c n (
    write
      (write (write (write m p ((c / 2 ^ 24) % 2 ^ 8)) (p + 1) ((c / 2 ^ 16) % 2 ^ 8)) (p + 2)
        ((c / 2 ^ 8) % 2 ^ 8))
      (p + 3) (c % 2 ^ 8))

unfoldable pub memchr : ℕ → ℕ → ℕ → Memory → Option ℕ
memchr s c zero m = none
memchr s c (suc n) m = let later = memchr (s + 1) c n m in if c % 256 == m s then some s else later

-- The loop of `strcpy` on fuel; `none` means that the fuel ran out.
unfoldable pub copy_loop : ℕ → ℕ → ℕ → Memory → Option Memory
copy_loop zero dest src m = none
copy_loop (suc fuel) dest src m =
    let m' = write m dest (m src) in
    let more = copy_loop fuel (dest + 1) (src + 1) m' in if m src == 0 then some m' else more

unfoldable pub strcpy : ℕ → ℕ → ℕ → Memory → Option (ℕ × Memory)
unfolding copy_loop
strcpy fuel dest src m = elim (copy_loop fuel dest src m) [
  | none ↦ none
  | some m' ↦ some (dest, m')
]

-- `strdup` of a string with `len` bytes; `dup` is what `kzalloc` answers, with the memory then.
unfoldable pub strdup : ℕ → ℕ → ℕ → Memory → ℕ × Memory
unfolding memcpy
strdup s len dup m =
    if s == 0 then (0, m) else if dup == 0 then (0, m) else (dup, (memcpy dup s (len + 1) m).1)
