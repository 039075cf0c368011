-- ===== src/MemMove.antt =====
-- lib/string.c: memcpy and memmove, with their copies by words. A memory gives the byte at every address;
-- an `int` has four bytes.
pub mod Copies
pub mod Aligned
pub mod Fill
mod Tests
use flightos.Common.{
  ℕ, zero, suc, ◌+◌, ◌-◌, ◌*◌, ◌/◌, ◌%◌, ◌^◌, ◌≤◌, ◌<◌, ◌≡◌, refl, sym, ap, ap₂, subst, ◌∙◌, ◌≡⟨◌⟩◌,
  ◌∎, ◌≢◌, ◌↔◌, ◌⊎◌, inl, inr, Bool, true, false, not, ◌&&◌, ◌||◌, Option, none, some, List, [],
  ◌∷◌, ◌++◌, map, reverse, append-nil, append_assoc, arith, word, ltb, leb, ◌==◌, if◌then◌else◌,
  ltb→lt, lt→ltb, leb→le, le→leb, ==_iff, ==_refl, tests, Bool-cases, Option-cases, of_some, length,
  get_elem?, take, drop, set, All, filter, is_empty, length-append, length-set, get_elem?-set_self,
  get_elem?-set_ne, All-append, All-append_left, All-append_right, All-map, Status, success,
  failure, einval, enomem, enoexec, enodev, enosched, eperm,
}

abbrev pub Memory : Type 0
Memory = ℕ → ℕ

abbrev pub write : Memory → ℕ → ℕ → Memory
write m a v = λ x. if x == a then v else m x

-- `(*((int *) d)) = (*((int *) s))` reads four bytes before it writes them.
abbrev pub copy_word : Memory → ℕ → ℕ → Memory
copy_word m d s =
    let b0 = m s in
    let b1 = m (s + 1) in
    let b2 = m (s + 2) in
    let b3 = m (s + 3) in write (write (write (write m d b0) (d + 1) b1) (d + 2) b2) (d + 3) b3

-- What copies a word from one address to another; on the machine, only at aligned addresses.
abbrev pub WordCopy : Type 0
WordCopy = Memory → ℕ → ℕ → Memory

-- The loops of `memmove_fwd`, by bytes and by words, with `c` rounds left.
unfoldable pub bytes_fwd : ℕ → ℕ → ℕ → Memory → Memory
bytes_fwd zero d s m = m
bytes_fwd (suc c) d s m = bytes_fwd c (d + 1) (s + 1) (write m d (m s))

unfoldable pub words_fwd : WordCopy → ℕ → ℕ → ℕ → Memory → Memory
words_fwd word_copy zero d s m = m
words_fwd word_copy (suc c) d s m = words_fwd word_copy c (d + 4) (s + 4) (word_copy m d s)

-- `(s | d) & 3` is not zero.
abbrev pub is_unaligned : ℕ → ℕ → Bool
is_unaligned d s = not (s % 4 == 0) || not (d % 4 == 0)

-- `(s ^ d) & 3` is not zero.
abbrev pub is_skewed : ℕ → ℕ → Bool
is_skewed d s = not (s % 4 == d % 4)

-- The number of bytes that `memmove_fwd` copies one by one before the words.
unfoldable pub lead_fwd : ℕ → ℕ → ℕ → ℕ
lead_fwd d s n =
    if is_unaligned d s then (if ltb n 4 then n else if is_skewed d s then n else 4 - s % 4) else 0

unfoldable pub memmove_fwd : WordCopy → ℕ → ℕ → ℕ → Memory → Memory
unfolding bytes_fwd words_fwd lead_fwd
memmove_fwd word_copy d s n m =
    let c = lead_fwd d s n in
    let w = (n - c) / 4 in
    bytes_fwd ((n - c) % 4) (d + c + w * 4) (s + c + w * 4)
      (words_fwd word_copy w (d + c) (s + c) (bytes_fwd c d s m))

-- The loops of `memmove_bwd`; the pointers are behind what is to be copied.
unfoldable pub bytes_bwd : ℕ → ℕ → ℕ → Memory → Memory
bytes_bwd zero d s m = m
bytes_bwd (suc c) d s m = bytes_bwd c (d - 1) (s - 1) (write m (d - 1) (m (s - 1)))

unfoldable pub words_bwd : WordCopy → ℕ → ℕ → ℕ → Memory → Memory
words_bwd word_copy zero d s m = m
words_bwd word_copy (suc c) d s m =
    words_bwd word_copy c (d - 4) (s - 4) (word_copy m (d - 4) (s - 4))

-- The same for `memmove_bwd`, where `d` and `s` are the ends.
unfoldable pub lead_bwd : ℕ → ℕ → ℕ → ℕ
lead_bwd d s n =
    if is_unaligned d s then (if leb n 4 then n else if is_skewed d s then n else s % 4) else 0

unfoldable pub memmove_bwd : WordCopy → ℕ → ℕ → ℕ → Memory → Memory
unfolding bytes_bwd words_bwd lead_bwd
memmove_bwd word_copy d s n m =
    let c = lead_bwd (d + n) (s + n) n in
    let w = (n - c) / 4 in
    bytes_bwd ((n - c) % 4) (d + n - c - w * 4) (s + n - c - w * 4)
      (words_bwd word_copy w (d + n - c) (s + n - c) (bytes_bwd c (d + n) (s + n) m))

-- `memmove`, with what copies a word, and as it is.
unfoldable pub memmove_by : WordCopy → ℕ → ℕ → ℕ → Memory → ℕ × Memory
unfolding memmove_fwd memmove_bwd
memmove_by word_copy dest src n m =
    if n == 0 || dest == src
    then (dest, m)
    else if ltb dest src
    then (dest, memmove_fwd word_copy dest src n m)
    else (dest, memmove_bwd word_copy dest src n m)

unfoldable pub memmove : ℕ → ℕ → ℕ → Memory → ℕ × Memory
unfolding memmove_by
memmove dest src n m = memmove_by copy_word dest src n m

unfoldable pub memcpy : ℕ → ℕ → ℕ → Memory → ℕ × Memory
unfolding memmove
memcpy dest src n m = memmove dest src n m
