-- ===== src/MemMove/Copies.antt =====
-- The optimised copies have the effect of one simultaneous copy.
use flightos.Common.{
  ℕ, zero, suc, ◌+◌, ◌-◌, ◌*◌, ◌/◌, ◌%◌, ◌≤◌, ◌≡◌, refl, sym, ap, ap₂, ◌∙◌, inl, inr, ◌&&◌, ◌||◌,
  arith, ltb, leb, ◌==◌, if◌then◌else◌, ltb→lt, Bool-cases,
}
use flightos.MemMove.{
  memmove_by, memmove_fwd, memmove_bwd, lead_bwd, lead_fwd, memmove, write, words_bwd, bytes_fwd,
  words_fwd, bytes_bwd, Memory, copy_word,
}

-- The memory in which the `n` bytes from `d` on are those that were at `s`.
abbrev pub moved : ℕ → ℕ → ℕ → Memory → Memory
moved d s n m = λ a. if leb d a && ltb a (d + n) then m (s + (a - d)) else m a

moved_none : (d s : ℕ) (m : Memory) (a : ℕ) → moved d s 0 m a ≡ m a
moved_none d s m a = ground arith

copy_word-moved : (m : Memory) (d s a : ℕ) → copy_word m d s a ≡ moved d s 4 m a
copy_word-moved m d s a = ground arith

-- Copies one behind the other, where the second reads nothing that the first wrote.
moved-moved_fwd :
    (d s c k : ℕ) (m : Memory) (a : ℕ)
    → d ≤ s
    → moved (d + c) (s + c) k (moved d s c m) a ≡ moved d s (c + k) m a
moved-moved_fwd d s c k m a h = ground arith

moved-moved_bwd :
    (d s c k : ℕ) (m : Memory) (a : ℕ)
    → s ≤ d
    → moved d s k (moved (d + k) (s + k) c m) a ≡ moved d s (k + c) m a
moved-moved_bwd d s c k m a h = ground arith

-- A copy of equal memories.
moved-same :
    (d s n : ℕ) (m m' : Memory)
    → ((a : ℕ) → m a ≡ m' a)
    → (a : ℕ) → moved d s n m a ≡ moved d s n m' a
moved-same d s n m m' h a = ground (arith, h a, h (s + (a - d)))

bytes_fwd_lem : (c d s : ℕ) (m : Memory) (a : ℕ) → d ≤ s → bytes_fwd c d s m a ≡ moved d s c m a
unfolding bytes_fwd
bytes_fwd_lem zero d s m a h = sym (moved_none d s m a)
bytes_fwd_lem (suc c) d s m a h =
    bytes_fwd_lem c (d + 1) (s + 1) (write m d (m s)) a (omega arith)
    ∙ moved-same (d + 1) (s + 1) c (write m d (m s)) (moved d s 1 m) (write-moved m d s) a
    ∙ moved-moved_fwd d s 1 c m a h
    ∙ ap (λ k. moved d s k m a) (omega arith)
  where
    write-moved : (m : Memory) (d s a : ℕ) → write m d (m s) a ≡ moved d s 1 m a
    write-moved m d s a = ground arith

words_fwd_lem :
    (c d s : ℕ) (m : Memory) (a : ℕ) → d ≤ s → words_fwd copy_word c d s m a ≡ moved d s (c * 4) m a
unfolding words_fwd
words_fwd_lem zero d s m a h = sym (moved_none d s m a)
words_fwd_lem (suc c) d s m a h =
    words_fwd_lem c (d + 4) (s + 4) (copy_word m d s) a (omega arith)
    ∙ moved-same (d + 4) (s + 4) (c * 4) (copy_word m d s) (moved d s 4 m) (copy_word-moved m d s) a
    ∙ moved-moved_fwd d s 4 (c * 4) m a h
    ∙ ap (λ k. moved d s k m a) (omega arith)

bytes_bwd_lem :
    (c d s : ℕ) (m : Memory) (a : ℕ) → s ≤ d → bytes_bwd c (d + c) (s + c) m a ≡ moved d s c m a
unfolding bytes_bwd
bytes_bwd_lem zero d s m a h = sym (moved_none d s m a)
bytes_bwd_lem (suc c) d s m a h =
    ap₂ (λ x y. bytes_bwd c x y (write m x (m y)) a) (minus d) (minus s)
    ∙ bytes_bwd_lem c d s (write m (d + c) (m (s + c))) a h
    ∙ moved-same d s c (write m (d + c) (m (s + c))) (moved (d + c) (s + c) 1 m)
        (write-moved m (d + c) (s + c)) a
    ∙ moved-moved_bwd d s 1 c m a h
    ∙ ap (λ k. moved d s k m a) (omega arith)
  where
    write-moved : (m : Memory) (d s a : ℕ) → write m d (m s) a ≡ moved d s 1 m a
    write-moved m d s a = ground arith

    minus : (x : ℕ) → x + suc c - 1 ≡ x + c
    minus x = omega arith

words_bwd_lem :
    (c d s : ℕ) (m : Memory) (a : ℕ)
    → s ≤ d
    → words_bwd copy_word c (d + c * 4) (s + c * 4) m a ≡ moved d s (c * 4) m a
unfolding words_bwd
words_bwd_lem zero d s m a h = sym (moved_none d s m a)
words_bwd_lem (suc c) d s m a h =
    ap₂ (λ x y. words_bwd copy_word c x y (copy_word m x y) a) (minus d) (minus s)
    ∙ words_bwd_lem c d s (copy_word m (d + c * 4) (s + c * 4)) a h
    ∙ moved-same d s (c * 4) (copy_word m (d + c * 4) (s + c * 4))
        (moved (d + c * 4) (s + c * 4) 4 m) (copy_word-moved m (d + c * 4) (s + c * 4)) a
    ∙ moved-moved_bwd d s 4 (c * 4) m a h
    ∙ ap (λ k. moved d s k m a) (omega arith)
  where
    minus : (x : ℕ) → x + suc c * 4 - 4 ≡ x + c * 4
    minus x = omega arith

lead_fwd-le : (d s n : ℕ) → lead_fwd d s n ≤ n
unfolding lead_fwd
lead_fwd-le d s n = ground arith

lead_bwd-le : (d s n : ℕ) → lead_bwd d s n ≤ n
unfolding lead_bwd
lead_bwd-le d s n = ground arith

-- Some bytes, some words, and the rest of the bytes.
three_fwd :
    (c w r d s : ℕ) (m : Memory) (a : ℕ)
    → d ≤ s
    → bytes_fwd r
        (d + c + w * 4)
        (s + c + w * 4)
        (words_fwd copy_word w (d + c) (s + c) (bytes_fwd c d s m))
        a
      ≡ moved d s (c + w * 4 + r) m a
three_fwd c w r d s m a h =
    bytes_fwd_lem r (d + c + w * 4) (s + c + w * 4)
      (words_fwd copy_word w (d + c) (s + c) (bytes_fwd c d s m)) a (omega arith)
    ∙ moved-same (d + c + w * 4) (s + c + w * 4) r _ (moved d s (c + w * 4) m) two a
    ∙ ap₂ (λ x y. moved x y r (moved d s (c + w * 4) m) a) (assoc d) (assoc s)
    ∙ moved-moved_fwd d s (c + w * 4) r m a h
  where
    assoc : (x : ℕ) → x + c + w * 4 ≡ x + (c + w * 4)
    assoc x = omega arith

    two :
        (b : ℕ)
        → words_fwd copy_word w (d + c) (s + c) (bytes_fwd c d s m) b ≡ moved d s (c + w * 4) m b
    two b =
        words_fwd_lem w (d + c) (s + c) (bytes_fwd c d s m) b (omega arith)
        ∙ moved-same (d + c) (s + c) (w * 4) (bytes_fwd c d s m) (moved d s c m)
            (λ x. bytes_fwd_lem c d s m x h) b
        ∙ moved-moved_fwd d s c (w * 4) m b h

three_bwd :
    (c w r d s : ℕ) (m : Memory) (a : ℕ)
    → s ≤ d
    → bytes_bwd r
        (d + r)
        (s + r)
        (words_bwd copy_word w
          (d + r + w * 4)
          (s + r + w * 4)
          (bytes_bwd c (d + r + w * 4 + c) (s + r + w * 4 + c) m))
        a
      ≡ moved d s (r + (w * 4 + c)) m a
three_bwd c w r d s m a h =
    bytes_bwd_lem r d s _ a h
    ∙ moved-same d s r _ (moved (d + r) (s + r) (w * 4 + c) m) two a
    ∙ moved-moved_bwd d s (w * 4 + c) r m a h
  where
    two :
        (b : ℕ)
        → words_bwd copy_word w
            (d + r + w * 4)
            (s + r + w * 4)
            (bytes_bwd c (d + r + w * 4 + c) (s + r + w * 4 + c) m)
            b
          ≡ moved (d + r) (s + r) (w * 4 + c) m b
    two b =
        words_bwd_lem w (d + r) (s + r) _ b (omega arith)
        ∙ moved-same (d + r) (s + r) (w * 4) _ (moved (d + r + w * 4) (s + r + w * 4) c m)
            (λ x. bytes_bwd_lem c (d + r + w * 4) (s + r + w * 4) m x (omega arith)) b
        ∙ moved-moved_bwd (d + r) (s + r) c (w * 4) m b (omega arith)

-- The same from the ends.
from_ends :
    (c w r d s e f : ℕ) (m : Memory) (a : ℕ)
    → s ≤ d
    → e ≡ d + r + w * 4 + c
    → f ≡ s + r + w * 4 + c
    → bytes_bwd r
        (e - c - w * 4)
        (f - c - w * 4)
        (words_bwd copy_word w (e - c) (f - c) (bytes_bwd c e f m))
        a
      ≡ moved d s (r + (w * 4 + c)) m a
from_ends c w r d s e f m a h p q =
    let e1 : e - c ≡ d + r + w * 4 = omega (arith, p) in
    let f1 : f - c ≡ s + r + w * 4 = omega (arith, q) in
    let e2 : e - c - w * 4 ≡ d + r = omega (arith, p) in
    let f2 : f - c - w * 4 ≡ s + r = omega (arith, q) in
    rw (e2, f2, e1, f1, p, q) (three_bwd c w r d s m a h)

memmove_fwd_lem :
    (d s n : ℕ) (m : Memory) (a : ℕ) → d ≤ s → memmove_fwd copy_word d s n m a ≡ moved d s n m a
unfolding memmove_fwd
memmove_fwd_lem d s n m a h =
    let c = lead_fwd d s n in
    three_fwd c ((n - c) / 4) ((n - c) % 4) d s m a h
    ∙ ap (λ k. moved d s k m a) (omega (arith, lead_fwd-le d s n))

memmove_bwd_lem :
    (d s n : ℕ) (m : Memory) (a : ℕ) → s ≤ d → memmove_bwd copy_word d s n m a ≡ moved d s n m a
unfolding memmove_bwd
memmove_bwd_lem d s n m a h =
    let c = lead_bwd (d + n) (s + n) n in
    let l : c ≤ n = lead_bwd-le (d + n) (s + n) n in
    from_ends c ((n - c) / 4) ((n - c) % 4) d s (d + n) (s + n) m a h (omega (arith, l))
      (omega (arith, l))
    ∙ ap (λ k. moved d s k m a) (omega (arith, l))

-- `memmove` returns the destination, and copies as if all bytes were read before any is written, also
-- where the areas overlap, and whatever their alignment: it writes nothing else.
pub memmove_lem :
    (dest src n : ℕ) (m : Memory)
    → let (p, m') = memmove dest src n m in (p ≡ dest) × ((a : ℕ) → m' a ≡ moved dest src n m a)
unfolding memmove memmove_by
memmove_lem dest src n m = elim (Bool-cases (n == 0 || dest == src)) [
  | inl e ↦ rw e (refl, λ a. ground arith)
  | inr e ↦ rw e (elim (Bool-cases (ltb dest src)) [
    | inl f ↦ rw f (refl, λ a. memmove_fwd_lem dest src n m a (omega (arith, ltb→lt dest src f)))
    | inr f ↦ rw f (refl, λ a. memmove_bwd_lem dest src n m a (ground arith))
  ])
]
