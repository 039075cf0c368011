-- ===== src/MemMove/Aligned.antt =====
-- `memmove` copies words only where both addresses are aligned.
use flightos.Common.{
  ℕ, zero, suc, ◌+◌, ◌-◌, ◌*◌, ◌/◌, ◌%◌, ◌≤◌, ◌<◌, ◌≡◌, refl, ap, ap₂, ◌∙◌, ◌||◌, arith, ltb, ◌==◌,
  if◌then◌else◌,
}
use flightos.MemMove.{
  Memory, WordCopy, bytes_fwd, bytes_bwd, words_fwd, words_bwd, lead_fwd, lead_bwd, memmove_fwd,
  memmove_bwd, memmove_by,
}

-- Two copies of a word that do the same, where both addresses are aligned.
abbrev pub Agree : WordCopy → WordCopy → Type 0
Agree v w = (m : Memory) (d s : ℕ) → d % 4 ≡ 0 → s % 4 ≡ 0 → v m d s ≡ w m d s

words_fwd-Agree :
    (v w : WordCopy) (c d s : ℕ) (m : Memory)
    → Agree v w
    → (0 < c → (d % 4 ≡ 0) × (s % 4 ≡ 0))
    → words_fwd v c d s m ≡ words_fwd w c d s m
unfolding words_fwd
words_fwd-Agree v w zero d s m h a = refl
words_fwd-Agree v w (suc c) d s m h a =
    let (p, q) = a (omega arith) in
    ap (words_fwd v c (d + 4) (s + 4)) (h m d s p q)
    ∙ words_fwd-Agree v w c (d + 4) (s + 4) (w m d s) h (λ l. (omega (arith, p), omega (arith, q)))

words_bwd-Agree :
    (v w : WordCopy) (c d s : ℕ) (m : Memory)
    → Agree v w
    → c * 4 ≤ d
    → c * 4 ≤ s
    → (0 < c → (d % 4 ≡ 0) × (s % 4 ≡ 0))
    → words_bwd v c d s m ≡ words_bwd w c d s m
unfolding words_bwd
words_bwd-Agree v w zero d s m h k l a = refl
words_bwd-Agree v w (suc c) d s m h k l a =
    let (p, q) = a (omega arith) in
    let p' : (d - 4) % 4 ≡ 0 = omega (arith, p, k) in
    let q' : (s - 4) % 4 ≡ 0 = omega (arith, q, l) in
    ap (words_bwd v c (d - 4) (s - 4)) (h m (d - 4) (s - 4) p' q')
    ∙ words_bwd-Agree v w c (d - 4) (s - 4) (w m (d - 4) (s - 4)) h (omega (arith, k))
        (omega (arith, l)) (λ z. (p', q'))

-- Where the words begin, or end, both addresses are aligned.
lead_fwd-aligned :
    (d s n : ℕ)
    → 0 < (n - lead_fwd d s n) / 4
    → ((d + lead_fwd d s n) % 4 ≡ 0) × ((s + lead_fwd d s n) % 4 ≡ 0)
unfolding lead_fwd
lead_fwd-aligned d s n h = ground arith

lead_bwd-aligned :
    (d s n : ℕ)
    → let c = lead_bwd (d + n) (s + n) n in
      0 < (n - c) / 4 → ((d + n - c) % 4 ≡ 0) × ((s + n - c) % 4 ≡ 0)
unfolding lead_bwd
lead_bwd-aligned d s n h = ground arith

-- `memmove` does the same with two copies of a word that agree wherever both addresses are aligned to words: what
-- the copy of a word does elsewhere never matters, whatever the areas are.
pub memmove-Agree :
    (v w : WordCopy) (dest src n : ℕ) (m : Memory)
    → Agree v w
    → memmove_by v dest src n m ≡ memmove_by w dest src n m
unfolding memmove_by memmove_fwd memmove_bwd
memmove-Agree v w dest src n m h =
    let c = lead_fwd dest src n in
    let k = (n - c) / 4 in
    let e = lead_bwd (dest + n) (src + n) n in
    let j = (n - e) / 4 in
    let up =
      words_fwd-Agree v w k (dest + c) (src + c) (bytes_fwd c dest src m) h
        (lead_fwd-aligned dest src n) in
    let down =
      words_bwd-Agree v w j (dest + n - e) (src + n - e) (bytes_bwd e (dest + n) (src + n) m) h
        (room dest n e) (room src n e) (lead_bwd-aligned dest src n) in
    ap₂
      (λ x y.
        if n == 0 || dest == src
        then (dest, m)
        else if ltb dest src
        then (dest, bytes_fwd ((n - c) % 4) (dest + c + k * 4) (src + c + k * 4) x)
        else (dest, bytes_bwd ((n - e) % 4) (dest + n - e - j * 4) (src + n - e - j * 4) y))
      up down
  where
    room : (d n e : ℕ) → (n - e) / 4 * 4 ≤ d + n - e
    room d n e = omega arith
