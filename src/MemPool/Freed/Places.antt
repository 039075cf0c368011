-- ===== src/MemPool/Freed/Places.antt =====
-- Where the blocks of an order are, and what two neighbours make.
use flightos.Common.{
  ℕ, zero, suc, ◌+◌, ◌-◌, ◌*◌, ◌/◌, ◌%◌, ◌^◌, ◌≤◌, ◌<◌, ◌≡◌, refl, sym, ap, subst, ◌∙◌, ◌⊎◌, inl,
  inr, true, false, arith, ltb, ◌==◌, if◌then◌else◌, Bool-cases,
}
use native.Mathlib.Nat.{one-mul, add-mul, mul_assoc, mul-lt-mul_of_pos_right}
use flightos.Log2.Bounds.{pow_suc, pow_mono, pow_positive}
use flightos.MemPool.{Pool}
use flightos.MemPool.Halves.{other, lower_half}
use flightos.MemPool.Covers.{inside, inside-halves}
use flightos.MemPool.Sound.Merged.{index, IsBlock}

-- The block of an order at an index, and that it is within the pool and not free.
abbrev pub at : Pool → ℕ → ℕ → ℕ
at mp o i = mp.base + i * 2 ^ o

abbrev pub IsTaken : Pool → ℕ → ℕ → Type 0
IsTaken mp o i =
    (mp.blk_free (index mp (at mp o i)) ≡ false)
    × (i < 2 ^ (mp.max_order - o))
    × (mp.min_order ≤ o)
    × (o ≤ mp.max_order)
    × (mp.max_order < 32)

-- The neighbour is next to the block, and the lower one of them has the lower index.
sides :
    (base i o : ℕ)
    → let blk = base + i * 2 ^ o in
      let n = base + other i * 2 ^ o in
      ((ltb n blk ≡ true) × (ltb (other i) i ≡ true) × (blk ≡ n + 2 ^ o))
      ⊎ ((ltb n blk ≡ false) × (ltb (other i) i ≡ false) × (n ≡ blk + 2 ^ o))
sides base i o = elim (parity i) [
  | inl e ↦
      let c = step i (other i) e in
      inl (ground (arith, c, pow_positive o), ground (arith, e), omega (arith, c))
  | inr e ↦
      let c = step (other i) i e in inr (ground (arith, c), ground (arith, e), omega (arith, c))
]
  where
    step : (x y : ℕ) → x ≡ y + 1 → x * 2 ^ o ≡ y * 2 ^ o + 2 ^ o
    step x y e =
        ap (λ z. z * 2 ^ o) e ∙ add-mul y 1 (2 ^ o) ∙ ap (λ z. y * 2 ^ o + z) (one-mul (2 ^ o))

    parity : (i : ℕ) → (i ≡ other i + 1) ⊎ (other i ≡ i + 1)
    parity i = elim (Bool-cases (i % 2 == 0)) [
      | inl e ↦ inr (rw e refl)
      | inr e ↦ inl (ground arith)
    ]

pow_add : (a b : ℕ) → 2 ^ (a + b) ≡ 2 ^ a * 2 ^ b
pow_add zero b = ap (λ z. 2 ^ z) (omega arith) ∙ sym (one-mul (2 ^ b))
pow_add (suc a) b =
    ap (λ z. 2 ^ z) (next a b)
    ∙ pow_suc (a + b)
    ∙ ap (λ z. z + z) (pow_add a b)
    ∙ sym (add-mul (2 ^ a) (2 ^ a) (2 ^ b))
    ∙ ap (λ z. z * 2 ^ b) (sym (pow_suc a))
  where
    next : (a b : ℕ) → suc a + b ≡ suc (a + b)
    next a b = omega arith

-- A block at an index of its order is at one of the smallest order.
pub at-IsBlock :
    (mp : Pool) (i o : ℕ)
    → mp.max_order < 32
    → mp.min_order ≤ o
    → o ≤ mp.max_order
    → i < 2 ^ (mp.max_order - o)
    → IsBlock mp (mp.base + i * 2 ^ o)
at-IsBlock mp i o m l h b =
    let same : i * 2 ^ (o - mp.min_order) * 2 ^ mp.min_order ≡ i * 2 ^ o =
      mul_assoc i (2 ^ (o - mp.min_order)) (2 ^ mp.min_order)
      ∙ ap (λ z. i * z)
          (sym (pow_add (o - mp.min_order) mp.min_order) ∙ ap (λ z. 2 ^ z) (omega (arith, l))) in
    let below : i * 2 ^ o < 2 ^ mp.max_order =
      subst (λ z. i * 2 ^ o < z)
        (sym (pow_add (mp.max_order - o) o) ∙ ap (λ z. 2 ^ z) (omega (arith, h)))
        (mul-lt-mul_of_pos_right b (pow_positive o)) in
    (
      i * 2 ^ (o - mp.min_order),
      ap (λ z. mp.base + z) (sym same),
      omega (arith, same, below, pow_mono mp.max_order 31 (omega (arith, m))),
    )

abbrev pub lower_of : ℕ → ℕ → ℕ
lower_of blk n = if ltb n blk then n else blk

-- The block that two neighbours become is the one of the next order, and covers what they cover.
pub lower_lem :
    (base i o a : ℕ)
    → let blk = base + i * 2 ^ o in
      let n = base + other i * 2 ^ o in
      let lower = lower_of blk n in
      (lower ≡ base + (i / 2) * 2 ^ suc o)
      × (inside a lower (suc o) ≡ inside a n o + inside a blk o)
      × ((lower ≡ n) ⊎ (lower ≡ blk))
lower_lem base i o a =
    let blk = base + i * 2 ^ o in
    let n = base + other i * 2 ^ o in
    elim (sides base i o) [
      | inl (e, f, g) ↦ (
        ap (λ b. if b then n else blk) e
            ∙ sym (ap (λ b. base + (if b then other i else i) * 2 ^ o) f)
            ∙ lower_half base i o,
        ap (λ b. inside a (if b then n else blk) (suc o)) e
            ∙ inside-halves a n o
            ∙ ap (λ x. inside a n o + inside a x o) (sym g),
        inl (ap (λ b. if b then n else blk) e),
      )
      | inr (e, f, g) ↦ (
        ap (λ b. if b then n else blk) e
            ∙ sym (ap (λ b. base + (if b then other i else i) * 2 ^ o) f)
            ∙ lower_half base i o,
        ap (λ b. inside a (if b then n else blk) (suc o)) e
            ∙ inside-halves a blk o
            ∙ ap (λ x. inside a blk o + inside a x o) (sym g)
            ∙ omega arith,
        inr (ap (λ b. if b then n else blk) e),
      )
    ]
