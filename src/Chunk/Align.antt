-- ===== src/Chunk/Align.antt =====
-- `ALIGN_PTR` rounds up to a multiple of the alignment, which is a power of two.
use flightos.Common.{
  ℕ, zero, suc, ◌+◌, ◌-◌, ◌*◌, ◌/◌, ◌%◌, ◌^◌, ◌≤◌, ◌<◌, ◌≡◌, refl, sym, ap, ap₂, subst, ◌∙◌, arith,
  word,
}
use Prim.Native.Nat.{bit_and, bit_and-bitwise, min}
use native.Mathlib.Nat.{mul-add, mul-one, lt_of_mul-lt-mul_right, suc-mul, zero-mul}
use flightos.Log2.Bounds.{pow_suc, pow_positive, pow_mono}
use flightos.Chunk.{chunk_align}

-- A multiple of `2 ^ k`
abbrev pub IsMultiple : ℕ → ℕ → Type 0
IsMultiple k r = (q : ℕ) × (r ≡ q * 2 ^ k)

-- The digits of a number under a mask, on enough fuel.
abbrev masked : ℕ → ℕ → ℕ → ℕ
masked fuel a b = Prim.Native.Nat.digits (λ c. 0) min fuel a b

masked-zero : (fuel b : ℕ) → masked fuel 0 b ≡ 0
masked-zero zero b = refl
masked-zero (suc n) b = refl

-- The mask of `n` ones above `k` zeros.
abbrev mask : ℕ → ℕ → ℕ
mask n zero = 2 ^ n - 1
mask n (suc k) = mask n k + mask n k

mask_lem : (n k : ℕ) → mask n k + 2 ^ k ≡ 2 ^ (n + k)
mask_lem n zero = omega (arith, pow_positive n, ap (λ j. 2 ^ j) (same n))
  where
    same : (n : ℕ) → n + 0 ≡ n
    same n = omega arith
mask_lem n (suc k) =
    omega (arith, mask_lem n k, pow_suc k, ap (λ j. 2 ^ j) (next n k), pow_suc (n + k))
  where
    next : (n k : ℕ) → n + suc k ≡ suc (n + k)
    next n k = omega arith

masked-ones : (n fuel a : ℕ) → a < 2 ^ n → a ≤ fuel → masked fuel a (2 ^ n - 1) ≡ a
masked-ones n fuel zero l f = masked-zero fuel (2 ^ n - 1)
masked-ones n zero (suc a) l f = absurd (omega arith)
masked-ones zero (suc fuel) (suc a) l f = absurd (omega (arith, l))
masked-ones (suc n) (suc fuel) (suc a) l f =
    let half : (2 ^ suc n - 1) / 2 ≡ 2 ^ n - 1 = omega (arith, pow_suc n, pow_positive n) in
    let last : (2 ^ suc n - 1) % 2 ≡ 1 = omega (arith, pow_suc n, pow_positive n) in
    ap₂ (λ x y. masked fuel (suc a / 2) x * 2 + min (suc a % 2) y) half last
    ∙ ap (λ x. x * 2 + min (suc a % 2) 1)
        (masked-ones n fuel (suc a / 2) (omega (arith, l, pow_suc n)) (omega (arith, f)))
    ∙ omega arith

-- The largest multiple that is not above a number
abbrev pub Rounds : ℕ → ℕ → ℕ → Type 0
Rounds k a r = IsMultiple k r × (r ≤ a) × (a < r + 2 ^ k)

masked-Rounds :
    (k n fuel a : ℕ) → a < 2 ^ (n + k) → a ≤ fuel → Rounds k a (masked fuel a (mask n k))
masked-Rounds zero n fuel a l f =
    let e = masked-ones n fuel a (omega (arith, l, ap (λ j. 2 ^ j) (same n))) f in
    subst (Rounds 0 a) (sym e) ((a, sym (mul-one a)), omega arith, omega arith)
  where
    same : (n : ℕ) → n + 0 ≡ n
    same n = omega arith
masked-Rounds (suc k) n fuel zero l f =
    subst (Rounds (suc k) 0) (sym (masked-zero fuel (mask n (suc k))))
      ((0, sym (zero-mul (2 ^ suc k))), omega arith, omega (arith, pow_positive (suc k)))
masked-Rounds (suc k) n zero (suc a) l f = absurd (omega arith)
masked-Rounds (suc k) n (suc fuel) (suc a) l f =
    let m = mask n k in
    let half : (m + m) / 2 ≡ m = omega arith in
    let last : (m + m) % 2 ≡ 0 = omega arith in
    let e : masked (suc fuel) (suc a) (m + m) ≡ masked fuel (suc a / 2) m * 2 =
      ap₂ (λ x y. masked fuel (suc a / 2) x * 2 + min (suc a % 2) y) half last
      ∙ none (suc a % 2) (masked fuel (suc a / 2) m * 2) in
    let (q, lo, hi) = masked-Rounds k n fuel (suc a / 2) (below n k a l) (omega (arith, f)) in
    subst (Rounds (suc k) (suc a)) (sym e) (
      (q.0, twice (masked fuel (suc a / 2) m) q.0 q.1),
      omega (arith, lo),
      omega (arith, hi, pow_suc k),
    )
  where
    none : (x y : ℕ) → y + min x 0 ≡ y
    none x y = omega arith

    below : (n k a : ℕ) → suc a < 2 ^ (n + suc k) → suc a / 2 < 2 ^ (n + k)
    below n k a l = omega (arith, l, pow_suc (n + k), ap (λ j. 2 ^ j) (next n k))
      where
        next : (n k : ℕ) → n + suc k ≡ suc (n + k)
        next n k = omega arith

    twice : (r q : ℕ) → r ≡ q * 2 ^ k → r * 2 ≡ q * 2 ^ suc k
    twice r q e = omega (arith, e, ap (λ x. q * x) (pow_suc k), mul-add q (2 ^ k) (2 ^ k))

-- With an alignment of `2 ^ k`, `ALIGN_PTR` gives the next multiple.
pub chunk_align_lem :
    (k p : ℕ)
    → k < 32
    → p + 2 ^ k ≤ word
    → IsMultiple k (chunk_align (2 ^ k) p)
      × (p ≤ chunk_align (2 ^ k) p)
      × (chunk_align (2 ^ k) p < p + 2 ^ k)
unfolding chunk_align
chunk_align_lem k p l h =
    let full : mask (32 - k) k + 2 ^ k ≡ word = mask_lem (32 - k) k ∙ whole in
    let small = pow_mono k 31 (omega (arith, l)) in
    let x : (p + (2 ^ k + word - 1) % word) % word ≡ p + 2 ^ k - 1 =
      omega (arith, pow_positive k, small, h) in
    let m : word - 1 - (2 ^ k + word - 1) % word ≡ mask (32 - k) k =
      omega (arith, pow_positive k, small, full) in
    let e : chunk_align (2 ^ k) p ≡ masked (p + 2 ^ k - 1) (p + 2 ^ k - 1) (mask (32 - k) k) =
      ap₂ bit_and x m ∙ (λ i. bit_and-bitwise (p + 2 ^ k - 1) (mask (32 - k) k) i) in
    let (q, lo, hi) : Rounds k (p + 2 ^ k - 1)
        (masked (p + 2 ^ k - 1) (p + 2 ^ k - 1) (mask (32 - k) k)) =
      masked-Rounds k (32 - k) (p + 2 ^ k - 1) (p + 2 ^ k - 1)
        (omega (arith, h, whole, pow_positive k)) (omega arith) in
    let up : p ≤ masked (p + 2 ^ k - 1) (p + 2 ^ k - 1) (mask (32 - k) k) =
      omega (arith, hi, pow_positive k) in
    let down : masked (p + 2 ^ k - 1) (p + 2 ^ k - 1) (mask (32 - k) k) < p + 2 ^ k =
      omega (arith, lo, pow_positive k) in
    subst (λ r. IsMultiple k r × (p ≤ r) × (r < p + 2 ^ k)) (sym e) (q, up, down)
  where
    whole : 2 ^ (32 - k + k) ≡ word
    whole = let d : 32 - k + k ≡ 32 = omega (arith, l) in ap (λ j. 2 ^ j) d

-- Two multiples that are less than a step apart
pub close-same :
    (k a b : ℕ) → IsMultiple k a → IsMultiple k b → a < b + 2 ^ k → b < a + 2 ^ k → a ≡ b
close-same k a b (q, e) (r, f) l h =
    let u1 : q * 2 ^ k < suc r * 2 ^ k = omega (arith, e, f, l, suc-mul r (2 ^ k)) in
    let v1 : r * 2 ^ k < suc q * 2 ^ k = omega (arith, e, f, h, suc-mul q (2 ^ k)) in
    let u = lt_of_mul-lt-mul_right (2 ^ k) u1 in
    let v = lt_of_mul-lt-mul_right (2 ^ k) v1 in
    e ∙ ap (λ j. j * 2 ^ k) (omega (arith, u, v)) ∙ sym f

-- What is aligned already stays.
pub chunk_align-IsMultiple :
    (k p : ℕ) → k < 32 → p + 2 ^ k ≤ word → IsMultiple k p → chunk_align (2 ^ k) p ≡ p
chunk_align-IsMultiple k p l h m =
    let (n, lo, hi) = chunk_align_lem k p l h in
    close-same k (chunk_align (2 ^ k) p) p n m hi (omega (arith, lo, pow_positive k))
