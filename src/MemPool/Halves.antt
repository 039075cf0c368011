-- ===== src/MemPool/Halves.antt =====
-- The neighbour of a block is the other half of the block of the next order.
use flightos.Common.{
  ℕ, zero, suc, ◌+◌, ◌-◌, ◌*◌, ◌/◌, ◌%◌, ◌^◌, ◌≤◌, ◌<◌, ◌≡◌, refl, sym, ap, ap₂, ◌∙◌, arith, ltb,
  ◌==◌, if◌then◌else◌,
}
use Prim.Native.Nat.{bit_xor, bit_xor-bitwise, bitwise, differ}
use native.Mathlib.Nat.{suc-mul, one-mul, add-mul, mul-add, mul-one}
use flightos.Log2.Bounds.{pow_suc, pow_positive}
use flightos.MemPool.{Pool, find_neighbour}

-- The digits of an exclusive or, on enough fuel.
abbrev xor_digits : ℕ → ℕ → ℕ → ℕ
xor_digits fuel a b = Prim.Native.Nat.digits (λ c. c) differ fuel a b

differ-zero : (a : ℕ) → differ a 0 ≡ a
differ-zero zero = refl
differ-zero (suc a) = refl

xor_digits-zero : (fuel a : ℕ) → a ≤ fuel → xor_digits fuel a 0 ≡ a
xor_digits-zero zero a l = omega arith
xor_digits-zero (suc n) zero l = refl
xor_digits-zero (suc n) (suc a) l =
    ap₂ (λ x y. x * 2 + y) (xor_digits-zero n (suc a / 2) (omega (arith, l)))
      (differ-zero (suc a % 2))
    ∙ both (suc a)
  where
    both : (b : ℕ) → (b / 2) * 2 + b % 2 ≡ b
    both b = omega arith

-- The other one of two neighbouring numbers
abbrev pub other : ℕ → ℕ
other j = if j % 2 == 0 then j + 1 else j - 1

xor_digits-one : (fuel a : ℕ) → a ≤ fuel → xor_digits fuel a 1 ≡ other a
xor_digits-one zero zero l = refl
xor_digits-one zero (suc a) l = absurd (omega arith)
xor_digits-one (suc n) zero l = refl
xor_digits-one (suc n) (suc a) l =
    ap₂ (λ x y. x * 2 + y) (xor_digits-zero n (suc a / 2) (omega (arith, l)))
      (last (suc a % 2) (omega arith))
    ∙ both (suc a)
  where
    last : (d : ℕ) → d < 2 → differ d 1 ≡ 1 - d
    last zero h = refl
    last (suc zero) h = refl
    last (suc (suc d)) h = absurd (omega arith)

    both : (b : ℕ) → (b / 2) * 2 + (1 - b % 2) ≡ other b
    both b = ground arith

-- A multiple of a power of two is twice one of the power before.
twice_multiple : (j o : ℕ) → j * 2 ^ suc o ≡ j * 2 ^ o + j * 2 ^ o
twice_multiple j o = ap (λ q. j * q) (pow_suc o) ∙ mul-add j (2 ^ o) (2 ^ o)

no_multiple : (j o : ℕ) → j * 2 ^ o ≡ 0 → j ≡ 0
no_multiple zero o e = refl
no_multiple (suc j) o e = absurd (omega (arith, e, suc-mul j (2 ^ o), pow_positive o))

xor_digits-pow :
    (o fuel a j : ℕ) → a ≡ j * 2 ^ o → a ≤ fuel → xor_digits fuel a (2 ^ o) ≡ other j * 2 ^ o
xor_digits-pow zero fuel a j e l =
    xor_digits-one fuel a l ∙ ap other (e ∙ mul-one j) ∙ sym (mul-one (other j))
xor_digits-pow (suc o) fuel a j e l = by fuel a e l (xor_digits-pow o)
  where
    by :
        (fuel a : ℕ)
        → a ≡ j * 2 ^ suc o
        → a ≤ fuel
        → ((fuel a j : ℕ) → a ≡ j * 2 ^ o → a ≤ fuel → xor_digits fuel a (2 ^ o) ≡ other j * 2 ^ o)
        → xor_digits fuel a (2 ^ suc o) ≡ other j * 2 ^ suc o
    by zero zero e l ih =
        sym (ap (λ k. other k * 2 ^ suc o) (no_multiple j (suc o) (sym e)) ∙ one-mul (2 ^ suc o))
    by zero (suc a) e l ih = absurd (omega arith)
    by (suc n) zero e l ih =
        sym (ap (λ k. other k * 2 ^ suc o) (no_multiple j (suc o) (sym e)) ∙ one-mul (2 ^ suc o))
    by (suc n) (suc a) e l ih =
        let half : 2 ^ suc o / 2 ≡ 2 ^ o = omega (arith, pow_suc o) in
        let even : suc a % 2 ≡ 0 = omega (arith, e, twice_multiple j o) in
        let low : 2 ^ suc o % 2 ≡ 0 = omega (arith, pow_suc o) in
        let more : xor_digits n (suc a / 2) (2 ^ o) ≡ other j * 2 ^ o =
          ih n (suc a / 2) j (omega (arith, e, twice_multiple j o)) (omega (arith, l)) in
        ap₂ (λ x y. xor_digits n (suc a / 2) x * 2 + differ y (2 ^ suc o % 2)) half even
        ∙ ap₂ (λ x y. x * 2 + differ 0 y) more low
        ∙ omega (arith, twice_multiple (other j) o)

-- The neighbour of the block at index `j` of an order is at the other index.
pub find_neighbour_lem :
    (mp : Pool) (o j : ℕ) → find_neighbour mp (mp.base + j * 2 ^ o) o ≡ mp.base + other j * 2 ^ o
unfolding find_neighbour
find_neighbour_lem mp o j =
    ap (λ x. x + mp.base)
      ((λ i. bit_xor-bitwise (mp.base + j * 2 ^ o - mp.base) (2 ^ o) i)
        ∙ xor_digits-pow o (mp.base + j * 2 ^ o - mp.base) (mp.base + j * 2 ^ o - mp.base) j
            (omega arith) (omega arith))
    ∙ omega arith

-- The lower one of two neighbours starts the block of the next order.
pub lower_half :
    (base j o : ℕ)
    → base + (if ltb (other j) j then other j else j) * 2 ^ o ≡ base + (j / 2) * 2 ^ suc o
lower_half base j o =
    ap (λ k. base + k * 2 ^ o) (low j)
    ∙ omega (arith, add-mul (j / 2) (j / 2) (2 ^ o), twice_multiple (j / 2) o)
  where
    low : (j : ℕ) → (if ltb (other j) j then other j else j) ≡ j / 2 + j / 2
    low j = ground arith

-- Both are within the pool, and so is the block of the next order.
pub other_within : (j o m : ℕ) → o < m → j < 2 ^ (m - o) → other j < 2 ^ (m - o)
other_within j o m l h = ground (arith, next (m - o) (omega arith))
  where
    next : (k : ℕ) → 0 < k → (q : ℕ) × (2 ^ k ≡ q + q)
    next zero z = absurd (omega arith)
    next (suc k) z = (2 ^ k, pow_suc k)

pub half_within : (j o m : ℕ) → o < m → j < 2 ^ (m - o) → j / 2 < 2 ^ (m - suc o)
half_within j o m l h =
    omega (arith, h, pow_suc (m - suc o), ap (λ k. 2 ^ k) (same (m - o) (m - suc o) (omega arith)))
  where
    same : (a b : ℕ) → a ≡ suc b → a ≡ suc b
    same a b e = e
