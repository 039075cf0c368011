-- ===== src/Log2/Bounds.antt =====
-- Between which powers of two a number lies.
use flightos.Common.{
  ℕ, zero, suc, ◌+◌, ◌-◌, ◌*◌, ◌/◌, ◌^◌, ◌≤◌, ◌<◌, ◌≡◌, refl, sym, ap, ap₂, subst, ◌∙◌, ◌≢◌, inl,
  inr, arith, ◌==◌, ==_iff, Bool-cases,
}
use native.Mathlib.Nat.{pow-suc, mul-div-mul_left}
use Prim.Native.Nat.{suc-le-suc}
use flightos.Log2.{rounddown_pow_of_two, digits, kfls, ilog2, roundup_pow_of_two}

pub pow_suc : (k : ℕ) → 2 ^ suc k ≡ 2 ^ k + 2 ^ k
pow_suc k = omega (arith, pow-suc 2 k)

pub pow_mono : (a b : ℕ) → a ≤ b → 2 ^ a ≤ 2 ^ b
pow_mono zero zero h = omega arith
pow_mono (suc a) zero h = absurd (omega arith)
pow_mono zero (suc b) h = omega (arith, pow_mono zero b (omega arith), pow_suc b)
pow_mono (suc a) (suc b) h = omega (arith, pow_mono a b (omega arith), pow_suc a, pow_suc b)

pub pow_positive : (a : ℕ) → 0 < 2 ^ a
pow_positive zero = omega arith
pow_positive (suc a) = omega (arith, pow_positive a, pow_suc a)

sub_zero : (a : ℕ) → a - 0 ≡ a
sub_zero a = omega arith

pub pow_div : (a b : ℕ) → b ≤ a → 2 ^ a / 2 ^ b ≡ 2 ^ (a - b)
pow_div a zero h =
    let one : 2 ^ 0 ≡ 1 = refl in
    omega (arith, ap (λ k. 2 ^ k) (sub_zero a), one, ap (λ x. 2 ^ a / x) one)
pow_div zero (suc b) h = absurd (omega arith)
pow_div (suc a) (suc b) h =
    ap₂ (λ x y. x / y) (twice a) (twice b)
    ∙ mul-div-mul_left (2 ^ a) (2 ^ b) (omega arith)
    ∙ pow_div a b (omega arith)
    ∙ ap (λ k. 2 ^ k) (same_difference a b)
  where
    twice : (k : ℕ) → 2 ^ suc k ≡ 2 * 2 ^ k
    twice k = omega (arith, pow_suc k)

    same_difference : (a b : ℕ) → a - b ≡ suc a - suc b
    same_difference a b = omega arith

digits-zero : (k : ℕ) → digits k 0 ≡ 0
unfolding digits
digits-zero zero = refl
digits-zero (suc k) = refl

pub digits-upper : (k n : ℕ) → n < 2 ^ k → n < 2 ^ digits k n
unfolding digits
digits-upper zero n h = h
digits-upper (suc k) n h = elim (Bool-cases (n == 0)) [
  | inl e ↦ rw e (omega (arith, (==_iff n 0).0 e))
  | inr e ↦ rw e (
      let ih = digits-upper k (n / 2) (omega (arith, h, pow_suc k)) in
      omega (arith, ih, pow_suc (digits k (n / 2))))
]

pub digits-lower : (k n : ℕ) → n ≢ 0 → 2 ^ digits k n ≤ n + n
unfolding digits
digits-lower zero n h = omega arith
digits-lower (suc k) n h = elim (Bool-cases (n == 0)) [
  | inl e ↦ absurd (h ((==_iff n 0).0 e))
  | inr e ↦ rw e (elim (Bool-cases (n / 2 == 0)) [
    | inl f ↦
        let z : digits k (n / 2) ≡ 0 = ap (digits k) ((==_iff (n / 2) 0).0 f) ∙ digits-zero k in
        let m : n ≢ 0 = h in omega (arith, m, ap (λ x. 2 ^ suc x) z)
    | inr f ↦
        let ih = digits-lower k (n / 2) (λ g. cc (f, (==_iff (n / 2) 0).1 g)) in
        omega (arith, ih, pow_suc (digits k (n / 2)))
  ])
]

digits-power : (k j : ℕ) → j < k → digits k (2 ^ j) ≡ suc j
unfolding digits
digits-power zero j h = absurd (omega arith)
digits-power (suc k) zero h = ap suc (digits-zero k)
digits-power (suc k) (suc j) h = elim (Bool-cases (2 ^ suc j == 0)) [
  | inl e ↦ absurd (
      omega
        (arith, (==_iff (2 ^ suc j) 0).0 e, pow_suc j, digits-upper 0 0 (omega arith), positive j))
  | inr e ↦ rw e (ap suc (ap (digits k) (half j) ∙ digits-power k j (omega arith)))
]
  where
    positive : (i : ℕ) → 0 < 2 ^ i
    positive zero = omega arith
    positive (suc i) = omega (arith, positive i, pow_suc i)

    half : (i : ℕ) → 2 ^ suc i / 2 ≡ 2 ^ i
    half i = omega (arith, pow_suc i)

digits-le : (k j n : ℕ) → n < 2 ^ j → digits k n ≤ j
unfolding digits
digits-le zero j n h = ground arith
digits-le (suc k) zero n h = elim (Bool-cases (n == 0)) [
  | inl e ↦ rw e (omega arith)
  | inr e ↦ absurd (cc (e, (==_iff n 0).1 (omega (arith, h))))
]
digits-le (suc k) (suc j) n h = elim (Bool-cases (n == 0)) [
  | inl e ↦ rw e (omega arith)
  | inr e ↦ rw e (suc-le-suc (digits-le k j (n / 2) (omega (arith, h, pow_suc j))))
]

-- A size up to 2 ^ 31 is at most the next power of two, which is less than twice the size; `ilog2` of
-- that power is its exponent.
pub roundup-ilog2 :
    (n : ℕ)
    → 0 < n
    → n ≤ 2 ^ 31
    → let k = ilog2 (roundup_pow_of_two n) in
      (roundup_pow_of_two n ≡ 2 ^ k) × (n ≤ 2 ^ k) × (2 ^ k < n + n) × (k < 32)
unfolding ilog2 roundup_pow_of_two kfls
roundup-ilog2 n h l =
    let d = digits 32 (n - 1) in
    let small : d < 32 = omega (arith, digits-le 32 31 (n - 1) (omega (arith, h, l))) in
    let e : digits 32 (2 ^ d) - 1 ≡ d = omega (arith, digits-power 32 d small) in
    subst (λ k. (2 ^ d ≡ 2 ^ k) × (n ≤ 2 ^ k) × (2 ^ k < n + n) × (k < 32)) (sym e)
      (refl, omega (arith, digits-upper 32 (n - 1) (omega (arith, l))), upper n h, small)
  where
    upper : (n : ℕ) → 0 < n → 2 ^ digits 32 (n - 1) < n + n
    upper n h = elim (Bool-cases (n - 1 == 0)) [
      | inl f ↦
          let z : digits 32 (n - 1) ≡ 0 =
            ap (digits 32) ((==_iff (n - 1) 0).0 f) ∙ digits-zero 32 in
          omega (arith, h, ap (λ x. 2 ^ x) z)
      | inr f ↦ omega (arith, h, digits-lower 32 (n - 1) (λ g. cc (f, (==_iff (n - 1) 0).1 g)))
    ]

minus_one : (d : ℕ) → suc d - 1 ≡ d
minus_one d = omega arith

-- `rounddown_pow_of_two` of a word that is not zero is the largest power of two up to it.
pub rounddown-ilog2 :
    (n : ℕ)
    → 0 < n
    → n < 2 ^ 32
    → let k = ilog2 (rounddown_pow_of_two n) in (2 ^ k ≤ n) × (n < 2 ^ suc k) × (k < 32)
unfolding ilog2 rounddown_pow_of_two kfls
rounddown-ilog2 n h l =
    go (digits 32 n) (digits-upper 32 n l) (digits-lower 32 n (λ e. omega (arith, e, h)))
      (digits-le 32 32 n l)
  where
    go :
        (d : ℕ)
        → n < 2 ^ d
        → 2 ^ d ≤ n + n
        → d ≤ 32
        → let k = digits 32 (2 ^ (d - 1)) - 1 in (2 ^ k ≤ n) × (n < 2 ^ suc k) × (k < 32)
    go zero u v w = absurd (omega (arith, u, h))
    go (suc d) u v w =
        let e : digits 32 (2 ^ (suc d - 1)) - 1 ≡ d =
          ap (λ x. digits 32 (2 ^ x) - 1) (minus_one d)
          ∙ omega (arith, digits-power 32 d (omega (arith, w))) in
        subst (λ k. (2 ^ k ≤ n) × (n < 2 ^ suc k) × (k < 32)) (sym e)
          (omega (arith, v, pow_suc d), u, omega arith)
