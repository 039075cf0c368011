-- ===== src/Edf/Admission/Hyperperiod.antt =====
-- `edf_hyperperiod` is a common multiple of the periods.
use flightos.Common.{
  ℕ, zero, suc, ◌+◌, ◌-◌, ◌*◌, ◌/◌, ◌%◌, ◌^◌, ◌≤◌, ◌<◌, ◌≡◌, refl, sym, ap, ap₂, subst, ◌∙◌, inl,
  inr, true, false, Option, some, List, [], ◌∷◌, arith, ltb, ◌==◌, ltb→lt, lt→ltb, ==_iff,
  Bool-cases, All, All-map,
}
use native.Mathlib.Nat.{
  zero-mul, suc-mul, add-mul, mul_assoc, mul_comm, mul_right_comm, mul-pos, mod-add-div',
  mul-div_cancel, mul-sub, eq_of_mul-eq-mul_right,
}
use flightos.Edf.{Task}
use flightos.Edf.Calls.{Queue}
use flightos.Edf.Admission.{subtract_loop, lcm_round, lcm_loop, hyperperiod}

abbrev pub Divides : ℕ → ℕ → Type 0
Divides p n = (k : ℕ) × (n ≡ k * p)

Divides-add : (g a b : ℕ) → Divides g a → Divides g b → Divides g (a + b)
Divides-add g a b (k, e) (l, f) = (k + l, ap₂ (λ x y. x + y) e f ∙ sym (add-mul k l g))

Divides-mul : (d n m : ℕ) → Divides d n → Divides d (n * m)
Divides-mul d n m (k, e) = (k * m, ap (λ x. x * m) e ∙ mul_right_comm k d m)

Divides-sub : (g a b : ℕ) → Divides g a → Divides g b → Divides g (a - b)
Divides-sub g a b (k, e) (l, f) = (
  k - l,
  ap₂ (λ x y. x - y) e f
      ∙ sym (mul_comm (k - l) g ∙ mul-sub g k l ∙ ap₂ (λ x y. x - y) (mul_comm g k) (mul_comm g l)),
)

-- What a common divisor `g` is the greatest by: a number that divides `K * a` and `K * b` divides `K * g`.
abbrev Greatest : ℕ → ℕ → ℕ → Type 0
Greatest a b g = (d K : ℕ) → Divides d (K * a) → Divides d (K * b) → Divides d (K * g)

Greatest-left : (a b g : ℕ) → b ≤ a → Greatest (a - b) b g → Greatest a b g
Greatest-left a b g l h d K u v =
    h d K (subst (Divides d) (sym (mul-sub K a b)) (Divides-sub d (K * a) (K * b) u v)) v

Greatest-right : (a b g : ℕ) → a ≤ b → Greatest a (b - a) g → Greatest a b g
Greatest-right a b g l h d K u v =
    h d K u (subst (Divides d) (sym (mul-sub K b a)) (Divides-sub d (K * b) (K * a) v u))

abbrev Divisor : ℕ → ℕ → Option ℕ → Type 0
Divisor a b o = (g : ℕ) × (o ≡ some g) × (0 < g) × Divides g a × Divides g b × Greatest a b g

again :
    (fuel a b : ℕ)
    → ((a b : ℕ) → 0 < a → 0 < b → a + b ≤ fuel → Divisor a b (subtract_loop fuel a b))
    → 0 < a
    → 0 < b
    → a + b ≤ suc fuel
    → Divisor a b (subtract_loop (suc fuel) a b)
unfolding subtract_loop
again fuel a b ih p q l = elim (Bool-cases (a == b)) [
  | inl e ↦ rw e (a, refl, p, (1, omega arith), (1, omega (arith, (==_iff a b).0 e)), λ d K u v. u)
  | inr e ↦ elim (Bool-cases (ltb b a)) [
    | inl c ↦
        let (g, f, z, d, h, y) =
          ih (a - b) b (omega (arith, ltb→lt b a c)) q (omega (arith, ltb→lt b a c)) in
        rw (e, c)
          (
            g,
            f,
            z,
            subst (Divides g) (omega (arith, ltb→lt b a c)) (Divides-add g (a - b) b d h),
            h,
            Greatest-left a b g (omega (arith, ltb→lt b a c)) y,
          )
    | inr c ↦
        let m : a < b = less a b e c in
        let (g, f, z, d, h, y) = ih a (b - a) p (omega (arith, m)) (omega (arith, m)) in
        rw (e, c)
          (
            g,
            f,
            z,
            d,
            subst (Divides g) (omega (arith, m)) (Divides-add g a (b - a) d h),
            Greatest-right a b g (omega (arith, m)) y,
          )
  ]
]
  where
    less : (a b : ℕ) → (a == b) ≡ false → ltb b a ≡ false → a < b
    less a b e c = ground arith

subtract_loop-Divisor :
    (fuel a b : ℕ) → 0 < a → 0 < b → a + b ≤ fuel → Divisor a b (subtract_loop fuel a b)
subtract_loop-Divisor zero a b p q l = absurd (omega arith)
subtract_loop-Divisor (suc fuel) a b p q l = again fuel a b (subtract_loop-Divisor fuel) p q l

factor : (k g : ℕ) → 0 < k * g → 0 < k
factor zero g l = omega (arith, zero-mul g)
factor (suc k) g l = omega arith

-- A round makes a positive multiple of the number and of the period, which divides every common multiple.
abbrev Multiple : ℕ → ℕ → ℕ → Option ℕ → Type 0
Multiple M lcm p o = (l : ℕ) × (o ≡ some l) × (0 < l) × Divides lcm l × Divides p l × Divides l M

Divides-le : (a b : ℕ) → 0 < b → Divides a b → a ≤ b
Divides-le a b l (zero, e) = absurd (omega (arith, e, l, zero-mul a))
Divides-le a b l (suc k, e) = omega (arith, e, suc-mul k a)

Divides-cancel : (a b g : ℕ) → 0 < g → Divides (a * g) (b * g) → Divides a b
Divides-cancel a b g l (k, e) =
    (k, eq_of_mul-eq-mul_right g l b (k * a) (e ∙ sym (mul_assoc k a g)))

-- The product of a number and the rest `k` of a period divides their common multiples.
least :
    (M lcm p g k : ℕ)
    → 0 < g
    → p ≡ k * g
    → Greatest lcm p g
    → Divides lcm M
    → Divides p M
    → Divides (lcm * k) M
least M lcm p g k z e y u v =
    let by_lcm : Divides (lcm * p) (M * lcm) =
      (v.0, ap (λ x. x * lcm) v.1 ∙ mul_assoc v.0 p lcm ∙ ap (λ x. v.0 * x) (mul_comm p lcm)) in
    let by_p : Divides (lcm * p) (M * p) = (u.0, ap (λ x. x * p) u.1 ∙ mul_assoc u.0 lcm p) in
    Divides-cancel (lcm * k) M g z (
      subst (λ d. Divides d (M * g)) (ap (λ x. lcm * x) e ∙ sym (mul_assoc lcm k g))
        (y (lcm * p) M by_lcm by_p))

lcm_round-Multiple :
    (M lcm p : ℕ)
    → 0 < M
    → M < 2 ^ 63
    → Divides lcm M
    → Divides p M
    → 0 < lcm
    → 0 < p
    → Multiple M lcm p (lcm_round lcm p)
unfolding lcm_round
lcm_round-Multiple M lcm p pos small u v a b = elim (Bool-cases (lcm % p == 0)) [
  | inl e ↦ rw e (
    lcm,
    refl,
    a,
    (1, omega arith),
    (lcm / p, omega (arith, mod-add-div' lcm p, (==_iff (lcm % p) 0).0 e)),
    u,
  )
  | inr e ↦
      let (g, f, z, (m, d), (k, h), y) = subtract_loop-Divisor (lcm + p) lcm p a b (omega arith) in
      let q : p / g ≡ k = ap (λ x. x / g) h ∙ mul-div_cancel k z in
      let c : 0 < k = factor k g (subst (λ x. 0 < x) h b) in
      let w : Divides (lcm * k) M = least M lcm p g k z h y u v in
      let s : ltb (lcm * k) (2 ^ 63) ≡ true =
        lt→ltb (lcm * k) (2 ^ 63) (omega (arith, Divides-le (lcm * k) M pos w, small)) in
      rw (e, f, q, s)
        (
          lcm * k,
          refl,
          mul-pos a c,
          (k, mul_comm lcm k),
          (m, ap (λ x. x * k) d ∙ mul_assoc m g k ∙ ap (λ x. m * x) (mul_comm g k ∙ sym h)),
          w,
        )
]

-- All the periods are positive, or divide a number.
abbrev pub Positive : List Task → Type 0
Positive ts = All (λ t. 0 < t.period) ts

abbrev pub Common : ℕ → List Task → Type 0
Common l ts = All (λ t. Divides t.period l) ts

Divides-trans : (a b c : ℕ) → Divides a b → Divides b c → Divides a c
Divides-trans a b c (k, e) (m, f) = (m * k, f ∙ ap (λ x. m * x) e ∙ sym (mul_assoc m k a))

lcm_loop-Common :
    (M lcm : ℕ) (ts : List Task)
    → 0 < M
    → M < 2 ^ 63
    → Divides lcm M
    → Common M ts
    → 0 < lcm
    → Positive ts
    → (l : ℕ) × (lcm_loop lcm ts ≡ some l) × (0 < l) × Divides lcm l × Common l ts × Divides l M
unfolding lcm_loop
lcm_loop-Common M lcm [] pos small u v a p = (lcm, refl, a, (1, omega arith), tt, u)
lcm_loop-Common M lcm (t ∷ ts) pos small u (v, w) a (b, p) =
    let (l, e, c, d, f, x) = lcm_round-Multiple M lcm t.period pos small u v a b in
    let (m, e', c', d', g, y) = lcm_loop-Common M l ts pos small x w c p in
    rw e (m, e', c', Divides-trans lcm l m d d', (Divides-trans t.period l m f d', g), y)

-- If all periods are positive, and the period of the task and those of all tasks in the run queue and the wake
-- queue have a positive common multiple `M` below 2 ^ 63, then `edf_hyperperiod` ends, no product
-- overflows, and the answer is a positive common multiple that divides `M`: the least one.
pub hyperperiod_lem :
    (q : Queue) (t : Task) (M : ℕ)
    → 0 < t.period
    → Positive q.run_queue
    → Positive q.wake_queue
    → 0 < M
    → M < 2 ^ 63
    → Divides t.period M
    → Common M q.run_queue
    → Common M q.wake_queue
    → (h : ℕ) × (hyperperiod q t ≡ some h)
      × (0 < h)
      × Divides t.period h
      × Common h q.run_queue
      × Common h q.wake_queue
      × Divides h M
unfolding hyperperiod
hyperperiod_lem q t M a p r pos small u v w =
    let (l, e, c, d, f, x) = lcm_loop-Common M t.period q.run_queue pos small u v a p in
    let (m, e', c', d', g, y) = lcm_loop-Common M l q.wake_queue pos small x w c r in
    rw e (
      m,
      e',
      c',
      Divides-trans t.period l m d d',
      All-map (λ t. Divides t.period l) (λ t. Divides t.period m)
          (λ u h. Divides-trans u.period l m h d') q.run_queue f,
      g,
      y,
    )
