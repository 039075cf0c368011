-- ===== src/Time/Sum.antt =====
-- What `timespec_add` answers.
use flightos.Common.{
  ℕ, zero, suc, ◌+◌, ◌-◌, ◌*◌, ◌%◌, ◌^◌, ◌≤◌, ◌<◌, ◌≡◌, ap, ◌∙◌, inl, inr, Bool, true, false, not,
  ◌&&◌, some, arith, word, leb, if◌then◌else◌, Bool-cases,
}
use flightos.Time.{
  nsec_per_sec, is_negative, Timespec, carry_loop, borrow_loop, then_borrow, normalise, add,
}

-- A time in nanoseconds, and how many a timespec can tell apart.
abbrev pub total : Timespec → ℕ
total t = t.tv_sec * nsec_per_sec + t.tv_nsec

abbrev pub all_times : ℕ
all_times = 2 ^ 32 * nsec_per_sec

abbrev pub IsNormal : Timespec → Type 0
IsNormal t = (t.tv_sec < word) × (t.tv_nsec < nsec_per_sec)

abbrev carries : Timespec → Bool
carries t = not (is_negative t.tv_nsec) && leb nsec_per_sec t.tv_nsec

abbrev carried : Timespec → Timespec
carried t = record {
  tv_sec = (t.tv_sec + 1) % word;
  tv_nsec = (t.tv_nsec + word - nsec_per_sec) % word;
}

carry_stop : (f : ℕ) (t : Timespec) → carries t ≡ false → carry_loop (suc f) t ≡ some t
unfolding carry_loop
carry_stop f t e = ap (λ b. if b then carry_loop f (carried t) else some t) e

carry_more :
    (f : ℕ) (t : Timespec) → carries t ≡ true → carry_loop (suc f) t ≡ carry_loop f (carried t)
unfolding carry_loop
carry_more f t e = ap (λ b. if b then carry_loop f (carried t) else some t) e

borrow_stop :
    (f : ℕ) (t : Timespec) → is_negative t.tv_nsec ≡ false → borrow_loop (suc f) t ≡ some t
unfolding borrow_loop
borrow_stop f t e =
    let next = borrow_loop f (record {
      tv_sec = (t.tv_sec + word - 1) % word;
      tv_nsec = (t.tv_nsec + nsec_per_sec) % word;
    }) in
    ap (λ b. if b then next else some t) e

-- `timespec_add` of two normal timespecs answers, with no more than two rounds of a loop, a normal
-- timespec of their sum; sums of 2 ^ 32 seconds and more wrap.
pub add_lem :
    (fuel : ℕ) (t1 t2 : Timespec)
    → 2 ≤ fuel
    → IsNormal t1
    → IsNormal t2
    → (t : Timespec) × (add fuel t1 t2 ≡ some t)
      × IsNormal t
      × (total t ≡ (total t1 + total t2) % all_times)
unfolding add normalise carry_loop borrow_loop
add_lem zero t1 t2 l n1 n2 = absurd (omega (arith, l))
add_lem (suc zero) t1 t2 l n1 n2 = absurd (omega (arith, l))
add_lem (suc (suc fuel)) t1 t2 l (s1, n1) (s2, n2) =
    by t1.tv_sec t1.tv_nsec t2.tv_sec t2.tv_nsec s1 n1 s2 n2
  where
    by :
        (a b c d : ℕ)
        → a < word
        → b < nsec_per_sec
        → c < word
        → d < nsec_per_sec
        → let t1 : Timespec = record { tv_sec = a; tv_nsec = b } in
          let t2 : Timespec = record { tv_sec = c; tv_nsec = d } in
          (t : Timespec) × (add (suc (suc fuel)) t1 t2 ≡ some t)
          × IsNormal t
          × (total t ≡ (total t1 + total t2) % all_times)
    by a b c d s1 n1 s2 n2 =
        let u : Timespec = record { tv_sec = (a + c) % word; tv_nsec = (b + d) % word } in
        elim (Bool-cases (leb nsec_per_sec (b + d))) [
          | inl e ↦ (
            carried u,
            ap (then_borrow (suc (suc fuel))) (
                  carry_more (suc fuel) u (ground arith)
                  ∙ carry_stop fuel (carried u) (ground arith))
                ∙ borrow_stop (suc fuel) (carried u) (ground arith),
            (omega arith, ground arith),
            ground arith,
          )
          | inr e ↦ (
            u,
            ap (then_borrow (suc (suc fuel))) (carry_stop (suc fuel) u (ground arith))
                ∙ borrow_stop (suc fuel) u (ground arith),
            (omega arith, ground arith),
            ground arith,
          )
        ]
