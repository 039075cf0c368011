-- ===== src/Sched/Register/Sorted.antt =====
-- `sched_register` keeps the schedulers sorted by priority, and its loop ends.
use flightos.Common.{
  ℕ, zero, suc, ◌+◌, ◌*◌, ◌≤◌, ◌<◌, ◌≡◌, refl, sym, ap, subst, ◌∙◌, ◌⊎◌, inl, inr, Bool, true,
  false, Option, none, some, List, [], ◌∷◌, ◌++◌, arith, ltb, ◌==◌, if◌then◌else◌, Bool-cases,
  length, All, All-append, All-map, Status, success, einval, eperm,
}
use native.Mathlib.Nat.{suc-mul, mul-suc}
use flightos.Sched.{Scheduler}
use flightos.Sched.Register.{registered, put_first, pass, pass_on, sort_loop, register}

not_above : (p q : ℕ) → ltb p q ≡ false → q ≤ p
not_above p q e = ground arith

not_both : (p q : ℕ) → ltb p q ≡ true → ltb q p ≡ false
not_both p q e = ground arith

module _ {K A : Type 0} where
  abbrev pub count : ℕ → List (Scheduler K A) → ℕ
  count a [] = 0
  count a (c ∷ cs) = (if c.addr == a then 1 else 0) + count a cs

  -- No scheduler has a higher priority than one before it.
  abbrev pub Sorted : List (Scheduler K A) → Type 0
  Sorted [] = Unit
  Sorted (c ∷ cs) = All (λ d. d.priority ≤ c.priority) cs × Sorted cs

  -- How many schedulers have a higher priority, and how many pairs of schedulers are in the wrong order.
  abbrev above : ℕ → List (Scheduler K A) → ℕ
  above p [] = 0
  above p (c ∷ cs) = (if ltb p c.priority then 1 else 0) + above p cs

  abbrev inversions : List (Scheduler K A) → ℕ
  inversions [] = 0
  inversions (c ∷ cs) = above c.priority cs + inversions cs

  abbrev Passes : ℕ → List (Scheduler K A) → Option (List (Scheduler K A) × Bool) → Type 0
  Passes beyond cs o =
      (zs : List (Scheduler K A)) × (s : Bool) × (o ≡ some (zs, s))
      × ((a : ℕ) → count a zs ≡ count a cs)
      × ((p : ℕ) → above p zs ≡ above p cs)
      × (inversions zs + (if s then 1 else 0) ≤ inversions cs)
      × (s ≡ false → (zs ≡ cs) × Sorted cs)
      × All (λ c. beyond ≤ c.priority) zs

  stays :
      (beyond : ℕ) (x y : Scheduler K A) (ys : List (Scheduler K A))
      (o : Option (List (Scheduler K A) × Bool))
      → ltb x.priority y.priority ≡ false
      → beyond ≤ x.priority
      → Passes beyond (y ∷ ys) o
      → Passes beyond (x ∷ (y ∷ ys)) (put_first x false o)
  stays beyond x y ys o e b (zs, s, f, c, v, i, g, h) = (
    x ∷ zs,
    s,
    ap (put_first x false) f,
    (λ a. omega (arith, c a)),
    (λ p. omega (arith, v p)),
    omega (arith, v x.priority, i),
    (λ k. (
      ap (λ l. x ∷ l) (g k).0,
      (
        (
          not_above x.priority y.priority e,
          All-map (λ d. d.priority ≤ y.priority) (λ d. d.priority ≤ x.priority)
              (λ d l. omega (arith, l, not_above x.priority y.priority e)) ys (g k).1.0,
        ),
        (g k).1,
      ),
    )),
    (b, h),
  )

  swaps :
      (beyond : ℕ) (x y : Scheduler K A) (ys : List (Scheduler K A))
      (o : Option (List (Scheduler K A) × Bool))
      → ltb x.priority y.priority ≡ true
      → beyond ≤ y.priority
      → Passes beyond (x ∷ ys) o
      → Passes beyond (x ∷ (y ∷ ys)) (put_first y true o)
  swaps beyond x y ys o e b (zs, s, f, c, v, i, g, h) = (
    y ∷ zs,
    true,
    ap (put_first y true) f,
    (λ a. omega (arith, c a)),
    (λ p. omega (arith, v p)),
    omega (
      arith,
      v y.priority,
      i,
      ap {B = ℕ} (λ b. if b then 1 else 0) e,
      ap {B = ℕ} (λ b. if b then 1 else 0) (not_both x.priority y.priority e),
    ),
    (λ k. cc k),
    (b, h),
  )

  pass-Passes :
      (beyond : ℕ) (x : Scheduler K A) (ys : List (Scheduler K A))
      → beyond ≤ x.priority
      → All (λ c. beyond ≤ c.priority) ys
      → Passes beyond (x ∷ ys) (pass beyond x ys)
  unfolding pass
  pass-Passes beyond x [] b h =
      rw (not_below x.priority beyond b) (
        x ∷ [],
        false,
        refl,
        (λ a. refl),
        (λ p. refl),
        omega arith,
        (λ k. (refl, (tt, tt))),
        (b, tt),
      )
    where
      not_below : (p q : ℕ) → q ≤ p → ltb p q ≡ false
      not_below p q l = ground arith
  pass-Passes beyond x (y ∷ ys) b (d, h) = elim (Bool-cases (ltb x.priority y.priority)) [
    | inl e ↦
        subst (Passes beyond (x ∷ (y ∷ ys))) (sym (ap (step ys) e))
          (swaps beyond x y ys _ e d (pass-Passes beyond x ys b h))
    | inr e ↦
        subst (Passes beyond (x ∷ (y ∷ ys))) (sym (ap (step ys) e))
          (stays beyond x y ys _ e b (pass-Passes beyond y ys d h))
  ]
    where
      step : List (Scheduler K A) → Bool → Option (List (Scheduler K A) × Bool)
      step ys b = put_first (if b then y else x) b (pass beyond (if b then x else y) ys)

  abbrev Sorting : ℕ → List (Scheduler K A) → Option (List (Scheduler K A)) → Type 0
  Sorting beyond cs o =
      (zs : List (Scheduler K A)) × (o ≡ some zs) × ((a : ℕ) → count a zs ≡ count a cs) × Sorted zs

  pass_on-Sorting :
      (beyond fuel : ℕ) (cs : List (Scheduler K A)) (o : Option (List (Scheduler K A) × Bool))
      → ((zs : List (Scheduler K A))
          → inversions zs < fuel
          → All (λ c. beyond ≤ c.priority) zs
          → Sorting beyond zs (sort_loop fuel beyond zs))
      → inversions cs < suc fuel
      → Passes beyond cs o
      → Sorting beyond cs (pass_on (sort_loop fuel beyond) o)
  pass_on-Sorting beyond fuel cs o ih l (zs, true, f, c, v, i, g, h) =
      let (ys, e, d, r) = ih zs (omega (arith, l, i)) h in
      (ys, ap (pass_on (sort_loop fuel beyond)) f ∙ e, (λ a. d a ∙ c a), r)
  pass_on-Sorting beyond fuel cs o ih l (zs, false, f, c, v, i, g, h) =
      (zs, ap (pass_on (sort_loop fuel beyond)) f, c, subst Sorted (sym (g refl).0) (g refl).1)

  sort_step :
      (beyond fuel : ℕ)
      → ((zs : List (Scheduler K A))
          → inversions zs < fuel
          → All (λ c. beyond ≤ c.priority) zs
          → Sorting beyond zs (sort_loop fuel beyond zs))
      → (cs : List (Scheduler K A)) → inversions cs < suc fuel
      → All (λ c. beyond ≤ c.priority) cs
      → Sorting beyond cs (sort_loop (suc fuel) beyond cs)
  unfolding sort_loop
  sort_step beyond fuel ih [] l h = ([], refl, (λ a. refl), tt)
  sort_step beyond fuel ih (c ∷ cs) l (b, h) =
      pass_on-Sorting beyond fuel (c ∷ cs) (pass beyond c cs) ih l (pass-Passes beyond c cs b h)

  sort_loop-Sorting :
      (beyond fuel : ℕ) (cs : List (Scheduler K A))
      → inversions cs < fuel
      → All (λ c. beyond ≤ c.priority) cs
      → Sorting beyond cs (sort_loop fuel beyond cs)
  sort_loop-Sorting beyond zero cs l h = absurd (omega arith)
  sort_loop-Sorting beyond (suc fuel) cs l h =
      sort_step beyond fuel (sort_loop-Sorting beyond fuel) cs l h

  above-le : (p : ℕ) (cs : List (Scheduler K A)) → above p cs ≤ length cs
  above-le p [] = omega arith
  above-le p (c ∷ cs) = omega (arith, above-le p cs, bit (ltb p c.priority))
    where
      bit : (b : Bool) → (if b then 1 else 0) ≤ 1
      bit true = omega arith
      bit false = omega arith

  inversions-le : (cs : List (Scheduler K A)) → inversions cs ≤ length cs * length cs
  inversions-le [] = omega arith
  inversions-le (c ∷ cs) = omega (
    arith,
    inversions-le cs,
    above-le c.priority cs,
    suc-mul (length cs) (suc (length cs)),
    mul-suc (length cs) (length cs),
  )

  -- What `sched_register` answers, and the list then.
  abbrev pub Registers :
      List (Scheduler K A) → Option (Scheduler K A) → Status → List (Scheduler K A) → Type 0
  Registers cs none s zs = (s ≡ einval) × (zs ≡ cs)
  Registers cs (some c) s zs =
      ((s ≡ success)
        × (registered c.addr cs ≡ false)
        × Sorted zs
        × ((a : ℕ) → count a zs ≡ count a cs + count a (c ∷ [])))
      ⊎ ((s ≡ eperm) × (registered c.addr cs ≡ true) × (zs ≡ cs))

  count-append :
      (a : ℕ) (cs ds : List (Scheduler K A)) → count a (cs ++ ds) ≡ count a cs + count a ds
  count-append a [] ds = omega arith
  count-append a (c ∷ cs) ds = omega (arith, count-append a cs ds)

  -- If what stands before the head of the list is not above the priority of any scheduler, then `sched_register` ends:
  -- it adds a scheduler that is not in the list, and sorts the list by falling priority; it answers
  -- -EPERM for one that is in the list, and -EINVAL for NULL, and changes nothing then.
  pub register_lem :
      (beyond : ℕ) (cs : List (Scheduler K A)) (o : Option (Scheduler K A))
      → All (λ c. beyond ≤ c.priority) cs
      → ((c : Scheduler K A) → o ≡ some c → beyond ≤ c.priority)
      → (s : Status) × (zs : List (Scheduler K A)) × (register beyond cs o ≡ some (s, zs))
        × Registers cs o s zs
  unfolding register
  register_lem beyond cs none h g = (einval, cs, refl, (refl, refl))
  register_lem beyond cs (some c) h g = elim (Bool-cases (registered c.addr cs)) [
    | inl e ↦ rw e (eperm, cs, refl, inr (refl, refl, refl))
    | inr e ↦
        let all = cs ++ (c ∷ []) in
        let (zs, f, d, r) =
          sort_loop-Sorting beyond (suc (length all * length all)) all
            (omega (arith, inversions-le all))
            (All-append (λ c. beyond ≤ c.priority) cs (c ∷ []) h (g c refl, tt)) in
        rw (e, f) (success, zs, refl, inl (refl, refl, r, λ a. d a ∙ count-append a cs (c ∷ [])))
  ]
