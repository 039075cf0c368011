-- ===== src/Sched/Next.antt =====
-- The time slice that `sched_find_next_task` answers.
use flightos.Common.{
  ℕ, ◌≤◌, ◌<◌, ◌≡◌, refl, sym, ap, ap₂, subst, ◌⊎◌, inl, inr, Bool, true, false, not, ◌&&◌, ◌||◌,
  Option, none, some, List, [], ◌∷◌, arith, ltb, leb, ◌==◌, if◌then◌else◌, ==_refl, Bool-cases, All,
  All-map,
}
use flightos.Sched.{Scheduler, find_first, slice_loop, sliced, find_next_task}
use flightos.Sched.Register.Sorted.{Sorted}

abbrev shortens : ℕ → ℕ → Bool
shortens ready slice = not (ready == 0) && ltb ready slice

no_limit : (p q r n : ℕ) → ltb q p ≡ true → r ≤ q → (leb p r && not (n == 0)) ≡ true → 1 ≤ 0
no_limit p q r n e l f = ground arith

long_enough : (n slice : ℕ) → shortens n slice ≡ false → not (n == 0) ≡ true → slice ≤ n
long_enough n slice e f = ground arith

is_limit :
    (p q n slice : ℕ) → shortens n slice ≡ true → ltb q p ≡ false → (leb p q && not (n == 0)) ≡ true
is_limit p q n slice e f = ground arith

shorter : (n slice : ℕ) → shortens n slice ≡ true → n < slice
shorter n slice e = ground arith

second : (a b : Bool) → (a && b) ≡ true → b ≡ true
second a b e = ground arith

or_true : (a b : Bool) → b ≡ true → (a || b) ≡ true
or_true a b e = ground arith

module _ {K A : Type 0} where
  -- A scheduler limits the time slice if its priority is not below the given one, and it waits for a wakeup.
  abbrev pub limits : ℕ → ℕ → K → Scheduler K A → Bool
  limits priority now k c = leb priority c.priority && not (c.task_ready_ns k now == 0)

  abbrev pub reached : ℕ → ℕ → K → ℕ → List (Scheduler K A) → Bool
  reached priority now k r [] = false
  reached priority now k r (c ∷ cs) =
      (limits priority now k c && (c.task_ready_ns k now == r)) || reached priority now k r cs

  -- The shortest of a time slice and of the times to the wakeups.
  abbrev pub Shortest : List (Scheduler K A) → ℕ → ℕ → K → ℕ → ℕ → Type 0
  Shortest cs priority now k slice r =
      (r ≤ slice)
      × All (λ c. limits priority now k c ≡ true → r ≤ c.task_ready_ns k now) cs
      × ((r ≡ slice) ⊎ (reached priority now k r cs ≡ true))

  lower :
      (priority now : ℕ) (k : K) (c : Scheduler K A) (cs : List (Scheduler K A)) (slice : ℕ)
      → ltb c.priority priority ≡ true
      → All (λ d. d.priority ≤ c.priority) cs
      → All (λ d. limits priority now k d ≡ true → slice ≤ d.task_ready_ns k now) cs
  lower priority now k c cs slice e h =
      All-map (λ d. d.priority ≤ c.priority)
        (λ d. limits priority now k d ≡ true → slice ≤ d.task_ready_ns k now)
        (λ d l f.
          absurd
            (omega (arith, no_limit priority c.priority d.priority (d.task_ready_ns k now) e l f)))
        cs h

  keeps :
      (priority now : ℕ) (k : K) (c : Scheduler K A) (cs : List (Scheduler K A)) (slice r : ℕ)
      → shortens (c.task_ready_ns k now) slice ≡ false
      → Shortest cs priority now k slice r
      → Shortest (c ∷ cs) priority now k slice r
  keeps priority now k c cs slice r e (l, a, o) = (
    l,
    ((λ f. omega (arith, l, long_enough (c.task_ready_ns k now) slice e (second _ _ f))), a),
    elim o [ inl f ↦ inl f | inr f ↦ inr (or_true _ _ f) ],
  )

  cuts :
      (priority now : ℕ) (k : K) (c : Scheduler K A) (cs : List (Scheduler K A)) (slice r : ℕ)
      → shortens (c.task_ready_ns k now) slice ≡ true
      → ltb c.priority priority ≡ false
      → Shortest cs priority now k (c.task_ready_ns k now) r
      → Shortest (c ∷ cs) priority now k slice r
  cuts priority now k c cs slice r e p (l, a, o) = (
    omega (arith, l, shorter (c.task_ready_ns k now) slice e),
    ((λ f. l), a),
    elim o [
      | inl f ↦ inr (
          rw
            (
              is_limit priority c.priority (c.task_ready_ns k now) slice e p,
              f,
              ==_refl (c.task_ready_ns k now),
            )
            refl)
      | inr f ↦ inr (or_true _ _ f)
    ],
  )

  slice_loop-Shortest :
      (cs : List (Scheduler K A)) (priority now : ℕ) (k : K) (slice : ℕ)
      → Sorted cs
      → Shortest cs priority now k slice (slice_loop cs priority now k slice)
  unfolding slice_loop
  slice_loop-Shortest [] priority now k slice h = (omega arith, tt, inl refl)
  slice_loop-Shortest (c ∷ cs) priority now k slice (a, h) =
      elim (Bool-cases (shortens (c.task_ready_ns k now) slice)) [
        | inr e ↦
            subst (Shortest (c ∷ cs) priority now k slice)
              (sym (ap (λ s. step cs s (ltb c.priority priority)) e))
              (keeps priority now k c cs slice _ e (slice_loop-Shortest cs priority now k slice h))
        | inl e ↦ elim (Bool-cases (ltb c.priority priority)) [
          | inl f ↦ subst (Shortest (c ∷ cs) priority now k slice) (sym (ap₂ (step cs) e f)) (
            omega arith,
            (
              (λ g. (lower priority now k c (c ∷ cs) slice f (omega arith, a)).0 g),
              lower priority now k c cs slice f a,
            ),
            inl refl,
          )
          | inr f ↦ subst (Shortest (c ∷ cs) priority now k slice) (sym (ap₂ (step cs) e f)) (
              cuts priority now k c cs slice _ e f
                (slice_loop-Shortest cs priority now k (c.task_ready_ns k now) h))
        ]
      ]
    where
      step : List (Scheduler K A) → Bool → Bool → ℕ
      step cs s l =
          let rest = slice_loop cs priority now k (if s then c.task_ready_ns k now else slice) in
          if s && l then slice else rest

  -- What `sched_find_next_task` answers.
  abbrev pub Next : List (Scheduler K A) → ℕ → K → Option (ℕ × ℕ × K) → Type 0
  Next cs now k none = (find_first cs now k).0 ≡ none
  Next cs now k (some (t, slice, k')) =
      (c : Scheduler K A) × (find_first cs now k ≡ (some (c, t), k'))
      × Shortest cs c.priority now k' (c.timeslice_ns k' t) slice

  -- If the schedulers are sorted by falling priority, then `sched_find_next_task` answers the task of the first
  -- scheduler that has one, and the shortest of its time slice and of the times to the wakeups for which
  -- the schedulers of the same or a higher priority wait; it fails only if no scheduler has a task.
  pub find_next_task_lem :
      (cs : List (Scheduler K A)) (now : ℕ) (k : K)
      → Sorted cs
      → Next cs now k (find_next_task cs now k)
  unfolding find_next_task
  find_next_task_lem cs now k h = from (find_first cs now k) refl
    where
      from :
          (o : Option (Scheduler K A × ℕ) × K)
          → find_first cs now k ≡ o
          → Next cs now k (sliced cs now o)
      from (none, k') e = ap (λ o. o.0) e
      from (some (c, t), k') e =
          (c, e, slice_loop-Shortest cs c.priority now k' (c.timeslice_ns k' t) h)
