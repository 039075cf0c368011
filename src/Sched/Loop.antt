-- ===== src/Sched/Loop.antt =====
-- The loop of `schedule` ends.
use flightos.Common.{
  ℕ, suc, ◌-◌, ◌<◌, ◌≡◌, refl, ap, subst, ◌∙◌, ◌≢◌, ◌⊎◌, inl, inr, Bool, true, false, not, ◌&&◌,
  ◌||◌, Option, none, some, List, [], ◌∷◌, arith, leb, ◌==◌, if◌then◌else◌, lt→ltb, ==_iff,
  Bool-cases, All,
}
use flightos.Sched.{
  chosen, schedule_from, dispatch, schedule_loop, try_slice, Kernel, Scheduler, or_next,
  update_runtime, at_addr, find_first, find_next_task, try_slice, schedule_loop, dispatch,
  schedule_from, schedule,
}
use flightos.Sched.Register.Sorted.{Sorted}
use flightos.Sched.Next.{limits, reached, Next, find_next_task_lem}

-- What the loop relies on at a time `now`, for an invariant `I` of the kernel: picking a task keeps the invariant, the
-- task that a scheduler picks has more time than a tick, and so has the wakeup that it waits for, if it waits.
pub record IsPrompt {K A : Type 0} (I : K → Type 0) (tick now : ℕ) (c : Scheduler K A)
    : Type 0 where
  pub keeps : (k : K) → I k → I (c.pick_next_task k now).1
  pub picks :
      (k : K) (t : ℕ)
      → I k
      → (c.pick_next_task k now).0 ≡ some t
      → tick < c.timeslice_ns (c.pick_next_task k now).1 t
  pub waits : (k : K) → I k → (c.task_ready_ns k now ≡ 0) ⊎ (tick < c.task_ready_ns k now)

none_due : (p q n : ℕ) → (leb p q && not (n == 0)) ≡ true → n ≢ 0
none_due p q n e = ground arith

module _ {K A : Type 0} (I : K → Type 0) (tick : ℕ) where
  abbrev Long : Option (Scheduler K A × ℕ) × K → Type 0
  Long (none, k) = I k
  Long (some (c, t), k) = I k × (tick < c.timeslice_ns k t)

  Long-keeps : (r : Option (Scheduler K A × ℕ) × K) → Long r → I r.1
  Long-keeps (none, k) l = l
  Long-keeps (some (c, t), k) l = l.0

  find_first-Long :
      (cs : List (Scheduler K A)) (now : ℕ) (k : K)
      → All (IsPrompt I tick now) cs
      → I k
      → Long (find_first cs now k)
  unfolding find_first
  find_first-Long [] now k h i = i
  find_first-Long (d ∷ cs) now k (g, h) i =
      on (d.pick_next_task k now) (g.keeps k i) (λ t. g.picks k t i)
        (λ k'. find_first-Long cs now k' h)
    where
      on :
          (o : Option ℕ × K)
          → I o.1
          → ((t : ℕ) → o.0 ≡ some t → tick < d.timeslice_ns o.1 t)
          → ((k' : K) → I k' → Long (find_first cs now k'))
          → Long (or_next (find_first cs now) d o)
      on (none, k') i p later = later k' i
      on (some t, k') i p later = (i, p t refl)

  reached-long :
      (cs : List (Scheduler K A)) (priority now : ℕ) (k : K) (r : ℕ)
      → I k
      → All (IsPrompt I tick now) cs
      → reached priority now k r cs ≡ true
      → tick < r
  reached-long [] priority now k r i h e = absurd (cc e)
  reached-long (c ∷ cs) priority now k r i (g, h) e =
      elim (Bool-cases (limits priority now k c && (c.task_ready_ns k now == r))) [
        | inr f ↦ reached-long cs priority now k r i h (later _ _ f e)
        | inl f ↦ here (both _ _ f) (g.waits k i)
      ]
    where
      later : (a b : Bool) → a ≡ false → (a || b) ≡ true → b ≡ true
      later a b f e = ground arith

      both : (a b : Bool) → (a && b) ≡ true → (a ≡ true) × (b ≡ true)
      both a b f = ground arith

      here :
          (limits priority now k c ≡ true) × ((c.task_ready_ns k now == r) ≡ true)
          → (c.task_ready_ns k now ≡ 0) ⊎ (tick < c.task_ready_ns k now)
          → tick < r
      here (l, f) (inl z) = absurd (none_due priority c.priority (c.task_ready_ns k now) l z)
      here (l, f) (inr z) = omega (arith, z, (==_iff (c.task_ready_ns k now) r).0 f)

  slice-long :
      (cs : List (Scheduler K A)) (now : ℕ) (k : K)
      → I k
      → All (IsPrompt I tick now) cs
      → (o : Option (ℕ × ℕ × K)) → Next cs now k o
      → (find_first cs now k).0 ≢ none
      → (t : ℕ) × (slice : ℕ) × (k' : K) × (o ≡ some (t, slice, k')) × (tick < slice)
  slice-long cs now k i h none n f = absurd (f n)
  slice-long cs now k i h (some (t, slice, k')) (c, e, (l, a, o)) f = (t, slice, k', refl, long o)
    where
      found : Long (some (c, t), k')
      found = subst Long e (find_first-Long cs now k h i)

      long :
          (slice ≡ c.timeslice_ns k' t) ⊎ (reached c.priority now k' slice cs ≡ true) → tick < slice
      long (inl g) = omega (arith, g, found.1)
      long (inr g) = reached-long cs c.priority now k' slice found.0 h g

-- If the schedulers are sorted, and with an invariant of the kernel, which picking keeps, their tasks and their
-- wakeups have more time than a tick each, and if one of them has a task at the time of the call, then
-- the loop of `schedule` ends in its first round: `schedule` sets the next tick to the end of the slice
-- of the task that `sched_find_next_task` answers, less a tick, starts its runtime, and switches to it
-- if it is not the current one.
pub schedule_ends :
    {Q A : Type 0} (I : Kernel Q → Type 0) (fuel : ℕ) (cs : List (Scheduler (Kernel Q) A))
    (tick : ℕ) (clock : ℕ → ℕ) (k : Kernel Q) (cur : ℕ)
    → Sorted cs
    → All (IsPrompt I tick (clock 0)) cs
    → I (at_addr k cur (λ t. update_runtime t (clock 0)))
    → (find_first cs (clock 0) (at_addr k cur (λ t. update_runtime t (clock 0)))).0 ≢ none
    → k.is_enabled ≡ true
    → k.current ≡ some cur
    → (t : ℕ) × (slice : ℕ) × (k' : Kernel Q) × (find_next_task cs
          (clock 0)
          (at_addr k cur (λ t. update_runtime t (clock 0)))
        ≡ some (t, slice, k'))
      × (tick < slice)
      × (schedule (suc fuel) cs tick clock k
          ≡ some (
            if t == cur then none else some t,
            record (at_addr k' t (λ th. record th { exec_start = clock 0 })) {
              next_tick = slice - tick;
            },
          ))
unfolding schedule schedule_loop
schedule_ends I fuel cs tick clock k cur s h i f b c =
    let j = at_addr k cur (λ t. update_runtime t (clock 0)) in
    let (t, slice, k', e, l) =
      slice-long I tick cs (clock 0) j i h (find_next_task cs (clock 0) j)
        (find_next_task_lem cs (clock 0) j s) f in
    (
      t,
      slice,
      k',
      e,
      l,
      ap (λ b. if not b then some (none, k) else schedule_from (suc fuel) cs tick clock k k.current)
            b
          ∙ ap (schedule_from (suc fuel) cs tick clock k) c
          ∙ ap
              (λ o.
                dispatch cur tick (try_slice (schedule_loop fuel cs tick clock 1) tick (clock 0) o))
              e
          ∙ ap
              (λ b.
                dispatch cur tick (
                  if b then chosen t slice (clock 0) k' else schedule_loop fuel cs tick clock 1 k'))
              (lt→ltb tick slice l),
    )
