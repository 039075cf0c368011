-- ===== src/Edf/Calls/Wake.antt =====
-- `edf_wake` moves one task from the wake queue of its CPU to the tail of the run queue.
use flightos.Common.{
  ℕ, ◌+◌, ◌≡◌, ◌≢◌, inl, inr, true, Option, none, some, List, [], ◌∷◌, ◌++◌, arith, ◌==◌,
  if◌then◌else◌, Bool-cases, Status, success, einval,
}
use flightos.RoundRobin.{idle}
use flightos.Edf.{Task, first_or}
use flightos.Edf.Moves.{count, count-append}
use flightos.Edf.Calls.{Queue, is_urgent, sort_by_urgency}

-- What `take_out` finds.
abbrev Taken : ℕ → List Task → Option (Task × List Task) → Type 0
Taken a ts none = count a ts ≡ 0
Taken a ts (some (t, us)) =
    (t.addr ≡ a) × ((b : ℕ) → count b us + (if t.addr == b then 1 else 0) ≡ count b ts)

pub count-sort :
    (a now : ℕ) (front ts : List Task)
    → count a (sort_by_urgency now front ts) ≡ count a front + count a ts
unfolding sort_by_urgency
count-sort a now front [] = omega arith
count-sort a now front (t ∷ rest) = elim (Bool-cases (is_urgent now (first_or t front) t)) [
  | inl e ↦ rw e (omega (arith, count-sort a now (t ∷ front) rest))
  | inr e ↦
      rw e (omega (arith, count-sort a now (front ++ (t ∷ [])) rest, count-append a front (t ∷ [])))
]

-- What `edf_wake` does with the queues of the CPU of the task `t`.
abbrev pub Woken : Task → Queue → Queue → Type 0
Woken t q q' =
    (ts : List Task) × (u : Task) × (q'.run_queue ≡ ts ++ (u ∷ []))
    × (u.addr ≡ t.addr)
    × (u.state ≡ idle)
    × (u.deadline ≡ u.wakeup + u.deadline_rel)
    × ((u.budget ≡ u.wcet) × (u.spent ≡ 0))
    × ((b : ℕ)
        → count b q'.wake_queue + count b q'.run_queue ≡ count b q.wake_queue + count b q.run_queue)

abbrev Result : ℕ → Task → Queue → Status × Queue → Type 0
Result cpu t q (s, q') =
    (s ≡ success → Woken t q q')
    × (s ≢ success → (s ≡ einval) × (q' ≡ q))
    × (count t.addr q.wake_queue ≢ 0 → s ≡ success)

-- What `edf_wake` does with all queues.
abbrev pub Wakes : (ℕ → Queue) → Option Task → Status × (ℕ → Queue) → Type 0
Wakes tq o (s, tq') =
    (s ≡ success
      → (t : Task) × (cpu : ℕ) × (o ≡ some t)
        × (t.is_edf ≡ true)
        × (t.on_cpu ≡ some cpu)
        × Woken t (tq cpu) (tq' cpu)
        × ((c : ℕ) → c ≢ cpu → tq' c ≡ tq c))
    × (s ≢ success → (s ≡ einval) × ((c : ℕ) → tq' c ≡ tq c))
    × ((t : Task) (cpu : ℕ)
        → o ≡ some t
        → t.is_edf ≡ true
        → t.on_cpu ≡ some cpu
        → count t.addr (tq cpu).wake_queue ≢ 0
        → s ≡ success)

-- A task that may not be woken up: it has another policy, is not bound to a CPU, or does not wait there.
abbrev Stays : (ℕ → Queue) → Option Task → Type 0
Stays tq o =
    (t : Task) (cpu : ℕ)
    → o ≡ some t
    → t.is_edf ≡ true
    → t.on_cpu ≡ some cpu
    → count t.addr (tq cpu).wake_queue ≡ 0
