-- ===== src/Edf/Calls/Attributes.antt =====
-- The attributes that `edf_check_sched_attr` accepts, and the time that `edf_task_ready_ns` answers.
use flightos.Common.{
  ℕ, ◌+◌, ◌-◌, ◌*◌, ◌^◌, ◌≤◌, ◌<◌, ◌≡◌, refl, ◌∙◌, ◌≢◌, ◌↔◌, ◌⊎◌, inl, inr, Bool, true, false, not,
  ◌&&◌, ◌||◌, some, List, [], ◌∷◌, arith, ltb, leb, ◌==◌, if◌then◌else◌, ==_refl, All, success,
  einval,
}
use flightos.Edf.{Task}
use flightos.Edf.Calls.{is_busy, Attr, check_sched_attr, ready_loop, task_ready_ns}

-- Attributes for which there is time: the runtime, and what is left of the deadline and of the period, take a tick
-- each at least; the runtime is below the deadline, and both are below the period, if there is one.
abbrev pub Fits : ℕ → Attr → Type 0
Fits tick a =
    (a.is_edf ≡ true)
    × (tick ≤ a.wcet)
    × (tick + a.wcet ≤ a.deadline_rel)
    × (a.wcet < a.deadline_rel)
    × (0 < a.period
        → (a.wcet < a.period) × (a.deadline_rel < a.period) × (tick + a.deadline_rel ≤ a.period))

-- `edf_check_sched_attr` answers success exactly for attributes that fit, and -EINVAL for all others.
pub edf_check_sched_attr_lem :
    (tick : ℕ) (a : Attr)
    → ((check_sched_attr tick (some a) ≡ success) ↔ Fits tick a)
      × (check_sched_attr tick (some a) ≢ success → check_sched_attr tick (some a) ≡ einval)
unfolding check_sched_attr
edf_check_sched_attr_lem tick a = ground arith

-- A task that waits for its wakeup.
abbrev pub waits : ℕ → ℕ → Task → Bool
waits tick now t = not (is_busy t.state) && ltb (now + tick) t.wakeup

-- Whether one of the tasks that wait wakes up after a time.
abbrev pub wakes_after : ℕ → ℕ → ℕ → List Task → Bool
wakes_after tick now r [] = false
wakes_after tick now r (t ∷ ts) =
    (waits tick now t && (t.wakeup == now + r)) || wakes_after tick now r ts

-- The shortest of `ready` and of the times to the wakeups of the tasks that wait.
abbrev pub Shortest : ℕ → ℕ → ℕ → List Task → ℕ → Type 0
Shortest tick now ready ts r =
    (r ≤ ready)
    × All (λ t. waits tick now t ≡ true → now + r ≤ t.wakeup) ts
    × ((r ≡ ready) ⊎ (wakes_after tick now r ts ≡ true))
    × (tick < ready → tick < r)

unfoldable next_ready : ℕ → ℕ → ℕ → Task → ℕ
next_ready tick now ready t =
    if is_busy t.state
    then ready
    else if leb t.wakeup (now + tick)
    then ready
    else if ltb (t.wakeup - now) ready
    then t.wakeup - now
    else ready

abbrev Next : ℕ → ℕ → ℕ → Task → ℕ → Type 0
Next tick now ready t n =
    (n ≤ ready)
    × (waits tick now t ≡ true → now + n ≤ t.wakeup)
    × ((n ≡ ready) ⊎ ((waits tick now t ≡ true) × (t.wakeup ≡ now + n)))
    × (tick < ready → tick < n)

next_ready-Next :
    (tick now ready : ℕ) (t : Task) → Next tick now ready t (next_ready tick now ready t)
unfolding next_ready
next_ready-Next tick now ready t = ground arith

or_true : (b : Bool) → (b || true) ≡ true
or_true true = refl
or_true false = refl

Shortest-cons :
    (tick now ready n r : ℕ) (t : Task) (ts : List Task)
    → Next tick now ready t n
    → Shortest tick now n ts r
    → Shortest tick now ready (t ∷ ts) r
Shortest-cons tick now ready n r t ts (l, w, o, p) (l', a, o', p') =
    (omega (arith, l, l'), ((λ e. omega (arith, w e, l')), a), among o o', λ h. p' (p h))
  where
    among :
        (n ≡ ready) ⊎ ((waits tick now t ≡ true) × (t.wakeup ≡ now + n))
        → (r ≡ n) ⊎ (wakes_after tick now r ts ≡ true)
        → (r ≡ ready) ⊎ (wakes_after tick now r (t ∷ ts) ≡ true)
    among (inl e) (inl f) = inl (f ∙ e)
    among (inr (e, g)) (inl f) = inr (rw (e, f, g, ==_refl (now + n)) refl)
    among o (inr f) = inr (rw f (or_true (waits tick now t && (t.wakeup == now + r))))

ready_loop-Shortest :
    (tick now ready : ℕ) (ts : List Task)
    → Shortest tick now ready ts (ready_loop tick now ready ts)
unfolding ready_loop next_ready
ready_loop-Shortest tick now ready [] = (omega arith, tt, inl refl, λ h. h)
ready_loop-Shortest tick now ready (t ∷ ts) =
    Shortest-cons tick now ready (next_ready tick now ready t) _ t ts
      (next_ready-Next tick now ready t)
      (ready_loop-Shortest tick now (next_ready tick now ready t) ts)

-- `edf_task_ready_ns` answers the time to the first wakeup of all tasks that wait for one more than two ticks away,
-- and 2^31 - 1 if it is later than that or there is none; the answer is longer than two ticks, if these
-- are below 2^31 - 1.
pub edf_task_ready_ns_lem :
    (period now : ℕ) (ts : List Task)
    → Shortest (period * 2) now (2 ^ 31 - 1) ts (task_ready_ns period now ts)
unfolding task_ready_ns
edf_task_ready_ns_lem period now ts = ready_loop-Shortest (period * 2) now (2 ^ 31 - 1) ts
