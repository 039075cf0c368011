-- ===== src/Edf/Calls.antt =====
-- kernel/sched/edf.c: how a task is woken up, the check of the attributes, and the time to the next wakeup.
pub mod Wake
pub mod Attributes
use flightos.Common.{
  ℕ, zero, suc, ◌+◌, ◌-◌, ◌*◌, ◌/◌, ◌%◌, ◌^◌, ◌≤◌, ◌<◌, ◌≡◌, refl, sym, ap, ap₂, subst, ◌∙◌, ◌≡⟨◌⟩◌,
  ◌∎, ◌≢◌, ◌↔◌, ◌⊎◌, inl, inr, Bool, true, false, not, ◌&&◌, ◌||◌, Option, none, some, List, [],
  ◌∷◌, ◌++◌, map, reverse, append-nil, append_assoc, arith, word, ltb, leb, ◌==◌, if◌then◌else◌,
  ltb→lt, lt→ltb, leb→le, le→leb, ==_iff, ==_refl, tests, Bool-cases, Option-cases, of_some, length,
  get_elem?, take, drop, set, All, filter, is_empty, length-append, length-set, get_elem?-set_self,
  get_elem?-set_ne, All-append, All-append_left, All-append_right, All-map, Status, success,
  failure, einval, enomem, enoexec, enodev, enosched, eperm,
}
use flightos.RoundRobin.{State, idle, dead_state, busy}
use flightos.Edf.{Task, first_or}

-- `struct task_queue` of one CPU, less the list of dead tasks, which this scheduler does not use
pub record Queue : Type 0 where
  pub wake_queue : List Task
  pub run_queue : List Task

abbrev pub is_idle : State → Bool
is_idle idle = true
is_idle _ = false

abbrev pub is_dead : State → Bool
is_dead dead_state = true
is_dead _ = false

-- The task of the longest period that is neither dead nor runs only once; of several, the last one.
abbrev pub longest : List Task → ℕ → Option Task → Option Task
longest [] max after = after
longest (t ∷ ts) max after =
    let here = not (is_dead t.state) && not t.run_once && leb max t.period in
    longest ts (if here then t.period else max) (if here then some t else after)

abbrev pub period_after : ℕ → Option Task → ℕ
period_after now none = now
period_after now (some t) = t.wakeup + t.period

unfoldable pub get_earliest_wakeup : ℕ → List Task → ℕ
get_earliest_wakeup now ts = period_after now (longest ts 0 none)

-- Whether `edf_sort_queue_by_urgency` moves the task to the head of the queue, where `first` is now.
abbrev pub is_urgent : ℕ → Task → Task → Bool
is_urgent now first t =
    not t.run_once
    && not (is_dead t.state)
    && ltb t.wakeup now
    && ltb (t.deadline + t.spent) (first.deadline + t.budget)

unfoldable pub sort_by_urgency : ℕ → List Task → List Task → List Task
sort_by_urgency now front [] = front
sort_by_urgency now front (t ∷ rest) =
    sort_by_urgency now
      (if is_urgent now (first_or t front) t then t ∷ front else front ++ (t ∷ [])) rest

-- `wakeup` is the best estimate so far, for a task with the given relative deadline and runtime.
unfoldable pub get_best_wakeup : ℕ → ℕ → ℕ → ℕ → List Task → ℕ
get_best_wakeup now deadline_rel wcet wakeup [] = wakeup
get_best_wakeup now deadline_rel wcet wakeup (t ∷ ts) =
    let later = get_best_wakeup now deadline_rel wcet wakeup ts in
    if t.run_once
    then later
    else if not (is_idle t.state)
    then later
    else if ltb t.wakeup now
    then later
    else if ltb (deadline_rel + t.wakeup) t.deadline
    then t.wakeup
    else if ltb (wcet + t.wakeup) t.deadline
    then t.deadline
    else later

-- The task at an address in a list, and the list without it.
abbrev pub put_front : Task → Option (Task × List Task) → Option (Task × List Task)
put_front t none = none
put_front t (some (u, us)) = some (u, t ∷ us)

abbrev pub take_out : ℕ → List Task → Option (Task × List Task)
take_out a [] = none
take_out a (t ∷ ts) =
    let found = put_front t (take_out a ts) in if t.addr == a then some (t, ts) else found

-- The run queue that the task `u` joins, and the wakeup that it gets, before both are shifted.
abbrev pub sorted : ℕ → Task → List Task → List Task × ℕ
sorted now u ts = if is_empty ts && u.run_once then (ts, now) else (
  sort_by_urgency now [] ts,
  get_best_wakeup now u.deadline_rel u.wcet (get_earliest_wakeup now ts)
      (sort_by_urgency now [] ts),
)

-- A task that is about to wake up, in the run queue.
abbrev pub waking : ℕ → Task → Task
waking wakeup u = record u {
  wakeup = wakeup + u.period;
  deadline = (wakeup + u.period) + u.deadline_rel;
  budget = u.wcet;
  spent = 0;
  state = idle;
}

abbrev pub woken : ℕ → ℕ → Queue → Option (Task × List Task) → Status × Queue
woken period now q none = (einval, q)
woken period now q (some (u, us)) =
    let (ts, wakeup) = sorted now u q.run_queue in
    (success, record q { wake_queue = us; run_queue = ts ++ (waking (wakeup + period) u ∷ []) })

abbrev pub at_cpu : (ℕ → Queue) → ℕ → Status × Queue → Status × (ℕ → Queue)
at_cpu tq cpu (s, q) = (s, λ c. if c == cpu then q else tq c)

abbrev pub wake_on : ℕ → ℕ → (ℕ → Queue) → Task → Option ℕ → Status × (ℕ → Queue)
wake_on period now tq t none = (einval, tq)
wake_on period now tq t (some cpu) =
    if is_empty (tq cpu).wake_queue
    then (einval, tq)
    else at_cpu tq cpu (woken period now (tq cpu) (take_out t.addr (tq cpu).wake_queue))

-- `edf_wake`; `period` is the minimum tick period.
unfoldable pub wake : ℕ → ℕ → (ℕ → Queue) → Option Task → Status × (ℕ → Queue)
unfolding get_earliest_wakeup sort_by_urgency get_best_wakeup
wake period now tq none = (einval, tq)
wake period now tq (some t) =
    if not t.is_edf then (einval, tq) else wake_on period now tq t t.on_cpu

-- `struct sched_attr`; `is_edf` says that the policy is `KSCHED_EDF`.
pub record Attr : Type 0 where
  pub is_edf : Bool
  pub priority : ℕ
  pub period : ℕ
  pub deadline_rel : ℕ
  pub wcet : ℕ

-- `edf_check_sched_attr`; `tick` is the minimum tick period.
unfoldable pub check_sched_attr : ℕ → Option Attr → Status
check_sched_attr tick none = einval
check_sched_attr tick (some a) =
    if not a.is_edf
    then einval
    else if ltb a.wcet tick
    then einval
    else if ltb a.deadline_rel (tick + a.wcet)
    then einval
    else if ltb 0 a.period
        && (leb a.period a.wcet
            || leb a.period a.deadline_rel
            || ltb a.period (tick + a.deadline_rel))
    then einval
    else if leb a.deadline_rel a.wcet
    then einval
    else success

abbrev pub is_busy : State → Bool
is_busy busy = true
is_busy _ = false

-- `edf_task_ready_ns`: the time to the first wakeup that is more than `tick` away, twice the minimum tick period;
-- `ready` is the shortest time so far.
unfoldable pub ready_loop : ℕ → ℕ → ℕ → List Task → ℕ
ready_loop tick now ready [] = ready
ready_loop tick now ready (t ∷ ts) =
    ready_loop tick now
      (if is_busy t.state
        then ready
        else if leb t.wakeup (now + tick)
        then ready
        else if ltb (t.wakeup - now) ready
        then t.wakeup - now
        else ready)
      ts

unfoldable pub task_ready_ns : ℕ → ℕ → List Task → ℕ
unfolding ready_loop
task_ready_ns period now ts = ready_loop (period * 2) now (2 ^ 31 - 1) ts

-- `edf_timeslice_ns`, where the remaining runtime is not below zero
unfoldable pub timeslice_ns : Task → ℕ
timeslice_ns t = t.budget - t.spent
