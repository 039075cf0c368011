-- ===== src/Edf.antt =====
-- kernel/sched/edf.c: the earliest-deadline-first scheduler, how it chooses the next task. Times are numbers of
-- nanoseconds; a sum that leaves the range of `ktime` has no meaning in C, and is not cut off here.
pub mod Admission
pub mod Calls
pub mod Earliest
pub mod Moves
pub mod Rounds
pub mod Pick
mod Tests
use flightos.Common.{
  ℕ, zero, suc, ◌+◌, ◌-◌, ◌*◌, ◌/◌, ◌%◌, ◌^◌, ◌≤◌, ◌<◌, ◌≡◌, refl, sym, ap, ap₂, subst, ◌∙◌, ◌≡⟨◌⟩◌,
  ◌∎, ◌≢◌, ◌↔◌, ◌⊎◌, inl, inr, Bool, true, false, not, ◌&&◌, ◌||◌, Option, none, some, List, [],
  ◌∷◌, ◌++◌, map, reverse, append-nil, append_assoc, arith, word, ltb, leb, ◌==◌, if◌then◌else◌,
  ltb→lt, lt→ltb, leb→le, le→leb, ==_iff, ==_refl, tests, Bool-cases, Option-cases, of_some, length,
  get_elem?, take, drop, set, All, filter, is_empty, length-append, length-set, get_elem?-set_self,
  get_elem?-set_ne, All-append, All-append_left, All-append_right, All-map, Status, success,
  failure, einval, enomem, enoexec, enodev, enosched, eperm,
}
use flightos.RoundRobin.{State, run, idle, new, dead_state, busy}

-- The fields of `struct task_struct` and `struct sched_attr` that the scheduler uses, for the task at `addr`.
-- The remaining runtime may fall below zero: it is `budget` less `spent`. `on_cpu` is `none` for
-- `KTHREAD_CPU_AFFINITY_NONE`, `run_once` is the flag `TASK_RUN_ONCE`, and `is_edf` says that
-- the policy is `KSCHED_EDF`.
pub record Task : Type 0 where
  pub addr : ℕ
  pub on_cpu : Option ℕ
  pub state : State
  pub run_once : Bool
  pub is_edf : Bool
  pub wakeup : ℕ
  pub deadline : ℕ
  pub budget : ℕ
  pub spent : ℕ
  pub period : ℕ
  pub deadline_rel : ℕ
  pub wcet : ℕ

-- `tick` is twice the minimum tick period, in all of the following.
unfoldable pub can_execute : ℕ → ℕ → Task → Bool
can_execute tick now t =
    if leb t.budget (tick + t.spent)
    then false
    else if leb t.deadline (now + tick)
    then false
    else true

-- The task after `schedule_edf_reinit_task`, less the count of its slices.
unfoldable pub reinit : Task → Task
reinit t = if t.run_once then record t { state = dead_state } else record t {
  state = idle;
  wakeup = t.wakeup + t.period;
  deadline = (t.wakeup + t.period) + t.deadline_rel;
  budget = t.wcet;
  spent = 0;
}

-- How often `schedule_edf_reinit_task` raises an alarm, by a trap: for a task that never ran, and for one
-- whose next period is over.
unfoldable pub alarms : ℕ → Task → ℕ
alarms now t =
    (if t.budget == t.wcet + t.spent then 1 else 0)
    + (if ltb (t.wakeup + t.period) now then 1 else 0)

-- What the loop of `edf_pick_next` does with a task: it leaves it where it is, moves it to the head or to the
-- tail of the queue, or frees it.
pub data Move : Type 0 where
  stay to_head to_tail : Task → Move
  remove : Move

-- `list_first_entry`, where the list has the task `u` if it has no other.
abbrev pub first_or : Task → List Task → Task
first_or u [] = u
first_or u (t ∷ ts) = t

-- A task of the state TASK_RUN that has been placed becomes the head, if its period has begun and its deadline is
-- before that of the first task.
abbrev pub compare_first : ℕ → Task → Task → Move → Move
compare_first now first u placed =
    if ltb now u.wakeup
    then placed
    else if ltb u.deadline first.deadline
    then to_head (record u { state = run })
    else placed

abbrev pub is_run : State → Bool
is_run run = true
is_run _ = false

abbrev pub wake_up : Task → Task → Move
wake_up first u =
    if not (is_run first.state)
    then to_head u
    else if ltb u.deadline first.deadline
    then to_head u
    else stay u

-- `front` has been passed, and `rest` follows the task; `this` is the task that is running.
abbrev pub by_state : ℕ → ℕ → ℕ → List Task → Task → List Task → State → Move
by_state this tick now front t rest run =
    if can_execute tick now t
    then compare_first now (first_or t front) t (stay t)
    else compare_first now (first_or (reinit t) (front ++ rest)) (reinit t) (to_tail (reinit t))
by_state this tick now front t rest idle =
    wake_up (first_or (record t { state = run }) front) (record t { state = run })
by_state this tick now front t rest dead_state = if t.addr == this then stay t else remove
by_state this tick now front t rest new = stay t
by_state this tick now front t rest busy = stay t

unfoldable pub visit : ℕ → ℕ → ℕ → List Task → Task → List Task → Move
unfolding can_execute reinit
visit this tick now front t rest =
    if ltb (now + tick) t.wakeup then stay t else by_state this tick now front t rest t.state

-- The alarms of a visit
abbrev pub alarms_at : ℕ → ℕ → Task → ℕ
alarms_at tick now t =
    if ltb (now + tick) t.wakeup
    then 0
    else if is_run t.state && not (can_execute tick now t)
    then alarms now t
    else 0

-- The run queue, the tasks that have been freed, and the number of alarms; `none` means that the fuel ran out.
abbrev pub Passed : Type 0
Passed = Option (List Task × List Task × ℕ)

-- A task that is moved to the tail is visited again, unless it was the last one: the next one has been
-- read before.
abbrev pub requeue :
    (List Task → List Task → List Task → ℕ → Passed)
    → List Task
    → Task
    → List Task
    → List Task
    → ℕ
    → Passed
requeue again front u [] freed n = some (front ++ (u ∷ []), freed, n)
requeue again front u (y ∷ ys) freed n = again front ((y ∷ ys) ++ (u ∷ [])) freed n

-- A round of the loop for the task `t`, where `again` is the loop from there on.
abbrev pub pick_round :
    (List Task → List Task → List Task → ℕ → Passed)
    → Move
    → List Task
    → Task
    → List Task
    → List Task
    → ℕ
    → Passed
pick_round again (stay u) front t rest freed n = again (front ++ (u ∷ [])) rest freed n
pick_round again (to_head u) front t rest freed n = again (u ∷ front) rest freed n
pick_round again (to_tail u) front t rest freed n = requeue again front u rest freed n
pick_round again remove front t rest freed n = again front rest (freed ++ (t ∷ [])) n

unfoldable pub pick_loop : ℕ → ℕ → ℕ → ℕ → List Task → List Task → List Task → ℕ → Passed
unfolding visit alarms
pick_loop zero this tick now front rest freed n = none
pick_loop (suc fuel) this tick now front [] freed n = some (front, freed, n)
pick_loop (suc fuel) this tick now front (t ∷ rest) freed n =
    pick_round (pick_loop fuel this tick now) (visit this tick now front t rest) front t rest freed
      (n + alarms_at tick now t)

-- What `edf_pick_next` ends with: no fuel; the first entry of an empty list is read, which is no task; or the
-- answer, the run queue, the tasks that have been freed and the number of alarms.
pub data Picked : Type 0 where
  no_fuel no_first : Picked
  picked : Option ℕ → List Task → List Task → ℕ → Picked

abbrev pub take_first : Passed → Picked
take_first none = no_fuel
take_first (some ([], freed, n)) = no_first
take_first (some (t ∷ ts, freed, n)) =
    if is_run t.state
    then picked (some t.addr) (record t { state = busy } ∷ ts) freed n
    else picked none (t ∷ ts) freed n

-- `edf_pick_next` on the run queue of the CPU; `period` is the minimum tick period.
unfoldable pub pick_next : ℕ → ℕ → ℕ → List Task → Picked
unfolding pick_loop
pick_next this period now ts =
    if is_empty ts
    then picked none ts [] 0
    else take_first (pick_loop (suc (2 * length ts)) this (period * 2) now [] ts [] 0)
