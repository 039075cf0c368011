-- ===== src/RoundRobin.antt =====
-- kernel/sched/rr.c: the round robin scheduler. All tasks wait and run in the queues of the first CPU; `dead`
-- has the list of every CPU. Times are numbers; a runtime below zero counts as zero, which compares
-- with the tick in the same way.
pub mod Pick
pub mod Rounds
pub mod Verdicts
pub mod Wake
mod Tests
use flightos.Common.{
  ℕ, zero, suc, ◌+◌, ◌-◌, ◌*◌, ◌/◌, ◌%◌, ◌^◌, ◌≤◌, ◌<◌, ◌≡◌, refl, sym, ap, ap₂, subst, ◌∙◌, ◌≡⟨◌⟩◌,
  ◌∎, ◌≢◌, ◌↔◌, ◌⊎◌, inl, inr, Bool, true, false, not, ◌&&◌, ◌||◌, Option, none, some, List, [],
  ◌∷◌, ◌++◌, map, reverse, append-nil, append_assoc, arith, word, ltb, leb, ◌==◌, if◌then◌else◌,
  ltb→lt, lt→ltb, leb→le, le→leb, ==_iff, ==_refl, tests, Bool-cases, Option-cases, of_some, length,
  get_elem?, take, drop, set, All, filter, is_empty, length-append, length-set, get_elem?-set_self,
  get_elem?-set_ne, All-append, All-append_left, All-append_right, All-map, Status, success,
  failure, einval, enomem, enoexec, enodev, enosched, eperm,
}

-- `task->state`: the codes of include/kernel/kthread.h
pub data State : Type 0 where
  run idle new dead_state busy : State

-- The fields of `struct task_struct` that the scheduler uses, for the task at `addr`; `on_cpu` is `none`
-- for `KTHREAD_CPU_AFFINITY_NONE`, and `is_rr` says that the policy is `KSCHED_RR`.
pub record Thread : Type 0 where
  pub addr : ℕ
  pub on_cpu : Option ℕ
  pub state : State
  pub runtime : ℕ
  pub wcet : ℕ
  pub priority : ℕ
  pub is_rr : Bool

-- `struct task_queue`, less the list that only `rr_cleanup` uses
pub record Queues : Type 0 where
  pub wake_queue : List Thread
  pub run_queue : List Thread
  pub dead : ℕ → List Thread

abbrev pub is_on : Option ℕ → ℕ → Bool
is_on none cpu = false
is_on (some c) cpu = c == cpu

abbrev pub may_run_on : Option ℕ → ℕ → Bool
may_run_on none cpu = true
may_run_on (some c) cpu = c == cpu

-- What the loop of `rr_pick_next` does with a task.
pub data Verdict : Type 0 where
  skip refill take_it bury : Verdict

abbrev pub by_state : State → Bool → Bool → Verdict
by_state run is_spent is_here = if is_spent then refill else take_it
by_state dead_state is_spent is_here = if is_here then bury else skip
by_state _ is_spent is_here = skip

unfoldable pub verdict : ℕ → ℕ → Thread → Verdict
verdict cpu tick t =
    if may_run_on t.on_cpu cpu
    then by_state t.state (leb t.runtime tick) (is_on t.on_cpu cpu)
    else skip

-- What the loop ends with: the task it chose, the run queue, and the list of dead tasks.
abbrev pub Outcome : Type 0
Outcome = Option (Option ℕ × List Thread × List Thread)

-- A task that is queued up at the end is visited again, unless it was the last one: the next one has been
-- read before.
abbrev pub queue_up :
    (List Thread → List Thread → List Thread → Option ℕ → Outcome)
    → List Thread
    → Thread
    → List Thread
    → List Thread
    → Outcome
queue_up again front t [] dead = some (some t.addr, front ++ (t ∷ []), dead)
queue_up again front t (y ∷ ys) dead = again front ((y ∷ ys) ++ (t ∷ [])) dead (some t.addr)

-- A round of the loop for the task `t`, where `again` is the loop from there on; `front` has been passed.
abbrev pub pick_round :
    (List Thread → List Thread → List Thread → Option ℕ → Outcome)
    → Verdict
    → List Thread
    → Thread
    → List Thread
    → List Thread
    → Option ℕ
    → Outcome
pick_round again skip front t rest dead next = again (front ++ (t ∷ [])) rest dead next
pick_round again refill front t rest dead next =
    queue_up again front (record t { runtime = t.wcet }) rest dead
pick_round again take_it front t rest dead next = some (some t.addr, front ++ (t ∷ rest), dead)
pick_round again bury front t rest dead next = again front rest (dead ++ (t ∷ [])) next

-- The loop on fuel; `none` means that the fuel ran out.
unfoldable pub pick_loop : ℕ → ℕ → ℕ → List Thread → List Thread → List Thread → Option ℕ → Outcome
unfolding verdict
pick_loop zero cpu tick front rest dead next = none
pick_loop (suc fuel) cpu tick front [] dead next = some (next, front, dead)
pick_loop (suc fuel) cpu tick front (t ∷ rest) dead next =
    pick_round (pick_loop fuel cpu tick) (verdict cpu tick t) front t rest dead next

-- `next->state = TASK_BUSY`
abbrev pub set_busy : Option ℕ → List Thread → List Thread
set_busy none ts = ts
set_busy (some a) [] = []
set_busy (some a) (t ∷ ts) =
    (if t.addr == a then record t { state = busy } else t) ∷ set_busy (some a) ts

abbrev pub chosen : Queues → ℕ → Outcome → Option (Option ℕ × Queues)
chosen q cpu none = none
chosen q cpu (some (next, ts, dead)) = some (
  next,
  record q { run_queue = set_busy next ts; dead = λ c. if c == cpu then dead else q.dead c },
)

-- `period` is the minimum tick period.
unfoldable pub pick_next : Queues → ℕ → ℕ → Option (Option ℕ × Queues)
unfolding pick_loop
pick_next q cpu period =
    if is_empty q.run_queue
    then some (none, q)
    else chosen q cpu
        (pick_loop (suc (2 * length q.run_queue)) cpu (period * 2) [] q.run_queue (q.dead cpu) none)

-- The task at an address in a list, and the list without it.
abbrev pub put_front : Thread → Option (Thread × List Thread) → Option (Thread × List Thread)
put_front t none = none
put_front t (some (u, us)) = some (u, t ∷ us)

abbrev pub take_out : ℕ → List Thread → Option (Thread × List Thread)
take_out a [] = none
take_out a (t ∷ ts) =
    let found = put_front t (take_out a ts) in if t.addr == a then some (t, ts) else found

-- A task that wakes up gets a time slice by its priority, and goes to the head of the run queue.
abbrev pub woken : Queues → ℕ → Option (Thread × List Thread) → Status × Queues
woken q period none = (einval, q)
woken q period (some (t, ts)) =
    let slice = t.priority * (period * 2 ^ 4) in
    (
      success,
      record q {
        wake_queue = ts;
        run_queue = record t { wcet = slice; runtime = slice; state = run } ∷ q.run_queue;
      },
    )

-- `rr_wake` for the task `t`.
unfoldable pub wake : Queues → Option Thread → ℕ → Status × Queues
wake q none period = (einval, q)
wake q (some t) period =
    if not t.is_rr
    then (einval, q)
    else if is_empty q.wake_queue
    then (einval, q)
    else woken q period (take_out t.addr q.wake_queue)

unfoldable pub enqueue : Queues → Thread → Status × Queues
enqueue q t = (success, record q { wake_queue = q.wake_queue ++ (t ∷ []) })

unfoldable pub timeslice_ns : Thread → ℕ
timeslice_ns t = t.runtime

-- `struct sched_attr`, by its policy and its priority
unfoldable pub check_sched_attr : Option (Bool × ℕ) → Status × Option (Bool × ℕ)
check_sched_attr none = (einval, none)
check_sched_attr (some (is_rr, priority)) =
    if not is_rr
    then (einval, some (is_rr, priority))
    else (success, some (is_rr, if priority == 0 then 1 else priority))
