-- ===== src/Sched.antt =====
-- kernel/sched/core.c: the scheduler core, on one CPU. What it calls of a scheduler, through the function
-- pointers of `struct scheduler`, is a record of functions; they work on the kernel's state.
pub mod Register
mod Tests
mod Run
pub mod Next
pub mod Attributes
pub mod Loop
use flightos.Common.{
  ℕ, zero, suc, ◌+◌, ◌-◌, ◌*◌, ◌/◌, ◌%◌, ◌^◌, ◌≤◌, ◌<◌, ◌≡◌, refl, sym, ap, ap₂, subst, ◌∙◌, ◌≡⟨◌⟩◌,
  ◌∎, ◌≢◌, ◌↔◌, ◌⊎◌, inl, inr, Bool, true, false, not, ◌&&◌, ◌||◌, Option, none, some, List, [],
  ◌∷◌, ◌++◌, map, reverse, append-nil, append_assoc, arith, word, ltb, leb, ◌==◌, if◌then◌else◌,
  ltb→lt, lt→ltb, leb→le, le→leb, ==_iff, ==_refl, tests, Bool-cases, Option-cases, of_some, length,
  get_elem?, take, drop, set, All, filter, is_empty, length-append, length-set, get_elem?-set_self,
  get_elem?-set_ne, All-append, All-append_left, All-append_right, All-map, Status, success,
  failure, einval, enomem, enoexec, enodev, enosched, eperm,
}
use flightos.RoundRobin.{State, run, idle, new, dead_state, busy}

-- The fields of `struct task_struct` that the core keeps the time in. The remaining runtime is `budget` less `spent`.
pub record Thread : Type 0 where
  pub state : State
  pub budget : ℕ
  pub spent : ℕ
  pub total : ℕ
  pub exec_start : ℕ
  pub exec_stop : ℕ
  pub wcet : ℕ

-- The threads by their address, the queues of the schedulers, the thread in `current_set` of the CPU, if any, its
-- flag `sched_enabled`, and the time to the next tick that has been set.
pub record Kernel (Q : Type 0) : Type 0 where
  pub threads : ℕ → Thread
  pub queues : Q
  pub current : Option ℕ
  pub is_enabled : Bool
  pub next_tick : ℕ

-- `struct scheduler` at an address, for kernel states `K` and attributes `A`
pub record Scheduler (K A : Type 0) : Type 0 where
  pub addr : ℕ
  pub policy : ℕ
  pub priority : ℕ
  pub pick_next_task : K → ℕ → Option ℕ × K
  pub timeslice_ns : K → ℕ → ℕ
  pub task_ready_ns : K → ℕ → ℕ
  pub wake_task : K → ℕ → ℕ → Status × K
  pub enqueue_task : K → ℕ → Status × K
  pub check_sched_attr : A → Status × A

abbrev pub is_busy : State → Bool
is_busy busy = true
is_busy _ = false

-- `sched_update_runtime`; the clock does not go back.
unfoldable pub update_runtime : Thread → ℕ → Thread
update_runtime t now = record t {
  exec_stop = now;
  spent = t.spent + (now - t.exec_start);
  total = t.total + (now - t.exec_start);
  state = if is_busy t.state then run else t.state;
}

abbrev pub at_addr : {Q : Type 0} → Kernel Q → ℕ → (Thread → Thread) → Kernel Q
at_addr k a f = record k { threads = λ b. if b == a then f (k.threads a) else k.threads b }

module _ {K A : Type 0} where
  abbrev pub or_next :
      (K → Option (Scheduler K A × ℕ) × K)
      → Scheduler K A
      → Option ℕ × K
      → Option (Scheduler K A × ℕ) × K
  or_next again c (some t, k) = (some (c, t), k)
  or_next again c (none, k) = again k

  -- The first scheduler that has a task to run, with that task.
  unfoldable pub find_first : List (Scheduler K A) → ℕ → K → Option (Scheduler K A × ℕ) × K
  find_first [] now k = (none, k)
  find_first (c ∷ cs) now k = or_next (find_first cs now) c (c.pick_next_task k now)

  -- The time slice, which ends with the first wakeup for the schedulers whose priority is not below `priority`.
  unfoldable pub slice_loop : List (Scheduler K A) → ℕ → ℕ → K → ℕ → ℕ
  slice_loop [] priority now k slice = slice
  slice_loop (c ∷ cs) priority now k slice =
      let ready = c.task_ready_ns k now in
      let is_shorter = not (ready == 0) && ltb ready slice in
      let is_lower = ltb c.priority priority in
      let rest = slice_loop cs priority now k (if is_shorter then ready else slice) in
      if is_shorter && is_lower then slice else rest

  -- A task in the queues of a scheduler has that as its own.
  abbrev pub sliced : List (Scheduler K A) → ℕ → Option (Scheduler K A × ℕ) × K → Option (ℕ × ℕ × K)
  sliced cs now (none, k) = none
  sliced cs now (some (c, t), k) = some (t, slice_loop cs c.priority now k (c.timeslice_ns k t), k)

  -- `sched_find_next_task`: the task, the time to the next event, and the kernel; `none` is the failure of the
  -- assertion that there is a task.
  unfoldable pub find_next_task : List (Scheduler K A) → ℕ → K → Option (ℕ × ℕ × K)
  unfolding find_first slice_loop
  find_next_task cs now k = sliced cs now (find_first cs now k)

-- What the loop of `schedule` ends with: no fuel, no task, or the task, the slice, the time and the kernel.
pub data Scheduled (K : Type 0) : Type 0 where
  no_fuel no_task : Scheduled K
  chosen : ℕ → ℕ → ℕ → K → Scheduled K

abbrev pub try_slice : {K : Type 0} → (K → Scheduled K) → ℕ → ℕ → Option (ℕ × ℕ × K) → Scheduled K
try_slice again tick now none = no_task
try_slice again tick now (some (t, slice, k)) =
    if ltb tick slice then chosen t slice now k else again k

-- The loop on fuel; `clock` has the readings of `ktime_get`, and the next one is at `i`.
unfoldable pub schedule_loop :
    {K A : Type 0} → ℕ → List (Scheduler K A) → ℕ → (ℕ → ℕ) → ℕ → K → Scheduled K
unfolding find_next_task
schedule_loop zero cs tick clock i k = no_fuel
schedule_loop (suc fuel) cs tick clock i k =
    try_slice (schedule_loop fuel cs tick clock (suc i)) tick (clock i)
      (find_next_task cs (clock i) k)

-- The kernel after `schedule`, with the task to switch to, if it is another one.
abbrev pub Switch : Type 0 → Type 0
Switch Q = Option (Option ℕ × Kernel Q)

abbrev pub dispatch : {Q : Type 0} → ℕ → ℕ → Scheduled (Kernel Q) → Switch Q
dispatch cur tick no_fuel = none
dispatch cur tick no_task = none
dispatch cur tick (chosen t slice now k) = some (
  if t == cur then none else some t,
  record (at_addr k t (λ th. record th { exec_start = now })) { next_tick = slice - tick },
)

abbrev pub schedule_from :
    {Q A : Type 0}
    → ℕ
    → List (Scheduler (Kernel Q) A)
    → ℕ
    → (ℕ → ℕ)
    → Kernel Q
    → Option ℕ
    → Switch Q
schedule_from fuel cs tick clock k none = some (none, k)
schedule_from fuel cs tick clock k (some cur) =
    dispatch cur tick
      (schedule_loop fuel cs tick clock 0 (at_addr k cur (λ t. update_runtime t (clock 0))))

-- `schedule`; `tick` is the minimum tick period, and `none` stands for no fuel or no task. The first reading of
-- the clock serves the update of the runtime and the first round of the loop.
unfoldable pub schedule :
    {Q A : Type 0} → ℕ → List (Scheduler (Kernel Q) A) → ℕ → (ℕ → ℕ) → Kernel Q → Switch Q
unfolding update_runtime schedule_loop
schedule fuel cs tick clock k =
    if not k.is_enabled then some (none, k) else schedule_from fuel cs tick clock k k.current

-- A thread that gives up the rest of its runtime
abbrev pub give_up : {Q : Type 0} → Kernel Q → ℕ → Kernel Q
give_up k a = at_addr k a (λ t. record t { budget = 0; spent = 0 })

-- `sched_yield`, for the current thread at `cur`
unfoldable pub yield :
    {Q A : Type 0} → ℕ → List (Scheduler (Kernel Q) A) → ℕ → (ℕ → ℕ) → Kernel Q → ℕ → Switch Q
unfolding schedule
yield fuel cs tick clock k cur = schedule fuel cs tick clock (give_up k cur)

-- `sched_maybe_yield`, where `frac` is positive
unfoldable pub maybe_yield :
    {Q A : Type 0} → ℕ → List (Scheduler (Kernel Q) A) → ℕ → (ℕ → ℕ) → Kernel Q → ℕ → ℕ → Switch Q
unfolding schedule
maybe_yield fuel cs tick clock k cur frac =
    let t = k.threads cur in
    if ltb (t.wcet / frac + t.spent) t.budget
    then schedule fuel cs tick clock (give_up k cur)
    else some (none, k)

-- `cpu_load`, for the CPUs below `cpus`
unfoldable pub set_cpu_load : ℕ → (ℕ → ℕ) → ℕ → ℕ → ℕ → ℕ
set_cpu_load cpus load cpu percent =
    if leb cpus cpu then load else (λ c. if c == cpu then percent % 2 ^ 8 else load c)

unfoldable pub get_cpu_load : ℕ → (ℕ → ℕ) → ℕ → ℕ
get_cpu_load cpus load cpu = if leb cpus cpu then 0 else load cpu
