-- ===== src/Sched/Tests.antt =====
-- Runs of the scheduler core, and the theorems for two schedulers.
use flightos.Common.{ℕ, ◌≡◌, refl, true, Option, none, some, List, [], ◌∷◌, arith, Status, success}
use flightos.RoundRobin.{busy}
use flightos.Sched.{Kernel, Scheduler, find_next_task}
use flightos.Sched.Register.{register}
use flightos.Sched.Register.Sorted.{Registers, register_lem}
use flightos.Sched.Next.{Next, find_next_task_lem}
use flightos.Sched.Attributes.{Owned}

abbrev kernel : Kernel ℕ
kernel = record {
  threads = λ a. record {
    state = busy;
    budget = 500;
    spent = 0;
    total = 0;
    exec_start = 40;
    exec_stop = 0;
    wcet = 500;
  };
  queues = 0;
  current = some 1;
  is_enabled = true;
  next_tick = 0;
}

-- A scheduler that always picks the same task, with the same slice, or none; its attributes are policies.
abbrev scheduler : ℕ → ℕ → Option ℕ → ℕ → Scheduler (Kernel ℕ) ℕ
scheduler a priority task ready = record {
  addr = a;
  policy = priority;
  priority = priority;
  pick_next_task = λ k now. (task, k);
  timeslice_ns = λ k t. 300;
  task_ready_ns = λ k now. ready;
  wake_task = λ k t now. (success, k);
  enqueue_task = λ k t. (success, k);
  check_sched_attr = λ a. (success, a);
}

abbrev edf : Scheduler (Kernel ℕ) ℕ
edf = scheduler 200 1 none 120

abbrev rr : Scheduler (Kernel ℕ) ℕ
rr = scheduler 100 0 (some 2) 0

abbrev both : List (Scheduler (Kernel ℕ) ℕ)
both = edf ∷ rr ∷ []

register_run : register 0 (rr ∷ []) (some edf) ≡ some (success, both)
unfolding register
register_run = refl

-- The priority of the last scheduler is below what stands before the head of the list.
head_swapped : register 7 (rr ∷ []) (some edf) ≡ none
unfolding register
head_swapped = refl

register_example :
    (s : Status) × (zs : List (Scheduler (Kernel ℕ) ℕ)) × (register 0 (rr ∷ []) (some edf)
      ≡ some (s, zs))
    × Registers (rr ∷ []) (some edf) s zs
register_example = register_lem 0 (rr ∷ []) (some edf) (omega arith, tt) (λ c e. omega arith)

find_next_task_run : find_next_task both 50 kernel ≡ some (2, 120, kernel)
unfolding find_next_task
find_next_task_run = refl

find_next_task_example : Next both 50 kernel (find_next_task both 50 kernel)
find_next_task_example = find_next_task_lem both 50 kernel ((omega arith, tt), (tt, tt))

abbrev owned : Owned (Kernel ℕ) ℕ
owned = record { addr = 3; sched = none; attr = 0 }
