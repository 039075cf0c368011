-- ===== src/Edf/Tests.antt =====
-- Runs of the earliest-deadline-first scheduler, and the theorems at concrete queues.
use flightos.Common.{
  ℕ, ◌+◌, ◌*◌, ◌/◌, ◌≤◌, ◌<◌, ◌≡◌, refl, ◌≢◌, ◌↔◌, true, false, none, some, List, [], ◌∷◌, arith,
  ltb, ◌==◌, if◌then◌else◌, All, success, einval,
}
use flightos.RoundRobin.{State, run, idle, dead_state, busy}
use flightos.Edf.{Task, can_execute, no_first, picked, pick_next}
use flightos.Edf.Pick.{Answer, edf_pick_next_lem}
use flightos.Edf.Earliest.{is_ready}
use flightos.Edf.Earliest.Lead.{pick_next_earliest}
use flightos.Edf.Calls.{Queue, Attr, check_sched_attr}
use flightos.Edf.Calls.Attributes.{Fits, edf_check_sched_attr_lem}
use flightos.Edf.Admission.{hyperperiod, Fpu, with_period, enqueue}
use flightos.Edf.Admission.Hyperperiod.{Divides, Common, hyperperiod_lem}
use flightos.Edf.Admission.Enqueue.{Enqueued, enqueue_lem}

-- A task at an address, on CPU 0, with a wakeup, a deadline and a remaining runtime, in periods of 1000.
abbrev task : ℕ → State → ℕ → ℕ → ℕ → Task
task a s wakeup deadline budget = record {
  addr = a;
  on_cpu = some 0;
  state = s;
  run_once = false;
  is_edf = true;
  wakeup = wakeup;
  deadline = deadline;
  budget = budget;
  spent = 0;
  period = 1000;
  deadline_rel = 900;
  wcet = 300;
}

-- The first one can run until 900, the second one until 500, and the third one is due later.
abbrev first_task : Task
first_task = task 1 run 0 900 250

abbrev others : List Task
others = task 2 run 0 500 200 ∷ task 3 idle 800 1700 300 ∷ []

pick_run :
    pick_next 9 10 100 (first_task ∷ others)
    ≡ picked (some 2) (task 2 busy 0 500 200 ∷ first_task ∷ task 3 idle 800 1700 300 ∷ []) [] 0
unfolding pick_next
pick_run = refl

-- A task that has used up its runtime goes to the tail; the one behind it waits, and keeps a third one from being
-- chosen that could run.
idle_cpu :
    pick_next 9 10 100 (task 1 run 0 900 5 ∷ task 2 idle 800 850 300 ∷ task 3 run 0 900 250 ∷ [])
    ≡ picked none
        (task 2 idle 800 850 300 ∷ task 3 run 0 900 250 ∷ task 1 idle 1000 1900 300 ∷ [])
        []
        0
unfolding pick_next
idle_cpu = refl

-- The last task of the queue is dead: it is freed, and the first entry of the empty list is read.
wild_read : pick_next 9 10 100 (task 1 dead_state 0 900 0 ∷ []) ≡ no_first
unfolding pick_next
wild_read = refl

edf_pick_next_example : Answer 9 (first_task ∷ others) (pick_next 9 10 100 (first_task ∷ others))
edf_pick_next_example = edf_pick_next_lem 9 10 100 (first_task ∷ others)

first_can : can_execute 20 100 first_task ≡ true
unfolding can_execute
first_can = refl

pick_next_earliest_example :
    (u : Task) × (us : List Task) × (fs : List Task) × (n : ℕ) × (pick_next 9 10 100
        (first_task ∷ others)
      ≡ picked (some u.addr) (record u { state = busy } ∷ us) fs n)
    × (u.deadline ≤ first_task.deadline)
    × All (λ t. is_ready 20 100 t ≡ true → u.deadline ≤ t.deadline) others
pick_next_earliest_example = pick_next_earliest 9 10 100 first_task others refl first_can

-- CPU 0 has the task 4 in its wake queue, and the others have no task.
abbrev sleeper : Task
sleeper = task 4 idle 0 0 300

abbrev queues : ℕ → Queue
queues c = record {
  wake_queue = if c == 0 then sleeper ∷ [] else [];
  run_queue = if c == 0 then others else [];
}

abbrev attr : Attr
attr = record { is_edf = true; priority = 0; period = 1000; deadline_rel = 900; wcet = 300 }

edf_check_sched_attr_example :
    ((check_sched_attr 10 (some attr) ≡ success) ↔ Fits 10 attr)
    × (check_sched_attr 10 (some attr) ≢ success → check_sched_attr 10 (some attr) ≡ einval)
edf_check_sched_attr_example = edf_check_sched_attr_lem 10 attr

-- A task for CPU 1, with a period of 600
abbrev fast : Task
fast = record (task 5 idle 0 0 100) {
  on_cpu = some 1;
  period = 600;
  deadline_rel = 500;
  wcet = 100;
}

hyperperiod_run : hyperperiod (queues 0) fast ≡ some 3000
unfolding hyperperiod
hyperperiod_run = refl

hyperperiod_example :
    (h : ℕ) × (hyperperiod (queues 0) fast ≡ some h)
    × (0 < h)
    × Divides fast.period h
    × Common h others
    × Common h (sleeper ∷ [])
    × Divides h 6000
hyperperiod_example =
    hyperperiod_lem (queues 0) fast 6000 (omega arith) (omega arith, (omega arith, tt))
      (omega arith, tt) (omega arith) (omega arith) (10, refl) ((6, refl), ((6, refl), tt))
      ((6, refl), tt)

-- Quotients in thousandths, for the tests
abbrev thousandths : Fpu
thousandths = record {
  Double = ℕ;
  zero_double = 0;
  util_max = 980;
  ratio = λ a b. (1000 * a) / b;
  add = λ a b. a + b;
  is_above = λ a b. ltb b a;
}

enqueue_run : (enqueue thousandths 2 queues fast).0 ≡ success
unfolding enqueue
enqueue_run = refl

enqueue_example :
    Enqueued thousandths 2 queues (with_period fast) (enqueue thousandths 2 queues fast)
enqueue_example = enqueue_lem thousandths 2 queues fast
