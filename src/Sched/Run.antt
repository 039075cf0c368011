-- ===== src/Sched/Run.antt =====
-- A run of `schedule` with the deadline and the round robin scheduler.
use flightos.Common.{
  ℕ, ◌+◌, ◌-◌, ◌<◌, ◌≡◌, refl, sym, ap, subst, ◌∙◌, ◌≢◌, ◌⊎◌, inl, inr, Bool, true, false, Option,
  none, some, List, [], ◌∷◌, arith, ◌==◌, if◌then◌else◌, of_some, success, einval,
}
use flightos.RoundRobin.{idle, run, busy}
use flightos.Edf
use flightos.Edf.Calls
use flightos.RoundRobin
use flightos.Sched.{
  Kernel, Scheduler, update_runtime, find_first, find_next_task, schedule, at_addr,
}
use flightos.Sched.Loop.{IsPrompt, schedule_ends}

-- The queues of both schedulers, on one CPU
record Both : Type 0 where
  rr : RoundRobin.Queues
  edf : List Edf.Task

-- What is left of the answer of `rr_pick_next`; the queues are in the kernel.
abbrev rr_picked : Kernel Both → Option (Option ℕ × RoundRobin.Queues) → Option ℕ × Kernel Both
rr_picked k none = (none, k)
rr_picked k (some (r, q)) = (r, record k { queues = record k.queues { rr = q } })

abbrev edf_picked : Kernel Both → Edf.Picked → Option ℕ × Kernel Both
edf_picked k (Edf.picked r ts freed n) = (r, record k { queues = record k.queues { edf = ts } })
edf_picked k _ = (none, k)

abbrev runtime_of : ℕ → List RoundRobin.Thread → ℕ
runtime_of a [] = 0
runtime_of a (t ∷ ts) = if t.addr == a then RoundRobin.timeslice_ns t else runtime_of a ts

abbrev left_of : ℕ → List Edf.Task → ℕ
left_of a [] = 0
left_of a (t ∷ ts) = if t.addr == a then Edf.Calls.timeslice_ns t else left_of a ts

-- The schedulers, with a minimum tick period of 10; what `schedule` does not call is left out.
abbrev rr : Scheduler (Kernel Both) ℕ
rr = record {
  addr = 100;
  policy = 0;
  priority = 0;
  pick_next_task = λ k now. rr_picked k (RoundRobin.pick_next k.queues.rr 0 10);
  timeslice_ns = λ k t. runtime_of t k.queues.rr.run_queue;
  task_ready_ns = λ k now. 0;
  wake_task = λ k t now. (einval, k);
  enqueue_task = λ k t. (einval, k);
  check_sched_attr = λ a. (success, a);
}

abbrev edf : Scheduler (Kernel Both) ℕ
edf = record {
  addr = 200;
  policy = 1;
  priority = 1;
  pick_next_task = λ k now. edf_picked k (Edf.pick_next 1 10 now k.queues.edf);
  timeslice_ns = λ k t. left_of t k.queues.edf;
  task_ready_ns = λ k now. Edf.Calls.task_ready_ns 10 now k.queues.edf;
  wake_task = λ k t now. (einval, k);
  enqueue_task = λ k t. (einval, k);
  check_sched_attr = λ a. (success, a);
}

abbrev thread : RoundRobin.State → RoundRobin.Thread
thread s = record {
  addr = 3;
  on_cpu = none;
  state = s;
  runtime = 300;
  wcet = 320;
  priority = 2;
  is_rr = true;
}

abbrev rr_queues : RoundRobin.State → RoundRobin.Queues
rr_queues s = record { wake_queue = []; run_queue = thread s ∷ []; dead = λ c. [] }

-- A task that wakes up at 170
abbrev sleeper : Edf.Task
sleeper = record {
  addr = 5;
  on_cpu = some 0;
  state = idle;
  run_once = false;
  is_edf = true;
  wakeup = 170;
  deadline = 1070;
  budget = 300;
  spent = 0;
  period = 1000;
  deadline_rel = 900;
  wcet = 300;
}

-- The queues before and after the round robin task is picked
abbrev before : Both
before = record { rr = rr_queues run; edf = sleeper ∷ [] }

abbrev after : Both
after = record { rr = rr_queues busy; edf = sleeper ∷ [] }

abbrev kernel : Kernel Both
kernel = record {
  threads = λ a. record {
    state = busy;
    budget = 500;
    spent = 0;
    total = 0;
    exec_start = 40;
    exec_stop = 0;
    wcet = 500;
  };
  queues = before;
  current = some 1;
  is_enabled = true;
  next_tick = 0;
}

abbrev IsRunning : Kernel Both → Type 0
IsRunning k = (k.queues ≡ before) ⊎ (k.queues ≡ after)

no_dead : (b : Bool) → ◌≡◌ {A = List RoundRobin.Thread} (if b then [] else []) []
no_dead true = refl
no_dead false = refl

rr_picks : RoundRobin.pick_next (rr_queues run) 0 10 ≡ some (some 3, rr_queues busy)
unfolding RoundRobin.pick_next
rr_picks = λ i. some (some 3, record (rr_queues busy) { dead = λ c. no_dead (c == 0) i })

rr_has_none : RoundRobin.pick_next (rr_queues busy) 0 10 ≡ some (none, rr_queues busy)
unfolding RoundRobin.pick_next
rr_has_none = λ i. some (none, record (rr_queues busy) { dead = λ c. no_dead (c == 0) i })

edf_waits : Edf.pick_next 1 10 50 (sleeper ∷ []) ≡ Edf.picked none (sleeper ∷ []) [] 0
unfolding Edf.pick_next
edf_waits = refl

-- The answers of the schedulers, in a kernel with the queues as before or after the pick.
rr_before :
    (k : Kernel Both)
    → k.queues ≡ before
    → rr.pick_next_task k 50 ≡ (some 3, record k { queues = after })
rr_before k e =
    ap (rr_picked k) (ap (λ q. RoundRobin.pick_next q.rr 0 10) e ∙ rr_picks)
    ∙ ap (λ q. (some 3, record k { queues = record q { rr = rr_queues busy } })) e

rr_after :
    (k : Kernel Both)
    → k.queues ≡ after
    → rr.pick_next_task k 50 ≡ (none, record k { queues = after })
rr_after k e =
    ap (rr_picked k) (ap (λ q. RoundRobin.pick_next q.rr 0 10) e ∙ rr_has_none)
    ∙ ap (λ q. (none, record k { queues = record q { rr = rr_queues busy } })) e

edf_none : (k : Kernel Both) → k.queues.edf ≡ sleeper ∷ [] → edf.pick_next_task k 50 ≡ (none, k)
edf_none k e =
    ap (edf_picked k) (ap (Edf.pick_next 1 10 50) e ∙ edf_waits)
    ∙ ap (λ ts. (none, record k { queues = record k.queues { edf = ts } })) (sym e)

edf_queue : (k : Kernel Both) → IsRunning k → k.queues.edf ≡ sleeper ∷ []
edf_queue k (inl e) = ap (λ q. q.edf) e
edf_queue k (inr e) = ap (λ q. q.edf) e

soon : 10 < Edf.Calls.task_ready_ns 10 50 (sleeper ∷ [])
unfolding Edf.Calls.task_ready_ns
soon = omega arith

edf-IsPrompt : IsPrompt IsRunning 10 50 edf
edf-IsPrompt = record {
  keeps = λ k i. subst IsRunning (sym (ap (λ r. r.1) (edf_none k (edf_queue k i)))) i;
  picks = λ k t i e. absurd (cc (e, ap (λ r. r.0) (edf_none k (edf_queue k i))));
  waits =
      λ k i. inr (subst (λ ts. 10 < Edf.Calls.task_ready_ns 10 50 ts) (sym (edf_queue k i)) soon);
}

enough : 10 < runtime_of 3 (rr_queues busy).run_queue
unfolding RoundRobin.timeslice_ns
enough = omega arith

rr-IsPrompt : IsPrompt IsRunning 10 50 rr
rr-IsPrompt = record {
  keeps = λ k i. elim i [
    | inl e ↦ subst IsRunning (sym (ap (λ r. r.1) (rr_before k e))) (inr refl)
    | inr e ↦ subst IsRunning (sym (ap (λ r. r.1) (rr_after k e))) (inr refl)
  ];
  picks = λ k t i f. elim i [
    | inl e ↦ of_three k t e (of_some (sym (ap (λ r. r.0) (rr_before k e)) ∙ f))
    | inr e ↦ absurd (cc (f, ap (λ r. r.0) (rr_after k e)))
  ];
  waits = λ k i. inl refl;
}
  where
    of_three :
        (k : Kernel Both) (t : ℕ)
        → k.queues ≡ before
        → 3 ≡ t
        → 10 < rr.timeslice_ns (rr.pick_next_task k 50).1 t
    of_three k t e u =
        subst (λ r. 10 < rr.timeslice_ns r.1 t) (sym (rr_before k e))
          (subst (λ a. 10 < runtime_of a (rr_queues busy).run_queue) u enough)

abbrev both : List (Scheduler (Kernel Both) ℕ)
both = edf ∷ rr ∷ []

has_task : (find_first both 50 (at_addr kernel 1 (λ t. update_runtime t 50))).0 ≢ none
unfolding find_first RoundRobin.pick_next Edf.pick_next
has_task e = cc e

schedule_ends_example :
    (t : ℕ) × (slice : ℕ) × (k' : Kernel Both) × (find_next_task both 50
        (at_addr kernel 1 (λ t. update_runtime t 50))
      ≡ some (t, slice, k'))
    × (10 < slice)
    × (schedule 1 both 10 (λ i. 50 + i) kernel
        ≡ some (
          if t == 1 then none else some t,
          record (at_addr k' t (λ th. record th { exec_start = 50 })) { next_tick = slice - 10 },
        ))
schedule_ends_example =
    schedule_ends IsRunning 0 both 10 (λ i. 50 + i) kernel 1 ((omega arith, tt), (tt, tt))
      (edf-IsPrompt, (rr-IsPrompt, tt)) (inl refl) has_task refl refl

-- The round robin task runs until the other one wakes up.
abbrev slice_of : Option (ℕ × ℕ × Kernel Both) → Option (ℕ × ℕ)
slice_of none = none
slice_of (some (t, slice, k)) = some (t, slice)

next_run : slice_of (find_next_task both 50 kernel) ≡ some (3, 120)
unfolding find_next_task Edf.Calls.task_ready_ns RoundRobin.timeslice_ns RoundRobin.pick_next
    Edf.pick_next
next_run = refl
