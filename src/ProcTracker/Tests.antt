-- ===== src/ProcTracker/Tests.antt =====
-- Runs of the operations of a tracker, and the theorems at concrete trackers.
use flightos.Common.{ℕ, ◌+◌, ◌≡◌, refl, ◌≢◌, ◌↔◌, ◌⊎◌, none, some, [], ◌∷◌, ◌++◌, success, failure}
use flightos.ProcTask.{Task, get_pend_step_op_code}
use flightos.ProcTracker.{
  OpFunc, success_code, Tracker, put_task, get_task, put, put_force, execute_next, create,
}
use flightos.ProcTracker.Queue.{IsValid, Waits, put_get_lem}

abbrev task_for : ℕ → ℕ → Task
task_for a c = record {
  addr = a;
  data_ptr = 0;
  size = 0;
  nmemb = 0;
  pool = a + 1;
  todo = record { slot = 0; op_code = c; op_info = 0 } ∷ [];
  done = [];
  free = [];
  task_type = 0;
  seq = 0;
}

abbrev idle_op : OpFunc
idle_op c t = (success_code, t)

abbrev tracker : Tracker
tracker = record {
  addr = 10;
  tasks = task_for 100 7 ∷ task_for 200 7 ∷ [];
  n_tasks = 2;
  n_tasks_crit = 2;
  op_code = 7;
  op = idle_op;
}

tracker-IsValid : IsValid tracker
unfolding get_pend_step_op_code
tracker-IsValid = record { counted = refl; matched = (refl, (refl, tt)) }

create_no_limit : create (some idle_op) 7 0 10 ≡ none
unfolding create
create_no_limit = refl

put_other : (put (some tracker) (some (task_for 300 8))).0 ≡ failure
unfolding put put_task get_pend_step_op_code
put_other = refl

forced : (put_force (some tracker) (some (task_for 300 8))).0 ≡ success
unfolding put_force
forced = refl

executed : (execute_next tracker).0 ≡ some success_code
unfolding execute_next
executed = refl

put_get_example :
    let (s, pt') = put_task tracker (task_for 300 8) in
    let (o, pt'') = get_task pt' in
    ((s ≡ success) ↔ Waits 7 (task_for 300 8))
    × (s ≡ success → pt'.tasks ≡ tracker.tasks ++ (task_for 300 8 ∷ []))
    × (s ≢ success → pt' ≡ tracker)
    × IsValid pt'
    × IsValid pt''
    × (((o ≡ none) × (pt'.tasks ≡ []) × (pt'' ≡ pt'))
        ⊎ ((u : Task) × (o ≡ some u) × (pt'.tasks ≡ u ∷ pt''.tasks) × Waits pt'.op_code u))
put_get_example = put_get_lem tracker (task_for 300 8) tracker-IsValid
