-- ===== src/ProcTask/Tests.antt =====
-- Runs of the operations of a task, and the theorems at concrete tasks.
use flightos.Common.{ℕ, ◌≡◌, ◌≢◌, ◌↔◌, refl, none, some, [], ◌∷◌, arith, success, einval, enomem}
use flightos.ProcTask.{
  Step, Task, rewind_steps_done, next_pend_step_done, add_step, create, destroy, del_all_pending,
}
use flightos.ProcTask.Steps.{run_steps, rewind-run_steps, del_all_pending_lem, add_step_cases}
use flightos.ProcTask.Pool.{IsValid, rewind, next, del_all, add, call, run, run-IsValid}

abbrev blank : ℕ → Step
blank i = record { slot = i; op_code = 0; op_info = 0 }

abbrev busy : ℕ → ℕ → Step
busy i c = record { slot = i; op_code = c; op_info = 0 }

abbrev fresh : Task
fresh = record {
  addr = 100;
  data_ptr = 4096;
  size = 16;
  nmemb = 0;
  pool = 200;
  todo = [];
  done = [];
  free = blank 0 ∷ blank 1 ∷ blank 2 ∷ [];
  task_type = 7;
  seq = 1;
}

abbrev half_done : Task
half_done = record fresh { todo = busy 1 20 ∷ []; done = busy 0 10 ∷ []; free = blank 2 ∷ [] }

create_runs : create 100 200 4096 16 3 7 1 ≡ (some fresh, [])
unfolding create
create_runs = refl

create_no_pool : create 100 0 4096 16 3 7 1 ≡ (none, 100 ∷ [])
unfolding create
create_no_pool = refl

run_mixed : run fresh (add 10 0 ∷ add 20 0 ∷ next ∷ []) ≡ some half_done
unfolding run call next_pend_step_done add_step
run_mixed = refl

rewind_runs : (rewind_steps_done half_done).todo ≡ busy 0 10 ∷ busy 1 20 ∷ []
unfolding rewind_steps_done
rewind_runs = refl

destroy_runs : destroy half_done ≡ 0 ∷ 0 ∷ 0 ∷ 200 ∷ 100 ∷ []
unfolding destroy
destroy_runs = refl

half_done-IsValid : IsValid 3 half_done
half_done-IsValid = record {
  owned = λ a. ground arith;
  sized = refl;
  coded_todo = omega arith;
  coded_done = omega arith;
}

rewind-run_steps_example : rewind_steps_done (run_steps 1 half_done) ≡ rewind_steps_done half_done
rewind-run_steps_example = rewind-run_steps 1 half_done

del_all_pending_example :
    del_all_pending half_done
    ≡ some (record half_done { todo = []; done = busy 1 20 ∷ busy 0 10 ∷ [] })
del_all_pending_example = del_all_pending_lem half_done (omega arith)

add_step_cases_example :
    let (s, u) = add_step half_done 0 5 in
    ((s ≡ success) ↔ ((◌≢◌ {A = ℕ} 0 0) × (half_done.free ≢ [])))
    × ((s ≡ einval) ↔ (◌≡◌ {A = ℕ} 0 0))
    × ((s ≡ enomem) ↔ ((◌≢◌ {A = ℕ} 0 0) × (half_done.free ≡ [])))
    × (s ≢ success → u ≡ half_done)
add_step_cases_example = add_step_cases half_done 0 5

run-IsValid_example :
    (u : Task) × (run half_done (del_all ∷ rewind ∷ add 30 9 ∷ []) ≡ some u) × IsValid 3 u
run-IsValid_example = run-IsValid 3 half_done (del_all ∷ rewind ∷ add 30 9 ∷ []) half_done-IsValid
