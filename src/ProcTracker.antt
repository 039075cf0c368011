-- ===== src/ProcTracker.antt =====
-- lib/data_proc_tracker.c and include/data_proc_tracker.h: a tracker holds the tasks whose next step
-- has its op code, oldest first. A function that checks for NULL takes options; what it does with
-- the structures that they point to is a function of its own.
pub mod Queue
mod Tests
use flightos.Common.{
  ℕ, zero, suc, ◌+◌, ◌-◌, ◌%◌, ◌^◌, Bool, true, false, Option, none, some, List, [], ◌∷◌, ◌++◌,
  length, is_empty, not, word, Status, success, failure, einval, enoexec, ◌==◌, leb, if◌then◌else◌,
}
use flightos.ProcTask.{Task, get_pend_step_op_code, destroy}

-- What an operator function may return: the `PN_TASK_` codes of include/data_proc_net.h, and any
-- other `int`.
pub data TaskCode : Type 0 where
  success_code stop detach resched sortseq destroy_code : TaskCode
  other : ℕ → TaskCode

-- `op_func_t`: the operator function gets the op code and the task, returns a code, and leaves the
-- task in some state.
abbrev pub OpFunc : Type 0
OpFunc = ℕ → Task → TaskCode × Task

-- `struct proc_tracker` at the address `addr`
pub record Tracker : Type 0 where
  pub addr : ℕ
  pub tasks : List Task
  pub n_tasks : ℕ
  pub n_tasks_crit : ℕ
  pub op_code : ℕ
  pub op : OpFunc

unfoldable pub level_critical : Tracker → Bool
level_critical pt = leb pt.n_tasks_crit pt.n_tasks

unfoldable pub get_usage : Tracker → ℕ
get_usage pt = pt.n_tasks

unfoldable pub tasks_pending : Option Tracker → Bool
tasks_pending none = false
tasks_pending (some pt) = not (is_empty pt.tasks)

-- `list_add_tail(&t->node, &pt->tasks); pt->n_tasks++;`
unfoldable pub append_task : Tracker → Task → Tracker
append_task pt t = record pt { tasks = pt.tasks ++ (t ∷ []); n_tasks = (pt.n_tasks + 1) % word }

unfoldable pub put_task : Tracker → Task → Status × Tracker
unfolding append_task
put_task pt t =
    if get_pend_step_op_code t == pt.op_code then (success, append_task pt t) else (failure, pt)

unfoldable pub put : Option Tracker → Option Task → Status × Option Tracker
unfolding put_task
put none t = (einval, none)
put (some pt) none = (einval, some pt)
put (some pt) (some t) = let (s, pt') = put_task pt t in (s, some pt')

unfoldable pub put_force : Option Tracker → Option Task → Status × Option Tracker
unfolding append_task
put_force none t = (einval, none)
put_force (some pt) none = (einval, some pt)
put_force (some pt) (some t) = (success, some (append_task pt t))

unfoldable pub pending : Option Tracker → Bool
pending none = false
pending (some pt) = not (is_empty pt.tasks)

abbrev pub take_first : Tracker → List Task → Option Task × Tracker
take_first pt [] = (none, pt)
take_first pt (t ∷ rest) =
    (some t, record pt { tasks = rest; n_tasks = (pt.n_tasks + word - 1) % word })

unfoldable pub get_task : Tracker → Option Task × Tracker
get_task pt = take_first pt pt.tasks

unfoldable pub get : Option Tracker → Option Task × Option Tracker
unfolding get_task
get none = (none, none)
get (some pt) = let (t, pt') = get_task pt in (t, some pt')

-- The operator function runs on the first task, which stays where it is. `none` is the `-ENOEXEC`
-- of a tracker with no task.
abbrev pub run_first : Tracker → List Task → Option TaskCode × Tracker
run_first pt [] = (none, pt)
run_first pt (t ∷ rest) =
    let (ret, t') = pt.op pt.op_code t in (some ret, record pt { tasks = t' ∷ rest })

unfoldable pub execute_next : Tracker → Option TaskCode × Tracker
execute_next pt = run_first pt pt.tasks

-- `pt_track_sort_seq` prints that it is not implemented.
unfoldable pub sort_seq : Tracker → Tracker
sort_seq pt = pt

-- What `pt_track_create` does with the result `mem` of `kzalloc`.
unfoldable pub create : Option OpFunc → ℕ → ℕ → ℕ → Option Tracker
create none op_code n_tasks_crit mem = none
create (some op) op_code n_tasks_crit mem =
    if n_tasks_crit == 0
    then none
    else if mem == 0
    then none
    else some (record {
      addr = mem;
      tasks = [];
      n_tasks = 0;
      n_tasks_crit = n_tasks_crit;
      op_code = op_code;
      op = op;
    })

-- The loop of `pt_track_destroy` on fuel, with the pointers that it frees, in order; `none` means
-- that the fuel ran out.
unfoldable pub destroy_loop : ℕ → Tracker → Option (List ℕ)
unfolding get_task
destroy_loop zero pt = none
destroy_loop (suc fuel) pt =
    let (first, pt') = get_task pt in
    elim first [
      | none ↦ some (pt'.addr ∷ [])
      | some t ↦ elim (destroy_loop fuel pt') [
        | none ↦ none
        | some freed ↦ some (destroy t ++ freed)
      ]
    ]

unfoldable pub destroy_tracker : Option Tracker → Option (List ℕ)
unfolding destroy_loop
destroy_tracker none = some []
destroy_tracker (some pt) = destroy_loop (suc (length pt.tasks)) pt
