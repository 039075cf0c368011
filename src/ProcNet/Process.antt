-- ===== src/ProcNet/Process.antt =====
-- lib/data_proc_net.c: how the tasks of a node are executed and moved on.
pub mod Conserved
pub mod Total
pub mod Ending
pub mod Conserve
pub mod Account
use flightos.Common.{
  ℕ, zero, suc, ◌+◌, ◌-◌, ◌*◌, ◌/◌, ◌%◌, ◌^◌, ◌≤◌, ◌<◌, ◌≡◌, refl, sym, ap, ap₂, subst, ◌∙◌, ◌≡⟨◌⟩◌,
  ◌∎, ◌≢◌, ◌↔◌, ◌⊎◌, inl, inr, Bool, true, false, not, ◌&&◌, ◌||◌, Option, none, some, List, [],
  ◌∷◌, ◌++◌, map, reverse, append-nil, append_assoc, arith, word, ltb, leb, ◌==◌, if◌then◌else◌,
  ltb→lt, lt→ltb, leb→le, ==_iff, ==_refl, tests, Bool-cases, Option-cases, length, get_elem?, set,
  All, filter, is_empty, length-append, length-set, get_elem?-set_self, get_elem?-set_ne,
  All-append, All-append_left, All-append_right, All-map, Status, success, failure, einval, enomem,
  enoexec, enodev, enosched, eperm,
}
use flightos.ProcTask.{
  Task, get_pend_step_op_code, next_pend_step_done, set_nmemb, del_all_pending, destroy,
}
use flightos.ProcTracker.{
  Tracker, OpFunc, TaskCode, success_code, stop, detach, resched, sortseq, destroy_code, other,
  level_critical, append_task, put_task, get_task, sort_seq, destroy_tracker,
}
use flightos.ProcTracker
use flightos.ProcNet.{
  Net, op_node_in, op_node_out, find_tracker, lookup, modify, put_at, get_next_pending_tracker,
}

-- Where `pn_task_to_next_node` sends a task with the op code `op`: the head of the queue, or the first
-- node with that op code.
abbrev destination : ℕ → Tracker → List Tracker → Option ℕ
destination op p ps = if p.op_code == op then some p.addr else find_tracker op (p ∷ ps)

abbrev deliver : Net → Task → Option ℕ → Status × Net
deliver pn t none = (failure, record pn { destroyed = pn.destroyed ++ (t ∷ []) })
deliver pn t (some a) = (success, record pn { nodes = put_at a t pn.nodes })

abbrev route : Net → Task → ℕ → List Tracker → Option (Status × Net)
route pn t op [] = none
route pn t op (p ∷ ps) = some (deliver pn t (destination op p ps))

-- `none` where the source takes the head of the queue and the queue is empty: it then reads the
-- network itself as a tracker.
unfoldable pub task_to_next_node : Net → Task → Option (Status × Net)
task_to_next_node pn t =
    if get_pend_step_op_code t == 0
    then some (success, record pn { output = (put_task pn.output t).1 })
    else route pn t (get_pend_step_op_code t) pn.nodes

-- `pt_track_get` on the node at an address
abbrev take_at : Net → ℕ → Option Tracker → Option Task × Net
take_at pn a none = (none, pn)
take_at pn a (some pt) =
    ((get_task pt).0, record pn { nodes = modify a (λ q. (get_task q).1) pn.nodes })

unfoldable pub get_next_pending_task : Net → ℕ → Option Task × Net
unfolding lookup modify
get_next_pending_task pn a = take_at pn a (lookup a pn.nodes)

-- The calls of `pn_task_to_next_node` in `pn_eval_task_status`, whose result is not read, and what
-- the function returns behind them.
abbrev move_on : Bool → Option (Status × Net) → Option (Bool × Net)
move_on continue none = none
move_on continue (some (s, pn)) = some (continue, pn)

abbrev clear_pending : Net → Option Task → Option (Bool × Net)
clear_pending pn none = none
clear_pending pn (some t) = move_on true (task_to_next_node pn t)

-- `pn_eval_task_status` for the node at `a`, by the return code. `true` is 1, to go on with the node.
-- `none` is a fault, or a loop that does not end.
unfoldable pub eval_task : Net → ℕ → Task → TaskCode → Option (Bool × Net)
unfolding put_at task_to_next_node
eval_task pn a t success_code = move_on true (task_to_next_node pn (next_pend_step_done t).1)
eval_task pn a t stop = move_on false (task_to_next_node pn (next_pend_step_done t).1)
eval_task pn a t detach = some (true, record pn { detached = pn.detached ++ (t ∷ []) })
eval_task pn a t resched = some (false, record pn { nodes = put_at a t pn.nodes })
eval_task pn a t sortseq =
    some (false, record pn { nodes = modify a sort_seq (put_at a t pn.nodes) })
eval_task pn a t destroy_code = clear_pending pn (del_all_pending (set_nmemb t 0))
eval_task pn a t (other c) = some (true, record pn { destroyed = pn.destroyed ++ (t ∷ []) })

-- With its checks for NULL.
unfoldable pub eval_task_status :
    Option Net → Option ℕ → Option Task → TaskCode → Option (Bool × Option Net)
unfolding eval_task
eval_task_status none a t ret = some (false, none)
eval_task_status (some pn) none t ret = some (false, some pn)
eval_task_status (some pn) (some a) none ret = some (false, some pn)
eval_task_status (some pn) (some a) (some t) ret = elim (eval_task pn a t ret) [
  | none ↦ none
  | some (b, pn') ↦ some (b, some pn')
]

-- `pt->op(pt_get_pend_step_op_code(t), t)` for the node at `a`
abbrev run_op : Option Tracker → Task → Option (TaskCode × Task)
run_op none t = none
run_op (some pt) t = some (pt.op (get_pend_step_op_code t) t)

abbrev eval_result : Net → ℕ → Option (TaskCode × Task) → Option (Bool × Net)
eval_result pn a none = none
eval_result pn a (some (ret, t)) = eval_task pn a t ret

-- One round of the loop of `pn_process_next`, from the task that it took: the operator function runs,
-- and its return code is evaluated.
unfoldable pub process_task : Net → ℕ → Task → Option (Bool × Net)
unfolding lookup eval_task
process_task pn a t = eval_result pn a (run_op (lookup a pn.nodes) t)

-- A round of the loop of `pn_process_next`, where `again` is the loop from there on, and `cnt` the number
-- of tasks executed so far.
abbrev pub after_task : (Net → ℕ → Option (ℕ × Net)) → ℕ → Option (Bool × Net) → Option (ℕ × Net)
after_task again cnt none = none
after_task again cnt (some (true, pn)) = again pn (suc cnt)
after_task again cnt (some (false, pn)) = some (suc cnt, pn)

abbrev pub loop_round : (Net → ℕ → Option (ℕ × Net)) → ℕ → ℕ → Option Task × Net → Option (ℕ × Net)
loop_round again a cnt (none, pn) = some (cnt, pn)
loop_round again a cnt (some t, pn) = after_task again cnt (process_task pn a t)

-- The loop on fuel. `none` is a fault, or that the fuel ran out.
unfoldable pub process_loop : ℕ → ℕ → Net → ℕ → Option (ℕ × Net)
unfolding get_next_pending_task process_task
process_loop zero a pn cnt = none
process_loop (suc fuel) a pn cnt =
    loop_round (process_loop fuel a) a cnt (get_next_pending_task pn a)

-- A bound on the rounds that the tasks of a node can take: each task is taken once, and once more
-- for each of its steps that is for the same node.
abbrev pub work_in : List Task → ℕ
work_in [] = 0
work_in (t ∷ ts) = suc (length t.todo) + work_in ts

abbrev work_of : Option Tracker → ℕ
work_of none = 0
work_of (some p) = work_in p.tasks

unfoldable pub work_at : ℕ → List Tracker → ℕ
unfolding lookup
work_at a nodes = work_of (lookup a nodes)

abbrev process_from : Option ℕ × Net → Option (ℕ × Net)
process_from (none, pn) = some (0, pn)
process_from (some a, pn) = process_loop (suc (work_at a pn.nodes)) a pn 0

unfoldable pub process_next : Net → Option (ℕ × Net)
unfolding process_loop get_next_pending_tracker work_at
process_next pn = process_from (get_next_pending_tracker pn)
