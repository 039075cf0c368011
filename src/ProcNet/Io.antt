-- ===== src/ProcNet/Io.antt =====
-- lib/data_proc_net.c: the input and the output node.
pub mod Inputs
pub mod Outputs
use flightos.Common.{
  ℕ, zero, suc, ◌+◌, ◌-◌, ◌*◌, ◌/◌, ◌%◌, ◌^◌, ◌≤◌, ◌<◌, ◌≡◌, refl, sym, ap, ap₂, subst, ◌∙◌, ◌≡⟨◌⟩◌,
  ◌∎, ◌≢◌, ◌↔◌, ◌⊎◌, inl, inr, Bool, true, false, not, ◌&&◌, ◌||◌, Option, none, some, List, [],
  ◌∷◌, ◌++◌, map, reverse, append-nil, append_assoc, arith, word, ltb, leb, ◌==◌, if◌then◌else◌,
  ltb→lt, lt→ltb, leb→le, ==_iff, ==_refl, tests, Bool-cases, Option-cases, of_some, length,
  get_elem?, set, All, filter, is_empty, length-append, length-set, get_elem?-set_self,
  get_elem?-set_ne, All-append, All-append_left, All-append_right, All-map, Status, success,
  failure, einval, enomem, enoexec, enodev, enosched, eperm,
}
use flightos.ProcTask.{
  Task, get_pend_step_op_code, next_pend_step_done, set_nmemb, del_all_pending, destroy,
}
use flightos.ProcTracker.{
  Tracker, OpFunc, TaskCode, success_code, stop, detach, resched, sortseq, destroy_code, other,
  level_critical, append_task, put_task, get_task, sort_seq, destroy_tracker,
}
use flightos.ProcTracker
use flightos.ProcNet.{
  Net, op_node_in, op_node_out, find_tracker, lookup, modify, put_at, get_next_pending_tracker,
}

-- `pn_input_task`; the `BUG_ON` cannot fire, since neither pointer is NULL behind the checks.
unfoldable pub input_task : Option Net → Option Task → Option Net
unfolding append_task
input_task none t = none
input_task (some pn) none = some pn
input_task (some pn) (some t) = some (record pn { input = append_task pn.input t })

-- `BUG_ON(pt_track_put(pt, t))`; `none` is the trap.
abbrev if_put : ℕ → Task → List Tracker → Status → Option (List Tracker)
if_put a t nodes success = some (put_at a t nodes)
if_put a t nodes _ = none

abbrev put_into : ℕ → Task → List Tracker → Option Tracker → Option (List Tracker)
put_into a t nodes none = none
put_into a t nodes (some pt) = if_put a t nodes (put_task pt t).0

unfoldable pub put_or_bug : ℕ → Task → List Tracker → Option (List Tracker)
unfolding lookup put_at
put_or_bug a t nodes = put_into a t nodes (lookup a nodes)

-- Where `pt` points to in the loop of `pn_process_inputs`: a node, and its op code.
abbrev pub Cursor : Type 0
Cursor = ℕ × ℕ

abbrev pub cursor_at : Tracker → Cursor
cursor_at p = (p.addr, p.op_code)

abbrev pub cursor_for : ℕ → Option ℕ → Option Cursor
cursor_for op none = none
cursor_for op (some a) = some (a, op)

-- The node for the task, if there is one.
abbrev pub seek : Net → Cursor → ℕ → Option Cursor
seek pn c op = if c.1 == op then some c else cursor_for op (find_tracker op pn.nodes)

abbrev pub place : Net → Cursor → Option (List Tracker) → Option (Cursor × Net)
place pn c none = none
place pn c (some nodes) = some (c, record pn { nodes = nodes })

-- The task `t` for the node that was found. The cursor is reset to the head of the queue if there is none.
abbrev pub assign_to : Net → Tracker → Task → Option Cursor → Option (Cursor × Net)
assign_to pn head t none = some (cursor_at head, record pn { destroyed = pn.destroyed ++ (t ∷ []) })
assign_to pn head t (some c) = place pn c (put_or_bug c.0 t pn.nodes)

-- One round of the loop for the task `t`; `head` is the head of the queue.
unfoldable pub input_step : Net → Tracker → Cursor → Task → Option (Cursor × Net)
unfolding find_tracker put_or_bug
input_step pn head c t = assign_to pn head t (seek pn c (get_pend_step_op_code t))

-- What is left of the loop, `again`, after a round.
abbrev pub continue_with : (Net → Cursor → Option Net) → Option (Cursor × Net) → Option Net
continue_with again none = none
continue_with again (some (c, pn)) = again pn c

abbrev pub input_round :
    (Net → Cursor → Option Net) → Net → Tracker → Cursor → Option Task × Tracker → Option Net
input_round again pn head c (none, input) = some (record pn { input = input })
input_round again pn head c (some t, input) =
    continue_with again (input_step (record pn { input = input }) head c t)

-- The loop on fuel. `none` is a trap, or that the fuel ran out.
unfoldable pub inputs_loop : ℕ → Net → Tracker → Cursor → Option Net
unfolding input_step
inputs_loop zero pn head c = none
inputs_loop (suc fuel) pn head c =
    input_round (λ pn' c'. inputs_loop fuel pn' head c') pn head c (get_task pn.input)

abbrev pub with_success : Option Net → Option (Status × Net)
with_success none = none
with_success (some pn) = some (success, pn)

abbrev pub inputs_from : Net → List Tracker → Option (Status × Net)
inputs_from pn [] = some (failure, pn)
inputs_from pn (p ∷ ps) =
    with_success (inputs_loop (suc (length pn.input.tasks)) pn p (cursor_at p))

unfoldable pub process_inputs : Net → Option (Status × Net)
unfolding inputs_loop
process_inputs pn = inputs_from pn pn.nodes

-- A round of the loop of `pn_process_outputs`, where `again` is the loop from there on. The return code
-- of the operator function is not read.
abbrev pub outputs_round :
    (Net → ℕ → Option (ℕ × Net)) → Net → ℕ → Option Task × Tracker → Option (ℕ × Net)
outputs_round again pn k (none, output) = some (k, record pn { output = output })
outputs_round again pn k (some t, output) =
    again (record pn { output = output; emitted = pn.emitted ++ (t ∷ []) }) (suc k)

-- The loop on fuel, with the number of tasks handed out.
unfoldable pub outputs_loop : ℕ → Net → ℕ → Option (ℕ × Net)
outputs_loop zero pn k = none
outputs_loop (suc fuel) pn k = outputs_round (outputs_loop fuel) pn k (get_task pn.output)

abbrev pub returned : Option (ℕ × Net) → Option (ℕ × Option Net)
returned none = none
returned (some (k, pn)) = some (k, some pn)

unfoldable pub process_outputs : Option Net → Option (ℕ × Option Net)
unfolding outputs_loop
process_outputs none = some (0, none)
process_outputs (some pn) = returned (outputs_loop (suc (length pn.output.tasks)) pn 0)
