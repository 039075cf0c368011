-- ===== src/ProcNet/Setup.antt =====
-- lib/data_proc_net.c: networks are created, extended and destroyed.
pub mod Lifetime
use flightos.Common.{
  ℕ, zero, suc, ◌+◌, ◌-◌, ◌*◌, ◌/◌, ◌%◌, ◌^◌, ◌≤◌, ◌<◌, ◌≡◌, refl, sym, ap, ap₂, subst, ◌∙◌, ◌≡⟨◌⟩◌,
  ◌∎, ◌≢◌, ◌↔◌, ◌⊎◌, inl, inr, Bool, true, false, not, ◌&&◌, ◌||◌, Option, none, some, List, [],
  ◌∷◌, ◌++◌, map, reverse, append-nil, append_assoc, arith, word, ltb, leb, ◌==◌, if◌then◌else◌,
  ltb→lt, lt→ltb, leb→le, ==_iff, ==_refl, tests, Bool-cases, Option-cases, of_some, length,
  get_elem?, set, All, filter, is_empty, length-append, length-set, get_elem?-set_self,
  get_elem?-set_ne, All-append, All-append_left, All-append_right, All-map, Status, success,
  failure, einval, enomem, enoexec, enodev, enosched, eperm,
}
use flightos.ProcTracker.{
  Tracker, OpFunc, TaskCode, success_code, stop, detach, resched, sortseq, destroy_code, other,
  level_critical, append_task, put_task, get_task, sort_seq, destroy_tracker,
}
use flightos.ProcTracker
use flightos.ProcNet.{Net, op_node_in, op_node_out}

-- `mem` is what `kzalloc` returns for the new tracker. `pt_track_destroy` destroys the tasks of the
-- old node.
abbrev replace_output : Net → Option Tracker → Status × Net
replace_output pn none = (enomem, pn)
replace_output pn (some pt) =
    (success, record pn { output = pt; destroyed = pn.destroyed ++ pn.output.tasks })

unfoldable pub create_output_node : Option Net → Option OpFunc → ℕ → Status × Option Net
create_output_node none op mem = (einval, none)
create_output_node (some pn) op mem =
    let (s, pn') = replace_output pn (ProcTracker.create op op_node_out 1 mem) in (s, some pn')

unfoldable pub add_node : Option Net → Option Tracker → Status × Option Net
add_node none pt = (einval, none)
add_node (some pn) none = (einval, some pn)
add_node (some pn) (some pt) =
    if pt.op_code == op_node_in
    then (einval, some pn)
    else if pt.op_code == op_node_out
    then (einval, some pn)
    else (success, some (record pn { nodes = pn.nodes ++ (pt ∷ []); n = (pn.n + 1) % word }))

-- `pn_dummy_op` destroys its task, which the type of an operator function does not show.
unfoldable pub dummy_op : OpFunc
dummy_op op_code t = (success_code, t)

-- Two lists of freed pointers, one after the other.
abbrev pub and_then : Option (List ℕ) → Option (List ℕ) → Option (List ℕ)
and_then none o = none
and_then (some freed) none = none
and_then (some freed) (some freed') = some (freed ++ freed')

-- What the `cleanup` label of `pn_create` frees, and the end of `pn_destroy`.
abbrev pub cleanup : Option Tracker → Option Tracker → ℕ → Option (List ℕ)
cleanup i o net_mem =
    and_then (destroy_tracker i) (and_then (destroy_tracker o) (some (net_mem ∷ [])))

-- `pn_create` behind the creation of its output node, and of its input node.
abbrev pub with_output : ℕ → Tracker → Option Tracker → Option Net × Option (List ℕ)
with_output net_mem i none = (none, cleanup (some i) none net_mem)
with_output net_mem i (some o) = (
  some (record {
    input = i;
    output = o;
    nodes = [];
    n = 0;
    destroyed = [];
    detached = [];
    emitted = [];
  }),
  some [],
)

abbrev pub with_input : ℕ → ℕ → Option Tracker → Option Net × Option (List ℕ)
with_input net_mem out_mem none = (none, cleanup none none net_mem)
with_input net_mem out_mem (some i) =
    with_output net_mem i (ProcTracker.create (some dummy_op) op_node_out 1 out_mem)

-- `pn_create`, from the results of `kzalloc` for the network and its two trackers: the network, and
-- what is freed on the way out of a failure.
unfoldable pub create : ℕ → ℕ → ℕ → Option Net × Option (List ℕ)
create net_mem in_mem out_mem =
    if net_mem == 0
    then (none, some [])
    else with_input net_mem out_mem (ProcTracker.create (some dummy_op) op_node_in 1 in_mem)

-- The pointers that `pn_destroy` frees for the nodes, in order.
unfoldable pub destroy_nodes : List Tracker → Option (List ℕ)
destroy_nodes [] = some []
destroy_nodes (p ∷ ps) = and_then (destroy_tracker (some p)) (destroy_nodes ps)

-- `pn_destroy` of the network at `net_mem`
unfoldable pub destroy_net : Option Net → ℕ → Option (List ℕ)
unfolding destroy_nodes
destroy_net none net_mem = some []
destroy_net (some pn) net_mem =
    and_then (destroy_nodes pn.nodes) (cleanup (some pn.input) (some pn.output) net_mem)
