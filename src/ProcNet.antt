-- ===== src/ProcNet.antt =====
-- lib/data_proc_net.c and include/data_proc_net.h: a network of trackers with an input and an output
-- node. `nodes` is the queue of tracker nodes, its head first; a pointer to a node is its address.
-- Tasks that leave the network are logged: those given to `pt_destroy`, those that an operator
-- function keeps, and those handed to the operator function of the output node.
pub mod Process
pub mod Io
pub mod Setup
pub mod Nodes
pub mod Rotate
mod Tests
use flightos.Common.{
  ℕ, zero, suc, ◌+◌, ◌-◌, ◌*◌, ◌/◌, ◌%◌, ◌^◌, ◌≤◌, ◌<◌, ◌≡◌, refl, sym, ap, ap₂, subst, ◌∙◌, ◌≡⟨◌⟩◌,
  ◌∎, ◌≢◌, ◌↔◌, ◌⊎◌, inl, inr, Bool, true, false, not, ◌&&◌, ◌||◌, Option, none, some, List, [],
  ◌∷◌, ◌++◌, map, reverse, append-nil, append_assoc, arith, word, ltb, leb, ◌==◌, if◌then◌else◌,
  ltb→lt, lt→ltb, leb→le, ==_iff, ==_refl, tests, Bool-cases, Option-cases, length, get_elem?, set,
  All, filter, is_empty, length-append, length-set, get_elem?-set_self, get_elem?-set_ne,
  All-append, All-append_left, All-append_right, All-map, Status, success, failure, einval, enomem,
  enoexec, enodev, enosched, eperm,
}
use flightos.ProcTask.{
  Task, get_pend_step_op_code, next_pend_step_done, set_nmemb, del_all_pending, destroy,
}
use flightos.ProcTracker.{
  Tracker, OpFunc, TaskCode, success_code, stop, detach, resched, sortseq, destroy_code, other,
  level_critical, append_task, put_task, get_task, sort_seq, destroy_tracker,
}
use flightos.ProcTracker

abbrev pub op_node_in : ℕ
op_node_in = 0xFFFFFFFF

abbrev pub op_node_out : ℕ
op_node_out = 0x00000000

-- `struct proc_net`, and the log
pub record Net : Type 0 where
  pub input : Tracker
  pub output : Tracker
  pub nodes : List Tracker
  pub n : ℕ
  pub destroyed : List Task
  pub detached : List Task
  pub emitted : List Task

unfoldable pub find_tracker : ℕ → List Tracker → Option ℕ
find_tracker op_code [] = none
find_tracker op_code (p ∷ ps) =
    if p.op_code == op_code then some p.addr else find_tracker op_code ps

-- The node at an address, and a write to it.
unfoldable pub lookup : ℕ → List Tracker → Option Tracker
lookup a [] = none
lookup a (p ∷ ps) = if p.addr == a then some p else lookup a ps

unfoldable pub modify : ℕ → (Tracker → Tracker) → List Tracker → List Tracker
modify a f [] = []
modify a f (p ∷ ps) = if p.addr == a then f p ∷ ps else p ∷ modify a f ps

-- `pt_track_put(pt, t)` for the node at `a`, with the result of the call left unread
unfoldable pub put_at : ℕ → Task → List Tracker → List Tracker
unfolding modify
put_at a t = modify a (λ pt. (put_task pt t).1)

-- `list_del` of the node at an address
unfoldable pub unlink : ℕ → List Tracker → List Tracker
unlink a [] = []
unlink a (p ∷ ps) = if p.addr == a then ps else p ∷ unlink a ps

unfoldable pub node_to_queue_head : Tracker → List Tracker → List Tracker
unfolding unlink
node_to_queue_head pt nodes = pt ∷ unlink pt.addr nodes

unfoldable pub node_to_queue_tail : Tracker → List Tracker → List Tracker
unfolding unlink
node_to_queue_tail pt nodes = unlink pt.addr nodes ++ (pt ∷ [])

-- The loop of `pn_queue_critical_trackers`: `front` is the part of the queue before the cursor, and
-- the safe iteration has read the next node before it moves one to the head.
unfoldable pub critical_loop : List Tracker → List Tracker → List Tracker
critical_loop front [] = front
critical_loop front (p ∷ rest) =
    critical_loop (if level_critical p then p ∷ front else front ++ (p ∷ [])) rest

unfoldable pub queue_critical_trackers : List Tracker → List Tracker
unfolding critical_loop
queue_critical_trackers nodes = critical_loop [] nodes

-- The loop of `pn_get_next_pending_tracker`, with `rounds` iterations left before `cnt++ > pn->n`
-- holds. Each round moves the node under the cursor, which is at the head, to the tail; the next
-- node was read before the move, so the iteration ends after a node that stands alone.
unfoldable pub pending_loop : ℕ → List Tracker → Option ℕ × List Tracker
pending_loop zero nodes = (none, nodes)
pending_loop (suc rounds) [] = (none, [])
pending_loop (suc rounds) (p ∷ rest) =
    let next = pending_loop rounds (rest ++ (p ∷ [])) in
    if not (is_empty p.tasks)
    then (some p.addr, rest ++ (p ∷ []))
    else if is_empty rest
    then (none, p ∷ [])
    else next

abbrev pub next_pending : Net → List Tracker → Option ℕ × List Tracker
next_pending pn [] = (none, [])
next_pending pn (p ∷ ps) = pending_loop (suc pn.n) (queue_critical_trackers (p ∷ ps))

unfoldable pub get_next_pending_tracker : Net → Option ℕ × Net
unfolding queue_critical_trackers pending_loop
get_next_pending_tracker pn =
    let (a, nodes) = next_pending pn pn.nodes in (a, record pn { nodes = nodes })
