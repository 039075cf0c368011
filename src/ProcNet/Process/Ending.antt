-- ===== src/ProcNet/Process/Ending.antt =====
-- `pn_process_next` ends, if the operator functions do not lengthen the work of a task.
use flightos.Common.{
  ℕ, suc, ◌+◌, ◌≤◌, ◌≡◌, refl, ap, subst, ◌∙◌, ◌≢◌, inl, inr, Bool, true, false, Option, none, some,
  List, [], ◌∷◌, ◌++◌, reverse, arith, ◌==◌, ==_iff, ==_refl, Bool-cases, length, All, All-append,
  Status, success,
}
use flightos.ProcTask.{
  Step, Task, get_pend_step_op_code, next_pend_step_done, set_nmemb, del_all_pending, finish,
  head_code,
}
use flightos.ProcTask.Steps.{IsCoded, del_all_pending_lem}
use flightos.ProcTracker.{
  Tracker, OpFunc, TaskCode, success_code, stop, detach, resched, sortseq, destroy_code, other,
  append_task, put_task, sort_seq,
}
use flightos.ProcNet.{Net, lookup, modify, put_at}
use flightos.ProcNet.Nodes.{lookup-modify, put_task-addr}
use flightos.ProcNet.Process.{
  destination, deliver, route, task_to_next_node, move_on, eval_task, work_in,
}

abbrev pub Coded : Task → Type 0
Coded t = All IsCoded t.todo

-- An operator function that adds no steps, and gives none without an op code.
pub record IsTame (op : OpFunc) : Type 0 where
  pub shrinks : (c : ℕ) (t : Task) → length (op c t).1.todo ≤ length t.todo
  pub codes : (c : ℕ) (t : Task) → Coded t → Coded (op c t).1

pub record IsGood (p : Tracker) : Type 0 where
  pub tame : IsTame p.op
  pub coded : All Coded p.tasks

work_in-append : (ts us : List Task) → work_in (ts ++ us) ≡ work_in ts + work_in us
work_in-append [] us = omega arith
work_in-append (t ∷ ts) us = omega (arith, work_in-append ts us)

-- The node at `a` after some operation: still good, with at most `k` more to do.
abbrev After : ℕ → Tracker → ℕ → List Tracker → Type 0
After a p k nodes =
    (q : Tracker) × (lookup a nodes ≡ some q) × IsGood q × (work_in q.tasks ≤ work_in p.tasks + k)

append_task-IsGood : (p : Tracker) (t : Task) → IsGood p → Coded t → IsGood (append_task p t)
unfolding append_task
append_task-IsGood p t g c = record {
  tame = g.tame;
  coded = All-append Coded p.tasks (t ∷ []) g.coded (c, tt);
}

put_task-IsGood :
    (p : Tracker) (t : Task)
    → IsGood p
    → Coded t
    → IsGood (put_task p t).1
      × (work_in (put_task p t).1.tasks ≤ work_in p.tasks + suc (length t.todo))
unfolding put_task
put_task-IsGood p t g c = elim (Bool-cases (get_pend_step_op_code t == p.op_code)) [
  | inl e ↦ rw e (
    append_task-IsGood p t g c,
    unfold append_task in omega (arith, work_in-append p.tasks (t ∷ [])),
  )
  | inr e ↦ rw e (g, omega arith)
]

put_at-After :
    (a b : ℕ) (p : Tracker) (t : Task) (nodes : List Tracker)
    → lookup a nodes ≡ some p
    → IsGood p
    → Coded t
    → After a p (suc (length t.todo)) (put_at b t nodes)
unfolding put_at
put_at-After a b p t nodes e g c = elim (Bool-cases (b == a)) [
  | inl h ↦
      let (g', w) = put_task-IsGood p t g c in
      (
        (put_task p t).1,
        lookup-modify a b (λ q. (put_task q t).1) nodes (put_task-addr t) ∙ rw (h, e),
        g',
        w,
      )
  | inr h ↦ (
    p,
    lookup-modify a b (λ q. (put_task q t).1) nodes (put_task-addr t) ∙ rw (h, e),
    g,
    omega arith,
  )
]

deliver-After :
    (a k : ℕ) (pn : Net) (p : Tracker) (t : Task) (d : Option ℕ)
    → lookup a pn.nodes ≡ some p
    → IsGood p
    → Coded t
    → suc (length t.todo) ≤ k
    → After a p k (deliver pn t d).1.nodes
deliver-After a k pn p t none e g c h = (p, e, g, omega arith)
deliver-After a k pn p t (some b) e g c h =
    let (q, f, gq, w) = put_at-After a b p t pn.nodes e g c in (q, f, gq, omega arith)

-- Moving a task on takes no more than the task's work, and nothing for a task with no step left.
route-After :
    (a k : ℕ) (pn : Net) (p : Tracker) (t : Task)
    → lookup a pn.nodes ≡ some p
    → IsGood p
    → Coded t
    → (get_pend_step_op_code t ≢ 0 → suc (length t.todo) ≤ k)
    → (r : Status × Net) × (task_to_next_node pn t ≡ some r) × After a p k r.1.nodes
unfolding task_to_next_node
route-After a k pn p t e g c h = elim (Bool-cases (get_pend_step_op_code t == 0)) [
  | inl z ↦
      ((success, record pn { output = (put_task pn.output t).1 }), rw z, (p, e, g, omega arith))
  | inr z ↦ rw z (go pn.nodes refl (h (λ y. cc ((==_iff _ _).1 y))))
]
  where
    go :
        (nodes : List Tracker)
        → pn.nodes ≡ nodes
        → suc (length t.todo) ≤ k
        → (r : Status × Net) × (route pn t (get_pend_step_op_code t) nodes ≡ some r)
          × After a p k r.1.nodes
    go [] f l = absurd (unfold lookup in cc (subst (λ ns. lookup a ns ≡ some p) f e))
    go (n ∷ ns) f l =
        let d = destination (get_pend_step_op_code t) n ns in
        (deliver pn t d, refl, deliver-After a k pn p t d e g c l)

next-Coded : (t : Task) (todo : List Step) → t.todo ≡ todo → Coded t → Coded (finish t todo).1
next-Coded t [] e c = c
next-Coded t (s ∷ rest) e c = (subst (All IsCoded) e c).1

-- Completing a step leaves at least one step less, where one is left.
next-shorter :
    (t : Task)
    → get_pend_step_op_code (next_pend_step_done t).1 ≢ 0
    → suc (length (next_pend_step_done t).1.todo) ≤ length t.todo
unfolding next_pend_step_done get_pend_step_op_code
next-shorter t h = go t.todo refl h
  where
    go :
        (todo : List Step)
        → t.todo ≡ todo
        → head_code (finish t todo).1.todo ≢ 0
        → suc (length (finish t todo).1.todo) ≤ length t.todo
    go [] e n = absurd (n (rw e))
    go (s ∷ rest) e n = omega (arith, ap (λ l. length l) e)

-- What `pn_eval_task_status` leaves to do at the node, where it says that the node may go on.
abbrev Bounded : Net → ℕ → Tracker → Task → TaskCode → Type 0
Bounded pn a p t ret =
    (r : Bool × Net) × (eval_task pn a t ret ≡ some r)
    × (q : Tracker) × (lookup a r.1.nodes ≡ some q)
    × IsGood q
    × (r.0 ≡ true → work_in q.tasks ≤ work_in p.tasks + length t.todo)

move_on-Bounded :
    (pn : Net) (a k : ℕ) (p : Tracker) (continue : Bool) (o : Option (Status × Net))
    → (r : Status × Net) × (o ≡ some r) × After a p k r.1.nodes
    → (r : Bool × Net) × (move_on continue o ≡ some r)
      × (q : Tracker) × (lookup a r.1.nodes ≡ some q)
      × IsGood q
      × (r.0 ≡ true → work_in q.tasks ≤ work_in p.tasks + k)
move_on-Bounded pn a k p continue o ((s, pn'), e, (q, f, g, w)) =
    ((continue, pn'), rw e, q, f, g, λ _. w)

pub eval_task-Bounded :
    (pn : Net) (a : ℕ) (p : Tracker) (t : Task) (ret : TaskCode)
    → lookup a pn.nodes ≡ some p
    → IsGood p
    → Coded t
    → Bounded pn a p t ret
unfolding eval_task
eval_task-Bounded pn a p t success_code e g c = move_on-Bounded pn a (length t.todo) p true _ (
    route-After a (length t.todo) pn p (next_pend_step_done t).1 e g
      (unfold next_pend_step_done in next-Coded t t.todo refl c) (next-shorter t))
eval_task-Bounded pn a p t stop e g c = move_on-Bounded pn a (length t.todo) p false _ (
    route-After a (length t.todo) pn p (next_pend_step_done t).1 e g
      (unfold next_pend_step_done in next-Coded t t.todo refl c) (next-shorter t))
eval_task-Bounded pn a p t detach e g c =
    ((true, record pn { detached = pn.detached ++ (t ∷ []) }), refl, p, e, g, λ _. omega arith)
eval_task-Bounded pn a p t resched e g c =
    let (q, f, gq, w) = put_at-After a a p t pn.nodes e g c in
    ((false, record pn { nodes = put_at a t pn.nodes }), refl, q, f, gq, λ z. cc)
eval_task-Bounded pn a p t sortseq e g c =
    let (q, f, gq, w) = put_at-After a a p t pn.nodes e g c in
    (
      (false, record pn { nodes = modify a sort_seq (put_at a t pn.nodes) }),
      refl,
      q,
      lookup-modify a a sort_seq (put_at a t pn.nodes) (λ _. unfold sort_seq in refl)
          ∙ rw (f, ==_refl a) (unfold sort_seq in refl),
      gq,
      λ z. cc,
    )
eval_task-Bounded pn a p t destroy_code e g c =
    let u : Task = set_nmemb t 0 in
    let u' : Task = record u { todo = []; done = reverse u.todo ++ u.done } in
    let d : del_all_pending u ≡ some u' = del_all_pending_lem u (unfold set_nmemb in c) in
    rw d (
      move_on-Bounded pn a (length t.todo) p true _ (
        route-After a (length t.todo) pn p u' e g tt
          (λ h. absurd (h (unfold get_pend_step_op_code in refl)))))
eval_task-Bounded pn a p t (other n) e g c =
    ((true, record pn { destroyed = pn.destroyed ++ (t ∷ []) }), refl, p, e, g, λ _. omega arith)
