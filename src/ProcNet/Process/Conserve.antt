-- ===== src/ProcNet/Process/Conserve.antt =====
-- Processing loses no task and makes none up.
use flightos.Common.{
  ℕ, ◌+◌, ◌≤◌, ◌≡◌, refl, sym, ap, subst, ◌∙◌, ◌⊎◌, inl, inr, Bool, Option, none, some, List, [],
  ◌∷◌, arith, ◌==◌, if◌then◌else◌, ==_iff, Bool-cases, of_some, All, All-append, Status, success,
}
use flightos.ProcTask.{Task, get_pend_step_op_code}
use flightos.ProcTracker.{Tracker, append_task, put_task}
use flightos.ProcTracker.Queue.{Waits}
use flightos.ProcNet.{sortseq, resched, OpFunc, Net, lookup, put_at}
use flightos.ProcNet.Nodes.{
  All-modify, put_task-addr, times-modify, times, count, queued, count-append, queued-modify,
  lookup_unique, find_tracker-split,
}
use flightos.ProcNet.Process.{move_on, destination, deliver, route, task_to_next_node}

-- How often the task at the address `x` is somewhere: queued, or in the log.
abbrev pub held : ℕ → Net → ℕ
held x pn =
    queued x pn.nodes
    + count x pn.input.tasks
    + count x pn.output.tasks
    + count x pn.destroyed
    + count x pn.detached
    + count x pn.emitted

-- Node addresses are distinct, and the output node has its reserved op code.
pub record IsWired (pn : Net) : Type 0 where
  pub distinct : (a : ℕ) → times a pn.nodes ≤ 1
  pub reserved : pn.output.op_code ≡ 0

abbrev pub one : ℕ → Task → ℕ
one x t = if t.addr == x then 1 else 0

put_task-count :
    (x : ℕ) (p : Tracker) (t : Task)
    → Waits p.op_code t
    → count x (put_task p t).1.tasks ≡ count x p.tasks + one x t
unfolding put_task append_task
put_task-count x p t w =
    rw ((==_iff (get_pend_step_op_code t) p.op_code).1 w)
      (omega (arith, count-append x p.tasks (t ∷ [])))

pub put_at-queued :
    (x a : ℕ) (p : Tracker) (t : Task) (nodes : List Tracker)
    → lookup a nodes ≡ some p
    → Waits p.op_code t
    → queued x (put_at a t nodes) ≡ queued x nodes + one x t
unfolding put_at
put_at-queued x a p t nodes e w =
    omega (arith, queued-modify x a (λ q. (put_task q t).1) p nodes e, put_task-count x p t w)

-- The address that a task is sent to holds a node for its next step.
destination-lookup :
    (op a : ℕ) (p : Tracker) (ps : List Tracker)
    → ((b : ℕ) → times b (p ∷ ps) ≤ 1)
    → destination op p ps ≡ some a
    → (q : Tracker) × (lookup a (p ∷ ps) ≡ some q) × (q.op_code ≡ op)
destination-lookup op a p ps d e = elim (Bool-cases (p.op_code == op)) [
  | inl g ↦
      let f : p.addr ≡ a = of_some (rw g at e) in
      (
        p,
        subst (λ b. lookup b (p ∷ ps) ≡ some p) f (lookup_unique [] p ps (d p.addr)),
        (==_iff _ _).0 g,
      )
  | inr g ↦
      let (pre, q, post, f, h, c) = find_tracker-split op a (p ∷ ps) (rw g at e) in
      (
        q,
        subst (λ b. lookup b (p ∷ ps) ≡ some q) h
            (subst (λ l. lookup q.addr l ≡ some q) (sym f)
              (lookup_unique pre q post (subst (λ l. times q.addr l ≤ 1) f (d q.addr)))),
        c,
      )
]

route-held :
    (x : ℕ) (pn : Net) (t : Task) (r : Status × Net)
    → IsWired pn
    → task_to_next_node pn t ≡ some r
    → held x r.1 ≡ held x pn + one x t
unfolding task_to_next_node
route-held x pn t r w e = elim (Bool-cases (get_pend_step_op_code t == 0)) [
  | inl z ↦
      let f : (success, record pn { output = (put_task pn.output t).1 }) ≡ r =
        of_some (rw z at e) in
      let c : Waits pn.output.op_code t = (==_iff _ _).0 z ∙ sym w.reserved in
      subst (λ (r' : Status × Net). held x r'.1 ≡ held x pn + one x t) f
        (omega (arith, put_task-count x pn.output t c))
  | inr z ↦ go pn.nodes refl (rw z at e)
]
  where
    sent :
        (d : Option ℕ)
        → ((a : ℕ)
            → d ≡ some a
            → (q : Tracker) × (lookup a pn.nodes ≡ some q) × (q.op_code ≡ get_pend_step_op_code t))
        → held x (deliver pn t d).1 ≡ held x pn + one x t
    sent none h = omega (arith, count-append x pn.destroyed (t ∷ []))
    sent (some a) h =
        let (q, l, c) = h a refl in omega (arith, put_at-queued x a q t pn.nodes l (sym c))

    go :
        (nodes : List Tracker)
        → pn.nodes ≡ nodes
        → route pn t (get_pend_step_op_code t) nodes ≡ some r
        → held x r.1 ≡ held x pn + one x t
    go [] f g = absurd (cc)
    go (n ∷ ns) f g =
        subst (λ (r' : Status × Net). held x r'.1 ≡ held x pn + one x t) (of_some g)
          (sent (destination (get_pend_step_op_code t) n ns) (λ a h.
            subst
              (λ l. (q : Tracker) × (lookup a l ≡ some q) × (q.op_code ≡ get_pend_step_op_code t))
              (sym f)
              (destination-lookup (get_pend_step_op_code t) a n ns
                (subst (λ l. (b : ℕ) → times b l ≤ 1) f w.distinct) h)))

-- An operator function that works on the task it is given, and that reschedules it for the step that
-- it was queued for.
pub record IsFaithful (op : OpFunc) : Type 0 where
  pub same : (c : ℕ) (t : Task) → (op c t).1.addr ≡ t.addr
  pub again :
      (c : ℕ) (t : Task)
      → ((op c t).0 ≡ resched) ⊎ ((op c t).0 ≡ sortseq)
      → get_pend_step_op_code (op c t).1 ≡ get_pend_step_op_code t

pub record IsSorted (p : Tracker) : Type 0 where
  pub faithful : IsFaithful p.op
  pub waiting : All (Waits p.op_code) p.tasks

-- The network is wired, and every node holds tasks for its op code.
abbrev pub Kept : Net → Type 0
Kept pn = IsWired pn × All IsSorted pn.nodes

put_task-IsSorted : (t : Task) (p : Tracker) → IsSorted p → IsSorted (put_task p t).1
unfolding put_task append_task
put_task-IsSorted t p s = elim (Bool-cases (get_pend_step_op_code t == p.op_code)) [
  | inl e ↦ rw e (record {
    faithful = s.faithful;
    waiting = All-append (Waits p.op_code) p.tasks (t ∷ []) s.waiting ((==_iff _ _).0 e, tt);
  })
  | inr e ↦ rw e s
]

pub put_at-Kept :
    (a : ℕ) (t : Task) (pn : Net) → Kept pn → Kept (record pn { nodes = put_at a t pn.nodes })
unfolding put_at
put_at-Kept a t pn (w, s) = (
  record {
    distinct = λ b.
        subst (λ k. k ≤ 1)
          (sym (times-modify b a (λ q. (put_task q t).1) pn.nodes (put_task-addr t)))
          (w.distinct b);
    reserved = w.reserved;
  },
  All-modify IsSorted a (λ q. (put_task q t).1) pn.nodes (put_task-IsSorted t) s,
)

put_task-code : (t : Task) (p : Tracker) → (put_task p t).1.op_code ≡ p.op_code
unfolding put_task append_task
put_task-code t p = ground arith

route-Kept :
    (pn : Net) (t : Task) (r : Status × Net) → Kept pn → task_to_next_node pn t ≡ some r → Kept r.1
unfolding task_to_next_node
route-Kept pn t r (w, s) e = elim (Bool-cases (get_pend_step_op_code t == 0)) [
  | inl z ↦
      subst (λ (r' : Status × Net). Kept r'.1) (of_some (rw z at e))
        (record { distinct = w.distinct; reserved = put_task-code t pn.output ∙ w.reserved }, s)
  | inr z ↦ go pn.nodes (rw z at e)
]
  where
    sent : (d : Option ℕ) → Kept (deliver pn t d).1
    sent none = (record { distinct = w.distinct; reserved = w.reserved }, s)
    sent (some a) = put_at-Kept a t pn (w, s)

    go : (nodes : List Tracker) → route pn t (get_pend_step_op_code t) nodes ≡ some r → Kept r.1
    go [] g = absurd (cc)
    go (n ∷ ns) g =
        subst (λ (r' : Status × Net). Kept r'.1) (of_some g)
          (sent (destination (get_pend_step_op_code t) n ns))

-- What a round owes: the task `t` is accounted for, and the network stays as it should be.
abbrev pub Accounts : ℕ → Net → Task → Net → Type 0
Accounts x pn t pn' = (held x pn' ≡ held x pn + one x t) × Kept pn'

pub move_on-Accounts :
    (x : ℕ) (pn : Net) (t u : Task) (continue : Bool) (r : Bool × Net)
    → Kept pn
    → u.addr ≡ t.addr
    → move_on continue (task_to_next_node pn u) ≡ some r
    → Accounts x pn t r.1
move_on-Accounts x pn t u continue r k a e = go (task_to_next_node pn u) refl e
  where
    go :
        (o : Option (Status × Net))
        → task_to_next_node pn u ≡ o
        → move_on continue o ≡ some r
        → Accounts x pn t r.1
    go none f g = absurd (cc)
    go (some (s, pn')) f g =
        subst (λ (r' : Bool × Net). Accounts x pn t r'.1) (of_some g)
          (
            route-held x pn u (s, pn') k.0 f ∙ ap (λ b. held x pn + (if b == x then 1 else 0)) a,
            route-Kept pn u (s, pn') k f,
          )
