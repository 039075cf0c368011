-- ===== src/ProcNet/Process/Account.antt =====
-- Every round of `pn_process_next`, and so the whole call, accounts for every task.
use flightos.Common.{
  ℕ, zero, suc, ◌+◌, ◌≤◌, ◌≡◌, refl, sym, ap, subst, ◌∙◌, ◌⊎◌, inl, inr, Bool, true, false, Option,
  none, some, List, [], ◌∷◌, arith, ◌==◌, if◌then◌else◌, Bool-cases, of_some, length, All,
}
use flightos.ProcTask.{
  Step, Task, get_pend_step_op_code, next_pend_step_done, set_nmemb, del_pending_loop,
  del_all_pending, finish,
}
use flightos.ProcTracker.{
  Tracker, TaskCode, success_code, stop, detach, resched, sortseq, destroy_code, other, get_task,
  take_first, sort_seq,
}
use flightos.ProcTracker.Queue.{Waits}
use flightos.ProcNet.{Net, lookup, modify, put_at}
use flightos.ProcNet.Nodes.{
  count, count-append, times-modify, All-modify, queued-modify, lookup-All,
}
use flightos.ProcNet.Process.{clear_pending, eval_task, run_op, eval_result, process_task}
use flightos.ProcNet.Process.Conserve.{
  held, one, IsSorted, Kept, Accounts, move_on-Accounts, put_at-Kept, put_at-queued,
}
use flightos.ProcNet.Process.Total.{Taken}

next-addr : (t : Task) (todo : List Step) → (finish t todo).1.addr ≡ t.addr
next-addr t [] = refl
next-addr t (s ∷ rest) = refl

del_pending_loop-addr : (fuel : ℕ) (t u : Task) → del_pending_loop fuel t ≡ some u → u.addr ≡ t.addr
unfolding del_pending_loop next_pend_step_done
del_pending_loop-addr zero t u e = absurd (cc)
del_pending_loop-addr (suc fuel) t u e = elim (Bool-cases (get_pend_step_op_code t == 0)) [
  | inl z ↦ sym (ap (λ (v : Task). v.addr) (of_some (rw z at e)))
  | inr z ↦ del_pending_loop-addr fuel (next_pend_step_done t).1 u (rw z at e) ∙ next-addr t t.todo
]

modify-sort_seq : (a : ℕ) (nodes : List Tracker) → modify a sort_seq nodes ≡ nodes
unfolding modify sort_seq
modify-sort_seq a [] = refl
modify-sort_seq a (p ∷ ps) = elim (Bool-cases (p.addr == a)) [
  | inl e ↦ rw e
  | inr e ↦ rw e (ap (λ l. p ∷ l) (modify-sort_seq a ps))
]

-- The evaluation of a return code accounts for the task, if a rescheduled task waits for the op code
-- of its node.
eval_task-Accounts :
    (x : ℕ) (pn : Net) (a : ℕ) (p : Tracker) (t : Task) (ret : TaskCode) (r : Bool × Net)
    → Kept pn
    → lookup a pn.nodes ≡ some p
    → ((ret ≡ resched) ⊎ (ret ≡ sortseq) → Waits p.op_code t)
    → eval_task pn a t ret ≡ some r
    → Accounts x pn t r.1
unfolding eval_task
eval_task-Accounts x pn a p t success_code r k l w e =
    move_on-Accounts x pn t (next_pend_step_done t).1 true r k
      (unfold next_pend_step_done in next-addr t t.todo) e
eval_task-Accounts x pn a p t stop r k l w e =
    move_on-Accounts x pn t (next_pend_step_done t).1 false r k
      (unfold next_pend_step_done in next-addr t t.todo) e
eval_task-Accounts x pn a p t detach r k l w e =
    subst (λ (r' : Bool × Net). Accounts x pn t r'.1) (of_some e)
      (
        omega (arith, count-append x pn.detached (t ∷ [])),
        (record { distinct = k.0.distinct; reserved = k.0.reserved }, k.1),
      )
eval_task-Accounts x pn a p t resched r k l w e =
    subst (λ (r' : Bool × Net). Accounts x pn t r'.1) (of_some e)
      (omega (arith, put_at-queued x a p t pn.nodes l (w (inl refl))), put_at-Kept a t pn k)
eval_task-Accounts x pn a p t sortseq r k l w e =
    subst (λ (r' : Bool × Net). Accounts x pn t r'.1) (of_some e)
      (rw (modify-sort_seq a (put_at a t pn.nodes))
        (omega (arith, put_at-queued x a p t pn.nodes l (w (inr refl))), put_at-Kept a t pn k))
eval_task-Accounts x pn a p t destroy_code r k l w e = go (del_all_pending (set_nmemb t 0)) refl e
  where
    go :
        (o : Option Task)
        → del_all_pending (set_nmemb t 0) ≡ o
        → clear_pending pn o ≡ some r
        → Accounts x pn t r.1
    go none f g = absurd (cc)
    go (some u) f g =
        move_on-Accounts x pn t u true r k
          (unfold del_all_pending set_nmemb in
            del_pending_loop-addr (suc (length t.todo)) (set_nmemb t 0) u f)
          g
eval_task-Accounts x pn a p t (other c) r k l w e =
    subst (λ (r' : Bool × Net). Accounts x pn t r'.1) (of_some e)
      (
        omega (arith, count-append x pn.destroyed (t ∷ [])),
        (record { distinct = k.0.distinct; reserved = k.0.reserved }, k.1),
      )

pub process_task-Accounts :
    (x : ℕ) (pn : Net) (a : ℕ) (p : Tracker) (t : Task) (r : Bool × Net)
    → Kept pn
    → lookup a pn.nodes ≡ some p
    → Waits p.op_code t
    → process_task pn a t ≡ some r
    → Accounts x pn t r.1
unfolding process_task
process_task-Accounts x pn a p t r k l w e =
    let c = get_pend_step_op_code t in
    let s = lookup-All IsSorted a p pn.nodes l k.1 in
    let (h, k') =
      eval_task-Accounts x pn a p (p.op c t).1 (p.op c t).0 r k l (λ d. s.faithful.again c t d ∙ w)
        (subst (λ o. eval_result pn a (run_op o t) ≡ some r) l e) in
    (h ∙ ap (λ b. held x pn + (if b == x then 1 else 0)) (s.faithful.same c t), k')

get_task-addr : (p : Tracker) → (get_task p).1.addr ≡ p.addr
unfolding get_task
get_task-addr p = go p.tasks
  where
    go : (ts : List Task) → (take_first p ts).1.addr ≡ p.addr
    go [] = refl
    go (t ∷ ts) = refl

get_task-IsSorted : (p : Tracker) → IsSorted p → IsSorted (get_task p).1
unfolding get_task
get_task-IsSorted p s = go p.tasks s.waiting
  where
    go : (ts : List Task) → All (Waits p.op_code) ts → IsSorted (take_first p ts).1
    go [] w = s
    go (t ∷ ts) w = record { faithful = s.faithful; waiting = w.1 }

-- The network without the first task of a node.
pub Taken-Accounts :
    (x : ℕ) (pn : Net) (a : ℕ) (p : Tracker) (t : Task) (ts : List Task)
    → Kept pn
    → lookup a pn.nodes ≡ some p
    → p.tasks ≡ t ∷ ts
    → (held x (Taken pn a) + one x t ≡ held x pn) × Kept (Taken pn a)
Taken-Accounts x pn a p t ts k l e = (
  omega (
    arith,
    queued-modify x a (λ q. (get_task q).1) p pn.nodes l,
    ap (count x) e,
    ap (count x) tail,
  ),
  (
    record {
      distinct = λ b.
          subst (λ n. n ≤ 1) (sym (times-modify b a (λ q. (get_task q).1) pn.nodes get_task-addr))
            (k.0.distinct b);
      reserved = k.0.reserved;
    },
    All-modify IsSorted a (λ q. (get_task q).1) pn.nodes get_task-IsSorted k.1,
  ),
)
  where
    tail : (get_task p).1.tasks ≡ ts
    tail = unfold get_task in rw (e, take_first)

pub get_task-code : (p : Tracker) → (get_task p).1.op_code ≡ p.op_code
unfolding get_task
get_task-code p = go p.tasks
  where
    go : (ts : List Task) → (take_first p ts).1.op_code ≡ p.op_code
    go [] = refl
    go (t ∷ ts) = refl

pub get_task-none : (p : Tracker) → p.tasks ≡ [] → (get_task p).1 ≡ p
unfolding get_task
get_task-none p e = ap (λ ts. (take_first p ts).1) e
