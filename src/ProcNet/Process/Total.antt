-- ===== src/ProcNet/Process/Total.antt =====
-- The loop of `pn_process_next` ends: every round leaves less to do at the node.
use flightos.Common.{
  ℕ, zero, suc, ◌+◌, ◌≤◌, ◌<◌, ◌≡◌, refl, ap, subst, ◌∙◌, inl, inr, Bool, true, false, Option, none,
  some, List, [], ◌∷◌, ◌++◌, arith, ◌==◌, ==_refl, Bool-cases, length, All, All-append,
  All-append_left, All-append_right,
}
use native.Mathlib.Nat.{le_trans}
use Prim.Native.Nat.{suc-le-suc}
use flightos.ProcTask.{Task, get_pend_step_op_code}
use flightos.ProcTracker.{Tracker, get_task, take_first}
use flightos.ProcNet.{Net, lookup, modify, get_next_pending_tracker}
use flightos.ProcNet.Nodes.{lookup-modify}
use flightos.ProcNet.Rotate.{Picks, get_next_pending_tracker_lem}
use flightos.ProcNet.Rotate.Same.{All-queue_critical}
use flightos.ProcNet.Process.{
  work_of, take_at, get_next_pending_task, process_task, process_loop, after_task, loop_round,
  work_in, work_at, process_from, process_next,
}
use flightos.ProcNet.Process.Ending.{Coded, IsGood, eval_task-Bounded}

pub take_at-lookup :
    (a : ℕ) (pn : Net) (p : Tracker)
    → lookup a pn.nodes ≡ some p
    → lookup a (take_at pn a (some p)).1.nodes ≡ some (get_task p).1
unfolding get_task
take_at-lookup a pn p e =
    lookup-modify a a (λ q. (get_task q).1) pn.nodes (λ q. get_task-addr q q.tasks)
    ∙ rw (e, ==_refl a)
  where
    get_task-addr : (q : Tracker) (ts : List Task) → (take_first q ts).1.addr ≡ q.addr
    get_task-addr q [] = refl
    get_task-addr q (t ∷ ts) = refl

-- The network when the node at `a` has given its first task.
abbrev pub Taken : Net → ℕ → Net
Taken pn a = record pn { nodes = modify a (λ q. (get_task q).1) pn.nodes }

process_task-Bounded :
    (pn : Net) (a : ℕ) (p : Tracker) (t : Task)
    → lookup a pn.nodes ≡ some p
    → IsGood p
    → Coded t
    → (r : Bool × Net) × (process_task pn a t ≡ some r)
      × (q : Tracker) × (lookup a r.1.nodes ≡ some q)
      × IsGood q
      × (r.0 ≡ true → work_in q.tasks ≤ work_in p.tasks + length t.todo)
unfolding process_task
process_task-Bounded pn a p t e g c =
    let c' = get_pend_step_op_code t in
    let (r, f, q, l, gq, w) =
      eval_task-Bounded pn a p (p.op c' t).1 (p.op c' t).0 e g (g.tame.codes c' t c) in
    (r, rw e f, q, l, gq, λ z. le_trans (w z) (omega (arith, g.tame.shrinks c' t)))

get_task-IsGood :
    (p : Tracker) (t : Task) (ts : List Task)
    → p.tasks ≡ t ∷ ts
    → IsGood p
    → ((get_task p).0 ≡ some t) × IsGood (get_task p).1 × ((get_task p).1.tasks ≡ ts) × Coded t
unfolding get_task
get_task-IsGood p t ts e g =
    let c : All Coded (t ∷ ts) = subst (All Coded) e g.coded in
    rw (e, take_first) (refl, record { tame = g.tame; coded = c.1 }, refl, c.0)

pub get_next-none :
    (pn : Net) (a : ℕ) (p : Tracker)
    → lookup a pn.nodes ≡ some p
    → p.tasks ≡ []
    → get_next_pending_task pn a ≡ (none, Taken pn a)
unfolding get_next_pending_task get_task
get_next-none pn a p e f = ap (take_at pn a) e ∙ rw (f, take_first)

pub get_next-some :
    (pn : Net) (a : ℕ) (p : Tracker) (t : Task) (ts : List Task)
    → lookup a pn.nodes ≡ some p
    → p.tasks ≡ t ∷ ts
    → get_next_pending_task pn a ≡ (some t, Taken pn a)
unfolding get_next_pending_task get_task
get_next-some pn a p t ts e f = ap (take_at pn a) e ∙ rw (f, take_first)

abbrev Total : ℕ → ℕ → Type 0
Total a fuel =
    (pn : Net) (cnt : ℕ) (p : Tracker)
    → lookup a pn.nodes ≡ some p
    → IsGood p
    → work_in p.tasks < fuel
    → (r : ℕ × Net) × (process_loop fuel a pn cnt ≡ some r)

-- One round, if the remaining fuel is enough for what is then left.
process_loop_step : (a fuel : ℕ) → Total a fuel → Total a (suc fuel)
unfolding process_loop
process_loop_step a fuel ih pn cnt p e g h = go p.tasks refl
  where
    goes_on :
        (b : Bool) (pn' : Net) (q : Tracker)
        → lookup a pn'.nodes ≡ some q
        → IsGood q
        → (b ≡ true → work_in q.tasks < fuel)
        → (x : ℕ × Net) × (after_task (process_loop fuel a) cnt (some (b, pn')) ≡ some x)
    goes_on true pn' q l gq w = ih pn' (suc cnt) q l gq (w refl)
    goes_on false pn' q l gq w = ((suc cnt, pn'), refl)

    go :
        (ts : List Task)
        → p.tasks ≡ ts
        → (r : ℕ × Net) × (process_loop (suc fuel) a pn cnt ≡ some r)
    go [] f =
        ((cnt, Taken pn a), ap (loop_round (process_loop fuel a) a cnt) (get_next-none pn a p e f))
    go (t ∷ ts) f =
        let (first, g1, tail, c) = get_task-IsGood p t ts f g in
        let (r, ev, q, l, gq, w) =
          process_task-Bounded (Taken pn a) a (get_task p).1 t (take_at-lookup a pn p e) g1 c in
        let (x, d) =
          goes_on r.0 r.1 q l gq
            (λ z. le_trans (suc-le-suc (w z)) (omega (arith, ap work_in f, ap work_in tail))) in
        (
          x,
          ap (loop_round (process_loop fuel a) a cnt) (get_next-some pn a p t ts e f)
              ∙ (ap (after_task (process_loop fuel a) cnt) ev ∙ d),
        )

process_loop-Total : (a fuel : ℕ) → Total a fuel
process_loop-Total a zero = λ pn cnt p e g h. absurd (omega arith)
process_loop-Total a (suc fuel) = process_loop_step a fuel (process_loop-Total a fuel)

-- `process_next` gives its loop enough fuel.
process_from_total :
    (pn : Net) (a : ℕ) (p : Tracker)
    → lookup a pn.nodes ≡ some p
    → IsGood p
    → (r : ℕ × Net) × (process_from (some a, pn) ≡ some r)
unfolding work_at
process_from_total pn a p e g =
    process_loop-Total a (suc (work_at a pn.nodes)) pn 0 p e g (omega (arith, ap work_of e))

lookup_last :
    (ns : List Tracker) (p : Tracker)
    → All IsGood ns
    → IsGood p
    → (q : Tracker) × (lookup p.addr (ns ++ (p ∷ [])) ≡ some q) × IsGood q
unfolding lookup
lookup_last [] p h g = (p, rw (==_refl p.addr), g)
lookup_last (n ∷ ns) p h g = elim (Bool-cases (n.addr == p.addr)) [
  | inl e ↦ (n, rw e, h.0)
  | inr e ↦ let (q, f, gq) = lookup_last ns p h.1 g in (q, rw e f, gq)
]

-- `pn_process_next` ends, and reads no memory that is no node: if `n` counts the nodes, no operator
-- function adds steps to a task, or steps without op code, and no queued task has such a step.
pub process_next_total :
    (pn : Net)
    → pn.n ≡ length pn.nodes
    → All IsGood pn.nodes
    → (r : ℕ × Net) × (process_next pn ≡ some r)
unfolding process_next
process_next_total pn e g =
    go (get_next_pending_tracker pn).0 (get_next_pending_tracker pn).1
      (get_next_pending_tracker_lem pn e)
  where
    go :
        (a : Option ℕ) (pn' : Net)
        → Picks pn (a, pn')
        → (r : ℕ × Net) × (process_from (a, pn') ≡ some r)
    go a pn' (inl (f, h)) = rw f ((0, pn'), refl)
    go a pn' (inr (pre, p, post, q, hi, hb, f, ns)) =
        let good : All IsGood (pre ++ p ∷ post) =
          subst (All IsGood) q (All-queue_critical IsGood pn.nodes g) in
        let good_post = All-append_right IsGood pre (p ∷ post) good in
        let (x, l, gx) =
          lookup_last (post ++ pre) p
            (All-append IsGood post pre good_post.1 (All-append_left IsGood pre (p ∷ post) good))
            good_post.0 in
        rw f (process_from_total pn' p.addr x (rw ns l) gx)
