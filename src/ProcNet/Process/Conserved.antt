-- ===== src/ProcNet/Process/Conserved.antt =====
-- The loop of `pn_process_next`, and the whole call, account for every task.
use flightos.Common.{
  ℕ, zero, suc, ◌+◌, ◌≤◌, ◌≡◌, refl, sym, ap, subst, ◌∙◌, Bool, true, false, Option, none, some,
  List, [], ◌∷◌, arith, of_some, All,
}
use flightos.ProcTask.{Task}
use flightos.ProcTracker.{Tracker, get_task}
use flightos.ProcTracker.Queue.{Waits}
use flightos.ProcNet.{Net, lookup, get_next_pending_tracker}
use flightos.ProcNet.Nodes.{count, queued-modify, lookup-All}
use flightos.ProcNet.Rotate.Same.{get_next-same, All-get_next}
use flightos.ProcNet.Process.{
  work_at, take_at, get_next_pending_task, process_task, process_loop, after_task, loop_round,
  process_from, process_next,
}
use flightos.ProcNet.Process.Conserve.{held, one, IsWired, IsSorted, Kept, Accounts}
use flightos.ProcNet.Process.Total.{Taken, take_at-lookup, get_next-some, get_next-none}
use flightos.ProcNet.Process.Account.{
  process_task-Accounts, Taken-Accounts, get_task-code, get_task-none,
}

abbrev Conserves : ℕ → ℕ → Type 0
Conserves a fuel =
    (pn : Net) (cnt : ℕ) (r : ℕ × Net)
    → Kept pn
    → process_loop fuel a pn cnt ≡ some r
    → (x : ℕ) → held x r.1 ≡ held x pn

process_loop_step : (a fuel : ℕ) → Conserves a fuel → Conserves a (suc fuel)
unfolding process_loop get_next_pending_task
process_loop_step a fuel ih pn cnt r k e x = found (lookup a pn.nodes) refl
  where
    goes_on :
        (o : Option (Bool × Net)) (t : Task)
        → ((s : Bool × Net) → o ≡ some s → Accounts x (Taken pn a) t s.1)
        → after_task (process_loop fuel a) cnt o ≡ some r
        → held x r.1 ≡ held x (Taken pn a) + one x t
    goes_on none t h g = absurd (cc)
    goes_on (some (true, pn')) t h g =
        let (d, k') = h (true, pn') refl in ih pn' (suc cnt) r k' g x ∙ d
    goes_on (some (false, pn')) t h g =
        sym (ap (λ (r' : ℕ × Net). held x r'.1) (of_some g)) ∙ (h (false, pn') refl).0

    waits :
        (p : Tracker) (t : Task) (ts : List Task)
        → lookup a pn.nodes ≡ some p
        → p.tasks ≡ t ∷ ts
        → Waits p.op_code t
    waits p t ts l f =
        (subst (All (Waits p.op_code)) f (lookup-All IsSorted a p pn.nodes l k.1).waiting).0

    queue :
        (p : Tracker) (ts : List Task)
        → lookup a pn.nodes ≡ some p
        → p.tasks ≡ ts
        → held x r.1 ≡ held x pn
    queue p [] l f =
        sym (
          ap (λ (r' : ℕ × Net). held x r'.1)
            (of_some (
              subst (λ o. loop_round (process_loop fuel a) a cnt o ≡ some r)
                (get_next-none pn a p l f) e)))
        ∙ omega (
          arith,
          queued-modify x a (λ q. (get_task q).1) p pn.nodes l,
          ap (λ (q : Tracker). count x q.tasks) (get_task-none p f),
        )
    queue p (t ∷ ts) l f =
        let (d, k') = Taken-Accounts x pn a p t ts k l f in
        goes_on (process_task (Taken pn a) a t) t
          (λ s h.
            process_task-Accounts x (Taken pn a) a (get_task p).1 t s k' (take_at-lookup a pn p l)
              (waits p t ts l f ∙ sym (get_task-code p)) h)
          (subst (λ o. loop_round (process_loop fuel a) a cnt o ≡ some r)
            (get_next-some pn a p t ts l f) e)
        ∙ d

    found : (o : Option Tracker) → lookup a pn.nodes ≡ o → held x r.1 ≡ held x pn
    found none l = sym (
        ap (λ (r' : ℕ × Net). held x r'.1)
          (of_some
            (subst (λ o. loop_round (process_loop fuel a) a cnt (take_at pn a o) ≡ some r) l e)))
    found (some p) l = queue p p.tasks l refl

process_loop-Conserves : (a fuel : ℕ) → Conserves a fuel
process_loop-Conserves a zero = λ pn cnt r k e x. absurd (unfold process_loop in cc e)
process_loop-Conserves a (suc fuel) = process_loop_step a fuel (process_loop-Conserves a fuel)

picked-Kept : (pn : Net) → Kept pn → Kept (get_next_pending_tracker pn).1
picked-Kept pn (w, s) = (
  record {
    distinct = λ b. subst (λ n. n ≤ 1) (sym (get_next-same b pn).1) (w.distinct b);
    reserved = ap (λ (q : Net). q.output.op_code) (get_next-same 0 pn).2 ∙ w.reserved;
  },
  All-get_next IsSorted pn s,
)

picked-held : (x : ℕ) (pn : Net) → held x (get_next_pending_tracker pn).1 ≡ held x pn
picked-held x pn = let (q, _, e) = get_next-same x pn in ap (held x) e ∙ omega (arith, q)

process_from_conserves :
    (a : Option ℕ) (pn : Net) (r : ℕ × Net)
    → Kept pn
    → process_from (a, pn) ≡ some r
    → (x : ℕ) → held x r.1 ≡ held x pn
process_from_conserves none pn r k e x = sym (ap (λ (r' : ℕ × Net). held x r'.1) (of_some e))
process_from_conserves (some a) pn r k e x =
    process_loop-Conserves a (suc (work_at a pn.nodes)) pn 0 r k e x

-- A call of `pn_process_next` that returns conserves the tasks: each one is afterwards queued, or in the
-- log, as often as before. It is so if the nodes have distinct addresses and hold tasks for their op
-- codes, the output node has its reserved op code, and the operator functions are faithful to their
-- tasks and reschedule one for the step that it was queued for.
pub process_next_conserves :
    (pn : Net) (r : ℕ × Net)
    → IsWired pn
    → All IsSorted pn.nodes
    → process_next pn ≡ some r
    → (x : ℕ) → held x r.1 ≡ held x pn
unfolding process_next
process_next_conserves pn r w s e x =
    process_from_conserves (get_next_pending_tracker pn).0 (get_next_pending_tracker pn).1 r
      (picked-Kept pn (w, s)) e x
    ∙ picked-held x pn
