-- ===== src/ProcTask/Steps.antt =====
-- The order in which the steps of a task are done, undone and added.
use flightos.Common.{
  ℕ, zero, suc, ◌+◌, ◌<◌, ◌≡◌, ◌≢◌, refl, sym, ap, ◌∙◌, some, List, [], ◌∷◌, ◌++◌, reverse,
  append_assoc, arith, length, All, success, einval, enomem, ◌↔◌, ◌≤◌, map, append-nil,
}
use mathlib.Core.List.{reverse-cons, map-append}
use flightos.ProcTask.{
  Step, Task, rewind_loop, rewind_steps_done, next_pend_step_done, get_pend_step_op_code,
  del_pending_loop, del_all_pending, add_step,
}

pub rewind_loop-reverse : (done todo : List Step) → rewind_loop done todo ≡ reverse done ++ todo
unfolding rewind_loop
rewind_loop-reverse [] todo = refl
rewind_loop-reverse (s ∷ done) todo =
    rewind_loop-reverse done (s ∷ todo)
    ∙ sym (rw (reverse-cons s done) (append_assoc (reverse done) (s ∷ []) todo))

rewind-next :
    (t : Task) (todo : List Step)
    → t.todo ≡ todo
    → rewind_steps_done (next_pend_step_done t).1 ≡ rewind_steps_done t
unfolding rewind_steps_done next_pend_step_done
rewind-next t [] e = ground arith
rewind-next t (s ∷ rest) e = ground arith

-- `n` calls of `pt_next_pend_step_done`
unfoldable pub run_steps : ℕ → Task → Task
run_steps zero t = t
run_steps (suc n) t = run_steps n (next_pend_step_done t).1

-- Rewinding after any number of completed steps gives the task that rewinding before them gives:
-- every completed step is back in `todo`, in its original place.
pub rewind-run_steps : (n : ℕ) (t : Task) → rewind_steps_done (run_steps n t) ≡ rewind_steps_done t
unfolding run_steps
rewind-run_steps zero t = refl
rewind-run_steps (suc n) t =
    rewind-run_steps n (next_pend_step_done t).1 ∙ rewind-next t t.todo refl

abbrev pub IsCoded : Step → Type 0
IsCoded s = s.op_code ≢ 0

del_pending_loop_lem :
    (todo : List Step) (fuel : ℕ) (t : Task)
    → t.todo ≡ todo
    → All IsCoded todo
    → length todo < fuel
    → del_pending_loop fuel t ≡ some (record t { todo = []; done = rewind_loop todo t.done })
unfolding del_pending_loop get_pend_step_op_code next_pend_step_done rewind_loop
del_pending_loop_lem todo zero t e h lt = absurd (omega arith)
del_pending_loop_lem [] (suc fuel) t e h lt = ground arith
del_pending_loop_lem (s ∷ rest) (suc fuel) t e h lt = ground (
  arith,
  del_pending_loop_lem rest fuel (record t { todo = rest; done = s ∷ t.done }) refl h.1,
  h.0,
)

-- If every pending step has a nonzero op code, `pt_del_all_pending` ends, and moves every pending
-- step to the done list, the last one first; the free list stays as it is.
pub del_all_pending_lem :
    (t : Task)
    → All IsCoded t.todo
    → del_all_pending t ≡ some (record t { todo = []; done = reverse t.todo ++ t.done })
unfolding del_all_pending
del_all_pending_lem t h =
    del_pending_loop_lem t.todo (suc (length t.todo)) t refl h (omega arith)
    ∙ ap (λ d. some (record t { todo = []; done = d })) (rewind_loop-reverse t.todo t.done)

-- `pt_add_step` succeeds exactly for a nonzero op code and a free step left, reports which of the
-- two fails, and changes nothing where it does not succeed.
pub add_step_cases :
    (t : Task) (op_code op_info : ℕ)
    → let (s, u) = add_step t op_code op_info in
      ((s ≡ success) ↔ ((op_code ≢ 0) × (t.free ≢ [])))
      × ((s ≡ einval) ↔ (op_code ≡ 0))
      × ((s ≡ enomem) ↔ ((op_code ≢ 0) × (t.free ≡ [])))
      × (s ≢ success → u ≡ t)
unfolding add_step
add_step_cases t op_code op_info = ground arith

abbrev pub work : List Step → List (ℕ × ℕ)
work = map (λ s. (s.op_code, s.op_info))

unfoldable pub add_steps : Task → List (ℕ × ℕ) → Task
add_steps t [] = t
add_steps t ((op_code, op_info) ∷ ps) = add_steps (add_step t op_code op_info).1 ps

add_step_lem :
    (t : Task) (op_code op_info : ℕ) (free : List Step)
    → t.free ≡ free
    → op_code ≢ 0
    → 0 < length free
    → (work (add_step t op_code op_info).1.todo ≡ work t.todo ++ ((op_code, op_info) ∷ []))
      × (length (add_step t op_code op_info).1.free + 1 ≡ length free)
unfolding add_step
add_step_lem t op_code op_info [] e h k = absurd (omega arith)
add_step_lem t op_code op_info (s ∷ rest) e h k = ground (
  arith,
  map-append {B = ℕ × ℕ} (λ (s' : Step). (s'.op_code, s'.op_info)) t.todo
      (record s { op_code = op_code; op_info = op_info } ∷ []),
)

-- While free steps are left, the pending work is what was added, in the order of the calls, behind
-- what was pending before.
pub work-add_steps :
    (t : Task) (ps : List (ℕ × ℕ))
    → All (λ (p : ℕ × ℕ). p.0 ≢ 0) ps
    → length ps ≤ length t.free
    → work (add_steps t ps).todo ≡ work t.todo ++ ps
unfolding add_steps
work-add_steps t [] h k = sym (append-nil (work t.todo))
work-add_steps t ((op_code, op_info) ∷ ps) h k =
    let (e, f) = add_step_lem t op_code op_info t.free refl h.0 (omega arith) in
    work-add_steps (add_step t op_code op_info).1 ps h.1 (omega arith)
    ∙ (ap (λ w. w ++ ps) e ∙ append_assoc (work t.todo) ((op_code, op_info) ∷ []) ps)
