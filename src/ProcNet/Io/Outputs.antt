-- ===== src/ProcNet/Io/Outputs.antt =====
-- `pn_process_outputs` empties the output node.
use flightos.Common.{
  ℕ, zero, suc, ◌+◌, ◌-◌, ◌%◌, ◌≤◌, ◌<◌, ◌≡◌, refl, sym, ap, ap₂, ◌∙◌, Option, some, List, [], ◌∷◌,
  ◌++◌, append-nil, append_assoc, arith, word, length,
}
use flightos.ProcTask.{Task}
use flightos.ProcTracker.{Tracker, get_task, take_first}
use flightos.ProcNet.{Net}
use flightos.ProcNet.Io.{outputs_round, returned, outputs_loop, process_outputs}

-- The network, when the tasks `ts` of its output node have been handed out: nothing else of it differs.
abbrev pub Drained : Net → List Task → Net → Type 0
Drained pn ts pn' =
    (pn' ≡ record pn {
      output = record pn.output { tasks = []; n_tasks = pn'.output.n_tasks };
      emitted = pn.emitted ++ ts;
    })
    × (length ts ≤ pn.output.n_tasks
        → pn.output.n_tasks < word
        → pn'.output.n_tasks ≡ pn.output.n_tasks - length ts)

outputs_loop_lem :
    (ts : List Task) (fuel : ℕ) (pn : Net) (k : ℕ)
    → pn.output.tasks ≡ ts
    → length ts < fuel
    → (pn' : Net) × (outputs_loop fuel pn k ≡ some (k + length ts, pn')) × Drained pn ts pn'
unfolding outputs_loop get_task
outputs_loop_lem ts zero pn k e h = absurd (omega arith)
outputs_loop_lem [] (suc fuel) pn k e h = (
  pn,
  ap (λ ts. outputs_round (outputs_loop fuel) pn k (take_first pn.output ts)) e
      ∙ ap (λ z. some (z, pn)) (omega arith),
  (
    ap₂ (λ ts es. record pn { output = record pn.output { tasks = ts }; emitted = es }) e
        (sym (append-nil pn.emitted)),
    λ l w. omega arith,
  ),
)
outputs_loop_lem (t ∷ rest) (suc fuel) pn k e h =
    let output : Tracker = (take_first pn.output (t ∷ rest)).1 in
    let (pn', f, (o, n)) =
      outputs_loop_lem rest fuel (record pn { output = output; emitted = pn.emitted ++ (t ∷ []) })
        (suc k) refl (omega arith) in
    (
      pn',
      ap (λ ts. outputs_round (outputs_loop fuel) pn k (take_first pn.output ts)) e
          ∙ (f ∙ ap (λ z. some (z, pn')) (omega arith)),
      (
        o
            ∙ ap
                (λ es. record pn {
                  output = record pn.output { tasks = []; n_tasks = pn'.output.n_tasks };
                  emitted = es;
                })
                (append_assoc pn.emitted (t ∷ []) rest),
        λ l w. one_less l w pn'.output.n_tasks (n (room l w) (omega arith)),
      ),
    )
  where
    wrapped : ℕ
    wrapped = (pn.output.n_tasks + word - 1) % word

    room : suc (length rest) ≤ pn.output.n_tasks → pn.output.n_tasks < word → length rest ≤ wrapped
    room l w = omega (arith, l, w)

    one_less :
        suc (length rest) ≤ pn.output.n_tasks
        → pn.output.n_tasks < word
        → (k : ℕ) → k ≡ wrapped - length rest
        → k ≡ pn.output.n_tasks - suc (length rest)
    one_less l w k e = omega (arith, l, w, e)

-- `pn_process_outputs` ends, hands every task of the output node to its operator function, the oldest
-- first, returns how many they were, and leaves the output node without tasks, its counter less by
-- their number if it was not smaller, and every other field of the node and of the network as it was.
pub process_outputs_lem :
    (pn : Net)
    → (pn' : Net) × (process_outputs (some pn) ≡ some (length pn.output.tasks, some pn'))
      × Drained pn pn.output.tasks pn'
unfolding process_outputs
process_outputs_lem pn =
    let (pn', e, d) =
      outputs_loop_lem pn.output.tasks (suc (length pn.output.tasks)) pn 0 refl (omega arith) in
    (pn', answered pn' (outputs_loop (suc (length pn.output.tasks)) pn 0) e, d)
  where
    answered :
        (pn' : Net) (o : Option (ℕ × Net))
        → o ≡ some (0 + length pn.output.tasks, pn')
        → returned o ≡ some (length pn.output.tasks, some pn')
    answered pn' o e = ap returned e ∙ ap (λ n. some (n, some pn')) (omega arith)
