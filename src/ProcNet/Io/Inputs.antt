-- ===== src/ProcNet/Io/Inputs.antt =====
-- `pn_process_inputs` sends every input task to a node for its next step, or destroys it.
use flightos.Common.{
  ℕ, zero, suc, ◌+◌, ◌≤◌, ◌<◌, ◌≡◌, refl, sym, ap, subst, ◌∙◌, inl, inr, Bool, true, false, Option,
  none, some, List, [], ◌∷◌, ◌++◌, append-nil, append_assoc, arith, ◌==◌, ==_iff, ==_refl,
  Bool-cases, of_some, length, filter, is_empty, success,
}
use flightos.ProcTask.{Task, get_pend_step_op_code}
use flightos.ProcTracker.{Tracker, get_task, put_task, append_task, take_first}
use flightos.ProcNet.{get_task, Net, lookup, modify, put_at, find_tracker}
use flightos.ProcNet.Nodes.{
  count, times-modify, count-append, lookup-modify, put_task-addr, times, lookup_unique,
  find_tracker-split,
}
use flightos.ProcNet.Process.Conserve.{put_at-queued, held, one}
use flightos.ProcNet.Io.{
  place, if_put, put_into, cursor_at, put_or_bug, input_step, inputs_loop, process_inputs,
  cursor_for, assign_to, continue_with, input_round, inputs_from, with_success, Cursor,
}

abbrev missing : Option ℕ → Bool
missing none = true
missing (some a) = false

-- The tasks whose next step no node is for.
abbrev pub strays : List Tracker → List Task → List Task
strays nodes = filter (λ t. missing (find_tracker (get_pend_step_op_code t) nodes))

-- A cursor stands at a node, and has its op code.
abbrev At : List Tracker → Cursor → Type 0
At nodes c = (q : Tracker) × (lookup c.0 nodes ≡ some q) × (q.op_code ≡ c.1)

find_tracker-put_at :
    (op a : ℕ) (t : Task) (nodes : List Tracker)
    → find_tracker op (put_at a t nodes) ≡ find_tracker op nodes
unfolding find_tracker put_at modify put_task append_task
find_tracker-put_at op a t [] = refl
find_tracker-put_at op a t (p ∷ ps) = ground (arith, find_tracker-put_at op a t ps)

At-put_at :
    (a : ℕ) (t : Task) (nodes : List Tracker) (c : Cursor) → At nodes c → At (put_at a t nodes) c
unfolding put_at
At-put_at a t nodes c (q, e, f) = elim (Bool-cases (a == c.0)) [
  | inl h ↦ (
    (put_task q t).1,
    lookup-modify c.0 a (λ r. (put_task r t).1) nodes (put_task-addr t) ∙ rw (h, e),
    unfold put_task append_task in ground arith,
  )
  | inr h ↦ (q, lookup-modify c.0 a (λ r. (put_task r t).1) nodes (put_task-addr t) ∙ rw (h, e), f)
]

-- A node with an op code is found.
not_missing :
    (a op : ℕ) (q : Tracker) (nodes : List Tracker)
    → lookup a nodes ≡ some q
    → q.op_code ≡ op
    → missing (find_tracker op nodes) ≡ false
unfolding lookup find_tracker
not_missing a op q [] e f = cc
not_missing a op q (p ∷ ps) e f = elim (Bool-cases (p.op_code == op)) [
  | inl g ↦ rw g
  | inr g ↦ elim (Bool-cases (p.addr == a)) [
    | inl h ↦ absurd (
        cc (g, (==_iff p.op_code op).1 (ap (λ (r : Tracker). r.op_code) (of_some (rw h at e)) ∙ f)))
    | inr h ↦ rw g (not_missing a op q ps (rw h at e) f)
  ]
]

find_tracker-At :
    (op a : ℕ) (nodes : List Tracker)
    → ((b : ℕ) → times b nodes ≤ 1)
    → find_tracker op nodes ≡ some a
    → At nodes (a, op)
find_tracker-At op a nodes d e =
    let (pre, p, post, f, h, c) = find_tracker-split op a nodes e in
    (
      p,
      subst (λ b. lookup b nodes ≡ some p) h
          (subst (λ l. lookup p.addr l ≡ some p) (sym f)
            (lookup_unique pre p post (subst (λ l. times p.addr l ≤ 1) f (d p.addr)))),
      c,
    )

-- What a round does with its task.
abbrev Sorted : Net → Task → Net → Type 0
Sorted pn t pn' =
    (pn'.input ≡ pn.input)
    × (pn'.destroyed ≡ pn.destroyed ++ strays pn.nodes (t ∷ []))
    × ((x : ℕ) → held x pn' ≡ held x pn + one x t)
    × ((op : ℕ) → find_tracker op pn'.nodes ≡ find_tracker op pn.nodes)
    × ((c : Cursor) → At pn.nodes c → At pn'.nodes c)
    × ((b : ℕ) → times b pn'.nodes ≡ times b pn.nodes)

abbrev Stepped : Net → Task → Option (Cursor × Net) → Type 0
Stepped pn t o = (c : Cursor) × (pn' : Net) × (o ≡ some (c, pn')) × At pn'.nodes c × Sorted pn t pn'

stray-Sorted :
    (pn : Net) (t : Task)
    → find_tracker (get_pend_step_op_code t) pn.nodes ≡ none
    → Sorted pn t (record pn { destroyed = pn.destroyed ++ (t ∷ []) })
stray-Sorted pn t e = (
  refl,
  rw (ap missing e) refl,
  (λ x. omega (arith, count-append x pn.destroyed (t ∷ []))),
  (λ op. refl),
  (λ c h. h),
  (λ b. refl),
)

put-Sorted :
    (pn : Net) (t : Task) (a : ℕ) (q : Tracker)
    → lookup a pn.nodes ≡ some q
    → q.op_code ≡ get_pend_step_op_code t
    → Sorted pn t (record pn { nodes = put_at a t pn.nodes })
put-Sorted pn t a q e f = (
  refl,
  rw (not_missing a (get_pend_step_op_code t) q pn.nodes e f) (sym (append-nil pn.destroyed)),
  (λ x. omega (arith, put_at-queued x a q t pn.nodes e (sym f))),
  (λ op. find_tracker-put_at op a t pn.nodes),
  (λ c h. At-put_at a t pn.nodes c h),
  (λ b. unfold put_at in times-modify b a (λ r. (put_task r t).1) pn.nodes (put_task-addr t)),
)

-- A task for the node under a cursor is put there, and no trap fires.
assign_to-Stepped :
    (pn : Net) (head : Tracker) (t : Task) (c : Cursor)
    → At pn.nodes c
    → c.1 ≡ get_pend_step_op_code t
    → Stepped pn t (assign_to pn head t (some c))
unfolding put_or_bug
assign_to-Stepped pn head t c (q, e, f) g =
    let s : (put_task q t).0 ≡ success =
      unfold put_task in rw ((==_iff (get_pend_step_op_code t) q.op_code).1 (sym g ∙ sym f)) refl in
    let b : put_or_bug c.0 t pn.nodes ≡ some (put_at c.0 t pn.nodes) =
      ap (put_into c.0 t pn.nodes) e ∙ ap (if_put c.0 t pn.nodes) s in
    (
      c,
      record pn { nodes = put_at c.0 t pn.nodes },
      ap (place pn c) b,
      At-put_at c.0 t pn.nodes c (q, e, f),
      put-Sorted pn t c.0 q e (f ∙ g),
    )

input_step-Stepped :
    (pn : Net) (head : Tracker) (c : Cursor) (t : Task)
    → ((b : ℕ) → times b pn.nodes ≤ 1)
    → At pn.nodes (cursor_at head)
    → At pn.nodes c
    → Stepped pn t (input_step pn head c t)
unfolding input_step
input_step-Stepped pn head c t d h k = elim (Bool-cases (c.1 == get_pend_step_op_code t)) [
  | inl g ↦ rw g (assign_to-Stepped pn head t c k ((==_iff _ _).0 g))
  | inr g ↦ rw g (found (find_tracker (get_pend_step_op_code t) pn.nodes) refl)
]
  where
    found :
        (o : Option ℕ)
        → find_tracker (get_pend_step_op_code t) pn.nodes ≡ o
        → Stepped pn t (assign_to pn head t (cursor_for (get_pend_step_op_code t) o))
    found none e = (
      cursor_at head,
      record pn { destroyed = pn.destroyed ++ (t ∷ []) },
      refl,
      h,
      stray-Sorted pn t e,
    )
    found (some a) e =
        assign_to-Stepped pn head t (a, get_pend_step_op_code t)
          (find_tracker-At (get_pend_step_op_code t) a pn.nodes d e) refl

-- The network, when the tasks `ts` of its input node have been sorted.
abbrev pub Emptied : Net → List Task → Net → Type 0
Emptied pn ts pn' =
    (pn'.input.tasks ≡ [])
    × (pn'.destroyed ≡ pn.destroyed ++ strays pn.nodes ts)
    × ((x : ℕ) → held x pn' ≡ held x pn)

strays-same :
    (ns ms : List Tracker) (ts : List Task)
    → ((op : ℕ) → find_tracker op ns ≡ find_tracker op ms)
    → strays ns ts ≡ strays ms ts
strays-same ns ms [] h = refl
strays-same ns ms (t ∷ ts) h = rw (h (get_pend_step_op_code t), strays-same ns ms ts h) refl

strays-cons :
    (ns : List Tracker) (t : Task) (ts : List Task)
    → strays ns (t ∷ []) ++ strays ns ts ≡ strays ns (t ∷ ts)
strays-cons ns t ts = elim (Bool-cases (missing (find_tracker (get_pend_step_op_code t) ns))) [
  | inl e ↦ rw e refl
  | inr e ↦ rw e refl
]

inputs_loop_lem :
    (ts : List Task) (fuel : ℕ) (pn : Net) (head : Tracker) (c : Cursor)
    → pn.input.tasks ≡ ts
    → length ts < fuel
    → ((b : ℕ) → times b pn.nodes ≤ 1)
    → At pn.nodes (cursor_at head)
    → At pn.nodes c
    → (pn' : Net) × (inputs_loop fuel pn head c ≡ some pn') × Emptied pn ts pn'
unfolding inputs_loop get_task
inputs_loop_lem ts zero pn head c e l d h k = absurd (omega arith)
inputs_loop_lem [] (suc fuel) pn head c e l d h k = (
  pn,
  ap (λ us. input_round (λ pn' c'. inputs_loop fuel pn' head c') pn head c (take_first pn.input us))
      e,
  (e, sym (append-nil pn.destroyed), λ x. refl),
)
inputs_loop_lem (t ∷ rest) (suc fuel) pn head c e l d h k =
    let input : Tracker = (take_first pn.input (t ∷ rest)).1 in
    let pn0 : Net = record pn { input = input } in
    let (c1, pn1, f, k1, (i, s, a, o, m, b)) = input_step-Stepped pn0 head c t d h k in
    let (pn2, g, (i2, s2, a2)) =
      inputs_loop_lem rest fuel pn1 head c1 (ap (λ (p : Tracker). p.tasks) i) (omega arith)
        (λ y. omega (arith, d y, b y)) (m (cursor_at head) h) k1 in
    (
      pn2,
      ap
            (λ us.
              input_round (λ pn' c'. inputs_loop fuel pn' head c') pn head c
                (take_first pn.input us))
            e
          ∙ (ap (continue_with (λ pn' c'. inputs_loop fuel pn' head c')) f ∙ g),
      (
        i2,
        s2
            ∙ rw (s, strays-same pn1.nodes pn.nodes rest o)
                (append_assoc pn.destroyed (strays pn.nodes (t ∷ [])) (strays pn.nodes rest)
                  ∙ ap (λ us. pn.destroyed ++ us) (strays-cons pn.nodes t rest)),
        λ x. omega (arith, a2 x, a x, ap (count x) e),
      ),
    )

-- If the network has a node, and no two at the same address, `pn_process_inputs` ends without a trap: it
-- leaves the input node empty, destroys exactly the input tasks whose next step no node is for, in
-- their order, and afterwards every task is queued, or in the log, as often as before.
pub process_inputs_lem :
    (pn : Net)
    → is_empty pn.nodes ≡ false
    → ((b : ℕ) → times b pn.nodes ≤ 1)
    → (pn' : Net) × (process_inputs pn ≡ some (success, pn')) × Emptied pn pn.input.tasks pn'
unfolding process_inputs
process_inputs_lem pn e d = go pn.nodes refl e
  where
    go :
        (nodes : List Tracker)
        → pn.nodes ≡ nodes
        → is_empty nodes ≡ false
        → (pn' : Net) × (inputs_from pn nodes ≡ some (success, pn')) × Emptied pn pn.input.tasks pn'
    go [] f n = absurd (cc)
    go (p ∷ ps) f n =
        let k : At pn.nodes (cursor_at p) =
          subst (λ ns. At ns (cursor_at p)) (sym f)
            (p, unfold lookup in rw (==_refl p.addr) refl, refl) in
        let (pn', g, h) =
          inputs_loop_lem pn.input.tasks (suc (length pn.input.tasks)) pn p (cursor_at p) refl
            (omega arith) d k k in
        (pn', ap with_success g, h)
