-- ===== src/ProcNet/Setup/Lifetime.antt =====
-- A network from its creation to its end.
use flightos.Common.{
  ℕ, suc, ◌<◌, ◌≡◌, refl, sym, ap, ap₂, ◌∙◌, ◌≢◌, ◌↔◌, ◌⊎◌, inl, inr, false, none, some, List, [],
  ◌∷◌, ◌++◌, append-nil, append_assoc, arith, word, ◌==◌, if◌then◌else◌, ==_iff, Bool-cases, length,
  length-append, success, einval,
}
use flightos.ProcTracker.{Tracker, get_task, destroy_tracker, destroy_loop}
use flightos.ProcTracker
use flightos.ProcTracker.Queue.{freed_for, destroy_tracker_lem}
use flightos.ProcNet.{Net, op_node_in, op_node_out}
use flightos.ProcNet.Process.Conserve.{Kept}
use flightos.ProcNet.Setup.{and_then, create, add_node, destroy_nodes, destroy_net}

-- What a call of `pn_create` got from `kzalloc` when it fails, in the order in which it is freed: it asks
-- for nothing more after a failure.
abbrev obtained : ℕ → ℕ → List ℕ
obtained net_mem in_mem =
    if net_mem == 0 then [] else if in_mem == 0 then net_mem ∷ [] else in_mem ∷ net_mem ∷ []

nonzero : (n : ℕ) → (n == 0) ≡ false → n ≢ 0
nonzero n e h = cc (e, (==_iff n 0).1 h)

-- `pn_create` gives no network exactly if one of the three allocations fails, and then frees all that it
-- had allocated; otherwise the network has no node and no task, and is wired.
pub create_cases :
    (net_mem in_mem out_mem : ℕ)
    → let (o, freed) = create net_mem in_mem out_mem in
      ((o ≡ none)
        × (freed ≡ some (obtained net_mem in_mem))
        × ((net_mem ≡ 0) ⊎ ((in_mem ≡ 0) ⊎ (out_mem ≡ 0))))
      ⊎ ((pn : Net) × (o ≡ some pn)
          × (net_mem ≢ 0)
          × (in_mem ≢ 0)
          × (out_mem ≢ 0)
          × (pn.n ≡ 0)
          × (pn.nodes ≡ [])
          × (pn.input.tasks ≡ [])
          × (pn.output.tasks ≡ [])
          × Kept pn)
unfolding create ProcTracker.create
create_cases net_mem in_mem out_mem = elim (Bool-cases (net_mem == 0)) [
  | inl e ↦ rw e (inl (refl, refl, inl ((==_iff _ _).0 e)))
  | inr e ↦ elim (Bool-cases (in_mem == 0)) [
    | inl f ↦ rw (e, f) (inl (refl, unfold destroy_tracker in refl, inr (inl ((==_iff _ _).0 f))))
    | inr f ↦ elim (Bool-cases (out_mem == 0)) [
      | inl g ↦
          rw (e, f, g)
            (inl (
              refl,
              unfold destroy_tracker destroy_loop get_task in refl,
              inr (inr ((==_iff _ _).0 g)),
            ))
      | inr g ↦
          rw (e, f, g)
            (inr (
              _,
              refl,
              nonzero net_mem e,
              nonzero in_mem f,
              nonzero out_mem g,
              refl,
              refl,
              refl,
              refl,
              (record { distinct = λ a. omega arith; reserved = refl }, tt),
            ))
    ]
  ]
]

-- `pn_add_node` takes exactly the trackers without a reserved op code, appends them, and counts them; it
-- changes nothing otherwise.
pub add_node_cases :
    (pn : Net) (pt : Tracker)
    → pn.n ≡ length pn.nodes
    → suc (length pn.nodes) < word
    → let (s, o) = add_node (some pn) (some pt) in
      ((s ≡ success) ↔ ((pt.op_code ≢ op_node_in) × (pt.op_code ≢ op_node_out)))
      × (s ≢ success → (s ≡ einval) × (o ≡ some pn))
      × (s ≡ success
          → (pn' : Net) × (o ≡ some pn')
            × (pn'.nodes ≡ pn.nodes ++ (pt ∷ []))
            × (pn'.n ≡ length pn'.nodes))
unfolding add_node
add_node_cases pn pt c l = elim (Bool-cases (pt.op_code == op_node_in)) [
  | inl e ↦
      rw e (((λ h. cc), (λ h. absurd (h.0 ((==_iff _ _).0 e)))), (λ h. (refl, refl)), (λ h. cc))
  | inr e ↦ elim (Bool-cases (pt.op_code == op_node_out)) [
    | inl f ↦
        rw (e, f)
          (((λ h. cc), (λ h. absurd (h.1 ((==_iff _ _).0 f)))), (λ h. (refl, refl)), (λ h. cc))
    | inr f ↦
        rw (e, f)
          (
            (
              (λ h. (
                (λ g. cc (e, (==_iff pt.op_code op_node_in).1 g)),
                (λ g. cc (f, (==_iff pt.op_code op_node_out).1 g)),
              )),
              (λ h. refl),
            ),
            (λ h. absurd (h refl)),
            (λ h. (_, refl, refl, omega (arith, length-append pn.nodes (pt ∷ [])))),
          )
  ]
]

-- What `pn_destroy` is to free for a list of trackers.
abbrev pub freed_with : List Tracker → List ℕ
freed_with [] = []
freed_with (p ∷ ps) = (freed_for p.tasks ++ (p.addr ∷ [])) ++ freed_with ps

destroy_nodes_lem : (ps : List Tracker) → destroy_nodes ps ≡ some (freed_with ps)
unfolding destroy_nodes
destroy_nodes_lem [] = refl
destroy_nodes_lem (p ∷ ps) = ap₂ and_then (destroy_tracker_lem p) (destroy_nodes_lem ps)

freed_with-append : (ps qs : List Tracker) → freed_with (ps ++ qs) ≡ freed_with ps ++ freed_with qs
freed_with-append [] qs = refl
freed_with-append (p ∷ ps) qs =
    rw (freed_with-append ps qs)
      (sym (append_assoc (freed_for p.tasks ++ (p.addr ∷ [])) (freed_with ps) (freed_with qs)))

-- `pn_destroy` ends, and frees every tracker of the network once, the nodes, the input and the output
-- node in this order, each one behind all of its tasks with all that they hold, and the network last.
pub destroy_net_lem :
    (pn : Net) (net_mem : ℕ)
    → destroy_net (some pn) net_mem
      ≡ some (freed_with (pn.nodes ++ (pn.input ∷ pn.output ∷ [])) ++ (net_mem ∷ []))
unfolding destroy_net
destroy_net_lem pn net_mem =
    ap₂ and_then (destroy_nodes_lem pn.nodes) (
      ap₂ and_then (destroy_tracker_lem pn.input)
        (ap (λ o. and_then o (some (net_mem ∷ []))) (destroy_tracker_lem pn.output)))
    ∙ ap some (
        let i : List ℕ = freed_for pn.input.tasks ++ (pn.input.addr ∷ []) in
        let o : List ℕ = freed_for pn.output.tasks ++ (pn.output.addr ∷ []) in
        rw
          (
            freed_with-append pn.nodes (pn.input ∷ pn.output ∷ []),
            append-nil o,
            append_assoc (freed_with pn.nodes) (i ++ o) (net_mem ∷ []),
            append_assoc i o (net_mem ∷ []),
          )
          refl)
