-- ===== src/ProcNet/Rotate/Same.antt =====
-- What the choice of a node leaves as it was: the nodes, and the tasks that they queue.
use flightos.Common.{
  ℕ, zero, suc, ◌+◌, ◌≡◌, refl, sym, ap, inl, inr, true, List, [], ◌∷◌, ◌++◌, arith, Bool-cases,
  All, is_empty, All-append,
}
use flightos.ProcTracker.{Tracker, level_critical}
use flightos.ProcNet.Nodes.{times, queued, times-append, queued-append}
use flightos.ProcNet.{
  Net, critical_loop, queue_critical_trackers, pending_loop, get_next_pending_tracker, next_pending,
}

All-critical_loop_intro {ℓ} :
    (P : Tracker → Type ℓ) (front rest : List Tracker)
    → All P front
    → All P rest
    → All P (critical_loop front rest)
unfolding critical_loop
All-critical_loop_intro P front [] hf hr = hf
All-critical_loop_intro P front (p ∷ rest) hf hr = elim (Bool-cases (level_critical p)) [
  | inl e ↦ rw e (All-critical_loop_intro P (p ∷ front) rest (hr.0, hf) hr.1)
  | inr e ↦ rw e (
      All-critical_loop_intro P (front ++ (p ∷ [])) rest (All-append P front (p ∷ []) hf (hr.0, tt))
        hr.1)
]

pub All-queue_critical {ℓ} :
    (P : Tracker → Type ℓ) (nodes : List Tracker)
    → All P nodes
    → All P (queue_critical_trackers nodes)
unfolding queue_critical_trackers
All-queue_critical P nodes h = All-critical_loop_intro P [] nodes tt h

queued-critical_loop :
    (x : ℕ) (front rest : List Tracker)
    → queued x (critical_loop front rest) ≡ queued x front + queued x rest
unfolding critical_loop
queued-critical_loop x front [] = omega arith
queued-critical_loop x front (p ∷ rest) = elim (Bool-cases (level_critical p)) [
  | inl e ↦ rw e (omega (arith, queued-critical_loop x (p ∷ front) rest))
  | inr e ↦ rw e (
      omega
        (arith, queued-critical_loop x (front ++ (p ∷ [])) rest, queued-append x front (p ∷ [])))
]

times-critical_loop :
    (a : ℕ) (front rest : List Tracker)
    → times a (critical_loop front rest) ≡ times a front + times a rest
unfolding critical_loop
times-critical_loop a front [] = omega arith
times-critical_loop a front (p ∷ rest) = elim (Bool-cases (level_critical p)) [
  | inl e ↦ rw e (omega (arith, times-critical_loop a (p ∷ front) rest))
  | inr e ↦
      rw e (
        omega
          (arith, times-critical_loop a (front ++ (p ∷ [])) rest, times-append a front (p ∷ [])))
]

is_empty-nil {ℓ} : {A : Type ℓ} (xs : List A) → is_empty xs ≡ true → xs ≡ []
is_empty-nil [] e = refl
is_empty-nil (x ∷ xs) e = cc

pending_loop-queued :
    (x rounds : ℕ) (nodes : List Tracker) → queued x (pending_loop rounds nodes).1 ≡ queued x nodes
unfolding pending_loop
pending_loop-queued x zero nodes = refl
pending_loop-queued x (suc rounds) [] = refl
pending_loop-queued x (suc rounds) (p ∷ rest) = elim (Bool-cases (is_empty p.tasks)) [
  | inr e ↦ rw e (omega (arith, queued-append x rest (p ∷ [])))
  | inl e ↦ elim (Bool-cases (is_empty rest)) [
    | inl f ↦ rw (e, f) (omega (arith, ap (queued x) (is_empty-nil rest f)))
    | inr f ↦
        rw (e, f)
          (omega
            (arith, pending_loop-queued x rounds (rest ++ (p ∷ [])), queued-append x rest (p ∷ [])))
  ]
]

pending_loop-times :
    (a rounds : ℕ) (nodes : List Tracker) → times a (pending_loop rounds nodes).1 ≡ times a nodes
unfolding pending_loop
pending_loop-times a zero nodes = refl
pending_loop-times a (suc rounds) [] = refl
pending_loop-times a (suc rounds) (p ∷ rest) = elim (Bool-cases (is_empty p.tasks)) [
  | inr e ↦ rw e (omega (arith, times-append a rest (p ∷ [])))
  | inl e ↦ elim (Bool-cases (is_empty rest)) [
    | inl f ↦ rw (e, f) (omega (arith, ap (times a) (is_empty-nil rest f)))
    | inr f ↦
        rw (e, f)
          (omega
            (arith, pending_loop-times a rounds (rest ++ (p ∷ [])), times-append a rest (p ∷ [])))
  ]
]

All-pending_loop {ℓ} :
    (P : Tracker → Type ℓ) (rounds : ℕ) (nodes : List Tracker)
    → All P nodes
    → All P (pending_loop rounds nodes).1
unfolding pending_loop
All-pending_loop P zero nodes h = h
All-pending_loop P (suc rounds) [] h = h
All-pending_loop P (suc rounds) (p ∷ rest) h = elim (Bool-cases (is_empty p.tasks)) [
  | inr e ↦ rw e (All-append P rest (p ∷ []) h.1 (h.0, tt))
  | inl e ↦ elim (Bool-cases (is_empty rest)) [
    | inl f ↦ rw (e, f) (h.0, tt)
    | inr f ↦
        rw (e, f)
          (All-pending_loop P rounds (rest ++ (p ∷ [])) (All-append P rest (p ∷ []) h.1 (h.0, tt)))
  ]
]

-- Picking a node only moves nodes: the queues and the addresses stay, and what holds of every node.
pub get_next-same :
    (x : ℕ) (pn : Net)
    → let (a, pn') = get_next_pending_tracker pn in
      (queued x pn'.nodes ≡ queued x pn.nodes)
      × (times x pn'.nodes ≡ times x pn.nodes)
      × (pn' ≡ record pn { nodes = pn'.nodes })
unfolding get_next_pending_tracker queue_critical_trackers
get_next-same x pn = go pn.nodes refl
  where
    go :
        (nodes : List Tracker)
        → pn.nodes ≡ nodes
        → (queued x (next_pending pn nodes).1 ≡ queued x pn.nodes)
          × (times x (next_pending pn nodes).1 ≡ times x pn.nodes)
          × (record pn { nodes = (next_pending pn nodes).1 }
              ≡ record pn { nodes = (next_pending pn nodes).1 })
    go [] f = (ap (queued x) (sym f), ap (times x) (sym f), refl)
    go (q ∷ qs) f = (
      omega (
        arith,
        pending_loop-queued x (suc pn.n) (critical_loop [] (q ∷ qs)),
        queued-critical_loop x [] (q ∷ qs),
        ap (queued x) f,
      ),
      omega (
        arith,
        pending_loop-times x (suc pn.n) (critical_loop [] (q ∷ qs)),
        times-critical_loop x [] (q ∷ qs),
        ap (times x) f,
      ),
      refl,
    )

pub All-get_next {ℓ} :
    (P : Tracker → Type ℓ) (pn : Net) → All P pn.nodes → All P (get_next_pending_tracker pn).1.nodes
unfolding get_next_pending_tracker queue_critical_trackers
All-get_next P pn h = go pn.nodes h
  where
    go : (nodes : List Tracker) → All P nodes → All P (next_pending pn nodes).1
    go [] g = tt
    go (q ∷ qs) g =
        All-pending_loop P (suc pn.n) (critical_loop [] (q ∷ qs))
          (All-critical_loop_intro P [] (q ∷ qs) tt g)
