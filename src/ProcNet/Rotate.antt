-- ===== src/ProcNet/Rotate.antt =====
-- Which node `pn_get_next_pending_tracker` picks, and what it makes of the queue.
pub mod Same
use flightos.Common.{
  ℕ, zero, suc, ◌+◌, ◌<◌, ◌≡◌, refl, sym, ap, ◌∙◌, ◌⊎◌, inl, inr, true, false, not, Option, none,
  some, List, [], ◌∷◌, ◌++◌, reverse, append-nil, append_assoc, arith, Bool-cases, length, All,
  filter, is_empty, length-append, All-append, All-append_left, All-append_right,
}
use mathlib.Core.List.{reverse-cons}
use flightos.ProcTracker.{Tracker, level_critical}
use flightos.ProcNet.Nodes.{times, queued, times-append, queued-append}
use flightos.ProcNet.{
  Net, critical_loop, queue_critical_trackers, pending_loop, get_next_pending_tracker, next_pending,
}

abbrev pub criticals : List Tracker → List Tracker
criticals = filter level_critical

abbrev pub others : List Tracker → List Tracker
others = filter (λ p. not (level_critical p))

critical_loop_lem :
    (front rest : List Tracker)
    → critical_loop front rest ≡ reverse (criticals rest) ++ (front ++ others rest)
unfolding critical_loop
critical_loop_lem front [] = sym (append-nil front)
critical_loop_lem front (p ∷ rest) = elim (Bool-cases (level_critical p)) [
  | inl e ↦ rw e (
      critical_loop_lem (p ∷ front) rest
      ∙ sym (
          rw (reverse-cons p (criticals rest))
            (append_assoc (reverse (criticals rest)) (p ∷ []) (front ++ others rest))))
  | inr e ↦ rw e (
      critical_loop_lem (front ++ (p ∷ [])) rest
      ∙ ap (λ l. reverse (criticals rest) ++ l) (append_assoc front (p ∷ []) (others rest)))
]

-- `pn_queue_critical_trackers` puts the critical nodes in front, and keeps the others in order behind
-- them; the critical ones come out in reverse order.
pub queue_critical_trackers_lem :
    (nodes : List Tracker)
    → queue_critical_trackers nodes ≡ reverse (criticals nodes) ++ others nodes
unfolding queue_critical_trackers
queue_critical_trackers_lem nodes = critical_loop_lem [] nodes

abbrev pub IsIdle : Tracker → Type 0
IsIdle p = is_empty p.tasks ≡ true

All-critical_loop :
    (front rest : List Tracker)
    → All IsIdle (critical_loop front rest)
    → All IsIdle front × All IsIdle rest
unfolding critical_loop
All-critical_loop front [] h = (h, tt)
All-critical_loop front (p ∷ rest) h = elim (Bool-cases (level_critical p)) [
  | inl e ↦ let (hf, hr) = All-critical_loop (p ∷ front) rest (rw e at h) in (hf.1, (hf.0, hr))
  | inr e ↦
      let (hf, hr) = All-critical_loop (front ++ (p ∷ [])) rest (rw e at h) in
      (
        All-append_left IsIdle front (p ∷ []) hf,
        ((All-append_right IsIdle front (p ∷ []) hf).0, hr),
      )
]

is_empty-append_cons {ℓ} : {A : Type ℓ} (xs ys : List A) (x : A) → is_empty (xs ++ x ∷ ys) ≡ false
is_empty-append_cons [] ys x = refl
is_empty-append_cons (z ∷ xs) ys x = refl

pending_loop_found :
    (pre : List Tracker) (p : Tracker) (post : List Tracker) (rounds : ℕ)
    → All IsIdle pre
    → is_empty p.tasks ≡ false
    → length pre < rounds
    → pending_loop rounds (pre ++ p ∷ post) ≡ (some p.addr, (post ++ pre) ++ (p ∷ []))
unfolding pending_loop
pending_loop_found pre p post zero hi hb h = absurd (omega arith)
pending_loop_found [] p post (suc rounds) hi hb h = rw (hb, append-nil)
pending_loop_found (q ∷ pre) p post (suc rounds) hi hb h =
    rw (hi.0, is_empty-append_cons pre post p, append_assoc pre (p ∷ post) (q ∷ []))
      (pending_loop_found pre p (post ++ (q ∷ [])) rounds hi.1 hb (omega arith)
        ∙ ap (λ l. (some p.addr, l ++ (p ∷ []))) (append_assoc post (q ∷ []) pre))

pending_loop_idle :
    (rounds : ℕ) (nodes : List Tracker) → All IsIdle nodes → (pending_loop rounds nodes).0 ≡ none
unfolding pending_loop
pending_loop_idle zero nodes h = refl
pending_loop_idle (suc rounds) [] h = refl
pending_loop_idle (suc rounds) (p ∷ rest) h = elim (Bool-cases (is_empty rest)) [
  | inl e ↦ rw (h.0, e)
  | inr e ↦
      rw (h.0, e)
        (pending_loop_idle rounds (rest ++ (p ∷ []))
          (All-append IsIdle rest (p ∷ []) h.1 (h.0, tt)))
]

-- The first node with a task, if there is one.
abbrev Split : List Tracker → Type 0
Split nodes =
    All IsIdle nodes
    ⊎ ((pre : List Tracker) × (p : Tracker) × (post : List Tracker) × (nodes ≡ pre ++ p ∷ post)
        × All IsIdle pre
        × (is_empty p.tasks ≡ false))

split : (nodes : List Tracker) → Split nodes
split [] = inl tt
split (p ∷ rest) = elim (Bool-cases (is_empty p.tasks)) [
  | inr e ↦ inr ([], p, rest, refl, tt, e)
  | inl e ↦ elim (split rest) [
    | inl h ↦ inl (e, h)
    | inr (pre, q, post, f, hi, hb) ↦ inr (p ∷ pre, q, post, ap (λ l. p ∷ l) f, (e, hi), hb)
  ]
]

length-critical_loop :
    (front rest : List Tracker) → length (critical_loop front rest) ≡ length front + length rest
unfolding critical_loop
length-critical_loop front [] = omega arith
length-critical_loop front (p ∷ rest) = elim (Bool-cases (level_critical p)) [
  | inl e ↦ rw e (omega (arith, length-critical_loop (p ∷ front) rest))
  | inr e ↦
      rw e
        (omega (arith, length-critical_loop (front ++ (p ∷ [])) rest, length-append front (p ∷ [])))
]

-- What `pn_get_next_pending_tracker` answers for a network: none, or a node of the queue.
abbrev pub Picks : Net → Option ℕ × Net → Type 0
Picks pn (a, pn') =
    ((a ≡ none) × All IsIdle pn.nodes)
    ⊎ ((pre : List Tracker) × (p : Tracker) × (post : List Tracker) × (queue_critical_trackers
            pn.nodes
          ≡ pre ++ p ∷ post)
        × All IsIdle pre
        × (is_empty p.tasks ≡ false)
        × (a ≡ some p.addr)
        × (pn'.nodes ≡ (post ++ pre) ++ (p ∷ [])))

-- If `n` counts the nodes, a node is picked unless every node is idle: the first one with a task, in
-- the order of the queue with the critical nodes in front; it and the idle ones before it go to the
-- end of the queue, and the order is otherwise kept.
pub get_next_pending_tracker_lem :
    (pn : Net) → pn.n ≡ length pn.nodes → Picks pn (get_next_pending_tracker pn)
unfolding get_next_pending_tracker queue_critical_trackers
get_next_pending_tracker_lem pn e = go pn.nodes refl
  where
    go :
        (nodes : List Tracker)
        → pn.nodes ≡ nodes
        → Picks pn ((next_pending pn nodes).0, record pn { nodes = (next_pending pn nodes).1 })
    go [] f = inl (refl, rw f tt)
    go (q ∷ qs) f = elim (split (critical_loop [] (q ∷ qs))) [
      | inl h ↦ inl (
        pending_loop_idle (suc pn.n) (critical_loop [] (q ∷ qs)) h,
        rw f (All-critical_loop [] (q ∷ qs) h).1,
      )
      | inr (pre, p, post, g, hi, hb) ↦
          let r : pending_loop (suc pn.n) (critical_loop [] (q ∷ qs))
              ≡ (some p.addr, (post ++ pre) ++ (p ∷ [])) =
            ap (pending_loop (suc pn.n)) g
            ∙ pending_loop_found pre p post (suc pn.n) hi hb (
                omega (
                  arith,
                  e,
                  ap (λ l. length l) f,
                  ap (λ l. length l) g,
                  length-critical_loop [] (q ∷ qs),
                  length-append pre (p ∷ post),
                )) in
          inr (pre, p, post, rw f g, hi, hb, ap (λ x. x.0) r, ap (λ x. x.1) r)
    ]
