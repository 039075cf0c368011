-- ===== src/ProcNet/Nodes.antt =====
-- Reading and writing the nodes of a network at an address.
use flightos.Common.{
  ℕ, ◌+◌, ◌≤◌, ◌≡◌, refl, ap, subst, inl, inr, Bool, true, false, Option, none, some, List, [], ◌∷◌,
  ◌++◌, arith, ◌==◌, if◌then◌else◌, ==_iff, ==_refl, Bool-cases, of_some, All,
}
use flightos.ProcTask.{Task}
use flightos.ProcTracker.{Tracker, put_task, append_task}
use flightos.ProcNet.{lookup, modify, find_tracker}

-- What a write at `b` leaves at `a`.
abbrev pub change : Bool → (Tracker → Tracker) → Option Tracker → Option Tracker
change true f (some p) = some (f p)
change true f none = none
change false f o = o

pub lookup-modify :
    (a b : ℕ) (f : Tracker → Tracker) (nodes : List Tracker)
    → ((p : Tracker) → (f p).addr ≡ p.addr)
    → lookup a (modify b f nodes) ≡ change (b == a) f (lookup a nodes)
unfolding lookup modify
lookup-modify a b f [] keep = elim (Bool-cases (b == a)) [ inl e ↦ rw e | inr e ↦ rw e ]
lookup-modify a b f (p ∷ ps) keep = ground (arith, keep p, lookup-modify a b f ps keep)

pub put_task-addr : (t : Task) (p : Tracker) → (put_task p t).1.addr ≡ p.addr
unfolding put_task append_task
put_task-addr t p = ground arith

-- How many nodes have an address, and how often the task at an address is queued.
abbrev pub times : ℕ → List Tracker → ℕ
times a [] = 0
times a (p ∷ ps) = (if p.addr == a then 1 else 0) + times a ps

abbrev pub count : ℕ → List Task → ℕ
count x [] = 0
count x (t ∷ ts) = (if t.addr == x then 1 else 0) + count x ts

abbrev pub queued : ℕ → List Tracker → ℕ
queued x [] = 0
queued x (p ∷ ps) = count x p.tasks + queued x ps

pub times-append : (a : ℕ) (ps qs : List Tracker) → times a (ps ++ qs) ≡ times a ps + times a qs
times-append a [] qs = omega arith
times-append a (p ∷ ps) qs = omega (arith, times-append a ps qs)

pub count-append : (x : ℕ) (ts us : List Task) → count x (ts ++ us) ≡ count x ts + count x us
count-append x [] us = omega arith
count-append x (t ∷ ts) us = omega (arith, count-append x ts us)

pub queued-append : (x : ℕ) (ps qs : List Tracker) → queued x (ps ++ qs) ≡ queued x ps + queued x qs
queued-append x [] qs = omega arith
queued-append x (p ∷ ps) qs = omega (arith, queued-append x ps qs)

pub times-modify :
    (a b : ℕ) (f : Tracker → Tracker) (nodes : List Tracker)
    → ((p : Tracker) → (f p).addr ≡ p.addr)
    → times a (modify b f nodes) ≡ times a nodes
unfolding modify
times-modify a b f [] keep = refl
times-modify a b f (p ∷ ps) keep = ground (arith, keep p, times-modify a b f ps keep)

pub All-modify {ℓ} :
    (P : Tracker → Type ℓ) (b : ℕ) (f : Tracker → Tracker) (nodes : List Tracker)
    → ((p : Tracker) → P p → P (f p))
    → All P nodes
    → All P (modify b f nodes)
unfolding modify
All-modify P b f [] keep h = tt
All-modify P b f (p ∷ ps) keep h = elim (Bool-cases (p.addr == b)) [
  | inl e ↦ rw e (keep p h.0, h.1)
  | inr e ↦ rw e (h.0, All-modify P b f ps keep h.1)
]

-- The effect on the queues of a write to the node at `b`, which adds `k` there.
pub queued-modify :
    (x b : ℕ) (f : Tracker → Tracker) (p : Tracker) (nodes : List Tracker)
    → lookup b nodes ≡ some p
    → queued x (modify b f nodes) + count x p.tasks ≡ queued x nodes + count x (f p).tasks
unfolding lookup modify
queued-modify x b f p [] e = cc
queued-modify x b f p (q ∷ qs) e = elim (Bool-cases (q.addr == b)) [
  | inl h ↦ rw h (
      let g : count_of f (some q) ≡ count_of f (some p) = ap (count_of f) (rw h at e) in
      let k : count_of (λ r. r) (some q) ≡ count_of (λ r. r) (some p) =
        ap (count_of (λ r. r)) (rw h at e) in
      omega (arith, g, k))
  | inr h ↦ rw h (omega (arith, queued-modify x b f p qs (rw h at e)))
]
  where
    count_of : (Tracker → Tracker) → Option Tracker → ℕ
    count_of g none = 0
    count_of g (some r) = count x (g r).tasks

-- A node whose address no other has is the one found at its address.
pub lookup_unique :
    (pre : List Tracker) (p : Tracker) (post : List Tracker)
    → times p.addr (pre ++ p ∷ post) ≤ 1
    → lookup p.addr (pre ++ p ∷ post) ≡ some p
unfolding lookup
lookup_unique [] p post h = rw (==_refl p.addr)
lookup_unique (q ∷ pre) p post h = elim (Bool-cases (q.addr == p.addr)) [
  | inl e ↦ absurd (ground (arith, times-append p.addr pre (p ∷ post), ==_refl p.addr))
  | inr e ↦ rw e (lookup_unique pre p post (ground arith))
]

pub lookup-All {ℓ} :
    (P : Tracker → Type ℓ) (a : ℕ) (p : Tracker) (nodes : List Tracker)
    → lookup a nodes ≡ some p
    → All P nodes
    → P p
unfolding lookup
lookup-All P a p [] e h = absurd (cc)
lookup-All P a p (q ∷ qs) e h = elim (Bool-cases (q.addr == a)) [
  | inl g ↦ subst P (of_some (rw g at e)) h.0
  | inr g ↦ lookup-All P a p qs (rw g at e) h.1
]

-- Where `pn_find_tracker` finds its node.
pub find_tracker-split :
    (op_code a : ℕ) (nodes : List Tracker)
    → find_tracker op_code nodes ≡ some a
    → (pre : List Tracker) × (p : Tracker) × (post : List Tracker) × (nodes ≡ pre ++ p ∷ post)
      × (p.addr ≡ a)
      × (p.op_code ≡ op_code)
unfolding find_tracker
find_tracker-split op_code a [] e = absurd (cc)
find_tracker-split op_code a (q ∷ qs) e = elim (Bool-cases (q.op_code == op_code)) [
  | inl g ↦ ([], q, qs, refl, of_some (rw g at e), (==_iff _ _).0 g)
  | inr g ↦
      let (pre, p, post, f, h, c) = find_tracker-split op_code a qs (rw g at e) in
      (q ∷ pre, p, post, ap (λ l. q ∷ l) f, h, c)
]
