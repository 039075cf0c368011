-- ===== src/Edf/Moves.antt =====
-- What the loop of `edf_pick_next` does with a task: the rounds that it takes, and what becomes of it.
use flightos.Common.{
  ℕ, ◌+◌, ◌≤◌, ◌<◌, ◌≡◌, refl, sym, ap, ap₂, ◌∙◌, ◌≢◌, inl, inr, Bool, true, false, not, ◌&&◌, List,
  [], ◌∷◌, ◌++◌, arith, ltb, ◌==◌, if◌then◌else◌, ==_iff, Bool-cases,
}
use flightos.RoundRobin.{State, run, idle, new, dead_state, busy}
use flightos.Edf.{
  Task, can_execute, reinit, Move, stay, to_head, to_tail, remove, first_or, compare_first, is_run,
  wake_up, by_state, visit,
}

-- How often a task is in a list.
abbrev pub count : ℕ → List Task → ℕ
count a [] = 0
count a (t ∷ ts) = (if t.addr == a then 1 else 0) + count a ts

pub count-append : (a : ℕ) (ts us : List Task) → count a (ts ++ us) ≡ count a ts + count a us
count-append a [] us = omega arith
count-append a (t ∷ ts) us = omega (arith, count-append a ts us)

pub count-same :
    (a : ℕ) (t u : Task) (ts : List Task) → u.addr ≡ t.addr → count a (u ∷ ts) ≡ count a (t ∷ ts)
count-same a t u ts e = ap (λ b. (if b == a then 1 else 0) + count a ts) e

-- How many rounds a task can take: one that is reinitialised is visited again.
unfoldable pub rounds : ℕ → ℕ → Task → ℕ
rounds tick now t = if is_run t.state && not (can_execute tick now t) then 2 else 1

pub rounds-positive : (tick now : ℕ) (t : Task) → 0 < rounds tick now t
unfolding rounds
rounds-positive tick now t = ground arith

pub rounds-le : (tick now : ℕ) (t : Task) → rounds tick now t ≤ 2
unfolding rounds
rounds-le tick now t = ground arith

abbrev pub cost : ℕ → ℕ → List Task → ℕ
cost tick now [] = 0
cost tick now (t ∷ ts) = rounds tick now t + cost tick now ts

pub cost-append :
    (tick now : ℕ) (ts us : List Task)
    → cost tick now (ts ++ us) ≡ cost tick now ts + cost tick now us
cost-append tick now [] us = omega arith
cost-append tick now (t ∷ ts) us = omega (arith, cost-append tick now ts us)

-- A task that is dead, or that dies when it is reinitialised.
abbrev pub is_doomed : State → Bool → Bool
is_doomed dead_state once = true
is_doomed run once = once
is_doomed _ once = false

-- How many tasks are not doomed.
abbrev pub live : Task → ℕ
live t = if is_doomed t.state t.run_once then 0 else 1

abbrev pub lives : List Task → ℕ
lives [] = 0
lives (t ∷ ts) = live t + lives ts

pub lives-append : (ts us : List Task) → lives (ts ++ us) ≡ lives ts + lives us
lives-append [] us = omega arith
lives-append (t ∷ ts) us = omega (arith, lives-append ts us)

-- A task that may be freed: it is dead, and is not the one that is running.
abbrev pub MayGo : ℕ → Task → Type 0
MayGo this t = (t.state ≡ dead_state) × (t.addr ≢ this)

abbrev pub Moved : ℕ → ℕ → ℕ → Task → Move → Type 0
Moved this tick now t (stay u) = u.addr ≡ t.addr
Moved this tick now t (to_head u) = u.addr ≡ t.addr
Moved this tick now t (to_tail u) =
    (u.addr ≡ t.addr) × (rounds tick now u ≡ 1) × (rounds tick now t ≡ 2) × (live t ≤ live u)
Moved this tick now t remove = (live t ≡ 0) × MayGo this t

reinit-addr : (t : Task) → (reinit t).addr ≡ t.addr
unfolding reinit
reinit-addr t = elim (Bool-cases t.run_once) [ inl e ↦ rw e refl | inr e ↦ rw e refl ]

reinit-rounds : (tick now : ℕ) (t : Task) → rounds tick now (reinit t) ≡ 1
unfolding reinit rounds
reinit-rounds tick now t = elim (Bool-cases t.run_once) [ inl e ↦ rw e refl | inr e ↦ rw e refl ]

reinit-live : (t : Task) → t.state ≡ run → live t ≤ live (reinit t)
unfolding reinit
reinit-live t r = elim (Bool-cases t.run_once) [
  | inl e ↦ rw (e, r) (omega arith)
  | inr e ↦ rw (e, r) (omega arith)
]

run-rounds :
    (tick now : ℕ) (t : Task)
    → t.state ≡ run
    → can_execute tick now t ≡ false
    → rounds tick now t ≡ 2
unfolding rounds
run-rounds tick now t e c = ap₂ (λ s b. if is_run s && not b then 2 else 1) e c

compare-Moved :
    (this tick now : ℕ) (t u f : Task) (m : Move)
    → u.addr ≡ t.addr
    → Moved this tick now t m
    → Moved this tick now t (compare_first now f u m)
compare-Moved this tick now t u f m e h = elim (Bool-cases (ltb now u.wakeup)) [
  | inl w ↦ rw w h
  | inr w ↦ elim (Bool-cases (ltb u.deadline f.deadline)) [
    | inl d ↦ rw (w, d) e
    | inr d ↦ rw (w, d) h
  ]
]

wake_up-Moved :
    (this tick now : ℕ) (t u f : Task) → u.addr ≡ t.addr → Moved this tick now t (wake_up f u)
wake_up-Moved this tick now t u f e = elim (Bool-cases (is_run f.state)) [
  | inr w ↦ rw w e
  | inl w ↦ elim (Bool-cases (ltb u.deadline f.deadline)) [
    | inl d ↦ rw (w, d) e
    | inr d ↦ rw (w, d) e
  ]
]

by_state-Moved :
    (this tick now : ℕ) (front : List Task) (t : Task) (rest : List Task) (s : State)
    → t.state ≡ s
    → Moved this tick now t (by_state this tick now front t rest s)
by_state-Moved this tick now front t rest run e = elim (Bool-cases (can_execute tick now t)) [
  | inl c ↦ rw c (compare-Moved this tick now t t (first_or t front) (stay t) refl refl)
  | inr c ↦ rw c (
      compare-Moved this tick now t (reinit t) (first_or (reinit t) (front ++ rest))
        (to_tail (reinit t)) (reinit-addr t)
        (reinit-addr t, reinit-rounds tick now t, run-rounds tick now t e c, reinit-live t e))
]
by_state-Moved this tick now front t rest idle e =
    wake_up-Moved this tick now t (record t { state = run })
      (first_or (record t { state = run }) front) refl
by_state-Moved this tick now front t rest new e = refl
by_state-Moved this tick now front t rest busy e = refl
by_state-Moved this tick now front t rest dead_state e = elim (Bool-cases (t.addr == this)) [
  | inl c ↦ rw c refl
  | inr c ↦ rw (c, e) (refl, (refl, λ f. cc (sym c ∙ (==_iff t.addr this).1 f)))
]

pub visit-Moved :
    (this tick now : ℕ) (front : List Task) (t : Task) (rest : List Task)
    → Moved this tick now t (visit this tick now front t rest)
unfolding visit
visit-Moved this tick now front t rest = elim (Bool-cases (ltb (now + tick) t.wakeup)) [
  | inl c ↦ rw c refl
  | inr c ↦ rw c (by_state-Moved this tick now front t rest t.state refl)
]
