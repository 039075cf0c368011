-- ===== src/RoundRobin/Verdicts.antt =====
-- What the loop of `rr_pick_next` does with a task, and what it says of the task.
use flightos.Common.{
  ℕ, ◌+◌, ◌<◌, ◌≡◌, refl, ◌⊎◌, inl, inr, Bool, true, false, ◌&&◌, ◌||◌, List, [], ◌∷◌, ◌++◌, arith,
  leb, ◌==◌, if◌then◌else◌, Bool-cases,
}
use flightos.RoundRobin.{
  State, run, idle, new, dead_state, busy, Thread, is_on, may_run_on, Verdict, refill, take_it,
  by_state, verdict,
}

abbrev is_run : State → Bool
is_run run = true
is_run _ = false

-- A task that may be given the CPU.
abbrev pub is_runnable : ℕ → Thread → Bool
is_runnable cpu t = may_run_on t.on_cpu cpu && is_run t.state

-- Whether the task at an address is in a list, and may be given the CPU, and how often it is there.
abbrev pub has : ℕ → ℕ → List Thread → Bool
has cpu a [] = false
has cpu a (t ∷ ts) = (t.addr == a && is_runnable cpu t) || has cpu a ts

abbrev pub count : ℕ → List Thread → ℕ
count a [] = 0
count a (t ∷ ts) = (if t.addr == a then 1 else 0) + count a ts

-- How many rounds a task can take.
abbrev pub rounds : Verdict → ℕ
rounds refill = 2
rounds _ = 1

abbrev pub cost : ℕ → ℕ → List Thread → ℕ
cost cpu tick [] = 0
cost cpu tick (t ∷ ts) = rounds (verdict cpu tick t) + cost cpu tick ts

pub cost-append :
    (cpu tick : ℕ) (ts us : List Thread)
    → cost cpu tick (ts ++ us) ≡ cost cpu tick ts + cost cpu tick us
cost-append cpu tick [] us = omega arith
cost-append cpu tick (t ∷ ts) us = omega (arith, cost-append cpu tick ts us)

pub count-append : (a : ℕ) (ts us : List Thread) → count a (ts ++ us) ≡ count a ts + count a us
count-append a [] us = omega arith
count-append a (t ∷ ts) us = omega (arith, count-append a ts us)

or-cases : (b c : Bool) → (b || c) ≡ true → (b ≡ true) ⊎ (c ≡ true)
or-cases true c h = inl refl
or-cases false c h = inr h

pub has-append :
    (cpu a : ℕ) (ts us : List Thread)
    → has cpu a (ts ++ us) ≡ true
    → (has cpu a ts ≡ true) ⊎ (has cpu a us ≡ true)
has-append cpu a [] us h = inr h
has-append cpu a (t ∷ ts) us h =
    elim (or-cases (t.addr == a && is_runnable cpu t) (has cpu a (ts ++ us)) h) [
      | inl e ↦ inl (rw e refl)
      | inr e ↦ elim (has-append cpu a ts us e) [ inl f ↦ inl (ground arith) | inr f ↦ inr f ]
    ]

-- A task whose time slice is larger than the tick runs when it is visited again.
abbrev pub Refills : ℕ → Thread → Type 0
Refills tick t = t.state ≡ run → tick < t.wcet

by_state-run : (s : State) (b h : Bool) → by_state s b h ≡ refill → s ≡ run
by_state-run run b h e = refl
by_state-run idle b h e = cc
by_state-run new b h e = cc
by_state-run dead_state b true e = cc
by_state-run dead_state b false e = cc
by_state-run busy b h e = cc

refill-lem :
    (cpu tick : ℕ) (t : Thread)
    → verdict cpu tick t ≡ refill
    → (may_run_on t.on_cpu cpu ≡ true) × (t.state ≡ run)
unfolding verdict
refill-lem cpu tick t e = elim (Bool-cases (may_run_on t.on_cpu cpu)) [
  | inl f ↦ (f, by_state-run t.state (leb t.runtime tick) (is_on t.on_cpu cpu) (rw f at e))
  | inr f ↦ cc (rw f at e)
]

abbrev pub can_run : Verdict → Bool
can_run refill = true
can_run take_it = true
can_run _ = false

by_state-can_run : (s : State) (b h : Bool) → can_run (by_state s b h) ≡ is_run s
by_state-can_run run true h = refl
by_state-can_run run false h = refl
by_state-can_run idle b h = refl
by_state-can_run new b h = refl
by_state-can_run dead_state b true = refl
by_state-can_run dead_state b false = refl
by_state-can_run busy b h = refl

pub verdict-can_run : (cpu tick : ℕ) (t : Thread) → can_run (verdict cpu tick t) ≡ is_runnable cpu t
unfolding verdict
verdict-can_run cpu tick t = elim (Bool-cases (may_run_on t.on_cpu cpu)) [
  | inl f ↦ rw f (by_state-can_run t.state (leb t.runtime tick) (is_on t.on_cpu cpu))
  | inr f ↦ rw f refl
]

pub refilled :
    (cpu tick : ℕ) (t : Thread)
    → verdict cpu tick t ≡ refill
    → Refills tick t
    → verdict cpu tick (record t { runtime = t.wcet }) ≡ take_it
unfolding verdict
refilled cpu tick t e h =
    let (f, s) = refill-lem cpu tick t e in
    let l : leb t.wcet tick ≡ false = spent (h s) in rw (f, s, l) refl
  where
    spent : tick < t.wcet → leb t.wcet tick ≡ false
    spent g = ground arith
