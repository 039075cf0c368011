-- ===== src/Edf/Pick.antt =====
-- `edf_pick_next` ends, loses no task, and chooses the head of the run queue.
use flightos.Common.{
  ℕ, suc, ◌+◌, ◌*◌, ◌≤◌, ◌<◌, ◌≡◌, refl, inl, inr, true, false, Option, none, some, List, [], ◌∷◌,
  arith, Bool-cases, length, take, All, is_empty,
}
use flightos.RoundRobin.{busy}
use flightos.Edf.{Task, is_run, Picked, no_fuel, no_first, picked, take_first, pick_next}
use flightos.Edf.Moves.{MayGo, count, rounds-le, cost, lives}
use flightos.Edf.Rounds.{pick_loop-AllEnd}

-- The chosen task is the first one in the queue, and is busy; if there is none, the first one is not ready to run.
abbrev pub Chosen : Option ℕ → List Task → Type 0
Chosen (some a) (t ∷ ts) = (t.addr ≡ a) × (t.state ≡ busy)
Chosen (some a) [] = ⊥
Chosen none ts = All (λ t. is_run t.state ≡ false) (take 1 ts)

abbrev pub Answer : ℕ → List Task → Picked → Type 0
Answer this ts no_fuel = ⊥
Answer this ts no_first = (lives ts ≡ 0) × (0 < length ts)
Answer this ts (picked r us fs n) =
    ((a : ℕ) → count a us + count a fs ≡ count a ts)
    × (lives ts ≤ length us)
    × All (MayGo this) fs
    × Chosen r us

pub cost-le : (tick now : ℕ) (ts : List Task) → cost tick now ts ≤ 2 * length ts
cost-le tick now [] = omega arith
cost-le tick now (t ∷ ts) = omega (arith, cost-le tick now ts, rounds-le tick now t)

take_first-Answer :
    (this : ℕ) (ts us fs : List Task) (n : ℕ)
    → 0 < length ts
    → ((a : ℕ) → count a us + count a fs ≡ count a ts)
    → lives ts ≤ length us
    → All (MayGo this) fs
    → Answer this ts (take_first (some (us, fs, n)))
take_first-Answer this ts [] fs n l c v g = (omega (arith, v), l)
take_first-Answer this ts (u ∷ us) fs n l c v g = elim (Bool-cases (is_run u.state)) [
  | inl e ↦ rw e (c, v, g, (refl, refl))
  | inr e ↦ rw e (c, v, g, (e, tt))
]

-- `edf_pick_next` always ends. Every task of the run queue stays there or is freed, and no other is: only dead
-- tasks are freed, and never the one that is running. The task it chooses is the first one of the queue
-- then, and busy; if it chooses none, the first one is not in the state TASK_RUN. It reads the first
-- entry of an empty list only where every task of the queue was dead or runs only once.
pub edf_pick_next_lem :
    (this period now : ℕ) (ts : List Task) → Answer this ts (pick_next this period now ts)
unfolding pick_next
edf_pick_next_lem this period now ts = elim (Bool-cases (is_empty ts)) [
  | inl e ↦ rw e (nothing ts e)
  | inr e ↦
      let (us, fs, n, f, c, l, g) =
        pick_loop-AllEnd this (period * 2) now (suc (2 * length ts)) [] ts [] 0
          (omega (arith, cost-le (period * 2) now ts)) in
      rw (e, f)
        (take_first-Answer this ts us fs n (filled ts e) (λ a. omega (arith, c a))
          (omega (arith, l)) (g tt))
]
  where
    nothing : (ts : List Task) → is_empty ts ≡ true → Answer this ts (picked none ts [] 0)
    nothing [] e = ((λ a. omega arith), omega arith, tt, tt)
    nothing (t ∷ ts) e = absurd (cc e)

    filled : (ts : List Task) → is_empty ts ≡ false → 0 < length ts
    filled [] e = absurd (cc e)
    filled (t ∷ ts) e = omega arith
