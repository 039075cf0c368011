-- ===== src/Edf/Rounds.antt =====
-- The rounds of the loop of `edf_pick_next` come to an end, and lose no task.
use flightos.Common.{
  ℕ, zero, suc, ◌+◌, ◌≤◌, ◌<◌, ◌≡◌, refl, ◌∙◌, some, List, [], ◌∷◌, ◌++◌, arith, length, All,
  length-append, All-append,
}
use flightos.Edf.{
  stay, to_head, to_tail, remove, visit, alarms_at, pick_round, Move, Task, Passed, pick_loop,
}
use flightos.Edf.Moves.{
  MayGo, count, count-append, count-same, rounds-positive, cost, cost-append, live, lives,
  lives-append, Moved, visit-Moved,
}

-- The loop ends; every task is in the queue then or has been freed, and one that is not doomed has not.
abbrev Ends : ℕ → List Task → List Task → List Task → Passed → Type 0
Ends this front rest freed o =
    (ts : List Task) × (fs : List Task) × (n : ℕ) × (o ≡ some (ts, fs, n))
    × ((a : ℕ) → count a ts + count a fs ≡ count a front + count a rest + count a freed)
    × (length front + lives rest ≤ length ts)
    × (All (MayGo this) freed → All (MayGo this) fs)

abbrev AllEnd : ℕ → ℕ → ℕ → ℕ → Type 0
AllEnd this tick now fuel =
    (front rest freed : List Task) (n : ℕ)
    → cost tick now rest < fuel
    → Ends this front rest freed (pick_loop fuel this tick now front rest freed n)

live-le : (t : Task) → live t ≤ 1
live-le t = ground arith

-- What a round does, where the task `u` stands for `t` in the rounds to come.
goes_on :
    (this tick now fuel : ℕ)
    → AllEnd this tick now fuel
    → (front' rest' freed' front rest freed : List Task) (n : ℕ)
    → ((a : ℕ)
        → count a front' + count a rest' + count a freed'
          ≡ count a front + count a rest + count a freed)
    → length front + lives rest ≤ length front' + lives rest'
    → (All (MayGo this) freed → All (MayGo this) freed')
    → cost tick now rest' < fuel
    → Ends this front rest freed (pick_loop fuel this tick now front' rest' freed' n)
goes_on this tick now fuel ih front' rest' freed' front rest freed n c l g k =
    let (ts, fs, m, f, c', l', g') = ih front' rest' freed' n k in
    (ts, fs, m, f, (λ a. c' a ∙ c a), omega (arith, l, l'), (λ h. g' (g h)))

round-Ends :
    (this tick now fuel : ℕ)
    → AllEnd this tick now fuel
    → (m : Move) (front : List Task) (t : Task) (rest freed : List Task) (n : ℕ)
    → Moved this tick now t m
    → cost tick now (t ∷ rest) < suc fuel
    → Ends this front
        (t ∷ rest)
        freed
        (pick_round (pick_loop fuel this tick now) m front t rest freed n)
round-Ends this tick now fuel ih (stay u) front t rest freed n e l =
    goes_on this tick now fuel ih (front ++ (u ∷ [])) rest freed front (t ∷ rest) freed n
      (λ a. omega (arith, count-append a front (u ∷ []), count-same a t u [] e))
      (omega (arith, length-append front (u ∷ []), live-le t)) (λ h. h)
      (omega (arith, l, rounds-positive tick now t))
round-Ends this tick now fuel ih (to_head u) front t rest freed n e l =
    goes_on this tick now fuel ih (u ∷ front) rest freed front (t ∷ rest) freed n
      (λ a. omega (arith, count-same a t u [] e)) (omega (arith, live-le t)) (λ h. h)
      (omega (arith, l, rounds-positive tick now t))
round-Ends this tick now fuel ih remove front t rest freed n e l =
    goes_on this tick now fuel ih front rest (freed ++ (t ∷ [])) front (t ∷ rest) freed n
      (λ a. omega (arith, count-append a freed (t ∷ []))) (omega (arith, e.0))
      (λ h. All-append (MayGo this) freed (t ∷ []) h (e.1, tt))
      (omega (arith, l, rounds-positive tick now t))
round-Ends this tick now fuel ih (to_tail u) front t [] freed n (e, r, d, v) l = (
  front ++ (u ∷ []),
  freed,
  n,
  refl,
  (λ a. omega (arith, count-append a front (u ∷ []), count-same a t u [] e)),
  omega (arith, length-append front (u ∷ []), live-le t),
  (λ h. h),
)
round-Ends this tick now fuel ih (to_tail u) front t (y ∷ ys) freed n (e, r, d, v) l =
    goes_on this tick now fuel ih front ((y ∷ ys) ++ (u ∷ [])) freed front (t ∷ (y ∷ ys)) freed n
      (λ a. omega (arith, count-append a (y ∷ ys) (u ∷ []), count-same a t u [] e))
      (omega (arith, lives-append (y ∷ ys) (u ∷ []), v)) (λ h. h)
      (omega (arith, l, r, d, cost-append tick now (y ∷ ys) (u ∷ [])))

loop_step : (this tick now fuel : ℕ) → AllEnd this tick now fuel → AllEnd this tick now (suc fuel)
unfolding pick_loop
loop_step this tick now fuel ih front [] freed n l =
    (front, freed, n, refl, (λ a. omega arith), omega arith, (λ h. h))
loop_step this tick now fuel ih front (t ∷ rest) freed n l =
    round-Ends this tick now fuel ih (visit this tick now front t rest) front t rest freed
      (n + alarms_at tick now t) (visit-Moved this tick now front t rest) l

pub pick_loop-AllEnd : (this tick now fuel : ℕ) → AllEnd this tick now fuel
pick_loop-AllEnd this tick now zero = λ front rest freed n l. absurd (omega arith)
pick_loop-AllEnd this tick now (suc fuel) =
    loop_step this tick now fuel (pick_loop-AllEnd this tick now fuel)
