-- ===== src/RoundRobin/Rounds.antt =====
-- The rounds of the loop of `rr_pick_next` come to an end, and to an answer.
use flightos.Common.{
  ℕ, zero, suc, ◌+◌, ◌<◌, ◌≡◌, refl, sym, ap, subst, ◌∙◌, ◌⊎◌, inl, inr, true, false, ◌&&◌, Option,
  none, some, List, [], ◌∷◌, ◌++◌, arith, ◌==◌, ==_refl, Bool-cases, of_some, All, All-append,
}
use flightos.RoundRobin.{
  Thread, Verdict, skip, refill, take_it, bury, verdict, Outcome, pick_round, pick_loop,
}
use flightos.RoundRobin.Verdicts.{
  is_runnable, has, count, rounds, cost, cost-append, count-append, has-append, Refills, can_run,
  verdict-can_run, refilled,
}

-- Whether the choice was made before, or is among the tasks still to be visited; none of them may run if
-- there is no choice.
abbrev pub Answer : ℕ → List Thread → Option ℕ → Option ℕ → Type 0
Answer cpu rest next none = (next ≡ none) × All (λ t. is_runnable cpu t ≡ false) rest
Answer cpu rest next (some a) = (next ≡ some a) ⊎ (has cpu a rest ≡ true)

abbrev Ends : ℕ → List Thread → List Thread → List Thread → Option ℕ → Outcome → Type 0
Ends cpu front rest dead next o =
    (r : Option ℕ) × (ts : List Thread) × (ds : List Thread) × (o ≡ some (r, ts, ds))
    × Answer cpu rest next r
    × ((a : ℕ) → count a ts + count a ds ≡ count a front + count a rest + count a dead)

abbrev AllEnd : ℕ → ℕ → ℕ → Type 0
AllEnd cpu tick fuel =
    (front rest dead : List Thread) (next : Option ℕ)
    → All (Refills tick) rest
    → cost cpu tick rest < fuel
    → Ends cpu front rest dead next (pick_loop fuel cpu tick front rest dead next)

pass :
    (cpu : ℕ) (t : Thread) (rest : List Thread) (next r : Option ℕ)
    → is_runnable cpu t ≡ false
    → Answer cpu rest next r
    → Answer cpu (t ∷ rest) next r
pass cpu t rest next none e (n, h) = (n, (e, h))
pass cpu t rest next (some a) e (inl h) = inl h
pass cpu t rest next (some a) e (inr h) = inr (ground arith)

here :
    (cpu : ℕ) (t : Thread) (rest : List Thread)
    → is_runnable cpu t ≡ true
    → has cpu t.addr (t ∷ rest) ≡ true
here cpu t rest e = rw (==_refl t.addr, e) refl

has-cons :
    (cpu a : ℕ) (t : Thread) (rest : List Thread)
    → has cpu a rest ≡ true
    → has cpu a (t ∷ rest) ≡ true
has-cons cpu a t rest h = elim (Bool-cases (t.addr == a && is_runnable cpu t)) [
  | inl e ↦ rw e refl
  | inr e ↦ rw e h
]

has-single :
    (cpu a : ℕ) (t : Thread) (rest : List Thread)
    → has cpu a (record t { runtime = t.wcet } ∷ []) ≡ true
    → has cpu a (t ∷ rest) ≡ true
has-single cpu a t rest h = elim (Bool-cases (t.addr == a && is_runnable cpu t)) [
  | inl e ↦ rw e refl
  | inr e ↦ cc (rw e at h)
]

-- A choice among the tasks behind a task and that task at the end is one among them all.
carry :
    (cpu : ℕ) (t : Thread) (rest : List Thread) (next r : Option ℕ)
    → is_runnable cpu t ≡ true
    → Answer cpu (rest ++ (record t { runtime = t.wcet } ∷ [])) (some t.addr) r
    → Answer cpu (t ∷ rest) next r
carry cpu t rest next none ok (n, h) = cc n
carry cpu t rest next (some a) ok (inl e) =
    inr (subst (λ b. has cpu b (t ∷ rest) ≡ true) (of_some e) (here cpu t rest ok))
carry cpu t rest next (some a) ok (inr h) =
    elim (has-append cpu a rest (record t { runtime = t.wcet } ∷ []) h) [
      | inl f ↦ inr (has-cons cpu a t rest f)
      | inr f ↦ inr (has-single cpu a t rest f)
    ]

round-Ends :
    (cpu tick fuel : ℕ)
    → AllEnd cpu tick fuel
    → (v : Verdict) (front : List Thread) (t : Thread) (rest dead : List Thread) (next : Option ℕ)
    → verdict cpu tick t ≡ v
    → All (Refills tick) (t ∷ rest)
    → cost cpu tick (t ∷ rest) < suc fuel
    → Ends cpu front
        (t ∷ rest)
        dead
        next
        (pick_round (pick_loop fuel cpu tick) v front t rest dead next)
round-Ends cpu tick fuel ih skip front t rest dead next e h l =
    let (r, ts, ds, f, ans, c) =
      ih (front ++ (t ∷ [])) rest dead next h.1 (omega (arith, l, ap rounds e)) in
    (
      r,
      ts,
      ds,
      f,
      pass cpu t rest next r (sym (verdict-can_run cpu tick t) ∙ ap can_run e) ans,
      λ a. omega (arith, c a, count-append a front (t ∷ [])),
    )
round-Ends cpu tick fuel ih bury front t rest dead next e h l =
    let (r, ts, ds, f, ans, c) =
      ih front rest (dead ++ (t ∷ [])) next h.1 (omega (arith, l, ap rounds e)) in
    (
      r,
      ts,
      ds,
      f,
      pass cpu t rest next r (sym (verdict-can_run cpu tick t) ∙ ap can_run e) ans,
      λ a. omega (arith, c a, count-append a dead (t ∷ [])),
    )
round-Ends cpu tick fuel ih take_it front t rest dead next e h l = (
  some t.addr,
  front ++ (t ∷ rest),
  dead,
  refl,
  inr (here cpu t rest (sym (verdict-can_run cpu tick t) ∙ ap can_run e)),
  λ a. omega (arith, count-append a front (t ∷ rest)),
)
round-Ends cpu tick fuel ih refill front t [] dead next e h l = (
  some t.addr,
  front ++ (record t { runtime = t.wcet } ∷ []),
  dead,
  refl,
  inr (here cpu t [] (sym (verdict-can_run cpu tick t) ∙ ap can_run e)),
  λ a. omega (arith, count-append a front (record t { runtime = t.wcet } ∷ [])),
)
round-Ends cpu tick fuel ih refill front t (y ∷ ys) dead next e h l =
    let t' : Thread = record t { runtime = t.wcet } in
    let ok : is_runnable cpu t ≡ true = sym (verdict-can_run cpu tick t) ∙ ap can_run e in
    let (r, ts, ds, f, ans, c) =
      ih front ((y ∷ ys) ++ (t' ∷ [])) dead (some t.addr)
        (All-append (Refills tick) (y ∷ ys) (t' ∷ []) h.1 (h.0, tt))
        (omega (
          arith,
          l,
          ap rounds e,
          ap rounds (refilled cpu tick t e h.0),
          cost-append cpu tick (y ∷ ys) (t' ∷ []),
        )) in
    (
      r,
      ts,
      ds,
      f,
      carry cpu t (y ∷ ys) next r ok ans,
      λ a. omega (arith, c a, count-append a (y ∷ ys) (t' ∷ [])),
    )

no_more : (cpu : ℕ) (next : Option ℕ) → Answer cpu [] next next
no_more cpu none = (refl, tt)
no_more cpu (some a) = inl refl

loop_step : (cpu tick fuel : ℕ) → AllEnd cpu tick fuel → AllEnd cpu tick (suc fuel)
unfolding pick_loop
loop_step cpu tick fuel ih front [] dead next h l =
    (next, front, dead, refl, no_more cpu next, λ a. omega arith)
loop_step cpu tick fuel ih front (t ∷ rest) dead next h l =
    round-Ends cpu tick fuel ih (verdict cpu tick t) front t rest dead next refl h l

pub pick_loop-AllEnd : (cpu tick fuel : ℕ) → AllEnd cpu tick fuel
pick_loop-AllEnd cpu tick zero = λ front rest dead next h l. absurd (omega arith)
pick_loop-AllEnd cpu tick (suc fuel) = loop_step cpu tick fuel (pick_loop-AllEnd cpu tick fuel)
