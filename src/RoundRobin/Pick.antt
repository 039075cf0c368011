-- ===== src/RoundRobin/Pick.antt =====
-- `rr_pick_next` ends, and leaves no task that could run aside.
use flightos.Common.{
  ℕ, suc, ◌+◌, ◌*◌, ◌≤◌, ◌≡◌, refl, ap, inl, inr, true, false, Option, none, some, List, [], ◌∷◌,
  arith, ◌==◌, if◌then◌else◌, ==_refl, Bool-cases, length, All, is_empty,
}
use flightos.RoundRobin.{
  Thread, Queues, Verdict, skip, refill, take_it, bury, verdict, set_busy, chosen, pick_next,
}
use flightos.RoundRobin.Verdicts.{is_runnable, has, count, rounds, cost, Refills}
use flightos.RoundRobin.Rounds.{Answer, pick_loop-AllEnd}

cost-le : (cpu tick : ℕ) (ts : List Thread) → cost cpu tick ts ≤ 2 * length ts
cost-le cpu tick [] = omega arith
cost-le cpu tick (t ∷ ts) = omega (arith, cost-le cpu tick ts, rounds-le (verdict cpu tick t))
  where
    rounds-le : (v : Verdict) → rounds v ≤ 2
    rounds-le refill = omega arith
    rounds-le take_it = omega arith
    rounds-le skip = omega arith
    rounds-le bury = omega arith

count-set_busy : (a : ℕ) (r : Option ℕ) (ts : List Thread) → count a (set_busy r ts) ≡ count a ts
count-set_busy a none ts = refl
count-set_busy a (some b) [] = refl
count-set_busy a (some b) (t ∷ ts) = elim (Bool-cases (t.addr == b)) [
  | inl e ↦ rw e (omega (arith, count-set_busy a (some b) ts))
  | inr e ↦ rw e (omega (arith, count-set_busy a (some b) ts))
]

-- What `rr_pick_next` answers: a task of the run queue that may run on the CPU, or that there is none.
abbrev pub Picked : ℕ → List Thread → Option ℕ → Type 0
Picked cpu ts none = All (λ t. is_runnable cpu t ≡ false) ts
Picked cpu ts (some a) = has cpu a ts ≡ true

-- `rr_pick_next` ends, if the time slice of every task in the state TASK_RUN is longer than two tick periods:
-- it chooses a task that may run on the CPU, unless there is none, and keeps every task in the run
-- queue or in the list of dead tasks of the CPU.
pub pick_next_lem :
    (q : Queues) (cpu period : ℕ)
    → All (Refills (period * 2)) q.run_queue
    → (r : Option ℕ) × (q' : Queues) × (pick_next q cpu period ≡ some (r, q'))
      × Picked cpu q.run_queue r
      × ((a : ℕ)
          → count a q'.run_queue + count a (q'.dead cpu)
            ≡ count a q.run_queue + count a (q.dead cpu))
unfolding pick_next
pick_next_lem q cpu period h = elim (Bool-cases (is_empty q.run_queue)) [
  | inl e ↦ rw e (none, q, refl, nothing q.run_queue e, λ a. refl)
  | inr e ↦
      let (r, ts, ds, f, ans, c) =
        pick_loop-AllEnd cpu (period * 2) (suc (2 * length q.run_queue)) [] q.run_queue (q.dead cpu)
          none h (omega (arith, cost-le cpu (period * 2) q.run_queue)) in
      rw e (
        r,
        _,
        ap (chosen q cpu) f,
        picked r ans,
        λ a. omega (
          arith,
          c a,
          count-set_busy a r ts,
          ap (λ b. count a (if b then ds else q.dead cpu)) (==_refl cpu),
        ),
      )
]
  where
    nothing : (ts : List Thread) → is_empty ts ≡ true → Picked cpu ts none
    nothing [] e = tt
    nothing (t ∷ ts) e = absurd (cc e)

    picked : (r : Option ℕ) → Answer cpu q.run_queue none r → Picked cpu q.run_queue r
    picked none a = a.1
    picked (some b) (inl e) = absurd (cc e)
    picked (some b) (inr e) = e
