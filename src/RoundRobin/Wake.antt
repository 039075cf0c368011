-- ===== src/RoundRobin/Wake.antt =====
-- `rr_wake` moves one task, and gives it a time slice that `rr_pick_next` can work with.
use flightos.Common.{
  ℕ, zero, suc, ◌+◌, ◌*◌, ◌<◌, ◌≡◌, refl, sym, ap, ap₂, subst, ◌∙◌, ◌≢◌, inl, inr, Bool, true,
  false, not, Option, none, some, List, [], ◌∷◌, arith, ◌==◌, if◌then◌else◌, ==_iff, Bool-cases,
  of_some, All, is_empty, Status, success, einval,
}
use native.Mathlib.Nat.{suc-mul}
use flightos.RoundRobin.{run, Thread, Queues, put_front, take_out, woken, wake}
use flightos.RoundRobin.Verdicts.{Refills, count}

-- What `take_out` finds.
abbrev Taken : ℕ → List Thread → Option (Thread × List Thread) → Type 0
Taken a ts none = count a ts ≡ 0
Taken a ts (some (t, us)) =
    (t.addr ≡ a)
    × ((b : ℕ) → count b us + (if t.addr == b then 1 else 0) ≡ count b ts)
    × (All (λ (u : Thread). u.priority ≢ 0) ts → t.priority ≢ 0)

take_out-Taken : (a : ℕ) (ts : List Thread) → Taken a ts (take_out a ts)
take_out-Taken a [] = refl
take_out-Taken a (t ∷ ts) = elim (Bool-cases (t.addr == a)) [
  | inl e ↦ rw e ((==_iff t.addr a).0 e, (λ b. omega arith), (λ h. h.0))
  | inr e ↦ rw e (on (take_out a ts) (take_out-Taken a ts) e)
]
  where
    on :
        (o : Option (Thread × List Thread))
        → Taken a ts o
        → (t.addr == a) ≡ false
        → Taken a (t ∷ ts) (put_front t o)
    on none f e = let g : count a ts ≡ 0 = f in rw e (omega (arith, g))
    on (some (u, us)) (f, c, p) e = (f, (λ b. omega (arith, c b)), (λ h. p h.1))

-- What `rr_wake` does with a task.
abbrev pub Woken : Queues → ℕ → Option Thread → Status × Queues → Type 0
Woken q period o (s, q') =
    (s ≡ success
      → (t : Thread) × (o ≡ some t)
        × (t.is_rr ≡ true)
        × (u : Thread) × (q'.run_queue ≡ u ∷ q.run_queue)
        × (u.addr ≡ t.addr)
        × (u.state ≡ run)
        × (u.runtime ≡ u.priority * (period * 16))
        × ((b : ℕ)
            → count b q'.wake_queue + count b q'.run_queue
              ≡ count b q.wake_queue + count b q.run_queue)
        × (0 < period
            → All (λ (v : Thread). v.priority ≢ 0) q.wake_queue
            → All (Refills (period * 2)) q.run_queue
            → All (Refills (period * 2)) q'.run_queue))
    × (s ≢ success → (s ≡ einval) × (q' ≡ q))
    × ((t : Thread) → o ≡ some t → t.is_rr ≡ true → count t.addr q.wake_queue ≢ 0 → s ≡ success)

slice-large :
    (priority period : ℕ) → priority ≢ 0 → 0 < period → period * 2 < priority * (period * 16)
slice-large zero period h l = absurd (h refl)
slice-large (suc k) period h l = omega (arith, suc-mul k (period * 16))

wake-Woken :
    (q : Queues) (t : Thread) (period : ℕ)
    → t.is_rr ≡ true
    → (o : Option (Thread × List Thread)) → Taken t.addr q.wake_queue o
    → Woken q period (some t) (woken q period o)
wake-Woken q t period r none f = (
  (λ e. cc),
  (λ n. (refl, refl)),
  (λ v e i n. absurd (n (ap (λ (w : Thread). count w.addr q.wake_queue) (sym (of_some e)) ∙ f))),
)
wake-Woken q t period r (some (u, us)) (f, c, p) = (
  (λ e. (
    t,
    refl,
    r,
    _,
    refl,
    f,
    refl,
    refl,
    (λ b. omega (arith, c b)),
    (λ l h g. ((λ s. slice-large u.priority period (p h) l), g)),
  )),
  (λ n. absurd (n refl)),
  (λ v e i n. refl),
)

-- A task that may not be woken up: it has another policy, or does not wait.
abbrev Stays : Queues → Option Thread → Type 0
Stays q o = (t : Thread) → o ≡ some t → t.is_rr ≡ true → count t.addr q.wake_queue ≡ 0

refused : (q : Queues) (period : ℕ) (o : Option Thread) → Stays q o → Woken q period o (einval, q)
refused q period o h = ((λ e. cc), (λ n. (refl, refl)), (λ t e i n. absurd (n (h t e i))))

empty-count : (a : ℕ) (ts : List Thread) → is_empty ts ≡ true → count a ts ≡ 0
empty-count a [] e = refl
empty-count a (t ∷ ts) e = absurd (cc e)

-- `rr_wake` succeeds exactly for a task of its policy that is in the wake queue: it moves this task, and no
-- other, to the head of the run queue, with the time slice of its priority; the slices of all tasks
-- there stay longer than two tick periods, if no waiting task has the priority 0. It answers -EINVAL
-- otherwise, and changes nothing then.
pub wake_lem : (q : Queues) (o : Option Thread) (period : ℕ) → Woken q period o (wake q o period)
unfolding wake
wake_lem q none period = refused q period none (λ t e. absurd (cc e))
wake_lem q (some t) period = elim (Bool-cases t.is_rr) [
  | inr e ↦ subst (Woken q period (some t)) (sym (ap (tested (is_empty q.wake_queue)) e)) (
      refused q period (some t)
        (λ v f i. absurd (cc (e, i, ap (λ (w : Thread). w.is_rr) (of_some f)))))
  | inl e ↦ elim (Bool-cases (is_empty q.wake_queue)) [
    | inl f ↦
        subst (Woken q period (some t)) (sym (ap₂ tested f e))
          (refused q period (some t) (λ v g i. empty-count v.addr q.wake_queue f))
    | inr f ↦ subst (Woken q period (some t)) (sym (ap₂ tested f e)) (
        wake-Woken q t period e (take_out t.addr q.wake_queue) (take_out-Taken t.addr q.wake_queue))
  ]
]
  where
    tested : Bool → Bool → Status × Queues
    tested c b =
        if not b
        then (einval, q)
        else if c
        then (einval, q)
        else woken q period (take_out t.addr q.wake_queue)
