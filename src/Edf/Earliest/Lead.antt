-- ===== src/Edf/Earliest/Lead.antt =====
-- The first task of the queue keeps the earliest deadline through the loop of `edf_pick_next`.
use flightos.Common.{
  ℕ, zero, suc, ◌+◌, ◌*◌, ◌≤◌, ◌≡◌, refl, sym, ap, subst, ◌∙◌, inl, inr, true, false, none, some,
  List, [], ◌∷◌, ◌++◌, arith, ltb, if◌then◌else◌, Bool-cases, length, All, All-append_left,
}
use flightos.RoundRobin.{run, busy}
use flightos.Edf.{
  Task, can_execute, Move, stay, to_head, to_tail, remove, compare_first, is_run, by_state, visit,
  alarms_at, Passed, pick_round, pick_loop, picked, take_first, pick_next,
}
use flightos.Edf.Rounds.{pick_loop-AllEnd}
use flightos.Edf.Pick.{cost-le}
use flightos.Edf.Earliest.{is_ready, Ordered, visit-Ordered}

-- The first task of a queue is in the state TASK_RUN, and has a deadline no later than `f` and each of the
-- tasks that could run.
abbrev Leads : ℕ → ℕ → Task → List Task → List Task → Type 0
Leads tick now f rest [] = ⊥
Leads tick now f rest (u ∷ us) =
    (u.state ≡ run)
    × (u.deadline ≤ f.deadline)
    × All (λ t. is_ready tick now t ≡ true → u.deadline ≤ t.deadline) rest

Leads-cons :
    (tick now : ℕ) (f g t : Task) (rest ts : List Task)
    → g.deadline ≤ f.deadline
    → (is_ready tick now t ≡ true → g.deadline ≤ t.deadline)
    → Leads tick now g rest ts
    → Leads tick now f (t ∷ rest) ts
Leads-cons tick now f g t rest [] l r h = h
Leads-cons tick now f g t rest (u ∷ us) l r (s, d, a) =
    (s, omega (arith, l, d), ((λ e. omega (arith, r e, d)), a))

Leads-append :
    (tick now : ℕ) (f : Task) (rest more ts : List Task)
    → Leads tick now f (rest ++ more) ts
    → Leads tick now f rest ts
Leads-append tick now f rest more [] h = h
Leads-append tick now f rest more (u ∷ us) (s, d, a) =
    (s, d, All-append_left (λ t. is_ready tick now t ≡ true → u.deadline ≤ t.deadline) rest more a)

abbrev AllLead : ℕ → ℕ → ℕ → ℕ → Type 0
AllLead this tick now fuel =
    (f : Task) (fs rest freed : List Task) (n : ℕ) (ts gs : List Task) (m : ℕ)
    → f.state ≡ run
    → pick_loop fuel this tick now (f ∷ fs) rest freed n ≡ some (ts, gs, m)
    → Leads tick now f rest ts

queue_of :
    {ts us fs gs : List Task} {n m : ℕ}
    → ◌≡◌ {A = Passed} (some (ts, fs, n)) (some (us, gs, m))
    → ts ≡ us
queue_of {ts} {us} {fs} {gs} {n} {m} e =
    ap {A = Passed} {B = List Task} (λ o. elim o [ none ↦ ts | some p ↦ p.0 ]) e

round-Leads :
    (this tick now fuel : ℕ)
    → AllLead this tick now fuel
    → (v : Move) (f : Task) (fs : List Task) (t : Task) (rest freed : List Task) (n : ℕ)
      (ts gs : List Task) (m : ℕ)
    → f.state ≡ run
    → Ordered tick now f t v
    → pick_round (pick_loop fuel this tick now) v (f ∷ fs) t rest freed n ≡ some (ts, gs, m)
    → Leads tick now f (t ∷ rest) ts
round-Leads this tick now fuel ih (stay u) f fs t rest freed n ts gs m s o e =
    Leads-cons tick now f f t rest ts (omega arith) o
      (ih f (fs ++ (u ∷ [])) rest freed n ts gs m s e)
round-Leads this tick now fuel ih (to_head u) f fs t rest freed n ts gs m s (r, d, o) e =
    Leads-cons tick now f u t rest ts d o (ih u (f ∷ fs) rest freed n ts gs m r e)
round-Leads this tick now fuel ih remove f fs t rest freed n ts gs m s o e =
    Leads-cons tick now f f t rest ts (omega arith) o
      (ih f fs rest (freed ++ (t ∷ [])) n ts gs m s e)
round-Leads this tick now fuel ih (to_tail u) f fs t [] freed n ts gs m s o e =
    subst (Leads tick now f (t ∷ [])) (queue_of e) (s, omega arith, (o, tt))
round-Leads this tick now fuel ih (to_tail u) f fs t (y ∷ ys) freed n ts gs m s o e =
    Leads-cons tick now f f t (y ∷ ys) ts (omega arith) o (
      Leads-append tick now f (y ∷ ys) (u ∷ []) ts
        (ih f fs ((y ∷ ys) ++ (u ∷ [])) freed n ts gs m s e))

lead_step : (this tick now fuel : ℕ) → AllLead this tick now fuel → AllLead this tick now (suc fuel)
unfolding pick_loop
lead_step this tick now fuel ih f fs [] freed n ts gs m s e =
    subst (Leads tick now f []) (queue_of e) (s, omega arith, tt)
lead_step this tick now fuel ih f fs (t ∷ rest) freed n ts gs m s e =
    round-Leads this tick now fuel ih (visit this tick now (f ∷ fs) t rest) f fs t rest freed
      (n + alarms_at tick now t) ts gs m s (visit-Ordered this tick now f fs t rest s) e

no_lead : (this tick now : ℕ) → AllLead this tick now 0
unfolding pick_loop
no_lead this tick now f fs rest freed n ts gs m s e = absurd (cc e)

lead : (this tick now fuel : ℕ) → AllLead this tick now fuel
lead this tick now zero = no_lead this tick now
lead this tick now (suc fuel) = lead_step this tick now fuel (lead this tick now fuel)

self_stays : (now : ℕ) (h : Task) → compare_first now h h (stay h) ≡ stay h
self_stays now h = elim (Bool-cases (ltb now h.wakeup)) [
  | inl w ↦ rw w refl
  | inr w ↦ rw (w, irreflexive h.deadline) refl
]
  where
    irreflexive : (a : ℕ) → ltb a a ≡ false
    irreflexive a = ground arith

first_stays :
    (this tick now : ℕ) (h : Task) (rest : List Task)
    → h.state ≡ run
    → can_execute tick now h ≡ true
    → visit this tick now [] h rest ≡ stay h
unfolding visit
first_stays this tick now h rest s c = elim (Bool-cases (ltb (now + tick) h.wakeup)) [
  | inl w ↦ rw w refl
  | inr w ↦ rw w (ap (by_state this tick now [] h rest) s ∙ rw c (self_stays now h))
]

from_head :
    (this tick now fuel : ℕ) (h : Task) (rest ts gs : List Task) (m : ℕ)
    → h.state ≡ run
    → can_execute tick now h ≡ true
    → pick_loop (suc fuel) this tick now [] (h ∷ rest) [] 0 ≡ some (ts, gs, m)
    → Leads tick now h rest ts
unfolding pick_loop
from_head this tick now fuel h rest ts gs m s c e =
    lead this tick now fuel h [] rest [] (0 + alarms_at tick now h) ts gs m s (
      sym (
        ap
          (λ v. pick_round (pick_loop fuel this tick now) v [] h rest [] (0 + alarms_at tick now h))
          (first_stays this tick now h rest s c))
      ∙ e)

leader :
    (tick now : ℕ) (h : Task) (rest ts gs : List Task) (m : ℕ)
    → Leads tick now h rest ts
    → (u : Task) × (us : List Task) × (take_first (some (ts, gs, m))
        ≡ picked (some u.addr) (record u { state = busy } ∷ us) gs m)
      × (u.deadline ≤ h.deadline)
      × All (λ t. is_ready tick now t ≡ true → u.deadline ≤ t.deadline) rest
leader tick now h rest [] gs m l = absurd l
leader tick now h rest (u ∷ us) gs m (s, d, a) = (
  u,
  us,
  ap
      (λ st.
        if is_run st
        then picked (some u.addr) (record u { state = busy } ∷ us) gs m
        else picked none (u ∷ us) gs m)
      s,
  d,
  a,
)

-- If the first task of the run queue is in the state TASK_RUN and can still execute, then `edf_pick_next` chooses a
-- task with a deadline no later than that of each task of the queue that could run: one that can still
-- execute in its period, which has begun, or one whose next period begins, within two ticks.
pub pick_next_earliest :
    (this period now : ℕ) (h : Task) (rest : List Task)
    → h.state ≡ run
    → can_execute (period * 2) now h ≡ true
    → (u : Task) × (us : List Task) × (fs : List Task) × (n : ℕ) × (pick_next this period now
          (h ∷ rest)
        ≡ picked (some u.addr) (record u { state = busy } ∷ us) fs n)
      × (u.deadline ≤ h.deadline)
      × All (λ t. is_ready (period * 2) now t ≡ true → u.deadline ≤ t.deadline) rest
unfolding pick_next
pick_next_earliest this period now h rest s c =
    let (ts, gs, m, f, k, l, g) =
      pick_loop-AllEnd this (period * 2) now (suc (2 * length (h ∷ rest))) [] (h ∷ rest) [] 0
        (omega (arith, cost-le (period * 2) now (h ∷ rest))) in
    let (u, us, e, d, a) =
      leader (period * 2) now h rest ts gs m
        (from_head this (period * 2) now (2 * length (h ∷ rest)) h rest ts gs m s c f) in
    (u, us, gs, m, ap take_first f ∙ e, d, a)
