-- ===== src/Edf/Earliest.antt =====
-- The task that `edf_pick_next` chooses has the earliest deadline.
pub mod Lead
use flightos.Common.{
  ℕ, zero, suc, ◌+◌, ◌*◌, ◌≤◌, ◌≡◌, refl, sym, ap, subst, ◌∙◌, inl, inr, Bool, true, false, not,
  ◌&&◌, none, some, List, [], ◌∷◌, ◌++◌, arith, ltb, ◌==◌, if◌then◌else◌, ltb→lt, Bool-cases,
  length, All, All-append_left,
}
use flightos.RoundRobin.{State, run, idle, new, dead_state, busy}
use flightos.Edf.{
  Task, can_execute, reinit, Move, stay, to_head, to_tail, remove, compare_first, is_run, wake_up,
  by_state, visit, alarms_at, Passed, pick_round, pick_loop, picked, take_first, pick_next,
}
use flightos.Edf.Rounds.{pick_loop-AllEnd}
use flightos.Edf.Pick.{cost-le}

-- A task that could run: it can still execute in its period, which has begun, or its next period begins.
abbrev pub ready_in : State → ℕ → ℕ → Task → Bool
ready_in run tick now t = can_execute tick now t && not (ltb now t.wakeup)
ready_in idle tick now t = not (ltb (now + tick) t.wakeup)
ready_in _ tick now t = false

abbrev pub is_ready : ℕ → ℕ → Task → Bool
is_ready tick now t = ready_in t.state tick now t

-- What a visit does while the first task `f` of the queue is in the state TASK_RUN.
abbrev pub Ordered : ℕ → ℕ → Task → Task → Move → Type 0
Ordered tick now f t (to_head u) =
    (u.state ≡ run)
    × (u.deadline ≤ f.deadline)
    × (is_ready tick now t ≡ true → u.deadline ≤ t.deadline)
Ordered tick now f t _ = is_ready tick now t ≡ true → f.deadline ≤ t.deadline

late-Ordered :
    (tick now : ℕ) (f t u : Task) (m : Move)
    → is_ready tick now t ≡ false
    → Ordered tick now f t m
    → Ordered tick now f t (compare_first now f u m)
late-Ordered tick now f t u m r h = elim (Bool-cases (ltb now u.wakeup)) [
  | inl w ↦ rw w h
  | inr w ↦ elim (Bool-cases (ltb u.deadline f.deadline)) [
    | inl d ↦ rw (w, d) (refl, omega (arith, ltb→lt u.deadline f.deadline d), (λ e. cc (sym r ∙ e)))
    | inr d ↦ rw (w, d) h
  ]
]

not_before : (a b : ℕ) → ltb a b ≡ false → b ≤ a
not_before a b h = ground arith

not_due :
    (tick now : ℕ) (t : Task)
    → t.state ≡ run
    → ltb now t.wakeup ≡ true
    → is_ready tick now t ≡ false
not_due tick now t s w =
    ap (λ st. ready_in st tick now t) s
    ∙ ap (λ b. can_execute tick now t && not b) w
    ∙ and_false (can_execute tick now t)
  where
    and_false : (b : Bool) → (b && false) ≡ false
    and_false true = refl
    and_false false = refl

stuck :
    (tick now : ℕ) (t : Task)
    → t.state ≡ run
    → can_execute tick now t ≡ false
    → is_ready tick now t ≡ false
stuck tick now t s c = ap (λ st. ready_in st tick now t) s ∙ ap (λ b. b && not (ltb now t.wakeup)) c

run-Ordered :
    (tick now : ℕ) (f t : Task)
    → t.state ≡ run
    → Ordered tick now f t (compare_first now f t (stay t))
run-Ordered tick now f t s = elim (Bool-cases (ltb now t.wakeup)) [
  | inl w ↦ rw w (λ e. cc (sym (not_due tick now t s w) ∙ e))
  | inr w ↦ elim (Bool-cases (ltb t.deadline f.deadline)) [
    | inl d ↦ rw (w, d) (refl, omega (arith, ltb→lt t.deadline f.deadline d), (λ e. omega arith))
    | inr d ↦ rw (w, d) (λ e. not_before t.deadline f.deadline d)
  ]
]

wake_up-Ordered :
    (tick now : ℕ) (f t : Task)
    → f.state ≡ run
    → Ordered tick now f t (wake_up f (record t { state = run }))
wake_up-Ordered tick now f t s = elim (Bool-cases (ltb t.deadline f.deadline)) [
  | inl d ↦ rw (s, d) (refl, omega (arith, ltb→lt t.deadline f.deadline d), (λ e. omega arith))
  | inr d ↦ rw (s, d) (λ e. not_before t.deadline f.deadline d)
]

by_state-Ordered :
    (this tick now : ℕ) (f : Task) (fs : List Task) (t : Task) (rest : List Task) (s : State)
    → t.state ≡ s
    → f.state ≡ run
    → ltb (now + tick) t.wakeup ≡ false
    → Ordered tick now f t (by_state this tick now (f ∷ fs) t rest s)
by_state-Ordered this tick now f fs t rest run e g w = elim (Bool-cases (can_execute tick now t)) [
  | inl c ↦ rw c (run-Ordered tick now f t e)
  | inr c ↦ rw c (
      late-Ordered tick now f t (reinit t) (to_tail (reinit t)) (stuck tick now t e c)
        (λ r. cc (sym (stuck tick now t e c) ∙ r)))
]
by_state-Ordered this tick now f fs t rest idle e g w = wake_up-Ordered tick now f t g
by_state-Ordered this tick now f fs t rest new e g w =
    λ r. cc (ap (λ s. ready_in s tick now t) (sym e) ∙ r)
by_state-Ordered this tick now f fs t rest busy e g w =
    λ r. cc (ap (λ s. ready_in s tick now t) (sym e) ∙ r)
by_state-Ordered this tick now f fs t rest dead_state e g w = elim (Bool-cases (t.addr == this)) [
  | inl c ↦ rw c (λ r. cc (ap (λ s. ready_in s tick now t) (sym e) ∙ r))
  | inr c ↦ rw c (λ r. cc (ap (λ s. ready_in s tick now t) (sym e) ∙ r))
]

early :
    (tick now : ℕ) (t : Task) (s : State)
    → ltb (now + tick) t.wakeup ≡ true
    → t.state ≡ s
    → ready_in s tick now t ≡ false
early tick now t run w e =
    sym (ap (λ s. ready_in s tick now t) e) ∙ not_due tick now t e (before now tick t.wakeup w)
  where
    before : (a b c : ℕ) → ltb (a + b) c ≡ true → ltb a c ≡ true
    before a b c h = ground arith
early tick now t idle w e = ap not w
early tick now t new w e = refl
early tick now t busy w e = refl
early tick now t dead_state w e = refl

pub visit-Ordered :
    (this tick now : ℕ) (f : Task) (fs : List Task) (t : Task) (rest : List Task)
    → f.state ≡ run
    → Ordered tick now f t (visit this tick now (f ∷ fs) t rest)
unfolding visit
visit-Ordered this tick now f fs t rest g = elim (Bool-cases (ltb (now + tick) t.wakeup)) [
  | inl w ↦ rw w (λ r. cc (sym (early tick now t t.state w refl) ∙ r))
  | inr w ↦ rw w (by_state-Ordered this tick now f fs t rest t.state refl g w)
]
