-- ===== src/Edf/Admission.antt =====
-- kernel/sched/edf.c: the tests that a task has to pass before it is enqueued. The quotients of `edf_utilisation`
-- are of the type `double`, which is a parameter.
pub mod Hyperperiod
pub mod Enqueue
use flightos.Common.{
  ℕ, zero, suc, ◌+◌, ◌-◌, ◌*◌, ◌/◌, ◌%◌, ◌^◌, ◌≤◌, ◌<◌, ◌≡◌, refl, sym, ap, ap₂, subst, ◌∙◌, ◌≡⟨◌⟩◌,
  ◌∎, ◌≢◌, ◌↔◌, ◌⊎◌, inl, inr, Bool, true, false, not, ◌&&◌, ◌||◌, Option, none, some, List, [],
  ◌∷◌, ◌++◌, map, reverse, append-nil, append_assoc, arith, word, ltb, leb, ◌==◌, if◌then◌else◌,
  ltb→lt, lt→ltb, leb→le, le→leb, ==_iff, ==_refl, tests, Bool-cases, Option-cases, of_some, length,
  get_elem?, take, drop, set, All, filter, is_empty, length-append, length-set, get_elem?-set_self,
  get_elem?-set_ne, All-append, All-append_left, All-append_right, All-map, Status, success,
  failure, einval, enomem, enoexec, enodev, enosched, eperm,
}
use flightos.Edf.{Task}
use flightos.Edf.Calls.{Queue}

abbrev pub and_then {ℓ κ} : {A : Type ℓ} {B : Type κ} → Option A → (A → Option B) → Option B
and_then none f = none
and_then (some a) f = f a

-- `while (a != b)`: the smaller one is subtracted from the other; `none` means that the fuel ran out.
unfoldable pub subtract_loop : ℕ → ℕ → ℕ → Option ℕ
subtract_loop zero a b = none
subtract_loop (suc fuel) a b =
    let rest = subtract_loop fuel (if ltb b a then a - b else a) (if ltb b a then b else b - a) in
    if a == b then some a else rest

-- A product of `ktime` that has no value, since it needs more than 63 bits, is `none`.
abbrev pub in_ktime : ℕ → Option ℕ
in_ktime n = if ltb n (2 ^ 63) then some n else none

-- A round of `edf_hyperperiod`, for a task of the given period.
unfoldable pub lcm_round : ℕ → ℕ → Option ℕ
unfolding subtract_loop
lcm_round lcm period =
    if lcm % period == 0
    then some lcm
    else and_then (subtract_loop (lcm + period) lcm period) (λ a. in_ktime (lcm * (period / a)))

unfoldable pub lcm_loop : ℕ → List Task → Option ℕ
unfolding lcm_round
lcm_loop lcm [] = some lcm
lcm_loop lcm (t ∷ ts) = and_then (lcm_round lcm t.period) (λ l. lcm_loop l ts)

unfoldable pub hyperperiod : Queue → Task → Option ℕ
unfolding lcm_loop
hyperperiod q t = and_then (lcm_loop t.period q.run_queue) (λ l. lcm_loop l q.wake_queue)

-- `edf_longest_period_task`: `t0` is the task of the longest period so far.
unfoldable pub longest_period : Task → List Task → Task
longest_period t0 [] = t0
longest_period t0 (t ∷ ts) = longest_period (if ltb t0.period t.period then t else t0) ts

-- What is left of the head and of the tail of the period of `t0`, after the slots of the task `t`; `none` if they
-- are too many.
unfoldable pub slots_round : ℕ → ℕ → Task → Task → ℕ × ℕ → Option (ℕ × ℕ)
slots_round h f1 t0 t (uh, ut) =
    let sh =
      if leb t.deadline_rel t0.deadline_rel
      then ((h * t.wcet) * t0.deadline_rel) / t.period
      else 0 in
    let st = ((h * t.wcet) * f1) / t.period in
    if ltb uh sh then none else if ltb ut st then none else some (uh - sh, ut - st)

unfoldable pub slots_loop : ℕ → ℕ → Task → List Task → ℕ × ℕ → Option (ℕ × ℕ)
unfolding slots_round
slots_loop h f1 t0 [] u = some u
slots_loop h f1 t0 (t ∷ ts) u =
    and_then (if t.addr == t0.addr then some u else slots_round h f1 t0 t u) (slots_loop h f1 t0 ts)

-- Whether the task passes `edf_test_slot_utilisation`; it does not, if the hyperperiod has no value.
abbrev pub has_slots : Queue → Task → Task → Option ℕ → Bool
has_slots q t t0 none = false
has_slots q t t0 (some p) =
    let h = p / t0.period in
    let ut = h * (t0.period - t0.deadline_rel) in
    let u =
      and_then (slots_loop h (ut / h) t0 q.wake_queue (h * (t0.deadline_rel - t0.wcet), ut)) (λ u.
        and_then (slots_loop h (ut / h) t0 q.run_queue u) (slots_loop h (ut / h) t0 (t ∷ []))) in
    elim u [ none ↦ false | some u ↦ true ]

unfoldable pub test_slot_utilisation : Queue → Task → Bool
unfolding hyperperiod longest_period slots_loop
test_slot_utilisation q t =
    has_slots q t (longest_period (longest_period t q.wake_queue) q.run_queue) (hyperperiod q t)

abbrev pub or_else : Option ℕ → Option ℕ → Option ℕ
or_else none o = o
or_else (some a) o = some a

-- A task without a period runs only once, within its deadline.
abbrev pub with_period : Task → Task
with_period t =
    if t.period == 0
    then record t { run_once = true; period = t.deadline_rel }
    else record t { run_once = false }

abbrev pub placed : (ℕ → Queue) → Task → Option ℕ → Status × (ℕ → Queue) × Task
placed tq t none = (enosched, tq, t)
placed tq t (some cpu) =
    let u = record t { on_cpu = some cpu } in
    let q = tq cpu in
    (
      success,
      (λ c. if c == cpu then record q { wake_queue = q.wake_queue ++ (u ∷ []) } else tq c),
      u,
    )

-- What `edf_utilisation` and the comparisons with `UTIL_MAX` use of the type `double`.
pub record Fpu : Type 1 where
  pub Double : Type 0
  pub zero_double : Double
  pub util_max : Double
  pub ratio : ℕ → ℕ → Double
  pub add : Double → Double → Double
  pub is_above : Double → Double → Bool

module _ (f : Fpu) where
  abbrev pub utilisation_of : f.Double → List Task → f.Double
  utilisation_of u [] = u
  utilisation_of u (t ∷ ts) = utilisation_of (f.add u (f.ratio t.wcet t.period)) ts

  -- for a task that is not NULL
  unfoldable pub utilisation : Queue → Task → f.Double
  utilisation q t =
      utilisation_of (utilisation_of (f.ratio t.wcet t.period) q.wake_queue) q.run_queue

  -- `find_loop n i u_max cpu` looks at `n` CPUs from `i` on.
  unfoldable pub find_loop : ℕ → ℕ → (ℕ → Queue) → Task → f.Double → Option ℕ → Option ℕ
  unfolding utilisation
  find_loop zero i tq t u_max cpu = cpu
  find_loop (suc n) i tq t u_max cpu =
      let u = utilisation (tq i) t in
      let is_better = not (f.is_above u f.util_max) && f.is_above u u_max in
      find_loop n (suc i) tq t (if is_better then u else u_max) (if is_better then some i else cpu)

  -- `edf_find_cpu`, for the CPUs below `cpus`
  unfoldable pub find_cpu : ℕ → (ℕ → Queue) → Task → Option ℕ
  unfolding find_loop
  find_cpu cpus tq t = find_loop cpus 0 tq t f.zero_double none

  -- The search of `edf_schedulable` for another CPU; it compares the utilisation of `cpu` each time.
  unfoldable pub other_cpu : ℕ → ℕ → (ℕ → Queue) → Task → ℕ → Option ℕ
  unfolding utilisation test_slot_utilisation
  other_cpu zero i tq t cpu = none
  other_cpu (suc n) i tq t cpu =
      let rest = other_cpu n (suc i) tq t cpu in
      if i == cpu
      then rest
      else if f.is_above (utilisation (tq cpu) t) f.util_max
      then rest
      else if test_slot_utilisation (tq i) t
      then some i
      else rest

  abbrev pub schedulable_on : ℕ → (ℕ → Queue) → Task → Option ℕ → Option ℕ
  schedulable_on cpus tq t none = none
  schedulable_on cpus tq t (some cpu) =
      let own = if f.is_above (utilisation (tq cpu) t) f.util_max then none else some cpu in
      if test_slot_utilisation (tq cpu) t then own else or_else (other_cpu cpus 0 tq t cpu) own

  -- `none` for the code -ENODEV
  unfoldable pub schedulable : ℕ → (ℕ → Queue) → Task → Option ℕ
  unfolding find_cpu other_cpu
  schedulable cpus tq t = schedulable_on cpus tq t (or_else t.on_cpu (find_cpu cpus tq t))

  -- `edf_enqueue`: the code, the queues and the task after the call
  unfoldable pub enqueue : ℕ → (ℕ → Queue) → Task → Status × (ℕ → Queue) × Task
  unfolding schedulable
  enqueue cpus tq t = placed tq (with_period t) (schedulable cpus tq (with_period t))
