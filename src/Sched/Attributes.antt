-- ===== src/Sched/Attributes.antt =====
-- kernel/sched/core.c: the scheduler and the attributes of a task, and the calls of its scheduler.
use flightos.Common.{
  ℕ, ◌≡◌, refl, sym, ap, ◌∙◌, ◌≢◌, inl, inr, Bool, true, false, Option, none, some, List, [], ◌∷◌,
  ◌==◌, if◌then◌else◌, ==_iff, Bool-cases, Status, success, einval,
}
use flightos.Sched.{Scheduler}

-- `task->sched` and `task->attr` of the task at an address
pub record Owned (K A : Type 0) : Type 0 where
  pub addr : ℕ
  pub sched : Option (Scheduler K A)
  pub attr : A

abbrev pub is_success : Status → Bool
is_success success = true
is_success _ = false

-- What `sched_set_attr` ends with: the write to `task->sched` through a pointer that is NULL, or the code, the task
-- and the attributes of the caller, which the check may change after they have been copied.
abbrev pub SetAttr : Type 0 → Type 0 → Type 0
SetAttr K A = Option (Status × Owned K A × Option A)

module _ {K A : Type 0} where
  -- `sched_wake`
  unfoldable pub wake : K → Option (Owned K A) → ℕ → Status × K
  wake k none now = (einval, k)
  wake k (some t) now = elim t.sched [ none ↦ (einval, k) | some c ↦ c.wake_task k t.addr now ]

  abbrev pub checked : K → Owned K A → Scheduler K A → Status × A → Status × Option (Owned K A) × K
  checked k t c (s, a) =
      let u = record t { attr = a } in
      let (r, k') = c.enqueue_task k t.addr in
      if is_success s then (r, some u, k') else (s, some u, k)

  -- `sched_enqueue`: the check may change the attributes of the task.
  abbrev pub enqueue_by : K → Owned K A → Option (Scheduler K A) → Status × Option (Owned K A) × K
  enqueue_by k t none = (einval, some t, k)
  enqueue_by k t (some c) = checked k t c (c.check_sched_attr t.attr)

  unfoldable pub enqueue : K → Option (Owned K A) → Status × Option (Owned K A) × K
  enqueue k none = (einval, none, k)
  enqueue k (some t) = enqueue_by k t t.sched

  -- The first scheduler with a policy
  abbrev pub by_policy : List (Scheduler K A) → ℕ → Option (Scheduler K A)
  by_policy [] p = none
  by_policy (c ∷ cs) p = let rest = by_policy cs p in if c.policy == p then some c else rest

  abbrev pub accept : Owned K A → A → Scheduler K A → Status × A → SetAttr K A
  accept t a c (s, a') = some (
      if is_success s
      then (success, record t { attr = a; sched = some c }, some a')
      else (einval, record t { attr = a; sched = none }, some a'))

  abbrev pub set_by : Owned K A → A → Option (Scheduler K A) → SetAttr K A
  set_by t a none = some (einval, record t { sched = none }, some a)
  set_by t a (some c) = accept t a c (c.check_sched_attr a)

  -- `policy_of` is the field `policy` of the attributes.
  unfoldable pub set_attr :
      (A → ℕ) → List (Scheduler K A) → Option (Owned K A) → Option A → SetAttr K A
  set_attr policy_of cs none a = none
  set_attr policy_of cs (some t) none = some (einval, record t { sched = none }, none)
  set_attr policy_of cs (some t) (some a) = set_by t a (by_policy cs (policy_of a))

  -- `sched_get_attr`: the code, and what the caller's attributes are then
  unfoldable pub get_attr : Option (Owned K A) → Option A → Status × Option A
  get_attr none a = (einval, a)
  get_attr (some t) none = (einval, none)
  get_attr (some t) (some a) = (success, some t.attr)

  -- `sched_set_policy_default`; `round_robin` has the policy KSCHED_RR and the priority 100.
  unfoldable pub set_policy_default :
      (A → ℕ) → A → List (Scheduler K A) → Option (Owned K A) → SetAttr K A
  unfolding set_attr
  set_policy_default policy_of round_robin cs t = set_attr policy_of cs t (some round_robin)

  -- What `sched_set_attr` does with a task.
  abbrev pub SetsAttr : (A → ℕ) → List (Scheduler K A) → Owned K A → A → SetAttr K A → Type 0
  SetsAttr policy_of cs t a none = ⊥
  SetsAttr policy_of cs t a (some (s, u, a')) =
      (s ≡ success
        → (c : Scheduler K A) × (by_policy cs (policy_of a) ≡ some c)
          × (c.policy ≡ policy_of a)
          × (u ≡ record t { attr = a; sched = some c })
          × ((c.check_sched_attr a).0 ≡ success)
          × (get_attr (some u) (some a) ≡ (success, some a)))
      × (s ≢ success → (s ≡ einval) × ((k : K) → enqueue k (some u) ≡ (einval, some u, k)))

  policy-by_policy :
      (cs : List (Scheduler K A)) (p : ℕ) (c : Scheduler K A)
      → by_policy cs p ≡ some c
      → c.policy ≡ p
  policy-by_policy [] p c e = absurd (cc e)
  policy-by_policy (d ∷ cs) p c e = elim (Bool-cases (d.policy == p)) [
    | inl f ↦
        sym
          (ap (λ (o : Option (Scheduler K A)). elim o [ none ↦ p | some x ↦ x.policy ]) (rw f at e))
        ∙ (==_iff d.policy p).0 f
    | inr f ↦ policy-by_policy cs p c (rw f at e)
  ]

  accept-SetsAttr :
      (policy_of : A → ℕ) (cs : List (Scheduler K A)) (t : Owned K A) (a : A) (c : Scheduler K A)
      (o : Status × A)
      → by_policy cs (policy_of a) ≡ some c
      → c.check_sched_attr a ≡ o
      → SetsAttr policy_of cs t a (accept t a c o)
  unfolding get_attr enqueue
  accept-SetsAttr policy_of cs t a c (success, a') e f = (
    (λ s. (c, e, policy-by_policy cs (policy_of a) c e, refl, ap (λ o. o.0) f, refl)),
    (λ n. absurd (n refl)),
  )
  accept-SetsAttr policy_of cs t a c (_, a') e f = ((λ s. cc s), (λ n. (refl, λ k. refl)))

  -- `sched_set_attr` ends, for a task: on success the task has a copy of the attributes, and the first scheduler of their
  -- policy, which has accepted them; `sched_get_attr` answers these attributes then. It answers -EINVAL
  -- otherwise, and leaves the task without a scheduler, so that `sched_enqueue` refuses it.
  pub set_attr_lem :
      (policy_of : A → ℕ) (cs : List (Scheduler K A)) (t : Owned K A) (a : A)
      → SetsAttr policy_of cs t a (set_attr policy_of cs (some t) (some a))
  unfolding set_attr get_attr enqueue
  set_attr_lem policy_of cs t a = by (by_policy cs (policy_of a)) refl
    where
      by :
          (o : Option (Scheduler K A))
          → by_policy cs (policy_of a) ≡ o
          → SetsAttr policy_of cs t a (set_by t a o)
      by none e = ((λ s. cc s), (λ n. (refl, λ k. refl)))
      by (some c) e = accept-SetsAttr policy_of cs t a c (c.check_sched_attr a) e refl
