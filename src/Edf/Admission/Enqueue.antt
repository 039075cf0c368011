-- ===== src/Edf/Admission/Enqueue.antt =====
-- What `edf_enqueue` does with a task, and which tasks `edf_schedulable` refuses.
use flightos.Common.{
  ℕ, zero, suc, ◌≡◌, refl, sym, ap, subst, ◌∙◌, ◌≢◌, ◌⊎◌, inl, inr, Bool, true, false, Option, none,
  some, [], ◌∷◌, ◌++◌, ◌==◌, if◌then◌else◌, ==_iff, ==_refl, Bool-cases, of_some, Status, success,
  enosched,
}
use flightos.Edf.{Task}
use flightos.Edf.Calls.{Queue}
use flightos.Edf.Admission.{
  test_slot_utilisation, or_else, with_period, placed, Fpu, utilisation, find_cpu, other_cpu,
  schedulable_on, schedulable, enqueue,
}

module _ (f : Fpu) (cpus : ℕ) (tq : ℕ → Queue) where
  -- Whether the utilisation of a CPU with the task is above the limit.
  abbrev pub is_overloaded : ℕ → Task → Bool
  is_overloaded cpu t = f.is_above (utilisation f (tq cpu) t) f.util_max

  -- The CPU whose utilisation `edf_schedulable` looks at: that of the task, or the one `edf_find_cpu` finds.
  abbrev pub first_choice : Task → Option ℕ
  first_choice t = or_else t.on_cpu (find_cpu f cpus tq t)

  abbrev pub IsAccepted : Task → Type 0
  IsAccepted t = (k : ℕ) × (first_choice t ≡ some k) × (is_overloaded k t ≡ false)

  other_cpu-some :
      (n i : ℕ) (t : Task) (cpu c : ℕ)
      → other_cpu f n i tq t cpu ≡ some c
      → (is_overloaded cpu t ≡ false) × (test_slot_utilisation (tq c) t ≡ true)
  unfolding other_cpu
  other_cpu-some zero i t cpu c e = absurd (cc e)
  other_cpu-some (suc n) i t cpu c e =
      split (i == cpu) (is_overloaded cpu t) (test_slot_utilisation (tq i) t) refl refl
        (other_cpu-some n (suc i) t cpu c) e
    where
      rest : Option ℕ
      rest = other_cpu f n (suc i) tq t cpu

      split :
          (a b d : Bool)
          → is_overloaded cpu t ≡ b
          → test_slot_utilisation (tq i) t ≡ d
          → (rest ≡ some c
              → (is_overloaded cpu t ≡ false) × (test_slot_utilisation (tq c) t ≡ true))
          → (if a then rest else if b then rest else if d then some i else rest) ≡ some c
          → (is_overloaded cpu t ≡ false) × (test_slot_utilisation (tq c) t ≡ true)
      split true b d o s later e = later e
      split false true d o s later e = later e
      split false false true o s later e =
          (o, subst (λ x. test_slot_utilisation (tq x) t ≡ true) (of_some e) s)
      split false false false o s later e = later e

  abbrev pub Choice : Task → Option ℕ → Option ℕ → Type 0
  Choice t o none = (k : ℕ) → o ≡ some k → is_overloaded k t ≡ true
  Choice t o (some c) =
      (k : ℕ) × (o ≡ some k)
      × (is_overloaded k t ≡ false)
      × ((c ≡ k) ⊎ (test_slot_utilisation (tq c) t ≡ true))

  own-Choice :
      (t : Task) (cpu : ℕ) → Choice t (some cpu) (if is_overloaded cpu t then none else some cpu)
  own-Choice t cpu = elim (Bool-cases (is_overloaded cpu t)) [
    | inl e ↦ rw e (λ k g. subst (λ c. is_overloaded c t ≡ true) (of_some g) e)
    | inr e ↦ rw e (cpu, refl, e, inl refl)
  ]

  either-Choice :
      (t : Task) (cpu : ℕ) (o own : Option ℕ)
      → ((c : ℕ)
          → o ≡ some c
          → (is_overloaded cpu t ≡ false) × (test_slot_utilisation (tq c) t ≡ true))
      → Choice t (some cpu) own
      → Choice t (some cpu) (or_else o own)
  either-Choice t cpu none own g v = v
  either-Choice t cpu (some c) own g v = (cpu, refl, (g c refl).0, inr (g c refl).1)

  schedulable_on-Choice : (t : Task) (o : Option ℕ) → Choice t o (schedulable_on f cpus tq t o)
  schedulable_on-Choice t none = λ k e. cc e
  schedulable_on-Choice t (some cpu) = elim (Bool-cases (test_slot_utilisation (tq cpu) t)) [
    | inl e ↦ rw e (own-Choice t cpu)
    | inr e ↦ rw e (
        either-Choice t cpu (other_cpu f cpus 0 tq t cpu) _ (λ c. other_cpu-some cpus 0 t cpu c)
          (own-Choice t cpu))
  ]

  -- What `edf_enqueue` does: `t` is the task with its period set.
  abbrev pub Enqueued : Task → Status × (ℕ → Queue) × Task → Type 0
  Enqueued t (s, tq', u) =
      (s ≡ success
        → IsAccepted t
          × (c : ℕ) × (u ≡ record t { on_cpu = some c })
          × ((first_choice t ≡ some c) ⊎ (test_slot_utilisation (tq c) t ≡ true))
          × (tq' c ≡ record (tq c) { wake_queue = (tq c).wake_queue ++ (u ∷ []) })
          × ((d : ℕ) → d ≢ c → tq' d ≡ tq d))
      × (IsAccepted t → s ≡ success)
      × (s ≢ success → (s ≡ enosched) × (tq' ≡ tq))

  placed-Enqueued :
      (t : Task) (o : Option ℕ) → Choice t (first_choice t) o → Enqueued t (placed tq t o)
  placed-Enqueued t none v = ((λ e. cc), (λ (k, e, g). cc (sym g ∙ v k e)), (λ n. (refl, refl)))
  placed-Enqueued t (some c) (k, e, g, h) =
      ((λ s. ((k, e, g), c, refl, from h, at_self, at_other)), (λ a. refl), (λ n. absurd (n refl)))
    where
      from :
          (c ≡ k) ⊎ (test_slot_utilisation (tq c) t ≡ true)
          → (first_choice t ≡ some c) ⊎ (test_slot_utilisation (tq c) t ≡ true)
      from (inl x) = inl (e ∙ ap some (sym x))
      from (inr x) = inr x

      at_self :
          (placed tq t (some c)).1 c
          ≡ record (tq c) { wake_queue = (tq c).wake_queue ++ (record t { on_cpu = some c } ∷ []) }
      at_self = rw (==_refl c) refl

      at_other : (d : ℕ) → d ≢ c → (placed tq t (some c)).1 d ≡ tq d
      at_other d n = elim (Bool-cases (d == c)) [
        | inl x ↦ absurd (n ((==_iff d c).0 x))
        | inr x ↦ rw x refl
      ]

-- `edf_enqueue` accepts a task exactly if the utilisation of the CPU that it is bound to, or else of the one that
-- `edf_find_cpu` finds, is not above the limit with the task. It appends the task then to the wake queue
-- of this CPU, or of one that passes the slot test, binds it to that, and changes no other queue. It
-- answers -ENOSCHED otherwise, and changes no queue: no task is refused for want of slots.
pub enqueue_lem :
    (f : Fpu) (cpus : ℕ) (tq : ℕ → Queue) (t : Task)
    → Enqueued f cpus tq (with_period t) (enqueue f cpus tq t)
unfolding enqueue schedulable
enqueue_lem f cpus tq t =
    placed-Enqueued f cpus tq (with_period t) _
      (schedulable_on-Choice f cpus tq (with_period t) (first_choice f cpus tq (with_period t)))
