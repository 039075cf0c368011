-- ===== src/Sched/Register.antt =====
-- kernel/sched/core.c, `sched_register`: the list of schedulers is sorted by priority. The loop also compares
-- the last scheduler with what stands before the head of the list in memory: its "priority" is `beyond`.
pub mod Sorted
use flightos.Common.{
  ℕ, zero, suc, ◌+◌, ◌-◌, ◌*◌, ◌/◌, ◌%◌, ◌^◌, ◌≤◌, ◌<◌, ◌≡◌, refl, sym, ap, ap₂, subst, ◌∙◌, ◌≡⟨◌⟩◌,
  ◌∎, ◌≢◌, ◌↔◌, ◌⊎◌, inl, inr, Bool, true, false, not, ◌&&◌, ◌||◌, Option, none, some, List, [],
  ◌∷◌, ◌++◌, map, reverse, append-nil, append_assoc, arith, word, ltb, leb, ◌==◌, if◌then◌else◌,
  ltb→lt, lt→ltb, leb→le, le→leb, ==_iff, ==_refl, tests, Bool-cases, Option-cases, of_some, length,
  get_elem?, take, drop, set, All, filter, is_empty, length-append, length-set, get_elem?-set_self,
  get_elem?-set_ne, All-append, All-append_left, All-append_right, All-map, Status, success,
  failure, einval, enomem, enoexec, enodev, enosched, eperm,
}
use flightos.Sched.{Scheduler}

module _ {K A : Type 0} where
  abbrev pub registered : ℕ → List (Scheduler K A) → Bool
  registered a [] = false
  registered a (c ∷ cs) = (c.addr == a) || registered a cs

  abbrev pub put_first :
      Scheduler K A
      → Bool
      → Option (List (Scheduler K A) × Bool)
      → Option (List (Scheduler K A) × Bool)
  put_first c swap none = none
  put_first c swap (some (cs, s)) = some (c ∷ cs, swap || s)

  -- One pass of the loop from `x` on, and whether it swapped two entries: after a swap, it visits the one that has
  -- moved forward, which stays, and then goes on with the other. `none` stands for a swap with the head
  -- of the list, which destroys it.
  unfoldable pub pass :
      ℕ → Scheduler K A → List (Scheduler K A) → Option (List (Scheduler K A) × Bool)
  pass beyond x [] = if ltb x.priority beyond then none else some (x ∷ [], false)
  pass beyond x (y ∷ ys) =
      let swap = ltb x.priority y.priority in
      put_first (if swap then y else x) swap (pass beyond (if swap then x else y) ys)

  abbrev pub pass_on :
      (List (Scheduler K A) → Option (List (Scheduler K A)))
      → Option (List (Scheduler K A) × Bool)
      → Option (List (Scheduler K A))
  pass_on again none = none
  pass_on again (some (cs, true)) = again cs
  pass_on again (some (cs, false)) = some cs

  -- `do … while (swap)`, on fuel
  unfoldable pub sort_loop : ℕ → ℕ → List (Scheduler K A) → Option (List (Scheduler K A))
  unfolding pass
  sort_loop zero beyond cs = none
  sort_loop (suc fuel) beyond [] = some []
  sort_loop (suc fuel) beyond (c ∷ cs) = pass_on (sort_loop fuel beyond) (pass beyond c cs)

  abbrev pub answer : Option (List (Scheduler K A)) → Option (Status × List (Scheduler K A))
  answer none = none
  answer (some cs) = some (success, cs)

  unfoldable pub register :
      ℕ → List (Scheduler K A) → Option (Scheduler K A) → Option (Status × List (Scheduler K A))
  unfolding sort_loop
  register beyond cs none = some (einval, cs)
  register beyond cs (some c) =
      if registered c.addr cs
      then some (eperm, cs)
      else answer (
          sort_loop (suc (length (cs ++ (c ∷ [])) * length (cs ++ (c ∷ [])))) beyond
            (cs ++ (c ∷ [])))
