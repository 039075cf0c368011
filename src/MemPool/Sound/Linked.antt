-- ===== src/MemPool/Sound/Linked.antt =====
-- A block that becomes free is put into the list of its order, but for the base of the pool.
use flightos.Common.{
  ℕ, ◌+◌, ◌≤◌, ◌≡◌, sym, ap, ap₂, ◌∙◌, inl, inr, Bool, true, false, not, ◌&&◌, List, ◌∷◌, arith,
  ◌==◌, if◌then◌else◌, ==_iff, Bool-cases,
}
use flightos.MemPool.{set_at}
use flightos.MemPool.Covers.{inside, covers-set_at}
use flightos.MemPool.Sound.{count, ix, Aligned, listed, IsSound, free_at}
use flightos.MemPool.Sound.Joined.{==_flip, unlisted, base-Aligned}

abbrev pub linked_lists : ℕ → (ℕ → List ℕ) → ℕ → ℕ → (ℕ → List ℕ)
linked_lists base lists blk o = if blk == base then lists else set_at lists o (blk ∷ lists o)

module _ (base min max : ℕ) (free : ℕ → Bool) (order : ℕ → ℕ) (lists : ℕ → List ℕ)
    (free' : ℕ → Bool) (order' : ℕ → ℕ) (blk o : ℕ) (sound : IsSound base min free order lists)
    (aligned : Aligned base min blk) (taken : free (ix base min blk) ≡ false)
    (frees : (x : ℕ)
      → Aligned base min x
      → free' (ix base min x) ≡ (if x == blk then true else free (ix base min x)))
    (orders : (x : ℕ)
      → Aligned base min x
      → order' (ix base min x) ≡ (if x == blk then o else order (ix base min x))) where
  abbrev mark : Bool → ℕ → ℕ → Bool → ℕ
  mark f q p b = if (f && (q == p)) && not b then 1 else 0

  -- In the list of an order, with the block linked in front or not
  listed_there :
      (x p : ℕ)
      → Aligned base min x
      → (x == blk) ≡ true
      → listed base min free' order' x p ≡ mark true o p (x == base)
  listed_there x p a e =
      ap₂ (λ f q. mark f q p (x == base))
        (frees x a ∙ ap (λ b. if b then true else free (ix base min x)) e)
        (orders x a ∙ ap (λ b. if b then o else order (ix base min x)) e)

  listed_elsewhere :
      (x p : ℕ)
      → Aligned base min x
      → (x == blk) ≡ false
      → listed base min free' order' x p ≡ listed base min free order x p
  listed_elsewhere x p a e =
      ap₂ (λ f q. mark f q p (x == base))
        (frees x a ∙ ap (λ b. if b then true else free (ix base min x)) e)
        (orders x a ∙ ap (λ b. if b then o else order (ix base min x)) e)

  none_before : (p : ℕ) → count blk (lists p) ≡ 0
  none_before p = sound blk aligned p ∙ unlisted base min free order blk p taken

  count_linked :
      (x p : ℕ)
      → count x (set_at lists o (blk ∷ lists o) p)
        ≡ (if (p == o) && (blk == x) then 1 else 0) + count x (lists p)
  count_linked x p = elim (Bool-cases (p == o)) [
    | inl e ↦
        rw e (ap (λ q. (if blk == x then 1 else 0) + count x (lists q)) (sym ((==_iff p o).0 e)))
    | inr e ↦ rw e (omega arith)
  ]

  at_base : (x p : ℕ) → (x == blk) ≡ true → (blk == base) ≡ true → mark true o p (x == base) ≡ 0
  at_base x p e b = ground arith

  not_base :
      (x p : ℕ)
      → (x == blk) ≡ true
      → (blk == base) ≡ false
      → mark true o p (x == base) ≡ (if (p == o) && (blk == x) then 1 else 0)
  not_base x p e b = ground arith

  not_added :
      (x p : ℕ) → (x == blk) ≡ false → ◌≡◌ {A = ℕ} (if (p == o) && (blk == x) then 1 else 0) 0
  not_added x p e = ground arith

  none_at : (x p : ℕ) → (x == blk) ≡ true → count x (lists p) ≡ 0
  none_at x p e = ap (λ y. count y (lists p)) ((==_iff x blk).0 e) ∙ none_before p

  pub linked-IsSound : IsSound base min free' order' (linked_lists base lists blk o)
  linked-IsSound x a p = elim (Bool-cases (blk == base)) [
    | inl b ↦ elim (Bool-cases (x == blk)) [
      | inl e ↦ rw b (none_at x p e ∙ sym (listed_there x p a e ∙ at_base x p e b))
      | inr e ↦ rw b (sound x a p ∙ sym (listed_elsewhere x p a e))
    ]
    | inr b ↦ elim (Bool-cases (x == blk)) [
      | inl e ↦
          rw b
            (omega (arith, count_linked x p, none_at x p e, listed_there x p a e, not_base x p e b))
      | inr e ↦
          rw b (
            omega (arith, count_linked x p, not_added x p e, sound x a p, listed_elsewhere x p a e))
    ]
  ]

  abbrev base_part : (ℕ → Bool) → (ℕ → ℕ) → ℕ → ℕ
  base_part f q a = if f (ix base min base) then inside a base (q (ix base min base)) else 0

  base_new : (a : ℕ) → (blk == base) ≡ true → base_part free' order' a ≡ inside a blk o
  base_new a b =
      let q : base ≡ blk = sym ((==_iff blk base).0 b) in
      let c : base == blk ≡ true = (==_iff base blk).1 q in
      let al : Aligned base min base = base-Aligned base min in
      ap₂ (λ f r. if f then inside a base r else 0)
        (frees base al ∙ ap (λ e. if e then true else free (ix base min base)) c)
        (orders base al ∙ ap (λ e. if e then o else order (ix base min base)) c)
      ∙ ap (λ y. inside a y o) q

  base_old : (a : ℕ) → (blk == base) ≡ true → base_part free order a ≡ 0
  base_old a b =
      ap (λ f. if f then inside a base (order (ix base min base)) else 0)
        (ap (λ y. free (ix base min y)) (sym ((==_iff blk base).0 b)) ∙ taken)

  base_kept : (a : ℕ) → (blk == base) ≡ false → base_part free' order' a ≡ base_part free order a
  base_kept a b =
      let c : base == blk ≡ false = ==_flip blk base b in
      let al : Aligned base min base = base-Aligned base min in
      ap₂ (λ f r. if f then inside a base r else 0)
        (frees base al ∙ ap (λ e. if e then true else free (ix base min base)) c)
        (orders base al ∙ ap (λ e. if e then o else order (ix base min base)) c)

  pub linked-free_at :
      (a : ℕ)
      → o ≤ max
      → free_at base min max free' order' (linked_lists base lists blk o) a
        ≡ free_at base min max free order lists a + inside a blk o
  linked-free_at a l = elim (Bool-cases (blk == base)) [
    | inl b ↦ rw b (omega (arith, base_new a b, base_old a b))
    | inr b ↦ rw b (omega (arith, covers-set_at a lists o (blk ∷ lists o) max l, base_kept a b))
  ]
