-- ===== src/MemPool/Sound/Joined.antt =====
-- Taking a block out of its list, and putting one in, keeps a pool sound, and changes what the free blocks cover
-- by that block.
use flightos.Common.{
  ℕ, zero, suc, ◌+◌, ◌-◌, ◌^◌, ◌≤◌, ◌≡◌, refl, sym, ap, ap₂, ◌∙◌, inl, inr, Bool, true, false, not,
  ◌&&◌, List, arith, ◌==◌, if◌then◌else◌, ==_iff, Bool-cases,
}
use native.Mathlib.Nat.{zero-mul}
use flightos.MemPool.{remove}
use flightos.MemPool.Covers.{inside, covers}
use flightos.MemPool.Sound.{
  count, count-remove_self, count-remove_ne, covers_list-remove, ix, Aligned, listed, IsSound,
  free_at,
}

-- What the lists up to an order lose with a block.
abbrev lost : ℕ → ℕ → (ℕ → List ℕ) → ℕ → ℕ
lost a n lists zero = if count n (lists 0) == 0 then 0 else inside a n 0
lost a n lists (suc k) =
    (if count n (lists (suc k)) == 0 then 0 else inside a n (suc k)) + lost a n lists k

covers-remove :
    (a n : ℕ) (lists : ℕ → List ℕ) (k : ℕ)
    → covers a (λ o. remove n (lists o)) k + lost a n lists k ≡ covers a lists k
covers-remove a n lists zero = covers_list-remove a 0 n (lists 0)
covers-remove a n lists (suc k) =
    omega (arith, covers_list-remove a (suc k) n (lists (suc k)), covers-remove a n lists k)

lost_none :
    (a n : ℕ) (lists : ℕ → List ℕ) (k : ℕ)
    → ((o : ℕ) → o ≤ k → count n (lists o) ≡ 0)
    → lost a n lists k ≡ 0
lost_none a n lists zero h = rw (h 0 (omega arith)) refl
lost_none a n lists (suc k) h =
    rw (h (suc k) (omega arith)) (omega (arith, lost_none a n lists k (λ o l. h o (omega arith))))

lost_one :
    (a n o : ℕ) (lists : ℕ → List ℕ) (k : ℕ)
    → o ≤ k
    → ((p : ℕ) → count n (lists p) ≡ (if o == p then 1 else 0))
    → lost a n lists k ≡ inside a n o
lost_one a n zero lists zero l h = rw (h 0) refl
lost_one a n (suc o) lists zero l h = absurd (omega arith)
lost_one a n o lists (suc k) l h = elim (Bool-cases (o == suc k)) [
  | inl e ↦
      rw (h (suc k), e)
        (omega (
          arith,
          ap (inside a n) ((==_iff o (suc k)).0 e),
          lost_none a n lists k (λ p q.
              h p ∙ ap (λ b. if b then 1 else 0) (differ_at o k p ((==_iff o (suc k)).0 e) q)),
        ))
  | inr e ↦ rw (h (suc k), e) (omega (arith, lost_one a n o lists k (below o k e l) h))
]
  where
    differ_at : (o k p : ℕ) → o ≡ suc k → p ≤ k → (o == p) ≡ false
    differ_at o k p e q = ground arith

    below : (o k : ℕ) → (o == suc k) ≡ false → o ≤ suc k → o ≤ k
    below o k e l = ground arith

pub ==_flip : (x y : ℕ) → (x == y) ≡ false → (y == x) ≡ false
==_flip x y e = ground arith

none_left : (n : ℕ) (b : Bool) → n ≡ (if b then 1 else 0) → n - 1 ≡ 0
none_left n true e = omega (arith, e)
none_left n false e = omega (arith, e)

unmarked : (b c : Bool) → c ≡ true → ◌≡◌ {A = ℕ} (if b && not c then 1 else 0) 0
unmarked b c e = ground arith

marked : (b c : Bool) → c ≡ false → ◌≡◌ {A = ℕ} (if b && not c then 1 else 0) (if b then 1 else 0)
marked b c e = ground arith

pub unlisted :
    (base min : ℕ) (free : ℕ → Bool) (order : ℕ → ℕ) (x p : ℕ)
    → free (ix base min x) ≡ false
    → listed base min free order x p ≡ 0
unlisted base min free order x p h =
    ap (λ f. if (f && (order (ix base min x) == p)) && not (x == base) then 1 else 0) h

pub base-Aligned : (base min : ℕ) → Aligned base min base
base-Aligned base min = (0, omega (arith, zero-mul (2 ^ min)), omega (arith, zero-mul (2 ^ min)))

module _ (base min max : ℕ) where
  -- A block `n` that is free with the order `o` joins the block `blk`, which is not: neither is free then.
  module _ (free : ℕ → Bool) (order : ℕ → ℕ) (lists : ℕ → List ℕ) (free' : ℕ → Bool)
      (order' : ℕ → ℕ) (n blk o : ℕ) (sound : IsSound base min free order lists)
      (n_aligned : Aligned base min n) (n_free : free (ix base min n) ≡ true)
      (n_order : order (ix base min n) ≡ o) (taken : free (ix base min blk) ≡ false)
      (frees : (x : ℕ)
        → Aligned base min x
        → free' (ix base min x) ≡ (if x == n then false else free (ix base min x)))
      (orders : (x : ℕ)
        → Aligned base min x
        → (x == n) ≡ false
        → (x == blk) ≡ false
        → order' (ix base min x) ≡ order (ix base min x)) where
    n_listed : (p : ℕ) → count n (lists p) ≡ (if (o == p) && not (n == base) then 1 else 0)
    n_listed p =
        sound n n_aligned p
        ∙ ap₂ (λ f q. if (f && (q == p)) && not (n == base) then 1 else 0) n_free n_order

    frees_other :
        (x : ℕ)
        → Aligned base min x
        → (x == n) ≡ false
        → free' (ix base min x) ≡ free (ix base min x)
    frees_other x a e = frees x a ∙ ap (λ b. if b then false else free (ix base min x)) e

    pub joined-IsSound : IsSound base min free' order' (λ p. remove n (lists p))
    joined-IsSound x a p = elim (Bool-cases (x == n)) [
      | inl e ↦
          ap (λ y. count y (remove n (lists p))) ((==_iff x n).0 e)
          ∙ count-remove_self n (lists p)
          ∙ none_left (count n (lists p)) _ (n_listed p)
          ∙ sym (
              unlisted base min free' order' x p
                (frees x a ∙ ap (λ b. if b then false else free (ix base min x)) e))
      | inr e ↦
          count-remove_ne x n (lists p) (==_flip x n e)
          ∙ sound x a p
          ∙ elim (Bool-cases (x == blk)) [
            | inl f ↦
                let t : free (ix base min x) ≡ false =
                  ap (λ y. free (ix base min y)) ((==_iff x blk).0 f) ∙ taken in
                unlisted base min free order x p t
                ∙ sym (unlisted base min free' order' x p (frees_other x a e ∙ t))
            | inr f ↦
                ap₂ (λ b q. if (b && (q == p)) && not (x == base) then 1 else 0)
                  (sym (frees_other x a e)) (sym (orders x a e f))
          ]
    ]

    abbrev base_part : (ℕ → Bool) → (ℕ → ℕ) → ℕ → ℕ
    base_part f q a = if f (ix base min base) then inside a base (q (ix base min base)) else 0

    base_kept : (a : ℕ) → (n == base) ≡ false → base_part free' order' a ≡ base_part free order a
    base_kept a e =
        let b : Aligned base min base = base-Aligned base min in
        let g : free' (ix base min base) ≡ free (ix base min base) =
          frees_other base b (==_flip n base e) in
        elim (Bool-cases (base == blk)) [
          | inl f ↦
              let t : free (ix base min base) ≡ false =
                ap (λ y. free (ix base min y)) ((==_iff base blk).0 f) ∙ taken in
              ap (λ c. if c then inside a base (order' (ix base min base)) else 0) (g ∙ t)
              ∙ sym (ap (λ c. if c then inside a base (order (ix base min base)) else 0) t)
          | inr f ↦
              ap₂ (λ c q. if c then inside a base q else 0) g (orders base b (==_flip n base e) f)
        ]

    base_gone :
        (a : ℕ)
        → (n == base) ≡ true
        → base_part free' order' a + inside a n o ≡ base_part free order a
    base_gone a e =
        let q : n ≡ base = (==_iff n base).0 e in
        let g : free' (ix base min base) ≡ false =
          frees base (base-Aligned base min)
          ∙ ap (λ b. if b then false else free (ix base min base)) ((==_iff base n).1 (sym q)) in
        let h : base_part free order a ≡ inside a base o =
          ap₂ (λ c p. if c then inside a base p else 0)
            (ap (λ y. free (ix base min y)) (sym q) ∙ n_free)
            (ap (λ y. order (ix base min y)) (sym q) ∙ n_order) in
        let k : base_part free' order' a ≡ 0 =
          ap (λ c. if c then inside a base (order' (ix base min base)) else 0) g in
        omega (arith, h, k, ap (λ y. inside a y o) q)

    pub joined-free_at :
        (a : ℕ)
        → o ≤ max
        → free_at base min max free' order' (λ p. remove n (lists p)) a + inside a n o
          ≡ free_at base min max free order lists a
    joined-free_at a l = elim (Bool-cases (n == base)) [
      | inl e ↦ omega (
        arith,
        covers-remove a n lists max,
        lost_none a n lists max (λ p q. n_listed p ∙ unmarked (o == p) (n == base) e),
        base_gone a e,
      )
      | inr e ↦ omega (
        arith,
        covers-remove a n lists max,
        lost_one a n o lists max l (λ p. n_listed p ∙ marked (o == p) (n == base) e),
        base_kept a e,
      )
    ]
