-- ===== src/MemPool/Sound/Merged.antt =====
-- A merge takes a free neighbour out of the lists, and keeps a pool sound.
use flightos.Common.{
  ℕ, ◌+◌, ◌≤◌, ◌≡◌, refl, sym, ap, ap₂, subst, ◌∙◌, ◌⊎◌, inl, inr, Bool, true, false, some, ltb,
  ◌==◌, if◌then◌else◌, ==_iff, ==_refl, Bool-cases,
}
use flightos.MemPool.{Pool, blk_idx, mark_alloc, set_alloc_order, unlink, join}
use flightos.MemPool.Covers.{inside}
use flightos.MemPool.Sound.{ix, ix-same, Aligned, IsSound, free_at}
use flightos.MemPool.Sound.Joined.{joined-IsSound, joined-free_at}

-- The bitmap and the lists of a pool fit together, and how many free blocks of it cover an address.
abbrev pub Sound : Pool → Type 0
Sound mp = IsSound mp.base mp.min_order mp.blk_free mp.alloc_order mp.block_order

abbrev pub free_now : Pool → ℕ → ℕ
free_now mp a =
    free_at mp.base mp.min_order mp.max_order mp.blk_free mp.alloc_order mp.block_order a

abbrev pub index : Pool → ℕ → ℕ
index mp x = ix mp.base mp.min_order x

abbrev pub IsBlock : Pool → ℕ → Type 0
IsBlock mp x = Aligned mp.base mp.min_order x

-- The pool that two blocks have been joined in, from the free one `n`
abbrev pub joined : Pool → ℕ → ℕ → ℕ → Pool
joined mp n lower order =
    mark_alloc
      (mark_alloc (set_alloc_order (set_alloc_order (unlink mp n) n 0) lower (order + 1)) n) lower

pub join-joined :
    (mp : Pool) (blk n order : ℕ)
    → let lower = (if ltb n blk then n else blk) in
      join mp blk n order ≡ (some lower, joined mp n lower order)
join-joined mp blk n order = elim (Bool-cases (ltb n blk)) [ inl e ↦ rw e refl | inr e ↦ rw e refl ]

once :
    (b c f : Bool)
    → (b ≡ true → c ≡ false → f ≡ false)
    → (if b then false else if c then false else f) ≡ (if c then false else f)
once true true f h = refl
once true false f h = sym (h refl refl)
once false c f h = refl

gone : (c : Bool) {f : Bool} → (c ≡ false → f ≡ false) → (if c then false else f) ≡ false
gone true h = refl
gone false h = h refl

untouched :
    {A : Type 0} (b c : Bool) (v w o : A)
    → b ≡ false
    → c ≡ false
    → (if b then v else if c then w else o) ≡ o
untouched b c v w o e f = rw (e, f) refl

module _ (mp : Pool) (blk n lower o : ℕ) (sound : Sound mp) (n_block : IsBlock mp n)
    (blk_block : IsBlock mp blk) (n_free : mp.blk_free (index mp n) ≡ true)
    (n_order : mp.alloc_order (index mp n) ≡ o) (taken : mp.blk_free (index mp blk) ≡ false)
    (one : (lower ≡ n) ⊎ (lower ≡ blk)) where
  lower-IsBlock : IsBlock mp lower
  lower-IsBlock = elim one [
    | inl e ↦ subst (IsBlock mp) (sym e) n_block
    | inr e ↦ subst (IsBlock mp) (sym e) blk_block
  ]

  lower_is : (x : ℕ) → (x == lower) ≡ true → (x == n) ≡ false → mp.blk_free (index mp x) ≡ false
  lower_is x e f = elim one [
    | inl l ↦ absurd (cc (f, (==_iff x n).1 ((==_iff x lower).0 e ∙ l)))
    | inr l ↦ ap (λ y. mp.blk_free (index mp y)) ((==_iff x lower).0 e ∙ l) ∙ taken
  ]

  lower_not : (x : ℕ) → (x == n) ≡ false → (x == blk) ≡ false → (x == lower) ≡ false
  lower_not x e f = elim one [ inl l ↦ ap (λ y. x == y) l ∙ e | inr l ↦ ap (λ y. x == y) l ∙ f ]

  joined_frees :
      (x : ℕ)
      → IsBlock mp x
      → (joined mp n lower o).blk_free (index mp x)
        ≡ (if x == n then false else mp.blk_free (index mp x))
  unfolding mark_alloc set_alloc_order unlink blk_idx
  joined_frees x a =
      ap₂ (λ b c. if b then false else if c then false else mp.blk_free (index mp x))
        (ix-same mp.base mp.min_order x lower a lower-IsBlock)
        (ix-same mp.base mp.min_order x n a n_block)
      ∙ once (x == lower) (x == n) (mp.blk_free (index mp x)) (lower_is x)

  joined_orders :
      (x : ℕ)
      → IsBlock mp x
      → (x == n) ≡ false
      → (x == blk) ≡ false
      → (joined mp n lower o).alloc_order (index mp x) ≡ mp.alloc_order (index mp x)
  unfolding mark_alloc set_alloc_order unlink blk_idx
  joined_orders x a e f =
      untouched (index mp x == index mp lower) (index mp x == index mp n) _ _
        (mp.alloc_order (index mp x))
        (ix-same mp.base mp.min_order x lower a lower-IsBlock ∙ lower_not x e f)
        (ix-same mp.base mp.min_order x n a n_block ∙ e)

  pub joined-Sound : Sound (joined mp n lower o)
  unfolding mark_alloc set_alloc_order unlink blk_idx
  joined-Sound =
      joined-IsSound mp.base mp.min_order mp.max_order mp.blk_free mp.alloc_order mp.block_order
        (joined mp n lower o).blk_free (joined mp n lower o).alloc_order n blk o sound n_block
        n_free n_order taken joined_frees joined_orders

  pub joined-free_now :
      (a : ℕ) → o ≤ mp.max_order → free_now (joined mp n lower o) a + inside a n o ≡ free_now mp a
  unfolding mark_alloc set_alloc_order unlink blk_idx
  joined-free_now a l =
      joined-free_at mp.base mp.min_order mp.max_order mp.blk_free mp.alloc_order mp.block_order
        (joined mp n lower o).blk_free (joined mp n lower o).alloc_order n blk o sound n_block
        n_free n_order taken joined_frees joined_orders a l

  pub joined-taken : (joined mp n lower o).blk_free (index mp lower) ≡ false
  joined-taken =
      joined_frees lower lower-IsBlock ∙ gone (lower == n) (lower_is lower (==_refl lower))
