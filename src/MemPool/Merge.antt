-- ===== src/MemPool/Merge.antt =====
-- What `mm_merge_blk` makes of two blocks.
use flightos.Common.{
  ℕ, ◌+◌, ◌-◌, ◌*◌, ◌%◌, ◌^◌, ◌<◌, ◌≡◌, refl, sym, ap, subst, ◌∙◌, ◌≢◌, inl, inr, Bool, true, false,
  not, Option, none, some, List, arith, ltb, ◌==◌, if◌then◌else◌, ltb→lt, lt→ltb, ==_iff, ==_refl,
  Bool-cases,
}
use flightos.MemPool.{remove}
use flightos.MemPool.Halves.{find_neighbour_lem}
use flightos.MemPool.Sound.{count, count-remove_self, count-remove_ne}
use flightos.MemPool.{
  Pool, set_at, blk_idx, mark_alloc, is_blk_free, get_alloc_order, set_alloc_order, unlink,
  find_neighbour, join, join_if_free, merge_blk,
}

-- The neighbour is free, of the same order, and its list fields are not NULL.
pub record IsMergeable (mp : Pool) (n order : ℕ) : Type 0 where
  free : is_blk_free mp n ≡ true
  equal : get_alloc_order mp n ≡ order
  listed : mp.linked n ≡ true

-- The outcome of a merge with the neighbour `n`: it is taken out of a list, if it is in one, and what is left is
-- the lower block, with the next order and not free. An
-- upper neighbour loses its order; but where the neighbour is the lower block, the block itself keeps
-- the order that it had.
pub record IsMerged (mp : Pool) (blk n order : ℕ) (lower : ℕ) (mp' : Pool) : Type 0 where
  unlisted :
      (o b : ℕ)
      → count b (mp'.block_order o) ≡ count b (mp.block_order o) - (if b == n then 1 else 0)
  first : lower ≡ (if ltb n blk then n else blk)
  next_order : get_alloc_order mp' lower ≡ (order + 1) % 256
  taken : is_blk_free mp' lower ≡ false
  cleared : blk < n → blk_idx mp n ≢ blk_idx mp blk → get_alloc_order mp' n ≡ 0
  stale : n < blk → blk_idx mp n ≢ blk_idx mp blk → get_alloc_order mp' blk ≡ get_alloc_order mp blk

set_at_self {ℓ} : {A : Type ℓ} (f : ℕ → A) (i : ℕ) (v : A) → set_at f i v i ≡ v
set_at_self f i v = rw (==_refl i) refl

set_at_ne {ℓ} : {A : Type ℓ} (f : ℕ → A) (i j : ℕ) (v : A) → j ≢ i → set_at f i v j ≡ f j
set_at_ne f i j v h = elim (Bool-cases (j == i)) [
  | inl e ↦ absurd (h ((==_iff j i).0 e))
  | inr e ↦ rw e refl
]

count-remove : (b n : ℕ) (l : List ℕ) → count b (remove n l) ≡ count b l - (if b == n then 1 else 0)
count-remove b n l = elim (Bool-cases (b == n)) [
  | inl e ↦ rw e (ap (λ m. count b (remove m l)) (sym ((==_iff b n).0 e)) ∙ count-remove_self b l)
  | inr e ↦ rw e (count-remove_ne b n l (flip e) ∙ omega arith)
]
  where
    flip : (b == n) ≡ false → (n == b) ≡ false
    flip e = ground arith

join-IsMerged :
    (mp : Pool) (blk n order : ℕ)
    → let (o, mp') = join mp blk n order in
      (lower : ℕ) × (o ≡ some lower) × IsMerged mp blk n order lower mp'
unfolding set_alloc_order mark_alloc unlink is_blk_free get_alloc_order blk_idx
join-IsMerged mp blk n order = elim (Bool-cases (ltb n blk)) [
  | inl e ↦ rw e (
    n,
    refl,
    record {
      unlisted = λ o b. count-remove b n (mp.block_order o);
      first = sym (ap (λ b. if b then n else blk) e);
      next_order =
          set_at_self (set_at mp.alloc_order (blk_idx mp n) 0) (blk_idx mp n) ((order + 1) % 256);
      taken = set_at_self (set_at mp.blk_free (blk_idx mp n) false) (blk_idx mp n) false;
      cleared = λ h ne. absurd (omega (arith, h, ltb→lt n blk e));
      stale = λ h ne.
          set_at_ne (set_at mp.alloc_order (blk_idx mp n) 0) (blk_idx mp n) (blk_idx mp blk)
            ((order + 1) % 256) (λ q. ne (sym q))
          ∙ set_at_ne mp.alloc_order (blk_idx mp n) (blk_idx mp blk) 0 (λ q. ne (sym q));
    },
  )
  | inr e ↦ rw e (
    blk,
    refl,
    record {
      unlisted = λ o b. count-remove b n (mp.block_order o);
      first = sym (ap (λ b. if b then n else blk) e);
      next_order =
          set_at_self (set_at mp.alloc_order (blk_idx mp n) 0) (blk_idx mp blk) ((order + 1) % 256);
      taken = set_at_self (set_at mp.blk_free (blk_idx mp n) false) (blk_idx mp blk) false;
      cleared = λ h ne.
          set_at_ne (set_at mp.alloc_order (blk_idx mp n) 0) (blk_idx mp blk) (blk_idx mp n)
            ((order + 1) % 256) ne
          ∙ set_at_self mp.alloc_order (blk_idx mp n) 0;
      stale = λ h ne. absurd (cc (e, lt→ltb n blk h));
    },
  )
]

-- What a merge may do, from the pool in which the list fields of the block have been initialised.
abbrev pub Merges : Pool → ℕ → ℕ → ℕ → Option ℕ × Pool → Type 0
Merges mp blk n order (none, mp') = (¬ IsMergeable mp n order) × (mp' ≡ mp)
Merges mp blk n order (some lower, mp') = IsMergeable mp n order × IsMerged mp blk n order lower mp'

join_if_free-Merges :
    (mp : Pool) (blk n order : ℕ) → Merges mp blk n order (join_if_free mp blk n order)
join_if_free-Merges mp blk n order =
    decided (is_blk_free mp n) (get_alloc_order mp n == order) (mp.linked n) refl refl refl
  where
    joined :
        IsMergeable mp n order
        → (r : Option ℕ × Pool) → join mp blk n order ≡ r
        → Merges mp blk n order r
    joined m (o, mp') e =
        let (lower, f, k) = join-IsMerged mp blk n order in
        subst (Merges mp blk n order) e
          (m, subst (λ l. IsMerged mp blk n order l (join mp blk n order).1) k.first k)

    decided :
        (a b c : Bool)
        → is_blk_free mp n ≡ a
        → (get_alloc_order mp n == order) ≡ b
        → mp.linked n ≡ c
        → Merges mp blk n order (
            if not a
            then (none, mp)
            else if not b
            then (none, mp)
            else if not c
            then (none, mp)
            else join mp blk n order)
    decided false b c e f g = ((λ m. cc (e, m.free)), refl)
    decided true false c e f g =
        ((λ m. cc (f, (==_iff (get_alloc_order mp n) order).1 m.equal)), refl)
    decided true true false e f g = ((λ m. cc (g, m.listed)), refl)
    decided true true true e f g =
        joined (record { free = e; equal = (==_iff _ _).0 f; listed = g }) (join mp blk n order)
          refl

-- `mm_merge_blk`, for the block at the index `j` of its order, joins it with the other block of the pair,
-- exactly if that one is marked free, has the same order, and its list fields are not NULL; otherwise
-- it answers NULL, and only the list fields of the block have been initialised. The neighbour is then
-- once less in every list that it was in, and no other block is. The answer is the lower block, with
-- the next order, as an element of one byte, and not marked free. An upper neighbour gets the order 0;
-- but if the neighbour is the lower block, the block itself keeps the order that it had, where the
-- blocks have different indices.
pub merge_blk_lem :
    (mp : Pool) (blk order j : ℕ)
    → blk ≡ mp.base + j * 2 ^ order
    → Merges
        (record mp { linked = set_at mp.linked blk true })
        blk
        (mp.base + (if j % 2 == 0 then j + 1 else j - 1) * 2 ^ order)
        order
        (merge_blk mp blk order)
unfolding merge_blk
merge_blk_lem mp blk order j e =
    let mp1 = record mp { linked = set_at mp.linked blk true } in
    subst (λ n. Merges mp1 blk n order (join_if_free mp1 blk (find_neighbour mp blk order) order))
      (ap (λ b. find_neighbour mp b order) e ∙ find_neighbour_lem mp order j)
      (join_if_free-Merges mp1 blk (find_neighbour mp blk order) order)
