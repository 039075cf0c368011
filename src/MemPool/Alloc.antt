-- ===== src/MemPool/Alloc.antt =====
-- `mm_alloc` takes its block out of the free memory, and loses none of the rest.
use flightos.Common.{
  ℕ, zero, suc, ◌+◌, ◌-◌, ◌%◌, ◌^◌, ◌≤◌, ◌<◌, ◌≡◌, refl, ap, subst, ◌∙◌, inl, inr, true, false,
  Option, none, some, List, [], ◌∷◌, arith, word, ltb, ◌==◌, if◌then◌else◌, ltb→lt, ==_iff,
  Bool-cases, is_empty,
}
use flightos.Log2.{ilog2, roundup_pow_of_two}
use flightos.Log2.Bounds.{pow_mono, roundup-ilog2}
use flightos.MemPool.{Pool, Stat, mark_alloc, set_alloc_order, split_blk}
use flightos.MemPool.Calls.{
  unlink_first, from_order, split_loop, first_order, fixup_validate, from_list, alloc_order_of,
  alloc,
}
use flightos.MemPool.Covers.{inside, covers_list, covers, covers-set_at, split_loop-covers}

-- What the search for an order answers: none of the orders has a free block, or an order that has one.
abbrev Answer : Pool → ℕ → ℕ → Option ℕ → Type 0
Answer mp n i none = (j : ℕ) → i ≤ j → j < i + n → is_empty (mp.block_order j) ≡ true
Answer mp n i (some j) = (i ≤ j) × (j < i + n) × (is_empty (mp.block_order j) ≡ false)

-- Where `mm_alloc` finds the order that it splits.
first_order_lem : (mp : Pool) (n i : ℕ) → Answer mp n i (first_order mp i n)
unfolding first_order
first_order_lem mp zero i = λ j l h. absurd (omega arith)
first_order_lem mp (suc n) i = elim (Bool-cases (is_empty (mp.block_order i))) [
  | inl e ↦ rw e (later (first_order mp (suc i) n) (first_order_lem mp n (suc i)) e)
  | inr e ↦ rw e (omega arith, omega arith, e)
]
  where
    later :
        (o : Option ℕ)
        → Answer mp n (suc i) o
        → is_empty (mp.block_order i) ≡ true
        → Answer mp (suc n) i o
    later none f e = λ j l h. elim (Bool-cases (i == j)) [
      | inl p ↦ subst (λ x. is_empty (mp.block_order x) ≡ true) ((==_iff i j).0 p) e
      | inr p ↦ f j (ground arith) (omega arith)
    ]
    later (some j) (l, h, g) e = (omega arith, omega arith, g)

-- The end of `mm_alloc`.
abbrev pub Handed : Pool → ℕ → Option ℕ × Pool × Stat → Type 0
Handed mp order (none, mp', st') =
    (mp' ≡ mp)
    × (order ≤ mp.max_order
        → ((mp.alloc_blks == 0) ≡ false)
          × ((i : ℕ) → order ≤ i → i ≤ mp.max_order → is_empty (mp.block_order i) ≡ true))
Handed mp order (some blk, mp', st') =
    (order ≤ mp.max_order)
    × (mp'.alloc_blks ≡ (mp.alloc_blks + 2 ^ (order - mp.min_order)) % word)
    × ((a : ℕ)
        → covers a mp'.block_order mp.max_order + inside a blk order
          ≡ covers a mp.block_order mp.max_order
            + (if mp.alloc_blks == 0 then inside a mp.base mp.max_order else 0))

split_loop-same :
    (mp : Pool) (blk order i : ℕ) → (split_loop mp blk order i).alloc_blks ≡ mp.alloc_blks
unfolding split_loop split_blk
split_loop-same mp blk order zero = refl
split_loop-same mp blk order (suc i) = elim (Bool-cases (ltb order (suc i))) [
  | inl e ↦ rw e (split_loop-same (split_blk mp blk i) blk order i)
  | inr e ↦ rw e refl
]

hand_out-covers :
    (a k : ℕ) (mp : Pool) (blk order i : ℕ)
    → order ≤ i
    → i ≤ k
    → let mp1 = set_alloc_order (mark_alloc mp blk) blk order in
      covers a (split_loop mp1 blk order i).block_order k + inside a blk order
      ≡ covers a mp.block_order k + inside a blk i
unfolding set_alloc_order mark_alloc
hand_out-covers a k mp blk order i h l =
    split_loop-covers a k (set_alloc_order (mark_alloc mp blk) blk order) blk order i h
      (omega arith)

from_list-Handed :
    (mp : Pool) (st : Stat) (order i : ℕ)
    → (mp.alloc_blks == 0) ≡ false
    → order ≤ i
    → i ≤ mp.max_order
    → is_empty (mp.block_order i) ≡ false
    → Handed mp order (from_list mp st order i (mp.block_order i))
from_list-Handed mp st order i e h l ne = go (mp.block_order i) refl
  where
    go : (blks : List ℕ) → mp.block_order i ≡ blks → Handed mp order (from_list mp st order i blks)
    go [] f = absurd (cc (ne, ap is_empty f))
    go (blk ∷ blks) f =
        let mp0 = unlink_first mp i blk blks in
        (
          omega arith,
          ap (λ n. (n + 2 ^ (order - mp.min_order)) % word)
              (split_loop-same (set_alloc_order (mark_alloc mp0 blk) blk order) blk order i
                ∙ unfold set_alloc_order mark_alloc in refl),
          λ a. omega (
            arith,
            hand_out-covers a mp.max_order mp0 blk order i h l,
            covers-set_at a mp.block_order i blks mp.max_order l,
            ap (covers_list a i) f,
            ap (λ b. if b then inside a mp.base mp.max_order else 0) e,
          ),
        )

alloc_order_of-Handed :
    (mp : Pool) (st : Stat) (order : ℕ)
    → order ≤ mp.max_order
    → Handed mp order (alloc_order_of mp st (some order))
alloc_order_of-Handed mp st order h = elim (Bool-cases (mp.alloc_blks == 0)) [
  | inl e ↦ rw e (
    h,
    ap (λ n. (n + 2 ^ (order - mp.min_order)) % word)
        (split_loop-same (set_alloc_order (mark_alloc mp mp.base) mp.base order) mp.base order
            mp.max_order
          ∙ unfold set_alloc_order mark_alloc in refl),
    λ a. omega (
      arith,
      hand_out-covers a mp.max_order mp mp.base order mp.max_order h (omega arith),
      ap (λ b. if b then inside a mp.base mp.max_order else 0) e,
    ),
  )
  | inr e ↦ rw e (
      go e (first_order mp order (suc mp.max_order - order))
        (first_order_lem mp (suc mp.max_order - order) order))
]
  where
    go :
        (mp.alloc_blks == 0) ≡ false
        → (o : Option ℕ) → Answer mp (suc mp.max_order - order) order o
        → Handed mp order (from_order mp st order o)
    go e none f = (refl, λ h. (e, λ i g l. f i g (omega arith)))
    go e (some i) (l, g, f) = from_list-Handed mp st order i e l (omega arith) f

-- The order of the block for a request: that of the next power of two, or the smallest of the pool.
abbrev pub order_for : Pool → ℕ → ℕ
order_for mp size =
    let order = ilog2 (roundup_pow_of_two size) in
    if ltb order mp.min_order then mp.min_order else order

order_for-fits : (mp : Pool) (size : ℕ) → 0 < size → size ≤ 2 ^ 31 → size ≤ 2 ^ order_for mp size
order_for-fits mp size h l =
    let k = ilog2 (roundup_pow_of_two size) in
    let fits : size ≤ 2 ^ k = (roundup-ilog2 size h l).1 in
    elim (Bool-cases (ltb k mp.min_order)) [
      | inl e ↦
          rw e
            (omega (arith, fits, pow_mono k mp.min_order (omega (arith, ltb→lt k mp.min_order e))))
      | inr e ↦ rw e fits
    ]

-- `mm_alloc` of a size up to 2 ^ 31 that is not zero has room for the size in the blocks of the order that
-- it asks for. It hands out such a block, or leaves the pool as it is, the latter only if that order is
-- too large or no free block of that order or a larger one is there. It takes exactly the block that
-- it hands out from the free memory: every address is in as many free blocks as before, less that
-- block, where all of the pool counts as free while nothing is allocated. The count of allocated
-- blocks grows by the size of the block.
pub alloc_lem :
    (mp : Pool) (st : Stat) (size : ℕ)
    → 0 < size
    → size ≤ 2 ^ 31
    → mp.min_order ≤ mp.max_order
    → (size ≤ 2 ^ order_for mp size) × Handed mp (order_for mp size) (alloc mp st size)
unfolding alloc fixup_validate
alloc_lem mp st size h l m = (
  order_for-fits mp size h l,
  elim (Bool-cases (size == 0)) [
    | inl e ↦ absurd (omega (arith, (==_iff size 0).0 e))
    | inr e ↦ rw e (elim (Bool-cases (ltb mp.max_order (ilog2 (roundup_pow_of_two size)))) [
      | inl f ↦ rw f (refl, λ g. absurd (too_large f g))
      | inr f ↦ rw f (elim (Bool-cases (ltb (ilog2 (roundup_pow_of_two size)) mp.min_order)) [
        | inl g ↦ rw g (alloc_order_of-Handed mp st mp.min_order m)
        | inr g ↦
            rw g (alloc_order_of-Handed mp st (ilog2 (roundup_pow_of_two size)) (ground arith))
      ])
    ])
  ],
)
  where
    too_large :
        ltb mp.max_order (ilog2 (roundup_pow_of_two size)) ≡ true
        → ¬ (order_for mp size ≤ mp.max_order)
    too_large f g = ground arith
