-- ===== src/MemPool/Freed/Loop.antt =====
-- The rounds of `mm_upmerge_blks` only move what the free blocks cover.
use flightos.Common.{
  ℕ, zero, suc, ◌+◌, ◌/◌, ◌<◌, ◌≡◌, refl, sym, subst, ◌∙◌, ◌⊎◌, inl, inr, true, false, none, arith,
  ◌==◌, ==_iff, Bool-cases,
}
use flightos.MemPool.{
  Pool, set_at, blk_idx, mark_alloc, set_alloc_order, unlink, is_blk_free, get_alloc_order, join,
  join_if_free, merge_blk, next_merge, upmerge_loop, put_back,
}
use flightos.MemPool.Halves.{other, find_neighbour_lem, other_within, half_within}
use flightos.MemPool.Sound.Merged.{
  Sound, index, joined, join-joined, joined-Sound, joined-free_now, joined-taken,
}
use flightos.MemPool.Freed.{Restored, put_back-Restored}
use flightos.MemPool.Freed.Places.{at, IsTaken, at-IsBlock, lower_of, lower_lem}

-- Without a merge the pool stays; otherwise the neighbour is free, with the same order.
pub join_cases :
    (mp : Pool) (blk n o : ℕ)
    → (join_if_free mp blk n o ≡ (none, mp))
      ⊎ ((join_if_free mp blk n o ≡ join mp blk n o)
          × (mp.blk_free (index mp n) ≡ true)
          × (mp.alloc_order (index mp n) ≡ o))
unfolding is_blk_free get_alloc_order blk_idx
join_cases mp blk n o = elim (Bool-cases (is_blk_free mp n)) [
  | inr e ↦ inl (rw e refl)
  | inl e ↦ elim (Bool-cases (get_alloc_order mp n == o)) [
    | inr f ↦ inl (rw (e, f) refl)
    | inl f ↦ elim (Bool-cases (mp.linked n)) [
      | inr g ↦ inl (rw (e, f, g) refl)
      | inl g ↦ inr (rw (e, f, g) refl, e, (==_iff (get_alloc_order mp n) o).0 f)
    ]
  ]
]

abbrev Loops : ℕ → Pool → ℕ → ℕ → Type 0
Loops k mp blk o = Restored mp blk o (put_back mp.base (upmerge_loop k mp blk o))

-- What the loop does to the pool in which the block has been joined with a free neighbour.
merged-Restored :
    (k : ℕ) (mp : Pool) (o i : ℕ)
    → let n = at mp o (other i) in
      let lower = lower_of (at mp o i) n in
      Sound mp
      → IsTaken mp o i
      → o < mp.max_order
      → mp.blk_free (index mp n) ≡ true
      → mp.alloc_order (index mp n) ≡ o
      → (IsTaken (joined mp n lower o) (suc o) (i / 2)
          → Sound (joined mp n lower o)
          → Loops k (joined mp n lower o) (at mp (suc o) (i / 2)) (suc o))
      → Restored mp
          (at mp o i)
          o
          (put_back mp.base (upmerge_loop k (joined mp n lower o) lower (suc o)))
unfolding mark_alloc set_alloc_order unlink
merged-Restored k mp o i sound (t, l, u, v, m) h free order again =
    let blk = at mp o i in
    let n = at mp o (other i) in
    let lower = lower_of blk n in
    let n_block = at-IsBlock mp (other i) o m u v (other_within i o mp.max_order h l) in
    let block = at-IsBlock mp i o m u v l in
    let e : lower ≡ at mp (suc o) (i / 2) = (lower_lem mp.base i o 0).0 in
    let one = (lower_lem mp.base i o 0).2 in
    let t' = joined-taken mp blk n lower o sound n_block block free order t one in
    let s' = joined-Sound mp blk n lower o sound n_block block free order t one in
    let r =
      subst (λ b. Loops k (joined mp n lower o) b (suc o)) (sym e)
        (again
          (
            subst (λ b. (joined mp n lower o).blk_free (index mp b) ≡ false) e t',
            half_within i o mp.max_order h l,
            omega (arith, u),
            omega (arith, h),
            m,
          )
          s') in
    (
      r.0,
      λ a. omega (
        arith,
        r.1 a,
        joined-free_now mp blk n lower o sound n_block block free order t one a v,
        (lower_lem mp.base i o a).1,
      ),
    )

pub loop-Restored :
    (k : ℕ) (mp : Pool) (o i : ℕ)
    → o + k ≡ mp.max_order
    → Sound mp
    → IsTaken mp o i
    → Loops k mp (at mp o i) o
unfolding upmerge_loop merge_blk mark_alloc set_alloc_order unlink
loop-Restored zero mp o i h sound (t, l, u, v, m) =
    put_back-Restored mp (at mp o i) o sound (at-IsBlock mp i o m u v l) t (omega (arith, v, m)) v
loop-Restored (suc k) mp o i h sound (t, l, u, v, m) =
    let blk = at mp o i in
    let n = at mp o (other i) in
    let mp1 = record mp { linked = set_at mp.linked blk true } in
    let again =
      loop-Restored k (joined mp1 n (lower_of blk n) o) (suc o) (i / 2) (omega (arith, h)) in
    subst
      (λ z.
        Restored mp blk o
          (put_back mp.base (next_merge (upmerge_loop k) blk o (join_if_free mp1 blk z o))))
      (sym (find_neighbour_lem mp o i))
      (elim (join_cases mp1 blk n o) [
        | inl c ↦
            subst (λ r. Restored mp blk o (put_back mp.base (next_merge (upmerge_loop k) blk o r)))
              (sym c)
              (put_back-Restored mp1 blk o sound (at-IsBlock mp i o m u v l) t (omega (arith, v, m))
                v)
        | inr (c, free, order) ↦
            subst (λ r. Restored mp blk o (put_back mp.base (next_merge (upmerge_loop k) blk o r)))
              (sym (c ∙ join-joined mp1 blk n o))
              (subst
                (λ z. Restored mp blk o (
                  put_back mp.base
                    (upmerge_loop k (joined mp1 n (lower_of blk n) o) (lower_of blk n) z)))
                (plus_one o)
                (merged-Restored k mp1 o i sound (t, l, u, v, m) (omega (arith, h)) free order
                  (λ a b. again b a)))
      ])
  where
    plus_one : (o : ℕ) → suc o ≡ o + 1
    plus_one o = omega arith
