-- ===== src/MemPool/Release/Counter.antt =====
-- `mm_upmerge_blks` does not count.
use flightos.Common.{ℕ, zero, suc, ◌+◌, ◌-◌, ◌≡◌, refl, ap, ◌∙◌, inl, inr, true, ◌==◌, Bool-cases}
use flightos.MemPool.{
  Pool, set_at, mark_free, mark_alloc, set_alloc_order, unlink, link, find_neighbour,
  get_alloc_order, merge_blk, next_merge, upmerge_loop, put_back, upmerge_blks,
}
use flightos.MemPool.Sound.Merged.{joined, join-joined}
use flightos.MemPool.Freed.Loop.{join_cases}
use flightos.MemPool.Freed.Places.{lower_of}

loop-alloc_blks :
    (k : ℕ) (mp : Pool) (blk o : ℕ) → (upmerge_loop k mp blk o).2.alloc_blks ≡ mp.alloc_blks
unfolding upmerge_loop merge_blk mark_alloc set_alloc_order unlink
loop-alloc_blks zero mp blk o = refl
loop-alloc_blks (suc k) mp blk o =
    let n = find_neighbour mp blk o in
    let mp1 = record mp { linked = set_at mp.linked blk true } in
    let again = loop-alloc_blks k (joined mp1 n (lower_of blk n) o) (lower_of blk n) (o + 1) in
    elim (join_cases mp1 blk n o) [
      | inl c ↦ ap (λ r. (next_merge (upmerge_loop k) blk o r).2.alloc_blks) c
      | inr (c, free, order) ↦
          ap (λ r. (next_merge (upmerge_loop k) blk o r).2.alloc_blks) (c ∙ join-joined mp1 blk n o)
          ∙ again
    ]

put_back-alloc_blks :
    (base blk o : ℕ) (mp : Pool) → (put_back base (blk, o, mp)).alloc_blks ≡ mp.alloc_blks
unfolding mark_free set_alloc_order link
put_back-alloc_blks base blk o mp = elim (Bool-cases (blk == base)) [
  | inl e ↦ rw e refl
  | inr e ↦ rw e refl
]

pub upmerge_blks-alloc_blks :
    (mp : Pool) (blk : ℕ) → (upmerge_blks mp blk).alloc_blks ≡ mp.alloc_blks
unfolding upmerge_blks
upmerge_blks-alloc_blks mp blk =
    let o = get_alloc_order mp blk in
    let (b, o', mp') = upmerge_loop (mp.max_order - o) mp blk o in
    put_back-alloc_blks mp.base b o' mp' ∙ loop-alloc_blks (mp.max_order - o) mp blk o
