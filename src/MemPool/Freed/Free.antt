-- ===== src/MemPool/Freed/Free.antt =====
-- What `mm_free` gives back to a pool.
use flightos.Common.{ℕ, ◌-◌, ◌^◌, ◌≤◌, ◌<◌, ◌≡◌, sym, ap, subst, ◌∙◌, ◌≢◌, false, arith}
use flightos.MemPool.{
  Pool, Stat, blk_idx, is_blk_free, get_alloc_order, upmerge_loop, put_back, upmerge_blks,
}
use flightos.MemPool.Sound.Merged.{Sound, index}
use flightos.MemPool.Freed.{Restored}
use flightos.MemPool.Freed.Places.{at, IsTaken}
use flightos.MemPool.Freed.Loop.{loop-Restored}
use flightos.MemPool.Calls.{release, free}
use flightos.MemPool.Release.{IsReleasable, valid_iff, fixup_inside, free_last}

upmerge_blks-Restored :
    (mp : Pool) (addr i : ℕ)
    → Sound mp
    → IsTaken mp (get_alloc_order mp addr) i
    → addr ≡ at mp (get_alloc_order mp addr) i
    → Restored mp addr (get_alloc_order mp addr) (upmerge_blks mp addr)
unfolding upmerge_blks
upmerge_blks-Restored mp addr i sound taken e =
    let o = get_alloc_order mp addr in
    subst (λ b. Restored mp b o (put_back mp.base (upmerge_loop (mp.max_order - o) mp b o))) (sym e)
      (loop-Restored (mp.max_order - o) mp o i (omega (arith, taken.3)) sound taken)

-- `mm_free` of an address that it may release keeps a pool sound: every block that is marked free, but
-- for the base, stays in the list of its order, once, and no other block is in a list. An address is then in
-- one more free block if it is in the released block, and in as many as before otherwise, whichever
-- blocks the release has merged. The address is the start of a block of its order, which is from the
-- smallest to the largest order of the pool, and the largest order is below 32.
pub free_restores :
    (mp : Pool) (st : Stat) (addr i : ℕ)
    → addr ≢ 0
    → mp.max_order < 32
    → Sound mp
    → IsReleasable mp addr
    → addr ≡ at mp (get_alloc_order mp addr) i
    → i < 2 ^ (mp.max_order - get_alloc_order mp addr)
    → mp.min_order ≤ get_alloc_order mp addr
    → Restored mp addr (get_alloc_order mp addr) (free mp st addr).1
unfolding is_blk_free get_alloc_order blk_idx
free_restores mp st addr i z m sound r e l u =
    let o = get_alloc_order mp addr in
    let taken : IsTaken mp o i =
      (subst (λ b. mp.blk_free (index mp b) ≡ false) e r.taken, l, u, r.limited, m) in
    let valid = (valid_iff mp addr).1 (r.above, r.below) in
    let s =
      free_last mp st addr (ground (arith, z)) valid r.taken (ground (arith, r.ordered))
      ∙ ap (release mp st addr) (fixup_inside mp addr o valid (ground (arith, r.limited))) in
    subst (λ q. Restored mp addr o q.1) (sym s) (upmerge_blks-Restored mp addr i sound taken e)
