-- ===== src/MemPool/Freed.antt =====
-- What comes back from a release is what the block covers.
pub mod Places
pub mod Loop
pub mod Free
use flightos.Common.{
  ℕ, zero, suc, ◌+◌, ◌-◌, ◌*◌, ◌/◌, ◌%◌, ◌^◌, ◌≤◌, ◌<◌, ◌≡◌, refl, sym, ap, ap₂, subst, ◌∙◌, ◌≡⟨◌⟩◌,
  ◌∎, ◌≢◌, ◌↔◌, ◌⊎◌, inl, inr, Bool, true, false, not, ◌&&◌, ◌||◌, Option, none, some, List, [],
  ◌∷◌, ◌++◌, map, reverse, append-nil, append_assoc, arith, word, ltb, leb, ◌==◌, if◌then◌else◌,
  ltb→lt, lt→ltb, leb→le, le→leb, ==_iff, ==_refl, tests, Bool-cases, Option-cases, of_some, length,
  get_elem?, take, drop, set, All, filter, is_empty, length-append, length-set, get_elem?-set_self,
  get_elem?-set_ne, All-append, All-append_left, All-append_right, All-map, Status, success,
  failure, einval, enomem, enoexec, enodev, enosched, eperm,
}
use native.Mathlib.Nat.{one-mul, add-mul, mul_assoc, mul-lt-mul_of_pos_right}
use flightos.Log2.Bounds.{pow_suc, pow_mono, pow_positive}
use flightos.MemPool.{
  Pool, set_at, blk_idx, mark_free, mark_alloc, set_alloc_order, unlink, link, is_blk_free,
  get_alloc_order, join, join_if_free, merge_blk, next_merge, upmerge_loop, put_back,
}
use flightos.MemPool.Halves.{other, find_neighbour_lem, lower_half, other_within, half_within}
use flightos.MemPool.Covers.{inside, inside-halves}
use flightos.MemPool.Sound.{ix-same, IsSound, free_at}
use flightos.MemPool.Sound.Linked.{linked-IsSound, linked-free_at}
use flightos.MemPool.Sound.Merged.{
  Sound, free_now, index, IsBlock, joined, join-joined, joined-Sound, joined-free_now, joined-taken,
}

-- A pool that has got a block back: it is sound, and an address in the block is in one more free block.
abbrev pub Restored : Pool → ℕ → ℕ → Pool → Type 0
Restored mp blk o r = Sound r × ((a : ℕ) → free_now r a ≡ free_now mp a + inside a blk o)

module _ (mp : Pool) (blk o : ℕ) (sound : Sound mp) (block : IsBlock mp blk)
    (taken : mp.blk_free (index mp blk) ≡ false) (small : o < 256) where
  abbrev marked : Pool
  marked = set_alloc_order (mark_free mp blk) blk o

  marked_frees :
      (x : ℕ)
      → IsBlock mp x
      → marked.blk_free (index mp x) ≡ (if x == blk then true else mp.blk_free (index mp x))
  unfolding mark_free set_alloc_order blk_idx
  marked_frees x a =
      ap (λ b. if b then true else mp.blk_free (index mp x))
        (ix-same mp.base mp.min_order x blk a block)

  marked_orders :
      (x : ℕ)
      → IsBlock mp x
      → marked.alloc_order (index mp x) ≡ (if x == blk then o else mp.alloc_order (index mp x))
  unfolding mark_free set_alloc_order blk_idx
  marked_orders x a =
      ap₂ (λ b v. if b then v else mp.alloc_order (index mp x))
        (ix-same mp.base mp.min_order x blk a block) (byte o small)
    where
      byte : (o : ℕ) → o < 256 → o % 256 ≡ o
      byte o l = omega arith

  abbrev WithLists : (ℕ → List ℕ) → Type 0
  WithLists ls =
      IsSound mp.base mp.min_order marked.blk_free marked.alloc_order ls
      × ((a : ℕ)
          → free_at mp.base mp.min_order mp.max_order marked.blk_free marked.alloc_order ls a
            ≡ free_now mp a + inside a blk o)

  pub put_back-Restored : o ≤ mp.max_order → Restored mp blk o (put_back mp.base (blk, o, mp))
  unfolding mark_free set_alloc_order blk_idx link
  put_back-Restored l = shape (blk == mp.base) (
    linked-IsSound mp.base mp.min_order mp.max_order mp.blk_free mp.alloc_order mp.block_order
        marked.blk_free marked.alloc_order blk o sound block taken marked_frees marked_orders,
    λ a.
        linked-free_at mp.base mp.min_order mp.max_order mp.blk_free mp.alloc_order mp.block_order
          marked.blk_free marked.alloc_order blk o sound block taken marked_frees marked_orders a l,
  )
    where
      shape :
          (c : Bool)
          → WithLists
              (if c then mp.block_order else set_at mp.block_order o (blk ∷ mp.block_order o))
          → Restored mp blk o (if c then marked else link marked o blk)
      shape true h = h
      shape false h = h
