-- ===== src/MemPool/Tests.antt =====
-- A pool of 64 bytes with blocks of 8 bytes, and the theorems at it.
use flightos.Common.{
  ◌^◌, ◌≤◌, ◌≡◌, refl, inl, inr, Bool, true, false, none, some, [], ◌∷◌, arith, ◌==◌, if◌then◌else◌,
  Bool-cases,
}
use flightos.Log2.{rounddown_pow_of_two, ilog2, roundup_pow_of_two}
use flightos.MemPool.{blk_addr_valid, is_blk_free, get_alloc_order, set_at, merge_blk, Pool, Stat}
use flightos.MemPool.Calls.{alloc, free}
use flightos.MemPool.Init.{min_order_for, init}
use flightos.MemPool.Init.Ready.{Ready, init_lem}
use flightos.MemPool.Merge.{Merges, merge_blk_lem}
use flightos.MemPool.Release.{Outcome, free_cases, IsReleasable}
use flightos.MemPool.Sound.Merged.{Sound}
use flightos.MemPool.Freed.{Restored}
use flightos.MemPool.Freed.Free.{free_restores}
use flightos.MemPool.Alloc.{order_for, Handed, alloc_lem}

abbrev pool : Pool
pool = record {
  base = 4096;
  max_order = 6;
  min_order = 3;
  n_blks = 8;
  alloc_blks = 0;
  alloc_order = λ i. if i == 0 then 6 else 0;
  blk_free = λ i. i == 0;
  block_order = λ o. [];
  linked = λ a. false;
}

abbrev stat : Stat
stat = record { total_blocks = 8; used_blocks = 0; alloc_fail = 0 }

-- The pool behind an allocation of 9 bytes, and another one.
abbrev one_taken : Pool
one_taken = (alloc pool stat 9).1

abbrev two_taken : Pool
two_taken = (alloc one_taken stat 16).1

first_block : (alloc pool stat 9).0 ≡ some 4096
unfolding alloc ilog2 roundup_pow_of_two
first_block = refl

second_block : (alloc one_taken stat 16).0 ≡ some 4112
unfolding alloc ilog2 roundup_pow_of_two
second_block = refl

alloc_example :
    (16 ≤ 2 ^ order_for one_taken 16)
    × Handed one_taken (order_for one_taken 16) (alloc one_taken stat 16)
unfolding alloc ilog2 roundup_pow_of_two
alloc_example = alloc_lem one_taken stat 16 (omega arith) (omega arith) (omega arith)

-- The pool behind the release of the first block, and then of the second: all of it is free again.
abbrev one_back : Bool × Pool × Stat
one_back = free two_taken stat 4096

abbrev all_back : Bool × Pool × Stat
all_back = free one_back.1 stat 4112

merged : all_back.1.block_order 6 ≡ []
unfolding free alloc ilog2 roundup_pow_of_two
merged = refl

free_example : Outcome two_taken stat 4096 (free two_taken stat 4096)
free_example = free_cases two_taken stat 4096 (omega arith)

-- The upper block is still taken to be allocated behind the merge, and is released a second time.
second_free : (free all_back.1 stat 4112).0 ≡ false
unfolding free alloc ilog2 roundup_pow_of_two
second_free = refl

small_enough : min_order_for 9 ≤ ilog2 (rounddown_pow_of_two 100)
unfolding min_order_for ilog2 roundup_pow_of_two rounddown_pow_of_two
small_enough = omega arith

init_example : Ready 4096 100 9 0 (init pool stat 4096 100 9)
init_example =
    init_lem pool stat 4096 100 9 (omega arith) (omega arith) (omega arith) small_enough
      (omega arith)

-- The block that is released a second time is in a list, while the base of the pool is free.
linked_twice : (free all_back.1 stat 4112).1.block_order 4 ≡ 4112 ∷ []
unfolding free alloc ilog2 roundup_pow_of_two
linked_twice = refl

merge_example :
    Merges
      (record one_back.1 { linked = set_at one_back.1.linked 4112 true })
      4112
      4096
      4
      (merge_blk one_back.1 4112 4)
unfolding free alloc ilog2 roundup_pow_of_two
merge_example = merge_blk_lem one_back.1 4112 4 1 refl

-- A pool whose lower half is taken and whose upper half is free.
abbrev half_taken : Pool
half_taken = record {
  base = 4096;
  max_order = 6;
  min_order = 3;
  n_blks = 8;
  alloc_blks = 4;
  alloc_order = λ i. if i == 0 then 5 else if i == 4 then 5 else 0;
  blk_free = λ i. i == 4;
  block_order = λ o. if o == 5 then 4128 ∷ [] else [];
  linked = λ a. a == 4128;
}

half_taken-Sound : Sound half_taken
half_taken-Sound x (j, e, l) o = elim (Bool-cases (o == 5)) [
  | inl f ↦ rw f (ground (arith, e, l))
  | inr f ↦ rw f (ground (arith, e, l, f))
]

half_taken-IsReleasable : IsReleasable half_taken 4096
unfolding blk_addr_valid is_blk_free get_alloc_order
half_taken-IsReleasable = record {
  above = omega arith;
  below = omega arith;
  taken = refl;
  ordered = omega arith;
  limited = omega arith;
}

free_restores_example :
    Restored half_taken 4096 (get_alloc_order half_taken 4096) (free half_taken stat 4096).1
unfolding get_alloc_order
free_restores_example =
    free_restores half_taken stat 4096 0 (omega arith) (omega arith) half_taken-Sound
      half_taken-IsReleasable refl (omega arith) (omega arith)

whole_again : (free half_taken stat 4096).1.blk_free 0 ≡ true
unfolding free
whole_again = refl

-- A pool that ends with the last address is never given its first block.
abbrev at_end : Pool
at_end = (init pool stat (2 ^ 31) (2 ^ 31) 4096).1

nothing_given : (alloc at_end stat 4096).0 ≡ none
unfolding init free alloc ilog2 roundup_pow_of_two rounddown_pow_of_two
nothing_given = refl
