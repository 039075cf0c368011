-- ===== src/MemPool/Init.antt =====
-- lib/mm.c: a pool is initialised by the release of a block that is all of it.
pub mod Ready
pub mod Start
use flightos.Common.{
  ℕ, ◌+◌, ◌-◌, ◌/◌, ◌%◌, ◌^◌, false, [], word, ltb, leb, if◌then◌else◌, Status, success, enomem,
}
use flightos.Log2.{ilog2, roundup_pow_of_two, rounddown_pow_of_two}
use flightos.MemPool.{Pool, Stat, set_at}
use flightos.MemPool.Calls.{free}

-- `sizeof(struct mm_blk_lnk)`: two pointers
abbrev pub size_of_link : ℕ
size_of_link = 8

-- The smallest order for a granularity: a block has room for its links.
unfoldable pub min_order_for : ℕ → ℕ
min_order_for granularity =
    let order = ilog2 (roundup_pow_of_two granularity) in
    if ltb (2 ^ order) size_of_link then ilog2 (roundup_pow_of_two size_of_link) else order

-- The fields that `mm_init` sets in its pool, before the bitmap and the orders of the blocks.
unfoldable pub init_orders : Pool → ℕ → ℕ → ℕ → Pool
init_orders mp base max_order min_order = record mp {
  base = base;
  max_order = max_order;
  min_order = min_order;
}

-- All blocks are taken, by one block of the largest order.
unfoldable pub init_blocks : Pool → Pool
init_blocks mp =
    let n = 2 ^ mp.max_order / 2 ^ mp.min_order in
    record mp {
      n_blks = n;
      alloc_blks = n;
      block_order = λ o. if leb o mp.max_order then [] else mp.block_order o;
      blk_free = λ i. if ltb i n then false else mp.blk_free i;
      alloc_order = set_at (λ i. if ltb i n then 0 else mp.alloc_order i) 0 (mp.max_order % 256);
    }

abbrev pub start : Pool → Stat → Status × Pool × Stat
start mp st =
    let mp1 = init_blocks mp in
    let n = mp1.n_blks in
    let (reported, mp2, st2) =
      free mp1
        (record st {
          total_blocks = (st.total_blocks + n) % word;
          used_blocks = (st.used_blocks + n) % word;
        })
        mp.base in
    (success, mp2, st2)

-- `mm_init`. For the largest order 0, the source's `max_order - 1` is no order; it is 0 here.
unfoldable pub init : Pool → Stat → ℕ → ℕ → ℕ → Status × Pool × Stat
unfolding min_order_for init_orders init_blocks
init mp st base pool_size granularity =
    let max = ilog2 (rounddown_pow_of_two pool_size) in
    let min = min_order_for granularity in
    if ltb max min
    then (if ltb (2 ^ (max - 1)) size_of_link
        then (enomem, init_orders mp base max (max - 1), st)
        else start (init_orders mp base max (max - 1)) st)
    else start (init_orders mp base max min) st
