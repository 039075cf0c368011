-- ===== src/MemPool/Calls.antt =====
-- lib/mm.c: allocation and release, and the queries.
use flightos.Common.{
  ℕ, zero, suc, ◌+◌, ◌-◌, ◌*◌, ◌%◌, ◌^◌, Bool, true, false, not, ◌&&◌, Option, none, some, List, [],
  ◌∷◌, word, ltb, ◌==◌, if◌then◌else◌, is_empty,
}
use flightos.Log2.{ilog2, roundup_pow_of_two}
use flightos.MemPool.{
  Pool, Stat, set_at, blk_addr_valid, blk_idx, mark_alloc, is_blk_free, get_alloc_order,
  set_alloc_order, unlink, split_blk, upmerge_blks,
}

-- `none` is `-EINVAL`.
unfoldable pub fixup_validate : Option Pool → ℕ → ℕ → Option ℕ
fixup_validate none addr order = none
fixup_validate (some mp) addr order =
    if ltb mp.max_order order
    then none
    else if not (addr == 0) && ltb addr mp.base
    then none
    else if not (addr == 0) && ltb (2 ^ mp.max_order) (addr - mp.base)
    then none
    else if ltb order mp.min_order
    then some mp.min_order
    else some order

-- The loop of `mm_alloc` over the orders, with so many orders left: the first one with a free block.
unfoldable pub first_order : Pool → ℕ → ℕ → Option ℕ
first_order mp i zero = none
first_order mp i (suc n) =
    let next = first_order mp (suc i) n in if is_empty (mp.block_order i) then next else some i

-- `while (order < i--) mm_split_blk(mp, blk, i);`
unfoldable pub split_loop : Pool → ℕ → ℕ → ℕ → Pool
unfolding split_blk
split_loop mp blk order zero = mp
split_loop mp blk order (suc i) =
    let next = split_loop (split_blk mp blk i) blk order i in if ltb order (suc i) then next else mp

-- The end of `mm_alloc`, for a block of the order `i`.
abbrev pub hand_out : Pool → Stat → ℕ → ℕ → ℕ → Option ℕ × Pool × Stat
hand_out mp st blk order i =
    let mp1 = split_loop (set_alloc_order (mark_alloc mp blk) blk order) blk order i in
    let blocks = 2 ^ (order - mp.min_order) in
    (
      some blk,
      record mp1 { alloc_blks = (mp1.alloc_blks + blocks) % word },
      record st { used_blocks = (st.used_blocks + blocks) % word },
    )

-- `list_del` of the first block of a list
abbrev pub unlink_first : Pool → ℕ → ℕ → List ℕ → Pool
unlink_first mp i blk blks = record mp {
  block_order = set_at mp.block_order i blks;
  linked = set_at mp.linked blk false;
}

-- The first block of the list for the order `i`. The list is not empty.
abbrev pub from_list : Pool → Stat → ℕ → ℕ → List ℕ → Option ℕ × Pool × Stat
from_list mp st order i [] = (none, mp, record st { alloc_fail = 1 })
from_list mp st order i (blk ∷ blks) = hand_out (unlink_first mp i blk blks) st blk order i

abbrev pub from_order : Pool → Stat → ℕ → Option ℕ → Option ℕ × Pool × Stat
from_order mp st order none = (none, mp, record st { alloc_fail = 1 })
from_order mp st order (some i) = from_list mp st order i (mp.block_order i)

abbrev pub alloc_order_of : Pool → Stat → Option ℕ → Option ℕ × Pool × Stat
alloc_order_of mp st none = (none, mp, st)
alloc_order_of mp st (some order) =
    if mp.alloc_blks == 0
    then hand_out mp st mp.base order mp.max_order
    else from_order mp st order (first_order mp order (suc mp.max_order - order))

unfoldable pub alloc : Pool → Stat → ℕ → Option ℕ × Pool × Stat
unfolding fixup_validate first_order split_loop set_alloc_order mark_alloc unlink
alloc mp st size =
    if size == 0
    then (none, mp, st)
    else alloc_order_of mp st (fixup_validate (some mp) 0 (ilog2 (roundup_pow_of_two size)))

-- The end of `mm_free`; the first component says that the error is reported.
abbrev pub release : Pool → Stat → ℕ → Option ℕ → Bool × Pool × Stat
release mp st addr none = (true, mp, st)
release mp st addr (some order) =
    let mp1 = upmerge_blks mp addr in
    let blocks = 2 ^ (order - mp.min_order) in
    (
      false,
      record mp1 { alloc_blks = (mp1.alloc_blks + word - blocks % word) % word },
      record st { used_blocks = (st.used_blocks + word - blocks % word) % word },
    )

unfoldable pub free : Pool → Stat → ℕ → Bool × Pool × Stat
unfolding blk_addr_valid is_blk_free get_alloc_order fixup_validate upmerge_blks
free mp st addr =
    if addr == 0
    then (false, mp, st)
    else if not (blk_addr_valid mp addr)
    then (true, mp, st)
    else if is_blk_free mp addr
    then (true, mp, st)
    else if get_alloc_order mp addr == 0
    then (true, mp, st)
    else release mp st addr (fixup_validate (some mp) addr (get_alloc_order mp addr))

unfoldable pub addr_in_pool : Pool → ℕ → Bool
unfolding blk_idx blk_addr_valid get_alloc_order
addr_in_pool mp addr =
    not (ltb mp.n_blks (blk_idx mp addr))
    && blk_addr_valid mp addr
    && not (get_alloc_order mp addr == 0)

unfoldable pub block_size : Pool → ℕ → ℕ
unfolding addr_in_pool
block_size mp addr = if addr_in_pool mp addr then 2 ^ get_alloc_order mp addr else 0

unfoldable pub unallocated_blocks : Pool → ℕ
unallocated_blocks mp = (mp.n_blks + word - mp.alloc_blks) % word

unfoldable pub allocated_blocks : Pool → ℕ
allocated_blocks mp = mp.alloc_blks

unfoldable pub free_bytes : Stat → ℕ → ℕ
free_bytes st page_size = (st.total_blocks + word - st.used_blocks) % word * page_size % word
