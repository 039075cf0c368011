-- ===== src/MemPool.antt =====
-- lib/mm.c and include/kernel/mm.h: the binary buddy allocator. A block is its address, `block_order` gives
-- the free blocks of every order, and the arrays are functions of the block index. `linked` says of an
-- address that the list fields at it are not NULL.
pub mod Merge
pub mod Halves
pub mod Sound
pub mod Calls
pub mod Init
pub mod Alloc
pub mod Release
pub mod Covers
pub mod Freed
mod Tests
use flightos.Common.{
  ℕ, zero, suc, ◌+◌, ◌-◌, ◌*◌, ◌/◌, ◌%◌, ◌^◌, ◌≤◌, ◌<◌, ◌≡◌, refl, sym, ap, ap₂, subst, ◌∙◌, ◌≡⟨◌⟩◌,
  ◌∎, ◌≢◌, ◌↔◌, ◌⊎◌, inl, inr, Bool, true, false, not, ◌&&◌, ◌||◌, Option, none, some, List, [],
  ◌∷◌, ◌++◌, map, reverse, append-nil, append_assoc, arith, word, ltb, leb, ◌==◌, if◌then◌else◌,
  ltb→lt, lt→ltb, leb→le, le→leb, ==_iff, ==_refl, tests, Bool-cases, Option-cases, of_some, length,
  get_elem?, take, drop, set, All, filter, is_empty, length-append, length-set, get_elem?-set_self,
  get_elem?-set_ne, All-append, All-append_left, All-append_right, All-map, Status, success,
  failure, einval, enomem, enoexec, enodev, enosched, eperm,
}
use Prim.Native.Nat.{bit_xor}
use flightos.Log2.{ilog2, roundup_pow_of_two, rounddown_pow_of_two}

-- `struct mm_pool`
pub record Pool : Type 0 where
  pub base : ℕ
  pub max_order : ℕ
  pub min_order : ℕ
  pub n_blks : ℕ
  pub alloc_blks : ℕ
  pub alloc_order : ℕ → ℕ
  pub blk_free : ℕ → Bool
  pub block_order : ℕ → List ℕ
  pub linked : ℕ → Bool

-- `__mm_stat`, which all pools share
pub record Stat : Type 0 where
  pub total_blocks : ℕ
  pub used_blocks : ℕ
  pub alloc_fail : ℕ

abbrev pub set_at {ℓ} : {A : Type ℓ} → (ℕ → A) → ℕ → A → (ℕ → A)
set_at f i v = λ j. if j == i then v else f j

-- The end of a pool that ends with the last address wraps to 0.
unfoldable pub blk_addr_valid : Pool → ℕ → Bool
blk_addr_valid mp blk = leb mp.base blk && ltb blk ((mp.base + 2 ^ mp.max_order) % word)

-- The difference of the addresses wraps.
unfoldable pub blk_idx : Pool → ℕ → ℕ
blk_idx mp blk = (blk + word - mp.base) % word / 2 ^ mp.min_order

unfoldable pub mark_free : Pool → ℕ → Pool
unfolding blk_idx
mark_free mp blk = record mp { blk_free = set_at mp.blk_free (blk_idx mp blk) true }

unfoldable pub mark_alloc : Pool → ℕ → Pool
unfolding blk_idx
mark_alloc mp blk = record mp { blk_free = set_at mp.blk_free (blk_idx mp blk) false }

unfoldable pub is_blk_free : Pool → ℕ → Bool
unfolding blk_idx
is_blk_free mp blk = mp.blk_free (blk_idx mp blk)

unfoldable pub get_alloc_order : Pool → ℕ → ℕ
unfolding blk_idx
get_alloc_order mp blk = mp.alloc_order (blk_idx mp blk)

-- The array has elements of one byte.
unfoldable pub set_alloc_order : Pool → ℕ → ℕ → Pool
unfolding blk_idx
set_alloc_order mp blk order = record mp {
  alloc_order = set_at mp.alloc_order (blk_idx mp blk) (order % 256);
}

-- `list_add(&blk->link, &mp->block_order[order])`
unfoldable pub link : Pool → ℕ → ℕ → Pool
link mp order blk = record mp {
  block_order = set_at mp.block_order order (blk ∷ mp.block_order order);
  linked = set_at mp.linked blk true;
}

abbrev pub remove : ℕ → List ℕ → List ℕ
remove b [] = []
remove b (x ∷ xs) = if x == b then xs else x ∷ remove b xs

-- `list_del(&blk->link)`, from whatever list the block is in
unfoldable pub unlink : Pool → ℕ → Pool
unlink mp blk = record mp {
  block_order = λ o. remove blk (mp.block_order o);
  linked = set_at mp.linked blk false;
}

unfoldable pub split_blk : Pool → ℕ → ℕ → Pool
unfolding mark_free set_alloc_order link
split_blk mp blk order =
    let upper = blk + 2 ^ order in
    link (mark_free (set_alloc_order mp upper order) upper) order upper

unfoldable pub find_neighbour : Pool → ℕ → ℕ → ℕ
find_neighbour mp blk order = bit_xor (blk - mp.base) (2 ^ order) + mp.base

-- The pool and the block behind the tests of `mm_merge_blk`, for the neighbour `n`. Where `n` is the lower
-- block, the source sets `blk` to `n`, and `n` to the new `blk`.
abbrev pub join : Pool → ℕ → ℕ → ℕ → Option ℕ × Pool
join mp blk n order =
    let lower = if ltb n blk then n else blk in
    let n' = if ltb n blk then lower else n in
    let mp1 = set_alloc_order (set_alloc_order (unlink mp n) n' 0) lower (order + 1) in
    (some lower, mark_alloc (mark_alloc mp1 n') lower)

abbrev pub join_if_free : Pool → ℕ → ℕ → ℕ → Option ℕ × Pool
join_if_free mp blk n order =
    if not (is_blk_free mp n)
    then (none, mp)
    else if not (get_alloc_order mp n == order)
    then (none, mp)
    else if not (mp.linked n)
    then (none, mp)
    else join mp blk n order

unfoldable pub merge_blk : Pool → ℕ → ℕ → Option ℕ × Pool
unfolding find_neighbour is_blk_free get_alloc_order set_alloc_order unlink mark_alloc
merge_blk mp blk order =
    join_if_free (record mp { linked = set_at mp.linked blk true }) blk
      (find_neighbour mp blk order) order

-- The loop of `mm_upmerge_blks`, with `max_order - order` rounds left, and what it ends with.
abbrev pub next_merge : (Pool → ℕ → ℕ → ℕ × ℕ × Pool) → ℕ → ℕ → Option ℕ × Pool → ℕ × ℕ × Pool
next_merge again blk order (none, mp) = (blk, order, mp)
next_merge again blk order (some b, mp) = again mp b (order + 1)

unfoldable pub upmerge_loop : ℕ → Pool → ℕ → ℕ → ℕ × ℕ × Pool
unfolding merge_blk
upmerge_loop zero mp blk order = (blk, order, mp)
upmerge_loop (suc k) mp blk order = next_merge (upmerge_loop k) blk order (merge_blk mp blk order)

abbrev pub put_back : ℕ → ℕ × ℕ × Pool → Pool
put_back base (blk, order, mp) =
    let mp1 = set_alloc_order (mark_free mp blk) blk order in
    if blk == base then mp1 else link mp1 order blk

unfoldable pub upmerge_blks : Pool → ℕ → Pool
unfolding upmerge_loop get_alloc_order set_alloc_order mark_free link
upmerge_blks mp blk =
    let order = get_alloc_order mp blk in
    put_back mp.base (upmerge_loop (mp.max_order - order) mp blk order)
