-- ===== src/Chunk.antt =====
-- lib/chunk.c and include/chunk.h: memory in chunks. A chunk is the address of its header, and `chunks` is what
-- the headers hold; 0 is NULL. The first entry of a list is the next one of its head. What the
-- allocator behind the pool answers is an argument, and the chunks that it gets back are logged, last one first.
pub mod Align
pub mod Carved
pub mod Fresh
pub mod Cases
pub mod Youngest
pub mod Return
mod Tests
use flightos.Common.{
  ℕ, zero, suc, ◌+◌, ◌-◌, ◌%◌, Bool, not, Option, none, some, List, [], ◌∷◌, ◌++◌, word, ltb, leb,
  ◌==◌, if◌then◌else◌,
}
use Prim.Native.Nat.{bit_and}
use flightos.MemPool.{set_at, remove}

-- `struct chunk`, but for its list node
pub record Chunk : Type 0 where
  pub mem : ℕ
  pub size : ℕ
  pub free : ℕ
  pub refcnt : ℕ
  pub parent : ℕ
  pub child : ℕ
  pub sibling : ℕ

-- Seven words and a list node of two on a machine with 32 bits: `sizeof(struct chunk)`
abbrev pub header : ℕ
header = 36

-- `struct chunk_pool`; of the functions, only whether they are set
pub record Pool : Type 0 where
  pub full : List ℕ
  pub empty : List ℕ
  pub align : ℕ
  pub has_alloc : Bool
  pub has_real_alloc_size : Bool
  pub chunks : ℕ → Chunk
  pub returned : List ℕ

-- `ALIGN_PTR`, by its mask
unfoldable pub chunk_align : ℕ → ℕ → ℕ
chunk_align align p =
    let mask = (align + word - 1) % word in bit_and ((p + mask) % word) (word - 1 - mask)

abbrev pub put : Pool → ℕ → Chunk → Pool
put pool a c = record pool { chunks = set_at pool.chunks a c }

abbrev pub list_del : Pool → ℕ → Pool
list_del pool a = record pool { full = remove a pool.full; empty = remove a pool.empty }

abbrev pub add_full : Pool → ℕ → Pool
add_full pool a = record pool { full = pool.full ++ (a ∷ []) }

abbrev pub add_empty : Pool → ℕ → Pool
add_empty pool a = record pool { empty = pool.empty ++ (a ∷ []) }

unfoldable pub classify : Pool → ℕ → Pool
classify pool a =
    if leb (pool.chunks a).free ((header + pool.align) % word)
    then add_empty (list_del pool a) a
    else add_full (list_del pool a) a

-- The bytes from `from` to the end of a chunk.
abbrev pub rest_of : ℕ → Chunk → ℕ → ℕ
rest_of a c from = ((a + c.size) % word + word - from) % word

abbrev pub set_up : ℕ → ℕ → Chunk → Chunk
set_up align a c =
    let mem = chunk_align align ((a + header) % word) in
    record c { mem = mem; free = rest_of a c mem }

unfoldable pub setup : Pool → ℕ → Pool
unfolding chunk_align
setup pool a = put pool a (set_up pool.align a (pool.chunks a))

abbrev pub sized : Pool → ℕ → ℕ → Pool
sized pool a size = put pool a (record (pool.chunks a) { size = size })

-- The end of `chunk_grab_new`, where the size is known.
abbrev pub top_level : Pool → ℕ → Pool
top_level pool a =
    let alone =
      put pool a (record (pool.chunks a) { parent = 0; child = 0; sibling = 0; refcnt = 0 }) in
    add_full (setup alone a) a

-- The allocator answers `got`, and `real` is what `real_alloc_size` says of it.
unfoldable pub grab_new : Pool → ℕ → ℕ → ℕ → Option ℕ × Pool
unfolding setup
grab_new pool size got real =
    if got == 0
    then (none, pool)
    else if not pool.has_real_alloc_size
    then (some got, top_level (sized pool got size) got)
    else if ltb real size
    then (none, record (sized pool got real) { returned = got ∷ pool.returned })
    else (some got, top_level (sized pool got real) got)

-- The header of a new child of `a`, which `chunk_setup` completes.
abbrev pub new_child : Pool → ℕ → ℕ → Chunk
new_child pool a alloc_sz =
    let c = pool.chunks a in
    let begun = record (pool.chunks c.mem) {
      parent = a;
      child = 0;
      sibling = c.child;
      refcnt = 1;
      size = alloc_sz;
    } in
    record (set_up pool.align c.mem begun) { free = 0 }

abbrev pub with_child : ℕ → ℕ → ℕ → ℕ → Chunk → Chunk
with_child align a new alloc_sz c =
    let mem = chunk_align align ((c.mem + alloc_sz) % word) in
    record c { child = new; refcnt = (c.refcnt + 1) % word; mem = mem; free = rest_of a c mem }

unfoldable pub split : Pool → ℕ → ℕ → Option ℕ × Pool
unfolding chunk_align classify
split pool a alloc_sz =
    let new = (pool.chunks a).mem in
    let pool1 = add_empty (put pool new (new_child pool a alloc_sz)) new in
    if ltb (pool.chunks a).free alloc_sz then (none, pool) else (
      some new,
      classify (put pool1 a (with_child pool1.align a new alloc_sz (pool1.chunks a))) a,
    )

-- What `chunk_alloc` does: return NULL, return an address, or read through a NULL pointer.
pub data Alloc : Type 0 where
  null : Alloc
  block : ℕ → Alloc
  null_read : Alloc

unfoldable pub first_fit : Pool → ℕ → List ℕ → Option ℕ
first_fit pool alloc_sz [] = none
first_fit pool alloc_sz (a ∷ rest) =
    if leb alloc_sz (pool.chunks a).free then some a else first_fit pool alloc_sz rest

-- `return c->mem`
abbrev pub mem_of : Option ℕ × Pool → Alloc × Pool
mem_of (none, pool) = (null_read, pool)
mem_of (some a, pool) = (block (pool.chunks a).mem, pool)

abbrev pub split_from : ℕ → Option ℕ × Pool → Alloc × Pool
split_from alloc_sz (none, pool) = (null, pool)
split_from alloc_sz (some a, pool) = mem_of (split pool a alloc_sz)

-- The chunk that is split: one of the list, or a new one.
abbrev pub found_or_new : Pool → ℕ → ℕ → ℕ → Option ℕ → Option ℕ × Pool
found_or_new pool alloc_sz got real none = grab_new pool alloc_sz got real
found_or_new pool alloc_sz got real (some a) = (some a, pool)

abbrev pub alloc_size : ℕ → ℕ → ℕ
alloc_size align size = chunk_align align ((size + align + header) % word)

unfoldable pub alloc : Pool → ℕ → ℕ → ℕ → Alloc × Pool
unfolding split grab_new first_fit chunk_align
alloc pool size got real =
    let alloc_sz = alloc_size pool.align size in
    if not pool.has_alloc
    then (null, pool)
    else if size == 0
    then (null, pool)
    else split_from alloc_sz
        (found_or_new pool alloc_sz got real (first_fit pool alloc_sz pool.full))

-- What `chunk_free` does: return, or stop at a `BUG_ON`.
pub data Freed : Type 0 where
  done : Pool → Freed
  bug : Freed

-- A chunk of the highest level goes back to its allocator.
abbrev pub give_back : Pool → ℕ → Option Freed
give_back pool a =
    if not ((pool.chunks a).refcnt == 0)
    then some bug
    else some (done (list_del (record pool { returned = a ∷ pool.returned }) a))

-- The parent `p` of its youngest child `a`, without it.
abbrev pub without_child : Pool → ℕ → ℕ → Pool
without_child pool a p =
    let c = pool.chunks a in
    let h = pool.chunks p in
    let pool1 = put pool p (record h {
      child = c.sibling;
      refcnt = (h.refcnt + word - 1) % word;
      mem = chunk_align pool.align a;
      free = rest_of p h a;
    }) in
    let c1 = pool1.chunks a in
    let size = ((pool1.chunks p).size + word - c1.size + 1) % word in
    list_del (put pool1 a (record c1 { size = size })) a

-- `again` is the call of `chunk_free` in it.
abbrev pub merge_back : (Pool → ℕ → Option Freed) → Pool → ℕ → Option Freed
merge_back again pool p =
    if (pool.chunks p).refcnt == 0 then again pool (pool.chunks p).mem else some (done pool)

abbrev pub free_child : (Pool → ℕ → Option Freed) → Pool → ℕ → ℕ → ℕ → Option Freed
free_child again pool addr a p =
    if ltb addr p
    then some (done pool)
    else if (pool.chunks p).child == a
    then merge_back again (without_child pool a p) p
    else some (done (add_full (list_del (setup pool a) a) a))

abbrev pub free_at : (Pool → ℕ → Option Freed) → Pool → ℕ → ℕ → Option Freed
free_at again pool addr a =
    if not (addr == chunk_align pool.align ((a + header) % word))
    then some bug
    else if (pool.chunks a).parent == 0
    then give_back pool a
    else free_child again pool addr a (pool.chunks a).parent

-- The header that belongs to an address of memory.
abbrev pub chunk_of : ℕ → ℕ → ℕ
chunk_of align addr = chunk_align align ((addr + word + word - header - align) % word)

-- `chunk_free`, with so many calls of it in a row.
unfoldable pub free : ℕ → Pool → ℕ → Option Freed
unfolding chunk_align setup
free zero pool addr = none
free (suc fuel) pool addr =
    if addr == 0
    then some (done pool)
    else if not pool.has_alloc
    then some (done pool)
    else free_at (free fuel) pool addr (chunk_of pool.align addr)

unfoldable pub pool_init : ℕ → Bool → Bool → (ℕ → Chunk) → Pool
pool_init align has_alloc has_real_alloc_size memory = record {
  full = [];
  empty = [];
  align = align;
  has_alloc = has_alloc;
  has_real_alloc_size = has_real_alloc_size;
  chunks = memory;
  returned = [];
}
