-- ===== src/Chunk/Tests.antt =====
-- A pool with one chunk of 256 bytes, and the theorems at it.
use flightos.Common.{
  ℕ, ◌+◌, ◌^◌, ◌≤◌, ◌≡◌, refl, Bool, true, false, Option, some, List, [], ◌∷◌, arith, word, ◌==◌,
  if◌then◌else◌, All,
}
use flightos.Chunk.{Chunk, Pool, chunk_align, alloc, block, null_read, alloc_size, first_fit}
use flightos.Chunk.Carved.{IsSane}
use flightos.Chunk.{free, Freed, done, bug}
use flightos.Chunk.Cases.{Answers, alloc_cases}
use flightos.Chunk.Return.{alloc_free}

abbrev nothing : Chunk
nothing = record { mem = 0; size = 0; free = 0; refcnt = 0; parent = 0; child = 0; sibling = 0 }

abbrev parent : Chunk
parent = record {
  mem = 4136;
  size = 256;
  free = 216;
  refcnt = 1;
  parent = 0;
  child = 0;
  sibling = 0;
}

-- A pool with an alignment, and one chunk
abbrev pool_of : ℕ → Bool → List ℕ → Pool
pool_of align real full = record {
  full = full;
  empty = [];
  align = align;
  has_alloc = true;
  has_real_alloc_size = real;
  chunks = λ a. if a == 4096 then parent else nothing;
  returned = [];
}

abbrev pool : Pool
pool = pool_of 8 true (4096 ∷ [])

parent-IsSane : All (λ a. IsSane 3 a (pool.chunks a)) pool.full
parent-IsSane = (((517, refl), omega arith, refl, omega arith), tt)

size_fits : 8192 + alloc_size pool.align 16 + 2 ^ 3 ≤ word
unfolding chunk_align
size_fits = omega arith

alloc_cases_example :
    Answers 3 pool 16 8192 4096
      (first_fit pool (alloc_size pool.align 16) pool.full)
      (alloc pool 16 8192 4096)
alloc_cases_example =
    alloc_cases 3 pool 16 8192 4096 (omega arith) refl refl (omega arith) (omega arith) size_fits
      (omega arith) parent-IsSane

first_block : (alloc pool 16 8192 4096).0 ≡ block 4176
unfolding alloc
first_block = refl

fits_first : first_fit pool (alloc_size pool.align 16) pool.full ≡ some 4096
unfolding first_fit chunk_align
fits_first = refl

alloc_free_example :
    (x : ℕ) × (pool1 : Pool) × (pool2 : Pool) × (alloc pool 16 0 0 ≡ (block x, pool1))
    × (free 1 pool1 x ≡ some (done pool2))
    × (pool2.chunks 4096 ≡ parent)
    × (pool2.returned ≡ [])
alloc_free_example =
    alloc_free 3 pool 16 0 0 4096 (omega arith) (omega arith) refl refl (omega arith) (omega arith)
      parent-IsSane fits_first (omega arith) (omega arith) (omega arith)

-- A pool whose allocator gives just what is asked for.
exact : (alloc (pool_of 8 false []) 16 8192 0).0 ≡ null_read
unfolding alloc
exact = refl

-- With an alignment of 4, the header is looked for in the wrong place.
small_alignment : free 2 (alloc (pool_of 4 true (4096 ∷ [])) 16 0 0).1 4172 ≡ some bug
unfolding free alloc
small_alignment = refl

small_block : (alloc (pool_of 4 true (4096 ∷ [])) 16 0 0).0 ≡ block 4172
unfolding alloc
small_block = refl

abbrev full_after : Option Freed → List ℕ
full_after (some (done p)) = p.full
full_after o = 0 ∷ []

-- A parent that has been moved out of the list of full chunks stays there, though its child has come back.
stays_out : full_after (free 1 (alloc pool 128 0 0).1 4176) ≡ []
unfolding free alloc
stays_out = refl
