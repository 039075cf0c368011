-- ===== src/Chunk/Return.antt =====
-- A block that is given back before any other leaves its parent as it was.
use flightos.Common.{
  ℕ, ◌+◌, ◌%◌, ◌^◌, ◌≤◌, ◌<◌, ◌≡◌, sym, ap, ap₂, subst, ◌∙◌, ◌≢◌, true, false, some, arith, word,
  ltb, All,
}
use flightos.Chunk.{
  Pool, header, chunk_align, put, new_child, with_child, split, add_empty, alloc, block, alloc_size,
  first_fit, found_or_new, split_from, mem_of,
}
use flightos.Chunk.Align.{IsMultiple}
use flightos.Chunk.Carved.{IsSane, split_lem, split-chunks}
use flightos.Chunk.{free, done, without_child, chunk_of}
use flightos.Chunk.Fresh.{alloc_size_lem, first_fit_lem}
use flightos.Chunk.Cases.{alloc-split_from}
use flightos.Chunk.Youngest.{
  chunk_of_lem, parent_after, parent_after_lem, without_child-chunks, classify-same, free_youngest,
}

split-same :
    (pool : Pool) (a sz : ℕ)
    → sz ≤ (pool.chunks a).free
    → let p1 = (split pool a sz).1 in
      (p1.align ≡ pool.align) × (p1.has_alloc ≡ pool.has_alloc) × (p1.returned ≡ pool.returned)
unfolding split
split-same pool a sz l =
    let room : ltb (pool.chunks a).free sz ≡ false = ground (arith, l) in
    let c = pool.chunks a in
    let p1 = add_empty (put pool c.mem (new_child pool a sz)) c.mem in
    rw room (classify-same (put p1 a (with_child p1.align a c.mem sz (p1.chunks a))) a)

-- The block of a child, given back to its parent.
split_free :
    (k : ℕ) (pool : Pool) (a size sz : ℕ)
    → 3 ≤ k
    → k < 32
    → pool.align ≡ 2 ^ k
    → pool.has_alloc ≡ true
    → IsSane k a (pool.chunks a)
    → IsMultiple k sz
    → size + header + 2 ^ k ≤ sz
    → sz ≤ (pool.chunks a).free
    → a ≢ 0
    → (pool.chunks a).refcnt ≢ 0
    → (pool.chunks a).refcnt < word
    → let p1 = (split pool a sz).1 in
      let new = (pool.chunks a).mem in
      let p2 = without_child p1 new a in
      (free 1 p1 (p1.chunks new).mem ≡ some (done p2))
      × (p2.chunks a ≡ pool.chunks a)
      × (p2.returned ≡ pool.returned)
split_free k pool a size sz u l e has (m, lo, f, b) ms s fits az rz rb =
    let c = pool.chunks a in
    let new = c.mem in
    let p1 = (split pool a sz).1 in
    let p2 = without_child p1 new a in
    let x = (p1.chunks new).mem in
    let lt : a < new = omega (arith, lo) in
    let (r, pe, ne) = split-chunks pool a sz fits lt in
    let (r2, carved) = split_lem k pool a size sz l e (m, lo, f, b) ms s fits in
    let (al, ha, re) = split-same pool a sz fits in
    let xe : x ≡ chunk_align pool.align ((new + header) % word) = ap (λ d. d.mem) ne in
    let same : p2.chunks a ≡ c =
      without_child-chunks p1 new a lt
      ∙ ap (λ q. parent_after q a new (p1.chunks a) (p1.chunks new)) (al ∙ e)
      ∙ ap₂ (parent_after (2 ^ k) a new) pe ne
      ∙ parent_after_lem k pool a sz l e (m, lo, f, b) rb in
    let found : chunk_of p1.align x ≡ new =
      ap (λ q. chunk_of q x) (al ∙ e)
      ∙ ap (chunk_of (2 ^ k)) (xe ∙ ap (λ q. chunk_align q ((new + header) % word)) e)
      ∙ chunk_of_lem k new u l m (omega (arith, lt)) (omega (arith, f, b, s, fits)) in
    (
      free_youngest p1 x new a (omega (arith, carved.1)) (ha ∙ has) found
          (xe ∙ ap (λ q. chunk_align q ((new + header) % word)) (sym al)) (ap (λ d. d.parent) ne) az
          (omega (arith, carved.1, lt)) (ap (λ d. d.child) pe)
          (λ z. rz (sym (ap (λ d. d.refcnt) same) ∙ z)),
      same,
      re,
    )

-- `chunk_free` undoes the last `chunk_alloc`: where the block came from a chunk of the list with other references, one
-- call answers, and the header of that chunk is as it was before the allocation. The alignment is
-- `2 ^ k`, from 8 on; nothing wraps.
pub alloc_free :
    (k : ℕ) (pool : Pool) (size got real a : ℕ)
    → 3 ≤ k
    → k < 32
    → pool.align ≡ 2 ^ k
    → pool.has_alloc ≡ true
    → size ≢ 0
    → size + 2 ^ k + header + 2 ^ k ≤ word
    → All (λ b. IsSane k b (pool.chunks b)) pool.full
    → first_fit pool (alloc_size pool.align size) pool.full ≡ some a
    → a ≢ 0
    → (pool.chunks a).refcnt ≢ 0
    → (pool.chunks a).refcnt < word
    → (x : ℕ) × (pool1 : Pool) × (pool2 : Pool) × (alloc pool size got real ≡ (block x, pool1))
      × (free 1 pool1 x ≡ some (done pool2))
      × (pool2.chunks a ≡ pool.chunks a)
      × (pool2.returned ≡ pool.returned)
alloc_free k pool size got real a u l e has nz h sane f az rz rb =
    let sz = alloc_size pool.align size in
    let (m, s) : IsMultiple k sz × (size + header + 2 ^ k ≤ sz) =
      subst (λ al. IsMultiple k (alloc_size al size) × (size + header + 2 ^ k ≤ alloc_size al size))
        (sym e) (alloc_size_lem k size l h) in
    let (ok, fits) = first_fit_lem k pool sz a pool.full sane f in
    let new = (pool.chunks a).mem in
    let p1 = (split pool a sz).1 in
    let (r, c) = split_lem k pool a size sz l e ok m s fits in
    let (q, same, re) = split_free k pool a size sz u l e has ok m s fits az rz rb in
    (
      (p1.chunks new).mem,
      p1,
      without_child p1 new a,
      alloc-split_from pool size got real has nz
          ∙ ap (λ o. split_from sz (found_or_new pool sz got real o)) f
          ∙ ap (λ o. mem_of (o, p1)) r,
      q,
      same,
      re,
    )
