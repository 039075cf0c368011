-- ===== src/Chunk/Carved.antt =====
-- What `chunk_alloc` hands out.
use flightos.Common.{
  ℕ, ◌+◌, ◌%◌, ◌^◌, ◌≤◌, ◌<◌, ◌≡◌, refl, sym, ap, ap₂, subst, ◌∙◌, inl, inr, false, some, arith,
  word, ltb, leb, ◌==◌, if◌then◌else◌, ==_refl, Bool-cases,
}
use native.Mathlib.Nat.{add-mul}
use flightos.Log2.Bounds.{pow_positive}
use flightos.MemPool.{set_at}
use flightos.Chunk.{
  Chunk, Pool, header, chunk_align, put, classify, rest_of, new_child, with_child, split, add_empty,
}
use flightos.Chunk.Align.{IsMultiple, chunk_align_lem, chunk_align-IsMultiple}

-- A chunk of a pool with the alignment `2 ^ k`: its memory is aligned and behind its header, and `free` says how many bytes are left to
-- its end, which is below the last address.
abbrev pub IsSane : ℕ → ℕ → Chunk → Type 0
IsSane k a c =
    IsMultiple k c.mem
    × (a + header ≤ c.mem)
    × (c.mem + c.free ≡ a + c.size)
    × (a + c.size + 2 ^ k ≤ word)

-- A new block of the parent `a`, whose state was `c`, and is `c'` now: the block `x` is aligned, has room for the
-- bytes that were asked for, is within the free part of the parent, and what is free then is behind it.
abbrev pub IsCarved : ℕ → ℕ → ℕ → Chunk → Chunk → ℕ → Type 0
IsCarved k size a c c' x =
    IsMultiple k x
    × (c.mem + header ≤ x)
    × (x + size ≤ c'.mem)
    × (c'.mem + c'.free ≡ c.mem + c.free)
    × IsSane k a c'

pub rest_of_lem :
    (a m : ℕ) (c : Chunk) → m ≤ a + c.size → a + c.size < word → rest_of a c m + m ≡ a + c.size
rest_of_lem a m c l h = omega (arith, l, h)

add-IsMultiple : (k a b : ℕ) → IsMultiple k a → IsMultiple k b → IsMultiple k (a + b)
add-IsMultiple k a b (q, e) (r, f) = (q + r, ap₂ (λ x y. x + y) e f ∙ sym (add-mul q r (2 ^ k)))

classify-chunks : (pool : Pool) (a b : ℕ) → (classify pool a).chunks b ≡ pool.chunks b
unfolding classify
classify-chunks pool a b =
    elim (Bool-cases (leb (pool.chunks a).free ((header + pool.align) % word))) [
      | inl e ↦ rw e refl
      | inr e ↦ rw e refl
    ]

-- The arithmetic of a split.
carved :
    (k a size alloc_sz : ℕ) (c : Chunk)
    → k < 32
    → IsSane k a c
    → IsMultiple k alloc_sz
    → size + header + 2 ^ k ≤ alloc_sz
    → alloc_sz ≤ c.free
    → IsCarved k size a c
        (with_child (2 ^ k) a c.mem alloc_sz c)
        (chunk_align (2 ^ k) ((c.mem + header) % word))
carved k a size alloc_sz c l (m, h, f, b) n s fits =
    let at_new : (c.mem + header) % word ≡ c.mem + header =
      omega (arith, f, b, s, fits, pow_positive k) in
    let new = chunk_align_lem k (c.mem + header) l (omega (arith, f, b, s, fits)) in
    let next : chunk_align (2 ^ k) ((c.mem + alloc_sz) % word) ≡ c.mem + alloc_sz =
      ap (chunk_align (2 ^ k)) (omega (arith, f, b, fits, pow_positive k))
      ∙ chunk_align-IsMultiple k (c.mem + alloc_sz) l (omega (arith, f, b, fits))
          (add-IsMultiple k c.mem alloc_sz m n) in
    let left : rest_of a c (c.mem + alloc_sz) + (c.mem + alloc_sz) ≡ a + c.size =
      rest_of_lem a (c.mem + alloc_sz) c (omega (arith, f, fits))
        (omega (arith, b, pow_positive k)) in
    let rest : rest_of a c (chunk_align (2 ^ k) ((c.mem + alloc_sz) % word))
        ≡ rest_of a c (c.mem + alloc_sz) =
      ap (rest_of a c) next in
    (
      subst (λ y. IsMultiple k (chunk_align (2 ^ k) y)) (sym at_new) new.0,
      omega (arith, new.1, ap (chunk_align (2 ^ k)) at_new),
      omega (arith, new.2, ap (chunk_align (2 ^ k)) at_new, next, s),
      omega (arith, next, left, rest, f),
      (
        subst (IsMultiple k) (sym next) (add-IsMultiple k c.mem alloc_sz m n),
        omega (arith, next, h),
        omega (arith, next, left, rest),
        b,
      ),
    )

pub set_at-ne : (g : ℕ → Chunk) (i j : ℕ) (v : Chunk) → (j == i) ≡ false → set_at g i v j ≡ g j
set_at-ne g i j v e = ap (λ b. if b then v else g j) e

pub set_at_self : (g : ℕ → Chunk) (i : ℕ) (v : Chunk) → set_at g i v i ≡ v
set_at_self g i v = ap (λ b. if b then v else g i) (==_refl i)

-- What a split does to the headers, if it has the room.
pub split-chunks :
    (pool : Pool) (a alloc_sz : ℕ)
    → let c = pool.chunks a in
      let (r, pool') = split pool a alloc_sz in
      alloc_sz ≤ c.free
      → a < c.mem
      → (r ≡ some c.mem)
        × (pool'.chunks a ≡ with_child pool.align a c.mem alloc_sz c)
        × (pool'.chunks c.mem ≡ new_child pool a alloc_sz)
unfolding split
split-chunks pool a alloc_sz fits h =
    let c = pool.chunks a in
    let new = new_child pool a alloc_sz in
    let pool1 = add_empty (put pool c.mem new) c.mem in
    let same : pool1.chunks a ≡ c = set_at-ne pool.chunks c.mem a new (ground (arith, h)) in
    let parent = with_child pool.align a c.mem alloc_sz (pool1.chunks a) in
    let room : ltb c.free alloc_sz ≡ false = ground (arith, fits) in
    rw room (
      refl,
      classify-chunks (put pool1 a parent) a a
          ∙ set_at_self pool1.chunks a parent
          ∙ ap (with_child pool.align a c.mem alloc_sz) same,
      classify-chunks (put pool1 a parent) a c.mem
          ∙ set_at-ne pool1.chunks a c.mem parent (ground (arith, h))
          ∙ set_at_self pool.chunks c.mem new,
    )

-- The parent behind a split, and the new child.
pub split_lem :
    (k : ℕ) (pool : Pool) (a size alloc_sz : ℕ)
    → k < 32
    → pool.align ≡ 2 ^ k
    → IsSane k a (pool.chunks a)
    → IsMultiple k alloc_sz
    → size + header + 2 ^ k ≤ alloc_sz
    → alloc_sz ≤ (pool.chunks a).free
    → let (r, pool') = split pool a alloc_sz in
      (r ≡ some (pool.chunks a).mem)
      × IsCarved k size a (pool.chunks a) (pool'.chunks a) (pool'.chunks (pool.chunks a).mem).mem
unfolding split
split_lem k pool a size alloc_sz l e (m, h, f, b) n s fits =
    let c = pool.chunks a in
    let (r, p, q) = split-chunks pool a alloc_sz fits (omega (arith, h)) in
    let goal : IsCarved k size a c (with_child pool.align a c.mem alloc_sz c)
        (new_child pool a alloc_sz).mem =
      subst
        (λ al.
          IsCarved k size a c (with_child al a c.mem alloc_sz c)
            (chunk_align al ((c.mem + header) % word)))
        (sym e) (carved k a size alloc_sz c l (m, h, f, b) n s fits) in
    (
      r,
      subst (λ d. IsCarved k size a c d ((split pool a alloc_sz).1.chunks c.mem).mem) (sym p)
          (subst (λ d. IsCarved k size a c (with_child pool.align a c.mem alloc_sz c) d.mem) (sym q)
            goal),
    )
