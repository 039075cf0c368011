-- ===== src/Chunk/Fresh.antt =====
-- What a split of a chunk serves, and of a new one.
use flightos.Common.{
  ℕ, ◌+◌, ◌%◌, ◌^◌, ◌≤◌, ◌<◌, ◌≡◌, refl, sym, ap, subst, ◌∙◌, inl, inr, true, some, List, [], ◌∷◌,
  arith, word, ltb, leb, if◌then◌else◌, lt→ltb, leb→le, ==_refl, Bool-cases, of_some, All,
}
use flightos.Log2.Bounds.{pow_positive}
use flightos.Chunk.{
  Chunk, Pool, header, chunk_align, set_up, setup, split, Alloc, block, null_read, alloc_size,
  first_fit, mem_of, top_level, sized,
}
use flightos.Chunk.Align.{IsMultiple, chunk_align_lem}
use flightos.Chunk.Carved.{IsSane, IsCarved, split_lem, rest_of_lem}

-- A block that has been handed out, from the parent `a` in the state `c`
abbrev pub Handed : ℕ → ℕ → ℕ → Chunk → Alloc × Pool → Type 0
Handed k size a c (r, pool') = (x : ℕ) × (r ≡ block x) × IsCarved k size a c (pool'.chunks a) x

-- A chunk that comes from the allocator, before it is split
abbrev pub fresh : ℕ → ℕ → ℕ → Chunk
fresh align a n =
    set_up align a
      (record { mem = 0; size = n; free = 0; refcnt = 0; parent = 0; child = 0; sibling = 0 })

pub served :
    (k : ℕ) (pool : Pool) (a size sz : ℕ)
    → k < 32
    → pool.align ≡ 2 ^ k
    → IsSane k a (pool.chunks a)
    → IsMultiple k sz
    → size + header + 2 ^ k ≤ sz
    → sz ≤ (pool.chunks a).free
    → Handed k size a (pool.chunks a) (mem_of (split pool a sz))
served k pool a size sz l e sane m s fits =
    let (r, c) = split_lem k pool a size sz l e sane m s fits in
    let new = (pool.chunks a).mem in
    let p = (split pool a sz).1 in
    subst (λ q. Handed k size a (pool.chunks a) (mem_of (q, p))) (sym r)
      ((p.chunks new).mem, refl, c)

pub unserved :
    (pool : Pool) (a sz : ℕ) → (pool.chunks a).free < sz → (mem_of (split pool a sz)).0 ≡ null_read
unfolding split
unserved pool a sz l =
    let e : ltb (pool.chunks a).free sz ≡ true = lt→ltb (pool.chunks a).free sz l in rw e refl

fresh_chunk :
    (pool : Pool) (a n : ℕ) → (top_level (sized pool a n) a).chunks a ≡ fresh pool.align a n
unfolding setup
fresh_chunk pool a n = rw (==_refl a) refl

fresh-IsSane :
    (k a n : ℕ)
    → k < 32
    → header + 2 ^ k ≤ n
    → a + n + 2 ^ k ≤ word
    → IsSane k a (fresh (2 ^ k) a n)
fresh-IsSane k a n l h b =
    let e : (a + header) % word ≡ a + header = omega (arith, h, b, pow_positive k) in
    let (m, lo, hi) = chunk_align_lem k (a + header) l (omega (arith, h, b)) in
    let q = ap (chunk_align (2 ^ k)) e in
    let left : (fresh (2 ^ k) a n).free + (fresh (2 ^ k) a n).mem ≡ a + n =
      rest_of_lem a (fresh (2 ^ k) a n).mem (fresh (2 ^ k) a n) (omega (arith, q, hi, h))
        (omega (arith, b, pow_positive k)) in
    (subst (IsMultiple k) (sym q) m, omega (arith, q, lo), omega (arith, left), b)

-- Without `real_alloc_size` a new chunk has no room for its header.
pub fresh-small :
    (k a n : ℕ) → k < 32 → header + 2 ^ k ≤ n → a + n + 2 ^ k ≤ word → (fresh (2 ^ k) a n).free < n
fresh-small k a n l h b = let (m, lo, e, c) = fresh-IsSane k a n l h b in omega (arith, lo, e)

pub alloc_size_lem :
    (k size : ℕ)
    → k < 32
    → size + 2 ^ k + header + 2 ^ k ≤ word
    → IsMultiple k (alloc_size (2 ^ k) size) × (size + header + 2 ^ k ≤ alloc_size (2 ^ k) size)
alloc_size_lem k size l h =
    let e : (size + 2 ^ k + header) % word ≡ size + 2 ^ k + header =
      omega (arith, h, pow_positive k) in
    let (m, lo, hi) = chunk_align_lem k (size + 2 ^ k + header) l h in
    let q = ap (chunk_align (2 ^ k)) e in (subst (IsMultiple k) (sym q) m, omega (arith, q, lo))

-- A chunk that fits first is in the list, and has the room.
pub first_fit_lem :
    (k : ℕ) (pool : Pool) (sz a : ℕ) (l : List ℕ)
    → All (λ b. IsSane k b (pool.chunks b)) l
    → first_fit pool sz l ≡ some a
    → IsSane k a (pool.chunks a) × (sz ≤ (pool.chunks a).free)
unfolding first_fit
first_fit_lem k pool sz a [] h e = absurd (cc e)
first_fit_lem k pool sz a (b ∷ l) h e = elim (Bool-cases (leb sz (pool.chunks b).free)) [
  | inl f ↦
      let same : b ≡ a =
        of_some (sym (ap (λ c. if c then some b else first_fit pool sz l) f) ∙ e) in
      subst (λ c. IsSane k c (pool.chunks c) × (sz ≤ (pool.chunks c).free)) same
        (h.0, leb→le sz (pool.chunks b).free f)
  | inr f ↦
      first_fit_lem k pool sz a l h.1
        (sym (ap (λ c. if c then some b else first_fit pool sz l) f) ∙ e)
]

-- What a new chunk serves.
pub fresh-Handed :
    (k : ℕ) (pool : Pool) (size sz got n : ℕ)
    → k < 32
    → pool.align ≡ 2 ^ k
    → IsMultiple k sz
    → size + header + 2 ^ k ≤ sz
    → sz ≤ n
    → got + n + 2 ^ k ≤ word
    → sz ≤ (fresh pool.align got n).free
    → Handed k size got
        (fresh pool.align got n)
        (mem_of (split (top_level (sized pool got n) got) got sz))
unfolding setup
fresh-Handed k pool size sz got n l e m s u b fits =
    let top = top_level (sized pool got n) got in
    let f = fresh_chunk pool got n in
    let sane : IsSane k got (fresh pool.align got n) =
      subst (λ al. IsSane k got (fresh al got n)) (sym e)
        (fresh-IsSane k got n l (omega (arith, s, u)) b) in
    subst (λ c. Handed k size got c (mem_of (split top got sz))) f
      (served k top got size sz l e (subst (IsSane k got) (sym f) sane) m s
        (subst (λ c. sz ≤ c.free) (sym f) fits))

pub fresh-unserved :
    (pool : Pool) (sz got n : ℕ)
    → (fresh pool.align got n).free < sz
    → (mem_of (split (top_level (sized pool got n) got) got sz)).0 ≡ null_read
unfolding setup
fresh-unserved pool sz got n l =
    unserved (top_level (sized pool got n) got) got sz
      (subst (λ c. c.free < sz) (sym (fresh_chunk pool got n)) l)
