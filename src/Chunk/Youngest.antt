-- ===== src/Chunk/Youngest.antt =====
-- The youngest child of a chunk, and what its return leaves.
use flightos.Common.{
  ℕ, zero, suc, ◌+◌, ◌-◌, ◌*◌, ◌%◌, ◌^◌, ◌≤◌, ◌<◌, ◌≡◌, refl, ap, ap₂, ◌∙◌, ◌≢◌, inl, inr, true,
  false, not, some, arith, word, ltb, leb, ◌==◌, if◌then◌else◌, ==_iff, Bool-cases,
}
use native.Mathlib.Nat.{suc-mul, zero-mul, mul-add}
use flightos.Log2.Bounds.{pow_positive, pow_suc}
use flightos.MemPool.{set_at}
use flightos.Chunk.{
  Chunk, Pool, header, chunk_align, setup, classify, rest_of, new_child, with_child, list_del,
  add_full,
}
use flightos.Chunk.Align.{IsMultiple, chunk_align_lem, chunk_align-IsMultiple, close-same}
use flightos.Chunk.Carved.{IsSane, rest_of_lem, set_at_self, set_at-ne}
use flightos.Chunk.{
  free, done, bug, give_back, without_child, merge_back, free_child, free_at, chunk_of,
}

eights : (k r : ℕ) → 3 ≤ k → IsMultiple k r → r % 8 ≡ 0
eights zero r l m = absurd (omega arith)
eights (suc zero) r l m = absurd (omega arith)
eights (suc (suc zero)) r l m = absurd (omega arith)
eights (suc (suc (suc j))) r l (q, e) =
    omega (arith, e, twice q j, twice q (suc j), twice q (suc (suc j)))
  where
    twice : (q o : ℕ) → q * 2 ^ suc o ≡ q * 2 ^ o + q * 2 ^ o
    twice q o = ap (λ x. q * x) (pow_suc o) ∙ mul-add q (2 ^ o) (2 ^ o)

one_step : (k r : ℕ) → IsMultiple k r → 0 < r → 2 ^ k ≤ r
one_step k r (zero, e) z = absurd (omega (arith, e, z, zero-mul (2 ^ k)))
one_step k r (suc q, e) z = omega (arith, e, suc-mul q (2 ^ k))

-- The header of a block is found again from the block, with an alignment of at least 8.
pub chunk_of_lem :
    (k new : ℕ)
    → 3 ≤ k
    → k < 32
    → IsMultiple k new
    → 0 < new
    → new + header + 2 ^ k ≤ word
    → chunk_of (2 ^ k) (chunk_align (2 ^ k) ((new + header) % word)) ≡ new
chunk_of_lem k new u l m z b =
    let e : (new + header) % word ≡ new + header = omega (arith, b, pow_positive k) in
    let (n, lo, hi) = chunk_align_lem k (new + header) l b in
    let x = chunk_align (2 ^ k) (new + header) in
    let behind : new + header < x = omega (arith, lo, eights k new u m, eights k x u n) in
    let first : 2 ^ k ≤ new = one_step k new m z in
    let q : (chunk_align (2 ^ k) ((new + header) % word) + word + word - header - 2 ^ k) % word
        ≡ x - header - 2 ^ k =
      omega (arith, ap (chunk_align (2 ^ k)) e, behind, first, hi, b) in
    let (n2, lo2, hi2) =
      chunk_align_lem k (x - header - 2 ^ k) l (omega (arith, behind, first, hi, b)) in
    ap (chunk_align (2 ^ k)) q
    ∙ close-same k (chunk_align (2 ^ k) (x - header - 2 ^ k)) new n2 m
        (omega (arith, hi2, hi, behind, first)) (omega (arith, lo2, behind, first))

-- What is left of a parent of which a child has been split off and given back.
abbrev pub parent_after : ℕ → ℕ → ℕ → Chunk → Chunk → Chunk
parent_after align a new h n = record h {
  child = n.sibling;
  refcnt = (h.refcnt + word - 1) % word;
  mem = chunk_align align new;
  free = rest_of a h new;
}

pub parent_after_lem :
    (k : ℕ) (pool : Pool) (a sz : ℕ)
    → let c = pool.chunks a in
      k < 32
      → pool.align ≡ 2 ^ k
      → IsSane k a c
      → c.refcnt < word
      → parent_after (2 ^ k) a c.mem (with_child pool.align a c.mem sz c) (new_child pool a sz) ≡ c
parent_after_lem k pool a sz l e (m, h, f, b) r =
    let c = pool.chunks a in
    let m' : chunk_align (2 ^ k) c.mem ≡ c.mem =
      chunk_align-IsMultiple k c.mem l (omega (arith, f, b)) m in
    let f' : rest_of a c c.mem ≡ c.free =
      omega
        (arith, f, rest_of_lem a c.mem c (omega (arith, f)) (omega (arith, b, pow_positive k))) in
    let r' : ((c.refcnt + 1) % word + word - 1) % word ≡ c.refcnt = ground (arith, r) in
    ap₂ (λ x y. record c { mem = x; free = y; refcnt = ((c.refcnt + 1) % word + word - 1) % word })
      m' f'
    ∙ ap (λ x. record c { refcnt = x }) r'

pub without_child-chunks :
    (p : Pool) (new a : ℕ)
    → a < new
    → (without_child p new a).chunks a ≡ parent_after p.align a new (p.chunks a) (p.chunks new)
without_child-chunks p new a l =
    let v = parent_after p.align a new (p.chunks a) (p.chunks new) in
    let g = set_at p.chunks a v in
    let size = ((g a).size + word - (g new).size + 1) % word in
    set_at-ne g new a (record (g new) { size = size }) (ground (arith, l))
    ∙ set_at_self p.chunks a v

pub classify-same :
    (pool : Pool) (a : ℕ)
    → ((classify pool a).align ≡ pool.align)
      × ((classify pool a).has_alloc ≡ pool.has_alloc)
      × ((classify pool a).returned ≡ pool.returned)
unfolding classify
classify-same pool a = elim (Bool-cases (leb (pool.chunks a).free ((header + pool.align) % word))) [
  | inl e ↦ rw e (refl, refl, refl)
  | inr e ↦ rw e (refl, refl, refl)
]

-- The tests of `chunk_free` for the youngest child of a parent with further references.
pub free_youngest :
    (p : Pool) (x new a : ℕ)
    → x ≢ 0
    → p.has_alloc ≡ true
    → chunk_of p.align x ≡ new
    → x ≡ chunk_align p.align ((new + header) % word)
    → (p.chunks new).parent ≡ a
    → a ≢ 0
    → a ≤ x
    → (p.chunks a).child ≡ new
    → ((without_child p new a).chunks a).refcnt ≢ 0
    → free 1 p x ≡ some (done (without_child p new a))
unfolding free
free_youngest p x new a h1 h2 h3 h4 h5 h6 h7 h8 h9 =
    let z : x == 0 ≡ false = ground (arith, h1) in
    let w : a == 0 ≡ false = ground (arith, h6) in
    let in_parent : ltb x a ≡ false = ground (arith, h7) in
    let left = without_child p new a in
    let held : (left.chunks a).refcnt == 0 ≡ false = ground (arith, h9) in
    let again = free 0 in
    let kept = some (done (add_full (list_del (setup p new) new) new)) in
    let top = give_back p new in
    ap
      (λ b.
        if b
        then some (done p)
        else if not p.has_alloc
        then some (done p)
        else free_at again p x (chunk_of p.align x))
      z
    ∙ ap (λ b. if not b then some (done p) else free_at again p x (chunk_of p.align x)) h2
    ∙ ap (free_at again p x) h3
    ∙ ap
        (λ b.
          if not b
          then some bug
          else if (p.chunks new).parent == 0
          then top
          else free_child again p x new (p.chunks new).parent)
        ((==_iff x (chunk_align p.align ((new + header) % word))).1 h4)
    ∙ ap (λ q. if q == 0 then top else free_child again p x new q) h5
    ∙ ap (λ b. if b then top else free_child again p x new a) w
    ∙ ap
        (λ b.
          if b
          then some (done p)
          else if (p.chunks a).child == new
          then merge_back again left a
          else kept)
        in_parent
    ∙ ap (λ b. if b then merge_back again left a else kept) ((==_iff (p.chunks a).child new).1 h8)
    ∙ ap (λ b. if b then again left (left.chunks a).mem else some (done left)) held
