-- ===== src/Chunk/Cases.antt =====
-- What `chunk_alloc` answers, with a chunk of the list and with a new one.
use flightos.Common.{
  ℕ, ◌+◌, ◌^◌, ◌≤◌, ◌<◌, ◌≡◌, refl, sym, ap, subst, ◌∙◌, ◌≢◌, Bool, true, false, not, Option, none,
  some, ◌∷◌, arith, word, ltb, ◌==◌, if◌then◌else◌, lt→ltb, ==_iff, All,
}
use flightos.Chunk.{
  Pool, header, setup, alloc, Alloc, null, null_read, alloc_size, first_fit, grab_new, found_or_new,
  split_from, top_level, sized,
}
use flightos.Chunk.Align.{IsMultiple}
use flightos.Chunk.Carved.{IsSane}
use flightos.Chunk.Fresh.{
  Handed, fresh, served, fresh-small, fresh-Handed, fresh-unserved, alloc_size_lem, first_fit_lem,
}

-- The answer, by the chunk of the list that fits first.
abbrev pub Answers : ℕ → Pool → ℕ → ℕ → ℕ → Option ℕ → Alloc × Pool → Type 0
Answers k pool size got real (some a) r = Handed k size a (pool.chunks a) r
Answers k pool size got real none (r, pool') =
    let sz = alloc_size pool.align size in
    (got ≡ 0 → (r ≡ null) × (pool' ≡ pool))
    × (got ≢ 0 → pool.has_real_alloc_size ≡ false → r ≡ null_read)
    × (got ≢ 0
        → pool.has_real_alloc_size ≡ true
        → real < sz
        → (r ≡ null) × (pool'.returned ≡ got ∷ pool.returned))
    × (got ≢ 0
        → pool.has_real_alloc_size ≡ true
        → sz ≤ real
        → ((fresh pool.align got real).free < sz → r ≡ null_read)
          × (sz ≤ (fresh pool.align got real).free
              → Handed k size got (fresh pool.align got real) (r, pool')))

-- The answers of `chunk_grab_new`, by its three tests.
abbrev grab_if : Pool → ℕ → ℕ → ℕ → Bool → Bool → Bool → Option ℕ × Pool
grab_if pool size got real z h s =
    if z
    then (none, pool)
    else if not h
    then (some got, top_level (sized pool got size) got)
    else if s
    then (none, record (sized pool got real) { returned = got ∷ pool.returned })
    else (some got, top_level (sized pool got real) got)

grab_new-grab_if :
    (pool : Pool) (size got real : ℕ) (z h s : Bool)
    → (got == 0) ≡ z
    → pool.has_real_alloc_size ≡ h
    → ltb real size ≡ s
    → grab_new pool size got real ≡ grab_if pool size got real z h s
unfolding grab_new
grab_new-grab_if pool size got real z h s e f g =
    ap (λ b. grab_if pool size got real b pool.has_real_alloc_size (ltb real size)) e
    ∙ ap (λ b. grab_if pool size got real z b (ltb real size)) f
    ∙ ap (grab_if pool size got real z h) g

pub alloc-split_from :
    (pool : Pool) (size got real : ℕ)
    → pool.has_alloc ≡ true
    → size ≢ 0
    → let sz = alloc_size pool.align size in
      alloc pool size got real
      ≡ split_from sz (found_or_new pool sz got real (first_fit pool sz pool.full))
unfolding alloc
alloc-split_from pool size got real e n =
    let z : size == 0 ≡ false = ground (arith, n) in
    let sz = alloc_size pool.align size in
    let served_from = split_from sz (found_or_new pool sz got real (first_fit pool sz pool.full)) in
    ap (λ b. if not b then (null, pool) else if size == 0 then (null, pool) else served_from) e
    ∙ ap (λ b. if b then (null, pool) else served_from) z

-- `chunk_alloc` splits the first chunk of the list that has the room. The block is aligned, lies in what
-- was free of the chunk, behind its own header, and has the size asked for; what is free then begins
-- behind the block, and the chunk stays sane. With no such chunk it answers NULL if the allocator does, and
-- if it gives fewer bytes than were asked for, which it then gets back. Otherwise it splits the new chunk if
-- that has the room behind its own header, and reads through a NULL pointer if not: it always does so where the
-- pool has no `real_alloc_size`. The alignment is `2 ^ k`, the chunks of the list are sane, and no size or
-- address wraps.
pub alloc_cases :
    (k : ℕ) (pool : Pool) (size got real : ℕ)
    → k < 32
    → pool.align ≡ 2 ^ k
    → pool.has_alloc ≡ true
    → size ≢ 0
    → size + 2 ^ k + header + 2 ^ k ≤ word
    → got + alloc_size pool.align size + 2 ^ k ≤ word
    → got + real + 2 ^ k ≤ word
    → All (λ a. IsSane k a (pool.chunks a)) pool.full
    → Answers k pool size got real
        (first_fit pool (alloc_size pool.align size) pool.full)
        (alloc pool size got real)
unfolding setup
alloc_cases k pool size got real l e has nz h b1 b2 sane =
    let sz = alloc_size pool.align size in
    let (m, s) : IsMultiple k sz × (size + header + 2 ^ k ≤ sz) =
      subst (λ al. IsMultiple k (alloc_size al size) × (size + header + 2 ^ k ≤ alloc_size al size))
        (sym e) (alloc_size_lem k size l h) in
    subst (Answers k pool size got real (first_fit pool sz pool.full))
      (sym (alloc-split_from pool size got real has nz)) (by (first_fit pool sz pool.full) refl m s)
  where
    by :
        (o : Option ℕ)
        → first_fit pool (alloc_size pool.align size) pool.full ≡ o
        → IsMultiple k (alloc_size pool.align size)
        → size + header + 2 ^ k ≤ alloc_size pool.align size
        → Answers k pool size got real o (
            split_from
              (alloc_size pool.align size)
              (found_or_new pool (alloc_size pool.align size) got real o))
    by (some a) f m s =
        let (ok, fits) = first_fit_lem k pool (alloc_size pool.align size) a pool.full sane f in
        served k pool a size (alloc_size pool.align size) l e ok m s fits
    by none f m s =
        let sz = alloc_size pool.align size in
        let some_got : got ≢ 0 → got == 0 ≡ false = λ n. ground (arith, n) in
        (
          (λ z.
              let q = ap (split_from sz) (
                grab_new-grab_if pool sz got real true pool.has_real_alloc_size (ltb real sz)
                  ((==_iff got 0).1 z) refl refl) in
              (ap (λ r. r.0) q, ap (λ r. r.1) q)),
          (λ n c.
              let q =
                ap (split_from sz) (
                  grab_new-grab_if pool sz got real false false (ltb real sz) (some_got n) c
                    refl) in
              ap (λ r. r.0) q
              ∙ fresh-unserved pool sz got sz (
                  subst (λ al. (fresh al got sz).free < sz) (sym e)
                    (fresh-small k got sz l (omega (arith, s)) b1))),
          (λ n c u.
              let q = ap (split_from sz) (
                grab_new-grab_if pool sz got real false true true (some_got n) c
                  (lt→ltb real sz u)) in
              (ap (λ r. r.0) q, ap (λ r. r.1.returned) q)),
          (λ n c u.
              let q = ap (split_from sz) (
                grab_new-grab_if pool sz got real false true false (some_got n) c
                  (ground (arith, u))) in
              (
                (λ v. ap (λ r. r.0) q ∙ fresh-unserved pool sz got real v),
                (λ v.
                    subst (Handed k size got (fresh pool.align got real)) (sym q)
                      (fresh-Handed k pool size sz got real l e m s u b2 v)),
              )),
        )
