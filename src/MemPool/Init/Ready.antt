-- ===== src/MemPool/Init/Ready.antt =====
-- Behind `mm_init`, nothing of a pool is allocated.
use flightos.Common.{
  ℕ, zero, suc, ◌+◌, ◌-◌, ◌^◌, ◌≤◌, ◌<◌, ◌≡◌, sym, ap, subst, ◌≢◌, inl, inr, false, arith, word,
  ltb, if◌then◌else◌, Bool-cases, Status, success, enomem,
}
use flightos.Log2.{roundup_pow_of_two, ilog2, rounddown_pow_of_two}
use flightos.Log2.Bounds.{rounddown-ilog2}
use flightos.MemPool.{Pool, Stat}
use flightos.MemPool.Init.{size_of_link, min_order_for, init_orders, start, init}
use flightos.MemPool.Init.Start.{IsUnused, IsSound, start-Started}

-- Blocks of the smallest order have room for their links.
min_order-fits : (granularity : ℕ) → 8 ≤ 2 ^ min_order_for granularity
unfolding min_order_for
min_order-fits granularity =
    elim (Bool-cases (ltb (2 ^ ilog2 (roundup_pow_of_two granularity)) 8)) [
      | inl e ↦ rw e (unfold ilog2 roundup_pow_of_two in omega arith)
      | inr e ↦ rw e (large e)
    ]
  where
    large :
        ltb (2 ^ ilog2 (roundup_pow_of_two granularity)) 8 ≡ false
        → 8 ≤ 2 ^ ilog2 (roundup_pow_of_two granularity)
    large e = ground arith

-- What `mm_init` owes for a pool size and a granularity.
abbrev pub Ready : ℕ → ℕ → ℕ → ℕ → Status × Pool × Stat → Type 0
Ready base pool_size granularity used (s, mp', st') =
    (s ≡ success)
    × IsUnused mp'
    × (mp'.base ≡ base)
    × (2 ^ mp'.max_order ≤ pool_size)
    × (pool_size < 2 ^ suc mp'.max_order)
    × (mp'.min_order ≡ min_order_for granularity)
    × (8 ≤ 2 ^ mp'.min_order)
    × (st'.used_blocks ≡ used)

-- If the smallest order for the granularity is at most that of the pool, `mm_init` of a pool of at least two
-- bytes, not at the address 0, that ends below the last address, succeeds. The pool is then unused: it counts no allocated block, no
-- block is in a list, and the block at the base is free, with the order of the largest power of two
-- up to the pool size. Blocks of the smallest order have room for their links, and the count of
-- used blocks of all pools is as before.
pub init_lem :
    (mp : Pool) (st : Stat) (base pool_size granularity : ℕ)
    → base ≢ 0
    → 1 < pool_size
    → base + pool_size < 2 ^ 32
    → min_order_for granularity ≤ ilog2 (rounddown_pow_of_two pool_size)
    → st.used_blocks < word
    → Ready base pool_size granularity st.used_blocks (init mp st base pool_size granularity)
unfolding init init_orders
init_lem mp st base pool_size granularity b p l m u =
    let max = ilog2 (rounddown_pow_of_two pool_size) in
    let min = min_order_for granularity in
    let (lower, upper, small) = rounddown-ilog2 pool_size (omega (arith, p)) (omega (arith, l)) in
    let mp1 : Pool = init_orders mp base max min in
    let sound : IsSound mp1 = record {
      based = b;
      ordered = m;
      some_order = above max upper;
      bounded = small;
      within = omega (arith, lower, l);
    } in
    let (ok, (unused, f, g, k, c)) = start-Started mp1 st sound u in
    subst (Ready base pool_size granularity st.used_blocks)
      (sym (
        ap
          (λ t.
            if t
            then (if ltb (2 ^ (max - 1)) size_of_link
                then (enomem, init_orders mp base max (max - 1), st)
                else start (init_orders mp base max (max - 1)) st)
            else start mp1 st)
          (not_less max min m)))
      (
        ok,
        unused,
        f,
        subst (λ n. 2 ^ n ≤ pool_size) (sym g) lower,
        subst (λ n. pool_size < 2 ^ suc n) (sym g) upper,
        k,
        subst (λ n. 8 ≤ 2 ^ n) (sym k) (min_order-fits granularity),
        c,
      )
  where
    above : (k : ℕ) → pool_size < 2 ^ suc k → 0 < k
    above zero h = absurd (omega (arith, h, p))
    above (suc k) h = omega arith

    not_less : (x y : ℕ) → y ≤ x → ltb x y ≡ false
    not_less x y h = ground arith
