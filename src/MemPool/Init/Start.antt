-- ===== src/MemPool/Init/Start.antt =====
-- The release of the block that is all of a pool.
use flightos.Common.{
  ℕ, ◌+◌, ◌-◌, ◌/◌, ◌%◌, ◌^◌, ◌≤◌, ◌<◌, ◌≡◌, refl, sym, ap, subst, ◌∙◌, ◌≢◌, inl, inr, Bool, true,
  false, some, [], arith, word, ltb, ◌==◌, if◌then◌else◌, lt→ltb, le→leb, ==_iff, ==_refl,
  Bool-cases, success,
}
use native.Mathlib.Nat.{zero-div}
use flightos.Log2.Bounds.{pow_mono, pow_div, pow_positive, pow_mono}
use flightos.MemPool.{
  link, Pool, Stat, set_at, blk_idx, blk_addr_valid, mark_free, is_blk_free, get_alloc_order,
  set_alloc_order, upmerge_loop, put_back, upmerge_blks,
}
use flightos.MemPool.Calls.{fixup_validate, release, free}
use flightos.MemPool.Release.{or_min, fixup_inside, free_last}
use flightos.MemPool.Init.{init_blocks, start}

blk_idx-base : (mp : Pool) → blk_idx mp mp.base ≡ 0
unfolding blk_idx
blk_idx-base mp = ap (λ n. n % word / 2 ^ mp.min_order) (self mp.base) ∙ zero-div (2 ^ mp.min_order)
  where
    self : (n : ℕ) → n + word - n ≡ word
    self n = omega arith

upmerge_blks-top :
    (mp : Pool) (blk : ℕ)
    → get_alloc_order mp blk ≡ mp.max_order
    → upmerge_blks mp blk ≡ put_back mp.base (blk, mp.max_order, mp)
unfolding upmerge_blks upmerge_loop
upmerge_blks-top mp blk e =
    ap (λ order. put_back mp.base (upmerge_loop (mp.max_order - order) mp blk order)) e
    ∙ ap (λ k. put_back mp.base (upmerge_loop k mp blk mp.max_order)) (none_left mp.max_order)
  where
    none_left : (n : ℕ) → n - n ≡ 0
    none_left n = omega arith

-- A pool with nothing allocated: no block is in a list, and the block at the base is marked free, with the
-- largest order.
pub record IsUnused (mp : Pool) : Type 0 where
  pub none_allocated : mp.alloc_blks ≡ 0
  pub base_free : is_blk_free mp mp.base ≡ true
  pub base_order : get_alloc_order mp mp.base ≡ mp.max_order
  pub no_lists : (o : ℕ) → o ≤ mp.max_order → mp.block_order o ≡ []

-- The limits of a pool that can be started.
pub record IsSound (mp : Pool) : Type 0 where
  pub based : mp.base ≢ 0
  pub ordered : mp.min_order ≤ mp.max_order
  pub some_order : 0 < mp.max_order
  pub bounded : mp.max_order < 32
  pub within : mp.base + 2 ^ mp.max_order < word

start_order : (mp : Pool) → IsSound mp → get_alloc_order (init_blocks mp) mp.base ≡ mp.max_order
unfolding get_alloc_order init_blocks
start_order mp s =
    ap
      (set_at (λ i. if ltb i (2 ^ mp.max_order / 2 ^ mp.min_order) then 0 else mp.alloc_order i) 0
        (mp.max_order % 256))
      (blk_idx-base (init_blocks mp))
    ∙ omega (arith, s.bounded)

start_free : (mp : Pool) → IsSound mp → is_blk_free (init_blocks mp) mp.base ≡ false
unfolding is_blk_free init_blocks
start_free mp s =
    ap (λ i. if ltb i (2 ^ mp.max_order / 2 ^ mp.min_order) then false else mp.blk_free i)
      (blk_idx-base (init_blocks mp))
    ∙ ap (λ b. if b then false else mp.blk_free 0)
        (lt→ltb 0 (2 ^ mp.max_order / 2 ^ mp.min_order) positive)
  where
    positive : 0 < 2 ^ mp.max_order / 2 ^ mp.min_order
    positive = omega (
      arith,
      pow_div mp.max_order mp.min_order s.ordered,
      pow_positive (mp.max_order - mp.min_order),
    )

start_valid : (mp : Pool) → IsSound mp → blk_addr_valid (init_blocks mp) mp.base ≡ true
unfolding blk_addr_valid init_blocks
start_valid mp s = ground (arith, pow_positive mp.max_order, s.within)

start_merged :
    (mp : Pool) (st : Stat)
    → IsSound mp
    → free (init_blocks mp) st mp.base ≡ release (init_blocks mp) st mp.base (some mp.max_order)
start_merged mp st s =
    let mp1 = init_blocks mp in
    free_last mp1 st mp.base (no_zero mp.base s.based) (start_valid mp s) (start_free mp s) (
      no_zero (get_alloc_order mp1 mp.base) (λ e. omega (arith, e, start_order mp s, s.some_order)))
    ∙ ap (release mp1 st mp.base) (
        ap (fixup_validate (some mp1) mp.base) (start_order mp s)
        ∙ fixup_inside mp1 mp.base mp.max_order (start_valid mp s)
            (unfold init_blocks in within mp.max_order)
        ∙ ap some (largest mp.max_order))
  where
    no_zero : (n : ℕ) → n ≢ 0 → (n == 0) ≡ false
    no_zero n h = elim (Bool-cases (n == 0)) [ inl e ↦ absurd (h ((==_iff n 0).0 e)) | inr e ↦ e ]

    within : (n : ℕ) → ltb n n ≡ false
    within n = ground arith

    largest : (n : ℕ) → or_min (init_blocks mp) mp.max_order ≡ mp.max_order
    largest n = unfold init_blocks in ground (arith, s.ordered)

-- What the release leaves.
started :
    (mp : Pool)
    → IsSound mp
    → upmerge_blks (init_blocks mp) mp.base
      ≡ put_back mp.base (mp.base, mp.max_order, init_blocks mp)
unfolding init_blocks
started mp s = upmerge_blks-top (init_blocks mp) mp.base (start_order mp s)

-- The pool and the statistics behind the release, for the merged pool.
abbrev settled : Pool → Stat → Pool → Bool × Pool × Stat
settled mp st merged =
    let blocks = 2 ^ (mp.max_order - (init_blocks mp).min_order) in
    (
      false,
      record merged { alloc_blks = (merged.alloc_blks + word - blocks % word) % word },
      record st { used_blocks = (st.used_blocks + word - blocks % word) % word },
    )

abbrev base_back : Pool → Pool
base_back mp = set_alloc_order (mark_free (init_blocks mp) mp.base) mp.base mp.max_order

free-settled :
    (mp : Pool) (st : Stat)
    → IsSound mp
    → free (init_blocks mp) st mp.base ≡ settled mp st (base_back mp)
free-settled mp st s =
    start_merged mp st s
    ∙ ap (settled mp st) (
        started mp s
        ∙ ap (λ b. if b then base_back mp else link (base_back mp) mp.max_order mp.base)
            (==_refl mp.base))

-- What is true behind the start of a pool.
abbrev Started : Pool → ℕ → Bool × Pool × Stat → Type 0
Started mp used (b, mp', st') =
    IsUnused mp'
    × (mp'.base ≡ mp.base)
    × (mp'.max_order ≡ mp.max_order)
    × (mp'.min_order ≡ mp.min_order)
    × (st'.used_blocks ≡ used)

blocks-small : (mp : Pool) → IsSound mp → 2 ^ (mp.max_order - mp.min_order) < word
blocks-small mp s =
    omega (arith, pow_mono (mp.max_order - mp.min_order) 31 (omega (arith, s.bounded)))

at_self {ℓ} : {A : Type ℓ} (f : ℕ → A) (i : ℕ) (v : A) → set_at f i v i ≡ v
at_self f i v = rw (==_refl i) refl

settled-Started :
    (mp : Pool) (st : Stat)
    → IsSound mp
    → st.used_blocks < word
    → Started mp st.used_blocks (
        settled mp
          (record st {
            total_blocks = (st.total_blocks + (init_blocks mp).n_blks) % word;
            used_blocks = (st.used_blocks + (init_blocks mp).n_blks) % word;
          })
          (base_back mp))
unfolding init_blocks set_alloc_order mark_free is_blk_free get_alloc_order blk_idx
settled-Started mp st s h =
    let n = pow_div mp.max_order mp.min_order s.ordered in
    let l = blocks-small mp s in
    (
      record {
        none_allocated = omega (arith, n, l);
        base_free = at_self (init_blocks mp).blk_free (blk_idx (init_blocks mp) mp.base) true;
        base_order =
            at_self (mark_free (init_blocks mp) mp.base).alloc_order
              (blk_idx (mark_free (init_blocks mp) mp.base) mp.base) (mp.max_order % 256)
            ∙ omega (arith, s.bounded);
        no_lists = λ o g. ap (λ b. if b then [] else mp.block_order o) (le→leb o mp.max_order g);
      },
      refl,
      refl,
      refl,
      omega (arith, n, l, h),
    )

pub start-Started :
    (mp : Pool) (st : Stat)
    → IsSound mp
    → st.used_blocks < word
    → ((start mp st).0 ≡ success)
      × Started mp st.used_blocks (false, (start mp st).1, (start mp st).2)
start-Started mp st s h =
    let st1 : Stat = record st {
      total_blocks = (st.total_blocks + (init_blocks mp).n_blks) % word;
      used_blocks = (st.used_blocks + (init_blocks mp).n_blks) % word;
    } in
    (
      refl,
      subst (λ (r : Bool × Pool × Stat). Started mp st.used_blocks (false, r.1, r.2))
          (sym (free-settled mp st1 s)) (settled-Started mp st s h),
    )
