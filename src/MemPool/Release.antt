-- ===== src/MemPool/Release.antt =====
-- What `mm_free` refuses, and blocks that come back.
pub mod Counter
use flightos.Common.{
  ℕ, zero, suc, ◌+◌, ◌-◌, ◌*◌, ◌/◌, ◌%◌, ◌^◌, ◌≤◌, ◌<◌, ◌≡◌, refl, sym, ap, ap₂, subst, ◌∙◌, ◌≡⟨◌⟩◌,
  ◌∎, ◌≢◌, ◌↔◌, ◌⊎◌, inl, inr, Bool, true, false, not, ◌&&◌, ◌||◌, Option, none, some, List, [],
  ◌∷◌, ◌++◌, map, reverse, append-nil, append_assoc, arith, word, ltb, leb, ◌==◌, if◌then◌else◌,
  ltb→lt, lt→ltb, leb→le, le→leb, ==_iff, ==_refl, tests, Bool-cases, Option-cases, of_some, length,
  get_elem?, take, drop, set, All, filter, is_empty, length-append, length-set, get_elem?-set_self,
  get_elem?-set_ne, All-append, All-append_left, All-append_right, All-map, Status, success,
  failure, einval, enomem, enoexec, enodev, enosched, eperm,
}
use flightos.MemPool.{
  Pool, Stat, blk_idx, blk_addr_valid, is_blk_free, get_alloc_order, upmerge_blks,
}
use flightos.MemPool.Sound.{ix}
use flightos.MemPool.Release.Counter.{upmerge_blks-alloc_blks}
use flightos.MemPool.Calls.{fixup_validate, release, free}

-- An address that `mm_free` may release: inside the pool, not free, with an order within the limits.
pub record IsReleasable (mp : Pool) (addr : ℕ) : Type 0 where
  pub above : mp.base ≤ addr
  pub below : addr < (mp.base + 2 ^ mp.max_order) % word
  pub taken : mp.blk_free (ix mp.base mp.min_order addr) ≡ false
  pub ordered : mp.alloc_order (ix mp.base mp.min_order addr) ≢ 0
  pub limited : mp.alloc_order (ix mp.base mp.min_order addr) ≤ mp.max_order

pub valid_iff :
    (mp : Pool) (addr : ℕ)
    → (blk_addr_valid mp addr ≡ true)
      ↔ ((mp.base ≤ addr) × (addr < (mp.base + 2 ^ mp.max_order) % word))
unfolding blk_addr_valid
valid_iff mp addr = ((λ e. ground arith), (λ h. ground (arith, h.0, h.1)))

abbrev pub or_min : Pool → ℕ → ℕ
or_min mp order = if ltb order mp.min_order then mp.min_order else order

fixup_large :
    (mp : Pool) (addr order : ℕ)
    → ltb mp.max_order order ≡ true
    → fixup_validate (some mp) addr order ≡ none
unfolding fixup_validate
fixup_large mp addr order e = rw e refl

pub fixup_inside :
    (mp : Pool) (addr order : ℕ)
    → blk_addr_valid mp addr ≡ true
    → ltb mp.max_order order ≡ false
    → fixup_validate (some mp) addr order ≡ some (or_min mp order)
unfolding fixup_validate blk_addr_valid
fixup_inside mp addr order v e = ground arith

-- A counter without the blocks of an order, if it has counted them.
abbrev pub Less : ℕ → ℕ → ℕ → Type 0
Less blocks n n' = blocks ≤ n → n < word → n' ≡ n - blocks

-- The pool and the statistics behind the release of a block.
abbrev pub Given : Pool → Stat → ℕ → Pool → Stat → Type 0
Given mp st addr mp' st' =
    let order = mp.alloc_order (ix mp.base mp.min_order addr) in
    let blocks = 2 ^ (or_min mp order - mp.min_order) in
    (mp' ≡ record (upmerge_blks mp addr) { alloc_blks = mp'.alloc_blks })
    × Less blocks mp.alloc_blks mp'.alloc_blks
    × (st' ≡ record st { used_blocks = st'.used_blocks })
    × Less blocks st.used_blocks st'.used_blocks

-- What `mm_free` may do with an address: the report is for what is not to be released, and changes
-- nothing.
abbrev pub Outcome : Pool → Stat → ℕ → Bool × Pool × Stat → Type 0
Outcome mp st addr (reported, mp', st') =
    ((reported ≡ false) ↔ IsReleasable mp addr)
    × (reported ≡ true → (mp' ≡ mp) × (st' ≡ st))
    × (reported ≡ false → Given mp st addr mp' st')

wrap-Less : (blocks n : ℕ) → Less blocks n ((n + word - blocks % word) % word)
wrap-Less blocks n l h = omega (arith, l, h)

release-Given :
    (mp : Pool) (st : Stat) (addr : ℕ)
    → let (r, mp1, st1) =
        release mp st addr (some (or_min mp (mp.alloc_order (ix mp.base mp.min_order addr)))) in
      Given mp st addr mp1 st1
release-Given mp st addr =
    let blocks = 2 ^ (or_min mp (mp.alloc_order (ix mp.base mp.min_order addr)) - mp.min_order) in
    (
      refl,
      subst (λ n. Less blocks n (((upmerge_blks mp addr).alloc_blks + word - blocks % word) % word))
          (upmerge_blks-alloc_blks mp addr) (wrap-Less blocks (upmerge_blks mp addr).alloc_blks),
      refl,
      wrap-Less blocks st.used_blocks,
    )

pub free_last :
    (mp : Pool) (st : Stat) (addr : ℕ)
    → (addr == 0) ≡ false
    → blk_addr_valid mp addr ≡ true
    → is_blk_free mp addr ≡ false
    → (get_alloc_order mp addr == 0) ≡ false
    → free mp st addr ≡ release mp st addr (fixup_validate (some mp) addr (get_alloc_order mp addr))
unfolding free
free_last mp st addr z a b c = rw (z, a, b, c) refl

last-Outcome :
    (mp : Pool) (st : Stat) (addr : ℕ)
    → blk_addr_valid mp addr ≡ true
    → is_blk_free mp addr ≡ false
    → get_alloc_order mp addr ≢ 0
    → Outcome mp st addr
        (release mp st addr (fixup_validate (some mp) addr (get_alloc_order mp addr)))
unfolding is_blk_free get_alloc_order blk_idx
last-Outcome mp st addr a b c = elim (Bool-cases (ltb mp.max_order (get_alloc_order mp addr))) [
  | inl l ↦
      subst (λ o. Outcome mp st addr (release mp st addr o))
        (sym (fixup_large mp addr (get_alloc_order mp addr) l))
        (
          (
            (λ e. cc),
            (λ v.
                absurd (omega (arith, v.limited, ltb→lt mp.max_order (get_alloc_order mp addr) l))),
          ),
          (λ e. (refl, refl)),
          (λ e. cc),
        )
  | inr l ↦
      subst (λ o. Outcome mp st addr (release mp st addr o))
        (sym (fixup_inside mp addr (get_alloc_order mp addr) a l))
        (
          (
            (λ e. record {
              above = ((valid_iff mp addr).0 a).0;
              below = ((valid_iff mp addr).0 a).1;
              taken = b;
              ordered = c;
              limited = ground arith;
            }),
            (λ v. refl),
          ),
          (λ e. cc),
          (λ e. release-Given mp st addr),
        )
]

reported-Outcome :
    (mp : Pool) (st : Stat) (addr : ℕ)
    → (¬ IsReleasable mp addr)
    → free mp st addr ≡ (true, mp, st)
    → Outcome mp st addr (free mp st addr)
reported-Outcome mp st addr n e =
    subst (Outcome mp st addr) (sym e)
      (((λ f. cc), (λ v. absurd (n v))), (λ f. (refl, refl)), (λ f. cc))

-- `mm_free` of an address other than NULL releases it exactly if it is in the pool (whose end wraps to 0 if it
-- is that of the memory), not marked free, and has an order from 1 to the largest one; it reports every
-- other one, and then changes nothing. What it releases is merged upwards, and the counters of the
-- pool and of the statistics get less by the blocks of its order, or of the smallest order of the
-- pool if that is larger, where they have counted these. Nothing else changes.
pub free_cases :
    (mp : Pool) (st : Stat) (addr : ℕ) → addr ≢ 0 → Outcome mp st addr (free mp st addr)
unfolding is_blk_free get_alloc_order blk_idx
free_cases mp st addr h = elim (Bool-cases (addr == 0)) [
  | inl z ↦ absurd (h ((==_iff addr 0).0 z))
  | inr z ↦ elim (Bool-cases (blk_addr_valid mp addr)) [
    | inr a ↦
        reported-Outcome mp st addr (λ v. cc (a, (valid_iff mp addr).1 (v.above, v.below)))
          (unfold free in rw (z, a) refl)
    | inl a ↦ elim (Bool-cases (is_blk_free mp addr)) [
      | inl b ↦
          reported-Outcome mp st addr (λ v. cc (b, v.taken)) (unfold free in rw (z, a, b) refl)
      | inr b ↦ elim (Bool-cases (get_alloc_order mp addr == 0)) [
        | inl c ↦
            reported-Outcome mp st addr (λ v. v.ordered ((==_iff _ 0).0 c))
              (unfold free in rw (z, a, b, c) refl)
        | inr c ↦
            subst (Outcome mp st addr) (sym (free_last mp st addr z a b c))
              (last-Outcome mp st addr a b (λ e. cc (c, (==_iff (get_alloc_order mp addr) 0).1 e)))
      ]
    ]
  ]
]
