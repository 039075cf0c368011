-- ===== src/MemPool/Covers.antt =====
-- What the free blocks of a pool cover, and that splitting a block keeps it.
use flightos.Common.{
  ℕ, zero, suc, ◌+◌, ◌^◌, ◌≤◌, ◌≡◌, refl, sym, ap, ap₂, ◌≢◌, inl, inr, false, ◌&&◌, List, [], ◌∷◌,
  arith, ltb, leb, ◌==◌, if◌then◌else◌, ltb→lt, ==_iff, ==_refl, Bool-cases,
}
use flightos.Log2.Bounds.{pow_suc}
use flightos.MemPool.{Pool, set_at, split_blk}
use flightos.MemPool.Calls.{split_loop}

-- Whether an address is in a block, and how many blocks of a list, or of the lists of the orders up to
-- `k`, it is in.
abbrev pub inside : ℕ → ℕ → ℕ → ℕ
inside a blk order = if leb blk a && ltb a (blk + 2 ^ order) then 1 else 0

abbrev pub covers_list : ℕ → ℕ → List ℕ → ℕ
covers_list a order [] = 0
covers_list a order (b ∷ bs) = inside a b order + covers_list a order bs

abbrev pub covers : ℕ → (ℕ → List ℕ) → ℕ → ℕ
covers a f zero = covers_list a 0 (f 0)
covers a f (suc k) = covers_list a (suc k) (f (suc k)) + covers a f k

covers-same :
    (a : ℕ) (f g : ℕ → List ℕ) (k : ℕ) → ((o : ℕ) → o ≤ k → f o ≡ g o) → covers a f k ≡ covers a g k
covers-same a f g zero h = ap (covers_list a 0) (h 0 (omega arith))
covers-same a f g (suc k) h =
    ap₂ (λ x y. x + y) (ap (covers_list a (suc k)) (h (suc k) (omega arith)))
      (covers-same a f g k (λ o l. h o (omega arith)))

set_at-ne : (f : ℕ → List ℕ) (i o : ℕ) (l : List ℕ) → o ≢ i → set_at f i l o ≡ f o
set_at-ne f i o l h = elim (Bool-cases (o == i)) [
  | inl e ↦ absurd (h ((==_iff o i).0 e))
  | inr e ↦ rw e refl
]

-- Another list for one order.
pub covers-set_at :
    (a : ℕ) (f : ℕ → List ℕ) (i : ℕ) (l : List ℕ) (k : ℕ)
    → i ≤ k
    → covers a (set_at f i l) k + covers_list a i (f i) ≡ covers a f k + covers_list a i l
covers-set_at a f zero l zero h = omega arith
covers-set_at a f (suc i) l zero h = absurd (omega arith)
covers-set_at a f i l (suc k) h = elim (Bool-cases (i == suc k)) [
  | inl e ↦
      let p : i ≡ suc k = (==_iff i (suc k)).0 e in
      let c : covers a (set_at f i l) k ≡ covers a f k =
        covers-same a (set_at f i l) f k (λ o le. set_at-ne f i o l (omega (arith, p))) in
      let d : set_at f i l (suc k) ≡ l = rw (sym p, ==_refl i) refl in
      omega (
        arith,
        c,
        ap (covers_list a (suc k)) d,
        ap (λ j. covers_list a j (f j)) p,
        ap (λ j. covers_list a j l) p,
      )
  | inr e ↦
      let n : suc k ≢ i = λ p. cc (e, (==_iff i (suc k)).1 (sym p)) in
      omega (
        arith,
        covers-set_at a f i l k (omega (arith, n)),
        ap (covers_list a (suc k)) (set_at-ne f i (suc k) l n),
      )
]

-- A block is its two halves.
pub inside-halves : (a blk i : ℕ) → inside a blk (suc i) ≡ inside a blk i + inside a (blk + 2 ^ i) i
inside-halves a blk i = ground (arith, pow_suc i)

only_zero : {n : ℕ} → n ≤ 0 → n ≡ 0
only_zero h = omega arith

-- Splitting a block of the order `i` down keeps what it covers.
pub split_loop-covers :
    (a k : ℕ) (mp : Pool) (blk order i : ℕ)
    → order ≤ i
    → i ≤ suc k
    → covers a (split_loop mp blk order i).block_order k + inside a blk order
      ≡ covers a mp.block_order k + inside a blk i
unfolding split_loop split_blk
split_loop-covers a k mp blk order zero h l = omega (arith, ap (inside a blk) (only_zero h))
split_loop-covers a k mp blk order (suc i) h l = elim (Bool-cases (ltb order (suc i))) [
  | inl e ↦ rw e (
      let mp1 = split_blk mp blk i in
      let s : covers a mp1.block_order k ≡ covers a mp.block_order k + inside a (blk + 2 ^ i) i =
        omega (
          arith,
          covers-set_at a mp.block_order i ((blk + 2 ^ i) ∷ mp.block_order i) k (omega arith),
        ) in
      omega (
        arith,
        split_loop-covers a k mp1 blk order i (omega (arith, ltb→lt order (suc i) e)) (omega arith),
        s,
        inside-halves a blk i,
      ))
  | inr e ↦ rw e (omega (arith, ap (inside a blk) (exactly e)))
]
  where
    exactly : ltb order (suc i) ≡ false → order ≡ suc i
    exactly e = ground arith
