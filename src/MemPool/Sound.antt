-- ===== src/MemPool/Sound.antt =====
-- When the bitmap, the orders and the lists of a pool fit together, in terms of its fields.
pub mod Joined
pub mod Linked
pub mod Merged
use flightos.Common.{
  ℕ, zero, suc, ◌+◌, ◌-◌, ◌*◌, ◌/◌, ◌%◌, ◌^◌, ◌≤◌, ◌<◌, ◌≡◌, refl, sym, ap, ap₂, subst, ◌∙◌, ◌≡⟨◌⟩◌,
  ◌∎, ◌≢◌, ◌↔◌, ◌⊎◌, inl, inr, Bool, true, false, not, ◌&&◌, ◌||◌, Option, none, some, List, [],
  ◌∷◌, ◌++◌, map, reverse, append-nil, append_assoc, arith, word, ltb, leb, ◌==◌, if◌then◌else◌,
  ltb→lt, lt→ltb, leb→le, le→leb, ==_iff, ==_refl, tests, Bool-cases, Option-cases, of_some, length,
  get_elem?, take, drop, set, All, filter, is_empty, length-append, length-set, get_elem?-set_self,
  get_elem?-set_ne, All-append, All-append_left, All-append_right, All-map, Status, success,
  failure, einval, enomem, enoexec, enodev, enosched, eperm,
}
use native.Mathlib.Nat.{mul-div_cancel}
use flightos.Log2.Bounds.{pow_positive}
use flightos.MemPool.{set_at, remove}
use flightos.MemPool.Covers.{inside, covers_list, covers}

abbrev pub count : ℕ → List ℕ → ℕ
count b [] = 0
count b (x ∷ xs) = (if x == b then 1 else 0) + count b xs

pub count-remove_self : (b : ℕ) (l : List ℕ) → count b (remove b l) ≡ count b l - 1
count-remove_self b [] = omega arith
count-remove_self b (x ∷ xs) = elim (Bool-cases (x == b)) [
  | inl e ↦ rw e (omega arith)
  | inr e ↦ rw (e, e) (omega (arith, count-remove_self b xs))
]

pub count-remove_ne : (b c : ℕ) (l : List ℕ) → (c == b) ≡ false → count b (remove c l) ≡ count b l
count-remove_ne b c [] h = refl
count-remove_ne b c (x ∷ xs) h = elim (Bool-cases (x == c)) [
  | inl e ↦ rw e (
      omega (arith, ap {B = ℕ} (λ t. if t then 1 else 0) (ap (λ y. y == b) ((==_iff x c).0 e) ∙ h)))
  | inr e ↦ rw e (omega (arith, count-remove_ne b c xs h))
]

-- What a list covers less without one of its blocks.
pub covers_list-remove :
    (a o b : ℕ) (l : List ℕ)
    → covers_list a o (remove b l) + (if count b l == 0 then 0 else inside a b o)
      ≡ covers_list a o l
covers_list-remove a o b [] = refl
covers_list-remove a o b (x ∷ xs) = elim (Bool-cases (x == b)) [
  | inl e ↦ rw (e, some_of (count b xs)) (omega (arith, ap (λ y. inside a y o) ((==_iff x b).0 e)))
  | inr e ↦ rw (e, none_of (count b xs)) (omega (arith, covers_list-remove a o b xs))
]
  where
    some_of : (n : ℕ) → (1 + n == 0) ≡ false
    some_of n = ground arith

    none_of : (n : ℕ) → (0 + n == 0) ≡ (n == 0)
    none_of n = ground arith

module _ (base min : ℕ) where
  -- The index of a block
  abbrev pub ix : ℕ → ℕ
  ix x = (x + word - base) % word / 2 ^ min

  -- An address that is at the start of a block of the smallest order.
  abbrev pub Aligned : ℕ → Type 0
  Aligned x = (j : ℕ) × (x ≡ base + j * 2 ^ min) × (j * 2 ^ min < word)

  ix-Aligned : (x : ℕ) (a : Aligned x) → ix x ≡ a.0
  ix-Aligned x (j, e, l) =
      ap (λ q. q / 2 ^ min) (omega (arith, e, l)) ∙ mul-div_cancel j (pow_positive min)

  pub ix-same : (x y : ℕ) → Aligned x → Aligned y → (ix x == ix y) ≡ (x == y)
  ix-same x y a b = elim (Bool-cases (ix x == ix y)) [
    | inl e ↦
        let same : a.0 ≡ b.0 =
          sym (ix-Aligned x a) ∙ ((==_iff (ix x) (ix y)).0 e ∙ ix-Aligned y b) in
        e ∙ sym ((==_iff x y).1 (a.1 ∙ (ap (λ j. base + j * 2 ^ min) same ∙ sym b.1)))
    | inr e ↦ elim (Bool-cases (x == y)) [
      | inl f ↦ absurd (cc (e, (==_iff (ix x) (ix y)).1 (ap ix ((==_iff x y).0 f))))
      | inr f ↦ e ∙ sym f
    ]
  ]

  -- How often a block is to be in the list of an order: once, if it is free, has that order, and is not the base
  -- of the pool, which is never linked.
  abbrev pub listed : (ℕ → Bool) → (ℕ → ℕ) → ℕ → ℕ → ℕ
  listed free order x o = if (free (ix x) && (order (ix x) == o)) && not (x == base) then 1 else 0

  abbrev pub IsSound : (ℕ → Bool) → (ℕ → ℕ) → (ℕ → List ℕ) → Type 0
  IsSound free order lists =
      (x : ℕ) → Aligned x → (o : ℕ) → count x (lists o) ≡ listed free order x o

  -- How many free blocks cover an address: the ones in the lists up to the order `max`, and the one at the base.
  abbrev pub free_at : ℕ → (ℕ → Bool) → (ℕ → ℕ) → (ℕ → List ℕ) → ℕ → ℕ
  free_at max free order lists a =
      covers a lists max + (if free (ix base) then inside a base (order (ix base)) else 0)
