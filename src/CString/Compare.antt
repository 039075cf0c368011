-- ===== src/CString/Compare.antt =====
-- The comparisons of strings.
use flightos.Common.{
  ℕ, zero, suc, ◌≡◌, refl, sym, ap, ap₂, ◌≢◌, ◌↔◌, inl, inr, false, List, [], ◌∷◌, arith, ltb, ◌==◌,
  ==_iff, Bool-cases, take, All,
}
use flightos.CString.{Sign, below, same, above, first, rest, compare_chars, strcmp, strncmp}

-- A string has no terminator inside.
abbrev pub IsText : List ℕ → Type 0
IsText = All (λ c. c ≢ 0)

abbrev pub flip : Sign → Sign
flip below = above
flip same = same
flip above = below

differs : (c1 c2 : ℕ) (next : Sign) → c1 ≢ c2 → compare_chars c1 c2 next ≢ same
differs c1 c2 next h e = elim (Bool-cases (c1 == c2)) [
  | inl f ↦ h ((==_iff _ _).0 f)
  | inr f ↦ elim (Bool-cases (ltb c1 c2)) [
    | inl g ↦ cc (rw (f, g) at e)
    | inr g ↦ cc (rw (f, g) at e)
  ]
]

nonzero_test : (c : ℕ) → c ≢ 0 → (c == 0) ≡ false
nonzero_test c h = elim (Bool-cases (c == 0)) [ inl e ↦ absurd (h ((==_iff _ _).0 e)) | inr e ↦ e ]

-- `strcmp` gives 0 exactly for equal strings.
pub strcmp-same : (a b : List ℕ) → IsText a → IsText b → (strcmp a b ≡ same) ↔ (a ≡ b)
unfolding strcmp
strcmp-same [] [] h k = ((λ e. refl), (λ e. refl))
strcmp-same [] (y ∷ b) h k = ((λ e. absurd (differs 0 y same (λ f. k.0 (sym f)) e)), (λ e. cc))
strcmp-same (x ∷ a) [] h k = ((λ e. absurd (differs x 0 _ h.0 e)), (λ e. cc))
strcmp-same (x ∷ a) (y ∷ b) h k = elim (Bool-cases (x == y)) [
  | inl e ↦
      let (there, back) = strcmp-same a b h.1 k.1 in
      rw (e, nonzero_test x h.0)
        ((λ g. ap₂ (λ c s. c ∷ s) ((==_iff _ _).0 e) (there g)), (λ g. back (ap rest g)))
  | inr e ↦
      let n : x ≢ y = λ f. cc (e, (==_iff x y).1 f) in
      ((λ g. absurd (differs x y _ n g)), (λ g. absurd (n (ap first g))))
]

-- `strcmp` the other way round has the other sign.
pub strcmp-flip : (a b : List ℕ) → IsText a → IsText b → strcmp b a ≡ flip (strcmp a b)
unfolding strcmp
strcmp-flip [] [] h k = refl
strcmp-flip [] (y ∷ b) h k = ground (arith, h, k)
strcmp-flip (x ∷ a) [] h k = ground (arith, h, k)
strcmp-flip (x ∷ a) (y ∷ b) h k = ground (arith, strcmp-flip a b h.1 k.1)

-- `strncmp` compares the prefixes of `n` bytes.
pub strncmp-take :
    (n : ℕ) (a b : List ℕ) → IsText a → IsText b → strncmp a b n ≡ strcmp (take n a) (take n b)
unfolding strcmp strncmp
strncmp-take zero a b h k = refl
strncmp-take (suc n) [] [] h k = refl
strncmp-take (suc n) [] (y ∷ b) h k = ground (arith, k.0)
strncmp-take (suc n) (x ∷ a) [] h k = ground (arith, h.0)
strncmp-take (suc n) (x ∷ a) (y ∷ b) h k = ground (arith, strncmp-take n a b h.1 k.1)

-- `strcmp` gives 0 exactly for equal strings, and the other sign for the strings the other way round; `strncmp`
-- compares the prefixes of `n` bytes.
pub strcmp_lem :
    (a b : List ℕ) (n : ℕ)
    → IsText a
    → IsText b
    → ((strcmp a b ≡ same) ↔ (a ≡ b))
      × (strcmp b a ≡ flip (strcmp a b))
      × (strncmp a b n ≡ strcmp (take n a) (take n b))
strcmp_lem a b n h k = (strcmp-same a b h k, strcmp-flip a b h k, strncmp-take n a b h k)
