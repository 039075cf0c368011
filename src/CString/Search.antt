-- ===== src/CString/Search.antt =====
-- What the searches in a string find.
use flightos.Common.{
  ℕ, suc, ◌+◌, ◌%◌, ◌≤◌, ◌<◌, ◌≡◌, refl, ap, ap₂, ◌≢◌, ◌↔◌, ◌⊎◌, inl, inr, Bool, true, false,
  Option, none, some, List, [], ◌∷◌, ◌++◌, arith, ltb, leb, ◌==◌, if◌then◌else◌, leb→le, le→leb,
  ==_iff, Bool-cases, take, drop, All,
}
use flightos.CString.{
  above, below, first, rest, is_same, memcmp, strlen, is_in, strpbrk, strspn, strchr, strstr_loop,
  strstr,
}
use flightos.CString.Compare.{IsText}

abbrev pub IsOutside : List ℕ → List ℕ → Type 0
IsOutside accept = All (λ c. is_in c accept ≡ false)

-- What a search for a character of a set may answer: the rest of the string from the first such
-- character on, or that there is none.
abbrev pub Found : List ℕ → List ℕ → Option (List ℕ) → Type 0
Found s accept none = IsOutside accept s
Found s accept (some e) =
    (pre : List ℕ) × (c : ℕ) × (post : List ℕ) × (s ≡ pre ++ c ∷ post)
    × (e ≡ c ∷ post)
    × IsOutside accept pre
    × (is_in c accept ≡ true)

-- `strpbrk` finds the first character of the string that is in the set.
pub strpbrk_lem : (s accept : List ℕ) → Found s accept (strpbrk s accept)
unfolding strpbrk
strpbrk_lem [] accept = tt
strpbrk_lem (c ∷ s) accept = elim (Bool-cases (is_in c accept)) [
  | inl e ↦ rw e ([], c, s, refl, refl, tt, e)
  | inr e ↦ rw e (extend (strpbrk s accept) (strpbrk_lem s accept) e)
]
  where
    extend :
        (o : Option (List ℕ)) → Found s accept o → is_in c accept ≡ false → Found (c ∷ s) accept o
    extend none f e = (e, f)
    extend (some r) (pre, x, post, p, q, out, i) e =
        (c ∷ pre, x, post, ap (λ l. c ∷ l) p, q, (e, out), i)

-- `strspn` is the length of the longest prefix with characters of the set only.
pub strspn_lem :
    (s accept : List ℕ)
    → All (λ c. is_in c accept ≡ true) (take (strspn s accept) s)
      × ((drop (strspn s accept) s ≡ [])
          ⊎ (is_in (first (drop (strspn s accept) s)) accept ≡ false))
unfolding strspn
strspn_lem [] accept = (tt, inl refl)
strspn_lem (c ∷ s) accept = elim (Bool-cases (is_in c accept)) [
  | inl e ↦ let (h, t) = strspn_lem s accept in rw e ((e, h), t)
  | inr e ↦ rw e (tt, inr e)
]

-- Where `needle` is in `haystack`.
abbrev pub Occurs : List ℕ → List ℕ → List ℕ → Type 0
Occurs haystack needle pre = (post : List ℕ) × (haystack ≡ pre ++ (needle ++ post))

is_prefix :
    (needle haystack : List ℕ)
    → strlen needle ≤ strlen haystack
    → (is_same (memcmp haystack needle (strlen needle)) ≡ true) ↔ Occurs haystack needle []
unfolding memcmp strlen
is_prefix [] haystack h = ((λ e. (haystack, refl)), (λ o. refl))
is_prefix (n ∷ ns) [] h = absurd (omega arith)
is_prefix (n ∷ ns) (x ∷ hs) h = elim (Bool-cases (x == n)) [
  | inl e ↦
      let (there, back) = is_prefix ns hs (omega arith) in
      rw e (
        (λ g. let (post, f) = there g in (post, ap₂ (λ c l. c ∷ l) ((==_iff _ _).0 e) f)),
        (λ o. back (o.0, ap rest o.1)),
      )
  | inr e ↦
      rw e
        ((λ g. absurd (unlike (ltb x n) g)), (λ o. absurd (cc (e, (==_iff x n).1 (ap first o.1)))))
]
  where
    unlike : (b : Bool) → is_same (if b then below else above) ≢ true
    unlike true = λ g. cc g
    unlike false = λ g. cc g

strlen-append : (a b : List ℕ) → strlen (a ++ b) ≡ strlen a + strlen b
unfolding strlen
strlen-append [] b = omega arith
strlen-append (c ∷ a) b = omega (arith, strlen-append a b)

Occurs-strlen :
    (haystack needle pre : List ℕ)
    → Occurs haystack needle pre
    → strlen pre + strlen needle ≤ strlen haystack
Occurs-strlen haystack needle pre (post, e) =
    omega (arith, ap strlen e, strlen-append pre (needle ++ post), strlen-append needle post)

-- What a search for a string may answer: the rest of the haystack from the first occurrence on, or
-- that there is none.
abbrev pub Matches : List ℕ → List ℕ → Option (List ℕ) → Type 0
Matches haystack needle none = (pre : List ℕ) → ¬ Occurs haystack needle pre
Matches haystack needle (some r) =
    (pre : List ℕ) × (haystack ≡ pre ++ r)
    × Occurs r needle []
    × ((pre' : List ℕ) → Occurs haystack needle pre' → strlen pre ≤ strlen pre')

later :
    (x : ℕ) (hs needle : List ℕ) (o : Option (List ℕ))
    → Matches hs needle o
    → (¬ Occurs (x ∷ hs) needle [])
    → Matches (x ∷ hs) needle o
unfolding strlen
later x hs needle none m n = go
  where
    go : (pre : List ℕ) → ¬ Occurs (x ∷ hs) needle pre
    go [] = n
    go (y ∷ pre) = λ o. m pre (o.0, ap rest o.1)
later x hs needle (some r) (pre, e, at, least) n = (x ∷ pre, ap (λ l. x ∷ l) e, at, go)
  where
    go : (pre' : List ℕ) → Occurs (x ∷ hs) needle pre' → strlen (x ∷ pre) ≤ strlen pre'
    go [] = λ o. absurd (n o)
    go (y ∷ pre') = λ o. omega (arith, least pre' (o.0, ap rest o.1))

strstr_loop_lem :
    (haystack needle : List ℕ)
    → strlen needle ≢ 0
    → Matches haystack needle (strstr_loop (strlen haystack) haystack needle)
unfolding strlen strstr_loop
strstr_loop_lem [] needle h = λ pre o. h (omega (arith, Occurs-strlen [] needle pre o))
strstr_loop_lem (x ∷ hs) needle h = elim (Bool-cases (leb (strlen needle) (suc (strlen hs)))) [
  | inr e ↦ rw e (λ pre o. cc (
    e,
    le→leb (strlen needle) (suc (strlen hs)) (omega (arith, Occurs-strlen (x ∷ hs) needle pre o)),
  ))
  | inl e ↦
      let iff = is_prefix needle (x ∷ hs) (leb→le (strlen needle) (suc (strlen hs)) e) in
      elim (Bool-cases (is_same (memcmp (x ∷ hs) needle (strlen needle)))) [
        | inl f ↦ rw (e, f) ([], refl, iff.0 f, λ pre' o. omega arith)
        | inr f ↦
            rw (e, f)
              (later x hs needle (strstr_loop (strlen hs) hs needle) (strstr_loop_lem hs needle h)
                (λ o. cc (f, iff.1 o)))
      ]
]

-- `strstr` finds the first occurrence of a string in another one, and answers NULL exactly if there is
-- none.
pub strstr_lem : (haystack needle : List ℕ) → Matches haystack needle (strstr haystack needle)
unfolding strstr
strstr_lem haystack needle = elim (Bool-cases (strlen needle == 0)) [
  | inl e ↦ rw e ([], refl, empty needle ((==_iff _ _).0 e), λ pre' o. unfold strlen in omega arith)
  | inr e ↦ rw e (strstr_loop_lem haystack needle (λ f. cc (e, (==_iff (strlen needle) 0).1 f)))
]
  where
    empty : (n : List ℕ) → strlen n ≡ 0 → Occurs haystack n []
    empty [] e = (haystack, refl)
    empty (c ∷ n) e = absurd (unfold strlen in omega (arith, e))

-- What a search for a character may answer.
abbrev pub Located : List ℕ → ℕ → Option (List ℕ) → Type 0
Located s c none = All (λ x. x ≢ c) s × (c ≢ 0)
Located s c (some r) = (pre : List ℕ) × (s ≡ pre ++ r) × All (λ x. x ≢ c) pre × (first r ≡ c)

-- `strchr` finds the first place of a character in a string, where the terminator counts as one.
pub strchr_lem : (s : List ℕ) (c : ℕ) → IsText s → c < 256 → Located s c (strchr s c)
unfolding strchr
strchr_lem [] c t h = elim (Bool-cases (0 == c % 256)) [
  | inl e ↦ rw e ([], refl, tt, omega (arith, (==_iff 0 (c % 256)).0 e))
  | inr e ↦ rw e (tt, λ f. cc (e, (==_iff 0 (c % 256)).1 (omega (arith, f))))
]
strchr_lem (x ∷ s) c t h = elim (Bool-cases (x == c % 256)) [
  | inl e ↦ rw e ([], refl, tt, omega (arith, (==_iff x (c % 256)).0 e))
  | inr e ↦ elim (Bool-cases (x == 0)) [
    | inl f ↦ absurd (t.0 ((==_iff x 0).0 f))
    | inr f ↦
        rw (e, f)
          (on (λ g. cc (e, (==_iff x (c % 256)).1 (omega (arith, g)))) (strchr s c)
            (strchr_lem s c t.1 h))
  ]
]
  where
    on : x ≢ c → (o : Option (List ℕ)) → Located s c o → Located (x ∷ s) c o
    on n none (a, z) = ((n, a), z)
    on n (some r) (pre, e, a, f) = (x ∷ pre, ap (λ l. x ∷ l) e, (n, a), f)

-- `strpbrk` finds the first character of a string that is in a set, `strspn` the length of the longest prefix with
-- characters of the set only, and `strchr` the first place of a character, where the terminator of the
-- string counts as one.
pub search_lem :
    (s accept : List ℕ) (c : ℕ)
    → IsText s
    → c < 256
    → Found s accept (strpbrk s accept)
      × All (λ x. is_in x accept ≡ true) (take (strspn s accept) s)
      × ((drop (strspn s accept) s ≡ [])
          ⊎ (is_in (first (drop (strspn s accept) s)) accept ≡ false))
      × Located s c (strchr s c)
search_lem s accept c t h =
    let (a, b) = strspn_lem s accept in (strpbrk_lem s accept, a, b, strchr_lem s c t h)
