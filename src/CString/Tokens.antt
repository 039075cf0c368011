-- ===== src/CString/Tokens.antt =====
-- `strsep` and `strtok`, called until they answer NULL, against a split of the string into fields.
use flightos.Common.{
  ℕ, zero, suc, ◌-◌, ◌≤◌, ◌<◌, ◌≡◌, refl, sym, ap, ap₂, ◌∙◌, ◌⊎◌, inl, inr, true, false, not,
  Option, none, some, List, [], ◌∷◌, ◌++◌, arith, if◌then◌else◌, Bool-cases, length, take, drop,
  filter, is_empty, length-append,
}
use flightos.CString.{
  first, rest, is_in, strpbrk, strspn, cut, cut_off, strsep, end_token, token_at, strtok_from,
  or_else, strtok,
}
use flightos.CString.Search.{IsOutside, Found, strpbrk_lem, strspn_lem}

abbrev onto : ℕ → List (List ℕ) → List (List ℕ)
onto c [] = (c ∷ []) ∷ []
onto c (w ∷ ws) = (c ∷ w) ∷ ws

-- The fields of a string, one more than it has delimiters.
abbrev pub split_on : List ℕ → List ℕ → List (List ℕ)
split_on delim [] = [] ∷ []
split_on delim (c ∷ s) = let ws = split_on delim s in if is_in c delim then [] ∷ ws else onto c ws

-- The fields that are not empty.
abbrev pub words : List ℕ → List ℕ → List (List ℕ)
words delim s = filter (λ w. not (is_empty w)) (split_on delim s)

-- What the calls return one after the other, and `none` if they do not come to NULL with this many.
abbrev then_token : List ℕ → Option (List (List ℕ)) → Option (List (List ℕ))
then_token w none = none
then_token w (some ws) = some (w ∷ ws)

abbrev until_null :
    (Option (List ℕ) → Option (List (List ℕ)))
    → Option (List ℕ) × Option (List ℕ)
    → Option (List (List ℕ))
until_null again (none, p) = some []
until_null again (some w, p) = then_token w (again p)

abbrev pub seps : ℕ → List ℕ → Option (List ℕ) → Option (List (List ℕ))
seps zero delim p = none
seps (suc calls) delim p = until_null (seps calls delim) (strsep p delim)

abbrev until_null' :
    (List ℕ → Option (List (List ℕ))) → Option (List ℕ) × List ℕ → Option (List (List ℕ))
until_null' again (none, p) = some []
until_null' again (some w, p) = then_token w (again p)

abbrev pub toks : ℕ → List ℕ → Option (List ℕ) → List ℕ → Option (List (List ℕ))
toks zero delim s s_prev = none
toks (suc calls) delim s s_prev = until_null' (toks calls delim none) (strtok s delim s_prev)

take-append : (xs ys : List ℕ) (n : ℕ) → n ≡ length xs → take n (xs ++ ys) ≡ xs
take-append [] ys zero e = refl
take-append [] ys (suc n) e = absurd (omega (arith, e))
take-append (x ∷ xs) ys zero e = absurd (omega (arith, e))
take-append (x ∷ xs) ys (suc n) e = ap (λ l. x ∷ l) (take-append xs ys n (omega (arith, e)))

cut-append : (pre post : List ℕ) → cut (pre ++ post) post ≡ pre
cut-append pre post =
    take-append pre post (length (pre ++ post) - length post)
      (omega (arith, length-append pre post))

-- A field with its delimiter, and the last field.
split_on-field :
    (delim pre : List ℕ) (c : ℕ) (post : List ℕ)
    → IsOutside delim pre
    → is_in c delim ≡ true
    → split_on delim (pre ++ c ∷ post) ≡ pre ∷ split_on delim post
split_on-field delim [] c post o i = rw i refl
split_on-field delim (x ∷ pre) c post o i = rw (o.0, split_on-field delim pre c post o.1 i) refl

split_on-last : (delim s : List ℕ) → IsOutside delim s → split_on delim s ≡ s ∷ []
split_on-last delim [] o = refl
split_on-last delim (x ∷ s) o = rw (o.0, split_on-last delim s o.1) refl

-- `strsep` splits off the first field.
abbrev Splits : List ℕ → ℕ → Type 0
Splits delim calls =
    (s : List ℕ) → suc (length s) < calls → seps calls delim (some s) ≡ some (split_on delim s)

seps_step : (delim : List ℕ) (calls : ℕ) → Splits delim calls → Splits delim (suc calls)
unfolding strsep
seps_step delim zero ih s h = absurd (omega arith)
seps_step delim (suc calls) ih s h = go (strpbrk s delim) (strpbrk_lem s delim)
  where
    go :
        (o : Option (List ℕ))
        → Found s delim o
        → until_null (seps (suc calls) delim) (cut_off s o) ≡ some (split_on delim s)
    go none f = rw (split_on-last delim s f) refl
    go (some e) (pre, c, post, p, q, out, i) =
        let l : suc (length post) < suc calls =
          omega (arith, h, ap (λ l. length l) p, length-append pre (c ∷ post)) in
        ap₂ then_token (ap₂ cut p q ∙ cut-append pre (c ∷ post))
          (ap (λ r. seps (suc calls) delim (some (rest r))) q ∙ ih post l)
        ∙ ap some (sym (ap (split_on delim) p ∙ split_on-field delim pre c post out i))

seps-Splits : (delim : List ℕ) (calls : ℕ) → Splits delim calls
seps-Splits delim zero = λ s h. absurd (omega arith)
seps-Splits delim (suc calls) = seps_step delim calls (seps-Splits delim calls)

-- Called until it answers NULL, which it does, `strsep` returns the fields of the string in their order.
pub seps-split_on :
    (s delim : List ℕ) → seps (suc (suc (length s))) delim (some s) ≡ some (split_on delim s)
seps-split_on s delim = seps-Splits delim (suc (suc (length s))) s (omega arith)

words_skip : (delim s : List ℕ) → words delim (drop (strspn s delim) s) ≡ words delim s
unfolding strspn
words_skip delim [] = refl
words_skip delim (c ∷ s) = elim (Bool-cases (is_in c delim)) [
  | inl e ↦ rw e (words_skip delim s)
  | inr e ↦ ap (λ n. words delim (drop n (c ∷ s))) (none_skipped e)
]
  where
    none_skipped : is_in c delim ≡ false → strspn (c ∷ s) delim ≡ 0
    none_skipped e = rw e refl

length-drop_le : (n : ℕ) (s : List ℕ) → length (drop n s) ≤ length s
length-drop_le zero s = omega arith
length-drop_le (suc n) [] = omega arith
length-drop_le (suc n) (c ∷ s) = omega (arith, length-drop_le n s)

abbrev Words : List ℕ → ℕ → Type 0
Words delim calls =
    (arg : Option (List ℕ)) (s_prev : List ℕ)
    → length (or_else arg s_prev) < calls
    → toks calls delim arg s_prev ≡ some (words delim (or_else arg s_prev))

toks_step : (delim : List ℕ) (calls : ℕ) → Words delim calls → Words delim (suc calls)
unfolding strtok strtok_from
toks_step delim calls ih arg s_prev h =
    let s = or_else arg s_prev in
    let at = drop (strspn s delim) s in
    at_word at (strspn_lem s delim).1 (omega (arith, length-drop_le (strspn s delim) s, h))
    ∙ ap some (words_skip delim s)
  where
    rest_of :
        (c : ℕ) (t : List ℕ) (o : Option (List ℕ))
        → Found (c ∷ t) delim o
        → is_in c delim ≡ false
        → length (c ∷ t) < suc calls
        → until_null' (toks calls delim none) (end_token (c ∷ t) o) ≡ some (words delim (c ∷ t))
    rest_of c t none f i l =
        ap (then_token (c ∷ t)) (ih none [] (omega (arith, l)))
        ∙ ap some (sym (ap (filter (λ w. not (is_empty w))) (split_on-last delim (c ∷ t) f)))
    rest_of c t (some e) ([], x, post, p, q, out, j) i l = absurd (cc (i, j, ap first p))
    rest_of c t (some e) (y ∷ pre, x, post, p, q, out, j) i l =
        let m : length post < calls =
          omega (arith, l, ap (λ z. length z) p, length-append (y ∷ pre) (x ∷ post)) in
        ap₂ then_token (ap₂ cut p q ∙ cut-append (y ∷ pre) (x ∷ post))
          (ap (λ r. toks calls delim none (rest r)) q ∙ ih none post m)
        ∙ ap some (
            sym (
              ap (words delim) p
              ∙ ap (filter (λ w. not (is_empty w))) (split_on-field delim (y ∷ pre) x post out j)))

    at_word :
        (at : List ℕ)
        → (at ≡ []) ⊎ (is_in (first at) delim ≡ false)
        → length at < suc calls
        → until_null' (toks calls delim none) (token_at at delim) ≡ some (words delim at)
    at_word [] d l = refl
    at_word (c ∷ t) (inl e) l = absurd (cc e)
    at_word (c ∷ t) (inr e) l = rest_of c t (strpbrk (c ∷ t) delim) (strpbrk_lem (c ∷ t) delim) e l

toks-Words : (delim : List ℕ) (calls : ℕ) → Words delim calls
toks-Words delim zero = λ arg s_prev h. absurd (omega arith)
toks-Words delim (suc calls) = toks_step delim calls (toks-Words delim calls)

-- Called with the string and then with NULL until it answers NULL, which it does, `strtok` returns the
-- fields of the string that are not empty, in their order, whatever it was called for before.
pub toks-words :
    (s delim s_prev : List ℕ) → toks (suc (length s)) delim (some s) s_prev ≡ some (words delim s)
toks-words s delim s_prev = toks-Words delim (suc (length s)) (some s) s_prev (omega arith)

-- Called until it answers NULL, which it does, `strsep` returns the fields of the string in their order; called
-- with the string and then with NULL until it answers NULL, which it does, `strtok` returns the fields
-- that are not empty, in their order, whatever it was called for before.
pub tokens_lem :
    (s delim s_prev : List ℕ)
    → (seps (suc (suc (length s))) delim (some s) ≡ some (split_on delim s))
      × (toks (suc (length s)) delim (some s) s_prev ≡ some (words delim s))
tokens_lem s delim s_prev = (seps-split_on s delim, toks-words s delim s_prev)
