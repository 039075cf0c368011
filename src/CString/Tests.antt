-- ===== src/CString/Tests.antt =====
-- Runs of the string functions, and the theorems at concrete strings.
use flightos.Common.{
  ℕ, ◌-◌, ◌%◌, ◌^◌, ◌≡◌, refl, ◌↔◌, true, false, some, List, [], ◌∷◌, arith, take,
}
use flightos.CString.{same, strcmp, strncmp, is_in, strstr}
use flightos.CString.Numbers.{isalpha, atoi, strtol, strtoll}
use flightos.CString.Numbers.Decimal.{decimal, decimal_lem}
use flightos.CString.Compare.{flip, IsText, strcmp_lem}
use flightos.CString.Search.{Matches, strstr_lem}
use flightos.CString.Tokens.{split_on, words, seps, toks, tokens_lem}

-- "ab,,cd" and ","
abbrev text : List ℕ
text = 97 ∷ 98 ∷ 44 ∷ 44 ∷ 99 ∷ 100 ∷ []

abbrev comma : List ℕ
comma = 44 ∷ []

text-IsText : IsText text
text-IsText =
    (omega arith, (omega arith, (omega arith, (omega arith, (omega arith, (omega arith, tt))))))

comma-IsText : IsText comma
comma-IsText = (omega arith, tt)

words_run : words comma text ≡ (97 ∷ 98 ∷ []) ∷ (99 ∷ 100 ∷ []) ∷ []
unfolding is_in
words_run = refl

strstr_run : strstr text (44 ∷ 99 ∷ []) ≡ some (44 ∷ 99 ∷ 100 ∷ [])
unfolding strstr
strstr_run = refl

strstr_example : Matches text (44 ∷ 99 ∷ []) (strstr text (44 ∷ 99 ∷ []))
strstr_example = strstr_lem text (44 ∷ 99 ∷ [])

strcmp_example :
    ((strcmp text comma ≡ same) ↔ (text ≡ comma))
    × (strcmp comma text ≡ flip (strcmp text comma))
    × (strncmp text comma 2 ≡ strcmp (take 2 text) (take 2 comma))
strcmp_example = strcmp_lem text comma 2 text-IsText comma-IsText

tokens_example :
    (seps 8 comma (some text) ≡ some (split_on comma text))
    × (toks 7 comma (some text) [] ≡ some (words comma text))
tokens_example = tokens_lem text comma []

decimal_example :
    (atoi (decimal 1204) ≡ (false, 1204))
    × (atoi (45 ∷ decimal 1204) ≡ (true, 1204))
    × (strtol (decimal 1204) 10 ≡ (1204, []))
    × (strtol (45 ∷ decimal 1204) 10 ≡ ((2 ^ 32 - 1204) % 2 ^ 32, []))
decimal_example = decimal_lem 1204 (omega arith)

-- "ff" with base 16, and "+2147483650": the first is read with base 10, the second is above LONG_MAX.
no_prefix : strtol (102 ∷ 102 ∷ []) 16 ≡ (0, 102 ∷ 102 ∷ [])
unfolding strtol
no_prefix = refl

not_clamped : (strtol (43 ∷ decimal 2147483650) 10).0 ≡ 2147483650
unfolding strtol flightos.Log2.kfls
not_clamped = refl

-- This fits into 64 bits, and gives 2 ^ 32 - 1.
cut_clamp : (strtoll (decimal 17000000000000000000) 10).0 ≡ 2 ^ 32 - 1
unfolding strtoll flightos.Log2.kfls
cut_clamp = refl

-- The character `0`
zero_isalpha : isalpha 48 ≡ true
unfolding isalpha
zero_isalpha = refl
