-- ===== src/CString.antt =====
-- lib/string.c: comparison, search and tokens. A string is the list of its bytes before the terminator,
-- and a pointer into it is the rest of the string from there on.
pub mod Compare
pub mod Numbers
pub mod Search
pub mod Tokens
mod Tests
use flightos.Common.{
  ℕ, zero, suc, ◌+◌, ◌-◌, ◌*◌, ◌/◌, ◌%◌, ◌^◌, ◌≤◌, ◌<◌, ◌≡◌, refl, sym, ap, ap₂, subst, ◌∙◌, ◌≡⟨◌⟩◌,
  ◌∎, ◌≢◌, ◌↔◌, ◌⊎◌, inl, inr, Bool, true, false, not, ◌&&◌, ◌||◌, Option, none, some, List, [],
  ◌∷◌, ◌++◌, map, reverse, append-nil, append_assoc, arith, word, ltb, leb, ◌==◌, if◌then◌else◌,
  ltb→lt, lt→ltb, leb→le, ==_iff, ==_refl, tests, Bool-cases, Option-cases, of_some, length,
  get_elem?, take, drop, set, All, filter, is_empty, length-append, length-set, get_elem?-set_self,
  get_elem?-set_ne, All-append, All-append_left, All-append_right, All-map, Status, success,
  failure, einval, enomem, enoexec, enodev, enosched, eperm,
}

-- What the comparisons return: -1, 0 or 1.
pub data Sign : Type 0 where
  below same above : Sign

-- `*s` and `s + 1`
abbrev pub first : List ℕ → ℕ
first [] = 0
first (c ∷ s) = c

abbrev pub rest : List ℕ → List ℕ
rest [] = []
rest (c ∷ s) = s

-- The test in the loops of the comparisons, where `next` is the rest of the loop.
abbrev pub compare_chars : ℕ → ℕ → Sign → Sign
compare_chars c1 c2 next = if c1 == c2 then next else if ltb c1 c2 then below else above

unfoldable pub strcmp : List ℕ → List ℕ → Sign
strcmp [] s2 = compare_chars 0 (first s2) same
strcmp (c ∷ s1) s2 =
    let next = strcmp s1 (rest s2) in compare_chars c (first s2) (if c == 0 then same else next)

unfoldable pub strncmp : List ℕ → List ℕ → ℕ → Sign
strncmp s1 s2 zero = same
strncmp s1 s2 (suc n) =
    let next = strncmp (rest s1) (rest s2) n in
    compare_chars (first s1) (first s2) (if first s1 == 0 then same else next)

unfoldable pub memcmp : List ℕ → List ℕ → ℕ → Sign
memcmp s1 s2 zero = same
memcmp s1 s2 (suc n) = compare_chars (first s1) (first s2) (memcmp (rest s1) (rest s2) n)

unfoldable pub strlen : List ℕ → ℕ
strlen [] = 0
strlen (c ∷ s) = suc (strlen s)

-- The inner loops of `strpbrk` and `strspn`
unfoldable pub is_in : ℕ → List ℕ → Bool
is_in c [] = false
is_in c (a ∷ accept) = if c == a then true else is_in c accept

unfoldable pub strpbrk : List ℕ → List ℕ → Option (List ℕ)
unfolding is_in
strpbrk [] accept = none
strpbrk (c ∷ s) accept = if is_in c accept then some (c ∷ s) else strpbrk s accept

unfoldable pub strspn : List ℕ → List ℕ → ℕ
unfolding is_in
strspn [] accept = 0
strspn (c ∷ s) accept = let n = strspn s accept in if is_in c accept then suc n else 0

unfoldable pub strchr : List ℕ → ℕ → Option (List ℕ)
strchr [] c = if 0 == c % 256 then some [] else none
strchr (x ∷ s) c = if x == c % 256 then some (x ∷ s) else if x == 0 then none else strchr s c

abbrev pub is_same : Sign → Bool
is_same same = true
is_same _ = false

-- The loop of `strstr`, by what is left of `len_h`; `len_n` is not zero here.
unfoldable pub strstr_loop : ℕ → List ℕ → List ℕ → Option (List ℕ)
unfolding memcmp strlen
strstr_loop zero haystack needle = none
strstr_loop (suc len_h) haystack needle =
    let next = strstr_loop len_h (rest haystack) needle in
    if leb (strlen needle) (suc len_h)
    then (if is_same (memcmp haystack needle (strlen needle)) then some haystack else next)
    else none

unfoldable pub strstr : List ℕ → List ℕ → Option (List ℕ)
unfolding strstr_loop
strstr haystack needle =
    if strlen needle == 0 then some haystack else strstr_loop (strlen haystack) haystack needle

-- `start`, when a terminator has been written at `end`
abbrev pub cut : List ℕ → List ℕ → List ℕ
cut start end = take (length start - length end) start

-- What `strsep` returns, and leaves in `*stringp`.
abbrev pub cut_off : List ℕ → Option (List ℕ) → Option (List ℕ) × Option (List ℕ)
cut_off start none = (some start, none)
cut_off start (some end) = (some (cut start end), some (rest end))

unfoldable pub strsep : Option (List ℕ) → List ℕ → Option (List ℕ) × Option (List ℕ)
unfolding strpbrk
strsep none delim = (none, none)
strsep (some start) delim = cut_off start (strpbrk start delim)

-- `strtok` behind the skipped delimiters; the second component is `s_prev`.
abbrev pub end_token : List ℕ → Option (List ℕ) → Option (List ℕ) × List ℕ
end_token token none = (some token, [])
end_token token (some s) = (some (cut token s), rest s)

abbrev pub token_at : List ℕ → List ℕ → Option (List ℕ) × List ℕ
token_at [] delim = (none, [])
token_at (c ∷ s) delim = end_token (c ∷ s) (strpbrk (c ∷ s) delim)

-- `strtok` from where it starts: at its argument, or at `s_prev` for NULL.
unfoldable pub strtok_from : List ℕ → List ℕ → Option (List ℕ) × List ℕ
unfolding strspn strpbrk
strtok_from s delim = token_at (drop (strspn s delim) s) delim

abbrev pub or_else : Option (List ℕ) → List ℕ → List ℕ
or_else none s_prev = s_prev
or_else (some s) s_prev = s

unfoldable pub strtok : Option (List ℕ) → List ℕ → List ℕ → Option (List ℕ) × List ℕ
unfolding strtok_from
strtok s delim s_prev = strtok_from (or_else s s_prev) delim
