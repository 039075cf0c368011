-- ===== src/CString/Numbers.antt =====
-- lib/string.c: the classes of characters, and the conversion of strings to numbers. A character is the number
-- of its byte; those above 127, which are negative in C, are in none of the classes.
pub mod Decimal
use flightos.Common.{
  ℕ, zero, suc, ◌+◌, ◌-◌, ◌*◌, ◌/◌, ◌%◌, ◌^◌, ◌≤◌, ◌<◌, ◌≡◌, refl, sym, ap, ap₂, subst, ◌∙◌, ◌≡⟨◌⟩◌,
  ◌∎, ◌≢◌, ◌↔◌, ◌⊎◌, inl, inr, Bool, true, false, not, ◌&&◌, ◌||◌, Option, none, some, List, [],
  ◌∷◌, ◌++◌, map, reverse, append-nil, append_assoc, arith, word, ltb, leb, ◌==◌, if◌then◌else◌,
  ltb→lt, lt→ltb, leb→le, le→leb, ==_iff, ==_refl, tests, Bool-cases, Option-cases, of_some, length,
  get_elem?, take, drop, set, All, filter, is_empty, length-append, length-set, get_elem?-set_self,
  get_elem?-set_ne, All-append, All-append_left, All-append_right, All-map, Status, success,
  failure, einval, enomem, enoexec, enodev, enosched, eperm,
}
use flightos.Log2.{kfls}
use flightos.CString.{first, rest}

unfoldable pub isspace : ℕ → Bool
isspace c = c == 32 || c == 9 || c == 10 || c == 11 || c == 12 || c == 13

unfoldable pub isdigit : ℕ → Bool
isdigit c = leb 48 c && leb c 57

-- `c | 0x20`
abbrev pub or_space : ℕ → ℕ
or_space c = if (c / 32) % 2 == 0 then c + 32 else c

-- The difference is an `int`, and may be negative.
unfoldable pub isalpha : ℕ → Bool
isalpha c = ltb (or_space (c % 256)) (26 + 97)

unfoldable pub isupper : ℕ → Bool
isupper c = leb 65 c && leb c 90

unfoldable pub islower : ℕ → Bool
islower c = leb 97 c && leb c 122

unfoldable pub skip_spaces : List ℕ → List ℕ
unfolding isspace
skip_spaces [] = []
skip_spaces (c ∷ s) = if isspace c then skip_spaces s else c ∷ s

-- The loop of `atoi`; a result that leaves the range of `int` has no meaning in C, and is not cut off here.
unfoldable pub atoi_loop : ℕ → List ℕ → ℕ
atoi_loop res [] = res
atoi_loop res (c ∷ s) =
    let more = atoi_loop (res * 10 + (c - 48)) s in if ltb c 48 || ltb 9 (c - 48) then res else more

-- A sign and an absolute value
unfoldable pub atoi : List ℕ → Bool × ℕ
unfolding skip_spaces atoi_loop
atoi nptr =
    let s = skip_spaces nptr in
    if first s == 45
    then (true, atoi_loop 0 (rest s))
    else if first s == 43
    then (false, atoi_loop 0 (rest s))
    else (false, atoi_loop 0 s)

-- The value of a digit, if the character is one.
unfoldable pub digit : ℕ → Option ℕ
unfolding isdigit islower
digit c =
    if isdigit c
    then some (c - 48)
    else if islower (or_space c)
    then some ((or_space c - 97) + 10)
    else none

-- What the conversion to `bits` bits uses: the results that stand for an overflow without a sign, and with one.
pub record Width : Type 0 where
  pub bits : ℕ
  pub clamp : ℕ
  pub clamp_minus : ℕ
  pub clamp_plus : ℕ

-- What the loop does with a digit: it goes on with a result, or ends with one, at this digit.
abbrev pub next_res : Width → ℕ → ℕ → ℕ → ℕ → Bool × ℕ
next_res w base clamp res val =
    if leb (2 ^ (w.bits - kfls base)) res && ltb ((clamp - val) / base) res
    then (false, clamp)
    else (true, (res * base + val) % 2 ^ w.bits)

abbrev pub digit_round : (ℕ → ℕ × List ℕ) → Width → ℕ → ℕ → ℕ → List ℕ → Option ℕ → ℕ × List ℕ
digit_round again w base clamp res here none = (res, here)
digit_round again w base clamp res here (some val) =
    let (go_on, res') = next_res w base clamp res val in
    let more = again res' in
    if leb base val then (res, here) else if go_on then more else (res', here)

unfoldable pub digit_loop : Width → ℕ → ℕ → ℕ → List ℕ → ℕ × List ℕ
unfolding digit
digit_loop w base clamp res [] = (res, [])
digit_loop w base clamp res (c ∷ s) =
    digit_round (λ r. digit_loop w base clamp r s) w base clamp res (c ∷ s) (digit c)

-- The base, and the string from its first digit on.
unfoldable pub base_of : ℕ → List ℕ → ℕ × List ℕ
base_of base s =
    if base == 0 || base == 16
    then (if first s == 48
        then (if first (rest s) == 120 || first (rest s) == 88
            then (16, rest (rest s))
            else (8, rest s))
        else (10, s))
    else (base, s)

-- The result, and the string behind the number; that is the whole string if the number is 0.
abbrev pub finish : Width → List ℕ → Bool → ℕ × List ℕ → ℕ × List ℕ
finish w nptr neg (res, s) =
    (if neg then (2 ^ w.bits - res) % 2 ^ w.bits else res, if res == 0 then nptr else s)

abbrev pub convert : Width → List ℕ → Bool → ℕ → ℕ × List ℕ → ℕ × List ℕ
convert w nptr neg clamp (base, s) = finish w nptr neg (digit_loop w base clamp 0 s)

-- The conversion, for an `endptr` that is not NULL; a negative result is the number of its bits.
unfoldable pub strtox : Width → List ℕ → ℕ → ℕ × List ℕ
unfolding skip_spaces base_of digit_loop
strtox w nptr base =
    let s = skip_spaces nptr in
    if first s == 45
    then convert w nptr true w.clamp_minus (base_of base (rest s))
    else if first s == 43
    then convert w nptr false w.clamp_plus (base_of base (rest s))
    else convert w nptr false w.clamp (base_of base s)

unfoldable pub strtol : List ℕ → ℕ → ℕ × List ℕ
unfolding strtox
strtol nptr base =
    strtox (record { bits = 32; clamp = 2 ^ 32 - 1; clamp_minus = 2 ^ 31; clamp_plus = 2 ^ 31 - 1 })
      nptr base

-- The value without a sign is cut off to the 32 bits of `unsigned long`.
unfoldable pub strtoll : List ℕ → ℕ → ℕ × List ℕ
unfolding strtox
strtoll nptr base =
    strtox (record { bits = 64; clamp = 2 ^ 32 - 1; clamp_minus = 2 ^ 63; clamp_plus = 2 ^ 63 - 1 })
      nptr base
