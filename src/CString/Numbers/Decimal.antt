-- ===== src/CString/Numbers/Decimal.antt =====
-- The conversions read what is written in decimal.
use flightos.Common.{
  ℕ, zero, suc, ◌+◌, ◌-◌, ◌*◌, ◌/◌, ◌%◌, ◌^◌, ◌≤◌, ◌<◌, ◌≡◌, refl, ap, ◌∙◌, inl, inr, Bool, true,
  false, ◌&&◌, ◌||◌, some, List, [], ◌∷◌, ◌++◌, map, arith, ltb, leb, ◌==◌, if◌then◌else◌, ltb→lt,
  Bool-cases, All, All-append,
}
use flightos.Log2.{kfls}
use flightos.CString.{first}
use flightos.CString.Numbers.{
  isspace, skip_spaces, atoi_loop, atoi, digit, Width, next_res, digit_loop, base_of, finish,
  strtox, strtol,
}

-- The value of a list of digits behind a number, and the text of it.
abbrev value : ℕ → List ℕ → ℕ
value n [] = n
value n (d ∷ ds) = value (n * 10 + d) ds

abbrev text : List ℕ → List ℕ
text ds = map (λ d. 48 + d) ds

abbrev AreDigits : List ℕ → Type 0
AreDigits ds = All (λ d. d < 10) ds

value-le : (n : ℕ) (ds : List ℕ) → n ≤ value n ds
value-le n [] = omega arith
value-le n (d ∷ ds) = omega (arith, value-le (n * 10 + d) ds)

atoi_digit : (d : ℕ) → d < 10 → (ltb (48 + d) 48 || ltb 9 (48 + d - 48)) ≡ false
atoi_digit d l = ground arith

atoi_loop-value : (n : ℕ) (ds : List ℕ) → AreDigits ds → atoi_loop n (text ds) ≡ value n ds
unfolding atoi_loop
atoi_loop-value n [] h = refl
atoi_loop-value n (d ∷ ds) (l, h) =
    rw (atoi_digit d l)
      (ap (λ k. atoi_loop (n * 10 + k) (text ds)) (omega arith) ∙ atoi_loop-value (n * 10 + d) ds h)

kfls_ten : kfls 10 ≡ 4
unfolding kfls
kfls_ten = refl

digit_text : (d : ℕ) → d < 10 → digit (48 + d) ≡ some d
unfolding digit
digit_text d l = ground arith

next_res-ten :
    (w : Width) (clamp res d : ℕ)
    → w.bits ≡ 32
    → clamp < 2 ^ 32
    → res * 10 + d ≤ clamp
    → next_res w 10 clamp res d ≡ (true, res * 10 + d)
next_res-ten w clamp res d b c l =
    rw (b, kfls_ten, no_overflow clamp res d l)
      (ap {B = Bool × ℕ} (λ r. (true, r)) (omega (arith, c, l)))
  where
    no_overflow :
        (clamp res d : ℕ)
        → res * 10 + d ≤ clamp
        → (leb (2 ^ 28) res && ltb ((clamp - d) / 10) res) ≡ false
    no_overflow clamp res d l = ground arith

digit_loop-value :
    (w : Width) (clamp n : ℕ) (ds : List ℕ)
    → w.bits ≡ 32
    → clamp < 2 ^ 32
    → AreDigits ds
    → value n ds ≤ clamp
    → digit_loop w 10 clamp n (text ds) ≡ (value n ds, [])
unfolding digit_loop
digit_loop-value w clamp n [] b c h l = refl
digit_loop-value w clamp n (d ∷ ds) b c (k, h) l =
    rw (digit_text d k, next_res-ten w clamp n d b c (omega (arith, l, value-le (n * 10 + d) ds)))
      (rw (below d k) (digit_loop-value w clamp (n * 10 + d) ds b c h l))
  where
    below : (d : ℕ) → d < 10 → leb 10 d ≡ false
    below d k = ground arith

-- The digits of a number, on fuel.
abbrev tens : ℕ → ℕ → List ℕ
tens zero n = []
tens (suc fuel) n =
    let more = tens fuel (n / 10) in if ltb n 10 then n ∷ [] else more ++ (n % 10 ∷ [])

-- The number in decimal; it has fewer digits than the number and one.
abbrev pub decimal : ℕ → List ℕ
decimal n = text (tens (suc n) n)

value-append : (n : ℕ) (ds : List ℕ) (d : ℕ) → value n (ds ++ (d ∷ [])) ≡ value n ds * 10 + d
value-append n [] d = refl
value-append n (e ∷ ds) d = value-append (n * 10 + e) ds d

tens-AreDigits : (fuel n : ℕ) → n < fuel → AreDigits (tens fuel n) × (value 0 (tens fuel n) ≡ n)
tens-AreDigits zero n l = absurd (omega arith)
tens-AreDigits (suc fuel) n l = elim (Bool-cases (ltb n 10)) [
  | inl e ↦ rw e ((ltb→lt n 10 e, tt), omega arith)
  | inr e ↦
      let k : 10 ≤ n = large n e in
      let (h, v) = tens-AreDigits fuel (n / 10) (omega (arith, l, k)) in
      rw e (
        All-append (λ d. d < 10) (tens fuel (n / 10)) (n % 10 ∷ []) h (omega arith, tt),
        value-append 0 (tens fuel (n / 10)) (n % 10) ∙ ap (λ x. x * 10 + n % 10) v ∙ omega arith,
      )
]
  where
    large : (n : ℕ) → ltb n 10 ≡ false → 10 ≤ n
    large n e = ground arith

skip_digits : (ds : List ℕ) → AreDigits ds → skip_spaces (text ds) ≡ text ds
unfolding skip_spaces isspace
skip_digits [] h = refl
skip_digits (d ∷ ds) (l, h) = rw (solid d l) refl
  where
    solid : (d : ℕ) → d < 10 → isspace (48 + d) ≡ false
    solid d l = ground arith

-- No sign is at the head of a list of digits.
unsigned :
    (ds : List ℕ)
    → AreDigits ds
    → ((first (text ds) == 45) ≡ false) × ((first (text ds) == 43) ≡ false)
unsigned [] h = (refl, refl)
unsigned (d ∷ ds) (l, h) = ground (arith, l)

abbrev long : Width
long = record { bits = 32; clamp = 2 ^ 32 - 1; clamp_minus = 2 ^ 31; clamp_plus = 2 ^ 31 - 1 }

module _ (ds : List ℕ) (h : AreDigits ds) where
  atoi-plain : atoi (text ds) ≡ (false, value 0 ds)
  unfolding atoi
  atoi-plain =
      let (a, b) = unsigned ds h in
      rw (skip_digits ds h, a, b) (ap (λ k. (false, k)) (atoi_loop-value 0 ds h))

  atoi-minus : atoi (45 ∷ text ds) ≡ (true, value 0 ds)
  unfolding atoi skip_spaces isspace
  atoi-minus = ap (λ k. (true, k)) (atoi_loop-value 0 ds h)

  strtol-plain :
      value 0 ds ≤ long.clamp → strtol (text ds) 10 ≡ finish long (text ds) false (value 0 ds, [])
  unfolding strtol strtox base_of
  strtol-plain l =
      let (a, b) = unsigned ds h in
      rw (skip_digits ds h, a, b)
        (ap (finish long (text ds) false)
          (digit_loop-value long long.clamp 0 ds refl (omega arith) h l))

  strtol-minus :
      value 0 ds ≤ long.clamp_minus
      → strtol (45 ∷ text ds) 10 ≡ finish long (45 ∷ text ds) true (value 0 ds, [])
  unfolding strtol strtox base_of skip_spaces isspace
  strtol-minus l =
      ap (finish long (45 ∷ text ds) true)
        (digit_loop-value long long.clamp_minus 0 ds refl (omega arith) h l)

-- `atoi` and `strtol` with base 10 read a number below 2^31 that is written in decimal, with or without a minus
-- sign, and `strtol` stops behind it; but for 0, it answers the start of the string.
pub decimal_lem :
    (n : ℕ)
    → n < 2 ^ 31
    → (atoi (decimal n) ≡ (false, n))
      × (atoi (45 ∷ decimal n) ≡ (true, n))
      × (strtol (decimal n) 10 ≡ (n, if n == 0 then decimal n else []))
      × (strtol (45 ∷ decimal n) 10
          ≡ ((2 ^ 32 - n) % 2 ^ 32, if n == 0 then 45 ∷ decimal n else []))
decimal_lem n l =
    let (h, v) = tens-AreDigits (suc n) n (omega arith) in
    let ds = tens (suc n) n in
    (
      atoi-plain ds h ∙ ap {B = Bool × ℕ} (λ k. (false, k)) v,
      atoi-minus ds h ∙ ap {B = Bool × ℕ} (λ k. (true, k)) v,
      strtol-plain ds h (omega (arith, v, l)) ∙ ap (λ k. finish long (text ds) false (k, [])) v,
      strtol-minus ds h (omega (arith, v, l)) ∙ ap (λ k. finish long (45 ∷ text ds) true (k, [])) v,
    )
