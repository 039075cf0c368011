-- ===== src/Time.antt =====
-- kernel/time.c and include/kernel/time.h. Signed numbers are in two's complement: the members of a timespec
-- have 32 bits, a ktime has 64. What overflows wraps.
pub mod Sum
mod Tests
use flightos.Common.{
  ℕ, zero, suc, ◌+◌, ◌-◌, ◌*◌, ◌/◌, ◌%◌, ◌^◌, ◌≤◌, ◌<◌, ◌≡◌, refl, sym, ap, ap₂, subst, ◌∙◌, ◌≡⟨◌⟩◌,
  ◌∎, ◌≢◌, ◌↔◌, ◌⊎◌, inl, inr, Bool, true, false, not, ◌&&◌, ◌||◌, Option, none, some, List, [],
  ◌∷◌, ◌++◌, map, reverse, append-nil, append_assoc, arith, word, ltb, leb, ◌==◌, if◌then◌else◌,
  ltb→lt, lt→ltb, leb→le, le→leb, ==_iff, ==_refl, tests, Bool-cases, Option-cases, of_some, length,
  get_elem?, take, drop, set, All, filter, is_empty, length-append, length-set, get_elem?-set_self,
  get_elem?-set_ne, All-append, All-append_left, All-append_right, All-map, Status, success,
  failure, einval, enomem, enoexec, enodev, enosched, eperm,
}

abbrev pub nsec_per_sec : ℕ
nsec_per_sec = 1000000000

abbrev pub double_word : ℕ
double_word = 2 ^ 64

pub record Timespec : Type 0 where
  pub tv_sec : ℕ
  pub tv_nsec : ℕ

abbrev pub is_negative : ℕ → Bool
is_negative x = leb (2 ^ 31) x

-- The two loops of `timespec_normalise`, on fuel
unfoldable pub carry_loop : ℕ → Timespec → Option Timespec
carry_loop zero t = none
carry_loop (suc fuel) t =
    let next = carry_loop fuel (record {
      tv_sec = (t.tv_sec + 1) % word;
      tv_nsec = (t.tv_nsec + word - nsec_per_sec) % word;
    }) in
    if not (is_negative t.tv_nsec) && leb nsec_per_sec t.tv_nsec then next else some t

unfoldable pub borrow_loop : ℕ → Timespec → Option Timespec
borrow_loop zero t = none
borrow_loop (suc fuel) t =
    let next = borrow_loop fuel (record {
      tv_sec = (t.tv_sec + word - 1) % word;
      tv_nsec = (t.tv_nsec + nsec_per_sec) % word;
    }) in
    if is_negative t.tv_nsec then next else some t

abbrev pub then_borrow : ℕ → Option Timespec → Option Timespec
then_borrow fuel none = none
then_borrow fuel (some t) = borrow_loop fuel t

unfoldable pub normalise : ℕ → Timespec → Option Timespec
unfolding carry_loop borrow_loop
normalise fuel t = then_borrow fuel (carry_loop fuel t)

unfoldable pub add : ℕ → Timespec → Timespec → Option Timespec
unfolding normalise
add fuel t1 t2 =
    normalise fuel (record {
      tv_sec = (t1.tv_sec + t2.tv_sec) % word;
      tv_nsec = (t1.tv_nsec + t2.tv_nsec) % word;
    })

-- `a > b` for signed numbers of 64 bits
abbrev pub greater : ℕ → ℕ → Bool
greater a b = ltb ((b + 2 ^ 63) % double_word) ((a + 2 ^ 63) % double_word)

-- The quotient of a signed number of 64 bits, rounded towards zero
abbrev pub signed_div : ℕ → ℕ → ℕ
signed_div a d =
    if ltb a (2 ^ 63) then a / d else (double_word - (double_word - a) / d) % double_word

-- What a call gives: it stops at its `BUG_ON`, its fuel runs out, or it answers.
pub data Converted : Type 0 where
  bug : Converted
  converted : Option Timespec → Converted

-- `~(1LL << 31) * NSEC_PER_SEC`
abbrev pub largest_ns : ℕ
largest_ns = (double_word - 1 - 2 ^ 31) * nsec_per_sec % double_word

unfoldable pub ns_to_timespec : ℕ → ℕ → Converted
unfolding normalise
ns_to_timespec fuel nsec =
    let sec = signed_div nsec nsec_per_sec % word in
    if nsec == 0
    then converted (some (record { tv_sec = 0; tv_nsec = 0 }))
    else if greater nsec largest_ns
    then bug
    else converted (
        normalise fuel (record {
          tv_sec = sec;
          tv_nsec = (nsec % word + word - sec * nsec_per_sec % word) % word;
        }))

abbrev pub add_converted : ℕ → Timespec → Converted → Converted
add_converted fuel t bug = bug
add_converted fuel t (converted none) = converted none
add_converted fuel t (converted (some u)) = converted (add fuel t u)

unfoldable pub add_ns : ℕ → Timespec → ℕ → Converted
unfolding add ns_to_timespec
add_ns fuel t nsec =
    if nsec == 0 then converted (some t) else add_converted fuel t (ns_to_timespec fuel nsec)

unfoldable pub ktime_set : ℕ → ℕ → ℕ
ktime_set sec nsec = (sec * nsec_per_sec + nsec) % double_word

-- The result is 0, 1, or -1.
unfoldable pub ktime_compare : ℕ → ℕ → ℕ
ktime_compare t1 t2 = if greater t2 t1 then word - 1 else if greater t1 t2 then 1 else 0

unfoldable pub ktime_after : ℕ → ℕ → Bool
unfolding ktime_compare
ktime_after t1 t2 = let c = ktime_compare t1 t2 in not (is_negative c) && not (c == 0)

unfoldable pub ktime_before : ℕ → ℕ → Bool
unfolding ktime_compare
ktime_before t1 t2 = is_negative (ktime_compare t1 t2)

unfoldable pub ktime_add : ℕ → ℕ → ℕ
ktime_add t1 t2 = (t1 + t2) % double_word

unfoldable pub ktime_sub : ℕ → ℕ → ℕ
ktime_sub later earlier = (later + double_word - earlier) % double_word

unfoldable pub ktime_to_us : ℕ → ℕ
ktime_to_us t = signed_div t 1000

unfoldable pub us_to_ktime : ℕ → ℕ
us_to_ktime usec = usec * 1000 % double_word

-- `ktime_get`, with what the clock has read, if there is one
unfoldable pub ktime_get : ℕ → Option (ℕ × ℕ) → ℕ
ktime_get readout_ns none = 0
ktime_get readout_ns (some (sec, nsec)) = (sec * nsec_per_sec + nsec + readout_ns) % double_word
