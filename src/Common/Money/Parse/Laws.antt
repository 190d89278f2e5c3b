-- ===== src/Common/Money/Parse/Laws.antt =====
-- Printing an amount and parsing it again, and the sign of what the parsers accept.
use chain_rail.Base.{
  ◌⊎◌, ◌≤ℤ◌, ℕ, zero, suc, ◌+◌, ◌*◌, ◌/◌, ◌%◌, ◌^◌, ◌≤◌, ◌<◌, ◌≡◌, refl, ◌∙◌, ap, true, false, [],
  ◌∷◌, Option, none, some, ℤ, pos, negsuc, sub_ℕ, ltb, if◌then◌else◌, Text, length, All, arith,
  Bool-cases, inl, inr,
}
use chain_rail.Common.Error.{Error}
use chain_rail.Common.Result.{ok, err}
use chain_rail.Common.Money.{Amount, fits_i128}
use chain_rail.Common.Money.Parse.{
  is_whitespace, trim, trim_start, trim_end, to_digit, parse_digits, digits_of, from_str_radix,
  decimal_amount, from_u256_decimal_str, hex_amount, from_hex_quantity, from_str, digits_before,
  decimal, display, trim_start_pair, starts_with_char,
}

abbrev IsVisible : ℕ → Type 0
IsVisible c = is_whitespace c ≡ false

trim_start-visible : (s : Text) → All IsVisible s → trim_start s ≡ s
unfolding trim_start
trim_start-visible [] h = refl
trim_start-visible (c ∷ s) h = rw h.0

trim_end-visible : (s : Text) → All IsVisible s → trim_end s ≡ s
unfolding trim_end
trim_end-visible [] h = refl
trim_end-visible (c ∷ []) h = rw h.0
trim_end-visible (c ∷ d ∷ s) h = rw (trim_end-visible (d ∷ s) h.1)

trim-visible : (s : Text) → All IsVisible s → trim s ≡ s
unfolding trim
trim-visible s h = rw (trim_start-visible s h, trim_end-visible s h)

-- A decimal digit is visible and no sign.
abbrev IsDigit : ℕ → Type 0
IsDigit c = (48 ≤ c) × (c ≤ 57)

IsVisible-of_digit : (c : ℕ) → IsDigit c → IsVisible c
unfolding is_whitespace
IsVisible-of_digit c h = ground arith

All-IsVisible : (s : Text) → All IsDigit s → All IsVisible s
All-IsVisible [] h = tt
All-IsVisible (c ∷ s) h = (IsVisible-of_digit c h.0, All-IsVisible s h.1)

to_digit-decimal : (d : ℕ) → d < 10 → to_digit 10 (d + 48) ≡ some d
unfolding to_digit
to_digit-decimal d h = ground arith

digits_before-digits :
    (f n : ℕ) (out : Text) → All IsDigit out → All IsDigit (digits_before f n out)
unfolding digits_before
digits_before-digits zero n out h = h
digits_before-digits (suc f) n out h =
    let more : All IsDigit ((n % 10 + 48) ∷ out) = ((omega arith, omega arith), h) in
    elim (Bool-cases (ltb n 10)) [
      | inl p ↦ rw p more
      | inr p ↦ rw p (digits_before-digits f (n / 10) ((n % 10 + 48) ∷ out) more)
    ]

parse_digits-step :
    (a d : ℕ) (out : Text)
    → d < 10
    → parse_digits 10 a ((d + 48) ∷ out) ≡ parse_digits 10 (a * 10 + d) out
unfolding parse_digits
parse_digits-step a d out h = rw (to_digit-decimal d h, parse_digits)

-- Reading the digits of `n` from 0 is having read `n`.
parse_digits-digits_before :
    (f n : ℕ) (out : Text)
    → n < f
    → parse_digits 10 0 (digits_before f n out) ≡ parse_digits 10 n out
unfolding digits_before
parse_digits-digits_before zero n out h = absurd (omega arith)
parse_digits-digits_before (suc f) n out h =
    let d = n % 10 in
    let below : d < 10 = omega arith in
    elim (Bool-cases (ltb n 10)) [
      | inl p ↦
          rw p
            (parse_digits-step 0 d out below ∙ ap (λ (v : ℕ). parse_digits 10 v out) (ground arith))
      | inr p ↦ rw p (
          parse_digits-digits_before f (n / 10) ((d + 48) ∷ out) (ground arith)
          ∙ parse_digits-step (n / 10) d out below
          ∙ ap (λ (v : ℕ). parse_digits 10 v out) (omega arith))
    ]

digits_before-cons :
    (f n c : ℕ) (o : Text) → (d : ℕ) × (s : Text) × (digits_before f n (c ∷ o) ≡ d ∷ s)
unfolding digits_before
digits_before-cons zero n c o = (c, o, refl)
digits_before-cons (suc f) n c o = elim (Bool-cases (ltb n 10)) [
  | inl p ↦ (n % 10 + 48, c ∷ o, rw p)
  | inr p ↦ rw p (digits_before-cons f (n / 10) (n % 10 + 48) (c ∷ o))
]

decimal-cons : (n : ℕ) → (d : ℕ) × (s : Text) × (decimal n ≡ d ∷ s)
unfolding decimal
decimal-cons n = elim (Bool-cases (ltb n 10)) [
  | inl p ↦ (n % 10 + 48, [], rw p)
  | inr p ↦ rw p (digits_before-cons n (n / 10) (n % 10 + 48) [])
]

decimal-digits : (n : ℕ) → All IsDigit (decimal n)
unfolding decimal
decimal-digits n = digits_before-digits (suc n) n [] tt

digits_of-decimal : (n : ℕ) → digits_of 10 (decimal n) ≡ some n
unfolding digits_of decimal
digits_of-decimal n =
    let (d, s, e) = decimal-cons n in
    let read : parse_digits 10 0 (decimal n) ≡ some n =
      parse_digits-digits_before (suc n) n [] (omega arith) in
    rw e (rw e at read)

-- What reading the digits of `n` as an `i128` gives.
abbrev in_range : ℕ → Option ℤ
in_range n = if ltb n (2 ^ 127) then some (pos n) else none

from_str_radix-digits :
    (d : ℕ) (s : Text) (n : ℕ)
    → IsDigit d
    → digits_of 10 (d ∷ s) ≡ some n
    → from_str_radix 10 (d ∷ s) ≡ in_range n
unfolding from_str_radix
from_str_radix-digits d s n h e = ground arith

from_str_radix-decimal : (n : ℕ) → from_str_radix 10 (decimal n) ≡ in_range n
from_str_radix-decimal n =
    let (d, s, e) = decimal-cons n in
    let ds = rw e at (decimal-digits n) in
    rw e (from_str_radix-digits d s n ds.0 (rw e at (digits_of-decimal n)))

decimal_amount-digits :
    (d : ℕ) (s : Text) (n : ℕ)
    → IsDigit d
    → from_str_radix 10 (d ∷ s) ≡ in_range n
    → decimal_amount (d ∷ s)
      ≡ (if ltb n (2 ^ 127) then ok (pos n) else err Error.amount_exceeds_representable_range)
unfolding decimal_amount
decimal_amount-digits d s n h e = ground arith

trim-decimal : (n : ℕ) → trim (decimal n) ≡ decimal n
trim-decimal n = trim-visible (decimal n) (All-IsVisible (decimal n) (decimal-digits n))

-- Every chain amount, printed in decimal, is read back as itself if it is below 2^127, and refused
-- as out of range otherwise: never truncated.
pub from_u256_decimal_str-decimal :
    (n : ℕ)
    → from_u256_decimal_str (decimal n)
      ≡ (if ltb n (2 ^ 127) then ok (pos n) else err Error.amount_exceeds_representable_range)
unfolding from_u256_decimal_str
from_u256_decimal_str-decimal n =
    let (d, s, e) = decimal-cons n in
    let ds = rw e at (decimal-digits n) in
    rw (trim-decimal n, e) (decimal_amount-digits d s n ds.0 (rw e at (from_str_radix-decimal n)))

minus-IsVisible : IsVisible b'-'
unfolding is_whitespace
minus-IsVisible = refl

from_str_radix-minus :
    (s : Text) (n : ℕ)
    → digits_of 10 s ≡ some n
    → n ≤ 2 ^ 127
    → from_str_radix 10 (b'-' ∷ s) ≡ some (sub_ℕ 0 n)
unfolding from_str_radix
from_str_radix-minus s n e h = ground arith

-- Printing an amount and parsing the text gives the amount back, for every `i128`, negative ones
-- included.
pub from_str-display : (a : Amount) → fits_i128 a ≡ true → from_str (display a) ≡ ok a
unfolding from_str display
from_str-display (pos n) h = rw (trim-decimal n, from_str_radix-decimal n) (ground arith)
from_str-display (negsuc n) h =
    let ds = decimal-digits (suc n) in
    let read =
      from_str_radix-minus (decimal (suc n)) (suc n) (digits_of-decimal (suc n)) (ground arith) in
    rw
      (
        trim-visible (b'-' ∷ decimal (suc n)) (minus-IsVisible, All-IsVisible (decimal (suc n)) ds),
        read,
      )
      (ground arith)

from_str_radix-unsigned :
    (radix : ℕ) (s : Text) {a : ℤ}
    → starts_with_char b'-' s ≡ false
    → from_str_radix radix s ≡ some a
    → (pos 0 ≤ℤ a) × (fits_i128 a ≡ true)
unfolding from_str_radix
from_str_radix-unsigned radix [] h e = cc
from_str_radix-unsigned radix (c ∷ s) h e = ground arith

decimal_amount-unsigned :
    (s : Text) {a : Amount}
    → decimal_amount s ≡ ok a
    → (starts_with_char b'-' s ≡ false) × (from_str_radix 10 s ≡ some a)
unfolding decimal_amount
decimal_amount-unsigned s h = ground arith

-- Whatever text comes from a chain, an accepted decimal amount is not negative and is an `i128`.
pub from_u256_decimal_str_nonneg :
    (s : Text) {a : Amount} → from_u256_decimal_str s ≡ ok a → (pos 0 ≤ℤ a) × (fits_i128 a ≡ true)
unfolding from_u256_decimal_str
from_u256_decimal_str_nonneg s h =
    let r = decimal_amount-unsigned (trim s) h in from_str_radix-unsigned 10 (trim s) r.0 r.1

abbrev pub IsHexDigit : ℕ → Type 0
IsHexDigit c = (IsDigit c) ⊎ ((97 ≤ c) × (c ≤ 102))

IsVisible-of_hex : (c : ℕ) → IsHexDigit c → IsVisible c
unfolding is_whitespace
IsVisible-of_hex c h = ground arith

All-IsVisible_of_hex : (s : Text) → All IsHexDigit s → All IsVisible s
All-IsVisible_of_hex [] h = tt
All-IsVisible_of_hex (c ∷ s) h = (IsVisible-of_hex c h.0, All-IsVisible_of_hex s h.1)

trim_start_pair-minus : (x : ℕ) (s : Text) → trim_start_pair b'0' x (b'-' ∷ s) ≡ b'-' ∷ s
unfolding trim_start_pair
trim_start_pair-minus x [] = refl
trim_start_pair-minus x (c ∷ s) = refl

prefix-IsVisible : (s : Text) → All IsVisible s → All IsVisible (b'0' ∷ b'x' ∷ b'-' ∷ s)
unfolding is_whitespace
prefix-IsVisible s h = (refl, (refl, (refl, h)))

trim_start_pair-prefix :
    (s : Text) → trim_start_pair b'0' b'x' (b'0' ∷ b'x' ∷ s) ≡ trim_start_pair b'0' b'x' s
unfolding trim_start_pair
trim_start_pair-prefix s = refl

hex_amount-minus :
    (s : Text) (n : ℕ)
    → length s < 31
    → from_str_radix 16 (b'-' ∷ s) ≡ some (sub_ℕ 0 n)
    → hex_amount (b'-' ∷ s) ≡ ok (sub_ℕ 0 n)
unfolding hex_amount
hex_amount-minus s n l e = ground arith

from_str_radix-minus_hex :
    (s : Text) (n : ℕ)
    → digits_of 16 s ≡ some n
    → n ≤ 2 ^ 127
    → from_str_radix 16 (b'-' ∷ s) ≡ some (sub_ℕ 0 n)
unfolding from_str_radix
from_str_radix-minus_hex s n h e = ground arith

-- `from_hex_quantity` takes a sign behind the prefix: "0x-" and at most 30 hexadecimal digits of
-- value n give the amount -n, where the decimal parser refuses every minus sign.
pub from_hex_quantity_signed :
    (s : Text) (n : ℕ)
    → All IsHexDigit s
    → length s < 31
    → digits_of 16 s ≡ some n
    → n ≤ 2 ^ 127
    → from_hex_quantity (b'0' ∷ b'x' ∷ b'-' ∷ s) ≡ ok (sub_ℕ 0 n)
unfolding from_hex_quantity
from_hex_quantity_signed s n h l e m =
    rw
      (
        trim-visible _ (prefix-IsVisible s (All-IsVisible_of_hex s h)),
        trim_start_pair-prefix (b'-' ∷ s),
        trim_start_pair-minus b'x' s,
        trim_start_pair-minus b'X' s,
      )
      (hex_amount-minus s n l (from_str_radix-minus_hex s n e m))
