-- ===== src/Common/Money/Parse.antt =====
-- The parsers and the printer of amounts (crates/common/src/money.rs), over texts as code points,
-- with the parts of Rust's standard library that they call: `trim`, `trim_start_matches`,
-- `i128::from_str_radix` and the printing of an integer in decimal.
pub mod Laws
use chain_rail.Base.{
  ℕ, zero, suc, ◌+◌, ◌-◌, ◌*◌, ◌/◌, ◌%◌, ◌^◌, ◌<◌, Bool, true, false, ◌&&◌, ◌||◌, List, [], ◌∷◌,
  Option, none, some, ℤ, pos, negsuc, sub_ℕ, ltb, leb, ◌==◌, if◌then◌else◌, Text, length, bind,
}
use chain_rail.Common.Error.{Error}
use chain_rail.Common.Result.{Result, ok, err, ok_or}
use chain_rail.Common.Money.{Amount}

abbrev between : ℕ → ℕ → ℕ → Bool
between lo hi c = leb lo c && leb c hi

-- `char::is_whitespace`: the code points with the property White_Space.
unfoldable pub is_whitespace : ℕ → Bool
is_whitespace c =
    between 9 13 c
    || c == 32
    || c == 0x85
    || c == 0xa0
    || c == 0x1680
    || between 0x2000 0x200a c
    || c == 0x2028
    || c == 0x2029
    || c == 0x202f
    || c == 0x205f
    || c == 0x3000

unfoldable pub trim_start : Text → Text
trim_start [] = []
trim_start (c ∷ s) = let rest = trim_start s in if is_whitespace c then rest else c ∷ s

-- A character in front of a trimmed text stays if it is no white space, or if something stays
-- behind it.
unfoldable pub keep : ℕ → Text → Text
unfolding is_whitespace
keep c [] = if is_whitespace c then [] else c ∷ []
keep c (d ∷ r) = c ∷ d ∷ r

unfoldable pub trim_end : Text → Text
unfolding keep
trim_end [] = []
trim_end (c ∷ s) = keep c (trim_end s)

-- `str::trim`
unfoldable pub trim : Text → Text
unfolding trim_start trim_end
trim s = trim_end (trim_start s)

-- `str::trim_start_matches` with a pattern of one and of two characters: every leading copy goes.
trim_start_char : ℕ → Text → Text
trim_start_char a [] = []
trim_start_char a (c ∷ s) = let rest = trim_start_char a s in if c == a then rest else c ∷ s

unfoldable pub trim_start_pair : ℕ → ℕ → Text → Text
trim_start_pair a b [] = []
trim_start_pair a b (c ∷ []) = c ∷ []
trim_start_pair a b (c ∷ d ∷ s) =
    let rest = trim_start_pair a b s in if c == a && d == b then rest else c ∷ d ∷ s

-- `char::to_digit`
unfoldable pub digit_in : ℕ → ℕ → Option ℕ
digit_in radix d = if ltb d radix then some d else none

unfoldable pub to_digit : ℕ → ℕ → Option ℕ
unfolding digit_in
to_digit radix c =
    if between b'0' b'9' c
    then digit_in radix (c - b'0')
    else if between b'a' b'z' c
    then digit_in radix (c - b'a' + 10)
    else if between b'A' b'Z' c
    then digit_in radix (c - b'A' + 10)
    else none

-- The value of a text of digits behind the value `acc` of those read.
unfoldable pub parse_digits : ℕ → ℕ → Text → Option ℕ
unfolding to_digit
parse_digits radix acc [] = some acc
parse_digits radix acc (c ∷ s) = elim (to_digit radix c) [
  | none ↦ none
  | some d ↦ parse_digits radix (acc * radix + d) s
]

-- One digit at least.
unfoldable pub digits_of : ℕ → Text → Option ℕ
unfolding parse_digits
digits_of radix [] = none
digits_of radix (c ∷ s) = parse_digits radix 0 (c ∷ s)

-- The result is in the range of `i128`, or it is an error.
abbrev positive_i128 : ℕ → Option ℤ
positive_i128 n = if ltb n (2 ^ 127) then some (pos n) else none

abbrev negative_i128 : ℕ → Option ℤ
negative_i128 n = if leb n (2 ^ 127) then some (sub_ℕ 0 n) else none

-- `i128::from_str_radix`: a sign of either kind, then digits.
pub from_str_radix : ℕ → Text → Option ℤ
from_str_radix radix [] = none
from_str_radix radix (c ∷ s) =
    if c == b'-'
    then bind (digits_of radix s) negative_i128
    else if c == b'+'
    then bind (digits_of radix s) positive_i128
    else bind (digits_of radix (c ∷ s)) positive_i128

abbrev starts_with_char : ℕ → Text → Bool
starts_with_char a [] = false
starts_with_char a (c ∷ s) = c == a

abbrev is_empty : Text → Bool
is_empty [] = true
is_empty (c ∷ s) = false

-- The body of `Amount::from_u256_decimal_str` on the trimmed text.
decimal_amount : Text → Result Amount
decimal_amount s =
    if is_empty s
    then err Error.invalid_amount
    else if starts_with_char b'-' s
    then err Error.invalid_amount
    else ok_or (from_str_radix 10 s) Error.amount_exceeds_representable_range

-- `Amount::from_u256_decimal_str`
pub from_u256_decimal_str : Text → Result Amount
from_u256_decimal_str s = decimal_amount (trim s)

-- The body of `Amount::from_hex_quantity` on the text without its prefixes.
hex_amount : Text → Result Amount
hex_amount s =
    if is_empty s
    then ok (pos 0)
    else if ltb 31 (length s) && ltb 31 (length (trim_start_char b'0' s))
    then err Error.amount_exceeds_representable_range
    else ok_or (from_str_radix 16 s) Error.amount_exceeds_representable_range

-- `Amount::from_hex_quantity`
pub from_hex_quantity : Text → Result Amount
from_hex_quantity s = hex_amount (trim_start_pair b'0' b'X' (trim_start_pair b'0' b'x' (trim s)))

-- `Amount::from_str`
pub from_str : Text → Result Amount
from_str s = ok_or (from_str_radix 10 (trim s)) Error.invalid_amount

-- The decimal digits of a number, in front of those written; `suc n` is fuel enough.
digits_before : ℕ → ℕ → Text → Text
digits_before zero n out = out
digits_before (suc f) n out =
    let out' = (n % 10 + b'0') ∷ out in
    let rest = digits_before f (n / 10) out' in if ltb n 10 then out' else rest

pub decimal : ℕ → Text
unfolding digits_before
decimal n = digits_before (suc n) n []

-- `Display for Amount`, which `Serialize` and the idempotency fingerprint also print.
pub display : Amount → Text
display (pos n) = decimal n
display (negsuc n) = b'-' ∷ decimal (suc n)
