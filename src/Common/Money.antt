-- ===== src/Common/Money.antt =====
-- crates/common/src/money.rs: amounts, checked arithmetic, directions, and the parsers of chain
-- quantities. `Amount` is an `i128`: an integer with the range tests written out.
pub mod Parse
pub mod Balance
use chain_rail.Base.{
  ℕ, ◌^◌, ◌-◌, ◌≡◌, Bool, true, false, List, [], ◌∷◌, Option, none, some, ◌&&◌, if◌then◌else◌, ℤ,
  pos, negsuc, ltb, ltb_ℤ, eqb_ℤ, leb_ℤ, ◌+ℤ◌, ◌-ℤ◌, ◌*ℤ◌, Text, codes,
}
use chain_rail.Common.Error.{Error}
use chain_rail.Common.Result.{Result, ok, err, and_then}

abbrev pub Amount : Type 0
Amount = ℤ

-- Whether an integer is an `i128`: -2^127 ≤ a < 2^127.
abbrev pub fits_i128 : ℤ → Bool
fits_i128 (pos n) = ltb n (2 ^ 127)
fits_i128 (negsuc n) = ltb n (2 ^ 127)

abbrev pub is_zero : Amount → Bool
is_zero a = eqb_ℤ a (pos 0)

abbrev pub is_positive : Amount → Bool
is_positive a = ltb_ℤ (pos 0) a

abbrev pub is_negative : Amount → Bool
is_negative a = ltb_ℤ a (pos 0)

-- What `checked_add` and its kin do with the exact result.
abbrev pub checked : ℤ → Result Amount
checked a = if fits_i128 a then ok a else err Error.amount_overflow

unfoldable pub checked_add : Amount → Amount → Result Amount
checked_add a b = checked (a +ℤ b)

unfoldable pub checked_sub : Amount → Amount → Result Amount
checked_sub a b = checked (a -ℤ b)

unfoldable pub checked_mul_u32 : Amount → ℕ → Result Amount
checked_mul_u32 a n = checked (a *ℤ pos n)

try_fold_add : Amount → List Amount → Result Amount
try_fold_add acc [] = ok acc
try_fold_add acc (x ∷ xs) = and_then (checked_add acc x) (λ acc'. try_fold_add acc' xs)

pub checked_sum : List Amount → Result Amount
unfolding try_fold_add
checked_sum xs = try_fold_add (pos 0) xs

pub data Direction : Type 0 where
  debit credit : Direction

-- `Direction::sign`
abbrev pub sign : Direction → ℤ
sign Direction.debit = pos 1
sign Direction.credit = negsuc 0

-- `Direction::as_str`
abbrev pub as_str : Direction → Text
as_str Direction.debit = codes "debit"
as_str Direction.credit = codes "credit"

abbrev pub same_direction : Direction → Direction → Bool
same_direction Direction.debit Direction.debit = true
same_direction Direction.credit Direction.credit = true
same_direction _ _ = false

-- One step of the loop of `entries_balance` and of `Posting::net`:
-- `net.checked_add(dir.sign().checked_mul(amount)?)?`.
abbrev pub add_signed : ℤ → Direction → Amount → Result ℤ
add_signed net d a = and_then (checked (sign d *ℤ a)) (λ signed. checked_add net signed)

balance_from : ℤ → List (Direction × Amount) → Result Bool
balance_from net [] = ok (is_zero net)
balance_from net ((d, a) ∷ es) =
    let rest = and_then (add_signed net d a) (λ net'. balance_from net' es) in
    if is_positive a then rest else err Error.invalid_amount

-- `entries_balance`
pub entries_balance : List (Direction × Amount) → Result Bool
unfolding balance_from
entries_balance es = balance_from (pos 0) es
