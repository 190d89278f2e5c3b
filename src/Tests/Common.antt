-- ===== src/Tests/Common.antt =====
-- Amounts, confirmations and delays.
use chain_rail.Base.{
  ◌+◌, ◌*◌, ◌/◌, ◌≤◌, ◌≡◌, refl, ◌↔◌, ◌⊎◌, inl, true, List, [], ◌∷◌, codes, pos, negsuc, sub_ℕ,
  arith, All, ltb, if◌then◌else◌, ◌==◌, ◌^◌,
}
use chain_rail.Common.Error.{Error}
use chain_rail.Common.Result.{ok, err}
use chain_rail.Common.Money.{Amount, Direction, is_positive, entries_balance}
use chain_rail.Common.Money.Balance.{total, entries_balance_sound, entries_balance-total}
use chain_rail.Common.Money.Parse.{
  from_u256_decimal_str, from_hex_quantity, from_str, decimal, display, digits_of, to_digit,
  digit_in, parse_digits,
}
use chain_rail.Common.Money.Parse.Laws.{
  from_u256_decimal_str-decimal, from_str-display, from_hex_quantity_signed,
}
use chain_rail.Common.Finality.{FinalityPolicy, is_confirmed, is_confirmed_iff}
use chain_rail.Common.Retry.{Backoff, delay_with_jitter, exponential, delay_window}

abbrev entries : List (Direction × Amount)
entries = (Direction.debit, pos 100) ∷ (Direction.credit, pos 60) ∷ (Direction.credit, pos 40) ∷ []

balances : entries_balance entries ≡ ok true
balances = entries_balance-total entries (refl, (refl, (refl, tt))) (omega arith)

entries_balance_sound_example :
    All (λ (e : Direction × Amount). is_positive e.1 ≡ true) entries
    × (true ≡ (total Direction.debit entries == total Direction.credit entries))
entries_balance_sound_example = entries_balance_sound entries balances

entries_balance-total_example :
    entries_balance entries ≡ ok (total Direction.debit entries == total Direction.credit entries)
entries_balance-total_example =
    entries_balance-total entries (refl, (refl, (refl, tt))) (omega arith)

from_u256_decimal_str-decimal_example :
    from_u256_decimal_str (decimal 1024)
    ≡ (if ltb 1024 (2 ^ 127) then ok (pos 1024) else err Error.amount_exceeds_representable_range)
from_u256_decimal_str-decimal_example = from_u256_decimal_str-decimal 1024

from_str-display_example : from_str (display (negsuc 41)) ≡ ok (negsuc 41)
from_str-display_example = from_str-display (negsuc 41) refl

from_hex_quantity_signed_example : from_hex_quantity (codes "0x-5") ≡ ok (sub_ℕ 0 5)
unfolding digits_of to_digit digit_in parse_digits
from_hex_quantity_signed_example =
    from_hex_quantity_signed (codes "5") 5 (inl (omega arith, omega arith), tt) (omega arith) refl
      (omega arith)

is_confirmed_iff_example :
    (is_confirmed (FinalityPolicy.confirmations 12) 111 100 ≡ true)
    ↔ ((12 ≤ 1) ⊎ (100 + 12 ≤ 111 + 1))
is_confirmed_iff_example = is_confirmed_iff 12 111 100 (omega arith) (omega arith)

abbrev backoff : Backoff
backoff = record { base = 100; max = 30000; max_attempts = 5; jitter_pct = 20 }

delay_window_example :
    (exponential backoff 3 ≤ 2 * delay_with_jitter backoff 4 (λ n. n / 2))
    × (delay_with_jitter backoff 4 (λ n. n / 2)
        ≤ exponential backoff 3 + exponential backoff 3 / 2 + 1)
delay_window_example = delay_window backoff 3 (λ n. n / 2) (λ n small. omega arith) (omega arith)
