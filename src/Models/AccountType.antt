-- ===== src/Models/AccountType.antt =====
-- `AccountType` of crates/database/src/models.rs.
use chain_rail.Base.{Bool, true, false, ℕ, Text, codes, text_eq, if◌then◌else◌, ◌==◌}
use chain_rail.Common.Error.{Error}
use chain_rail.Common.Result.{Result, ok, err}
use chain_rail.Common.Money.{Direction}

pub data AccountType : Type 0 where
  user_available user_reserved user_deficit : AccountType
  exchange_custody withdrawal_clearing network_fee treasury : AccountType

unfoldable pub as_str : AccountType → Text
as_str AccountType.user_available = codes "user_available"
as_str AccountType.user_reserved = codes "user_reserved"
as_str AccountType.user_deficit = codes "user_deficit"
as_str AccountType.exchange_custody = codes "exchange_custody"
as_str AccountType.withdrawal_clearing = codes "withdrawal_clearing"
as_str AccountType.network_fee = codes "network_fee"
as_str AccountType.treasury = codes "treasury"

unfoldable pub from_str : Text → Result AccountType
from_str s =
    if text_eq s (codes "user_available")
    then ok AccountType.user_available
    else if text_eq s (codes "user_reserved")
    then ok AccountType.user_reserved
    else if text_eq s (codes "user_deficit")
    then ok AccountType.user_deficit
    else if text_eq s (codes "exchange_custody")
    then ok AccountType.exchange_custody
    else if text_eq s (codes "withdrawal_clearing")
    then ok AccountType.withdrawal_clearing
    else if text_eq s (codes "network_fee")
    then ok AccountType.network_fee
    else if text_eq s (codes "treasury")
    then ok AccountType.treasury
    else err Error.validation

abbrev pub normal_balance : AccountType → Direction
normal_balance AccountType.user_available = Direction.credit
normal_balance AccountType.user_reserved = Direction.credit
normal_balance AccountType.treasury = Direction.credit
normal_balance _ = Direction.debit

abbrev pub is_user_scoped : AccountType → Bool
is_user_scoped AccountType.user_available = true
is_user_scoped AccountType.user_reserved = true
is_user_scoped AccountType.user_deficit = true
is_user_scoped _ = false

abbrev pub allows_negative : AccountType → Bool
allows_negative AccountType.withdrawal_clearing = true
allows_negative AccountType.treasury = true
allows_negative _ = false

-- Two types are the same when their stored texts are; the texts are told apart by their rank.
abbrev rank : AccountType → ℕ
rank AccountType.user_available = 0
rank AccountType.user_reserved = 1
rank AccountType.user_deficit = 2
rank AccountType.exchange_custody = 3
rank AccountType.withdrawal_clearing = 4
rank AccountType.network_fee = 5
rank AccountType.treasury = 6

abbrev pub same_type : AccountType → AccountType → Bool
same_type s t = rank s == rank t
