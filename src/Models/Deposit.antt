-- ===== src/Models/Deposit.antt =====
-- `DepositStatus` of crates/database/src/models.rs.
use chain_rail.Base.{Bool, true, false, Text, codes, text_eq, if◌then◌else◌}
use chain_rail.Common.Error.{Error}
use chain_rail.Common.Result.{Result, ok, err}

pub data DepositStatus : Type 0 where
  observed confirming confirmed credited reorged failed : DepositStatus

unfoldable pub as_str : DepositStatus → Text
as_str DepositStatus.observed = codes "observed"
as_str DepositStatus.confirming = codes "confirming"
as_str DepositStatus.confirmed = codes "confirmed"
as_str DepositStatus.credited = codes "credited"
as_str DepositStatus.reorged = codes "reorged"
as_str DepositStatus.failed = codes "failed"

unfoldable pub from_str : Text → Result DepositStatus
from_str s =
    if text_eq s (codes "observed")
    then ok DepositStatus.observed
    else if text_eq s (codes "confirming")
    then ok DepositStatus.confirming
    else if text_eq s (codes "confirmed")
    then ok DepositStatus.confirmed
    else if text_eq s (codes "credited")
    then ok DepositStatus.credited
    else if text_eq s (codes "reorged")
    then ok DepositStatus.reorged
    else if text_eq s (codes "failed")
    then ok DepositStatus.failed
    else err Error.validation

abbrev pub is_terminal : DepositStatus → Bool
is_terminal DepositStatus.credited = true
is_terminal DepositStatus.reorged = true
is_terminal DepositStatus.failed = true
is_terminal _ = false

abbrev pub is_credited : DepositStatus → Bool
is_credited DepositStatus.credited = true
is_credited _ = false

abbrev pub same_deposit_status : DepositStatus → DepositStatus → Bool
same_deposit_status DepositStatus.observed DepositStatus.observed = true
same_deposit_status DepositStatus.confirming DepositStatus.confirming = true
same_deposit_status DepositStatus.confirmed DepositStatus.confirmed = true
same_deposit_status DepositStatus.credited DepositStatus.credited = true
same_deposit_status DepositStatus.reorged DepositStatus.reorged = true
same_deposit_status DepositStatus.failed DepositStatus.failed = true
same_deposit_status _ _ = false

-- The arms behind `(a, b) if a == b => true`.
abbrev deposit_edge : DepositStatus → DepositStatus → Bool
deposit_edge DepositStatus.observed DepositStatus.confirming = true
deposit_edge DepositStatus.observed DepositStatus.confirmed = true
deposit_edge DepositStatus.observed DepositStatus.reorged = true
deposit_edge DepositStatus.observed DepositStatus.failed = true
deposit_edge DepositStatus.confirming DepositStatus.confirmed = true
deposit_edge DepositStatus.confirming DepositStatus.reorged = true
deposit_edge DepositStatus.confirming DepositStatus.failed = true
deposit_edge DepositStatus.confirmed DepositStatus.credited = true
deposit_edge DepositStatus.confirmed DepositStatus.reorged = true
deposit_edge DepositStatus.confirmed DepositStatus.failed = true
deposit_edge DepositStatus.credited DepositStatus.reorged = true
deposit_edge _ _ = false

unfoldable pub can_transition_to : DepositStatus → DepositStatus → Bool
can_transition_to from next = if same_deposit_status from next then true else deposit_edge from next
