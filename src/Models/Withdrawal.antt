-- ===== src/Models/Withdrawal.antt =====
-- `WithdrawalStatus` of crates/database/src/models.rs, and the transition trigger of
-- migrations/0005_withdrawals.sql that the code mirrors.
use chain_rail.Base.{Bool, true, false, Text, codes, text_eq, if◌then◌else◌, List, [], ◌∷◌, any}
use chain_rail.Common.Error.{Error}
use chain_rail.Common.Result.{Result, ok, err}

pub data WithdrawalStatus : Type 0 where
  requested validated approved signing broadcast confirming : WithdrawalStatus
  completed failed cancelled : WithdrawalStatus

unfoldable pub as_str : WithdrawalStatus → Text
as_str WithdrawalStatus.requested = codes "requested"
as_str WithdrawalStatus.validated = codes "validated"
as_str WithdrawalStatus.approved = codes "approved"
as_str WithdrawalStatus.signing = codes "signing"
as_str WithdrawalStatus.broadcast = codes "broadcast"
as_str WithdrawalStatus.confirming = codes "confirming"
as_str WithdrawalStatus.completed = codes "completed"
as_str WithdrawalStatus.failed = codes "failed"
as_str WithdrawalStatus.cancelled = codes "cancelled"

unfoldable pub from_str : Text → Result WithdrawalStatus
from_str s =
    if text_eq s (codes "requested")
    then ok WithdrawalStatus.requested
    else if text_eq s (codes "validated")
    then ok WithdrawalStatus.validated
    else if text_eq s (codes "approved")
    then ok WithdrawalStatus.approved
    else if text_eq s (codes "signing")
    then ok WithdrawalStatus.signing
    else if text_eq s (codes "broadcast")
    then ok WithdrawalStatus.broadcast
    else if text_eq s (codes "confirming")
    then ok WithdrawalStatus.confirming
    else if text_eq s (codes "completed")
    then ok WithdrawalStatus.completed
    else if text_eq s (codes "failed")
    then ok WithdrawalStatus.failed
    else if text_eq s (codes "cancelled")
    then ok WithdrawalStatus.cancelled
    else err Error.validation

abbrev pub is_terminal : WithdrawalStatus → Bool
is_terminal WithdrawalStatus.completed = true
is_terminal WithdrawalStatus.failed = true
is_terminal WithdrawalStatus.cancelled = true
is_terminal _ = false

abbrev pub funds_may_have_left : WithdrawalStatus → Bool
funds_may_have_left WithdrawalStatus.broadcast = true
funds_may_have_left WithdrawalStatus.confirming = true
funds_may_have_left WithdrawalStatus.completed = true
funds_may_have_left _ = false

abbrev pub same_status : WithdrawalStatus → WithdrawalStatus → Bool
same_status WithdrawalStatus.requested WithdrawalStatus.requested = true
same_status WithdrawalStatus.validated WithdrawalStatus.validated = true
same_status WithdrawalStatus.approved WithdrawalStatus.approved = true
same_status WithdrawalStatus.signing WithdrawalStatus.signing = true
same_status WithdrawalStatus.broadcast WithdrawalStatus.broadcast = true
same_status WithdrawalStatus.confirming WithdrawalStatus.confirming = true
same_status WithdrawalStatus.completed WithdrawalStatus.completed = true
same_status WithdrawalStatus.failed WithdrawalStatus.failed = true
same_status WithdrawalStatus.cancelled WithdrawalStatus.cancelled = true
same_status _ _ = false

-- The `match` of `can_transition_to`.
abbrev withdrawal_edge : WithdrawalStatus → WithdrawalStatus → Bool
withdrawal_edge WithdrawalStatus.requested WithdrawalStatus.validated = true
withdrawal_edge WithdrawalStatus.requested WithdrawalStatus.failed = true
withdrawal_edge WithdrawalStatus.requested WithdrawalStatus.cancelled = true
withdrawal_edge WithdrawalStatus.validated WithdrawalStatus.approved = true
withdrawal_edge WithdrawalStatus.validated WithdrawalStatus.failed = true
withdrawal_edge WithdrawalStatus.validated WithdrawalStatus.cancelled = true
withdrawal_edge WithdrawalStatus.approved WithdrawalStatus.signing = true
withdrawal_edge WithdrawalStatus.approved WithdrawalStatus.failed = true
withdrawal_edge WithdrawalStatus.approved WithdrawalStatus.cancelled = true
withdrawal_edge WithdrawalStatus.signing WithdrawalStatus.broadcast = true
withdrawal_edge WithdrawalStatus.signing WithdrawalStatus.failed = true
withdrawal_edge WithdrawalStatus.broadcast WithdrawalStatus.confirming = true
withdrawal_edge WithdrawalStatus.broadcast WithdrawalStatus.completed = true
withdrawal_edge WithdrawalStatus.broadcast WithdrawalStatus.failed = true
withdrawal_edge WithdrawalStatus.confirming WithdrawalStatus.completed = true
withdrawal_edge WithdrawalStatus.confirming WithdrawalStatus.failed = true
withdrawal_edge _ _ = false

unfoldable pub can_transition_to : WithdrawalStatus → WithdrawalStatus → Bool
can_transition_to from next = if same_status from next then true else withdrawal_edge from next

unfoldable pub transition_to : WithdrawalStatus → WithdrawalStatus → Result WithdrawalStatus
unfolding can_transition_to
transition_to from next =
    if can_transition_to from next then ok next else err Error.invalid_state_transition

-- The `CASE` of the trigger `withdrawals_guard_transition`, on the stored texts.
allowed_after : Text → List Text
allowed_after s =
    if text_eq s (codes "requested")
    then codes "validated" ∷ codes "failed" ∷ codes "cancelled" ∷ []
    else if text_eq s (codes "validated")
    then codes "approved" ∷ codes "failed" ∷ codes "cancelled" ∷ []
    else if text_eq s (codes "approved")
    then codes "signing" ∷ codes "failed" ∷ codes "cancelled" ∷ []
    else if text_eq s (codes "signing")
    then codes "broadcast" ∷ codes "failed" ∷ []
    else if text_eq s (codes "broadcast")
    then codes "confirming" ∷ codes "completed" ∷ codes "failed" ∷ []
    else if text_eq s (codes "confirming")
    then codes "completed" ∷ codes "failed" ∷ []
    else []

-- Whether the trigger lets a row go from one status text to another.
unfoldable pub guard_transition : Text → Text → Bool
unfolding allowed_after
guard_transition old new = if text_eq new old then true else any (text_eq new) (allowed_after old)
