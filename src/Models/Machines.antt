-- ===== src/Models/Machines.antt =====
-- What the state machines of crates/database/src/models.rs promise: agreement with the database
-- trigger, a way of life that only moves forward, and texts that read back.
use chain_rail.Base.{◌≡◌, refl, Bool, true, ◌⊎◌, inl, inr, arith, ◌∙◌, ◌||◌}
use chain_rail.Common.Result.{ok}
use chain_rail.Models.Deposit.{DepositStatus, same_deposit_status}
use chain_rail.Models.Deposit
use chain_rail.Models.Withdrawal.{
  WithdrawalStatus, same_status, guard_transition, funds_may_have_left, is_terminal,
}
use chain_rail.Models.Withdrawal
use chain_rail.Models.AccountType.{AccountType}
use chain_rail.Models.AccountType

-- The Rust state machine and the database trigger agree on all 81 ordered pairs of statuses.
pub can_transition_to-guard_transition :
    (from next : WithdrawalStatus)
    → Withdrawal.can_transition_to from next
      ≡ guard_transition (Withdrawal.as_str from) (Withdrawal.as_str next)
unfolding Withdrawal.can_transition_to guard_transition Withdrawal.as_str
can_transition_to-guard_transition WithdrawalStatus.requested WithdrawalStatus.requested = refl
can_transition_to-guard_transition WithdrawalStatus.requested _ = refl
can_transition_to-guard_transition WithdrawalStatus.validated WithdrawalStatus.requested = refl
can_transition_to-guard_transition WithdrawalStatus.validated _ = refl
can_transition_to-guard_transition WithdrawalStatus.approved WithdrawalStatus.requested = refl
can_transition_to-guard_transition WithdrawalStatus.approved _ = refl
can_transition_to-guard_transition WithdrawalStatus.signing WithdrawalStatus.requested = refl
can_transition_to-guard_transition WithdrawalStatus.signing _ = refl
can_transition_to-guard_transition WithdrawalStatus.broadcast WithdrawalStatus.requested = refl
can_transition_to-guard_transition WithdrawalStatus.broadcast _ = refl
can_transition_to-guard_transition WithdrawalStatus.confirming WithdrawalStatus.requested = refl
can_transition_to-guard_transition WithdrawalStatus.confirming _ = refl
can_transition_to-guard_transition WithdrawalStatus.completed WithdrawalStatus.requested = refl
can_transition_to-guard_transition WithdrawalStatus.completed _ = refl
can_transition_to-guard_transition WithdrawalStatus.failed WithdrawalStatus.requested = refl
can_transition_to-guard_transition WithdrawalStatus.failed _ = refl
can_transition_to-guard_transition WithdrawalStatus.cancelled WithdrawalStatus.requested = refl
can_transition_to-guard_transition WithdrawalStatus.cancelled _ = refl

-- Every status reads back from its text.
pub withdrawal_status_texts :
    (s : WithdrawalStatus) → Withdrawal.from_str (Withdrawal.as_str s) ≡ ok s
unfolding Withdrawal.from_str Withdrawal.as_str
withdrawal_status_texts WithdrawalStatus.requested = refl
withdrawal_status_texts _ = refl

-- Every deposit status reads back from its text.
pub deposit_status_texts : (s : DepositStatus) → Deposit.from_str (Deposit.as_str s) ≡ ok s
unfolding Deposit.from_str Deposit.as_str
deposit_status_texts DepositStatus.observed = refl
deposit_status_texts _ = refl

-- Every account type reads back from its text.
pub account_type_texts : (t : AccountType) → AccountType.from_str (AccountType.as_str t) ≡ ok t
unfolding AccountType.from_str AccountType.as_str
account_type_texts AccountType.user_available = refl
account_type_texts _ = refl

-- The life of a withdrawal: each status follows from the one before by a permitted transition.
pub data Life (s : WithdrawalStatus) : WithdrawalStatus → Type 0 where
  here : Life s s
  next : {t u : WithdrawalStatus} → Life s t → Withdrawal.can_transition_to t u ≡ true → Life s u

-- Whether a life has been in a status.
abbrev pub passes : {s t : WithdrawalStatus} → WithdrawalStatus → Life s t → Bool
passes {s} b here = same_status s b
passes b (next {t} {u} l h) = same_status u b || passes b l

step-funds :
    (t u : WithdrawalStatus)
    → Withdrawal.can_transition_to t u ≡ true
    → funds_may_have_left u ≡ true
    → (funds_may_have_left t ≡ true) ⊎ (same_status u WithdrawalStatus.broadcast ≡ true)
unfolding Withdrawal.can_transition_to
step-funds t u h f = ground arith

-- A withdrawal that was requested, and of which funds may have left, has been through `broadcast`:
-- no permitted life completes or waits for confirmations without a recorded broadcast.
pub funds_need_broadcast :
    {t : WithdrawalStatus} (l : Life WithdrawalStatus.requested t)
    → funds_may_have_left t ≡ true
    → passes WithdrawalStatus.broadcast l ≡ true
funds_need_broadcast here f = cc
funds_need_broadcast (next {t} {u} l h) f = elim (step-funds t u h f) [
  | inl before ↦ ground (arith, funds_need_broadcast l before)
  | inr now ↦ ground arith
]

step-gone :
    (t u : WithdrawalStatus)
    → Withdrawal.can_transition_to t u ≡ true
    → (funds_may_have_left t ≡ true) ⊎ (t ≡ WithdrawalStatus.failed)
    → (funds_may_have_left u ≡ true) ⊎ (u ≡ WithdrawalStatus.failed)
unfolding Withdrawal.can_transition_to
step-gone t u h f = ground arith

-- Once funds may have left, a withdrawal is never again in a status from which it could be
-- cancelled or re-signed: all that can follow is broadcast, confirming, completed or failed.
pub gone_stays_gone :
    {s t : WithdrawalStatus}
    → Life s t
    → funds_may_have_left s ≡ true
    → (funds_may_have_left t ≡ true) ⊎ (t ≡ WithdrawalStatus.failed)
gone_stays_gone here f = inl f
gone_stays_gone (next {t} {u} l h) f = step-gone t u h (gone_stays_gone l f)

step-terminal :
    (t u : WithdrawalStatus)
    → Withdrawal.can_transition_to t u ≡ true
    → is_terminal t ≡ true
    → u ≡ t
unfolding Withdrawal.can_transition_to
step-terminal t u h f = ground arith

-- A completed, failed or cancelled withdrawal stays what it is.
pub terminal_absorbs : {s t : WithdrawalStatus} → Life s t → is_terminal s ≡ true → t ≡ s
terminal_absorbs here f = refl
terminal_absorbs {s} (next {t} {u} l h) f =
    let same = terminal_absorbs l f in step-terminal t u h (rw same f) ∙ same
