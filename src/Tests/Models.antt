-- ===== src/Tests/Models.antt =====
-- Lives of a withdrawal, and a withdrawal request before the policy engine.
use chain_rail.Base.{◌≡◌, refl, true, false, ◌⊎◌, [], ◌∷◌, none, some, codes, pos, ◌+ℤ◌}
use chain_rail.Models.Withdrawal.{
  WithdrawalStatus, can_transition_to, guard_transition, funds_may_have_left, is_terminal,
}
use chain_rail.Models.Withdrawal
use chain_rail.Models.Machines.{
  can_transition_to-guard_transition, Life, passes, funds_need_broadcast, gone_stays_gone,
}
use chain_rail.Common.Money.Parse.{trim, trim_start, trim_end, is_whitespace}
use chain_rail.Risk.{RiskEngine, RiskInput, new, limit, evaluate, is_denied}
use chain_rail.Risk.Order.{
  rules, first_broken, conclude, evaluate-first_broken, IsPermitted, not_denied-IsPermitted,
}

can_transition_to-guard_transition_example :
    Withdrawal.can_transition_to WithdrawalStatus.signing WithdrawalStatus.cancelled
    ≡ guard_transition (codes "signing") (codes "cancelled")
unfolding Withdrawal.as_str
can_transition_to-guard_transition_example =
    can_transition_to-guard_transition WithdrawalStatus.signing WithdrawalStatus.cancelled

to_signing : Life WithdrawalStatus.requested WithdrawalStatus.signing
unfolding Withdrawal.can_transition_to
to_signing =
    Life.next {t = WithdrawalStatus.approved}
      (Life.next {t = WithdrawalStatus.validated}
        (Life.next {t = WithdrawalStatus.requested} Life.here refl) refl)
      refl

to_completed : Life WithdrawalStatus.broadcast WithdrawalStatus.completed
unfolding Withdrawal.can_transition_to
to_completed =
    Life.next {t = WithdrawalStatus.confirming}
      (Life.next {t = WithdrawalStatus.broadcast} Life.here refl) refl

abbrev whole_life : Life WithdrawalStatus.requested WithdrawalStatus.broadcast
unfolding Withdrawal.can_transition_to
whole_life = Life.next {t = WithdrawalStatus.signing} to_signing refl

funds_need_broadcast_example : passes WithdrawalStatus.broadcast whole_life ≡ true
funds_need_broadcast_example = funds_need_broadcast whole_life refl

gone_stays_gone_example :
    (funds_may_have_left WithdrawalStatus.completed ≡ true)
    ⊎ (WithdrawalStatus.completed ≡ WithdrawalStatus.failed)
gone_stays_gone_example = gone_stays_gone to_completed refl

stays_completed : Life WithdrawalStatus.completed WithdrawalStatus.completed
unfolding Withdrawal.can_transition_to
stays_completed = Life.next {t = WithdrawalStatus.completed} Life.here refl

-- A cap of 50 a request and 80 a day; 40 of 100 asked for, after 30 that day.
abbrev engine : RiskEngine
engine = new (record {
  maintenance_mode = false;
  manual_approval_threshold = [];
  max_per_request = (codes "c:E", pos 50) ∷ [];
  min_per_request = [];
  max_per_user_per_day = (codes "c:E", pos 80) ∷ [];
  max_withdrawals_per_user_per_day = some 5;
  allowed_chains = [];
  destination_denylist = codes "0xbad" ∷ [];
})

abbrev request : RiskInput
request = record {
  chain = codes "c";
  asset_symbol = codes "E";
  amount = pos 40;
  destination_lower = codes "0xgood";
  hot_wallet_lower = some (codes "0xhot");
  available_balance = pos 100;
  daily_total = pos 30;
  daily_count = 1;
  is_foreign_deposit_address = false;
  withdrawals_enabled_for_asset = true;
}

evaluate-first_broken_example :
    evaluate engine request ≡ conclude engine request (first_broken (rules engine request))
evaluate-first_broken_example = evaluate-first_broken engine request

unbroken : first_broken (rules engine request) ≡ none
unfolding ◌+ℤ◌ new limit trim trim_start trim_end is_whitespace
unbroken = refl

not_denied : is_denied (evaluate engine request) ≡ false
unfolding limit new
not_denied = rw (evaluate-first_broken_example, unbroken) refl

not_denied-IsPermitted_example : IsPermitted engine request
not_denied-IsPermitted_example = not_denied-IsPermitted engine request not_denied
