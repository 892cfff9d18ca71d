-- ===== src/Settlement/Evidence.antt =====
-- vela-relay-core/src/settlement.rs: what proves a payment, why one is refused, and what a payment
-- is priced at.
use vela_relay.Prelude.{
  ℕ, zero, suc, ◌+◌, ◌*◌, ◌/◌, ◌%◌, ◌^◌, Option, none, some, max, ltb, leb, ◌==◌, ◌||◌, ◌&&◌, not,
  Bool, true, false, if◌then◌else◌, List, [], ◌∷◌, ◌++◌, length, all, any, map,
}
use vela_relay.Prelude
use vela_relay.Prelude.Words.{u256_mod, checked_add, checked_mul, saturating_sub}
use vela_relay.Prelude.Text.{Text, codes, digits_of}
use vela_relay.Prelude.Result.{Result, ok, err}
use vela_relay.Abi.{Alloy}
use vela_relay.Rejection.{RejectionReason, fee_payment_invalid, fee_below_minimum, fee_below_market}
use vela_relay.Funding.{usd_price_scale}
use vela_relay.Settlement.{
  SettlementError, invalid_configuration, arithmetic_overflow, missing_native_usd_price,
}
use vela_relay.Settlement.Calldata.{
  Bytes, Address, Reimbursement, ReimbursementParseError, parse_reimbursement, be_value,
}
use vela_relay.Settlement.Evaluation.{SettlementEvaluation, ChainAssetConfig, is_shortfall}
use vela_relay.Settlement.Decision.{SettlementDecisionError, cost_overflow, evaluation_failed}

pub record SettlementLog : Type 0 where
  pub address : Address
  pub topics : List ℕ
  pub log_data : Bytes

-- Three topics: the signature, and the words of the sender and of the recipient.
has_topics : List ℕ → ℕ → Address → Address → Bool
has_topics (signature ∷ from ∷ to ∷ []) transfer sender recipient =
    signature == transfer && from == sender && to == recipient
has_topics _ transfer sender recipient = false

unfoldable pub proves_transfer : ℕ → Address → Address → Address → SettlementLog → Bool
unfolding has_topics
proves_transfer transfer token sender recipient log =
    log.address == token
    && has_topics log.topics transfer sender recipient
    && length log.log_data == 32

-- The loop over the logs: none when the amounts do not add up.
unfoldable pub paid_by_logs : ℕ → Address → Address → Address → ℕ → List SettlementLog → Option ℕ
unfolding proves_transfer
paid_by_logs transfer token sender recipient actual [] = some actual
paid_by_logs transfer token sender recipient actual (log ∷ logs) =
    if proves_transfer transfer token sender recipient log
    then Prelude.◌>>=◌ (checked_add u256_mod actual (be_value 0 log.log_data))
        (λ total. paid_by_logs transfer token sender recipient total logs)
    else paid_by_logs transfer token sender recipient actual logs

covers : Option ℕ → ℕ → Bool
covers none expected = false
covers (some actual) expected = leb expected actual

unfoldable pub is_proven : ℕ → Address → Address → List SettlementLog → Address × ℕ → Bool
unfolding covers paid_by_logs
is_proven transfer sender recipient logs (token, expected) =
    covers (paid_by_logs transfer token sender recipient 0 logs) expected

unfoldable pub verify_stable_transfer_logs :
    Alloy → Reimbursement → Address → Address → List SettlementLog → Bool
unfolding is_proven
verify_stable_transfer_logs alloy reimbursement sender recipient logs =
    all
      (is_proven (alloy.keccak256 (codes "Transfer(address,address,uint256)")) sender recipient
        logs)
      reimbursement.stablecoins

unfoldable pub settlement_rejection_reason : ℕ → ℕ → Bool → Text
settlement_rejection_reason paid required stable_logs_valid =
    if ltb paid required
    then codes "in-band reimbursement is below the required amount: paid="
      ++ digits_of paid
      ++ codes ", required="
      ++ digits_of required
      ++ codes ", shortfall="
      ++ digits_of (saturating_sub required paid)
    else if not stable_logs_valid
    then codes
        "in-band reimbursement transfer logs do not prove payment to the settlement recipient"
    else codes "in-band reimbursement was rejected"

unfoldable pub settlement_rejection_code : SettlementEvaluation → Bool → RejectionReason
settlement_rejection_code evaluation stable_logs_valid =
    if not stable_logs_valid || not (is_shortfall evaluation) || evaluation.paid_amount == 0
    then fee_payment_invalid
    else if ltb evaluation.paid_amount evaluation.minimum_amount
    then fee_below_minimum
    else fee_below_market

unfoldable pub error_text : SettlementError → Text
error_text (invalid_configuration message) = message
error_text arithmetic_overflow = codes "settlement arithmetic overflow"
error_text missing_native_usd_price = codes "missing Binance native USD price"

unfoldable pub decision_error_text : SettlementDecisionError → Text
unfolding error_text
decision_error_text cost_overflow = codes "bundle native cost overflow"
decision_error_text (evaluation_failed error) = error_text error

unfoldable pub is_gnosis_chain : ℕ → Bool
is_gnosis_chain chain_id = chain_id == 100

unfoldable pub is_arc_chain : ℕ → Bool
is_arc_chain chain_id = chain_id == 5_042 || chain_id == 5_042_002

unfoldable pub pegged_native_usd_price : ℕ → Option ℕ
unfolding is_gnosis_chain is_arc_chain
pegged_native_usd_price chain_id =
    if is_gnosis_chain chain_id || is_arc_chain chain_id || chain_id == 988
    then some usd_price_scale
    else none

unfoldable pub marked_tempo_cost : ℕ → ℕ → Option ℕ
marked_tempo_cost cost markup_bps =
    Prelude.◌>>=◌ (checked_mul u256_mod cost markup_bps) (λ numerator.
      Prelude.◌>>=◌
        (checked_add u256_mod (numerator / 10_000) (if numerator % 10_000 == 0 then 0 else 1))
        (λ marked. some (max marked (10 ^ 4))))

pays_stablecoin : Result ReimbursementParseError Reimbursement → Bool
pays_stablecoin (err error) = false
pays_stablecoin (ok reimbursement) = not (length reimbursement.stablecoins == 0)

unfoldable pub has_stablecoin_payment : Address → ChainAssetConfig → List Bytes → Bool
unfolding pays_stablecoin parse_reimbursement
has_stablecoin_payment recipient chain_assets call_datas =
    any
      (λ call_data.
        pays_stablecoin (
          parse_reimbursement call_data recipient
            (map (λ entry. entry.0) chain_assets.stablecoins)))
      call_datas
