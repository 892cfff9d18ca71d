-- ===== src/Execution/TempoBundle.antt =====
-- vela-relay-core/src/execution.rs: a proven bundle on Tempo, whose gas is paid in pathUSD.
use vela_relay.Prelude.{
  ℕ, ◌^◌, ◌||◌, not, Bool, true, false, Option, none, some, List, [], ◌∷◌, map, max, ltb, ◌==◌,
  if◌then◌else◌,
}
use vela_relay.Prelude.Result.{Result, ok, err, ok_or}
use vela_relay.Prelude.Result
use vela_relay.Prelude.Text.{Text, codes}
use vela_relay.Abi.{handle_ops_calldata}
use vela_relay.Cost.{allocate_bundle_gas}
use vela_relay.Rejection.{RejectionReason, fee_payment_invalid, fee_below_minimum, fee_below_market}
use vela_relay.Settlement.Calldata.{
  Bytes, Address, Amounts, Reimbursement, ReimbursementParseError, parse_reimbursement,
}
use vela_relay.Settlement.Evidence.{
  verify_stable_transfer_logs, settlement_rejection_reason, marked_tempo_cost,
}
use vela_relay.Tempo.{
  path_usd_address, tempo_cost_buffer_gas, tempo_float_min, tempo_handle_ops_gas_limit,
  tempo_outer_max_fee, tempo_cost_in_path_usd,
}
use vela_relay.Execution.Operation.{
  TempoSignRequest, unsupported_tempo_fee_token, tempo_settlement_rejected, mark_rejected,
  mark_rejected_with_reason, notify_issue, fetch_tempo_context,
}
use vela_relay.Execution.Readings.{read_unless_failed, read_tempo_context}
use vela_relay.Execution.Sending.{Crates}
use vela_relay.Execution.TempoFunding.{ensure_tempo_funding}
use vela_relay.Execution.Candidates.{Candidate}
use vela_relay.Execution.Results.{
  Lane, ◌>>=◌, ◌>>◌, pure, lift, of, query, tell, durable, emit, record_candidates_deferred,
}
use vela_relay.Execution.Simulation.{ensure_lane_lease}
use vela_relay.Execution.Gate.{Proven}
use vela_relay.Execution.Outbox.{tempo_bundle, tempo_wording, sign_and_broadcast}

names_other_token : Option Address → Bool
names_other_token none = false
names_other_token (some token) = not (token == path_usd_address)

unfoldable pub find_other_token : List Candidate → Option Candidate
unfolding names_other_token
find_other_token [] = none
find_other_token (candidate ∷ candidates) =
    if names_other_token candidate.packed.fee_token
    then some candidate
    else find_other_token candidates

unfoldable pub reject_other_token : Candidate → Lane (Unit {0})
unfolding read_unless_failed
reject_other_token candidate = do
  query
      (mark_rejected candidate.hash_string (unsupported_tempo_fee_token candidate.packed.fee_token))
      read_unless_failed
  durable candidate.result_index

cost_overflow : Text
cost_overflow = codes "Tempo pathUSD cost overflow"

unfoldable pub costs_of : ℕ → List ℕ → Result Text (List ℕ)
unfolding cost_overflow
costs_of base_fee_atto [] = ok []
costs_of base_fee_atto (gas ∷ allocations) =
    Result.◌>>=◌ (ok_or (tempo_cost_in_path_usd gas base_fee_atto) cost_overflow)
      (λ cost. Result.◌>>=◌ (costs_of base_fee_atto allocations) (λ costs. ok (cost ∷ costs)))

-- `stablecoins.get(...)`, or zero.
unfoldable pub amount_of : Address → Amounts → ℕ
amount_of token [] = 0
amount_of token ((key, amount) ∷ entries) = if key == token then amount else amount_of token entries

-- What an operation paid, and whether the logs prove it.
unfoldable pub proven_payment :
    Crates → Proven → Candidate → Result ReimbursementParseError Reimbursement → ℕ × Bool
unfolding amount_of
proven_payment crates b candidate (err error) = (0, false)
proven_payment crates b candidate (ok reimbursement) = (
  amount_of path_usd_address reimbursement.stablecoins,
  verify_stable_transfer_logs crates.alloy reimbursement candidate.packed.sender b.policy.treasury
      b.simulation.logs,
)

unfoldable pub payment_of : Crates → Proven → Candidate → ℕ × Bool
unfolding proven_payment
payment_of crates b candidate =
    proven_payment crates b candidate
      (parse_reimbursement candidate.packed.call_data b.policy.treasury (path_usd_address ∷ []))

unfoldable pub tempo_rejection_code : ℕ → Bool → RejectionReason
tempo_rejection_code paid stable_logs_valid =
    if not stable_logs_valid || paid == 0
    then fee_payment_invalid
    else if ltb paid (10 ^ 4)
    then fee_below_minimum
    else fee_below_market

unfoldable pub reject_tempo_payment : Candidate → ℕ → ℕ → Bool → Lane Bool
unfolding tempo_rejection_code read_unless_failed settlement_rejection_reason
reject_tempo_payment candidate paid required stable_logs_valid = do
  let reason = settlement_rejection_reason paid required stable_logs_valid
  query
      (mark_rejected_with_reason candidate.hash_string (codes "in_band_settlement") reason
        (tempo_rejection_code paid stable_logs_valid))
      read_unless_failed
  durable candidate.result_index
  emit (tempo_settlement_rejected candidate.hash_string paid required stable_logs_valid)
  tell (notify_issue candidate.hash_string (codes "in_band_settlement") reason)
  pure true

unfoldable pub judge_tempo_payment : Crates → Proven → Candidate → ℕ → Lane Bool
unfolding payment_of reject_tempo_payment
judge_tempo_payment crates b candidate cost = do
  let payment = payment_of crates b candidate
  required ← lift (
      ok_or (marked_tempo_cost cost b.chain_assets.settlement_markup_bps)
        (codes "Tempo settlement markup overflow"))
  if ltb payment.0 required || not payment.1
      then reject_tempo_payment candidate payment.0 required payment.1
      else pure false

unfoldable pub judge_tempo_payments : Crates → Proven → List Candidate → List ℕ → Lane Bool
unfolding judge_tempo_payment
judge_tempo_payments crates b (candidate ∷ candidates) (cost ∷ costs) = do
  left ← judge_tempo_payment crates b candidate cost
  rest ← judge_tempo_payments crates b candidates costs
  pure (left || rest)
judge_tempo_payments crates b _ _ = pure false

-- What is known of the outer transaction before it is signed.
pub record TempoOuter : Type 0 where
  pub nonce : ℕ
  pub calldata : Bytes
  pub gas_limit : ℕ
  pub outer_max_fee : ℕ

abbrev pub tempo_sign_request : Proven → TempoOuter → TempoSignRequest
tempo_sign_request b o = record {
  nonce = o.nonce;
  gas_limit = o.gas_limit;
  max_fee_per_gas = o.outer_max_fee;
  entry_point = b.entry_point;
  calldata = o.calldata;
}

abbrev pub tempo_outer_of : ℕ → Bytes → ℕ → ℕ → TempoOuter
tempo_outer_of nonce calldata gas_limit outer_max_fee = record {
  nonce = nonce;
  calldata = calldata;
  gas_limit = gas_limit;
  outer_max_fee = outer_max_fee;
}

unfoldable pub sign_tempo_funded : Crates → Proven → TempoOuter → Bool → Lane (Unit {0})
unfolding ensure_lane_lease sign_and_broadcast record_candidates_deferred
sign_tempo_funded crates b o false =
    record_candidates_deferred b.survivors (codes "funding")
      (codes "waiting for relayer pathUSD funding transaction confirmation")
sign_tempo_funded crates b o true = do
  ensure_lane_lease
  sign_and_broadcast crates tempo_wording b (tempo_bundle (tempo_sign_request b o))
      (record { billed_gas = none; billed_fee_per_gas = none }) o.gas_limit

unfoldable pub fund_tempo_relayer : Crates → Proven → TempoOuter → ℕ → ℕ → Lane Bool
unfolding ensure_tempo_funding
fund_tempo_relayer crates b o balance prefund =
    if ltb balance (max prefund tempo_float_min)
    then of (ensure_tempo_funding crates b.policy b.chain_id balance prefund o.outer_max_fee)
    else pure true

unfoldable pub fund_and_sign_tempo : Crates → Proven → Bytes → ℕ → ℕ → ℕ → Lane (Unit {0})
unfolding cost_overflow fund_tempo_relayer sign_tempo_funded
fund_and_sign_tempo crates b calldata base_fee_atto nonce balance = do
  gas_limit ←
      lift (tempo_handle_ops_gas_limit (map (λ candidate. candidate.packed.packed) b.survivors))
  outer_max_fee ← lift (tempo_outer_max_fee base_fee_atto)
  prefund ← lift (ok_or (tempo_cost_in_path_usd gas_limit outer_max_fee) cost_overflow)
  let o = tempo_outer_of nonce calldata gas_limit outer_max_fee
  ready ← fund_tempo_relayer crates b o balance prefund
  sign_tempo_funded crates b o ready

unfoldable pub price_tempo_bundle : Crates → Proven → Lane (Unit {0})
unfolding read_tempo_context costs_of judge_tempo_payments fund_and_sign_tempo
price_tempo_bundle crates b = do
  let calldata =
      handle_ops_calldata crates.alloy (map (λ candidate. candidate.packed.packed) b.survivors)
        b.policy.treasury
  (base_fee_atto, nonce, balance) ← query fetch_tempo_context read_tempo_context
  allocations ← lift (
      ok_or
        (allocate_bundle_gas b.simulation.gas_used b.simulation.gas_used
          b.simulation.operation_gas_used 0 tempo_cost_buffer_gas)
        (codes "Tempo bundle gas allocation overflow"))
  costs ← lift (costs_of base_fee_atto allocations)
  rejected_any ← judge_tempo_payments crates b b.survivors costs
  if rejected_any
      then pure tt
      else fund_and_sign_tempo crates b calldata base_fee_atto nonce balance

unfoldable pub execute_unless_other : Crates → Proven → Option Candidate → Lane (Unit {0})
unfolding reject_other_token price_tempo_bundle
execute_unless_other crates b (some candidate) = reject_other_token candidate
execute_unless_other crates b none = price_tempo_bundle crates b

unfoldable pub execute_tempo_bundle : Crates → Proven → Lane (Unit {0})
unfolding find_other_token execute_unless_other
execute_tempo_bundle crates b = execute_unless_other crates b (find_other_token b.survivors)
