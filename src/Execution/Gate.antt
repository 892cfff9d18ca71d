-- ===== src/Execution/Gate.antt =====
-- vela-relay-core/src/execution.rs: the settlement gate, which prices a bundle and judges what each
-- of its operations pays.
use vela_relay.Prelude.{
  ℕ, ◌||◌, ◌&&◌, Bool, true, false, Option, none, some, List, ◌∷◌, map, unwrap_or, if◌then◌else◌,
}
use vela_relay.Prelude.Result.{Result, ok, err, ok_or}
use vela_relay.Prelude.Text.{Text, codes}
use vela_relay.Cost.{
  allocate_bundle_gas, declared_bundle_gas, credible_simulated_gas, settlement_gas_rule,
  settlement_gas_allocations, declared_limits,
}
use vela_relay.GasMath.{SubmissionTier, TierTips, resolve}
use vela_relay.GasMath.Fees.{OuterFee}
use vela_relay.Hold.{HoldDecision, hold, reject_budget_exhausted, decide_hold}
use vela_relay.Settlement.Calldata.{Bytes, Address}
use vela_relay.Settlement.Evaluation.{
  ChainAssetConfig, SettlementEvaluation, accepted, is_shortfall,
}
use vela_relay.Settlement.Decision.{
  FeeContext, SettlementDecision, keep_quote, floor_unfundable, reprice, SettlementDecisionError,
  Bundle, decide_submission_fees,
}
use vela_relay.Settlement.Evidence.{
  verify_stable_transfer_logs, settlement_rejection_reason, settlement_rejection_code,
  decision_error_text, pegged_native_usd_price, has_stablecoin_payment,
}
use vela_relay.Execution.Operation.{
  BundleSimulationData, TransactionContext, affordable_market_hold, floor_unfundable_at, repriced,
  submission_tier_cap, hold_budget_exhausted, settlement_rejected, fetch_market_price,
  defer_operation, mark_rejected_with_reason, notify_issue,
}
use vela_relay.Execution.Readings.{read_unless_failed, read_price, read_deferred}
use vela_relay.Execution.Sending.{Crates}
use vela_relay.Execution.Funding.{ExecutionPolicy}
use vela_relay.Execution.Candidates.{Candidate, bundle_submission_tier}
use vela_relay.Execution.Results.{
  Lane, ◌>>=◌, ◌>>◌, pure, lift, query, tell, durable, emit, record_deferred,
}

-- A bundle whose simulation proves it, with what the gate reads of its batch.
pub record Proven : Type 0 where
  pub chain_id : ℕ
  pub lane : ℕ
  pub policy : ExecutionPolicy
  pub chain_assets : ChainAssetConfig
  pub entry_point : Address
  pub survivors : List Candidate
  pub simulation : BundleSimulationData

abbrev pub call_datas_of : List Candidate → List Bytes
call_datas_of survivors = map (λ candidate. candidate.packed.call_data) survivors

gas_overflow : Text
gas_overflow = codes "bundle gas allocation overflow"

unfoldable pub credible_gas : Proven → TransactionContext → ℕ
credible_gas b context =
    credible_simulated_gas b.simulation.gas_used context.estimated_gas
      (declared_bundle_gas (map (λ candidate. candidate.packed.packed) b.survivors))

unfoldable pub limit_allocations : Proven → TransactionContext → Result Text (List ℕ)
unfolding credible_gas gas_overflow
limit_allocations b context =
    ok_or
      (allocate_bundle_gas (credible_gas b context) context.estimated_gas
        b.simulation.operation_gas_used b.policy.gas_buffer_bps b.policy.fixed_gas_buffer)
      gas_overflow

unfoldable pub billed_allocations : Proven → TransactionContext → List ℕ → Result Text (List ℕ)
unfolding credible_gas gas_overflow
billed_allocations b context limits =
    ok_or
      (settlement_gas_allocations (settlement_gas_rule b.chain_id)
        (if b.simulation.full_execution then some (credible_gas b context) else none) limits
        b.simulation.operation_gas_used
        (declared_limits (map (λ candidate. candidate.packed.packed) b.survivors))
        b.policy.gas_buffer_bps b.policy.fixed_gas_buffer)
      gas_overflow

-- One read of the market, but for a coin that is a dollar.
unfoldable pub peg_or_market : Option ℕ → Lane (Result Text ℕ)
unfolding read_price
peg_or_market (some price) = pure (ok price)
peg_or_market none = query fetch_market_price read_price

unfoldable pub market_price_of : ℕ → Lane (Result Text ℕ)
unfolding peg_or_market
market_price_of chain_id = peg_or_market (pegged_native_usd_price chain_id)

-- The price, where there is one; a stablecoin payment cannot be valued without it.
unfoldable pub price_for : Proven → Result Text ℕ → Result Text (Option ℕ)
price_for b (ok price) = ok (some price)
price_for b (err message) =
    if has_stablecoin_payment b.policy.treasury b.chain_assets (call_datas_of b.survivors)
    then err message
    else ok none

unfoldable pub bundle_of : Proven → List ℕ → Option ℕ → Bundle
bundle_of b allocations price = record {
  recipient = b.policy.treasury;
  chain_assets = b.chain_assets;
  call_datas = call_datas_of b.survivors;
  allocations = allocations;
  native_usd_price = price;
}

abbrev no_tips : TierTips
no_tips = record { slow_tip = 0; standard_tip = 0; fast_tip = 0; floor = 0 }

unfoldable pub fee_context : Proven → TransactionContext → FeeContext
unfolding bundle_submission_tier
fee_context b context = record {
  quoted_fee_per_gas = context.max_fee_per_gas;
  base_fee_per_gas = context.base_fee_per_gas;
  max_priority_fee_per_gas = context.max_priority_fee_per_gas;
  inclusion_floor_bps = b.policy.settlement_inclusion_floor_bps;
  requested_tier = bundle_submission_tier b.survivors;
  tier_tips = unwrap_or (resolve context.tip_window context.max_priority_fee_per_gas) no_tips;
}

unfoldable pub decided : {A : Type 0} → Result SettlementDecisionError A → Result Text A
unfolding decision_error_text
decided (ok a) = ok a
decided (err error) = err (decision_error_text error)

unfoldable pub with_outer_fee : OuterFee → FeeContext → FeeContext
with_outer_fee outer fees = record fees {
  quoted_fee_per_gas = outer.max_fee_per_gas;
  max_priority_fee_per_gas = outer.max_priority_fee_per_gas;
}

-- The pair for the speed that was named; it replaces the cap and the tip.
unfoldable pub take_outer : FeeContext → SubmissionTier → Option OuterFee → Lane FeeContext
unfolding with_outer_fee
take_outer fees tier none = pure fees
take_outer fees tier (some outer) = do
  emit (
      submission_tier_cap tier fees.quoted_fee_per_gas outer.max_fee_per_gas fees.base_fee_per_gas
        outer.max_priority_fee_per_gas fees.max_priority_fee_per_gas)
  pure (with_outer_fee outer fees)

unfoldable pub take_tier : Bundle → FeeContext → Option SubmissionTier → Lane FeeContext
unfolding decided take_outer
take_tier bundle fees none = pure fees
take_tier bundle fees (some tier) = do
  decision ← lift (decided (decide_submission_fees bundle fees))
  take_outer fees tier decision

unfoldable pub apply_tier : Bundle → FeeContext → Lane FeeContext
unfolding take_tier
apply_tier bundle fees = take_tier bundle fees fees.requested_tier

-- The evaluation to judge, and the cap to sign.
unfoldable pub take_decision :
    FeeContext → SettlementDecision → Lane (List SettlementEvaluation × ℕ)
take_decision fees (keep_quote evaluation) = pure (evaluation, fees.quoted_fee_per_gas)
take_decision fees (floor_unfundable evaluation affordable floor) = do
  emit (floor_unfundable_at fees.quoted_fee_per_gas affordable floor fees.base_fee_per_gas)
  pure (evaluation, fees.quoted_fee_per_gas)
take_decision fees (reprice fee_per_gas evaluation) = do
  emit (
      repriced fees.quoted_fee_per_gas fee_per_gas fees.base_fee_per_gas
        fees.max_priority_fee_per_gas)
  pure (evaluation, fee_per_gas)

-- One operation's payment, with what it is judged by.
pub record Judged : Type 0 where
  pub candidate : Candidate
  pub evaluation : SettlementEvaluation
  pub stable_logs_valid : Bool

abbrev pub stage : Text
stage = codes "in_band_settlement"

unfoldable pub reject_payment : Judged → Lane Bool
unfolding read_unless_failed settlement_rejection_reason settlement_rejection_code
reject_payment j = do
  let reason =
      settlement_rejection_reason j.evaluation.paid_amount j.evaluation.required_amount
        j.stable_logs_valid
  query
      (mark_rejected_with_reason j.candidate.hash_string stage reason
        (settlement_rejection_code j.evaluation j.stable_logs_valid))
      read_unless_failed
  durable j.candidate.result_index
  emit (
      settlement_rejected j.candidate.hash_string j.evaluation.payment_asset
        j.evaluation.paid_amount j.evaluation.required_amount j.stable_logs_valid)
  tell (notify_issue j.candidate.hash_string stage reason)
  pure true

unfoldable pub judge_hold : Judged → ℕ → HoldDecision → Lane Bool
unfolding reject_payment record_deferred
judge_hold j attempt (hold reason) = do
  record_deferred j.candidate.hash_string (codes "in_band_settlement_hold") reason
  durable j.candidate.result_index
  pure true
judge_hold j attempt reject_budget_exhausted = do
  emit (
      hold_budget_exhausted j.candidate.hash_string attempt j.evaluation.paid_amount
        j.evaluation.required_amount)
  reject_payment j

-- A shortfall is put off; the attempt that the store counts decides for how long.
unfoldable pub judge_deferred : ExecutionPolicy → Judged → Option ℕ → Lane Bool
unfolding judge_hold reject_payment
judge_deferred policy j none = reject_payment j
judge_deferred policy j (some attempt) = judge_hold j attempt (
    decide_hold attempt policy.settlement_hold_max_attempts j.evaluation.paid_amount
      j.evaluation.required_amount)

unfoldable pub hold_or_reject : ExecutionPolicy → Judged → Lane Bool
unfolding judge_deferred read_deferred
hold_or_reject policy j = do
  deferred ← query (defer_operation j.candidate.result_index affordable_market_hold) read_deferred
  judge_deferred policy j deferred

-- Whether the operation leaves the bundle.
unfoldable pub judge_payment : ExecutionPolicy → Judged → Lane Bool
unfolding hold_or_reject reject_payment
judge_payment policy j =
    if accepted j.evaluation && j.stable_logs_valid
    then pure false
    else if is_shortfall j.evaluation && j.stable_logs_valid
    then hold_or_reject policy j
    else reject_payment j

unfoldable pub judged : Crates → Proven → Candidate → SettlementEvaluation → Judged
judged crates b candidate evaluation = record {
  candidate = candidate;
  evaluation = evaluation;
  stable_logs_valid =
      verify_stable_transfer_logs crates.alloy evaluation.reimbursement candidate.packed.sender
        b.policy.treasury b.simulation.logs;
}

-- The loop over the operations: whether any left the bundle.
unfoldable pub judge_payments :
    Crates → Proven → List Candidate → List SettlementEvaluation → Lane Bool
unfolding judge_payment judged
judge_payments crates b (candidate ∷ candidates) (evaluation ∷ evaluations) = do
  left ← judge_payment b.policy (judged crates b candidate evaluation)
  rest ← judge_payments crates b candidates evaluations
  pure (left || rest)
judge_payments crates b _ _ = pure false
