-- ===== src/Execution/NativeBundle.antt =====
-- vela-relay-core/src/execution.rs: a proven bundle on a chain that takes its gas in the native coin,
-- from its price to its signature.
use vela_relay.Prelude.{
  ℕ, ◌*◌, Bool, true, false, Option, none, some, List, [], ◌∷◌, ◌++◌, map, ltb, if◌then◌else◌,
}
use vela_relay.Prelude
use vela_relay.Prelude.Words.{u64_mod, u256_mod, checked, checked_mul}
use vela_relay.Prelude.Result.{Result, ok, err, ok_or}
use vela_relay.Prelude.Result
use vela_relay.Prelude.Text.{Text, codes, digits_of}
use vela_relay.Abi.{handle_ops_calldata}
use vela_relay.Cost.{checked_sum}
use vela_relay.Funding.{native_amount_for_usd_cap, native_top_up_usd_cap}
use vela_relay.GasMath.Fees.{OuterFee, delivers_full_tip_at}
use vela_relay.GasMath.Market.{hex_quantity, hex_word}
use vela_relay.Settlement.Calldata.{Bytes}
use vela_relay.Settlement.Evaluation.{SettlementEvaluation}
use vela_relay.Settlement.Decision.{FeeContext, decide_settlement}
use vela_relay.Execution.Operation.{
  BundleSignRequest, TransactionContext, top_up_cap_usd, top_up_cap_unconvertible,
  fetch_transaction_context,
}
use vela_relay.Execution.Readings.{read_context}
use vela_relay.Execution.Sending.{Crates}
use vela_relay.Execution.Funding.{ensure_native_funding}
use vela_relay.Execution.Candidates.{Candidate}
use vela_relay.Execution.Results.{
  Lane, ◌>>=◌, ◌>>◌, pure, fail, lift, of, query, failed, for_each, emit,
  record_candidates_deferred,
}
use vela_relay.Execution.Simulation.{ensure_lane_lease}
use vela_relay.Execution.Gate.{
  Proven, limit_allocations, billed_allocations, market_price_of, price_for, bundle_of, fee_context,
  apply_tier, decided, take_decision, judge_payments,
}
use vela_relay.Execution.Outbox.{native_bundle, native_wording, sign_and_broadcast}

abbrev pub funding_wait_finish : Text
funding_wait_finish = codes "UserOperation is waiting for its relayer's top-up"

unfoldable pub static_cap : Proven → ℕ
static_cap b = b.policy.top_up_max_wei

-- A transfer's cap: in dollars where there is a price, else the configured one.
unfoldable pub cap_or_static : Proven → Option ℕ → Lane ℕ
unfolding static_cap
cap_or_static b (some cap) = do emit (top_up_cap_usd cap); pure cap
cap_or_static b none = do emit top_up_cap_unconvertible; pure (static_cap b)

unfoldable pub top_up_cap : Proven → Result Text ℕ → Lane ℕ
unfolding static_cap cap_or_static
top_up_cap b (err message) = pure (static_cap b)
top_up_cap b (ok price) =
    cap_or_static b
      (native_amount_for_usd_cap b.chain_assets.native_decimals price native_top_up_usd_cap)

-- What is known of the outer transaction before it is signed.
pub record Outer : Type 0 where
  pub context : TransactionContext
  pub calldata : Bytes
  pub allocations : List ℕ
  pub gas_limit : ℕ
  pub fee : OuterFee

unfoldable pub cannot_carry : Outer → Text
cannot_carry o =
    codes "outer fee cap "
    ++ digits_of o.fee.max_fee_per_gas
    ++ codes " cannot carry the "
    ++ digits_of o.fee.max_priority_fee_per_gas
    ++ codes " tip at base fee "
    ++ digits_of o.context.base_fee_per_gas

abbrev pub sign_request : Proven → Outer → BundleSignRequest
sign_request b o = record {
  nonce = o.context.nonce;
  gas_limit = o.gas_limit;
  max_fee_per_gas = o.fee.max_fee_per_gas;
  max_priority_fee_per_gas = o.fee.max_priority_fee_per_gas;
  entry_point = b.entry_point;
  calldata = o.calldata;
}

-- A cap that does not carry its tip fails the batch.
unfoldable pub sign_carried : Crates → Proven → Outer → Bool → Lane (Unit {0})
unfolding cannot_carry sign_and_broadcast
sign_carried crates b o true =
    sign_and_broadcast crates native_wording b (native_bundle (sign_request b o))
      (record {
        billed_gas = Prelude.◌>>=◌ (checked_sum o.allocations) (λ gas. some (hex_word gas));
        billed_fee_per_gas = some (hex_quantity o.fee.max_fee_per_gas);
      })
      o.gas_limit
sign_carried crates b o false = fail (cannot_carry o)

unfoldable pub sign_outer : Crates → Proven → Outer → Lane (Unit {0})
unfolding sign_carried
sign_outer crates b o =
    sign_carried crates b o (delivers_full_tip_at o.fee o.context.base_fee_per_gas)

-- The bundle waits for its relayer's top-up.
unfoldable pub wait_for_funding : List Candidate → Lane (Unit {0})
unfolding record_candidates_deferred for_each
wait_for_funding survivors = do
  record_candidates_deferred survivors (codes "funding")
      (codes "waiting for relayer funding transaction confirmation")
  for_each (λ candidate. failed candidate.result_index funding_wait_finish) survivors

unfoldable pub sign_funded : Crates → Proven → Outer → Bool → Lane (Unit {0})
unfolding ensure_lane_lease sign_outer wait_for_funding
sign_funded crates b o false = wait_for_funding b.survivors
sign_funded crates b o true = do ensure_lane_lease; sign_outer crates b o

-- Whether the relayer can pay, after a top-up where it cannot.
unfoldable pub fund_relayer : Crates → Proven → Outer → ℕ → ℕ → Lane Bool
unfolding ensure_native_funding
fund_relayer crates b o prefund top_up_max =
    if ltb o.context.relayer_balance prefund
    then of (
        ensure_native_funding crates b.policy b.chain_id o.context.relayer_balance prefund
          o.fee.max_fee_per_gas o.fee.max_priority_fee_per_gas top_up_max)
    else pure true

unfoldable pub fund_and_sign : Crates → Proven → Result Text ℕ → Outer → Lane (Unit {0})
unfolding top_up_cap fund_relayer sign_funded
fund_and_sign crates b market_price o = do
  prefund ← lift (
      ok_or (checked_mul u256_mod o.gas_limit o.fee.max_fee_per_gas)
        (codes "bundle prefund overflow"))
  top_up_max ← top_up_cap b market_price
  ready ← fund_relayer crates b o prefund top_up_max
  sign_funded crates b o ready

unfoldable pub outer_gas_limit : List ℕ → Result Text ℕ
outer_gas_limit limits =
    Result.◌>>=◌ (ok_or (checked_sum limits) (codes "bundle gas limit overflow"))
      (λ gas. ok_or (checked u64_mod gas) (codes "bundle gas limit exceeds uint64"))

abbrev pub outer_of : TransactionContext → Bytes → List ℕ → FeeContext → ℕ → ℕ → Outer
outer_of context calldata allocations fees cap gas_limit = record {
  context = context;
  calldata = calldata;
  allocations = allocations;
  gas_limit = gas_limit;
  fee = record { max_fee_per_gas = cap; max_priority_fee_per_gas = fees.max_priority_fee_per_gas };
}

-- The bundle at the fee that was decided, by what its operations pay.
unfoldable pub judge_and_sign :
    Crates
    → Proven
    → Result Text ℕ
    → TransactionContext
    → Bytes
    → List ℕ
    → List ℕ
    → FeeContext
    → List SettlementEvaluation × ℕ
    → Lane (Unit {0})
unfolding judge_payments outer_gas_limit fund_and_sign
judge_and_sign crates b market_price context calldata limits allocations fees (evaluations, cap) =
    do
      rejected_any ← judge_payments crates b b.survivors evaluations
      if rejected_any
          then pure tt
          else (lift (outer_gas_limit limits) >>= λ gas_limit.
              fund_and_sign crates b market_price
                (outer_of context calldata allocations fees cap gas_limit))

-- The bundle with its gas allocated: its price, its fee, and what follows.
unfoldable pub price_and_sign :
    Crates → Proven → TransactionContext → Bytes → List ℕ → List ℕ → Lane (Unit {0})
unfolding market_price_of price_for bundle_of fee_context apply_tier decided take_decision
    judge_and_sign
price_and_sign crates b context calldata limits allocations = do
  market_price ← market_price_of b.chain_id
  price ← lift (price_for b market_price)
  let bundle = bundle_of b allocations price
  fees ← apply_tier bundle (fee_context b context)
  decision ← lift (decided (decide_settlement bundle fees))
  judged ← take_decision fees decision
  judge_and_sign crates b market_price context calldata limits allocations fees judged

unfoldable pub execute_native_bundle : Crates → Proven → Lane (Unit {0})
unfolding read_context limit_allocations billed_allocations price_and_sign
execute_native_bundle crates b = do
  let calldata =
      handle_ops_calldata crates.alloy (map (λ candidate. candidate.packed.packed) b.survivors)
        b.policy.treasury
  context ← query (fetch_transaction_context b.entry_point calldata) read_context
  limits ← lift (limit_allocations b context)
  allocations ← lift (billed_allocations b context limits)
  price_and_sign crates b context calldata limits allocations
