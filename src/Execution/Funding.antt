-- ===== src/Execution/Funding.antt =====
-- vela-relay-core/src/execution.rs: a relayer's top-up by the treasury, under the treasury's lease.
use vela_relay.Prelude.{ℕ, ◌-◌, Bool, true, false, Option, none, some, if◌then◌else◌, ltb, ◌++◌}
use vela_relay.Prelude.Words.{u128_mod, u256_mod, checked, checked_add}
use vela_relay.Prelude.Result.{Result, ok, err, ok_or}
use vela_relay.Prelude.Text.{Text, codes, digits_of}
use vela_relay.Task.Prepared.{PreparedFundingIntent}
use vela_relay.Settlement.Calldata.{Address}
use vela_relay.Funding.{
  FundingPlanError, target_overflow, amount_underflow, deficit_underflow, deficit_exceeds_cap,
  gas_cost_overflow, reserve_overflow, NativeTopUpRequest, plan_native_top_up,
  native_top_up_gas_limit, native_top_up_reserve, treasury_affordable_top_up,
}
use vela_relay.Execution.Operation.{
  TreasurySignRequest, TempoTreasurySignRequest, sign_treasury_path_usd, SignedBundle,
  load_prepared_funding, save_funding_intent, acquire_treasury_lease, release_treasury_lease,
  ensure_treasury_lease_held, fetch_treasury_context, fetch_tempo_treasury_context,
  sign_treasury_transfer, sign_treasury_path_usd, record_treasury_shortfall,
  record_tempo_treasury_shortfall, record_partial_top_up, record_funding_submitted,
}
use vela_relay.Execution.Operation
use vela_relay.Execution.Program.{
  done, ask, and_then, Fallible, ◌>>=◌, ◌>>◌, pure, fail, lift, request, ignore,
}
use vela_relay.Execution.Readings.{
  read_lease, read_held, read_funding, read_treasury, read_signed, read_saved,
}
use vela_relay.Execution.Sending.{Crates}
use vela_relay.Execution.TopUp.{broadcast_funding, resume_funding, await_fresh_top_up}

pub record ExecutionPolicy : Type 0 where
  pub pool_width : ℕ
  pub max_bundle_operations : ℕ
  pub gas_buffer_bps : ℕ
  pub fixed_gas_buffer : ℕ
  pub settlement_inclusion_floor_bps : ℕ
  pub settlement_hold_max_attempts : ℕ
  pub top_up_max_wei : ℕ
  pub is_tempo : Bool
  pub treasury : Address
  pub relayer : Address
  pub relayer_float_cost_multiplier : ℕ
  pub relayer_float_target_wei : ℕ
  pub relayer_float_min_wei : ℕ
  pub treasury_floor_wei : ℕ

unfoldable pub plan_error_text : FundingPlanError → Text
plan_error_text target_overflow = codes "relayer float target overflow"
plan_error_text amount_underflow = codes "relayer funding amount underflow"
plan_error_text deficit_underflow = codes "relayer funding deficit underflow"
plan_error_text (deficit_exceeds_cap deficit cap) =
    codes "current UserOperation prefund exceeds the per-transfer cap: deficit="
    ++ digits_of deficit
    ++ codes ", cap="
    ++ digits_of cap
plan_error_text gas_cost_overflow = codes "top-up gas cost overflow"
plan_error_text reserve_overflow = codes "treasury reserve requirement overflow"

unfoldable pub planned : {A : Type 0} → Result FundingPlanError A → Result Text A
unfolding plan_error_text
planned (err e) = err (plan_error_text e)
planned (ok a) = ok a

unfoldable pub ensure_treasury_lease : Fallible (Unit {0})
unfolding read_held
ensure_treasury_lease = request ensure_treasury_lease_held read_held

unfoldable pub resume_pending : Crates → PreparedFundingIntent → Fallible Bool
unfolding resume_funding
resume_pending crates intent = do resume_funding crates intent; pure false

-- After a save that another one raced: the transfer that is stored now, if there is one.
unfoldable pub resume_raced : Crates → Text → Option PreparedFundingIntent → Fallible Bool
unfolding resume_pending
resume_raced crates raced (some existing) = resume_pending crates existing
resume_raced crates raced none = fail raced

unfoldable pub send_saved :
    Crates → ℕ → PreparedFundingIntent → ℕ → Bool → Text → Bool → Fallible Bool
unfolding resume_raced broadcast_funding await_fresh_top_up read_funding
send_saved crates chain_id intent amount tempo raced true = do
  broadcast_funding crates intent
  request (record_funding_submitted amount intent.transaction_hash tempo) ignore
  await_fresh_top_up crates chain_id intent
send_saved crates chain_id intent amount tempo raced false = do
  existing ← request load_prepared_funding read_funding
  resume_raced crates raced existing

unfoldable pub funding_intent_of :
    Crates → ExecutionPolicy → ℕ → ℕ → SignedBundle → PreparedFundingIntent
funding_intent_of crates policy chain_id amount signed = record {
  chain_id = chain_id;
  relayer = crates.alloy.address_text policy.relayer;
  amount_wei = amount;
  raw_transaction = signed.raw_transaction_hex;
  transaction_hash = signed.transaction_hash;
  nonce = signed.nonce;
}

-- What both kinds of top-up do with the transfer that was signed: store it, then send it.
unfoldable pub store_and_send :
    Crates → ExecutionPolicy → ℕ → ℕ → Bool → Text → SignedBundle → Fallible Bool
unfolding ensure_treasury_lease funding_intent_of send_saved read_saved
store_and_send crates policy chain_id amount tempo raced signed = do
  ensure_treasury_lease
  let intent = funding_intent_of crates policy chain_id amount signed
  was_saved ← request (save_funding_intent intent) read_saved
  send_saved crates chain_id intent amount tempo raced was_saved

pub data TreasurySign : Type 0 where
  native_transfer : TreasurySignRequest → TreasurySign
  path_usd_transfer : TempoTreasurySignRequest → TreasurySign

abbrev pub sign_operation : TreasurySign → Operation.Operation
sign_operation (native_transfer r) = sign_treasury_transfer r
sign_operation (path_usd_transfer r) = sign_treasury_path_usd r

unfoldable pub sign_and_send :
    Crates → ExecutionPolicy → ℕ → TreasurySign → ℕ → Bool → Text → Fallible Bool
unfolding ensure_treasury_lease store_and_send read_signed
sign_and_send crates policy chain_id sign amount tempo raced = do
  ensure_treasury_lease
  signed ← request (sign_operation sign) read_signed
  store_and_send crates policy chain_id amount tempo raced signed

-- `let Some(amount) = ... else { ... }`: the shortfall is recorded, and defers the batch.
unfoldable pub affordable_or_short : NativeTopUpRequest → ℕ → ℕ → ℕ → Option ℕ → Fallible ℕ
affordable_or_short plan balance protected cost (some amount) = pure amount
affordable_or_short plan balance protected cost none = do
  required_treasury ← lift (
      ok_or (checked_add u256_mod plan.deficit protected)
        (codes "treasury balance requirement overflow"))
  request (record_treasury_shortfall balance required_treasury plan.amount_capped plan.deficit cost)
      ignore
  fail (
      codes
        "treasury balance cannot cover the current UserOperation prefund, top-up gas, and reserve floor")

unfoldable pub note_partial : NativeTopUpRequest → ℕ → Fallible (Unit {0})
note_partial plan amount =
    if ltb amount plan.amount_capped
    then request (record_partial_top_up plan.amount_capped amount plan.deficit) ignore
    else pure tt

unfoldable pub fresh_native_top_up :
    Crates → ExecutionPolicy → ℕ → ℕ → ℕ → ℕ → ℕ → ℕ → Fallible Bool
unfolding planned affordable_or_short note_partial sign_and_send read_treasury
fresh_native_top_up crates policy chain_id relayer_balance required_prefund max_fee_per_gas
      max_priority_fee_per_gas top_up_max =
    do
      plan ← lift (
          planned (
            plan_native_top_up relayer_balance required_prefund policy.relayer_float_cost_multiplier
              policy.relayer_float_target_wei policy.relayer_float_min_wei top_up_max))
      (nonce, balance, estimate) ← request fetch_treasury_context read_treasury
      let gas_limit = native_top_up_gas_limit estimate
      protected ←
          lift (planned (native_top_up_reserve gas_limit max_fee_per_gas policy.treasury_floor_wei))
      amount ←
          affordable_or_short plan balance protected (protected - policy.treasury_floor_wei)
            (treasury_affordable_top_up plan.amount_capped plan.deficit balance protected)
      note_partial plan amount
      amount_u128 ← lift (ok_or (checked u128_mod amount) (codes "top-up amount exceeds uint128"))
      sign_and_send crates policy chain_id
          (native_transfer (record {
            nonce = nonce;
            gas_limit = gas_limit;
            amount = amount;
            max_fee_per_gas = max_fee_per_gas;
            max_priority_fee_per_gas = max_priority_fee_per_gas;
          }))
          amount_u128 false (codes "another treasury relayer top-up is pending")

unfoldable pub native_funding_locked :
    Crates → ExecutionPolicy → ℕ → ℕ → ℕ → ℕ → ℕ → ℕ → Fallible Bool
unfolding fresh_native_top_up resume_pending read_funding
native_funding_locked crates policy chain_id relayer_balance required_prefund max_fee_per_gas
      max_priority_fee_per_gas top_up_max =
    do
      stored ← request load_prepared_funding read_funding
      elim stored [
        | some intent ↦ resume_pending crates intent
        | none ↦
            fresh_native_top_up crates policy chain_id relayer_balance required_prefund
              max_fee_per_gas max_priority_fee_per_gas top_up_max
      ]

-- The lease is released whatever the funding gave; an answer that it is another's ends it.
unfoldable pub under_treasury_lease : Fallible Bool → Fallible Bool
unfolding read_lease
under_treasury_lease funding = do
  owned ← request acquire_treasury_lease read_lease
  if owned
      then and_then funding (λ result. ask release_treasury_lease (λ o. done result))
      else pure false

unfoldable pub ensure_native_funding :
    Crates → ExecutionPolicy → ℕ → ℕ → ℕ → ℕ → ℕ → ℕ → Fallible Bool
unfolding under_treasury_lease native_funding_locked
ensure_native_funding crates policy chain_id relayer_balance required_prefund max_fee_per_gas
      max_priority_fee_per_gas top_up_max =
    under_treasury_lease (
      native_funding_locked crates policy chain_id relayer_balance required_prefund max_fee_per_gas
        max_priority_fee_per_gas top_up_max)
