-- ===== src/Execution/TempoFunding.antt =====
-- vela-relay-core/src/execution.rs: the top-up of a relayer on Tempo, in pathUSD.
use vela_relay.Prelude.{ℕ, ◌+◌, Bool, true, false, Option, none, some, if◌then◌else◌, ltb}
use vela_relay.Prelude.Words.{u128_mod, u256_mod, checked, checked_add}
use vela_relay.Prelude
use vela_relay.Prelude.Result.{Result, ok, err, ok_or}
use vela_relay.Prelude.Text.{Text, codes}
use vela_relay.Funding.{FundingPlanError, plan_tempo_top_up}
use vela_relay.Tempo.{buffered_top_up_gas_limit, tempo_cost_in_path_usd, tempo_treasury_floor}
use vela_relay.Execution.Operation.{
  load_prepared_funding, fetch_tempo_treasury_context, record_tempo_treasury_shortfall,
}
use vela_relay.Execution.Program.{Fallible, ◌>>=◌, ◌>>◌, pure, fail, lift, request, ignore}
use vela_relay.Execution.Readings.{read_funding, read_tempo_treasury}
use vela_relay.Execution.Sending.{Crates}
use vela_relay.Execution.Funding.{
  path_usd_transfer, ExecutionPolicy, resume_pending, sign_and_send, under_treasury_lease,
}

-- `map_err(|_| ...)`: the plan's own text is not kept.
unfoldable pub planned_tempo : Result FundingPlanError (Option ℕ) → Result Text (Option ℕ)
planned_tempo (err e) = err (codes "Tempo relayer funding amount underflow")
planned_tempo (ok plan) = ok plan

unfoldable pub required_tempo_treasury : ℕ → ℕ → Option ℕ
required_tempo_treasury amount cost =
    Prelude.◌>>=◌ (checked_add u256_mod amount cost)
      (λ value. checked_add u256_mod value tempo_treasury_floor)

unfoldable pub refuse_short : ℕ → ℕ → ℕ → ℕ → ℕ → Fallible (Unit {0})
refuse_short balance required amount gas_limit cost =
    if ltb balance required
    then (do
      request (record_tempo_treasury_shortfall balance required amount gas_limit cost) ignore
      fail (codes "Tempo treasury pathUSD is below top-up amount, gas, and reserve floor"))
    else pure tt

unfoldable pub tempo_top_up : Crates → ExecutionPolicy → ℕ → ℕ → ℕ → Fallible Bool
unfolding required_tempo_treasury refuse_short sign_and_send read_tempo_treasury
tempo_top_up crates policy chain_id outer_max_fee amount = do
  amount_u128 ←
      lift (ok_or (checked u128_mod amount) (codes "Tempo relayer top-up exceeds uint128"))
  (nonce, balance, estimate) ← request (fetch_tempo_treasury_context amount) read_tempo_treasury
  gas_limit ← lift (
      ok_or (buffered_top_up_gas_limit estimate) (codes "Tempo pathUSD top-up gas buffer overflow"))
  cost ←
      lift (
        ok_or (tempo_cost_in_path_usd gas_limit outer_max_fee)
          (codes "Tempo pathUSD cost overflow"))
  required ← lift (
      ok_or (required_tempo_treasury amount cost)
        (codes "Tempo treasury balance requirement overflow"))
  refuse_short balance required amount gas_limit cost
  sign_and_send crates policy chain_id
      (path_usd_transfer (record {
        nonce = nonce;
        gas_limit = gas_limit;
        max_fee_per_gas = outer_max_fee;
        amount = amount;
      }))
      amount_u128 true (codes "another Tempo treasury relayer top-up is pending")

-- A relayer that holds the target already is ready.
unfoldable pub fresh_tempo_top_up : Crates → ExecutionPolicy → ℕ → ℕ → ℕ → ℕ → Fallible Bool
unfolding planned_tempo tempo_top_up
fresh_tempo_top_up crates policy chain_id relayer_balance required_prefund outer_max_fee = do
  plan ← lift (planned_tempo (plan_tempo_top_up relayer_balance required_prefund))
  elim plan [
    | none ↦ pure true
    | some amount ↦ tempo_top_up crates policy chain_id outer_max_fee amount
  ]

unfoldable pub tempo_funding_locked : Crates → ExecutionPolicy → ℕ → ℕ → ℕ → ℕ → Fallible Bool
unfolding fresh_tempo_top_up resume_pending read_funding
tempo_funding_locked crates policy chain_id relayer_balance required_prefund outer_max_fee = do
  stored ← request load_prepared_funding read_funding
  elim stored [
    | some intent ↦ resume_pending crates intent
    | none ↦
        fresh_tempo_top_up crates policy chain_id relayer_balance required_prefund outer_max_fee
  ]

unfoldable pub ensure_tempo_funding : Crates → ExecutionPolicy → ℕ → ℕ → ℕ → ℕ → Fallible Bool
unfolding under_treasury_lease tempo_funding_locked
ensure_tempo_funding crates policy chain_id relayer_balance required_prefund outer_max_fee =
    under_treasury_lease
      (tempo_funding_locked crates policy chain_id relayer_balance required_prefund outer_max_fee)
