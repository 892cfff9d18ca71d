-- ===== src/Funding.antt =====
-- vela-relay-core/src/funding.rs: how much a relayer is topped up by, and what the treasury can pay.
pub mod Plan
use vela_relay.Prelude.{
  ℕ, zero, suc, ◌+◌, ◌-◌, ◌*◌, ◌/◌, ◌%◌, Option, none, some, min, max, ltb, leb, ◌==◌,
  if◌then◌else◌, ◌||◌,
}
use vela_relay.Prelude.Words.{
  u64_mod, u256_mod, checked_add, checked_mul, checked_sub, saturating_mul, saturating_sub,
}
use vela_relay.Prelude
use vela_relay.Prelude.Result.{Result, ok, err, ok_or, ◌>>=◌, ◌>>◌}

abbrev pub top_up_gas_limit : ℕ
top_up_gas_limit = 21_000

abbrev pub top_up_gas_buffer_bps : ℕ
top_up_gas_buffer_bps = 12_000

abbrev pub native_top_up_usd_cap : ℕ
native_top_up_usd_cap = 20

abbrev pub usd_price_scale : ℕ
usd_price_scale = 100_000_000

abbrev pub tempo_float_target : ℕ
tempo_float_target = 300_000

pub data FundingPlanError : Type 0 where
  target_overflow amount_underflow deficit_underflow : FundingPlanError
  deficit_exceeds_cap : ℕ → ℕ → FundingPlanError
  gas_cost_overflow reserve_overflow : FundingPlanError

pub record NativeTopUpRequest : Type 0 where
  pub amount_capped : ℕ
  pub deficit : ℕ

unfoldable pub plan_native_top_up :
    ℕ → ℕ → ℕ → ℕ → ℕ → ℕ → Result FundingPlanError NativeTopUpRequest
plan_native_top_up relayer_balance required_prefund multiplier float_target float_min cap = do
  target_from_cost ← ok_or (checked_mul u256_mod required_prefund multiplier) target_overflow
  let target = max (max target_from_cost float_target) float_min
  desired_amount ← ok_or (checked_sub target relayer_balance) amount_underflow
  deficit ← ok_or (checked_sub required_prefund relayer_balance) deficit_underflow
  if ltb cap deficit
      then err (deficit_exceeds_cap deficit cap)
      else ok (record { amount_capped = min desired_amount cap; deficit = deficit })

unfoldable pub native_top_up_gas_limit : Option ℕ → ℕ
native_top_up_gas_limit none = top_up_gas_limit
native_top_up_gas_limit (some gas) =
    max (saturating_mul u64_mod gas top_up_gas_buffer_bps / 10_000) top_up_gas_limit

unfoldable pub native_top_up_reserve : ℕ → ℕ → ℕ → Result FundingPlanError ℕ
native_top_up_reserve gas_limit max_fee_per_gas treasury_floor_wei = do
  cost ← ok_or (checked_mul u256_mod gas_limit max_fee_per_gas) gas_cost_overflow
  ok_or (checked_add u256_mod cost treasury_floor_wei) reserve_overflow

unfoldable pub treasury_affordable_top_up : ℕ → ℕ → ℕ → ℕ → Option ℕ
treasury_affordable_top_up capped_amount deficit treasury_balance protected_treasury =
    let amount : ℕ = min capped_amount (saturating_sub treasury_balance protected_treasury) in
    if leb deficit amount then some amount else none

-- `try_fold(U256::ONE, |value, _| value.checked_mul(10))`
checked_pow10_from : ℕ → ℕ → Option ℕ
checked_pow10_from zero value = some value
checked_pow10_from (suc n) value =
    Prelude.◌>>=◌ (checked_mul u256_mod value 10) (checked_pow10_from n)

unfoldable pub native_amount_for_usd_cap : ℕ → ℕ → ℕ → Option ℕ
unfolding checked_pow10_from
native_amount_for_usd_cap native_decimals native_usd_price usd_cap =
    if native_usd_price == 0 || ltb 38 native_decimals
    then none
    else Prelude.◌>>=◌ (checked_pow10_from native_decimals 1) (λ native_scale.
      Prelude.◌>>=◌ (checked_mul u256_mod usd_cap usd_price_scale) (λ usd.
        Prelude.◌>>=◌ (checked_mul u256_mod usd native_scale) (λ numerator.
          checked_add u256_mod (numerator / native_usd_price)
            (if numerator % native_usd_price == 0 then 0 else 1))))

unfoldable pub plan_tempo_top_up : ℕ → ℕ → Result FundingPlanError (Option ℕ)
plan_tempo_top_up relayer_balance required_prefund = do
  amount ←
      ok_or (checked_sub (max required_prefund tempo_float_target) relayer_balance) amount_underflow
  ok (if amount == 0 then none else some amount)
