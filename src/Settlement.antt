-- ===== src/Settlement.antt =====
-- vela-relay-core/src/settlement.rs: the amounts that a settlement is checked against.
pub mod Calldata
pub mod Loop
pub mod Evaluation
pub mod Verdicts
pub mod Decision
pub mod Minimum
pub mod Repricing
pub mod Evidence
use vela_relay.Prelude.{
  ℕ, zero, suc, ◌+◌, ◌-◌, ◌*◌, ◌/◌, ◌%◌, Option, none, some, min, max, ltb, leb, ◌==◌, ◌||◌, ◌&&◌,
  Bool, true, false, if◌then◌else◌,
}
use vela_relay.Prelude.Words.{
  u32_mod, u256_mod, u512_mod, checked, checked_add, checked_mul, checked_sub,
}
use vela_relay.Prelude.Text.{Text, codes}
use vela_relay.Prelude.Result.{Result, ok, err, ok_or, ◌>>=◌, ◌>>◌}
use vela_relay.Prelude
use vela_relay.Funding.{usd_price_scale}

abbrev pub min_native_fraction_decimals : ℕ
min_native_fraction_decimals = 6

abbrev pub min_stable_fraction_decimals : ℕ
min_stable_fraction_decimals = 2

abbrev pub usd_price_decimals : ℕ
usd_price_decimals = 8

abbrev pub minimum_fee_usd : ℕ
minimum_fee_usd = usd_price_scale / 100

abbrev pub minimum_fee_acceptance_bps : ℕ
minimum_fee_acceptance_bps = 9_000

pub data SettlementError : Type 0 where
  invalid_configuration : Text → SettlementError
  arithmetic_overflow missing_native_usd_price : SettlementError

-- `checked_pow10` and `checked_pow10_u512`: their loop, on words below `limit`.
unfoldable pub pow10_from : ℕ → ℕ → ℕ → Option ℕ
pow10_from limit zero value = some value
pow10_from limit (suc exponent) value =
    Prelude.◌>>=◌ (checked_mul limit value 10) (pow10_from limit exponent)

unfoldable pub checked_pow10 : ℕ → Option ℕ
unfolding pow10_from
checked_pow10 exponent = pow10_from u256_mod exponent 1

unfoldable pub checked_pow10_u512 : ℕ → Option ℕ
unfolding pow10_from
checked_pow10_u512 exponent = pow10_from u512_mod exponent 1

unfoldable pub minimum_amount : ℕ → ℕ → Result SettlementError ℕ
minimum_amount decimals fraction_decimals = do
  exponent ←
      ok_or (checked_sub decimals fraction_decimals)
        (invalid_configuration (codes "asset decimals are below the settlement floor"))
  ok_or (checked_pow10 exponent)
      (invalid_configuration (codes "asset decimals exceed U256 settlement arithmetic"))

-- The end of the three conversions: divide, round up, and fit in a U256.
unfoldable pub div_ceil_narrow : ℕ → ℕ → Result SettlementError ℕ
div_ceil_narrow numerator denominator = do
  rounded ←
      ok_or
        (if numerator % denominator == 0
          then some (numerator / denominator)
          else checked_add u512_mod (numerator / denominator) 1)
        arithmetic_overflow
  ok_or (checked u256_mod rounded) arithmetic_overflow

-- The product of two U256 fits in a U512.
unfoldable pub mul_div_ceil : ℕ → ℕ → ℕ → Result SettlementError ℕ
unfolding div_ceil_narrow
mul_div_ceil left right denominator =
    if denominator == 0 then err arithmetic_overflow else div_ceil_narrow (left * right) denominator

unfoldable pub native_amount_for_usd_ceil : ℕ → ℕ → ℕ → Result SettlementError ℕ
unfolding div_ceil_narrow
native_amount_for_usd_ceil usd native_decimals native_usd_price =
    if native_usd_price == 0 then err arithmetic_overflow else (do
      scale ← ok_or (checked_pow10 native_decimals) arithmetic_overflow
      numerator ← ok_or (checked_mul u512_mod usd scale) arithmetic_overflow
      div_ceil_narrow numerator native_usd_price)

unfoldable pub native_minimum_at : ℕ → Option ℕ → ℕ → Result SettlementError ℕ
native_minimum_at native_decimals none share_bps =
    minimum_amount native_decimals min_native_fraction_decimals
native_minimum_at native_decimals (some price) share_bps = do
  safety ← minimum_amount native_decimals min_native_fraction_decimals
  if price == 0 then ok safety else (do
    amount ← native_amount_for_usd_ceil (minimum_fee_usd * share_bps / 10_000) native_decimals price
    ok (max amount safety))

unfoldable pub published_native_minimum : ℕ → Option ℕ → Result SettlementError ℕ
published_native_minimum native_decimals native_usd_price =
    native_minimum_at native_decimals native_usd_price 10_000

unfoldable pub enforced_native_minimum : ℕ → Option ℕ → Result SettlementError ℕ
enforced_native_minimum native_decimals native_usd_price =
    native_minimum_at native_decimals native_usd_price minimum_fee_acceptance_bps

unfoldable pub native_to_usd_stable_ceil : ℕ → ℕ → ℕ → ℕ → Result SettlementError ℕ
unfolding div_ceil_narrow
native_to_usd_stable_ceil native_amount native_decimals native_usd_price stable_decimals =
    if native_usd_price == 0 then err arithmetic_overflow else (do
      exponent ← ok_or (checked_add u32_mod native_decimals usd_price_decimals) arithmetic_overflow
      numerator_scale ← ok_or (checked_pow10_u512 stable_decimals) arithmetic_overflow
      denominator ← ok_or (checked_pow10_u512 exponent) arithmetic_overflow
      value ← ok_or (checked_mul u512_mod native_amount native_usd_price) arithmetic_overflow
      numerator ← ok_or (checked_mul u512_mod value numerator_scale) arithmetic_overflow
      if denominator == 0 then err arithmetic_overflow else div_ceil_narrow numerator denominator)
