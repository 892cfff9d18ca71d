-- ===== src/GasMath/Fees.antt =====
-- vela-relay-core/src/gas_math.rs: the fees that a tier is quoted and signed at.
pub mod Delivery
use vela_relay.Prelude.{
  ℕ, ◌+◌, ◌-◌, ◌*◌, ◌/◌, ◌%◌, Option, none, some, min, max, ltb, ◌==◌, Bool, true, false,
  if◌then◌else◌, ◌>>=◌, ◌>>◌,
}
use vela_relay.Prelude.Words.{
  u128_mod, u256_mod, checked, checked_add, checked_mul, checked_sub, saturating_sub,
}
use vela_relay.Prelude.Result.{Result, ok, err, ok_or}
use vela_relay.Prelude.Result
use vela_relay.GasMath.{
  SubmissionTier, slow, standard, fast, base_fee_bps, network_fee_bps, scaled_up, scaled_market_tip,
  TierTips, tip_of,
}

pub data GasPriceError : Type 0 where
  no_price_available invalid_upstream_response arithmetic_overflow : GasPriceError
  response_deadline_exceeded : GasPriceError

pub record OuterFee : Type 0 where
  pub max_fee_per_gas : ℕ
  pub max_priority_fee_per_gas : ℕ

unfoldable pub effective_tip_at : OuterFee → ℕ → ℕ
effective_tip_at fee base_fee_per_gas =
    let headroom : ℕ = saturating_sub fee.max_fee_per_gas base_fee_per_gas in
    if ltb headroom fee.max_priority_fee_per_gas then headroom else fee.max_priority_fee_per_gas

unfoldable pub delivers_full_tip_at : OuterFee → ℕ → Bool
unfolding effective_tip_at
delivers_full_tip_at fee base_fee_per_gas =
    effective_tip_at fee base_fee_per_gas == fee.max_priority_fee_per_gas

unfoldable pub quoted_outer_fee : ℕ → ℕ → Option ℕ
quoted_outer_fee base_fee_per_gas max_priority_fee_per_gas = do
  double ← checked_mul u128_mod base_fee_per_gas 2
  checked_add u128_mod double max_priority_fee_per_gas

unfoldable pub tier_outer_fee : SubmissionTier → ℕ → TierTips → Option OuterFee
tier_outer_fee tier base_fee_per_gas tips = do
  let tip = tip_of tips tier
  product ← checked_mul u256_mod base_fee_per_gas (base_fee_bps tier)
  scaled ← checked u128_mod (product / 10_000)
  max_fee_per_gas ← checked_add u128_mod scaled tip
  some (record { max_fee_per_gas = max_fee_per_gas; max_priority_fee_per_gas = tip })

unfoldable pub tier_network_fee : SubmissionTier → ℕ → ℕ → Option ℕ
tier_network_fee tier base_fee_per_gas market_tip = do
  scaled ← scaled_up base_fee_per_gas (network_fee_bps tier)
  tip ← scaled_market_tip tier market_tip
  checked_add u128_mod scaled tip

pub record GasPrice : Type 0 where
  pub max_fee_per_gas : ℕ
  pub max_priority_fee_per_gas : ℕ
  pub network_fee_per_gas : ℕ
  pub relayer_fee_per_gas : ℕ

unfoldable pub tier_price : SubmissionTier → ℕ → TierTips → ℕ → Option GasPrice
tier_price tier base_fee_per_gas tips market_tip = do
  outer ← tier_outer_fee tier base_fee_per_gas tips
  network_fee_per_gas ← tier_network_fee tier base_fee_per_gas market_tip
  some (record {
    max_fee_per_gas = outer.max_fee_per_gas;
    max_priority_fee_per_gas = outer.max_priority_fee_per_gas;
    network_fee_per_gas = network_fee_per_gas;
    relayer_fee_per_gas = saturating_sub outer.max_fee_per_gas network_fee_per_gas;
  })

pub record NetworkGasPrice : Type 0 where
  pub base_fee_per_gas : ℕ
  pub max_priority_fee_per_gas : ℕ
  pub tier_tips : TierTips

pub record GasPriceTiers : Type 0 where
  pub slow_price : GasPrice
  pub standard_price : GasPrice
  pub fast_price : GasPrice

network_tier_price : NetworkGasPrice → SubmissionTier → Result GasPriceError GasPrice
network_tier_price price tier =
    ok_or (tier_price tier price.base_fee_per_gas price.tier_tips price.max_priority_fee_per_gas)
      arithmetic_overflow

unfoldable pub tiers : NetworkGasPrice → Result GasPriceError GasPriceTiers
unfolding network_tier_price
tiers network_price = Result.◌>>=◌ (network_tier_price network_price slow) (λ slow_price.
    Result.◌>>=◌ (network_tier_price network_price standard) (λ standard_price.
      Result.◌>>=◌ (network_tier_price network_price fast) (λ fast_price. ok (record {
        slow_price = slow_price;
        standard_price = standard_price;
        fast_price = fast_price;
      }))))

abbrev pub in_band_drift_bps : ℕ
in_band_drift_bps = 10_000

unfoldable pub in_band_fee_per_gas : ℕ → ℕ → Option ℕ
in_band_fee_per_gas max_fee_per_gas settlement_markup_bps = do
  marked_up ← checked_mul u256_mod max_fee_per_gas settlement_markup_bps
  product ← checked_mul u256_mod marked_up in_band_drift_bps
  rounded ←
      checked_add u256_mod (product / 100_000_000) (if product % 100_000_000 == 0 then 0 else 1)
  checked u128_mod rounded
