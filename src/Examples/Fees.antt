-- ===== src/Examples/Fees.antt =====
-- The fees of a market, the funds of a relayer and the waits of a retry.
use vela_relay.Prelude.{
  ℕ, suc, ◌+◌, ◌*◌, ◌^◌, ◌≤◌, ◌<◌, ◌≡◌, refl, true, none, some, [], ◌∷◌, min, arith,
}
use vela_relay.Prelude.Text.{codes}
use vela_relay.Prelude.Result.{ok}
use vela_relay.Funding.{
  NativeTopUpRequest, plan_native_top_up, native_top_up_reserve, treasury_affordable_top_up,
}
use vela_relay.Funding.Plan.{funded_bundle}
use vela_relay.Hold.{retry_delay_ms, delayed_retry_base_ms, delayed_retry_max_ms}
use vela_relay.Hold.Ladder.{retry_delay_ms_closed}
use vela_relay.GasMath.{
  fast, TierTips, TipWindow, resolve, from_window, tips_of_medians, complete_rows, below, scaled,
  scaled_market_tip, scaled_up, column_median, median,
}
use vela_relay.GasMath.Tips.{IsOrdered, resolve-IsOrdered}
use vela_relay.GasMath.Median.{slow_tip-clears}
use vela_relay.GasMath.Fees.{
  OuterFee, tier_outer_fee, delivers_full_tip_at, effective_tip_at, in_band_fee_per_gas,
  GasPriceTiers, NetworkGasPrice, tiers, GasPrice, tier_price, tier_network_fee,
}
use vela_relay.GasMath.Fees.Delivery.{tier_outer_fee_delivers, in_band_fee_per_gas_bounds, IsDearer}
use vela_relay.GasMath.Market.{
  FeeHistory, hex_quantity, parse_quantity, market_tip, quote_market_tip, latest_block_base_fee,
  price_from_fee_history, next_block_base_fee, window, rewards_of, last, latest_entry, from_hex,
  hex_value, hex_digit, strip_0x,
}
use vela_relay.GasMath.Market.Tip.{IsQuoted, quote_market_tip-IsQuoted}
use vela_relay.GasMath.Market.Quote.{parse_quantity-hex_quantity, price_from_fee_history-IsDearer}

abbrev planned : NativeTopUpRequest
planned = record { amount_capped = 700; deficit = 200 }

funded_bundle_example : (300 ≤ 100 + 500) × (500 ≤ 700) × (500 + (21_000 * 1 + 1_000) ≤ 22_500)
unfolding plan_native_top_up native_top_up_reserve treasury_affordable_top_up
funded_bundle_example =
    funded_bundle 100 300 3 0 0 700 22_500 21_000 1 1_000 {r = planned} {reserve = 22_000}
      {amount = 500} (omega arith) (omega arith) refl refl refl

retry_delay_ms_closed_example :
    retry_delay_ms (suc 3) ≡ min (delayed_retry_base_ms * 2 ^ 3) delayed_retry_max_ms
retry_delay_ms_closed_example = retry_delay_ms_closed 3

-- Three blocks, which paid 2, 3 and 4 million wei at their lowest percentile.
abbrev busy_window : TipWindow
busy_window = record {
  rewards =
      (2_000_000 ∷ 3_000_000 ∷ 9_000_000 ∷ [])
      ∷ (4_000_000 ∷ 5_000_000 ∷ 6_000_000 ∷ [])
      ∷ (3_000_000 ∷ 4_000_000 ∷ 7_000_000 ∷ [])
      ∷ [];
  gas_used_ratio_bps = some 5_000;
}

abbrev busy_tips : TierTips
busy_tips = record {
  slow_tip = 3_000_000;
  standard_tip = 4_000_000;
  fast_tip = 7_000_000;
  floor = 3_000_000;
}

resolve-IsOrdered_example : IsOrdered busy_tips
unfolding resolve from_window tips_of_medians column_median median complete_rows below
resolve-IsOrdered_example = resolve-IsOrdered (some busy_window) 1_000_000 refl

slow_tip-clears_example : 2_000_000 ≤ 3_000_000
unfolding from_window tips_of_medians column_median median complete_rows below
slow_tip-clears_example =
    slow_tip-clears busy_window 1_000_000 2_000_000 {tips = busy_tips} refl
      (omega arith, (omega arith, (omega arith, tt))) refl

tier_outer_fee_delivers_example :
    let fee : OuterFee = record {
      max_fee_per_gas = 182_000_000;
      max_priority_fee_per_gas = 7_000_000;
    } in
    (delivers_full_tip_at fee 150_000_000 ≡ true) × (effective_tip_at fee 150_000_000 ≡ 7_000_000)
unfolding tier_outer_fee
tier_outer_fee_delivers_example =
    tier_outer_fee_delivers fast 100_000_000 busy_tips 150_000_000
      {fee = record { max_fee_per_gas = 182_000_000; max_priority_fee_per_gas = 7_000_000 }} refl
      (omega arith)

in_band_fee_per_gas_bounds_example :
    (101 * 11_000 ≤ 112 * 10_000) × (112 * 10_000 < 101 * 11_000 + 10_000)
unfolding in_band_fee_per_gas
in_band_fee_per_gas_bounds_example = in_band_fee_per_gas_bounds 101 11_000 refl

parse_quantity-hex_quantity_example : parse_quantity (hex_quantity 256) ≡ ok 256
parse_quantity-hex_quantity_example = parse_quantity-hex_quantity 256 (omega arith)

abbrev history : FeeHistory
history = record {
  base_fee_per_gas = codes "0x64" ∷ codes "0x70" ∷ [];
  reward = none;
  mean_gas_used_ratio_bps = none;
}

legacy_tip : quote_market_tip history none (some 130) 200 ≡ ok 30
unfolding quote_market_tip latest_block_base_fee latest_entry last market_tip parse_quantity
    from_hex hex_value hex_digit strip_0x
legacy_tip = refl

-- The gas price is below the latest block's base fee, 100; the next one is 112.
quote_market_tip-IsQuoted_example :
    (tip : ℕ) × (quote_market_tip history none (some 90) 20 ≡ ok tip)
    × IsQuoted none (some 90) 100 112 20 tip (market_tip none (some 90) 100)
unfolding hex_quantity
quote_market_tip-IsQuoted_example =
    quote_market_tip-IsQuoted history [] none (some 90) 100 112 20 refl (omega arith) (omega arith)
      (omega arith)

abbrev history_tips : TierTips
history_tips = record { slow_tip = 30; standard_tip = 38; fast_tip = 60; floor = 30 }

abbrev history_price : NetworkGasPrice
history_price = record {
  base_fee_per_gas = 112;
  max_priority_fee_per_gas = 30;
  tier_tips = history_tips;
}

abbrev row : ℕ → ℕ → ℕ → ℕ → GasPrice
row cap tip network relayer = record {
  max_fee_per_gas = cap;
  max_priority_fee_per_gas = tip;
  network_fee_per_gas = network;
  relayer_fee_per_gas = relayer;
}

abbrev history_rows : GasPriceTiers
history_rows = record {
  slow_price = row 198 30 131 67;
  standard_price = row 206 38 173 33;
  fast_price = row 256 60 262 0;
}

price_from_fee_history-IsDearer_example :
    (next_block_base_fee history ≡ ok 112)
    × IsDearer history_rows.slow_price history_rows.standard_price
    × IsDearer history_rows.standard_price history_rows.fast_price
unfolding price_from_fee_history next_block_base_fee last window rewards_of resolve scaled
    scaled_market_tip scaled_up parse_quantity from_hex hex_value hex_digit strip_0x tiers
    tier_price tier_outer_fee tier_network_fee
price_from_fee_history-IsDearer_example =
    price_from_fee_history-IsDearer history 30 {price = history_price} {rows = history_rows} refl
      refl
