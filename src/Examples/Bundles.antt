-- ===== src/Examples/Bundles.antt =====
-- A bundle of one operation that reimburses the relay in the native coin.
use vela_relay.Prelude.{
  ℕ, zero, suc, ◌/◌, ◌%◌, ◌≤◌, ◌<◌, ◌≡◌, refl, true, none, some, List, [], ◌∷◌, length, min, All,
  arith,
}
use vela_relay.Prelude.Result.{ok}
use vela_relay.Cost.{native_cost}
use vela_relay.GasMath.{standard, TierTips, tip_of}
use vela_relay.GasMath.Fees.{OuterFee, tier_outer_fee, delivers_full_tip_at}
use vela_relay.Settlement.{
  published_native_minimum, enforced_native_minimum, native_minimum_at, minimum_amount,
  checked_pow10, pow10_from, native_amount_for_usd_ceil, mul_div_ceil, div_ceil_narrow,
}
use vela_relay.Settlement.Minimum.{enforced_native_minimum-le}
use vela_relay.Settlement.Calldata.{
  Bytes, trusted_multisend, parse_reimbursement, parse_from, decode_multisend_transactions,
  has_selector, read_dynamic_bytes, read_address_word, read_packed_address, read_u256_word,
  read_usize_word, get_range, get_from, read_transaction, credit, credit_native, credit_transfer,
  decode_erc20_transfer,
}
use vela_relay.Settlement.Loop.{parse_from-rounds}
use vela_relay.Settlement.Evaluation.{
  ChainAssetConfig, SettlementInput, SettlementEvaluation, evaluate_batch, evaluate_inputs,
  evaluate_input, evaluate_parsed, evaluate_one, evaluate_paid, contain_overflow, shortfall,
  validate_config, validate_stablecoins, paid_ratio_bps, all_accepted,
}
use vela_relay.Settlement.Verdicts.{IsSound, evaluate_batch-IsSound}
use vela_relay.Settlement.Decision.{
  Bundle, FeeContext, decide_submission_fees, fit_requested, fit_headroom, fitted_fee,
  fundable_fee_per_gas, affordable_fee_per_gas, minimum, inclusion_floor_fee_per_gas, evaluate_at,
  costs_at, inputs_of, map_evaluation_error, decide_settlement, settle, try_reprice, is_incurable,
}
use vela_relay.Settlement.Repricing.{decide_submission_fees-delivers, decide_settlement-reprice}

-- The big-endian bytes of a number, in front of those that are there.
abbrev be_bytes : ℕ → ℕ → Bytes → Bytes
be_bytes zero n rest = rest
be_bytes (suc width) n rest = be_bytes width (n / 256) ((n % 256) ∷ rest)

abbrev relayer : ℕ
relayer = 0x1111111111111111111111111111111111111111

-- One call that pays the relayer, in the multisend's packing.
abbrev payment : Bytes
payment = 0 ∷ be_bytes 20 relayer (be_bytes 32 300_000_000_000_000 (be_bytes 32 0 []))

abbrev call_data : Bytes
call_data = be_bytes 4 0x7bb37428 (
    be_bytes 32 trusted_multisend (
      be_bytes 32 0 (
        be_bytes 32 128 (
          be_bytes 32 1
            (be_bytes 32 153 (be_bytes 4 0x8d80ff0a (be_bytes 32 32 (be_bytes 32 85 payment))))))))

abbrev assets : ChainAssetConfig
assets = record { native_decimals = 18; settlement_markup_bps = 11_000; stablecoins = [] }

abbrev bundle : Bundle
bundle = record {
  recipient = relayer;
  chain_assets = assets;
  call_datas = call_data ∷ [];
  allocations = 100_000 ∷ [];
  native_usd_price = none;
}

abbrev inputs : List SettlementInput
inputs = record { call_data = call_data; gas_native_cost = 250_000_000_000_000 } ∷ []

abbrev tips : TierTips
tips = record {
  slow_tip = 1_000_000_000;
  standard_tip = 1_000_000_000;
  fast_tip = 2_000_000_000;
  floor = 1_000_000_000;
}

abbrev fees : FeeContext
fees = record {
  quoted_fee_per_gas = 3_000_000_000;
  base_fee_per_gas = 1_000_000_000;
  max_priority_fee_per_gas = 1_000_000_000;
  inclusion_floor_bps = 12_500;
  requested_tier = some standard;
  tier_tips = tips;
}

abbrev evaluated : ℕ → ℕ → SettlementEvaluation
evaluated cost required = record {
  reimbursement = record { native = 300_000_000_000_000; stablecoins = [] };
  gas_native_cost = cost;
  payment_asset = none;
  paid_amount = 300_000_000_000_000;
  required_amount = required;
  minimum_amount = 1_000_000_000_000;
  rejection = none;
}

abbrev signed : OuterFee
signed = record { max_fee_per_gas = 2_500_000_000; max_priority_fee_per_gas = 1_000_000_000 }

parse_from-rounds_example :
    parse_from 85 relayer [] payment 0 (record { native = 0; stablecoins = [] })
    ≡ parse_from 100 relayer [] payment 0 (record { native = 0; stablecoins = [] })
parse_from-rounds_example =
    parse_from-rounds 85 100 relayer [] payment 0 (record { native = 0; stablecoins = [] })
      (omega arith) (omega arith)

evaluate_batch-IsSound_example :
    (length (evaluated 250_000_000_000_000 275_000_000_000_000 ∷ []) ≡ length inputs)
    × All (IsSound 11_000) (evaluated 250_000_000_000_000 275_000_000_000_000 ∷ [])
unfolding evaluate_batch evaluate_inputs evaluate_input evaluate_parsed evaluate_one evaluate_paid
    contain_overflow shortfall validate_config validate_stablecoins enforced_native_minimum
    native_minimum_at minimum_amount checked_pow10 pow10_from mul_div_ceil div_ceil_narrow
    parse_reimbursement parse_from decode_multisend_transactions has_selector read_dynamic_bytes
    read_address_word read_packed_address read_u256_word read_usize_word get_range get_from
    read_transaction credit credit_native credit_transfer decode_erc20_transfer
evaluate_batch-IsSound_example =
    evaluate_batch-IsSound relayer assets inputs none
      {es = evaluated 250_000_000_000_000 275_000_000_000_000 ∷ []} refl

decide_submission_fees-delivers_example :
    (delivers_full_tip_at signed 1_000_000_000 ≡ true)
    × (min 1_000_000_000 (tip_of tips standard) ≤ 1_000_000_000)
    × (1_000_000_000 ≤ tip_of tips standard)
unfolding decide_submission_fees fit_requested fit_headroom fitted_fee fundable_fee_per_gas minimum
    inclusion_floor_fee_per_gas evaluate_at costs_at inputs_of map_evaluation_error native_cost
    tier_outer_fee paid_ratio_bps evaluate_batch evaluate_inputs evaluate_input evaluate_parsed
    evaluate_one evaluate_paid contain_overflow shortfall validate_config validate_stablecoins
    enforced_native_minimum native_minimum_at minimum_amount checked_pow10 pow10_from mul_div_ceil
    div_ceil_narrow parse_reimbursement parse_from decode_multisend_transactions has_selector
    read_dynamic_bytes read_address_word read_packed_address read_u256_word read_usize_word
    get_range get_from read_transaction credit credit_native credit_transfer decode_erc20_transfer
decide_submission_fees-delivers_example =
    decide_submission_fees-delivers bundle fees standard {signed = signed} refl refl

decide_settlement-reprice_example :
    (floor : ℕ) × (inclusion_floor_fee_per_gas 1_000_000_000 1_000_000_000 12_500 ≡ some floor)
    × (floor ≤ 2_727_000_000)
    × (2_727_000_000 < 3_000_000_000)
    × (evaluate_at bundle 2_727_000_000
        ≡ ok (evaluated 272_700_000_000_000 299_970_000_000_000 ∷ []))
    × (all_accepted (evaluated 272_700_000_000_000 299_970_000_000_000 ∷ []) ≡ true)
unfolding decide_settlement settle try_reprice is_incurable affordable_fee_per_gas minimum
    inclusion_floor_fee_per_gas evaluate_at costs_at inputs_of map_evaluation_error native_cost
    paid_ratio_bps evaluate_batch evaluate_inputs evaluate_input evaluate_parsed evaluate_one
    evaluate_paid contain_overflow shortfall validate_config validate_stablecoins
    enforced_native_minimum native_minimum_at minimum_amount checked_pow10 pow10_from mul_div_ceil
    div_ceil_narrow parse_reimbursement parse_from decode_multisend_transactions has_selector
    read_dynamic_bytes read_address_word read_packed_address read_u256_word read_usize_word
    get_range get_from read_transaction credit credit_native credit_transfer decode_erc20_transfer
decide_settlement-reprice_example =
    decide_settlement-reprice bundle fees {fee = 2_727_000_000}
      {repriced = evaluated 272_700_000_000_000 299_970_000_000_000 ∷ []} refl

enforced_native_minimum-le_example : 3_947_368_421_053 ≤ 4_000_000_000_000
unfolding published_native_minimum enforced_native_minimum native_minimum_at
    native_amount_for_usd_ceil minimum_amount checked_pow10 pow10_from div_ceil_narrow
enforced_native_minimum-le_example =
    enforced_native_minimum-le 18 250_000_000_000 228_000_000_000 (omega arith) (omega arith)
      (omega arith) refl refl
