-- ===== src/Settlement/Evaluation.antt =====
-- vela-relay-core/src/settlement.rs: what each operation of a bundle paid against what it owes.
use vela_relay.Prelude.{
  ℕ, ◌-◌, ◌*◌, ◌/◌, Option, none, some, min, max, ltb, leb, ◌==◌, ◌||◌, ◌&&◌, not, Bool, true,
  false, if◌then◌else◌, List, [], ◌∷◌, all, map,
}
use vela_relay.Prelude.Words.{u64_mod}
use vela_relay.Prelude.Text.{Text, codes}
use vela_relay.Prelude.Result.{Result, ok, err, ok_or, ◌>>=◌}
use vela_relay.Settlement.{
  SettlementError, invalid_configuration, missing_native_usd_price, min_native_fraction_decimals,
  min_stable_fraction_decimals, minimum_amount, mul_div_ceil, enforced_native_minimum,
  native_to_usd_stable_ceil,
}
use vela_relay.Settlement
use vela_relay.Settlement.Calldata.{
  Bytes, Address, Reimbursement, ReimbursementParseError, parse_reimbursement,
}
use vela_relay.Settlement.Calldata

pub record StablecoinConfig : Type 0 where
  pub symbol : Text
  pub decimals : ℕ

-- The stablecoins are a map from addresses.
pub record ChainAssetConfig : Type 0 where
  pub native_decimals : ℕ
  pub settlement_markup_bps : ℕ
  pub stablecoins : List (Address × StablecoinConfig)

pub record SettlementInput : Type 0 where
  pub call_data : Bytes
  pub gas_native_cost : ℕ

pub data SettlementRejection : Type 0 where
  malformed_call_data arithmetic_overflow : SettlementRejection
  unsupported_payment_combination insufficient_payment : SettlementRejection

pub record SettlementEvaluation : Type 0 where
  pub reimbursement : Reimbursement
  pub gas_native_cost : ℕ
  pub payment_asset : Option Address
  pub paid_amount : ℕ
  pub required_amount : ℕ
  pub minimum_amount : ℕ
  pub rejection : Option SettlementRejection

-- `char::is_whitespace`.
unfoldable pub is_whitespace : ℕ → Bool
is_whitespace c =
    leb 9 c && leb c 13
    || c == 32
    || c == 133
    || c == 160
    || c == 5_760
    || leb 8_192 c && leb c 8_202
    || c == 8_232
    || c == 8_233
    || c == 8_239
    || c == 8_287
    || c == 12_288

unfoldable pub validate_stablecoins :
    List (Address × StablecoinConfig) → Result SettlementError (Unit {0})
unfolding is_whitespace
validate_stablecoins [] = ok tt
validate_stablecoins ((token, asset) ∷ rest) =
    minimum_amount asset.decimals min_stable_fraction_decimals >>= λ floor.
    if all is_whitespace asset.symbol
    then err (invalid_configuration (codes "stablecoin symbol cannot be empty"))
    else validate_stablecoins rest

unfoldable pub validate_config : ChainAssetConfig → Result SettlementError (Unit {0})
validate_config config =
    if ltb config.settlement_markup_bps 10_000
    then err (invalid_configuration (codes "settlement markup cannot be below 10_000 bps"))
    else (minimum_amount config.native_decimals min_native_fraction_decimals >>= λ floor.
        validate_stablecoins config.stablecoins)

unfoldable pub find_stablecoin :
    Address → List (Address × StablecoinConfig) → Option StablecoinConfig
find_stablecoin token [] = none
find_stablecoin token ((key, asset) ∷ rest) =
    let later : Option StablecoinConfig = find_stablecoin token rest in
    if token == key then some asset else later

abbrev pub no_reimbursement : Reimbursement
no_reimbursement = record { native = 0; stablecoins = [] }

-- The verdict on an amount that was paid: short of the requirement, or accepted.
unfoldable pub shortfall : ℕ → ℕ → Option SettlementRejection
shortfall paid required = if ltb paid required then some insufficient_payment else none

-- An evaluation that credits nothing.
unfoldable pub unpaid : Reimbursement → ℕ → ℕ → ℕ → SettlementRejection → SettlementEvaluation
unpaid reimbursement gas_native_cost marked_cost native_floor rejection = record {
  reimbursement = reimbursement;
  gas_native_cost = gas_native_cost;
  payment_asset = none;
  paid_amount = 0;
  required_amount = max marked_cost native_floor;
  minimum_amount = native_floor;
  rejection = some rejection;
}

unfoldable pub rejected_parse : ℕ → ℕ → ℕ → ReimbursementParseError → SettlementEvaluation
unfolding unpaid
rejected_parse gas_native_cost marked_cost native_floor Calldata.malformed_call_data =
    unpaid no_reimbursement gas_native_cost marked_cost native_floor malformed_call_data
rejected_parse gas_native_cost marked_cost native_floor Calldata.arithmetic_overflow =
    unpaid no_reimbursement gas_native_cost marked_cost native_floor arithmetic_overflow

-- `evaluate_one`, by whether a native amount was paid and by the stablecoins that were.
unfoldable pub evaluate_paid :
    Bool
    → List (Address × ℕ)
    → Reimbursement
    → ℕ
    → ℕ
    → ℕ
    → ChainAssetConfig
    → Option ℕ
    → Result SettlementError SettlementEvaluation
unfolding shortfall unpaid
evaluate_paid true [] reimbursement gas_native_cost marked_cost native_floor config price =
    ok (record {
      reimbursement = reimbursement;
      gas_native_cost = gas_native_cost;
      payment_asset = none;
      paid_amount = reimbursement.native;
      required_amount = max marked_cost native_floor;
      minimum_amount = native_floor;
      rejection = shortfall reimbursement.native (max marked_cost native_floor);
    })
evaluate_paid false ((token, paid) ∷ []) reimbursement gas_native_cost marked_cost native_floor
      config price =
    do
      asset ←
          ok_or (find_stablecoin token config.stablecoins)
            (invalid_configuration (codes "parsed stablecoin is not in the trusted asset policy"))
      native_usd_price ← ok_or price missing_native_usd_price
      converted ←
          native_to_usd_stable_ceil marked_cost config.native_decimals native_usd_price
            asset.decimals
      stable_floor ← minimum_amount asset.decimals min_stable_fraction_decimals
      ok (record {
        reimbursement = reimbursement;
        gas_native_cost = gas_native_cost;
        payment_asset = some token;
        paid_amount = paid;
        required_amount = max converted stable_floor;
        minimum_amount = stable_floor;
        rejection = shortfall paid (max converted stable_floor);
      })
evaluate_paid false [] reimbursement gas_native_cost marked_cost native_floor config price =
    ok (unpaid reimbursement gas_native_cost marked_cost native_floor insufficient_payment)
evaluate_paid _ _ reimbursement gas_native_cost marked_cost native_floor config price =
    ok (
      unpaid reimbursement gas_native_cost marked_cost native_floor unsupported_payment_combination)

unfoldable pub evaluate_one :
    Reimbursement
    → ℕ
    → ℕ
    → ℕ
    → ChainAssetConfig
    → Option ℕ
    → Result SettlementError SettlementEvaluation
unfolding evaluate_paid
evaluate_one reimbursement =
    evaluate_paid (not (reimbursement.native == 0)) reimbursement.stablecoins reimbursement

-- An arithmetic overflow in one operation rejects that operation, and no other.
unfoldable pub contain_overflow :
    ℕ
    → ℕ
    → ℕ
    → Result SettlementError SettlementEvaluation
    → Result SettlementError SettlementEvaluation
unfolding unpaid
contain_overflow gas_native_cost marked_cost native_floor (err Settlement.arithmetic_overflow) =
    ok (unpaid no_reimbursement gas_native_cost marked_cost native_floor arithmetic_overflow)
contain_overflow gas_native_cost marked_cost native_floor result = result

-- The body of the loop of `evaluate_batch`, by what the call data was parsed to.
unfoldable pub evaluate_parsed :
    ChainAssetConfig
    → Option ℕ
    → ℕ
    → ℕ
    → ℕ
    → Result ReimbursementParseError Reimbursement
    → Result SettlementError SettlementEvaluation
unfolding rejected_parse evaluate_one contain_overflow
evaluate_parsed config price gas_native_cost marked_cost native_floor (ok reimbursement) =
    contain_overflow gas_native_cost marked_cost native_floor
      (evaluate_one reimbursement gas_native_cost marked_cost native_floor config price)
evaluate_parsed config price gas_native_cost marked_cost native_floor (err error) =
    ok (rejected_parse gas_native_cost marked_cost native_floor error)

unfoldable pub evaluate_input :
    Address
    → ChainAssetConfig
    → Option ℕ
    → ℕ
    → SettlementInput
    → Result SettlementError SettlementEvaluation
unfolding evaluate_parsed
evaluate_input recipient config price native_floor input =
    mul_div_ceil input.gas_native_cost config.settlement_markup_bps 10_000 >>= λ marked_cost.
    evaluate_parsed config price input.gas_native_cost marked_cost native_floor
      (parse_reimbursement input.call_data recipient (map (λ entry. entry.0) config.stablecoins))

unfoldable pub evaluate_inputs :
    (SettlementInput → Result SettlementError SettlementEvaluation)
    → List SettlementInput
    → Result SettlementError (List SettlementEvaluation)
evaluate_inputs evaluate [] = ok []
evaluate_inputs evaluate (input ∷ inputs) = do
  evaluation ← evaluate input
  rest ← evaluate_inputs evaluate inputs
  ok (evaluation ∷ rest)

unfoldable pub evaluate_batch :
    Address
    → ChainAssetConfig
    → List SettlementInput
    → Option ℕ
    → Result SettlementError (List SettlementEvaluation)
unfolding evaluate_inputs evaluate_input
evaluate_batch recipient config inputs price = do
  validated ← validate_config config
  native_floor ← enforced_native_minimum config.native_decimals price
  evaluate_inputs (evaluate_input recipient config price native_floor) inputs

abbrev pub accepted : SettlementEvaluation → Bool
accepted evaluation = elim evaluation.rejection [ none ↦ true | some _ ↦ false ]

abbrev pub is_shortfall : SettlementEvaluation → Bool
is_shortfall evaluation = elim evaluation.rejection [ some insufficient_payment ↦ true | _ ↦ false ]

unfoldable pub paid_ratio_bps : SettlementEvaluation → ℕ
paid_ratio_bps evaluation =
    if evaluation.required_amount == 0
    then 10_000
    else min (evaluation.paid_amount * 10_000 / evaluation.required_amount) (u64_mod - 1)

abbrev pub all_accepted : List SettlementEvaluation → Bool
all_accepted = all accepted
