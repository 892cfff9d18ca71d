-- ===== src/Settlement/Verdicts.antt =====
-- vela-relay-core/src/settlement.rs: the verdicts of `evaluate_batch`.
use vela_relay.Prelude.{
  ℕ, suc, ◌*◌, ◌≤◌, ◌≡◌, ◌≢◌, ◌⊎◌, is_some, refl, Option, none, some, ◌==◌, not, Bool, true, false,
  List, [], ◌∷◌, All, length, arith, ap, map,
}
use mathlib.Core.Path.{subst}
use vela_relay.Prelude.Result.{Result, ok, err, >>=-eq-ok, ok-eq-ok}
use vela_relay.Settlement.{SettlementError, mul_div_ceil, enforced_native_minimum}
use vela_relay.Settlement
use vela_relay.Settlement.Calldata
use vela_relay.Settlement.Minimum.{mul_div_ceil_bounds}
use vela_relay.Settlement.Calldata.{
  Address, Reimbursement, ReimbursementParseError, parse_reimbursement,
}
use vela_relay.Settlement.Evaluation.{
  ChainAssetConfig, SettlementInput, SettlementEvaluation, SettlementRejection,
  insufficient_payment, evaluate_paid, evaluate_one, evaluate_input, evaluate_inputs,
  validate_config, evaluate_batch, evaluate_parsed, no_reimbursement, arithmetic_overflow,
  contain_overflow, unpaid, rejected_parse, shortfall,
}

-- The verdict agrees with the amounts: what is accepted paid the required amount, and a native
-- payment the gas's cost with the operator's markup; what is short paid no more than is required;
-- and what is rejected for another reason counts as paying nothing.
unfoldable pub IsSound : ℕ → SettlementEvaluation → Type 0
IsSound markup e =
    (e.minimum_amount ≤ e.required_amount)
    × (((e.rejection ≡ none)
          × (e.required_amount ≤ e.paid_amount)
          × ((is_some e.payment_asset ≡ true)
              ⊎ (e.gas_native_cost * markup ≤ e.paid_amount * 10_000)))
        ⊎ ((e.rejection ≡ some insufficient_payment) × (e.paid_amount ≤ e.required_amount))
        ⊎ ((is_some e.rejection ≡ true)
            × (e.rejection ≢ some insufficient_payment)
            × (e.paid_amount ≡ 0)))

evaluate_paid-IsSound :
    (native : Bool) (stable : List (Address × ℕ)) (r : Reimbursement) (cost marked floor markup : ℕ)
    (config : ChainAssetConfig) (price : Option ℕ) {e : SettlementEvaluation}
    → cost * markup ≤ marked * 10_000
    → evaluate_paid native stable r cost marked floor config price ≡ ok e
    → IsSound markup e
unfolding evaluate_paid shortfall unpaid IsSound
evaluate_paid-IsSound true [] r cost marked floor markup config price {e} le h =
    let gas : e.gas_native_cost ≡ cost = ground arith in
    let p = ap (λ (t : ℕ). t * markup) gas in ground arith
evaluate_paid-IsSound true (s ∷ ss) r cost marked floor markup config price le h = ground arith
evaluate_paid-IsSound false [] r cost marked floor markup config price le h = ground arith
evaluate_paid-IsSound false (s ∷ []) r cost marked floor markup config price le h = ground arith
evaluate_paid-IsSound false (s ∷ t ∷ ss) r cost marked floor markup config price le h = ground arith

unpaid-IsSound :
    (r : Reimbursement) (cost marked floor markup : ℕ) (reason : SettlementRejection)
    → IsSound markup (unpaid r cost marked floor reason)
unfolding IsSound unpaid
unpaid-IsSound r cost marked floor markup reason = ground arith

contain_overflow-IsSound :
    (cost marked floor markup : ℕ) (result : Result SettlementError SettlementEvaluation)
    {e : SettlementEvaluation}
    → ((x : SettlementEvaluation) → result ≡ ok x → IsSound markup x)
    → contain_overflow cost marked floor result ≡ ok e
    → IsSound markup e
unfolding contain_overflow
contain_overflow-IsSound cost marked floor markup (ok x) each h =
    subst (IsSound markup) (ok-eq-ok h) (each x refl)
contain_overflow-IsSound cost marked floor markup (err Settlement.arithmetic_overflow) each h =
    subst (IsSound markup) (ok-eq-ok h)
      (unpaid-IsSound no_reimbursement cost marked floor markup arithmetic_overflow)
contain_overflow-IsSound cost marked floor markup (err (Settlement.invalid_configuration m)) each
      h =
    ground arith
contain_overflow-IsSound cost marked floor markup (err Settlement.missing_native_usd_price) each h =
    ground arith

evaluate_parsed-IsSound :
    (config : ChainAssetConfig) (price : Option ℕ) (cost marked floor : ℕ)
    (parsed : Result ReimbursementParseError Reimbursement) {e : SettlementEvaluation}
    → cost * config.settlement_markup_bps ≤ marked * 10_000
    → evaluate_parsed config price cost marked floor parsed ≡ ok e
    → IsSound config.settlement_markup_bps e
unfolding evaluate_parsed evaluate_one rejected_parse
evaluate_parsed-IsSound config price cost marked floor (ok r) le h =
    contain_overflow-IsSound cost marked floor config.settlement_markup_bps
      (evaluate_one r cost marked floor config price)
      (λ x.
        evaluate_paid-IsSound (not (r.native == 0)) r.stablecoins r cost marked floor
          config.settlement_markup_bps config price le)
      h
evaluate_parsed-IsSound config price cost marked floor (err Calldata.malformed_call_data) le h =
    subst (IsSound config.settlement_markup_bps) (ok-eq-ok h)
      (unpaid-IsSound no_reimbursement cost marked floor config.settlement_markup_bps _)
evaluate_parsed-IsSound config price cost marked floor (err Calldata.arithmetic_overflow) le h =
    subst (IsSound config.settlement_markup_bps) (ok-eq-ok h)
      (unpaid-IsSound no_reimbursement cost marked floor config.settlement_markup_bps _)

evaluate_input-IsSound :
    (recipient : Address) (config : ChainAssetConfig) (price : Option ℕ) (floor : ℕ)
    (input : SettlementInput) {e : SettlementEvaluation}
    → evaluate_input recipient config price floor input ≡ ok e
    → IsSound config.settlement_markup_bps e
unfolding evaluate_input
evaluate_input-IsSound recipient config price floor input h =
    let (marked, hm, k) =
      >>=-eq-ok (mul_div_ceil input.gas_native_cost config.settlement_markup_bps 10_000) _ h in
    evaluate_parsed-IsSound config price input.gas_native_cost marked floor
      (parse_reimbursement input.call_data recipient (map (λ entry. entry.0) config.stablecoins))
      (mul_div_ceil_bounds input.gas_native_cost config.settlement_markup_bps 10_000 hm).0 k

evaluate_inputs-All :
    (P : SettlementEvaluation → Type 0)
    (evaluate : SettlementInput → Result SettlementError SettlementEvaluation)
    → ((input : SettlementInput) (e : SettlementEvaluation) → evaluate input ≡ ok e → P e)
    → (inputs : List SettlementInput) {es : List SettlementEvaluation}
    → evaluate_inputs evaluate inputs ≡ ok es
    → (length es ≡ length inputs) × All P es
unfolding evaluate_inputs
evaluate_inputs-All P evaluate each [] h = ground arith
evaluate_inputs-All P evaluate each (input ∷ inputs) h =
    let (e, he, k) = >>=-eq-ok (evaluate input) _ h in
    let (es, hes, k') = >>=-eq-ok (evaluate_inputs evaluate inputs) _ k in
    let (len, rest) = evaluate_inputs-All P evaluate each inputs hes in
    subst (λ es. (length es ≡ suc (length inputs)) × All P es) (ok-eq-ok k')
      (ap suc len, (each input e he, rest))

-- The evaluation of a batch has one verdict for each operation. Each verdict's minimum is part of
-- its required amount; what is accepted paid the required amount, and, where it named no
-- stablecoin, its gas cost with the operator's markup; what is called short paid no more than is
-- required; and what is rejected for another reason counts as paying nothing.
pub evaluate_batch-IsSound :
    (recipient : Address) (config : ChainAssetConfig) (inputs : List SettlementInput)
    (price : Option ℕ) {es : List SettlementEvaluation}
    → evaluate_batch recipient config inputs price ≡ ok es
    → (length es ≡ length inputs) × All (IsSound config.settlement_markup_bps) es
unfolding evaluate_batch
evaluate_batch-IsSound recipient config inputs price h =
    let (v, hv, k) = >>=-eq-ok (validate_config config) _ h in
    let (floor, hf, k') = >>=-eq-ok (enforced_native_minimum config.native_decimals price) _ k in
    evaluate_inputs-All (IsSound config.settlement_markup_bps)
      (evaluate_input recipient config price floor)
      (λ input e. evaluate_input-IsSound recipient config price floor input) inputs k'
