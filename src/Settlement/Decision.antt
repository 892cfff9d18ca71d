-- ===== src/Settlement/Decision.antt =====
-- vela-relay-core/src/settlement.rs: the outer fee that a bundle is signed at, fitted to what its
-- payers fund.
use vela_relay.Prelude.{
  ℕ, zero, suc, ◌+◌, ◌-◌, ◌*◌, ◌/◌, ◌%◌, Option, none, some, min, max, ltb, leb, ◌==◌, ◌||◌, ◌&&◌,
  not, Bool, true, false, if◌then◌else◌, List, [], ◌∷◌, length, all, any, map, unwrap_or,
}
use vela_relay.Prelude
use vela_relay.Prelude.Words.{u128_mod, checked_add, checked_mul, saturating_add}
use vela_relay.Prelude.Result.{Result, ok, err, ok_or, ◌>>=◌}
use vela_relay.Cost.{native_cost}
use vela_relay.GasMath.{SubmissionTier, TierTips}
use vela_relay.GasMath.Fees.{OuterFee, tier_outer_fee}
use vela_relay.Settlement.{SettlementError}
use vela_relay.Settlement.Calldata.{Bytes, Address}
use vela_relay.Settlement.Evaluation.{
  ChainAssetConfig, SettlementInput, SettlementEvaluation, evaluate_batch, accepted, is_shortfall,
  all_accepted, paid_ratio_bps,
}

-- `min()` of an iterator.
unfoldable pub minimum : List ℕ → Option ℕ
minimum [] = none
minimum (x ∷ xs) = elim (minimum xs) [ none ↦ some x | some least ↦ some (min x least) ]

unfoldable pub affordable_fee_per_gas : ℕ → List SettlementEvaluation → Option ℕ
unfolding minimum
affordable_fee_per_gas quoted_max_fee_per_gas evaluations =
    Prelude.◌>>=◌ (minimum (map paid_ratio_bps evaluations)) (λ weakest.
      Prelude.◌>>=◌ (checked_mul u128_mod quoted_max_fee_per_gas (min weakest 10_000))
        (λ scaled. if ltb 0 (scaled / 10_000) then some (scaled / 10_000) else none))

unfoldable pub fundable_fee_per_gas : ℕ → List SettlementEvaluation → Option ℕ
unfolding minimum
fundable_fee_per_gas reference_fee_per_gas evaluations =
    Prelude.◌>>=◌ (minimum (map paid_ratio_bps evaluations)) (λ weakest.
      some (elim (checked_mul u128_mod reference_fee_per_gas weakest) [
        | none ↦ u128_mod - 1
        | some scaled ↦ scaled / 10_000
      ]))

unfoldable pub inclusion_floor_fee_per_gas : ℕ → ℕ → ℕ → Option ℕ
inclusion_floor_fee_per_gas base_fee_per_gas max_priority_fee_per_gas floor_bps =
    Prelude.◌>>=◌ (checked_mul u128_mod base_fee_per_gas floor_bps)
      (λ scaled. checked_add u128_mod (scaled / 10_000) max_priority_fee_per_gas)

pub record FeeContext : Type 0 where
  pub quoted_fee_per_gas : ℕ
  pub base_fee_per_gas : ℕ
  pub max_priority_fee_per_gas : ℕ
  pub inclusion_floor_bps : ℕ
  pub requested_tier : Option SubmissionTier
  pub tier_tips : TierTips

pub data SettlementDecision : Type 0 where
  keep_quote : List SettlementEvaluation → SettlementDecision
  floor_unfundable : List SettlementEvaluation → ℕ → ℕ → SettlementDecision
  reprice : ℕ → List SettlementEvaluation → SettlementDecision

pub data SettlementDecisionError : Type 0 where
  cost_overflow : SettlementDecisionError
  evaluation_failed : SettlementError → SettlementDecisionError

-- The bundle that a decision is about.
pub record Bundle : Type 0 where
  pub recipient : Address
  pub chain_assets : ChainAssetConfig
  pub call_datas : List Bytes
  pub allocations : List ℕ
  pub native_usd_price : Option ℕ

unfoldable pub costs_at : List ℕ → ℕ → Result SettlementDecisionError (List ℕ)
costs_at [] fee = ok []
costs_at (gas ∷ allocations) fee = do
  cost ← ok_or (native_cost gas fee) cost_overflow
  rest ← costs_at allocations fee
  ok (cost ∷ rest)

-- `zip` of the call data and the costs.
unfoldable pub inputs_of : List Bytes → List ℕ → List SettlementInput
inputs_of (call_data ∷ call_datas) (cost ∷ costs) =
    record { call_data = call_data; gas_native_cost = cost } ∷ inputs_of call_datas costs
inputs_of _ _ = []

unfoldable pub map_evaluation_error {ℓ} :
    {A : Type ℓ} → Result SettlementError A → Result SettlementDecisionError A
map_evaluation_error (ok a) = ok a
map_evaluation_error (err e) = err (evaluation_failed e)

unfoldable pub evaluate_at : Bundle → ℕ → Result SettlementDecisionError (List SettlementEvaluation)
unfolding costs_at inputs_of map_evaluation_error
evaluate_at bundle fee = do
  costs ← costs_at bundle.allocations fee
  map_evaluation_error (
      evaluate_batch bundle.recipient bundle.chain_assets (inputs_of bundle.call_datas costs)
        bundle.native_usd_price)

-- The pair that is signed, once it is known what the payers fund.
unfoldable pub fitted_fee : OuterFee → ℕ → ℕ → ℕ → ℕ → OuterFee
fitted_fee requested base headroom slowest fundable =
    let tip : ℕ = requested.max_priority_fee_per_gas in
    let floor_with_tip : ℕ = saturating_add u128_mod headroom tip in
    let floor_with_slowest : ℕ = saturating_add u128_mod headroom slowest in
    let cap : ℕ =
      if leb floor_with_tip fundable
      then min (max requested.max_fee_per_gas floor_with_tip) fundable
      else if leb floor_with_slowest fundable
      then fundable
      else floor_with_slowest in
    let signed_tip : ℕ =
      if leb floor_with_tip fundable
      then tip
      else if leb floor_with_slowest fundable
      then fundable - headroom
      else slowest in
    record {
      max_fee_per_gas = max cap (saturating_add u128_mod base signed_tip);
      max_priority_fee_per_gas = signed_tip;
    }

-- The tier's pair fitted to the payments, above the base-fee headroom that every cap keeps.
unfoldable pub fit_headroom :
    Bundle → FeeContext → OuterFee → ℕ → Result SettlementDecisionError (Option OuterFee)
unfolding fitted_fee fundable_fee_per_gas
fit_headroom bundle fees requested headroom =
    let tip : ℕ = requested.max_priority_fee_per_gas in
    let reference : ℕ = max requested.max_fee_per_gas (saturating_add u128_mod headroom tip) in
    evaluate_at bundle reference >>= λ operations. ok (
      some (
        fitted_fee requested fees.base_fee_per_gas headroom (min fees.tier_tips.floor tip)
          (unwrap_or (fundable_fee_per_gas reference operations) requested.max_fee_per_gas)))

-- `decide_submission_fees` for a tier whose own pair is `requested`.
unfoldable pub fit_requested :
    Bundle → FeeContext → OuterFee → Result SettlementDecisionError (Option OuterFee)
unfolding fit_headroom
fit_requested bundle fees requested =
    elim (inclusion_floor_fee_per_gas fees.base_fee_per_gas 0 fees.inclusion_floor_bps) [
      | none ↦ ok (some requested)
      | some headroom ↦ fit_headroom bundle fees requested headroom
    ]

unfoldable pub decide_submission_fees :
    Bundle → FeeContext → Result SettlementDecisionError (Option OuterFee)
unfolding fit_requested
decide_submission_fees bundle fees = elim fees.requested_tier [
  | none ↦ ok none
  | some tier ↦ elim (tier_outer_fee tier fees.base_fee_per_gas fees.tier_tips) [
    | none ↦ ok none
    | some requested ↦ fit_requested bundle fees requested
  ]
]

-- No price cures this rejection.
unfoldable pub is_incurable : SettlementEvaluation → Bool
is_incurable evaluation = not (accepted evaluation) && not (is_shortfall evaluation)

-- The last step of `decide_settlement`: the bundle at the lower cap.
unfoldable pub try_reprice :
    Bundle → List SettlementEvaluation → ℕ → Result SettlementDecisionError SettlementDecision
try_reprice bundle settlement affordable = evaluate_at bundle affordable >>= λ repriced.
    if all_accepted repriced then ok (reprice affordable repriced) else ok (keep_quote settlement)

-- `decide_settlement` for a bundle whose evaluation at the quoted cap is `settlement`.
unfoldable pub settle :
    Bundle
    → FeeContext
    → List SettlementEvaluation
    → Result SettlementDecisionError SettlementDecision
unfolding try_reprice is_incurable
settle bundle fees settlement =
    if all_accepted settlement || any is_incurable settlement
    then ok (keep_quote settlement)
    else elim (affordable_fee_per_gas fees.quoted_fee_per_gas settlement) [
      | none ↦ ok (keep_quote settlement)
      | some affordable ↦
          elim (inclusion_floor_fee_per_gas fees.base_fee_per_gas fees.max_priority_fee_per_gas
            fees.inclusion_floor_bps) [
              | none ↦ ok (keep_quote settlement)
              | some floor ↦
                  if ltb affordable floor || leb fees.quoted_fee_per_gas affordable
                  then ok (floor_unfundable settlement affordable floor)
                  else try_reprice bundle settlement affordable
            ]
    ]

unfoldable pub decide_settlement :
    Bundle → FeeContext → Result SettlementDecisionError SettlementDecision
unfolding settle
decide_settlement bundle fees =
    evaluate_at bundle fees.quoted_fee_per_gas >>= λ settlement. settle bundle fees settlement
