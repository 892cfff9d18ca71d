-- ===== src/Settlement/Repricing.antt =====
-- vela-relay-core/src/settlement.rs: the fees of `decide_submission_fees` and `decide_settlement`.
use native.Mathlib.Nat.{mul-le-mul_left}
use vela_relay.Prelude.{
  ℕ, ◌+◌, ◌*◌, ◌/◌, ◌≤◌, ◌<◌, ◌≡◌, some-eq-some, some, min, true, List, arith, Option-cases,
  >>=-eq-some, inl, inr,
}
use mathlib.Core.Path.{subst}
use vela_relay.Prelude.Words.{u128_mod, checked_mul, checked-eq-some}
use vela_relay.Prelude.Result.{ok, >>=-eq-ok, ok-eq-ok}
use vela_relay.GasMath.{SubmissionTier, tip_of}
use vela_relay.GasMath.Fees.{OuterFee, tier_outer_fee, delivers_full_tip_at}
use vela_relay.GasMath.Fees.Delivery.{
  tier_outer_fee_eq, delivers_full_tip_at_iff, tier_outer_fee_fits, tier_outer_fee_covers,
}
use vela_relay.Settlement.Evaluation.{SettlementEvaluation, all_accepted}
use vela_relay.Settlement.Decision.{
  FeeContext, Bundle, reprice, inclusion_floor_fee_per_gas, fitted_fee, fit_headroom, fit_requested,
  decide_submission_fees, evaluate_at, settle, decide_settlement,
}

-- The inclusion floor covers the base fee and the whole tip, where it is configured as a multiple.
pub inclusion_floor_covers :
    (base tip bps : ℕ) {floor : ℕ}
    → 10_000 ≤ bps
    → inclusion_floor_fee_per_gas base tip bps ≡ some floor
    → base + tip ≤ floor
unfolding inclusion_floor_fee_per_gas
inclusion_floor_covers base tip bps le h =
    let (s, hs, k) = >>=-eq-some (checked_mul u128_mod base bps) _ h in
    let p = checked-eq-some u128_mod (base * bps) hs in
    let q = checked-eq-some u128_mod (s / 10_000 + tip) k in
    let m : base * 10_000 ≤ base * bps = mul-le-mul_left base le in omega arith

-- The fitted pair, for a requested pair whose cap fits in a word.
fitted_fee_lem :
    (requested : OuterFee) (base headroom slowest fundable : ℕ)
    → base + requested.max_priority_fee_per_gas < u128_mod
    → slowest ≤ requested.max_priority_fee_per_gas
    → let signed : OuterFee = fitted_fee requested base headroom slowest fundable in
      (base + signed.max_priority_fee_per_gas ≤ signed.max_fee_per_gas)
      × (slowest ≤ signed.max_priority_fee_per_gas)
      × (signed.max_priority_fee_per_gas ≤ requested.max_priority_fee_per_gas)
unfolding fitted_fee
fitted_fee_lem requested base headroom slowest fundable lt le = ground arith

-- What either branch signs, as a statement of the pair.
DeliversTip : OuterFee → ℕ → ℕ → ℕ → Type 0
DeliversTip signed base slowest tip =
    (base + signed.max_priority_fee_per_gas ≤ signed.max_fee_per_gas)
    × (slowest ≤ signed.max_priority_fee_per_gas)
    × (signed.max_priority_fee_per_gas ≤ tip)

fit_headroom_fee :
    (bundle : Bundle) (fees : FeeContext) (requested : OuterFee) (headroom : ℕ) {signed : OuterFee}
    → fit_headroom bundle fees requested headroom ≡ ok (some signed)
    → (fundable : ℕ) × (fitted_fee requested fees.base_fee_per_gas headroom
          (min fees.tier_tips.floor requested.max_priority_fee_per_gas)
          fundable
        ≡ signed)
unfolding fit_headroom
fit_headroom_fee bundle fees requested headroom h =
    let (operations, hs, k) = >>=-eq-ok (evaluate_at bundle _) _ h in (_, some-eq-some (ok-eq-ok k))

fit_requested_lem :
    (bundle : Bundle) (fees : FeeContext) (requested : OuterFee) {signed : OuterFee}
    → fees.base_fee_per_gas + requested.max_priority_fee_per_gas < u128_mod
    → fees.base_fee_per_gas + requested.max_priority_fee_per_gas ≤ requested.max_fee_per_gas
    → fit_requested bundle fees requested ≡ ok (some signed)
    → DeliversTip signed fees.base_fee_per_gas
        (min fees.tier_tips.floor requested.max_priority_fee_per_gas)
        requested.max_priority_fee_per_gas
unfolding fit_requested DeliversTip
fit_requested_lem bundle fees requested {signed} lt le h =
    let tip = requested.max_priority_fee_per_gas in
    let le_tip : min fees.tier_tips.floor tip ≤ tip = omega arith in
    elim (Option-cases
      (inclusion_floor_fee_per_gas fees.base_fee_per_gas 0 fees.inclusion_floor_bps)) [
        | inl e ↦ ground arith
        | inr (headroom, e) ↦
            let (fundable, eq) = fit_headroom_fee bundle fees requested headroom (ground arith) in
            subst (λ s. DeliversTip s fees.base_fee_per_gas (min fees.tier_tips.floor tip) tip) eq
              (fitted_fee_lem requested fees.base_fee_per_gas headroom
                (min fees.tier_tips.floor tip) fundable lt le_tip)
      ]

decided_fee :
    (bundle : Bundle) (fees : FeeContext) (tier : SubmissionTier) {signed : OuterFee}
    → fees.requested_tier ≡ some tier
    → decide_submission_fees bundle fees ≡ ok (some signed)
    → (requested : OuterFee) × (tier_outer_fee tier fees.base_fee_per_gas fees.tier_tips
        ≡ some requested)
      × (fit_requested bundle fees requested ≡ ok (some signed))
unfolding decide_submission_fees
decided_fee bundle fees tier e h =
    elim (Option-cases (tier_outer_fee tier fees.base_fee_per_gas fees.tier_tips)) [
      | inl f ↦ ground arith
      | inr (requested, f) ↦ (requested, f, ground arith)
    ]

delivers :
    (fee : OuterFee) (base : ℕ)
    → base + fee.max_priority_fee_per_gas ≤ fee.max_fee_per_gas
    → delivers_full_tip_at fee base ≡ true
delivers fee base le = (delivers_full_tip_at_iff fee base).1 (inr le)

-- The pair that is signed for a named speed delivers its whole tip at the base fee that it was
-- read at. The tip is at most the tier's, and at least the lower of the tier's and the window's
-- floor.
pub decide_submission_fees-delivers :
    (bundle : Bundle) (fees : FeeContext) (tier : SubmissionTier) {signed : OuterFee}
    → fees.requested_tier ≡ some tier
    → decide_submission_fees bundle fees ≡ ok (some signed)
    → (delivers_full_tip_at signed fees.base_fee_per_gas ≡ true)
      × (min fees.tier_tips.floor (tip_of fees.tier_tips tier) ≤ signed.max_priority_fee_per_gas)
      × (signed.max_priority_fee_per_gas ≤ tip_of fees.tier_tips tier)
unfolding DeliversTip
decide_submission_fees-delivers bundle fees tier {signed} e h =
    let base = fees.base_fee_per_gas in
    let (requested, f, k) = decided_fee bundle fees tier e h in
    let eq = tier_outer_fee_eq tier base fees.tier_tips f in
    let fits = tier_outer_fee_fits tier base fees.tier_tips f in
    let covers = tier_outer_fee_covers tier base fees.tier_tips f in
    let signed_tip = fit_requested_lem bundle fees requested (omega arith) (omega arith) k in
    (delivers signed base signed_tip.0, omega arith, omega arith)

settle-reprice :
    (bundle : Bundle) (fees : FeeContext) (settlement : List SettlementEvaluation) {fee : ℕ}
    {repriced : List SettlementEvaluation}
    → settle bundle fees settlement ≡ ok (reprice fee repriced)
    → (floor : ℕ) × (inclusion_floor_fee_per_gas fees.base_fee_per_gas fees.max_priority_fee_per_gas
          fees.inclusion_floor_bps
        ≡ some floor)
      × (floor ≤ fee)
      × (fee < fees.quoted_fee_per_gas)
      × (evaluate_at bundle fee ≡ ok repriced)
      × (all_accepted repriced ≡ true)
unfolding settle
settle-reprice bundle fees settlement h =
    elim (Option-cases (
      inclusion_floor_fee_per_gas fees.base_fee_per_gas fees.max_priority_fee_per_gas
        fees.inclusion_floor_bps)) [
          | inl e ↦ ground arith
          | inr (floor, e) ↦ (floor, e, ground arith, ground arith, ground arith, ground arith)
        ]

-- A bundle is repriced only to a cap that is no less than the inclusion floor and below the quoted
-- cap, and at that cap every one of its operations is accepted.
pub decide_settlement-reprice :
    (bundle : Bundle) (fees : FeeContext) {fee : ℕ} {repriced : List SettlementEvaluation}
    → decide_settlement bundle fees ≡ ok (reprice fee repriced)
    → (floor : ℕ) × (inclusion_floor_fee_per_gas fees.base_fee_per_gas fees.max_priority_fee_per_gas
          fees.inclusion_floor_bps
        ≡ some floor)
      × (floor ≤ fee)
      × (fee < fees.quoted_fee_per_gas)
      × (evaluate_at bundle fee ≡ ok repriced)
      × (all_accepted repriced ≡ true)
unfolding decide_settlement
decide_settlement-reprice bundle fees h =
    let (s, hs, k) = >>=-eq-ok (evaluate_at bundle fees.quoted_fee_per_gas) _ h in
    settle-reprice bundle fees s k
