-- ===== src/Execution/GateSafety.antt =====
-- vela-relay-core/src/execution.rs: the settlement gate leaves the lane as it is.
use vela_relay.Prelude.{ℕ, ◌&&◌, Option, none, some, List, [], ◌∷◌}
use vela_relay.Prelude.Text.{codes}
use vela_relay.GasMath.{SubmissionTier}
use vela_relay.GasMath.Fees.{OuterFee}
use vela_relay.Hold.{HoldDecision, hold, reject_budget_exhausted}
use vela_relay.Settlement.Evaluation.{SettlementEvaluation, accepted, is_shortfall}
use vela_relay.Settlement.Decision.{
  FeeContext, SettlementDecision, keep_quote, floor_unfundable, reprice, Bundle,
}
use vela_relay.Execution.Discipline.{Obeys}
use vela_relay.Execution.Sending.{Crates}
use vela_relay.Execution.Funding.{ExecutionPolicy}
use vela_relay.Execution.Candidates.{Candidate}
use vela_relay.Execution.Results.{Results, record_deferred}
use vela_relay.Execution.Gate.{
  Proven, peg_or_market, market_price_of, take_outer, take_tier, apply_tier, take_decision, Judged,
  reject_payment, judge_hold, judge_deferred, hold_or_reject, judge_payment, judged, judge_payments,
}
use vela_relay.Execution.LaneRules.{quieted, View, lane_rules, Kept, Holds, Ready}
use vela_relay.Execution.LaneSteps.{
  quiet_then, quiet_read, Obeys-lane_if, Holds-settle_slot, record_deferred-Ready,
}

module _ (k : Kept) where
  peg_or_market-Ready :
      (peg : Option ℕ) (v : View) (slots : Results)
      → Holds k v slots
      → Obeys lane_rules (Ready k) v (peg_or_market peg slots)
  unfolding peg_or_market
  peg_or_market-Ready (some price) v slots h = h
  peg_or_market-Ready none v slots h = (tt, λ o. h)

  pub market_price_of-Ready :
      (chain_id : ℕ) (v : View) (slots : Results)
      → Holds k v slots
      → Obeys lane_rules (Ready k) v (market_price_of chain_id slots)
  unfolding market_price_of
  market_price_of-Ready chain_id v slots h = peg_or_market-Ready _ v slots h

  take_outer-Ready :
      (fees : FeeContext) (tier : SubmissionTier) (outer : Option OuterFee) (v : View)
      (slots : Results)
      → Holds k v slots
      → Obeys lane_rules (Ready k) v (take_outer fees tier outer slots)
  unfolding take_outer
  take_outer-Ready fees tier none v slots h = h
  take_outer-Ready fees tier (some outer) v slots h =
      (tt, λ o. quiet_read k _ _ _ slots h (λ u e. h))

  take_tier-Ready :
      (bundle : Bundle) (fees : FeeContext) (tier : Option SubmissionTier) (v : View)
      (slots : Results)
      → Holds k v slots
      → Obeys lane_rules (Ready k) v (take_tier bundle fees tier slots)
  unfolding take_tier
  take_tier-Ready bundle fees none v slots h = h
  take_tier-Ready bundle fees (some tier) v slots h =
      quiet_read k v _ _ slots h (λ outer e. take_outer-Ready fees tier outer v slots h)

  pub apply_tier-Ready :
      (bundle : Bundle) (fees : FeeContext) (v : View) (slots : Results)
      → Holds k v slots
      → Obeys lane_rules (Ready k) v (apply_tier bundle fees slots)
  unfolding apply_tier
  apply_tier-Ready bundle fees v slots h = take_tier-Ready bundle fees fees.requested_tier v slots h

  pub take_decision-Ready :
      (fees : FeeContext) (decision : SettlementDecision) (v : View) (slots : Results)
      → Holds k v slots
      → Obeys lane_rules (Ready k) v (take_decision fees decision slots)
  unfolding take_decision
  take_decision-Ready fees (keep_quote evaluation) v slots h = h
  take_decision-Ready fees (floor_unfundable evaluation affordable floor) v slots h =
      (tt, λ o. quiet_read k _ _ _ slots h (λ u e. h))
  take_decision-Ready fees (reprice fee evaluation) v slots h =
      (tt, λ o. quiet_read k _ _ _ slots h (λ u e. h))

  reject_payment-Ready :
      (j : Judged) (v : View) (slots : Results)
      → Holds k v slots
      → Obeys lane_rules (Ready k) v (reject_payment j slots)
  unfolding reject_payment
  reject_payment-Ready j v slots h =
      let settled = Holds-settle_slot k v j.candidate.result_index _ slots h in
      (
        tt,
        λ o. quiet_read k _ _ _ slots h (λ u e. quiet_read k _ _ _ _ settled (λ u e. (
          tt,
          λ o.
              quiet_read k _ _ _ _ settled
                (λ u e. (tt, λ o. quiet_read k _ _ _ _ settled (λ u e. settled))),
        ))),
      )

  judge_hold-Ready :
      (j : Judged) (attempt : ℕ) (decision : HoldDecision) (v : View) (slots : Results)
      → Holds k v slots
      → Obeys lane_rules (Ready k) v (judge_hold j attempt decision slots)
  unfolding judge_hold
  judge_hold-Ready j attempt (hold reason) v slots h =
      quiet_then k v
        (record_deferred j.candidate.hash_string (codes "in_band_settlement_hold") reason slots) _
        (record_deferred-Ready k j.candidate.hash_string _ reason v slots h)
        (λ v' u slots' h'.
          quiet_read k v' _ _ _ (Holds-settle_slot k v' j.candidate.result_index _ slots' h')
            (λ u e. Holds-settle_slot k v' j.candidate.result_index _ slots' h'))
  judge_hold-Ready j attempt reject_budget_exhausted v slots h =
      (tt, λ o. quiet_read k _ _ _ slots h (λ u e. reject_payment-Ready j (quieted v) slots h))

  judge_deferred-Ready :
      (policy : ExecutionPolicy) (j : Judged) (attempt : Option ℕ) (v : View) (slots : Results)
      → Holds k v slots
      → Obeys lane_rules (Ready k) v (judge_deferred policy j attempt slots)
  unfolding judge_deferred
  judge_deferred-Ready policy j none v slots h = reject_payment-Ready j v slots h
  judge_deferred-Ready policy j (some attempt) v slots h = judge_hold-Ready j attempt _ v slots h

  judge_payment-Ready :
      (policy : ExecutionPolicy) (j : Judged) (v : View) (slots : Results)
      → Holds k v slots
      → Obeys lane_rules (Ready k) v (judge_payment policy j slots)
  unfolding judge_payment hold_or_reject
  judge_payment-Ready policy j v slots h =
      Obeys-lane_if (Ready k) v (accepted j.evaluation && j.stable_logs_valid) _ _ slots h (
        Obeys-lane_if (Ready k) v (is_shortfall j.evaluation && j.stable_logs_valid) _ _ slots
          (
            tt,
            λ o.
                quiet_read k _ _ _ slots h
                  (λ attempt e. judge_deferred-Ready policy j attempt (quieted v) slots h),
          )
          (reject_payment-Ready j v slots h))

  pub judge_payments-Ready :
      (crates : Crates) (b : Proven) (candidates : List Candidate)
      (evaluations : List SettlementEvaluation) (v : View) (slots : Results)
      → Holds k v slots
      → Obeys lane_rules (Ready k) v (judge_payments crates b candidates evaluations slots)
  unfolding judge_payments
  judge_payments-Ready crates b [] evaluations v slots h = h
  judge_payments-Ready crates b (c ∷ candidates) [] v slots h = h
  judge_payments-Ready crates b (c ∷ candidates) (evaluation ∷ evaluations) v slots h =
      quiet_then k v (judge_payment b.policy (judged crates b c evaluation) slots) _
        (judge_payment-Ready b.policy (judged crates b c evaluation) v slots h)
        (λ v' left slots' h'.
          quiet_then k v' (judge_payments crates b candidates evaluations slots') _
            (judge_payments-Ready crates b candidates evaluations v' slots' h')
            (λ v'' rest slots'' h''. h''))
