-- ===== src/Execution/TempoBundleSafety.antt =====
-- vela-relay-core/src/execution.rs: a proven bundle on Tempo is judged, funded and signed by the
-- rules.
use vela_relay.Prelude.{
  ℕ, ◌≡◌, ◌∙◌, Bool, true, false, ◌||◌, not, Option, none, some, List, [], ◌∷◌, max, ltb,
}
use vela_relay.Settlement.Calldata.{Bytes}
use vela_relay.Prelude.Text.{codes}
use vela_relay.Tempo.{tempo_float_min}
use vela_relay.Execution.Discipline.{Obeys, Obeys-weaken}
use vela_relay.Execution.Sending.{Crates}
use vela_relay.Execution.TempoFunding.{ensure_tempo_funding}
use vela_relay.Execution.TempoSafety.{GivenBack, ensure_tempo_funding-Obeys}
use vela_relay.Execution.Candidates.{Candidate}
use vela_relay.Execution.Results.{Results, pure, of, record_candidates_deferred}
use vela_relay.Execution.Gate.{Proven}
use vela_relay.Execution.TempoBundle.{
  find_other_token, reject_other_token, reject_tempo_payment, judge_tempo_payment,
  judge_tempo_payments, payment_of, TempoOuter, sign_tempo_funded, fund_tempo_relayer,
  fund_and_sign_tempo, price_tempo_bundle, execute_unless_other, execute_tempo_bundle,
  tempo_outer_of, tempo_sign_request,
}
use vela_relay.Execution.Outbox.{tempo_bundle, tempo_wording}
use vela_relay.Execution.LaneRules.{View, lane_rules, Kept, Holds, Ready, Complete, quieted}
use vela_relay.Execution.LaneSteps.{
  Obeys-lane_if, quiet_then, quiet_read, last_then, last_read, Holds-settle_slot,
  record_candidates_deferred-Ready,
}
use vela_relay.Execution.SimulationSafety.{ensured_then}
use vela_relay.Execution.SubmissionSafety.{sign_and_broadcast-Complete}
use vela_relay.Execution.BundleSafety.{lifted-Ready}

module _ (k : Kept) where
  reject_other_token-Ready :
      (c : Candidate) (v : View) (slots : Results)
      → Holds k v slots
      → Obeys lane_rules (Ready k) v (reject_other_token c slots)
  unfolding reject_other_token
  reject_other_token-Ready c v slots h =
      (tt, λ o. quiet_read k _ _ _ slots h (λ u e. Holds-settle_slot k v c.result_index _ slots h))

  reject_tempo_payment-Ready :
      (c : Candidate) (paid required : ℕ) (valid : Bool) (v : View) (slots : Results)
      → Holds k v slots
      → Obeys lane_rules (Ready k) v (reject_tempo_payment c paid required valid slots)
  unfolding reject_tempo_payment
  reject_tempo_payment-Ready c paid required valid v slots h =
      let settled = Holds-settle_slot k v c.result_index _ slots h in
      (
        tt,
        λ o. quiet_read k _ _ _ slots h (λ u e. quiet_read k _ _ _ _ settled (λ u e. (
          tt,
          λ o.
              quiet_read k _ _ _ _ settled
                (λ u e. (tt, λ o. quiet_read k _ _ _ _ settled (λ u e. settled))),
        ))),
      )

  judge_tempo_payment-Ready :
      (crates : Crates) (b : Proven) (c : Candidate) (cost : ℕ) (v : View) (slots : Results)
      → Holds k v slots
      → Obeys lane_rules (Ready k) v (judge_tempo_payment crates b c cost slots)
  unfolding judge_tempo_payment
  judge_tempo_payment-Ready crates b c cost v slots h = quiet_read k v _ _ slots h (λ required e.
      Obeys-lane_if (Ready k) v
        (ltb (payment_of crates b c).0 required || not (payment_of crates b c).1)
        (reject_tempo_payment c (payment_of crates b c).0 required (payment_of crates b c).1)
        (pure false) slots
        (reject_tempo_payment-Ready c (payment_of crates b c).0 required (payment_of crates b c).1 v
          slots h)
        h)

  judge_tempo_payments-Ready :
      (crates : Crates) (b : Proven) (candidates : List Candidate) (costs : List ℕ) (v : View)
      (slots : Results)
      → Holds k v slots
      → Obeys lane_rules (Ready k) v (judge_tempo_payments crates b candidates costs slots)
  unfolding judge_tempo_payments
  judge_tempo_payments-Ready crates b [] costs v slots h = h
  judge_tempo_payments-Ready crates b (c ∷ candidates) [] v slots h = h
  judge_tempo_payments-Ready crates b (c ∷ candidates) (cost ∷ costs) v slots h =
      quiet_then k v (judge_tempo_payment crates b c cost slots) _
        (judge_tempo_payment-Ready crates b c cost v slots h)
        (λ v' left slots' h'.
          quiet_then k v' (judge_tempo_payments crates b candidates costs slots') _
            (judge_tempo_payments-Ready crates b candidates costs v' slots' h')
            (λ v'' rest slots'' h''. h''))

  fund_tempo_relayer-Ready :
      (crates : Crates) (b : Proven) (o : TempoOuter) (balance prefund : ℕ) (v : View)
      (slots : Results)
      → Holds k v slots
      → Obeys lane_rules (Ready k) v (fund_tempo_relayer crates b o balance prefund slots)
  unfolding fund_tempo_relayer
  fund_tempo_relayer-Ready crates b o balance prefund v slots h =
      Obeys-lane_if (Ready k) v (ltb balance (max prefund tempo_float_min))
        (of (ensure_tempo_funding crates b.policy b.chain_id balance prefund o.outer_max_fee))
        (pure true) slots
        (lifted-Ready k GivenBack (λ m r h. h)
          (ensure_tempo_funding crates b.policy b.chain_id balance prefund o.outer_max_fee) v slots
          h
          (ensure_tempo_funding-Obeys crates b.policy v.funds b.chain_id balance prefund
            o.outer_max_fee (h.2)))
        h

module _ (k : Kept) (own : k.owned ≡ true) (unprepared : k.unprepared ≡ true) where
  sign_tempo_funded-Complete :
      (crates : Crates) (b : Proven) (o : TempoOuter) (ready : Bool) (v : View) (slots : Results)
      → Holds k v slots
      → Obeys lane_rules (Complete k.size) v (sign_tempo_funded crates b o ready slots)
  unfolding sign_tempo_funded
  sign_tempo_funded-Complete crates b o false v slots h =
      Obeys-weaken lane_rules (Ready k) (Complete k.size) (λ w x held. held.4) v
        (record_candidates_deferred b.survivors (codes "funding")
          (codes "waiting for relayer pathUSD funding transaction confirmation") slots)
        (record_candidates_deferred-Ready k b.survivors _ _ v slots h)
  sign_tempo_funded-Complete crates b o true v slots h =
      ensured_then k v slots _ (h.0 ∙ own) h (λ v' held same h'.
        sign_and_broadcast-Complete k own crates tempo_wording b
          (tempo_bundle (tempo_sign_request b o)) _ o.gas_limit v' slots
          (h'.0 ∙ own, held, h'.1 ∙ unprepared) h')

  fund_and_sign_tempo-Complete :
      (crates : Crates) (b : Proven) (calldata : Bytes) (base nonce balance : ℕ) (v : View)
      (slots : Results)
      → Holds k v slots
      → Obeys lane_rules
          (Complete k.size)
          v
          (fund_and_sign_tempo crates b calldata base nonce balance slots)
  unfolding fund_and_sign_tempo
  fund_and_sign_tempo-Complete crates b calldata base nonce balance v slots h =
      last_read k v _ _ slots h.4 (λ gas e. last_read k v _ _ slots h.4 (λ fee e.
        last_read k v _ _ slots h.4 (λ prefund e.
          last_then k v
            (fund_tempo_relayer crates b (tempo_outer_of nonce calldata gas fee) balance prefund
              slots)
            _
            (fund_tempo_relayer-Ready k crates b (tempo_outer_of nonce calldata gas fee) balance
              prefund v slots h)
            (λ v' ready slots' h'.
              sign_tempo_funded-Complete crates b (tempo_outer_of nonce calldata gas fee) ready v'
                slots' h'))))

  price_tempo_bundle-Complete :
      (crates : Crates) (b : Proven) (v : View) (slots : Results)
      → Holds k v slots
      → Obeys lane_rules (Complete k.size) v (price_tempo_bundle crates b slots)
  unfolding price_tempo_bundle
  price_tempo_bundle-Complete crates b v slots h = (
    tt,
    λ o. last_read k _ _ _ slots h.4 (λ context e. last_read k _ _ _ slots h.4 (λ allocations e.
        last_read k _ _ _ slots h.4 (λ costs e.
          last_then k (quieted v) (judge_tempo_payments crates b b.survivors costs slots) _
            (judge_tempo_payments-Ready k crates b b.survivors costs (quieted v) slots h)
            (λ v' rejected slots' h'. Obeys-lane_if (Complete k.size) v' rejected _ _ slots' h'.4 (
              fund_and_sign_tempo-Complete crates b _ context.0 context.1 context.2 v' slots'
                h'))))),
  )

  execute_unless_other-Complete :
      (crates : Crates) (b : Proven) (other : Option Candidate) (v : View) (slots : Results)
      → Holds k v slots
      → Obeys lane_rules (Complete k.size) v (execute_unless_other crates b other slots)
  unfolding execute_unless_other
  execute_unless_other-Complete crates b (some c) v slots h =
      Obeys-weaken lane_rules (Ready k) (Complete k.size) (λ w x held. held.4) v
        (reject_other_token c slots) (reject_other_token-Ready k c v slots h)
  execute_unless_other-Complete crates b none v slots h =
      price_tempo_bundle-Complete crates b v slots h

  pub execute_tempo_bundle-Complete :
      (crates : Crates) (b : Proven) (v : View) (slots : Results)
      → Holds k v slots
      → Obeys lane_rules (Complete k.size) v (execute_tempo_bundle crates b slots)
  unfolding execute_tempo_bundle
  execute_tempo_bundle-Complete crates b v slots h =
      execute_unless_other-Complete crates b (find_other_token b.survivors) v slots h
