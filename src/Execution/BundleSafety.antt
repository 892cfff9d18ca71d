-- ===== src/Execution/BundleSafety.antt =====
-- vela-relay-core/src/execution.rs: a proven bundle is priced, funded and signed by the rules.
use vela_relay.Prelude.{
  ℕ, ◌+◌, ◌≤◌, ◌≡◌, ◌∙◌, ap, sym, refl, ◌⊎◌, Bool, true, false, Option, none, some, List, length,
  ltb, arith,
}
use mathlib.Core.Path.{subst}
use vela_relay.Prelude.Result.{Result, ok, err}
use vela_relay.Prelude.Text.{Text, codes}
use vela_relay.GasMath.Fees.{OuterFee, effective_tip_at, delivers_full_tip_at}
use vela_relay.Settlement.Calldata.{Bytes}
use vela_relay.Settlement.Evaluation.{SettlementEvaluation}
use vela_relay.Settlement.Decision.{FeeContext}
use vela_relay.Execution.Operation.{Outcome, TransactionContext}
use vela_relay.Execution.Program.{answered, Fallible}
use vela_relay.Execution.Readings.{read_context}
use vela_relay.Execution.Discipline.{Obeys, Obeys-weaken}
use vela_relay.Execution.Sending.{Crates}
use vela_relay.Execution.Funding.{ensure_native_funding}
use vela_relay.Execution.FundingRules.{Funds, treasury_rules}
use vela_relay.Execution.FundingSafety.{Released, ensure_native_funding-Obeys}
use vela_relay.Execution.Candidates.{Candidate}
use vela_relay.Execution.Results.{Results, pure, of, failed, record_candidates_deferred}
use vela_relay.Execution.Gate.{
  Proven, market_price_of, bundle_of, fee_context, apply_tier, take_decision, judge_payments,
}
use vela_relay.Execution.NativeBundle.{
  funding_wait_finish, cap_or_static, top_up_cap, Outer, sign_request, outer_of, sign_carried,
  sign_outer, wait_for_funding, sign_funded, fund_relayer, fund_and_sign, judge_and_sign,
  price_and_sign, execute_native_bundle,
}
use vela_relay.Execution.Outbox.{native_wording, native_bundle}
use vela_relay.Execution.LaneRules.{
  Carries, View, lane_rules, context_read, Kept, Holds, Ready, Complete,
}
use vela_relay.Execution.LaneLift.{Same, Inside, lift_outside}
use vela_relay.Execution.LaneSteps.{
  Obeys-lane_after, Obeys-lane_if, quiet_read, last_then, last_read, for_each-Ready,
  Holds-settle_slot, record_candidates_deferred-Ready,
}
use vela_relay.Execution.SimulationSafety.{ensured_then}
use vela_relay.Execution.GateSafety.{
  market_price_of-Ready, apply_tier-Ready, take_decision-Ready, judge_payments-Ready,
}
use vela_relay.Execution.SubmissionSafety.{sign_and_broadcast-Complete}

carried :
    (fee : OuterFee) (base_fee : ℕ)
    → delivers_full_tip_at fee base_fee ≡ true
    → (fee.max_priority_fee_per_gas ≡ 0)
      ⊎ (base_fee + fee.max_priority_fee_per_gas ≤ fee.max_fee_per_gas)
unfolding delivers_full_tip_at effective_tip_at
carried fee base_fee h = ground arith

Released-owned : (m : Funds) (r : Result Text Bool) → Released m r → m.owned ≡ false
Released-owned m (ok true) h = h.0
Released-owned m (ok false) h = h
Released-owned m (err reason) h = h

pub Inside-Holds :
    (k : Kept) (v w : View) (slots slots' : Results)
    → Holds k v slots
    → w.funds.owned ≡ false
    → Same v w
    → slots' ≡ slots
    → Holds k w slots'
Inside-Holds k v w slots slots' (a, b, c, d, e) free (a', b', d') s =
    (a' ∙ a, b' ∙ b, free, d' ∙ d, ap length s ∙ e)

-- A top-up inside the pipeline leaves the lane as it was.
pub lifted-Ready :
    {A : Type 0} (k : Kept) (Post : Funds → Result Text A → Type 0)
    → ((m : Funds) (r : Result Text A) → Post m r → m.owned ≡ false)
    → (p : Fallible A) (v : View) (slots : Results) → Holds k v slots
    → Obeys treasury_rules Post v.funds p
    → Obeys lane_rules (Ready k) v (of p slots)
lifted-Ready k Post free p v slots h obeys =
    Obeys-weaken lane_rules (Inside Post v slots) (Ready k)
      (λ w x (post, same, s). Inside-Holds k v w slots x.1 h (free w.funds x.0 post) same s) v
      (of p slots) (lift_outside Post v v slots p (refl, refl, refl) obeys)

context-Holds :
    (k : Kept) (v : View) (o : Outcome) (slots : Results) (c : TransactionContext)
    → answered read_context o ≡ ok c
    → Holds k v slots
    → Holds
        (record k { base_fee = some c.base_fee_per_gas })
        (record (context_read v o) { funds = record v.funds { held = false } })
        slots
unfolding read_context context_read
context-Holds k v o slots c e h = ground arith

module _ (k : Kept) where
  cap_or_static-Ready :
      (b : Proven) (cap : Option ℕ) (v : View) (slots : Results)
      → Holds k v slots
      → Obeys lane_rules (Ready k) v (cap_or_static b cap slots)
  unfolding cap_or_static
  cap_or_static-Ready b (some cap) v slots h = (tt, λ o. quiet_read k _ _ _ slots h (λ u e. h))
  cap_or_static-Ready b none v slots h = (tt, λ o. quiet_read k _ _ _ slots h (λ u e. h))

  top_up_cap-Ready :
      (b : Proven) (price : Result Text ℕ) (v : View) (slots : Results)
      → Holds k v slots
      → Obeys lane_rules (Ready k) v (top_up_cap b price slots)
  unfolding top_up_cap
  top_up_cap-Ready b (err message) v slots h = h
  top_up_cap-Ready b (ok price) v slots h = cap_or_static-Ready b _ v slots h

  fund_relayer-Ready :
      (crates : Crates) (b : Proven) (o : Outer) (prefund cap : ℕ) (v : View) (slots : Results)
      → Holds k v slots
      → Obeys lane_rules (Ready k) v (fund_relayer crates b o prefund cap slots)
  unfolding fund_relayer
  fund_relayer-Ready crates b o prefund cap v slots h =
      Obeys-lane_if (Ready k) v (ltb o.context.relayer_balance prefund)
        (of (
          ensure_native_funding crates b.policy b.chain_id o.context.relayer_balance prefund
            o.fee.max_fee_per_gas o.fee.max_priority_fee_per_gas cap))
        (pure true) slots
        (lifted-Ready k Released Released-owned
          (ensure_native_funding crates b.policy b.chain_id o.context.relayer_balance prefund
            o.fee.max_fee_per_gas o.fee.max_priority_fee_per_gas cap)
          v slots h
          (ensure_native_funding-Obeys crates b.policy v.funds b.chain_id o.context.relayer_balance
            prefund o.fee.max_fee_per_gas o.fee.max_priority_fee_per_gas cap (h.2)))
        h

  wait_for_funding-Complete :
      (candidates : List Candidate) (v : View) (slots : Results)
      → Holds k v slots
      → Obeys lane_rules (Complete k.size) v (wait_for_funding candidates slots)
  unfolding wait_for_funding
  wait_for_funding-Complete candidates v slots h =
      last_then k v
        (record_candidates_deferred candidates (codes "funding")
          (codes "waiting for relayer funding transaction confirmation") slots)
        _ (record_candidates_deferred-Ready k candidates _ _ v slots h)
        (λ v' u slots' h'.
          Obeys-weaken lane_rules (Ready k) (Complete k.size) (λ w x held. held.4) v' _
            (for_each-Ready k (λ c. failed c.result_index funding_wait_finish)
              (λ c w s held. Holds-settle_slot k w c.result_index _ s held) candidates v' slots'
              h'))

module _ (k : Kept) (own : k.owned ≡ true) (unprepared : k.unprepared ≡ true) where
  sign_carried-Complete :
      (crates : Crates) (b : Proven) (o : Outer) (carries : Bool) (v : View) (slots : Results)
      → delivers_full_tip_at o.fee o.context.base_fee_per_gas ≡ carries
      → k.base_fee ≡ some o.context.base_fee_per_gas
      → v.held ≡ true
      → Holds k v slots
      → Obeys lane_rules (Complete k.size) v (sign_carried crates b o carries slots)
  unfolding sign_carried
  sign_carried-Complete crates b o true v slots e base held h =
      sign_and_broadcast-Complete k own crates native_wording b (native_bundle (sign_request b o)) _
        o.gas_limit v slots
        (
          h.0 ∙ own,
          held,
          h.1 ∙ unprepared,
          subst (Carries (sign_request b o)) (sym (h.3 ∙ base))
              (carried o.fee o.context.base_fee_per_gas e),
        )
        h
  sign_carried-Complete crates b o false v slots e base held h = h.4

  sign_funded-Complete :
      (crates : Crates) (b : Proven) (o : Outer) (ready : Bool) (v : View) (slots : Results)
      → k.base_fee ≡ some o.context.base_fee_per_gas
      → Holds k v slots
      → Obeys lane_rules (Complete k.size) v (sign_funded crates b o ready slots)
  unfolding sign_funded sign_outer
  sign_funded-Complete crates b o false v slots base h =
      wait_for_funding-Complete k b.survivors v slots h
  sign_funded-Complete crates b o true v slots base h =
      ensured_then k v slots _ (h.0 ∙ own) h (λ v' held same h'.
        sign_carried-Complete crates b o (delivers_full_tip_at o.fee o.context.base_fee_per_gas) v'
          slots refl base held h')

  fund_and_sign-Complete :
      (crates : Crates) (b : Proven) (price : Result Text ℕ) (o : Outer) (v : View)
      (slots : Results)
      → k.base_fee ≡ some o.context.base_fee_per_gas
      → Holds k v slots
      → Obeys lane_rules (Complete k.size) v (fund_and_sign crates b price o slots)
  unfolding fund_and_sign
  fund_and_sign-Complete crates b price o v slots base h = last_read k v _ _ slots h.4 (λ prefund e.
      last_then k v (top_up_cap b price slots) _ (top_up_cap-Ready k b price v slots h)
        (λ v' cap slots' h'.
          last_then k v' (fund_relayer crates b o prefund cap slots') _
            (fund_relayer-Ready k crates b o prefund cap v' slots' h')
            (λ v'' ready slots'' h''. sign_funded-Complete crates b o ready v'' slots'' base h'')))

  judge_and_sign-Complete :
      (crates : Crates) (b : Proven) (price : Result Text ℕ) (c : TransactionContext)
      (calldata : Bytes) (limits allocations : List ℕ) (fees : FeeContext)
      (decision : List SettlementEvaluation × ℕ) (v : View) (slots : Results)
      → k.base_fee ≡ some c.base_fee_per_gas
      → Holds k v slots
      → Obeys lane_rules
          (Complete k.size)
          v
          (judge_and_sign crates b price c calldata limits allocations fees decision slots)
  unfolding judge_and_sign
  judge_and_sign-Complete crates b price c calldata limits allocations fees decision v slots base
        h =
      last_then k v (judge_payments crates b b.survivors decision.0 slots) _
        (judge_payments-Ready k crates b b.survivors decision.0 v slots h)
        (λ v' rejected slots' h'. Obeys-lane_if (Complete k.size) v' rejected _ _ slots' h'.4 (
          last_read k v' _ _ slots' h'.4 (λ gas e.
            fund_and_sign-Complete crates b price
              (outer_of c calldata allocations fees decision.1 gas) v' slots' base h')))

  priced-Complete :
      (crates : Crates) (b : Proven) (c : TransactionContext) (calldata : Bytes)
      (limits allocations : List ℕ) (v : View) (slots : Results)
      → k.base_fee ≡ some c.base_fee_per_gas
      → Holds k v slots
      → Obeys lane_rules
          (Complete k.size)
          v
          (price_and_sign crates b c calldata limits allocations slots)
  unfolding price_and_sign
  priced-Complete crates b c calldata limits allocations v slots base h =
      last_then k v (market_price_of b.chain_id slots) _
        (market_price_of-Ready k b.chain_id v slots h)
        (λ v price slots h. last_read k v _ _ slots h.4 (λ usd e.
          last_then k v (apply_tier (bundle_of b allocations usd) (fee_context b c) slots) _
            (apply_tier-Ready k (bundle_of b allocations usd) (fee_context b c) v slots h)
            (λ v fees slots h. last_read k v _ _ slots h.4 (λ decision e.
              last_then k v (take_decision fees decision slots) _
                (take_decision-Ready k fees decision v slots h)
                (λ v judged slots h.
                  judge_and_sign-Complete crates b price c calldata limits allocations fees judged v
                    slots base h)))))

pub execute_native_bundle-Complete :
    (k : Kept) (crates : Crates) (b : Proven) (v : View) (slots : Results)
    → k.owned ≡ true
    → k.unprepared ≡ true
    → Holds k v slots
    → Obeys lane_rules (Complete k.size) v (execute_native_bundle crates b slots)
unfolding execute_native_bundle
execute_native_bundle-Complete k crates b v slots own unprepared h = (
  tt,
  λ o.
      Obeys-lane_after (Complete k.size) _ _ _ slots (λ r e. h.4)
        (λ c e.
          let h' = context-Holds k v o slots c e h in
          last_read k _ _ _ slots h.4 (λ limits e. last_read k _ _ _ slots h.4 (λ allocations e.
            priced-Complete (record k { base_fee = some c.base_fee_per_gas }) own unprepared crates
              b c _ limits allocations _ slots refl h'))),
)
