-- ===== src/Execution/SimulationSafety.antt =====
-- vela-relay-core/src/execution.rs: the simulations of a pass leave the lane as it is.
use vela_relay.Prelude.{
  arith, ◌≡◌, true, Option, none, some, List, [], ◌∷◌, length, ltb, ◌&&◌, if◌then◌else◌,
}
use vela_relay.Prelude.Result.{ok}
use vela_relay.Prelude.Text.{codes}
use vela_relay.Settlement.Calldata.{Address}
use vela_relay.Task.Prepared.{PreparedBundleIntent}
use vela_relay.Execution.Operation.{
  Outcome, BundleSimulationData, OperationSimVerdict, success, executed, nonce_mismatch,
  sim_rejected, pending, transient, BundleSimVerdict, bundle_success, bundle_nonce_mismatch,
  bundle_rejected, bundle_pending, bundle_transient, ensure_lane_lease_held,
}
use vela_relay.Execution.Program.{and_then, answered}
use vela_relay.Execution.Readings.{read_held}
use vela_relay.Execution.Discipline.{Obeys}
use vela_relay.Execution.FundingRules.{Stored}
use vela_relay.Execution.Candidates.{Candidate}
use vela_relay.Execution.Results.{
  Results, Lane, lane_after, pure, durable, record_deferred, record_candidates_deferred,
}
use vela_relay.Execution.Simulation.{
  ensure_lane_lease, resume_intent, is_member, resume_prepared, sort_verdict, triage,
  simulate_bundle, simulate_bundle_unless_executed, first, falls_back, simulate_or_fall_back,
  proven_simulation,
}
use vela_relay.Execution.LaneRules.{
  remember, Complete, View, lane_rules, lane_confirmed, Kept, Holds, Ready,
}
use vela_relay.Execution.LaneSteps.{
  last_read, quiet_then, quiet_read, Obeys-lane_if, for_each-Ready, Holds-settle_slot,
  record_deferred-Ready, record_candidates_deferred-Ready,
}

module _ (k : Kept) where
  pub resume_intent-Ready :
      (i : PreparedBundleIntent) (v : View) (slots : Results)
      → v.owned ≡ true
      → Stored i.transaction_hash v.stored
      → Holds k v slots
      → Obeys lane_rules (Ready k) v (resume_intent i slots)
  unfolding resume_intent
  resume_intent-Ready i v slots own st h = ((own, st), λ o. h)

  pub resume_prepared-Ready :
      (candidates : List Candidate) (i : PreparedBundleIntent) (v : View) (slots : Results)
      → v.owned ≡ true
      → Stored i.transaction_hash v.stored
      → Holds k v slots
      → Obeys lane_rules (Ready k) v (resume_prepared candidates i slots)
  unfolding resume_prepared
  resume_prepared-Ready candidates i v slots own st h =
      quiet_then k v (resume_intent i slots) _ (resume_intent-Ready i v slots own st h)
        (λ v' known_outcome slots' h'.
          Obeys-lane_if (Ready k) v' known_outcome _ (pure tt) slots'
            (for_each-Ready k (λ c. if is_member i c then durable c.result_index else pure tt)
              (λ c v s h.
                Obeys-lane_if (Ready k) v (is_member i c) (durable c.result_index) (pure tt) s
                  (Holds-settle_slot k v c.result_index _ s h) h)
              candidates v' slots' h')
            h')

  sort_verdict-Ready :
      (c : Candidate) (verdict : OperationSimVerdict) (v : View) (slots : Results)
      → Holds k v slots
      → Obeys lane_rules (Ready k) v (sort_verdict c verdict slots)
  unfolding sort_verdict
  sort_verdict-Ready c success v slots h = h
  sort_verdict-Ready c (executed simulation) v slots h = h
  sort_verdict-Ready c nonce_mismatch v slots h = h
  sort_verdict-Ready c (sim_rejected reason) v slots h = (
    tt,
    λ o. quiet_read k _ _ _ slots h (λ u e. (
      tt,
      λ o. quiet_read k _ _ _ slots h (λ u e.
          quiet_read k _ _ _ _ (Holds-settle_slot k v c.result_index _ slots h)
            (λ u e. Holds-settle_slot k v c.result_index _ slots h)),
    )),
  )
  sort_verdict-Ready c (pending reason) v slots h =
      quiet_then k v (record_deferred c.hash_string (codes "simulation_deployment") reason slots) _
        (record_deferred-Ready k c.hash_string _ reason v slots h)
        (λ v' u slots' h'. (tt, λ o. quiet_read k _ _ _ slots' h' (λ u e. h')))
  sort_verdict-Ready c (transient reason) v slots h =
      quiet_then k v (record_deferred c.hash_string (codes "simulation") reason slots) _
        (record_deferred-Ready k c.hash_string _ reason v slots h)
        (λ v' u slots' h'. (tt, λ o. quiet_read k _ _ _ slots' h' (λ u e. h')))

  pub triage-Ready :
      (candidates : List Candidate) (verdicts : List OperationSimVerdict) (v : View)
      (slots : Results)
      → Holds k v slots
      → Obeys lane_rules (Ready k) v (triage candidates verdicts slots)
  unfolding triage
  triage-Ready [] verdicts v slots h = h
  triage-Ready (c ∷ candidates) [] v slots h = h
  triage-Ready (c ∷ candidates) (verdict ∷ verdicts) v slots h =
      quiet_then k v (sort_verdict c verdict slots) _ (sort_verdict-Ready c verdict v slots h)
        (λ v' sorted slots' h'.
          quiet_then k v' (triage candidates verdicts slots') _
            (triage-Ready candidates verdicts v' slots' h') (λ v'' rest slots'' h''. h''))

  simulate_bundle_unless_executed-Ready :
      (entry_point : Address) (candidates : List Candidate)
      (executions : List (Option BundleSimulationData)) (v : View) (slots : Results)
      → Holds k v slots
      → Obeys lane_rules
          (Ready k)
          v
          (simulate_bundle_unless_executed entry_point candidates executions slots)
  unfolding simulate_bundle_unless_executed simulate_bundle
  simulate_bundle_unless_executed-Ready entry_point [] executions v slots h = (tt, λ o. h)
  simulate_bundle_unless_executed-Ready entry_point (c ∷ []) [] v slots h = (tt, λ o. h)
  simulate_bundle_unless_executed-Ready entry_point (c ∷ []) (none ∷ rest) v slots h = (tt, λ o. h)
  simulate_bundle_unless_executed-Ready entry_point (c ∷ []) (some x ∷ []) v slots h = h
  simulate_bundle_unless_executed-Ready entry_point (c ∷ []) (some x ∷ y ∷ rest) v slots h =
      (tt, λ o. h)
  simulate_bundle_unless_executed-Ready entry_point (c ∷ d ∷ rest) executions v slots h =
      (tt, λ o. h)

  pub simulate_or_fall_back-Ready :
      (entry_point : Address) (candidates : List Candidate)
      (executions : List (Option BundleSimulationData)) (v : View) (slots : Results)
      → Holds k v slots
      → Obeys lane_rules (Ready k) v (simulate_or_fall_back entry_point candidates executions slots)
  unfolding simulate_or_fall_back
  simulate_or_fall_back-Ready entry_point candidates executions v slots h =
      quiet_then k v (simulate_bundle_unless_executed entry_point candidates executions slots) _
        (simulate_bundle_unless_executed-Ready entry_point candidates executions v slots h)
        (λ v' verdict slots' h'.
          Obeys-lane_if (Ready k) v' (falls_back verdict && ltb 1 (length candidates)) _ _ slots'
            (quiet_then k v'
              (simulate_bundle_unless_executed entry_point (first candidates) (first executions)
                slots')
              _
              (simulate_bundle_unless_executed-Ready entry_point (first candidates)
                (first executions) v' slots' h')
              (λ v'' again slots'' h''. h''))
            h')

  pub proven_simulation-Ready :
      (candidates : List Candidate) (verdict : BundleSimVerdict) (v : View) (slots : Results)
      → Holds k v slots
      → Obeys lane_rules (Ready k) v (proven_simulation candidates verdict slots)
  unfolding proven_simulation
  proven_simulation-Ready candidates (bundle_success simulation) v slots h = h
  proven_simulation-Ready candidates (bundle_rejected reason) v slots h =
      quiet_then k v
        (record_candidates_deferred candidates (codes "bundle_simulation") reason slots) _
        (record_candidates_deferred-Ready k candidates _ reason v slots h)
        (λ v' u slots' h'. (tt, λ o. quiet_read k _ _ _ slots' h' (λ u e. h')))
  proven_simulation-Ready candidates bundle_nonce_mismatch v slots h =
      quiet_then k v
        (record_candidates_deferred candidates (codes "bundle_simulation")
          (codes "final handleOps simulation reported an account nonce mismatch") slots)
        _ (record_candidates_deferred-Ready k candidates _ _ v slots h)
        (λ v' u slots' h'. (tt, λ o. quiet_read k _ _ _ slots' h' (λ u e. h')))
  proven_simulation-Ready candidates (bundle_pending reason) v slots h =
      quiet_then k v
        (record_candidates_deferred candidates (codes "simulation_deployment") reason slots) _
        (record_candidates_deferred-Ready k candidates _ reason v slots h)
        (λ v' u slots' h'. (tt, λ o. quiet_read k _ _ _ slots' h' (λ u e. h')))
  proven_simulation-Ready candidates (bundle_transient reason) v slots h = h

pub confirmed-Holds :
    (k : Kept) (v : View) (o : Outcome) (slots : Results)
    → Holds k v slots
    → Holds k (remember v ensure_lane_lease_held o) slots
unfolding lane_confirmed
confirmed-Holds k v o slots h = ground arith

confirmed-held :
    (v : View) (o : Outcome)
    → answered read_held o ≡ ok tt
    → ((lane_confirmed v o).held ≡ true) × ((lane_confirmed v o).signed_hash ≡ v.signed_hash)
unfolding read_held lane_confirmed
confirmed-held v o e = ground arith

-- What follows a confirmation of the lane's lease.
pub ensured_then :
    {A : Type 0} (k : Kept) (v : View) (slots : Results) (f : Unit {0} → Lane A)
    → v.owned ≡ true
    → Holds k v slots
    → ((v' : View)
        → v'.held ≡ true
        → v'.signed_hash ≡ v.signed_hash
        → Holds k v' slots
        → Obeys lane_rules (Complete k.size) v' (f tt slots))
    → Obeys lane_rules (Complete k.size) v (and_then (ensure_lane_lease slots) (lane_after f))
unfolding ensure_lane_lease
ensured_then k v slots f own h goes = (
  own,
  λ o. last_read k _ _ _ slots h.4 (λ u e.
      let (held, same) = confirmed-held v o e in
      goes (remember v ensure_lane_lease_held o) held same (confirmed-Holds k v o slots h)),
)
