-- ===== src/Execution/PipelineSafety.antt =====
-- vela-relay-core/src/execution.rs: the leased pipeline keeps the lane's rules and loses no slot.
use vela_relay.Prelude.{
  ◌≡◌, ◌∙◌, refl, true, false, Option, none, some, List, [], ◌∷◌, all, length, ◌==◌, ◌&&◌, not,
  if◌then◌else◌, arith,
}
use vela_relay.Cost.{settlement_gas_rule}
use vela_relay.Prelude.Result.{ok}
use vela_relay.Prelude.Text.{codes}
use vela_relay.Settlement.Calldata.{Address}
use vela_relay.Task.Prepared.{PreparedBundleIntent}
use vela_relay.Execution.Operation.{Outcome, BundleSimulationData, load_prepared_bundle}
use vela_relay.Execution.Program.{answered}
use vela_relay.Execution.Readings.{read_intent}
use vela_relay.Execution.Discipline.{Obeys, Obeys-weaken}
use vela_relay.Execution.Sending.{Crates}
use vela_relay.Execution.Candidates.{Candidate}
use vela_relay.Execution.Results.{Results, fail, ◌>>=◌, ◌>>◌}
use vela_relay.Execution.Simulation.{
  ensure_lane_lease, resume_prepared, triage, simulate_or_fall_back, proven_simulation,
}
use vela_relay.Execution.Gate.{Proven}
use vela_relay.Execution.NativeBundle.{execute_native_bundle}
use vela_relay.Execution.TempoBundle.{execute_tempo_bundle}
use vela_relay.Execution.Pipeline.{
  proven_of, is_measured, unmeasured_simulation, Pass, execute_proven, execute_if_proven,
  execute_survivors, resolve_mismatches, simulate_candidates, execute_unprepared, resume_or_execute,
  execute_with_lane_lease,
}
use vela_relay.Execution.LaneRules.{
  View, lane_rules, remember, bundle_loaded, Kept, Holds, Ready, Complete, quieted,
}
use vela_relay.Execution.LaneSteps.{Obeys-lane_after, Obeys-lane_if, last_then, last_read}
use vela_relay.Execution.MismatchSafety.{resolve_nonce_mismatches-Ready}
use vela_relay.Execution.SimulationSafety.{
  resume_prepared-Ready, triage-Ready, simulate_or_fall_back-Ready, proven_simulation-Ready,
  ensured_then,
}
use vela_relay.Execution.SubmissionSafety.{loaded-Stocked}
use vela_relay.Execution.BundleSafety.{execute_native_bundle-Complete}
use vela_relay.Execution.TempoBundleSafety.{execute_tempo_bundle-Complete}

module _ (k : Kept) (own : k.owned ≡ true) (unprepared : k.unprepared ≡ true) where
  execute_proven-Complete :
      (crates : Crates) (b : Proven) (v : View) (slots : Results)
      → Holds k v slots
      → Obeys lane_rules (Complete k.size) v (execute_proven crates b slots)
  unfolding execute_proven is_measured
  execute_proven-Complete crates b v slots h =
      Obeys-lane_if (Complete k.size) v
        (not b.simulation.full_execution && is_measured (settlement_gas_rule b.chain_id))
        (fail unmeasured_simulation)
        (ensure_lane_lease
          >> (if b.policy.is_tempo
              then execute_tempo_bundle crates b
              else execute_native_bundle crates b))
        slots h.4
        (ensured_then k v slots
          (λ u.
            if b.policy.is_tempo
            then execute_tempo_bundle crates b
            else execute_native_bundle crates b)
          (h.0 ∙ own) h
          (λ v' held same h'.
            Obeys-lane_if (Complete k.size) v' b.policy.is_tempo (execute_tempo_bundle crates b)
              (execute_native_bundle crates b) slots
              (execute_tempo_bundle-Complete k own unprepared crates b v' slots h')
              (execute_native_bundle-Complete k crates b v' slots own unprepared h')))

  execute_if_proven-Complete :
      (crates : Crates) (pass : Pass) (entry_point : Address) (survivors : List Candidate)
      (proven : Option BundleSimulationData) (v : View) (slots : Results)
      → Holds k v slots
      → Obeys lane_rules
          (Complete k.size)
          v
          (execute_if_proven crates pass entry_point survivors proven slots)
  unfolding execute_if_proven
  execute_if_proven-Complete crates pass entry_point survivors none v slots h = h.4
  execute_if_proven-Complete crates pass entry_point survivors (some simulation) v slots h =
      execute_proven-Complete crates (proven_of pass entry_point survivors simulation) v slots h

  execute_survivors-Complete :
      (crates : Crates) (pass : Pass) (entry_point : Address) (candidates : List Candidate)
      (executions : List (Option BundleSimulationData)) (v : View) (slots : Results)
      → Holds k v slots
      → Obeys lane_rules
          (Complete k.size)
          v
          (execute_survivors crates pass entry_point candidates executions slots)
  unfolding execute_survivors
  execute_survivors-Complete crates pass entry_point [] executions v slots h = h.4
  execute_survivors-Complete crates pass entry_point (c ∷ cs) executions v slots h =
      ensured_then k v slots _ (h.0 ∙ own) h (λ v held same h.
        last_then k v (simulate_or_fall_back entry_point (c ∷ cs) executions slots) _
          (simulate_or_fall_back-Ready k entry_point (c ∷ cs) executions v slots h)
          (λ v found slots h.
            last_then k v (proven_simulation found.0 found.1 slots) _
              (proven_simulation-Ready k found.0 found.1 v slots h)
              (λ v proven slots h.
                execute_if_proven-Complete crates pass entry_point found.0 proven v slots h)))

  resolve_mismatches-Ready :
      (entry_point : Address) (candidates : List Candidate) (v : View) (slots : Results)
      → Holds k v slots
      → Obeys lane_rules (Ready k) v (resolve_mismatches entry_point candidates slots)
  unfolding resolve_mismatches
  resolve_mismatches-Ready entry_point [] v slots h = h
  resolve_mismatches-Ready entry_point (c ∷ cs) v slots h =
      resolve_nonce_mismatches-Ready k entry_point (c ∷ cs) v slots h

  simulate_candidates-Complete :
      (crates : Crates) (pass : Pass) (entry_point : Address) (candidates : List Candidate)
      (v : View) (slots : Results)
      → Holds k v slots
      → Obeys lane_rules
          (Complete k.size)
          v
          (simulate_candidates crates pass entry_point candidates slots)
  unfolding simulate_candidates
  simulate_candidates-Complete crates pass entry_point candidates v slots h = (
    tt,
    λ o. last_read k (quieted v) _ _ slots h.4 (λ verdicts e.
        Obeys-lane_if (Complete k.size) (quieted v) (length verdicts == length candidates)
          (triage candidates verdicts >>= λ triaged.
            resolve_mismatches entry_point triaged.mismatches
            >> execute_survivors crates pass entry_point triaged.survivors triaged.executions)
          (fail (codes "simulation verdicts do not match candidates")) slots
          (last_then k (quieted v) (triage candidates verdicts slots) _
            (triage-Ready k candidates verdicts (quieted v) slots h)
            (λ v triaged slots h.
              last_then k v (resolve_mismatches entry_point triaged.mismatches slots) _
                (resolve_mismatches-Ready entry_point triaged.mismatches v slots h)
                (λ v u slots h.
                  execute_survivors-Complete crates pass entry_point triaged.survivors
                    triaged.executions v slots h)))
          h.4),
  )

  execute_unprepared-Complete :
      (crates : Crates) (pass : Pass) (candidates : List Candidate) (v : View) (slots : Results)
      → Holds k v slots
      → Obeys lane_rules (Complete k.size) v (execute_unprepared crates pass candidates slots)
  unfolding execute_unprepared
  execute_unprepared-Complete crates pass [] v slots h = h.4
  execute_unprepared-Complete crates pass (c ∷ cs) v slots h =
      Obeys-lane_if (Complete k.size) v (all (λ x. x.entry_point == c.entry_point) (c ∷ cs))
        (simulate_candidates crates pass c.entry_point (c ∷ cs))
        (fail (codes "one lane batch contains multiple EntryPoints")) slots
        (simulate_candidates-Complete crates pass c.entry_point (c ∷ cs) v slots h) h.4

loaded_free :
    (v : View) (o : Outcome)
    → v.owned ≡ true
    → answered read_intent o ≡ ok none
    → ((bundle_loaded v o).owned ≡ true) × ((bundle_loaded v o).unprepared ≡ true)
unfolding read_intent bundle_loaded
loaded_free v o own e = ground arith

loaded-funds :
    (v : View) (o : Outcome)
    → v.funds.owned ≡ false
    → (remember v load_prepared_bundle o).funds.owned ≡ false
loaded-funds v o free = free

abbrev kept_of : View → Results → Kept
kept_of v slots = record {
  size = length slots;
  owned = v.owned;
  unprepared = v.unprepared;
  base_fee = v.base_fee;
}

resume_or_execute-Complete :
    (crates : Crates) (pass : Pass) (candidates : List Candidate)
    (prepared : Option PreparedBundleIntent) (v : View) (o : Outcome) (slots : Results)
    → v.owned ≡ true
    → v.funds.owned ≡ false
    → answered read_intent o ≡ ok prepared
    → Obeys lane_rules
        (Complete (length slots))
        (remember v load_prepared_bundle o)
        (resume_or_execute crates pass candidates prepared slots)
unfolding resume_or_execute
resume_or_execute-Complete crates pass candidates (some i) v o slots own free e =
    let w = remember v load_prepared_bundle o in
    let (owned, stored) = loaded-Stocked v o i own e in
    Obeys-weaken lane_rules (Ready (kept_of w slots)) (Complete (length slots)) (λ w x held. held.4)
      w (resume_prepared candidates i slots)
      (resume_prepared-Ready (kept_of w slots) candidates i w slots owned stored
        (refl, refl, free, refl, refl))
resume_or_execute-Complete crates pass candidates none v o slots own free e =
    let w = remember v load_prepared_bundle o in
    let (owned, unprepared) = loaded_free v o own e in
    execute_unprepared-Complete (kept_of w slots) owned unprepared crates pass candidates w slots
      (refl, refl, free, refl, refl)

pub execute_with_lane_lease-Complete :
    (crates : Crates) (pass : Pass) (candidates : List Candidate) (v : View) (slots : Results)
    → v.owned ≡ true
    → v.funds.owned ≡ false
    → Obeys lane_rules
        (Complete (length slots))
        v
        (execute_with_lane_lease crates pass candidates slots)
unfolding execute_with_lane_lease
execute_with_lane_lease-Complete crates pass candidates v slots own free = (
  own,
  λ o.
      Obeys-lane_after (Complete (length slots)) (remember v load_prepared_bundle o)
        (resume_or_execute crates pass candidates) _ slots (λ r e. refl)
        (λ prepared e.
          resume_or_execute-Complete crates pass candidates prepared v o slots own free e),
)
