-- ===== src/Execution/Pipeline.antt =====
-- vela-relay-core/src/execution.rs: the leased pipeline, from its candidates to the bundle that is
-- signed.
use vela_relay.Prelude.{
  ℕ, ◌&&◌, not, Bool, true, false, Option, none, some, List, [], ◌∷◌, all, length, ◌==◌,
  if◌then◌else◌,
}
use vela_relay.Task.Prepared.{PreparedBundleIntent}
use vela_relay.Prelude.Text.{Text, codes}
use vela_relay.Settlement.Calldata.{Address}
use vela_relay.Cost.{SettlementGasRule, measured, settlement_gas_rule}
use vela_relay.Execution.Operation.{
  ResolvedChainAssets, BundleSimulationData, load_prepared_bundle, simulate_individually,
}
use vela_relay.Execution.Readings.{read_intent, read_verdicts}
use vela_relay.Execution.Sending.{Crates}
use vela_relay.Execution.Funding.{ExecutionPolicy}
use vela_relay.Execution.Candidates.{Candidate}
use vela_relay.Execution.Results.{Lane, ◌>>=◌, ◌>>◌, pure, fail, query}
use vela_relay.Execution.Simulation.{
  ensure_lane_lease, resume_prepared, probes_of, triage, resolve_nonce_mismatches,
  simulate_or_fall_back, proven_simulation,
}
use vela_relay.Execution.Gate.{Proven}
use vela_relay.Execution.NativeBundle.{execute_native_bundle}
use vela_relay.Execution.TempoBundle.{execute_tempo_bundle}

abbrev pub unmeasured_simulation : Text
unmeasured_simulation =
    codes "final handleOps simulation measured no gas on a chain billed on measured gas"

unfoldable pub is_measured : SettlementGasRule → Bool
is_measured measured = true
is_measured _ = false

unfoldable pub execute_proven : Crates → Proven → Lane (Unit {0})
unfolding is_measured ensure_lane_lease execute_native_bundle execute_tempo_bundle
execute_proven crates b =
    if not b.simulation.full_execution && is_measured (settlement_gas_rule b.chain_id)
    then fail unmeasured_simulation
    else ensure_lane_lease
      >> (if b.policy.is_tempo
          then execute_tempo_bundle crates b
          else execute_native_bundle crates b)

-- What the pipeline has read of its batch: the chain, the lane, and what the shell resolved.
pub record Pass : Type 0 where
  pub chain_id : ℕ
  pub lane : ℕ
  pub policy : ExecutionPolicy
  pub chain_assets : ResolvedChainAssets

abbrev pub proven_of : Pass → Address → List Candidate → BundleSimulationData → Proven
proven_of pass entry_point survivors simulation = record {
  chain_id = pass.chain_id;
  lane = pass.lane;
  policy = pass.policy;
  chain_assets = pass.chain_assets.assets;
  entry_point = entry_point;
  survivors = survivors;
  simulation = simulation;
}

-- A verdict that proves nothing has ended the pass.
unfoldable pub execute_if_proven :
    Crates → Pass → Address → List Candidate → Option BundleSimulationData → Lane (Unit {0})
unfolding execute_proven
execute_if_proven crates pass entry_point survivors none = pure tt
execute_if_proven crates pass entry_point survivors (some simulation) =
    execute_proven crates (proven_of pass entry_point survivors simulation)

unfoldable pub execute_survivors :
    Crates → Pass → Address → List Candidate → List (Option BundleSimulationData) → Lane (Unit {0})
unfolding ensure_lane_lease simulate_or_fall_back proven_simulation execute_if_proven
execute_survivors crates pass entry_point [] executions = pure tt
execute_survivors crates pass entry_point (candidate ∷ candidates) executions = do
  ensure_lane_lease
  (survivors, verdict) ← simulate_or_fall_back entry_point (candidate ∷ candidates) executions
  proven ← proven_simulation survivors verdict
  execute_if_proven crates pass entry_point survivors proven

unfoldable pub resolve_mismatches : Address → List Candidate → Lane (Unit {0})
unfolding resolve_nonce_mismatches
resolve_mismatches entry_point [] = pure tt
resolve_mismatches entry_point (candidate ∷ candidates) =
    resolve_nonce_mismatches entry_point (candidate ∷ candidates)

unfoldable pub simulate_candidates : Crates → Pass → Address → List Candidate → Lane (Unit {0})
unfolding read_verdicts triage resolve_mismatches execute_survivors
simulate_candidates crates pass entry_point candidates = do
  verdicts ← query (simulate_individually entry_point (probes_of candidates)) read_verdicts
  if length verdicts == length candidates
      then (triage candidates verdicts >>= λ triaged.
          resolve_mismatches entry_point triaged.mismatches
          >> execute_survivors crates pass entry_point triaged.survivors triaged.executions)
      else fail (codes "simulation verdicts do not match candidates")

-- A policy that takes no operation leaves no candidate. The source then indexes the first one and
-- panics, which the model has no outcome for: here the pass ends.
unfoldable pub execute_unprepared : Crates → Pass → List Candidate → Lane (Unit {0})
unfolding simulate_candidates
execute_unprepared crates pass [] = pure tt
execute_unprepared crates pass (candidate ∷ candidates) =
    if all (λ c. c.entry_point == candidate.entry_point) (candidate ∷ candidates)
    then simulate_candidates crates pass candidate.entry_point (candidate ∷ candidates)
    else fail (codes "one lane batch contains multiple EntryPoints")

unfoldable pub resume_or_execute :
    Crates → Pass → List Candidate → Option PreparedBundleIntent → Lane (Unit {0})
unfolding resume_prepared execute_unprepared
resume_or_execute crates pass candidates (some intent) = resume_prepared candidates intent
resume_or_execute crates pass candidates none = execute_unprepared crates pass candidates

unfoldable pub execute_with_lane_lease : Crates → Pass → List Candidate → Lane (Unit {0})
unfolding read_intent resume_or_execute
execute_with_lane_lease crates pass candidates = do
  prepared ← query load_prepared_bundle read_intent
  resume_or_execute crates pass candidates prepared
