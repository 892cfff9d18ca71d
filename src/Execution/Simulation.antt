-- ===== src/Execution/Simulation.antt =====
-- vela-relay-core/src/execution.rs: the leased pipeline up to the bundle that its simulation proves.
use vela_relay.Prelude.{
  ℕ, Bool, true, false, ◌&&◌, Option, none, some, List, [], ◌∷◌, map, any, length, ltb, ◌==◌,
  if◌then◌else◌,
}
use vela_relay.Prelude.Text.{Text, codes, eq_ignore_ascii_case}
use vela_relay.Task.Prepared.{PreparedBundleIntent}
use vela_relay.Settlement.Calldata.{Address}
use vela_relay.Abi.{PackedOperation}
use vela_relay.Execution.Operation.{
  BundleSimulationData, OperationSimVerdict, success, executed, nonce_mismatch, sim_rejected,
  pending, transient, BundleSimVerdict, bundle_success, bundle_nonce_mismatch, bundle_rejected,
  bundle_pending, bundle_transient, simulation_rejected, stale_nonce, future_nonce,
  simulation_deployment_wait, simulation_unavailable, bundle_simulation_rejected,
  bundle_simulation_nonce_mismatch, bundle_simulation_deployment_wait, mark_rejected,
  defer_operation, notify_issue, ensure_lane_lease_held, resume_bundle_intent, fetch_account_nonces,
  simulate_bundle_of,
}
use vela_relay.Execution.Readings.{
  read_unless_failed, read_held, read_resumed, read_bundle_verdict, read_deferred, read_stored,
  read_nonces,
}
use vela_relay.Execution.Candidates.{Candidate}
use vela_relay.Execution.Results.{
  Lane, ◌>>=◌, ◌>>◌, pure, fail, query, tell, durable, failed, for_each, emit, record_deferred,
  record_candidates_deferred,
}

unfoldable pub ensure_lane_lease : Lane (Unit {0})
unfolding read_held
ensure_lane_lease = query ensure_lane_lease_held read_held

unfoldable pub resume_intent : PreparedBundleIntent → Lane Bool
unfolding read_resumed
resume_intent intent = query (resume_bundle_intent intent) read_resumed

unfoldable pub is_member : PreparedBundleIntent → Candidate → Bool
is_member intent candidate =
    any (λ hash. eq_ignore_ascii_case hash candidate.hash_string) intent.user_operation_hashes

-- An intent that an earlier pass prepared: nothing else is done in this one.
unfoldable pub resume_prepared : List Candidate → PreparedBundleIntent → Lane (Unit {0})
unfolding resume_intent is_member for_each
resume_prepared candidates intent = do
  known_outcome ← resume_intent intent
  if known_outcome
      then for_each
          (λ candidate.
            if is_member intent candidate then durable candidate.result_index else pure tt)
          candidates
      else pure tt

abbrev pub probes_of : List Candidate → List (ℕ × PackedOperation)
probes_of candidates = map (λ candidate. (candidate.hash, candidate.packed)) candidates

-- What the verdicts leave: the operations that go on, each with its own full execution where its
-- simulation was one, and those whose nonce does not match.
pub record Triaged : Type 0 where
  pub survivors : List Candidate
  pub executions : List (Option BundleSimulationData)
  pub mismatches : List Candidate

pub data Sorted : Type 0 where
  survives : Option BundleSimulationData → Sorted
  mismatched : Sorted
  left_out : Sorted

unfoldable pub add_sorted : Candidate → Sorted → Triaged → Triaged
add_sorted candidate (survives execution) t = record t {
  survivors = candidate ∷ t.survivors;
  executions = execution ∷ t.executions;
}
add_sorted candidate mismatched t = record t { mismatches = candidate ∷ t.mismatches }
add_sorted candidate left_out t = t

unfoldable pub sort_verdict : Candidate → OperationSimVerdict → Lane Sorted
unfolding read_unless_failed record_deferred
sort_verdict candidate success = pure (survives none)
sort_verdict candidate (executed simulation) = pure (survives (some simulation))
sort_verdict candidate nonce_mismatch = pure mismatched
sort_verdict candidate (sim_rejected reason) = do
  query (mark_rejected candidate.hash_string (simulation_rejected reason)) read_unless_failed
  tell (notify_issue candidate.hash_string (codes "simulation") reason)
  durable candidate.result_index
  pure left_out
sort_verdict candidate (pending reason) = do
  record_deferred candidate.hash_string (codes "simulation_deployment") reason
  emit (simulation_deployment_wait candidate.hash_string reason)
  pure left_out
sort_verdict candidate (transient reason) = do
  record_deferred candidate.hash_string (codes "simulation") reason
  emit (simulation_unavailable candidate.hash_string reason)
  pure left_out

unfoldable pub triage : List Candidate → List OperationSimVerdict → Lane Triaged
unfolding sort_verdict add_sorted
triage (candidate ∷ candidates) (verdict ∷ verdicts) = do
  sorted ← sort_verdict candidate verdict
  rest ← triage candidates verdicts
  pure (add_sorted candidate sorted rest)
triage _ _ = pure (record { survivors = []; executions = []; mismatches = [] })

abbrev pub lookup_unavailable : Text
lookup_unavailable = codes "account nonce lookup is temporarily unavailable"

unfoldable pub note_deferred : Candidate → Option ℕ → Lane (Unit {0})
note_deferred candidate (some attempt) = durable candidate.result_index
note_deferred candidate none =
    failed candidate.result_index (codes "could not persist future UserOperation")

unfoldable pub defer_future : Candidate → ℕ → Lane (Unit {0})
unfolding read_deferred note_deferred
defer_future candidate onchain_nonce = do
  attempt ←
      query
        (defer_operation candidate.result_index
          (future_nonce candidate.packed.packed.nonce onchain_nonce))
        read_deferred
  note_deferred candidate attempt

unfoldable pub reject_stale : Candidate → ℕ → Lane (Unit {0})
unfolding read_stored
reject_stale candidate onchain_nonce = do
  stored ←
      query
        (mark_rejected candidate.hash_string
          (stale_nonce candidate.packed.packed.nonce onchain_nonce))
        read_stored
  if stored
      then durable candidate.result_index
      else failed candidate.result_index (codes "could not persist stale nonce rejection")

unfoldable pub resolve_mismatch : Candidate → Option ℕ → Lane (Unit {0})
unfolding defer_future reject_stale
resolve_mismatch candidate none = failed candidate.result_index lookup_unavailable
resolve_mismatch candidate (some onchain_nonce) =
    if ltb onchain_nonce candidate.packed.packed.nonce
    then defer_future candidate onchain_nonce
    else reject_stale candidate onchain_nonce

unfoldable pub resolve_each : List Candidate → List (Option ℕ) → Lane (Unit {0})
unfolding resolve_mismatch
resolve_each (candidate ∷ candidates) (nonce ∷ nonces) = do
  resolve_mismatch candidate nonce
  resolve_each candidates nonces
resolve_each _ _ = pure tt

unfoldable pub all_unavailable : List Candidate → Lane (Unit {0})
unfolding for_each
all_unavailable mismatches =
    for_each (λ candidate. failed candidate.result_index lookup_unavailable) mismatches

unfoldable pub resolve_nonces : List Candidate → Option (List (Option ℕ)) → Lane (Unit {0})
unfolding all_unavailable resolve_each
resolve_nonces mismatches none = all_unavailable mismatches
resolve_nonces mismatches (some nonces) =
    if length nonces == length mismatches
    then resolve_each mismatches nonces
    else all_unavailable mismatches

unfoldable pub resolve_nonce_mismatches : Address → List Candidate → Lane (Unit {0})
unfolding resolve_nonces read_nonces
resolve_nonce_mismatches entry_point mismatches = do
  nonces ←
      query
        (fetch_account_nonces entry_point
          (map (λ candidate. (candidate.packed.sender, candidate.packed.packed.nonce)) mismatches))
        read_nonces
  resolve_nonces mismatches nonces

unfoldable pub simulate_bundle : Address → List Candidate → Lane BundleSimVerdict
unfolding read_bundle_verdict
simulate_bundle entry_point survivors =
    query (simulate_bundle_of entry_point (probes_of survivors)) read_bundle_verdict

unfoldable pub simulate_bundle_unless_executed :
    Address → List Candidate → List (Option BundleSimulationData) → Lane BundleSimVerdict
unfolding simulate_bundle
simulate_bundle_unless_executed entry_point (candidate ∷ []) (some execution ∷ []) =
    pure (bundle_success execution)
simulate_bundle_unless_executed entry_point survivors executions =
    simulate_bundle entry_point survivors

unfoldable pub falls_back : BundleSimVerdict → Bool
falls_back (bundle_rejected reason) = true
falls_back bundle_nonce_mismatch = true
falls_back _ = false

unfoldable pub first : {A : Type 0} → List A → List A
first [] = []
first (x ∷ xs) = x ∷ []

-- The bundle to go on with, and its verdict: all that survived, or the first alone.
unfoldable pub simulate_or_fall_back :
    Address
    → List Candidate
    → List (Option BundleSimulationData)
    → Lane (List Candidate × BundleSimVerdict)
unfolding simulate_bundle_unless_executed falls_back first
simulate_or_fall_back entry_point survivors executions = do
  verdict ← simulate_bundle_unless_executed entry_point survivors executions
  if falls_back verdict && ltb 1 (length survivors)
      then (simulate_bundle_unless_executed entry_point (first survivors) (first executions)
          >>= λ again. pure (first survivors, again))
      else pure (survivors, verdict)

-- A verdict that does not prove the bundle ends the pass; one that does gives its simulation.
unfoldable pub proven_simulation :
    List Candidate → BundleSimVerdict → Lane (Option BundleSimulationData)
unfolding record_candidates_deferred
proven_simulation survivors (bundle_success simulation) = pure (some simulation)
proven_simulation survivors (bundle_rejected reason) = do
  record_candidates_deferred survivors (codes "bundle_simulation") reason
  emit (bundle_simulation_rejected reason)
  pure none
proven_simulation survivors bundle_nonce_mismatch = do
  record_candidates_deferred survivors (codes "bundle_simulation")
      (codes "final handleOps simulation reported an account nonce mismatch")
  emit bundle_simulation_nonce_mismatch
  pure none
proven_simulation survivors (bundle_pending reason) = do
  record_candidates_deferred survivors (codes "simulation_deployment") reason
  emit (bundle_simulation_deployment_wait reason)
  pure none
proven_simulation survivors (bundle_transient reason) = fail reason
