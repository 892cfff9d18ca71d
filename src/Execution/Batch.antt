-- ===== src/Execution/Batch.antt =====
-- vela-relay-core/src/execution.rs: a batch of a lane, from its messages to their resolutions.
use vela_relay.Prelude.{
  ℕ, zero, suc, ◌||◌, ◌&&◌, not, Bool, true, false, List, [], ◌∷◌, ◌++◌, map, any, length, leb, ◌-◌,
  ◌==◌, if◌then◌else◌,
}
use vela_relay.Prelude.Result.{Result, ok, err}
use vela_relay.Prelude.Text.{Text, codes, contains, text_eq}
use vela_relay.Task.Prepared.{RoutedUserOperation}
use vela_relay.Settlement.Calldata.{drop}
use vela_relay.Execution.Operation.{
  Outcome, ResolvedChainAssets, execution_deferred, check_chain_supported, load_chain_assets,
  load_records, acquire_lane_lease, supported, assets, assets_unavailable, records, lease_acquired,
  failed_with, emit_diagnostic_of,
}
use vela_relay.Execution.Program.{Program, done, ask, and_then}
use vela_relay.Execution.Sending.{Crates}
use vela_relay.Execution.Funding.{ExecutionPolicy}
use vela_relay.Execution.TopUp.{top_up_signed_again}
use vela_relay.Execution.Candidates.{Candidate}
use vela_relay.Execution.Results.{
  ItemResolution, Results, unsettled, finish, all_failed, record_routed_deferred,
}
use vela_relay.Execution.Pipeline.{Pass, execute_with_lane_lease}
use vela_relay.Execution.NativeBundle.{funding_wait_finish}
use vela_relay.Execution.Triage.{triage_items}

pub record StartBatch : Type 0 where
  pub operations : List RoutedUserOperation
  pub policy : ExecutionPolicy
  pub lease_token : Text

abbrev pub deferred_finish : Text
deferred_finish = codes "UserOperation execution was deferred"

abbrev pub no_outcome_finish : Text
no_outcome_finish = codes "no durable executor outcome"

-- `retain` by a set that remembers what was kept: the first with each key.
unfoldable pub first_of_each : (Candidate → ℕ) → List ℕ → List Candidate → List Candidate
first_of_each key kept [] = []
first_of_each key kept (candidate ∷ candidates) =
    if any (λ k. key candidate == k) kept
    then first_of_each key kept candidates
    else candidate ∷ first_of_each key (key candidate ∷ kept) candidates

unfoldable pub take_candidates : ℕ → List Candidate → List Candidate
take_candidates zero candidates = []
take_candidates (suc n) [] = []
take_candidates (suc n) (candidate ∷ candidates) = candidate ∷ take_candidates n candidates

-- One operation for each hash, then one for each sender, and no more than a bundle takes. Every
-- candidate's index is one of the batch's.
unfoldable pub bundled : ℕ → List Candidate → List Candidate
unfolding first_of_each take_candidates
bundled max_operations candidates =
    take_candidates max_operations
      (first_of_each (λ c. c.packed.sender) [] (first_of_each (λ c. c.hash) [] candidates))

abbrev pub Resolutions : Type 0
Resolutions = List ItemResolution

-- A note for each operation that has no resolution, then the end of the pass.
unfoldable pub defer_all :
    List RoutedUserOperation → Results → Text → Text → Resolutions → Program Resolutions
unfolding record_routed_deferred
defer_all operations slots stage reason resolutions =
    and_then (record_routed_deferred 0 operations slots stage reason slots) (λ r. done resolutions)

ends_with : Text → Text → Bool
ends_with text suffix =
    text_eq (drop (length text - length suffix) text) suffix && leb (length suffix) (length text)

-- A top-up that was thrown away to be signed again is a wait for funding.
unfoldable pub finish_of : Text → Text
unfolding ends_with
finish_of reason =
    if ends_with reason top_up_signed_again || contains reason (top_up_signed_again ++ codes ":")
    then funding_wait_finish
    else deferred_finish

unfoldable pub conclude :
    List RoutedUserOperation → Result Text (Unit {0}) × Results → Program Resolutions
unfolding finish finish_of defer_all
conclude operations (ok u, slots) = done (finish deferred_finish slots)
conclude operations (err reason, slots) =
    and_then
      (defer_all operations slots (codes "execution") reason (finish (finish_of reason) slots))
      (λ resolutions. ask (emit_diagnostic_of (execution_deferred reason)) (λ o. done resolutions))

unfoldable pub acquired : Outcome → Bool
acquired (lease_acquired true) = true
acquired _ = false

unfoldable pub execute_candidates :
    Crates → StartBatch → Pass → Results × List Candidate → Program Resolutions
unfolding acquired finish bundled defer_all execute_with_lane_lease conclude
execute_candidates crates start pass (slots, []) = done (finish no_outcome_finish slots)
execute_candidates crates start pass (slots, candidate ∷ candidates) = ask acquire_lane_lease (λ o.
    if acquired o
    then and_then
        (execute_with_lane_lease crates pass
          (bundled pass.policy.max_bundle_operations (candidate ∷ candidates)) slots)
        (conclude start.operations)
    else defer_all start.operations slots (codes "lease")
        (codes "relayer lane is currently owned by another worker")
        (finish (codes "relayer lane is owned by another worker") slots))

unfoldable pub unexpected_batch : ℕ → Program Resolutions
unexpected_batch n = done (all_failed n (codes "unexpected shell response"))

unfoldable pub with_records : Crates → StartBatch → Pass → Outcome → Program Resolutions
unfolding all_failed unsettled triage_items execute_candidates unexpected_batch
with_records crates start pass (records stored) =
    and_then
      (triage_items crates start.policy 0 start.operations stored
        (unsettled (length start.operations), []))
      (execute_candidates crates start pass)
with_records crates start pass (failed_with message) =
    done (all_failed (length start.operations) message)
with_records crates start pass _ = unexpected_batch (length start.operations)

unfoldable pub fail_all : StartBatch → Text → Text → Program Resolutions
unfolding defer_all all_failed
fail_all start stage reason =
    defer_all start.operations [] stage reason (all_failed (length start.operations) reason)

abbrev pub pass_of : StartBatch → ℕ → ℕ → ResolvedChainAssets → Pass
pass_of start chain_id lane resolved = record {
  chain_id = chain_id;
  lane = lane;
  policy = start.policy;
  chain_assets = resolved;
}

unfoldable pub with_assets : Crates → StartBatch → ℕ → ℕ → Outcome → Program Resolutions
unfolding fail_all with_records unexpected_batch
with_assets crates start chain_id lane (assets resolved) =
    ask (load_records (map (λ operation. operation.user_operation_hash) start.operations))
      (with_records crates start (pass_of start chain_id lane resolved))
with_assets crates start chain_id lane (assets_unavailable reason) =
    fail_all start (codes "assets") reason
with_assets crates start chain_id lane (failed_with reason) = fail_all start (codes "assets") reason
with_assets crates start chain_id lane _ = unexpected_batch (length start.operations)

unfoldable pub with_chain : Crates → StartBatch → ℕ → ℕ → Outcome → Program Resolutions
unfolding fail_all with_assets
with_chain crates start chain_id lane (supported true) =
    ask load_chain_assets (with_assets crates start chain_id lane)
with_chain crates start chain_id lane _ =
    fail_all start (codes "rpc") (codes "chain has no trusted executor RPC")

unfoldable pub drive_operations :
    Crates → StartBatch → List RoutedUserOperation → Program Resolutions
unfolding all_failed with_chain
drive_operations crates start [] = done []
drive_operations crates start (operation ∷ operations) =
    if any (λ o. not (o.chain_id == operation.chain_id) || not (o.lane == operation.lane))
      (operation ∷ operations)
    then done
        (all_failed (length start.operations) (codes "consumer returned a mixed chain/lane batch"))
    else ask check_chain_supported (with_chain crates start operation.chain_id operation.lane)

unfoldable pub drive_batch : Crates → StartBatch → Program Resolutions
unfolding drive_operations
drive_batch crates start = drive_operations crates start start.operations
