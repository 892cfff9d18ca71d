-- ===== src/Execution/BatchSafety.antt =====
-- vela-relay-core/src/execution.rs: a batch, from its messages to their resolutions, keeps the
-- lane's rules.
use vela_relay.Prelude.{
  ℕ, zero, suc, ◌+◌, ◌≡◌, ◌∙◌, refl, ap, Bool, true, false, none, List, [], ◌∷◌, length, any, not,
  ◌||◌, ◌==◌, if◌then◌else◌, arith,
}
use vela_relay.Prelude.Result.{Result, ok, err}
use vela_relay.Prelude.Text.{Text, codes}
use vela_relay.Task.Prepared.{RoutedUserOperation}
use vela_relay.Execution.Operation.{
  Outcome, acquire_lane_lease, records, failed_with, assets, assets_unavailable, supported,
  check_chain_supported,
}
use vela_relay.Execution.LeaseSafety.{unseen}
use vela_relay.Execution.Program.{Program, Shell, run, done, ask, and_then}
use vela_relay.Execution.Discipline.{Obeys, Obeys-if, Obeys-and_then, Respects, run-Respects}
use vela_relay.Execution.Sending.{Crates}
use vela_relay.Execution.Candidates.{Candidate}
use vela_relay.Execution.Results.{
  Results, unsettled, finish, all_failed, record_deferred, record_routed_deferred, is_settled, pure,
}
use vela_relay.Execution.Pipeline.{Pass, execute_with_lane_lease}
use vela_relay.Execution.Batch.{
  Resolutions, StartBatch, deferred_finish, no_outcome_finish, bundled, defer_all, finish_of,
  conclude, acquired, execute_candidates, unexpected_batch, with_records, fail_all, pass_of,
  with_assets, with_chain, drive_operations, drive_batch,
}
use vela_relay.Execution.Triage.{triage_items}
use vela_relay.Execution.LaneRules.{View, lane_rules, lane_owned, remember, Complete, quieted}
use vela_relay.Execution.LaneSteps.{Obeys-lane, Obeys-lane_if}
use vela_relay.Execution.SubmissionSafety.{record_deferred-Complete}
use vela_relay.Execution.PipelineSafety.{execute_with_lane_lease-Complete}
use vela_relay.Execution.TriageSafety.{Sorted, triage_items-Sorted}

length-finish : (reason : Text) (slots : Results) → length (finish reason slots) ≡ length slots
unfolding finish
length-finish reason [] = refl
length-finish reason (slot ∷ slots) = ap suc (length-finish reason slots)

length-all_failed : (n : ℕ) (reason : Text) → length (all_failed n reason) ≡ n
unfolding all_failed
length-all_failed zero reason = refl
length-all_failed (suc n) reason = ap suc (length-all_failed n reason)

length-unsettled : (n : ℕ) → length (unsettled n) ≡ n
unfolding unsettled
length-unsettled zero = refl
length-unsettled (suc n) = ap suc (length-unsettled n)

-- One resolution for each operation.
abbrev pub Whole : ℕ → View → Resolutions → Type 0
Whole n v resolutions = length resolutions ≡ n

Obeys-decided :
    {A : Type 0} (Post : View → A → Type 0) (v : View) (b : Bool) (p q : Program A)
    → (b ≡ true → Obeys lane_rules Post v p)
    → Obeys lane_rules Post v q
    → Obeys lane_rules Post v (if b then p else q)
Obeys-decided Post v true p q hp hq = hp refl
Obeys-decided Post v false p q hp hq = hq

record_routed_deferred-Complete :
    (n index : ℕ) (operations : List RoutedUserOperation) (outer : Results) (stage reason : Text)
    (v : View) (slots : Results)
    → length slots ≡ n
    → Obeys lane_rules
        (Complete n)
        v
        (record_routed_deferred index operations outer stage reason slots)
unfolding record_routed_deferred
record_routed_deferred-Complete n index [] outer stage reason v slots h = h
record_routed_deferred-Complete n index (o ∷ operations) outer stage reason v slots h =
    let left = record_deferred o.user_operation_hash stage reason in
    Obeys-lane (Complete n) (Complete n) v
      ((if is_settled outer index then pure tt else left) slots)
      (λ u. record_routed_deferred (index + 1) operations outer stage reason)
      (Obeys-lane_if (Complete n) v (is_settled outer index) (pure tt) left slots h
        (record_deferred-Complete n o.user_operation_hash stage reason v slots h))
      (λ w r s held. held)
      (λ w u s held.
        record_routed_deferred-Complete n (index + 1) operations outer stage reason w s held)

defer_all-Whole :
    (n : ℕ) (operations : List RoutedUserOperation) (slots : Results) (stage reason : Text)
    (resolutions : Resolutions) (v : View)
    → length resolutions ≡ n
    → Obeys lane_rules (Whole n) v (defer_all operations slots stage reason resolutions)
unfolding defer_all
defer_all-Whole n operations slots stage reason resolutions v e =
    Obeys-and_then lane_rules (Complete (length slots)) (Whole n) v
      (record_routed_deferred 0 operations slots stage reason slots) (λ r. done resolutions)
      (record_routed_deferred-Complete (length slots) 0 operations slots stage reason v slots refl)
      (λ w x h. e)

conclude-Whole :
    (n : ℕ) (operations : List RoutedUserOperation) (r : Result Text (Unit {0})) (slots : Results)
    (v : View)
    → length slots ≡ n
    → Obeys lane_rules (Whole n) v (conclude operations (r, slots))
unfolding conclude
conclude-Whole n operations (ok u) slots v h = length-finish deferred_finish slots ∙ h
conclude-Whole n operations (err reason) slots v h =
    Obeys-and_then lane_rules (Whole n) (Whole n) v
      (defer_all operations slots (codes "execution") reason (finish (finish_of reason) slots)) _
      (defer_all-Whole n operations slots (codes "execution") reason
        (finish (finish_of reason) slots) v (length-finish (finish_of reason) slots ∙ h))
      (λ w x h'. (tt, λ o. h'))

acquired-owned : (v : View) (o : Outcome) → acquired o ≡ true → (lane_owned v o).owned ≡ true
unfolding acquired lane_owned
acquired-owned v o e = ground arith

execute_candidates-Whole :
    (n : ℕ) (crates : Crates) (start : StartBatch) (pass : Pass) (slots : Results)
    (candidates : List Candidate) (v : View)
    → v.funds.owned ≡ false
    → length slots ≡ n
    → Obeys lane_rules (Whole n) v (execute_candidates crates start pass (slots, candidates))
unfolding execute_candidates
execute_candidates-Whole n crates start pass slots [] v free h =
    length-finish no_outcome_finish slots ∙ h
execute_candidates-Whole n crates start pass slots (c ∷ cs) v free h = (
  tt,
  λ o.
      let w = remember v acquire_lane_lease o in
      let batch = bundled pass.policy.max_bundle_operations (c ∷ cs) in
      Obeys-decided (Whole n) w (acquired o)
        (and_then (execute_with_lane_lease crates pass batch slots) (conclude start.operations))
        (defer_all start.operations slots (codes "lease")
          (codes "relayer lane is currently owned by another worker")
          (finish (codes "relayer lane is owned by another worker") slots))
        (λ e.
          Obeys-and_then lane_rules (Complete (length slots)) (Whole n) w
            (execute_with_lane_lease crates pass batch slots) (conclude start.operations)
            (execute_with_lane_lease-Complete crates pass batch w slots (acquired-owned v o e) free)
            (λ w x h'. conclude-Whole n start.operations x.0 x.1 w (h' ∙ h)))
        (defer_all-Whole n start.operations slots _ _ _ w (length-finish _ slots ∙ h)),
)

unexpected_batch-Whole : (n : ℕ) (v : View) → Obeys lane_rules (Whole n) v (unexpected_batch n)
unfolding unexpected_batch
unexpected_batch-Whole n v = length-all_failed n _

with_records-Whole :
    (crates : Crates) (start : StartBatch) (pass : Pass) (v : View) (o : Outcome)
    → v.funds.owned ≡ false
    → Obeys lane_rules (Whole (length start.operations)) v (with_records crates start pass o)
unfolding with_records
with_records-Whole crates start pass v (records stored) free =
    Obeys-and_then lane_rules (Sorted (length start.operations)) (Whole (length start.operations)) v
      (triage_items crates start.policy 0 start.operations stored
        (unsettled (length start.operations), []))
      (execute_candidates crates start pass)
      (triage_items-Sorted crates start.policy 0 (length start.operations) start.operations stored
        (unsettled (length start.operations), []) v
        (free, length-unsettled (length start.operations)))
      (λ w x (calm, h).
        execute_candidates-Whole (length start.operations) crates start pass x.0 x.1 w calm h)
with_records-Whole crates start pass v (failed_with message) free =
    length-all_failed (length start.operations) message
with_records-Whole crates start pass v _ free = unexpected_batch-Whole (length start.operations) v

fail_all-Whole :
    (start : StartBatch) (stage reason : Text) (v : View)
    → Obeys lane_rules (Whole (length start.operations)) v (fail_all start stage reason)
unfolding fail_all
fail_all-Whole start stage reason v =
    defer_all-Whole (length start.operations) start.operations [] stage reason
      (all_failed (length start.operations) reason) v
      (length-all_failed (length start.operations) reason)

with_assets-Whole :
    (crates : Crates) (start : StartBatch) (chain_id lane : ℕ) (v : View) (o : Outcome)
    → v.funds.owned ≡ false
    → Obeys lane_rules
        (Whole (length start.operations))
        v
        (with_assets crates start chain_id lane o)
unfolding with_assets
with_assets-Whole crates start chain_id lane v (assets resolved) free = (
  tt,
  λ o. with_records-Whole crates start (pass_of start chain_id lane resolved) (quieted v) o free,
)
with_assets-Whole crates start chain_id lane v (assets_unavailable reason) free =
    fail_all-Whole start _ reason v
with_assets-Whole crates start chain_id lane v (failed_with reason) free =
    fail_all-Whole start _ reason v
with_assets-Whole crates start chain_id lane v _ free =
    unexpected_batch-Whole (length start.operations) v

with_chain-Whole :
    (crates : Crates) (start : StartBatch) (chain_id lane : ℕ) (v : View) (o : Outcome)
    → v.funds.owned ≡ false
    → Obeys lane_rules (Whole (length start.operations)) v (with_chain crates start chain_id lane o)
unfolding with_chain
with_chain-Whole crates start chain_id lane v (supported true) free =
    (tt, λ o. with_assets-Whole crates start chain_id lane (quieted v) o free)
with_chain-Whole crates start chain_id lane v _ free = fail_all-Whole start _ _ v

drive_operations-Whole :
    (crates : Crates) (start : StartBatch) (operations : List RoutedUserOperation) (v : View)
    → operations ≡ start.operations
    → v.funds.owned ≡ false
    → Obeys lane_rules
        (Whole (length start.operations))
        v
        (drive_operations crates start operations)
unfolding drive_operations
drive_operations-Whole crates start [] v e free = ap length e
drive_operations-Whole crates start (operation ∷ operations) v e free =
    Obeys-if lane_rules (Whole (length start.operations)) v
      (any (λ o. not (o.chain_id == operation.chain_id) || not (o.lane == operation.lane))
        (operation ∷ operations))
      (done
        (all_failed (length start.operations) (codes "consumer returned a mixed chain/lane batch")))
      (ask check_chain_supported (with_chain crates start operation.chain_id operation.lane))
      (length-all_failed (length start.operations) _)
      (tt, λ o. with_chain-Whole crates start operation.chain_id operation.lane (quieted v) o free)

-- A view that shows nothing.
abbrev pub nothing : View
nothing = record {
  owned = false;
  held = false;
  unprepared = false;
  signed_hash = none;
  stored = [];
  shown = [];
  base_fee = none;
  funds = unseen;
}

-- Whatever its shell answers, a batch asks only what the lane's rules allow: the lane's lease is
-- confirmed, and the lane's bundle read, signed, stored, resumed, cleared or marked, only after
-- the lease was acquired; one is signed only right after the lease was confirmed and where the
-- last read found none prepared and none was stored since, a native one at a cap that covers the
-- base fee that was read and the tip, or with no tip; it is stored only right after another
-- confirmation and under the hash that was signed last; what is sent, resumed or cleared was read
-- from the store or stored by the batch, and what is marked submitted was, besides, seen before,
-- accepted under its own hash or known to a node; and the treasury is asked only what its own
-- rules allow. The batch ends with one resolution for each of its operations.
pub drive_batch-Respects :
    (crates : Crates) (start : StartBatch) (shell : Shell)
    → Respects lane_rules nothing (run shell [] (drive_batch crates start)).1
      × (length (run shell [] (drive_batch crates start)).0 ≡ length start.operations)
unfolding drive_batch
drive_batch-Respects crates start shell =
    run-Respects lane_rules (Whole (length start.operations)) shell [] nothing
      (drive_batch crates start)
      (drive_operations-Whole crates start start.operations nothing refl refl)
