-- ===== src/Execution/Triage.antt =====
-- vela-relay-core/src/execution.rs: the triage of a batch's messages, which reads or rebuilds the
-- record of each.
use vela_relay.Prelude.{ℕ, ◌+◌, true, false, Option, none, some, List, [], ◌∷◌, ◌++◌, if◌then◌else◌}
use vela_relay.Prelude.Result.{Result, ok, err}
use vela_relay.Prelude.Text.{Text, codes}
use vela_relay.Task.{QueuedUserOperation, StoredUserOperation, is_durable}
use vela_relay.Task.Prepared.{RoutedUserOperation}
use vela_relay.Execution.Operation.{
  Outcome, Operation, invalid_queued_payload, dead_letter_routed, restore_queued, reload_record,
  mark_admitted, mark_rejected, record_of, persisted, marked, settled, failed_with,
}
use vela_relay.Execution.Program.{Program, done, ask, and_then}
use vela_relay.Execution.Sending.{Crates}
use vela_relay.Execution.Funding.{ExecutionPolicy}
use vela_relay.Execution.Candidates.{
  Candidate, queued_operation_from_routed, candidate_from_record, queue_record_matches,
  admission_action, AdmissionAction, execute, recover, dead_letter,
}
use vela_relay.Execution.Results.{
  ItemResolution, durable_outcome, failed_item, Results, settle_slot,
}

-- A step of the triage of one message: it ends with the message's resolution, or goes on.
abbrev pub Item : Type 0 → Type 0
Item A = Program (Result ItemResolution A)

unfoldable pub item_after : {A B : Type 0} → (A → Item B) → Result ItemResolution A → Item B
item_after f (err resolution) = done (err resolution)
item_after f (ok a) = f a

abbrev pub item_query : {A : Type 0} → Operation → (Outcome → Result ItemResolution A) → Item A
item_query operation read = ask operation (λ o. done (read o))

infixl 5 ◌>>>◌
abbrev pub ◌>>>◌ : {A B : Type 0} → Item A → (A → Item B) → Item B
m >>> f = and_then m (item_after f)

unexpected_item : {A : Type 0} → Result ItemResolution A
unexpected_item = err (failed_item (codes "unexpected shell response"))

-- The outcomes that the triage reads; an interrupt is an answer like any other here.
unfoldable pub read_persisted : Text → Outcome → ItemResolution
read_persisted reason (persisted true) = durable_outcome
read_persisted reason _ = failed_item reason

unfoldable pub read_restored : Outcome → Result ItemResolution (Unit {0})
unfolding unexpected_item
read_restored settled = ok tt
read_restored (failed_with message) = err (failed_item message)
read_restored _ = unexpected_item

unfoldable pub read_reloaded : Outcome → Result ItemResolution StoredUserOperation
unfolding unexpected_item
read_reloaded (record_of (some stored)) = ok stored
read_reloaded (record_of none) =
    err (failed_item (codes "rebuilt UserOperation status disappeared before execution"))
read_reloaded (failed_with message) = err (failed_item message)
read_reloaded _ = unexpected_item

unfoldable pub read_marked : Outcome → Result ItemResolution (Unit {0})
unfolding unexpected_item
read_marked (marked true) = ok tt
read_marked (marked false) =
    err (failed_item (codes "could not recover expired UserOperation admission"))
read_marked (failed_with message) = err (failed_item message)
read_marked _ = unexpected_item

unfoldable pub read_rejected : Outcome → ItemResolution
read_rejected (failed_with message) = failed_item message
read_rejected _ = durable_outcome

abbrev pub resolved : {A : Type 0} → Operation → (Outcome → ItemResolution) → Item A
resolved operation read = ask operation (λ o. done (err (read o)))

-- The record of a message that had none, rebuilt from the message.
unfoldable pub restore :
    ℕ → RoutedUserOperation → Result Text QueuedUserOperation → Item StoredUserOperation
unfolding read_persisted read_restored read_reloaded
restore index routed (err reason) =
    resolved (dead_letter_routed index reason)
      (read_persisted (codes "could not persist invalid queue message"))
restore index routed (ok queued) = item_query (restore_queued index queued) read_restored >>> λ u.
    item_query (reload_record routed.user_operation_hash) read_reloaded

unfoldable pub rebuild :
    Crates → ExecutionPolicy → ℕ → RoutedUserOperation → Item StoredUserOperation
unfolding queued_operation_from_routed restore
rebuild crates policy index routed =
    restore index routed (queued_operation_from_routed crates routed policy.pool_width)

unfoldable pub found_or_rebuilt :
    Crates
    → ExecutionPolicy
    → ℕ
    → RoutedUserOperation
    → Option StoredUserOperation
    → Item StoredUserOperation
unfolding rebuild
found_or_rebuilt crates policy index routed (some stored) = done (ok stored)
found_or_rebuilt crates policy index routed none = rebuild crates policy index routed

unfoldable pub admit : ℕ → RoutedUserOperation → AdmissionAction → Item (Unit {0})
unfolding read_persisted read_marked
admit index routed execute = done (ok tt)
admit index routed recover = item_query (mark_admitted routed.user_operation_hash) read_marked
admit index routed dead_letter =
    resolved (dead_letter_routed index (codes "Iggy envelope does not match Redis admission"))
      (read_persisted (codes "could not persist mismatched queue message"))

unfoldable pub packed_or_rejected : RoutedUserOperation → Result Text Candidate → Item Candidate
unfolding read_rejected
packed_or_rejected routed (ok candidate) = done (ok candidate)
packed_or_rejected routed (err reason) =
    resolved (mark_rejected routed.user_operation_hash (invalid_queued_payload reason))
      read_rejected

unfoldable pub pack_candidate :
    Crates → ExecutionPolicy → ℕ → RoutedUserOperation → StoredUserOperation → Item Candidate
unfolding candidate_from_record packed_or_rejected
pack_candidate crates policy index routed stored =
    packed_or_rejected routed (candidate_from_record crates index routed stored policy.pool_width)

unfoldable pub triage_record :
    Crates → ExecutionPolicy → ℕ → RoutedUserOperation → StoredUserOperation → Item Candidate
unfolding is_durable queue_record_matches admission_action admit pack_candidate
triage_record crates policy index routed stored =
    if is_durable stored.status
    then done (err durable_outcome)
    else (admit index routed
          (admission_action stored.admitted (queue_record_matches crates routed stored))
        >>> λ u. pack_candidate crates policy index routed stored)

unfoldable pub triage_item :
    Crates → ExecutionPolicy → ℕ → RoutedUserOperation → Option StoredUserOperation → Item Candidate
unfolding found_or_rebuilt triage_record
triage_item crates policy index routed found =
    found_or_rebuilt crates policy index routed found >>> triage_record crates policy index routed

-- The message's slot, or its place among the candidates.
unfoldable pub note_item :
    ℕ → Result ItemResolution Candidate → Results × List Candidate → Results × List Candidate
note_item index (err resolution) (slots, candidates) =
    (settle_slot index resolution slots, candidates)
note_item index (ok candidate) (slots, candidates) = (slots, candidates ++ candidate ∷ [])

unfoldable pub triage_items :
    Crates
    → ExecutionPolicy
    → ℕ
    → List RoutedUserOperation
    → List (Option StoredUserOperation)
    → Results × List Candidate
    → Program (Results × List Candidate)
unfolding triage_item note_item
triage_items crates policy index (routed ∷ operations) (found ∷ stored) so_far =
    and_then (triage_item crates policy index routed found) (λ result.
      triage_items crates policy (index + 1) operations stored (note_item index result so_far))
triage_items crates policy index _ _ so_far = done so_far
