-- ===== src/Lifecycle.antt =====
-- vela-relay-core/src/lifecycle.rs: the transition table and the decisions made by it.
pub mod Table
pub mod Submission
use vela_relay.Prelude.{
  ℕ, Bool, true, false, ◌&&◌, ◌||◌, Option, none, some, [], ◌∷◌, ◌++◌, ltb, ◌==◌, if◌then◌else◌,
}
use vela_relay.Prelude.Text.{Text, codes, text_eq, digits_of}
use vela_relay.Task.{
  UserOperationStatus, queued, not_submitted, submitted, rejected, included, failed, status_code,
  StoredUserOperation, truncate_diagnostic,
}
use vela_relay.Rejection.{relay_gave_up, as_str}
use vela_relay.Patch.{
  Patch, object, requests, set_last_executor_stage, set_last_executor_error,
  set_last_executor_attempt_at_ms, set_rejection_reason,
}

-- The pairs of the table's `matches!`.
listed : UserOperationStatus → UserOperationStatus → Bool
listed queued not_submitted = true
listed queued submitted = true
listed queued rejected = true
listed queued failed = true
listed not_submitted submitted = true
listed not_submitted rejected = true
listed not_submitted failed = true
listed submitted included = true
listed submitted rejected = true
listed submitted failed = true
listed _ _ = false

unfoldable pub transition_is_allowed : UserOperationStatus → UserOperationStatus → Bool
unfolding listed
transition_is_allowed current next = status_code current == status_code next || listed current next

pub data PatchDecision : Type 0 where
  apply refuse_illegal_transition : PatchDecision

unfoldable pub decide_patch : UserOperationStatus → Option UserOperationStatus → PatchDecision
unfolding transition_is_allowed
decide_patch current none = apply
decide_patch current (some next) =
    if transition_is_allowed current next then apply else refuse_illegal_transition

pub data BundleSubmissionDecision : Type 0 where
  transition index_only skip : BundleSubmissionDecision

abbrev pub legacy_chain_id_exact_limit : ℕ
legacy_chain_id_exact_limit = 100_000_000_000_000

unfoldable pub same_chain : ℕ → Text → ℕ → Bool
same_chain record_chain_id [] bundle_chain_id =
    record_chain_id == bundle_chain_id && ltb record_chain_id legacy_chain_id_exact_limit
same_chain record_chain_id (c ∷ cs) bundle_chain_id = text_eq (c ∷ cs) (digits_of bundle_chain_id)

-- `record_transaction_hash == Some(bundle_transaction_hash)`
abbrev pub has_hash : Option Text → Text → Bool
has_hash none h = false
has_hash (some g) h = text_eq g h

decide_member : UserOperationStatus → Option Text → Text → BundleSubmissionDecision
decide_member queued h b = transition
decide_member not_submitted h b = transition
decide_member submitted h b = if has_hash h b then index_only else skip
decide_member _ h b = skip

unfoldable pub decide_bundle_submission :
    UserOperationStatus → Option Text → ℕ → Text → ℕ → Text → BundleSubmissionDecision
unfolding same_chain decide_member
decide_bundle_submission status record_hash record_chain_id record_chain_id_text bundle_chain_id
      bundle_hash =
    if same_chain record_chain_id record_chain_id_text bundle_chain_id
    then decide_member status record_hash bundle_hash
    else skip

abbrev pub dead_letter_stage : Text
dead_letter_stage = codes "dead_letter"

abbrev gave_up_text : Text
gave_up_text = codes "the relay stopped retrying this operation without sending it"

dead_letter_reason : Option Text → Text
dead_letter_reason none = gave_up_text
dead_letter_reason (some []) = gave_up_text
dead_letter_reason (some (c ∷ cs)) = gave_up_text ++ codes "; last error: " ++ (c ∷ cs)

-- `matches!(status, Queued | NotSubmitted)`
unfoldable pub awaits_submission : UserOperationStatus → Bool
awaits_submission queued = true
awaits_submission not_submitted = true
awaits_submission _ = false

unfoldable pub dead_letter_patch : StoredUserOperation → ℕ → Option Patch
unfolding awaits_submission dead_letter_reason
dead_letter_patch r now_ms =
    if awaits_submission r.status
    then some (
        object (requests rejected) (
          set_last_executor_stage (some dead_letter_stage)
          ∷ set_last_executor_error
              (some (truncate_diagnostic (dead_letter_reason r.last_executor_error) 512))
          ∷ set_last_executor_attempt_at_ms (some now_ms)
          ∷ set_rejection_reason (some (as_str relay_gave_up))
          ∷ []))
    else none
