-- ===== src/Examples/Records.antt =====
-- One operation's record: it is queued, submitted, included, and expires.
use vela_relay.Prelude.{
  ℕ, ◌≡◌, ◌≢◌, ◌⊎◌, refl, inl, inr, true, false, none, some, List, [], ◌∷◌, arith, Option, sym, ◌∙◌,
}
use vela_relay.Prelude.Text.{Text, codes, digits_of}
use vela_relay.Task.{
  UserOperation, v0_6, QueuedUserOperation, StoredUserOperation, queued_record, queued, submitted,
  included, rejected, is_durable,
}
use vela_relay.Rejection.{nonce_in_flight, as_str, parse}
use vela_relay.Rejection.Codes.{parse-as_str}
use vela_relay.Patch.{Patch, object, requests, set_transaction_hash}
use vela_relay.Lifecycle.{
  transition_is_allowed, decide_bundle_submission, transition, index_only, skip,
}
use vela_relay.Lifecycle.Table.{transition_is_allowed_trans, transition_is_allowed-durable}
use vela_relay.Lifecycle.Submission.{decide_bundle_submission_sound}
use vela_relay.RecordDo.{
  RecordState, empty, Platform, RecordCommand, create_queued, mark_admitted, restore_queued, patch,
  mark_bundle_member_submitted, created, handle, run,
}
use vela_relay.RecordDo.Status.{Follows, handle-Follows}
use vela_relay.RecordDo.History.{Forward, run-Forward, create_queued-once, create_queued-unreadable}
use vela_relay.RecordDo.Expiry.{command, fire, after, IsScheduled, after-IsScheduled}

abbrev pub account_operation : UserOperation
account_operation = v0_6 (record {
  sender = codes "0xaa";
  nonce = codes "0x1";
  init_code = codes "0x";
  call_data = codes "0x";
  call_gas_limit = codes "0x5208";
  verification_gas_limit = codes "0x5208";
  pre_verification_gas = codes "0x5208";
  max_fee_per_gas = codes "0x0";
  max_priority_fee_per_gas = codes "0x0";
  paymaster_and_data = codes "0x";
  signature = codes "0x01";
})

abbrev operation : QueuedUserOperation
operation = record {
  user_operation_hash = codes "0x0a";
  chain_id = 137;
  entry_point = codes "0xee";
  user_operation = account_operation;
}

abbrev polygon : ℕ
polygon = 137

abbrev at_time : ℕ → Platform
at_time now = record { now = now; readable = true }

abbrev unreadable_at : ℕ → Platform
unreadable_at now = record { now = now; readable = false }

abbrev stored_record : StoredUserOperation
stored_record = queued_record operation false

abbrev stored_state : RecordState
stored_state = record {
  stored = some stored_record;
  nonce_holder = none;
  expires_at_ms = some 3_600_000;
  alarm_at_ms = some 3_600_000;
}

abbrev settle_patch : Patch
settle_patch = object (requests included) (set_transaction_hash (some (codes "0xf0")) ∷ [])

-- The queue confirms the operation, a bundle submits it, and a receipt includes it.
abbrev life : List (Platform × RecordCommand)
life =
    (at_time 10, mark_admitted)
    ∷ (at_time 20, mark_bundle_member_submitted 137 (codes "0xf0"))
    ∷ (at_time 30, patch settle_patch)
    ∷ []

run-Forward_example :
    (r' : StoredUserOperation) × ((run life stored_state).stored ≡ some r')
    × Forward queued r'.status
unfolding queued_record
run-Forward_example = run-Forward life stored_record stored_state (refl, (refl, (refl, tt))) refl

handle-Follows_example :
    Follows (some stored_record) (handle (at_time 30) (patch settle_patch) stored_state).0.stored
handle-Follows_example =
    handle-Follows (at_time 30) (patch settle_patch) stored_record stored_state refl refl

create_queued-once_example :
    (handle (at_time 40) (create_queued operation) (run life stored_state)
      ≡ (run life stored_state, created false))
    × (handle (at_time 40) (restore_queued operation) (run life stored_state)
        ≡ (run life stored_state, created false))
create_queued-once_example =
    create_queued-once life stored_record stored_state (at_time 40) operation
      (refl, (refl, (refl, tt))) refl refl

create_queued-unreadable_example :
    ((handle (unreadable_at 40) (create_queued operation) stored_state).1 ≡ created true)
    × ((handle (unreadable_at 40) (create_queued operation) stored_state).0.stored
        ≡ some (queued_record operation false))
create_queued-unreadable_example =
    create_queued-unreadable (unreadable_at 40) operation stored_state refl

after-IsScheduled_example :
    IsScheduled
      (after (command (at_time 0) (create_queued operation) ∷ fire (at_time 5) ∷ []) empty)
unfolding IsScheduled
after-IsScheduled_example =
    after-IsScheduled (command (at_time 0) (create_queued operation) ∷ fire (at_time 5) ∷ []) empty
      (inl refl)

moves :
    decide_bundle_submission queued none polygon (digits_of polygon) polygon (codes "0xf0")
    ≡ transition
unfolding decide_bundle_submission digits_of
moves = refl

ne_skip :
    decide_bundle_submission queued none polygon (digits_of polygon) polygon (codes "0xf0") ≢ skip
ne_skip h = let e : transition ≡ skip = sym moves ∙ h in cc

decide_bundle_submission_sound_example :
    (polygon ≡ polygon)
    × (((decide_bundle_submission queued none polygon (digits_of polygon) polygon (codes "0xf0")
            ≡ transition)
          × (transition_is_allowed queued submitted ≡ true))
        ⊎ ((decide_bundle_submission queued none polygon (digits_of polygon) polygon (codes "0xf0")
              ≡ index_only)
            × (queued ≡ submitted)
            × (◌≡◌ {A = Option Text} none (some (codes "0xf0")))))
decide_bundle_submission_sound_example =
    decide_bundle_submission_sound queued none polygon (digits_of polygon) polygon (codes "0xf0")
      (omega arith) (omega arith) (inr refl) ne_skip

transition_is_allowed_trans_example :
    (transition_is_allowed queued rejected ≡ true)
    ⊎ ((submitted ≡ submitted) × (rejected ≡ included))
unfolding transition_is_allowed
transition_is_allowed_trans_example =
    transition_is_allowed_trans queued submitted rejected refl refl

transition_is_allowed-durable_example : is_durable included ≡ true
unfolding transition_is_allowed is_durable
transition_is_allowed-durable_example = transition_is_allowed-durable submitted included refl refl

parse-as_str_example : parse (as_str nonce_in_flight) ≡ nonce_in_flight
parse-as_str_example = parse-as_str nonce_in_flight
