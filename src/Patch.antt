-- ===== src/Patch.antt =====
-- A record patch: the JSON object of `StoredUserOperation` fields that the stores merge into a
-- record. Its keys are distinct; `status` stands apart, since the lifecycle judges it.
pub mod Merge
use vela_relay.Prelude.{ℕ, Bool, Option, none, some, List, [], ◌∷◌, ◌>>=◌}
use vela_relay.Prelude.Text.{Text}
use vela_relay.Task.{UserOperationStatus, UserOperation, UserOperationEvent, StoredUserOperation}

pub data PatchField : Type 0 where
  set_transaction_hash : Option Text → PatchField
  set_chain_id : ℕ → PatchField
  set_chain_id_text : Text → PatchField
  set_entry_point : Text → PatchField
  set_user_operation : UserOperation → PatchField
  set_admitted : Bool → PatchField
  set_next_receipt_check_at_ms : ℕ → PatchField
  set_block_hash : Option Text → PatchField
  set_block_number : Option Text → PatchField
  set_receipt : Option Text → PatchField
  set_event : Option UserOperationEvent → PatchField
  set_last_executor_stage : Option Text → PatchField
  set_last_executor_error : Option Text → PatchField
  set_last_executor_attempt_at_ms : Option ℕ → PatchField
  set_rejection_reason : Option Text → PatchField
  -- A key that no field has: serde drops it when the merged record is read back.
  unknown_key : Text → PatchField
  -- A value that its field cannot hold: the merged record does not read back.
  ill_typed : Text → PatchField

-- The `status` key: absent, not a status, or a status.
pub data StatusKey : Type 0 where
  absent : StatusKey
  unreadable : StatusKey
  requests : UserOperationStatus → StatusKey

pub data Patch : Type 0 where
  not_object : Patch
  object : StatusKey → List PatchField → Patch

merge_field : PatchField → StoredUserOperation → Option StoredUserOperation
merge_field (set_transaction_hash v) r = some (record r { transaction_hash = v })
merge_field (set_chain_id v) r = some (record r { chain_id = v })
merge_field (set_chain_id_text v) r = some (record r { chain_id_text = v })
merge_field (set_entry_point v) r = some (record r { entry_point = v })
merge_field (set_user_operation v) r = some (record r { user_operation = v })
merge_field (set_admitted v) r = some (record r { admitted = v })
merge_field (set_next_receipt_check_at_ms v) r = some (record r { next_receipt_check_at_ms = v })
merge_field (set_block_hash v) r = some (record r { block_hash = v })
merge_field (set_block_number v) r = some (record r { block_number = v })
merge_field (set_receipt v) r = some (record r { receipt = v })
merge_field (set_event v) r = some (record r { event = v })
merge_field (set_last_executor_stage v) r = some (record r { last_executor_stage = v })
merge_field (set_last_executor_error v) r = some (record r { last_executor_error = v })
merge_field (set_last_executor_attempt_at_ms v) r =
    some (record r { last_executor_attempt_at_ms = v })
merge_field (set_rejection_reason v) r = some (record r { rejection_reason = v })
merge_field (unknown_key key) r = some r
merge_field (ill_typed key) r = none

-- The merge of the fields but `status`; `none` if the merged record does not read back.
unfoldable pub merge : List PatchField → StoredUserOperation → Option StoredUserOperation
unfolding merge_field
merge [] r = some r
merge (f ∷ fs) r = merge_field f r >>= merge fs
