-- ===== src/Task.antt =====
-- vela-relay-core/src/task.rs: the status of an operation, the queued operation and its stored
-- record. A JSON value is the text that it is stored as; an address, a quantity and a hash are text.
pub mod Diagnostics
pub mod Prepared
use vela_relay.Prelude.{
  ℕ, ◌+◌, ◌-◌, Bool, true, false, Option, none, [], ◌∷◌, ◌++◌, leb, if◌then◌else◌,
}
use vela_relay.Prelude.Text.{Text, codes, len_utf8, byte_len, digits_of}

pub data UserOperationStatus : Type 0 where
  not_found queued not_submitted submitted rejected included failed : UserOperationStatus

-- The derived `PartialEq`.
abbrev pub status_code : UserOperationStatus → ℕ
status_code not_found = 0
status_code queued = 1
status_code not_submitted = 2
status_code submitted = 3
status_code rejected = 4
status_code included = 5
status_code failed = 6

unfoldable pub is_terminal : UserOperationStatus → Bool
is_terminal rejected = true
is_terminal included = true
is_terminal failed = true
is_terminal _ = false

unfoldable pub is_durable : UserOperationStatus → Bool
is_durable submitted = true
is_durable rejected = true
is_durable included = true
is_durable failed = true
is_durable _ = false

pub record Eip7702Authorization : Type 0 where
  pub chain_id : Text
  pub address : Text
  pub nonce : Text
  pub y_parity : Text
  pub r : Text
  pub s : Text

pub record UserOperationV0_7 : Type 0 where
  pub sender : Text
  pub nonce : Text
  pub factory : Option Text
  pub factory_data : Option Text
  pub call_data : Text
  pub call_gas_limit : Text
  pub verification_gas_limit : Text
  pub pre_verification_gas : Text
  pub max_fee_per_gas : Text
  pub max_priority_fee_per_gas : Text
  pub paymaster : Option Text
  pub paymaster_verification_gas_limit : Option Text
  pub paymaster_post_op_gas_limit : Option Text
  pub paymaster_data : Option Text
  pub signature : Text
  pub eip7702_auth : Option Eip7702Authorization
  pub fee_token : Option Text

pub record UserOperationV0_6 : Type 0 where
  pub sender : Text
  pub nonce : Text
  pub init_code : Text
  pub call_data : Text
  pub call_gas_limit : Text
  pub verification_gas_limit : Text
  pub pre_verification_gas : Text
  pub max_fee_per_gas : Text
  pub max_priority_fee_per_gas : Text
  pub paymaster_and_data : Text
  pub signature : Text

pub data UserOperation : Type 0 where
  v0_7 : UserOperationV0_7 → UserOperation
  v0_6 : UserOperationV0_6 → UserOperation

pub record UserOperationEvent : Type 0 where
  pub user_operation_hash : Text
  pub success : Bool
  pub actual_gas_cost : Text
  pub actual_gas_used : Text

pub record QueuedUserOperation : Type 0 where
  pub user_operation_hash : Text
  pub chain_id : ℕ  -- u64
  pub entry_point : Text
  pub user_operation : UserOperation

pub record StoredUserOperation : Type 0 where
  pub status : UserOperationStatus
  pub transaction_hash : Option Text
  pub chain_id : ℕ  -- u64
  pub chain_id_text : Text
  pub entry_point : Text
  pub user_operation : UserOperation
  pub admitted : Bool
  pub next_receipt_check_at_ms : ℕ  -- u64
  pub block_hash : Option Text
  pub block_number : Option Text
  pub receipt : Option Text
  pub event : Option UserOperationEvent
  pub last_executor_stage : Option Text
  pub last_executor_error : Option Text
  pub last_executor_attempt_at_ms : Option ℕ
  pub rejection_reason : Option Text

unfoldable pub queued_record : QueuedUserOperation → Bool → StoredUserOperation
queued_record operation admitted = record {
  status = queued;
  transaction_hash = none;
  chain_id = operation.chain_id;
  chain_id_text = digits_of operation.chain_id;
  entry_point = operation.entry_point;
  user_operation = operation.user_operation;
  admitted = admitted;
  next_receipt_check_at_ms = 0;
  block_hash = none;
  block_number = none;
  receipt = none;
  event = none;
  last_executor_stage = none;
  last_executor_error = none;
  last_executor_attempt_at_ms = none;
  rejection_reason = none;
}

-- The characters that `take_while` keeps: those that end within `limit - 3` bytes. `index` is the
-- byte at which the next one starts.
unfoldable pub chars_within : ℕ → ℕ → Text → Text
chars_within limit index [] = []
chars_within limit index (c ∷ cs) =
    let rest = chars_within limit (index + len_utf8 c) cs in
    if leb (index + len_utf8 c) (limit - 3) then c ∷ rest else []

unfoldable pub truncate_diagnostic : Text → ℕ → Text
unfolding chars_within
truncate_diagnostic value limit =
    if leb (byte_len value) limit then value else chars_within limit 0 value ++ codes "..."
