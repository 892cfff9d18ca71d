-- ===== src/Task/Prepared.antt =====
-- vela-relay-core/src/task.rs: the operation as the queue carries it, and the signed transactions
-- that are stored before they are sent.
use vela_relay.Prelude.{ℕ, Option, List}
use vela_relay.Prelude.Text.{Text}
use vela_relay.GasMath.{SubmissionTier}

pub record RoutedUserOperation : Type 0 where
  pub schema_version : ℕ
  pub user_operation_hash : Text
  pub chain_id : ℕ  -- u64
  pub entry_point : Text
  pub user_operation : Text
  pub sender : Text
  pub lane : ℕ  -- u8
  pub stream : Text
  pub partition_id : ℕ
  pub offset : ℕ
  pub submission_tier : Option SubmissionTier

pub record PreparedBundleIntent : Type 0 where
  pub chain_id : ℕ
  pub lane : ℕ
  pub entry_point : Text
  pub raw_transaction : Text
  pub transaction_hash : Text
  pub nonce : ℕ
  pub user_operation_hashes : List Text
  pub billed_gas : Option Text
  pub billed_fee_per_gas : Option Text

pub record PreparedFundingIntent : Type 0 where
  pub chain_id : ℕ
  pub relayer : Text
  pub amount_wei : ℕ
  pub raw_transaction : Text
  pub transaction_hash : Text
  pub nonce : ℕ
