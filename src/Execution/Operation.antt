-- ===== src/Execution/Operation.antt =====
-- vela-relay-core/src/execution.rs: the operations that the program asks of the shell, and the
-- shell's answers.
use vela_relay.Prelude.{ℕ, Bool, Option, List}
use vela_relay.Prelude.Text.{Text}
use vela_relay.Task.{StoredUserOperation, QueuedUserOperation}
use vela_relay.Task.Prepared.{PreparedBundleIntent, PreparedFundingIntent}
use vela_relay.Rejection.{RejectionReason}
use vela_relay.Abi.{PackedOperation}
use vela_relay.Settlement.Evidence.{SettlementLog}
use vela_relay.GasMath.{SubmissionTier, TipWindow}
use vela_relay.Settlement.Calldata.{Bytes, Address}
use vela_relay.Settlement.Evaluation.{ChainAssetConfig}

pub record ResolvedChainAssets : Type 0 where
  pub assets : ChainAssetConfig
  pub native_symbol : Text

pub record BundleSimulationData : Type 0 where
  pub gas_used : ℕ
  pub operation_gas_used : List ℕ
  pub logs : List SettlementLog
  pub full_execution : Bool

pub data OperationSimVerdict : Type 0 where
  success : OperationSimVerdict
  executed : BundleSimulationData → OperationSimVerdict
  nonce_mismatch : OperationSimVerdict
  sim_rejected : Text → OperationSimVerdict
  pending : Text → OperationSimVerdict
  transient : Text → OperationSimVerdict

pub data BundleSimVerdict : Type 0 where
  bundle_success : BundleSimulationData → BundleSimVerdict
  bundle_nonce_mismatch : BundleSimVerdict
  bundle_rejected : Text → BundleSimVerdict
  bundle_pending : Text → BundleSimVerdict
  bundle_transient : Text → BundleSimVerdict

pub record TransactionContext : Type 0 where
  pub estimated_gas : ℕ
  pub base_fee_per_gas : ℕ
  pub max_fee_per_gas : ℕ
  pub max_priority_fee_per_gas : ℕ
  pub nonce : ℕ
  pub relayer_balance : ℕ
  pub tip_window : Option TipWindow

pub record SignedBundle : Type 0 where
  pub raw_transaction_hex : Text
  pub transaction_hash : Text
  pub nonce : ℕ

pub record TreasurySignRequest : Type 0 where
  pub nonce : ℕ
  pub gas_limit : ℕ
  pub amount : ℕ
  pub max_fee_per_gas : ℕ
  pub max_priority_fee_per_gas : ℕ

pub record TempoTreasurySignRequest : Type 0 where
  pub nonce : ℕ
  pub gas_limit : ℕ
  pub max_fee_per_gas : ℕ
  pub amount : ℕ

pub record TempoSignRequest : Type 0 where
  pub nonce : ℕ
  pub gas_limit : ℕ
  pub max_fee_per_gas : ℕ
  pub entry_point : Address
  pub calldata : Bytes

pub record BundleSignRequest : Type 0 where
  pub nonce : ℕ
  pub gas_limit : ℕ
  pub max_fee_per_gas : ℕ
  pub max_priority_fee_per_gas : ℕ
  pub entry_point : Address
  pub calldata : Bytes

pub data RejectionCause : Type 0 where
  invalid_queued_payload : Text → RejectionCause
  simulation_rejected : Text → RejectionCause
  stale_nonce : ℕ → ℕ → RejectionCause
  unsupported_tempo_fee_token : Option Address → RejectionCause

pub data DeferCause : Type 0 where
  affordable_market_hold : DeferCause
  future_nonce : ℕ → ℕ → DeferCause

pub data ExecutionDiagnostic : Type 0 where
  simulation_deployment_wait : Text → Text → ExecutionDiagnostic
  simulation_unavailable : Text → Text → ExecutionDiagnostic
  bundle_simulation_rejected : Text → ExecutionDiagnostic
  bundle_simulation_nonce_mismatch : ExecutionDiagnostic
  bundle_simulation_deployment_wait : Text → ExecutionDiagnostic
  floor_unfundable_at : ℕ → ℕ → ℕ → ℕ → ExecutionDiagnostic
  repriced : ℕ → ℕ → ℕ → ℕ → ExecutionDiagnostic
  submission_tier_cap : SubmissionTier → ℕ → ℕ → ℕ → ℕ → ℕ → ExecutionDiagnostic
  hold_budget_exhausted : Text → ℕ → ℕ → ℕ → ExecutionDiagnostic
  settlement_rejected : Text → Option Address → ℕ → ℕ → Bool → ExecutionDiagnostic
  tempo_settlement_rejected : Text → ℕ → ℕ → Bool → ExecutionDiagnostic
  top_up_cap_usd : ℕ → ExecutionDiagnostic
  top_up_cap_unconvertible : ExecutionDiagnostic
  execution_deferred : Text → ExecutionDiagnostic

pub data Operation : Type 0 where
  check_chain_supported load_chain_assets : Operation
  load_records : List Text → Operation
  dead_letter_routed : ℕ → Text → Operation
  restore_queued : ℕ → QueuedUserOperation → Operation
  reload_record : Text → Operation
  mark_admitted : Text → Operation
  mark_rejected : Text → RejectionCause → Operation
  mark_rejected_with_reason : Text → Text → Text → RejectionReason → Operation
  defer_operation : ℕ → DeferCause → Operation
  record_deferred_of : Text → Text → Text → Operation
  notify_issue : Text → Text → Text → Operation
  emit_diagnostic_of : ExecutionDiagnostic → Operation
  acquire_lane_lease : Operation
  ensure_lane_lease_held : Operation
  load_prepared_bundle : Operation
  resume_bundle_intent : PreparedBundleIntent → Operation
  simulate_individually : Address → List (ℕ × PackedOperation) → Operation
  fetch_account_nonces : Address → List (Address × ℕ) → Operation
  simulate_bundle_of : Address → List (ℕ × PackedOperation) → Operation
  fetch_transaction_context : Address → Bytes → Operation
  fetch_market_price : Operation
  acquire_treasury_lease ensure_treasury_lease_held release_treasury_lease : Operation
  load_prepared_funding : Operation
  save_funding_intent : PreparedFundingIntent → Operation
  clear_funding_intent : Text → Operation
  fetch_treasury_context : Operation
  fetch_tempo_treasury_context : ℕ → Operation
  sign_treasury_transfer : TreasurySignRequest → Operation
  sign_treasury_path_usd : TempoTreasurySignRequest → Operation
  acquire_receipt_probe : Text → Operation
  fetch_transaction_receipt : Text → Operation
  pause : ℕ → Operation
  record_treasury_shortfall : ℕ → ℕ → ℕ → ℕ → ℕ → Operation
  record_tempo_treasury_shortfall : ℕ → ℕ → ℕ → ℕ → ℕ → Operation
  record_partial_top_up : ℕ → ℕ → ℕ → Operation
  record_funding_submitted : ℕ → Text → Bool → Operation
  record_unproven_funding : Text → Bool → Text → Operation
  note_funding_receipt : PreparedFundingIntent → Bool → Operation
  sign_bundle : BundleSignRequest → Operation
  save_prepared_bundle : PreparedBundleIntent → Operation
  check_broadcast_seen : Text → Operation
  broadcast_raw : Bytes → Text → Operation
  remember_broadcast_of : Text → Operation
  forget_broadcast_of : Text → Operation
  probe_transaction_known : Text → Operation
  probe_stale_nonce : PreparedBundleIntent → Operation
  clear_stale_intent : PreparedBundleIntent → Text → Operation
  record_unproven_broadcast : Text → Bool → Text → Operation
  mark_bundle_submitted : PreparedBundleIntent → ℕ → Operation
  fetch_tempo_context : Operation
  sign_tempo_bundle : TempoSignRequest → Operation

pub data BroadcastReply : Type 0 where
  accepted_as : Text → BroadcastReply
  ambiguous : Text → BroadcastReply
  refused : Text → BroadcastReply

-- A transaction's receipt, a JSON value, is the string of its `status`, where it has one.
pub record Receipt : Type 0 where
  pub status : Option Text

pub data Outcome : Type 0 where
  supported : Bool → Outcome
  assets : ResolvedChainAssets → Outcome
  assets_unavailable : Text → Outcome
  records : List (Option StoredUserOperation) → Outcome
  record_of : Option StoredUserOperation → Outcome
  persisted : Bool → Outcome
  marked : Bool → Outcome
  deferred : ℕ → Outcome
  settled : Outcome
  lease_acquired : Bool → Outcome
  lease_held : Bool → Outcome
  intent : Option PreparedBundleIntent → Outcome
  resumed : Bool → Outcome
  operation_verdicts : List OperationSimVerdict → Outcome
  account_nonces : List (Option ℕ) → Outcome
  bundle_verdict : BundleSimVerdict → Outcome
  context : TransactionContext → Outcome
  price : ℕ → Outcome
  funding_intent : Option PreparedFundingIntent → Outcome
  treasury_context : ℕ → ℕ → Option ℕ → Outcome
  tempo_treasury_context : ℕ → ℕ → ℕ → Outcome
  receipt : Option Receipt → Outcome
  signed : SignedBundle → Outcome
  saved : Bool → Outcome
  seen : Bool → Outcome
  sent : BroadcastReply → Outcome
  known : Bool → Outcome
  stale : Bool → Outcome
  indexed : ℕ → Outcome
  tempo_context : ℕ → ℕ → ℕ → Outcome
  failed_with : Text → Outcome
  interrupted : Text → Outcome
