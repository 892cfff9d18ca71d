-- ===== src/Examples/Batches.antt =====
-- A batch of a lane that resumes the bundle that an earlier pass prepared, and the choice of a bundle.
use vela_relay.Prelude.{ℕ, ◌≤◌, true, false, none, some, [], ◌∷◌, ◌≡◌, refl, length}
use vela_relay.Prelude.Text.{codes}
use vela_relay.Task.{UserOperation, v0_7, queued_record, StoredUserOperation}
use vela_relay.Task.Prepared.{RoutedUserOperation, PreparedBundleIntent}
use vela_relay.Examples.TopUps.{crates, policy}
use vela_relay.Execution.Operation.{
  Operation, Outcome, check_chain_supported, load_chain_assets, load_records, acquire_lane_lease,
  load_prepared_bundle, resume_bundle_intent, supported, assets, records, lease_acquired, intent,
  resumed, settled,
}
use vela_relay.Execution.Program.{Shell, run}
use vela_relay.Execution.Discipline.{Respects}
use vela_relay.Execution.Sending.{Crates}
use vela_relay.Execution.Results.{durable_outcome, lane_after, settle_slot, unsettled}
use vela_relay.GasMath.Market.{hex_value, hex_digit}
use vela_relay.Execution.Triage.{item_after, triage_items}
use vela_relay.Execution.Binding.{AllBound, bundled-AllBound}
use vela_relay.Execution.Batch.{StartBatch, drive_batch, bundled, take_candidates}
use vela_relay.Execution.Candidates.{Candidate}
use vela_relay.Execution.Selection.{Distinct, bundled-Distinct}
use vela_relay.Execution.LaneRules.{lane_rules}
use vela_relay.Execution.BatchSafety.{nothing, drive_batch-Respects}

-- Every digest is 2.
abbrev batch_crates : Crates
batch_crates = record crates {
  alloy = record crates.alloy { keccak256 = λ bytes. 2; from_str_radix_16 = λ text. some 1 };
}

abbrev batched_operation : UserOperation
batched_operation = v0_7 (record {
  sender = codes "0xaa";
  nonce = codes "0x1";
  factory = none;
  factory_data = none;
  call_data = codes "0x";
  call_gas_limit = codes "0x5208";
  verification_gas_limit = codes "0x5208";
  pre_verification_gas = codes "0x5208";
  max_fee_per_gas = codes "0x0";
  max_priority_fee_per_gas = codes "0x0";
  paymaster = none;
  paymaster_verification_gas_limit = none;
  paymaster_post_op_gas_limit = none;
  paymaster_data = none;
  signature = codes "0x01";
  eip7702_auth = none;
  fee_token = none;
})

abbrev routed_operation : RoutedUserOperation
routed_operation = record {
  schema_version = 1;
  user_operation_hash = codes "0x02";
  chain_id = 137;
  entry_point = codes "0xee";
  user_operation = codes "{}";
  sender = codes "0xaa";
  lane = 2;
  stream = codes "s";
  partition_id = 0;
  offset = 0;
  submission_tier = none;
}

abbrev batched_record : StoredUserOperation
batched_record =
    queued_record
      (record {
        user_operation_hash = codes "0x02";
        chain_id = 137;
        entry_point = codes "0xee";
        user_operation = batched_operation;
      })
      true

abbrev prepared_bundle : PreparedBundleIntent
prepared_bundle = record {
  chain_id = 137;
  lane = 2;
  entry_point = codes "0xee";
  raw_transaction = codes "0x02aa";
  transaction_hash = codes "0x02";
  nonce = 7;
  user_operation_hashes = codes "0x02" ∷ [];
  billed_gas = none;
  billed_fee_per_gas = none;
}

abbrev start : StartBatch
start = record { operations = routed_operation ∷ []; policy = policy; lease_token = codes "t" }

abbrev reply : Operation → Outcome
reply check_chain_supported = supported true
reply load_chain_assets = assets (record {
  assets = record { native_decimals = 18; settlement_markup_bps = 10_000; stablecoins = [] };
  native_symbol = codes "POL";
})
reply (load_records hashes) = records (some batched_record ∷ [])
reply acquire_lane_lease = lease_acquired true
reply load_prepared_bundle = intent (some prepared_bundle)
reply (resume_bundle_intent i) = resumed true
reply _ = settled

abbrev resuming : Shell
resuming past operation = reply operation

resumed_batch : (run resuming [] (drive_batch batch_crates start)).0 ≡ durable_outcome ∷ []
unfolding drive_batch queued_record item_after hex_value hex_digit lane_after settle_slot
resumed_batch = refl

drive_batch-Respects_example :
    Respects lane_rules nothing (run resuming [] (drive_batch batch_crates start)).1
    × (length (run resuming [] (drive_batch batch_crates start)).0 ≡ 1)
drive_batch-Respects_example = drive_batch-Respects batch_crates start resuming

-- A candidate of the sender with a hash.
abbrev candidate_of : ℕ → ℕ → Candidate
candidate_of sender hash = record {
  result_index = 0;
  hash = hash;
  hash_string = codes "0x02";
  entry_point = 1;
  packed = record {
    packed = record {
      sender = sender;
      nonce = 1;
      init_code = [];
      call_data = [];
      account_gas_limits = [];
      pre_verification_gas = 21_000;
      gas_fees = [];
      paymaster_and_data = [];
      signature = 1 ∷ [];
    };
    sender = sender;
    call_data = [];
    has_eip7702_authorization = false;
    fee_token = none;
  };
  submission_tier = none;
}

bundled_test :
    bundled 2 (candidate_of 7 1 ∷ candidate_of 7 2 ∷ candidate_of 8 1 ∷ candidate_of 9 3 ∷ [])
    ≡ candidate_of 7 1 ∷ candidate_of 9 3 ∷ []
unfolding bundled
bundled_test = refl

bundled-Distinct_example :
    (take_candidates 1 (bundled 2 (candidate_of 7 1 ∷ candidate_of 7 2 ∷ candidate_of 9 3 ∷ []))
      ≡ candidate_of 7 1 ∷ [])
    × Distinct
        (λ d. d.packed.sender)
        (bundled 2 (candidate_of 7 1 ∷ candidate_of 7 2 ∷ candidate_of 9 3 ∷ []))
    × Distinct
        (λ d. d.hash)
        (bundled 2 (candidate_of 7 1 ∷ candidate_of 7 2 ∷ candidate_of 9 3 ∷ []))
    × (length (bundled 2 (candidate_of 7 1 ∷ candidate_of 7 2 ∷ candidate_of 9 3 ∷ [])) ≤ 2)
bundled-Distinct_example =
    bundled-Distinct 1 (candidate_of 7 1) (candidate_of 7 2 ∷ candidate_of 9 3 ∷ [])

-- The message becomes a candidate.
one_candidate :
    length
      (run resuming [] (
        triage_items batch_crates policy 0
          (routed_operation ∷ [])
          (some batched_record ∷ [])
          (unsettled 1, []))).0.1
    ≡ 1
unfolding triage_items queued_record item_after hex_value hex_digit
one_candidate = refl

bundled-AllBound_example : AllBound batch_crates policy.pool_width (routed_operation ∷ []) (
    bundled policy.max_bundle_operations
      (run resuming [] (
        triage_items batch_crates policy 0
          (routed_operation ∷ [])
          (some batched_record ∷ [])
          (unsettled 1, []))).0.1)
bundled-AllBound_example =
    bundled-AllBound batch_crates policy (routed_operation ∷ []) (some batched_record ∷ []) resuming
