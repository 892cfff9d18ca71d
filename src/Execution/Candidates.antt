-- ===== src/Execution/Candidates.antt =====
-- vela-relay-core/src/execution.rs: the operations of a batch that may be executed, and what is said
-- of one that may not.
use vela_relay.Prelude.{
  ℕ, Bool, true, false, not, ◌&&◌, Option, none, some, List, [], ◌∷◌, ◌++◌, map, any, ◌==◌, is_some,
  unwrap_or, if◌then◌else◌,
}
use vela_relay.Prelude.Result.{Result, ok, err, ok_or, ◌>>=◌, ◌>>◌}
use vela_relay.Prelude.Text.{
  Text, codes, text_eq, digits_of, to_ascii_lowercase, eq_ignore_ascii_case,
}
use vela_relay.Abi.{Alloy, PackedOperation, pack, user_operation_hash}
use vela_relay.Vault.{relayer_index_for_sender}
use vela_relay.Rejection.{
  RejectionReason, invalid_operation, simulation_failed, nonce_used, unsupported_fee_token,
}
use vela_relay.Task.{QueuedUserOperation, StoredUserOperation}
use vela_relay.Task.Prepared.{RoutedUserOperation}
use vela_relay.Settlement.Calldata.{Address}
use vela_relay.GasMath.{SubmissionTier, slow, standard, fast}
use vela_relay.Execution.Operation.{
  RejectionCause, invalid_queued_payload, simulation_rejected, stale_nonce,
  unsupported_tempo_fee_token,
}
use vela_relay.Execution.Sending.{Crates}

unfoldable pub code : RejectionCause → RejectionReason
code (invalid_queued_payload reason) = invalid_operation
code (simulation_rejected reason) = simulation_failed
code (stale_nonce user_nonce onchain_nonce) = nonce_used
code (unsupported_tempo_fee_token token) = unsupported_fee_token

token_text : Alloy → Option Address → Text
token_text alloy none = codes "none"
token_text alloy (some token) = alloy.address_text token

unfoldable pub diagnostic : Alloy → RejectionCause → Text × Text
unfolding token_text
diagnostic alloy (invalid_queued_payload reason) = (codes "queue", reason)
diagnostic alloy (simulation_rejected reason) =
    (codes "simulation", codes "the operation fails when simulated: " ++ reason)
diagnostic alloy (stale_nonce user_nonce onchain_nonce) = (
  codes "nonce",
  codes "the account nonce "
      ++ digits_of user_nonce
      ++ codes " is already used on-chain (now "
      ++ digits_of onchain_nonce
      ++ codes ")",
)
diagnostic alloy (unsupported_tempo_fee_token token) = (
  codes "tempo_fee_token",
  codes "Tempo fees are paid in pathUSD; the operation named " ++ token_text alloy token,
)

unfoldable pub should_notify_executor_deferred : Text → Bool
should_notify_executor_deferred stage = any (text_eq stage) (
    codes "rpc"
    ∷ codes "assets"
    ∷ codes "simulation"
    ∷ codes "bundle_simulation"
    ∷ codes "broadcast"
    ∷ codes "execution"
    ∷ [])

-- `parse_address` and `parse_hash`.
unfoldable pub parsed : Option ℕ → Text → Result Text ℕ
parsed value error = ok_or value error

-- `if !condition { return Err(reason) }`
unfoldable pub require : Bool → Text → Result Text (Unit {0})
require true reason = ok tt
require false reason = err reason

-- What `queued_operation_from_routed` and `candidate_from_record` both ask of a packed operation.
unfoldable pub matches_route :
    Crates → RoutedUserOperation → PackedOperation → Result Text (Unit {0})
unfolding require
matches_route crates routed packed = do
  require (not packed.has_eip7702_authorization)
      (codes "EIP-7702 UserOperations are not enabled in the executor")
  require (eq_ignore_ascii_case (crates.alloy.address_text packed.sender) routed.sender)
      (codes "queue sender does not match UserOperation sender")

unfoldable pub on_lane : RoutedUserOperation → ℕ → Result Text (Unit {0})
unfolding require relayer_index_for_sender
on_lane routed pool_width =
    require (relayer_index_for_sender routed.sender pool_width == routed.lane)
      (codes "sender route does not match relayer lane")

unfoldable pub has_its_hash :
    Crates → RoutedUserOperation → PackedOperation → Address → ℕ → Result Text (Unit {0})
unfolding require user_operation_hash
has_its_hash crates routed packed entry_point hash =
    require (user_operation_hash crates.alloy packed entry_point routed.chain_id == hash)
      (codes "queue UserOperation hash does not match immutable payload")

pub packed_as : Result Text PackedOperation → Text → Result Text PackedOperation
packed_as (ok packed) reason = ok packed
packed_as (err e) reason = err reason

unfoldable pub queued_operation_from_routed :
    Crates → RoutedUserOperation → ℕ → Result Text QueuedUserOperation
unfolding parsed require matches_route on_lane has_its_hash packed_as pack
queued_operation_from_routed crates routed pool_width = do
  operation ←
      ok_or (crates.from_value routed.user_operation)
        (codes "queue UserOperation payload is not canonical v0.7 JSON")
  require (text_eq (crates.to_value operation) routed.user_operation)
      (codes "queue UserOperation payload is not canonical JSON")
  entry_point ←
      parsed (crates.alloy.parse_address routed.entry_point)
        (codes "queue EntryPoint address is invalid")
  hash ←
      parsed (crates.alloy.parse_b256 routed.user_operation_hash)
        (codes "queue UserOperation hash is invalid")
  packed ←
      packed_as (pack crates.alloy crates.hex operation)
        (codes "could not pack queue UserOperation")
  matches_route crates routed packed
  on_lane routed pool_width
  has_its_hash crates routed packed entry_point hash
  ok (record {
    user_operation_hash = map to_ascii_lowercase routed.user_operation_hash;
    chain_id = routed.chain_id;
    entry_point = routed.entry_point;
    user_operation = operation;
  })

pub record Candidate : Type 0 where
  pub result_index : ℕ
  pub hash : ℕ
  pub hash_string : Text
  pub entry_point : Address
  pub packed : PackedOperation
  pub submission_tier : Option SubmissionTier

unfoldable pub candidate_from_record :
    Crates → ℕ → RoutedUserOperation → StoredUserOperation → ℕ → Result Text Candidate
unfolding parsed matches_route on_lane has_its_hash packed_as pack
candidate_from_record crates result_index routed stored pool_width = do
  hash ←
      parsed (crates.alloy.parse_b256 routed.user_operation_hash)
        (codes "queue UserOperation hash is invalid")
  entry_point ←
      parsed (crates.alloy.parse_address routed.entry_point)
        (codes "queue EntryPoint address is invalid")
  on_lane routed pool_width
  packed ←
      packed_as (pack crates.alloy crates.hex stored.user_operation)
        (codes "could not pack queued UserOperation")
  matches_route crates routed packed
  has_its_hash crates routed packed entry_point hash
  ok (record {
    result_index = result_index;
    hash = hash;
    hash_string = map to_ascii_lowercase routed.user_operation_hash;
    entry_point = entry_point;
    packed = packed;
    submission_tier = routed.submission_tier;
  })

-- The order of the tiers, and its maximum.
abbrev pub faster : SubmissionTier → SubmissionTier → SubmissionTier
faster slow t = t
faster standard slow = standard
faster standard t = t
faster fast t = fast

unfoldable pub fastest : List Candidate → SubmissionTier
fastest [] = slow
fastest (candidate ∷ candidates) =
    faster (unwrap_or candidate.submission_tier standard) (fastest candidates)

unfoldable pub bundle_submission_tier : List Candidate → Option SubmissionTier
unfolding fastest
bundle_submission_tier candidates =
    if any (λ candidate. is_some candidate.submission_tier) candidates
    then some (fastest candidates)
    else none

unfoldable pub queue_record_matches : Crates → RoutedUserOperation → StoredUserOperation → Bool
queue_record_matches crates routed stored =
    stored.chain_id == routed.chain_id
    && eq_ignore_ascii_case stored.entry_point routed.entry_point
    && text_eq (crates.to_value stored.user_operation) routed.user_operation

pub data AdmissionAction : Type 0 where
  execute recover dead_letter : AdmissionAction

unfoldable pub admission_action : Bool → Bool → AdmissionAction
admission_action admitted false = dead_letter
admission_action false true = recover
admission_action true true = execute
