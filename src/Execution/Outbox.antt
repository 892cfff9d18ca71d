-- ===== src/Execution/Outbox.antt =====
-- vela-relay-core/src/execution.rs: the end of the leased pipeline, which signs a bundle, stores it,
-- sends it and marks it submitted.
use vela_relay.Prelude.{
  ℕ, Bool, true, false, Option, none, some, List, map, length, ◌==◌, if◌then◌else◌,
}
use vela_relay.Prelude.Text.{Text, codes}
use vela_relay.Task.Prepared.{PreparedBundleIntent}
use vela_relay.Execution.Operation.{
  BundleSignRequest, TempoSignRequest, SignedBundle, sign_bundle, sign_tempo_bundle,
  save_prepared_bundle, load_prepared_bundle, mark_bundle_submitted,
}
use vela_relay.Execution.Operation
use vela_relay.Execution.Readings.{read_signed, read_saved, read_intent, read_indexed}
use vela_relay.Execution.Sending.{Crates, broadcast_bundle}
use vela_relay.Execution.Candidates.{Candidate}
use vela_relay.Execution.Results.{
  Lane, ◌>>=◌, ◌>>◌, pure, fail, of, query, durable, for_each, record_candidates_deferred,
}
use vela_relay.Execution.Simulation.{ensure_lane_lease, resume_intent}
use vela_relay.Execution.Gate.{Proven}

-- The texts in which the two kinds of bundle differ.
pub record Wording : Type 0 where
  pub raced : Text
  pub awaits : Text
  pub incomplete : Text

abbrev pub native_wording : Wording
native_wording = record {
  raced = codes "prepared bundle raced and disappeared";
  awaits = codes "signed handleOps transaction awaits broadcast confirmation";
  incomplete = codes "not every signed UserOperation entered submitted state";
}

abbrev pub tempo_wording : Wording
tempo_wording = record {
  raced = codes "prepared Tempo bundle raced and disappeared";
  awaits = codes "signed Tempo handleOps transaction awaits broadcast confirmation";
  incomplete = codes "not every signed Tempo UserOperation entered submitted state";
}

-- What is signed, and what it is billed by.
pub data BundleSign : Type 0 where
  native_bundle : BundleSignRequest → BundleSign
  tempo_bundle : TempoSignRequest → BundleSign

abbrev pub sign_operation : BundleSign → Operation.Operation
sign_operation (native_bundle r) = sign_bundle r
sign_operation (tempo_bundle r) = sign_tempo_bundle r

pub record Billed : Type 0 where
  pub billed_gas : Option Text
  pub billed_fee_per_gas : Option Text

unfoldable pub bundle_intent_of : Crates → Proven → Billed → SignedBundle → PreparedBundleIntent
bundle_intent_of crates b billed signed = record {
  chain_id = b.chain_id;
  lane = b.lane;
  entry_point = crates.alloy.address_text b.entry_point;
  raw_transaction = signed.raw_transaction_hex;
  transaction_hash = signed.transaction_hash;
  nonce = signed.nonce;
  user_operation_hashes = map (λ candidate. candidate.hash_string) b.survivors;
  billed_gas = billed.billed_gas;
  billed_fee_per_gas = billed.billed_fee_per_gas;
}

unfoldable pub mark_durable : List Candidate → Lane (Unit {0})
unfolding for_each
mark_durable survivors = for_each (λ candidate. durable candidate.result_index) survivors

unfoldable pub mark_submitted :
    Wording → List Candidate → PreparedBundleIntent → ℕ → Bool → Lane (Unit {0})
unfolding record_candidates_deferred read_indexed mark_durable
mark_submitted wording survivors intent gas_limit false =
    record_candidates_deferred survivors (codes "broadcast") wording.awaits
mark_submitted wording survivors intent gas_limit true = do
  indexed ← query (mark_bundle_submitted intent gas_limit) read_indexed
  if indexed == length intent.user_operation_hashes
      then mark_durable survivors
      else fail wording.incomplete

-- After a save that another one raced: the intent that is stored now is resumed.
unfoldable pub resume_stored : Wording → Option PreparedBundleIntent → Lane (Unit {0})
unfolding resume_intent
resume_stored wording none = fail wording.raced
resume_stored wording (some existing) = do known_outcome ← resume_intent existing; pure tt

unfoldable pub broadcast_saved :
    Crates → Wording → List Candidate → PreparedBundleIntent → ℕ → Bool → Lane (Unit {0})
unfolding resume_stored mark_submitted broadcast_bundle read_intent
broadcast_saved crates wording survivors intent gas_limit true = do
  confirmed ← of (broadcast_bundle crates intent)
  mark_submitted wording survivors intent gas_limit confirmed
broadcast_saved crates wording survivors intent gas_limit false = do
  existing ← query load_prepared_bundle read_intent
  resume_stored wording existing

unfoldable pub save_and_broadcast :
    Crates → Wording → Proven → Billed → ℕ → SignedBundle → Lane (Unit {0})
unfolding ensure_lane_lease bundle_intent_of broadcast_saved read_saved
save_and_broadcast crates wording b billed gas_limit signed = do
  ensure_lane_lease
  let intent = bundle_intent_of crates b billed signed
  was_saved ← query (save_prepared_bundle intent) read_saved
  broadcast_saved crates wording b.survivors intent gas_limit was_saved

unfoldable pub sign_and_broadcast :
    Crates → Wording → Proven → BundleSign → Billed → ℕ → Lane (Unit {0})
unfolding save_and_broadcast read_signed
sign_and_broadcast crates wording b sign billed gas_limit = do
  signed ← query (sign_operation sign) read_signed
  save_and_broadcast crates wording b billed gas_limit signed
