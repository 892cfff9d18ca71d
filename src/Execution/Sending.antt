-- ===== src/Execution/Sending.antt =====
-- vela-relay-core/src/execution.rs: the send of a bundle, and of a treasury's transfer.
use vela_relay.Prelude.{Option, Bool, true, false, [], if◌then◌else◌, unwrap_or}
use vela_relay.Prelude.Result.{Result, ok, err}
use vela_relay.Prelude.Hex.{Hex}
use vela_relay.Prelude.Text.{Text, codes, eq_ignore_ascii_case}
use vela_relay.Abi.{Alloy}
use vela_relay.Task.{UserOperation}
use vela_relay.Task.Prepared.{PreparedBundleIntent}
use vela_relay.Broadcast.{
  Bytes, RawTransactionError, raw_error_text, validate_raw_transaction, parse_hex_bytes,
  UnprovenBroadcast, confirmed, check_stale_nonce, retain_outbox, resolve_unproven_broadcast,
}
use vela_relay.Execution.Operation.{
  BroadcastReply, accepted_as, ambiguous, refused, check_broadcast_seen, broadcast_raw,
  remember_broadcast_of, forget_broadcast_of, probe_transaction_known, probe_stale_nonce,
  clear_stale_intent, record_unproven_broadcast,
}
use vela_relay.Execution.Program.{Fallible, ◌>>=◌, ◌>>◌, pure, fail, lift, request, tell}
use vela_relay.Execution.Readings.{read_seen, read_known, read_stale, read_sent, read_unless_failed}

-- The crates that the program calls. `to_value` and `from_value` are serde_json's of the operation;
-- a JSON value is its text.
pub record Crates : Type 0 where
  pub alloy : Alloy
  pub hex : Hex
  pub to_value : UserOperation → Text
  pub from_value : Text → Option UserOperation

as_text : Result RawTransactionError Bytes → Result Text Bytes
unfolding raw_error_text
as_text (err e) = err (raw_error_text e)
as_text (ok raw) = ok raw

unfoldable pub validated : Crates → Text → Text → Result Text Bytes
unfolding as_text validate_raw_transaction
validated crates raw hash = as_text (validate_raw_transaction crates.alloy crates.hex raw hash)

abbrev no_bytes : Bytes
no_bytes = []

unfoldable pub raw_bytes : Crates → Text → Bytes
unfolding parse_hex_bytes
raw_bytes crates raw = unwrap_or (parse_hex_bytes crates.hex raw) no_bytes

unfoldable pub remember_broadcast : Text → Fallible (Unit {0})
remember_broadcast hash = tell (remember_broadcast_of hash)

unfoldable pub forget_broadcast : Text → Fallible (Unit {0})
forget_broadcast hash = tell (forget_broadcast_of hash)

unfoldable pub note_unproven : PreparedBundleIntent → Bool → Text → Fallible Bool
note_unproven intent is_ambiguous reason = do
  tell (record_unproven_broadcast intent.transaction_hash is_ambiguous reason)
  pure false

unfoldable pub judge_stale : PreparedBundleIntent → Bool → Text → Bool → Fallible Bool
unfolding note_unproven read_unless_failed
judge_stale intent is_ambiguous reason true = do
  request (clear_stale_intent intent reason) read_unless_failed
  pure false
judge_stale intent is_ambiguous reason false = note_unproven intent is_ambiguous reason

unfoldable pub resolve_bundle :
    PreparedBundleIntent → Bool → Text → UnprovenBroadcast → Fallible Bool
unfolding judge_stale note_unproven remember_broadcast read_stale
resolve_bundle intent is_ambiguous reason confirmed = do
  remember_broadcast intent.transaction_hash
  pure true
resolve_bundle intent is_ambiguous reason check_stale_nonce = do
  is_stale ← request (probe_stale_nonce intent) read_stale
  judge_stale intent is_ambiguous reason is_stale
resolve_bundle intent is_ambiguous reason retain_outbox = note_unproven intent is_ambiguous reason

unfoldable pub probe_bundle : PreparedBundleIntent → Bool → Text → Fallible Bool
unfolding resolve_bundle forget_broadcast read_known resolve_unproven_broadcast
probe_bundle intent is_ambiguous reason = do
  forget_broadcast intent.transaction_hash
  is_known ← request (probe_transaction_known intent.transaction_hash) read_known
  resolve_bundle intent is_ambiguous reason (resolve_unproven_broadcast reason is_known)

unfoldable pub judge_bundle : PreparedBundleIntent → Result Text BroadcastReply → Fallible Bool
unfolding probe_bundle forget_broadcast remember_broadcast
judge_bundle intent (err message) = do forget_broadcast intent.transaction_hash; fail message
judge_bundle intent (ok (accepted_as hash)) =
    if eq_ignore_ascii_case hash intent.transaction_hash
    then (do remember_broadcast intent.transaction_hash; pure true)
    else (do
      forget_broadcast intent.transaction_hash
      fail (codes "RPC returned a transaction hash different from the signed bytes"))
judge_bundle intent (ok (ambiguous reason)) = probe_bundle intent true reason
judge_bundle intent (ok (refused reason)) = probe_bundle intent false reason

unfoldable pub send_bundle : Crates → PreparedBundleIntent → Bool → Fallible Bool
unfolding judge_bundle raw_bytes read_sent
send_bundle crates intent true = pure true
send_bundle crates intent false = do
  reply ←
      request (broadcast_raw (raw_bytes crates intent.raw_transaction) intent.transaction_hash)
        read_sent
  judge_bundle intent reply

unfoldable pub broadcast_bundle : Crates → PreparedBundleIntent → Fallible Bool
unfolding send_bundle validated read_seen
broadcast_bundle crates intent = do
  raw ← lift (validated crates intent.raw_transaction intent.transaction_hash)
  was_seen ← request (check_broadcast_seen intent.transaction_hash) read_seen
  send_bundle crates intent was_seen
