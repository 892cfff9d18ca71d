-- ===== src/Execution/TopUp.antt =====
-- vela-relay-core/src/execution.rs: the treasury's transfer to a relayer: its send, the wait for
-- it, and its end.
use vela_relay.Prelude.{
  ℕ, zero, suc, Bool, true, false, Option, none, some, ◌++◌, if◌then◌else◌, ◌==◌, ltb,
}
use vela_relay.Prelude
use vela_relay.Prelude.Result.{Result, ok, err, ok_or}
use vela_relay.Prelude.Text.{Text, codes, eq_ignore_ascii_case}
use vela_relay.Task.Prepared.{PreparedFundingIntent}
use vela_relay.Broadcast.{is_definitive_broadcast_rejection}
use vela_relay.GasMath.Market.{strip_0x}
use vela_relay.Pace.{top_up_receipt_wait}
use vela_relay.Execution.Operation.{
  BroadcastReply, accepted_as, ambiguous, refused, check_broadcast_seen, broadcast_raw,
  probe_transaction_known, record_unproven_funding, clear_funding_intent, acquire_receipt_probe,
  fetch_transaction_receipt, pause, note_funding_receipt, Receipt,
}
use vela_relay.Execution.Program.{Fallible, ◌>>=◌, ◌>>◌, pure, fail, lift, request, ignore}
use vela_relay.Execution.Readings.{
  read_seen, read_known, read_sent, read_unless_failed, read_probe, read_receipt, read_polled,
}
use vela_relay.Execution.Sending.{
  Crates, validated, raw_bytes, remember_broadcast, forget_broadcast,
}

abbrev pub top_up_signed_again : Text
top_up_signed_again = codes "it will be signed again"

unfoldable pub discard_funding : PreparedFundingIntent → Text → Fallible (Unit {0})
unfolding read_unless_failed
discard_funding intent why = do
  request (clear_funding_intent intent.transaction_hash) read_unless_failed
  fail why

unfoldable pub discard_refused_funding : PreparedFundingIntent → Text → Fallible (Unit {0})
unfolding discard_funding
discard_refused_funding intent reason = discard_funding intent (
    codes "the chain refused the treasury relayer top-up "
    ++ intent.transaction_hash
    ++ codes "; "
    ++ top_up_signed_again
    ++ codes ": "
    ++ reason)

unfoldable pub await_or_discard : PreparedFundingIntent → Bool → Fallible (Unit {0})
unfolding discard_funding
await_or_discard intent true = pure tt
await_or_discard intent false = discard_funding intent (
    codes "no node has the treasury relayer top-up "
    ++ intent.transaction_hash
    ++ codes "; "
    ++ top_up_signed_again)

unfoldable pub await_or_discard_unseen_funding : PreparedFundingIntent → Fallible (Unit {0})
unfolding await_or_discard read_known
await_or_discard_unseen_funding intent = do
  is_known ← request (probe_transaction_known intent.transaction_hash) read_known
  await_or_discard intent is_known

-- A transfer that was not accepted, by whether a node has it.
unfoldable pub judge_refused : PreparedFundingIntent → Text → Bool → Fallible (Unit {0})
unfolding remember_broadcast discard_refused_funding
judge_refused intent reason true = remember_broadcast intent.transaction_hash
judge_refused intent reason false =
    if is_definitive_broadcast_rejection reason
    then discard_refused_funding intent reason
    else request (record_unproven_funding intent.transaction_hash false reason) ignore

unfoldable pub judge_funding :
    PreparedFundingIntent → Result Text BroadcastReply → Fallible (Unit {0})
unfolding judge_refused forget_broadcast remember_broadcast read_known
judge_funding intent (err message) = do forget_broadcast intent.transaction_hash; fail message
judge_funding intent (ok (accepted_as hash)) =
    if eq_ignore_ascii_case hash intent.transaction_hash
    then remember_broadcast intent.transaction_hash
    else (do
      forget_broadcast intent.transaction_hash
      fail (codes "RPC returned a different funding transaction hash"))
judge_funding intent (ok (ambiguous reason)) = do
  forget_broadcast intent.transaction_hash
  request (record_unproven_funding intent.transaction_hash true reason) ignore
judge_funding intent (ok (refused reason)) = do
  forget_broadcast intent.transaction_hash
  is_known ← request (probe_transaction_known intent.transaction_hash) read_known
  judge_refused intent reason is_known

unfoldable pub send_funding : Crates → PreparedFundingIntent → Bool → Fallible (Unit {0})
unfolding judge_funding raw_bytes read_sent
send_funding crates intent true = pure tt
send_funding crates intent false = do
  reply ←
      request (broadcast_raw (raw_bytes crates intent.raw_transaction) intent.transaction_hash)
        read_sent
  judge_funding intent reply

unfoldable pub broadcast_funding : Crates → PreparedFundingIntent → Fallible (Unit {0})
unfolding send_funding validated read_seen
broadcast_funding crates intent = do
  raw ← lift (validated crates intent.raw_transaction intent.transaction_hash)
  was_seen ← request (check_broadcast_seen intent.transaction_hash) read_seen
  send_funding crates intent was_seen

-- receipt.rs, `parse_u256`
unfoldable pub parse_u256 : Crates → Text → Option ℕ
unfolding strip_0x
parse_u256 crates value = Prelude.◌>>=◌ (strip_0x value) crates.alloy.from_str_radix_16

unfoldable pub receipt_succeeded : Crates → Receipt → Option Bool
unfolding parse_u256
receipt_succeeded crates receipt = Prelude.◌>>=◌ receipt.status (λ text.
    Prelude.◌>>=◌ (parse_u256 crates text)
      (λ status. if ltb 1 status then none else some (status == 1)))

unfoldable pub note_settled : PreparedFundingIntent → Bool → Fallible (Unit {0})
note_settled intent true = pure tt
note_settled intent false =
    fail (codes "treasury relayer top-up transaction reverted: " ++ intent.transaction_hash)

unfoldable pub settle_funding_receipt :
    Crates → PreparedFundingIntent → Receipt → Fallible (Unit {0})
unfolding receipt_succeeded read_unless_failed forget_broadcast note_settled
settle_funding_receipt crates intent receipt = do
  success ← lift (
      ok_or (receipt_succeeded crates receipt)
        (codes "funding transaction receipt has invalid status"))
  request (clear_funding_intent intent.transaction_hash) read_unless_failed
  forget_broadcast intent.transaction_hash
  request (note_funding_receipt intent success) ignore
  note_settled intent success

unfoldable pub resume_by_receipt :
    Crates → PreparedFundingIntent → Option Receipt → Fallible (Unit {0})
unfolding settle_funding_receipt await_or_discard_unseen_funding
resume_by_receipt crates intent none = await_or_discard_unseen_funding intent
resume_by_receipt crates intent (some receipt) = settle_funding_receipt crates intent receipt

unfoldable pub resume_probed : Crates → PreparedFundingIntent → Bool → Fallible (Unit {0})
unfolding resume_by_receipt read_receipt
resume_probed crates intent false = pure tt
resume_probed crates intent true = do
  receipt ← request (fetch_transaction_receipt intent.transaction_hash) read_receipt
  resume_by_receipt crates intent receipt

unfoldable pub resume_funding : Crates → PreparedFundingIntent → Fallible (Unit {0})
unfolding broadcast_funding resume_probed read_probe
resume_funding crates intent = do
  broadcast_funding crates intent
  probing ← request (acquire_receipt_probe intent.transaction_hash) read_probe
  resume_probed crates intent probing

-- The loop of `await_fresh_top_up`: one round for each poll, after its pause.
unfoldable pub poll_top_up : Crates → PreparedFundingIntent → ℕ → ℕ → Fallible Bool
unfolding settle_funding_receipt read_polled
poll_top_up crates intent pause_ms zero = pure false
poll_top_up crates intent pause_ms (suc polls) = do
  request (pause pause_ms) ignore
  polled ← request (fetch_transaction_receipt intent.transaction_hash) read_polled
  elim polled [
    | some receipt ↦ settle_funding_receipt crates intent receipt >> pure true
    | none ↦ poll_top_up crates intent pause_ms polls
  ]

unfoldable pub await_fresh_top_up : Crates → ℕ → PreparedFundingIntent → Fallible Bool
unfolding poll_top_up
await_fresh_top_up crates chain_id intent =
    let wait = top_up_receipt_wait chain_id in poll_top_up crates intent wait.pause_ms wait.polls
