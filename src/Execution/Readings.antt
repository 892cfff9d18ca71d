-- ===== src/Execution/Readings.antt =====
-- vela-relay-core/src/execution.rs: how the program reads the outcomes of what it asks.
use vela_relay.Prelude.{ℕ, Bool, true, false, Option, none, some, List}
use vela_relay.Prelude.Result.{Result, ok, err}
use vela_relay.Prelude.Text.{Text, codes}
use vela_relay.Task.Prepared.{PreparedBundleIntent, PreparedFundingIntent}
use vela_relay.Execution.Operation.{
  Outcome, lease_acquired, lease_held, intent, resumed, funding_intent, treasury_context,
  tempo_treasury_context, receipt, signed, saved, seen, sent, known, stale, indexed, failed_with,
  BroadcastReply, SignedBundle, Receipt, TransactionContext, context, tempo_context, price,
  deferred, account_nonces, operation_verdicts, OperationSimVerdict, bundle_verdict,
  BundleSimVerdict,
}
use vela_relay.Execution.Program.{unexpected}

unfoldable pub read_seen : Outcome → Result Text Bool
read_seen (seen b) = ok b
read_seen _ = unexpected

unfoldable pub read_known : Outcome → Result Text Bool
read_known (known b) = ok b
read_known _ = unexpected

unfoldable pub read_stale : Outcome → Result Text Bool
read_stale (stale b) = ok b
read_stale _ = unexpected

-- A send that failed is not an unexpected answer: the caller forgets the broadcast first.
unfoldable pub read_sent : Outcome → Result Text (Result Text BroadcastReply)
read_sent (sent reply) = ok (ok reply)
read_sent (failed_with message) = ok (err message)
read_sent _ = unexpected

-- `if let Failed { message } = ... { return Err(message) }`
unfoldable pub read_unless_failed : Outcome → Result Text (Unit {0})
read_unless_failed (failed_with message) = err message
read_unless_failed _ = ok tt

abbrev lease_lost : Result Text (Unit {0})
lease_lost = err (codes "executor lease was lost")

unfoldable pub read_held : Outcome → Result Text (Unit {0})
read_held (lease_held true) = ok tt
read_held (lease_held false) = lease_lost
read_held (failed_with message) = err message
read_held _ = unexpected

-- Any other answer than an owned lease is that another owns it, but for a failure.
unfoldable pub read_lease : Outcome → Result Text Bool
read_lease (lease_acquired true) = ok true
read_lease (failed_with message) = err message
read_lease _ = ok false

unfoldable pub read_probe : Outcome → Result Text Bool
read_probe (lease_acquired b) = ok b
read_probe (failed_with message) = err message
read_probe _ = unexpected

unfoldable pub read_receipt : Outcome → Result Text (Option Receipt)
read_receipt (receipt r) = ok r
read_receipt (failed_with message) = err message
read_receipt _ = unexpected

-- In the wait for a fresh top-up a read that failed is a receipt that is not there yet.
unfoldable pub read_polled : Outcome → Result Text (Option Receipt)
read_polled (receipt r) = ok r
read_polled (failed_with message) = ok none
read_polled _ = unexpected

unfoldable pub read_funding : Outcome → Result Text (Option PreparedFundingIntent)
read_funding (funding_intent i) = ok i
read_funding (failed_with message) = err message
read_funding _ = unexpected

unfoldable pub read_intent : Outcome → Result Text (Option PreparedBundleIntent)
read_intent (intent i) = ok i
read_intent (failed_with message) = err message
read_intent _ = unexpected

unfoldable pub read_resumed : Outcome → Result Text Bool
read_resumed (resumed b) = ok b
read_resumed (failed_with message) = err message
read_resumed _ = unexpected

unfoldable pub read_treasury : Outcome → Result Text (ℕ × ℕ × Option ℕ)
read_treasury (treasury_context nonce balance estimate) = ok (nonce, balance, estimate)
read_treasury (failed_with message) = err message
read_treasury _ = unexpected

unfoldable pub read_tempo_treasury : Outcome → Result Text (ℕ × ℕ × ℕ)
read_tempo_treasury (tempo_treasury_context nonce balance estimate) = ok (nonce, balance, estimate)
read_tempo_treasury (failed_with message) = err message
read_tempo_treasury _ = unexpected

unfoldable pub read_signed : Outcome → Result Text SignedBundle
read_signed (signed s) = ok s
read_signed (failed_with message) = err message
read_signed _ = unexpected

unfoldable pub read_saved : Outcome → Result Text Bool
read_saved (saved b) = ok b
read_saved (failed_with message) = err message
read_saved _ = unexpected

unfoldable pub read_indexed : Outcome → Result Text ℕ
read_indexed (indexed n) = ok n
read_indexed (failed_with message) = err message
read_indexed _ = unexpected

unfoldable pub read_context : Outcome → Result Text TransactionContext
read_context (context c) = ok c
read_context (failed_with message) = err message
read_context _ = unexpected

unfoldable pub read_tempo_context : Outcome → Result Text (ℕ × ℕ × ℕ)
read_tempo_context (tempo_context base_fee_atto nonce balance) = ok (base_fee_atto, nonce, balance)
read_tempo_context (failed_with message) = err message
read_tempo_context _ = unexpected

-- The market price: what cannot be read is kept, as the reason for it.
unfoldable pub read_price : Outcome → Result Text (Result Text ℕ)
read_price (price p) = ok (ok p)
read_price (failed_with message) = ok (err message)
read_price _ = ok unexpected

unfoldable pub read_verdicts : Outcome → Result Text (List OperationSimVerdict)
read_verdicts (operation_verdicts vs) = ok vs
read_verdicts (failed_with message) = err message
read_verdicts _ = unexpected

unfoldable pub read_bundle_verdict : Outcome → Result Text BundleSimVerdict
read_bundle_verdict (bundle_verdict v) = ok v
read_bundle_verdict (failed_with message) = err message
read_bundle_verdict _ = unexpected

-- The attempt of an operation that was put off, where it was.
unfoldable pub read_deferred : Outcome → Result Text (Option ℕ)
read_deferred (deferred attempt) = ok (some attempt)
read_deferred _ = ok none

-- Whether the store took what was asked of it.
unfoldable pub read_stored : Outcome → Result Text Bool
read_stored (failed_with message) = ok false
read_stored _ = ok true

unfoldable pub read_nonces : Outcome → Result Text (Option (List (Option ℕ)))
read_nonces (account_nonces nonces) = ok (some nonces)
read_nonces _ = ok none
