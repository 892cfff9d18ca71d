-- ===== src/Execution/TopUpSafety.antt =====
-- vela-relay-core/src/execution.rs: the send, the wait and the end of a top-up keep the rules.
use vela_relay.Prelude.{ℕ, zero, suc, ◌≡◌, ◌∙◌, Bool, true, false, Option, none, some}
use vela_relay.Prelude.Result.{Result, ok, err}
use vela_relay.Prelude.Text.{Text, eq_ignore_ascii_case}
use vela_relay.Task.Prepared.{PreparedFundingIntent}
use vela_relay.Broadcast.{is_definitive_broadcast_rejection}
use vela_relay.Execution.Operation.{BroadcastReply, accepted_as, ambiguous, refused, Receipt}
use vela_relay.Execution.Program.{answered, ignore}
use vela_relay.Execution.Discipline.{
  Obeys, Obeys-after, Obeys->>=, Obeys-if, Obeys-weaken, Obeys-option,
}
use vela_relay.Execution.Sending.{Crates, remember_broadcast, forget_broadcast}
use vela_relay.Execution.TopUp.{
  discard_funding, discard_refused_funding, await_or_discard, await_or_discard_unseen_funding,
  judge_refused, judge_funding, send_funding, broadcast_funding, note_settled,
  settle_funding_receipt, resume_by_receipt, resume_probed, resume_funding, poll_top_up,
  await_fresh_top_up,
}
use vela_relay.Execution.FundingRules.{
  Funds, treasury_rules, Holding, Holds, Owned, Settled, Funded, Holding-Holds, Holds-Owned,
  Settled-Owned, has_cleared-owned, has_cleared-cleared,
}

discard_funding-Obeys :
    (m : Funds) (intent : PreparedFundingIntent) (why : Text)
    → Holding intent m
    → Obeys treasury_rules (Holds intent) m (discard_funding intent why)
unfolding discard_funding
discard_funding-Obeys m intent why h = (
  h,
  λ o.
      let own = has_cleared-owned m o ∙ h.0 in
      Obeys-after treasury_rules (Holds intent) _ _ _ (λ reason e. own) (λ a e. own),
)

await_or_discard-Obeys :
    (m : Funds) (intent : PreparedFundingIntent) (is_known : Bool)
    → Holding intent m
    → Obeys treasury_rules (Holds intent) m (await_or_discard intent is_known)
unfolding await_or_discard
await_or_discard-Obeys m intent true h = h
await_or_discard-Obeys m intent false h = discard_funding-Obeys m intent _ h

await_or_discard_unseen_funding-Obeys :
    (m : Funds) (intent : PreparedFundingIntent)
    → Holding intent m
    → Obeys treasury_rules (Holds intent) m (await_or_discard_unseen_funding intent)
unfolding await_or_discard_unseen_funding
await_or_discard_unseen_funding-Obeys m intent h = (
  tt,
  λ o.
      Obeys-after treasury_rules (Holds intent) _ _ _ (λ reason e. h.0)
        (λ is_known e. await_or_discard-Obeys _ intent is_known h),
)

judge_refused-Obeys :
    (m : Funds) (intent : PreparedFundingIntent) (reason : Text) (is_known : Bool)
    → Holding intent m
    → Obeys treasury_rules (Holds intent) m (judge_refused intent reason is_known)
unfolding judge_refused remember_broadcast discard_refused_funding
judge_refused-Obeys m intent reason true h = (tt, λ o. h)
judge_refused-Obeys m intent reason false h =
    Obeys-if treasury_rules (Holds intent) m (is_definitive_broadcast_rejection reason) _ _
      (discard_funding-Obeys m intent _ h)
      (tt, λ o. Holding-Holds intent (record m { held = false }) (answered ignore o) h)

judge_funding-Obeys :
    (m : Funds) (intent : PreparedFundingIntent) (reply : Result Text BroadcastReply)
    → Holding intent m
    → Obeys treasury_rules (Holds intent) m (judge_funding intent reply)
unfolding judge_funding remember_broadcast forget_broadcast
judge_funding-Obeys m intent (err message) h =
    (tt, λ o. Obeys-after treasury_rules (Holds intent) _ _ _ (λ r e. h.0) (λ u e. h.0))
judge_funding-Obeys m intent (ok (accepted_as hash)) h =
    Obeys-if treasury_rules (Holds intent) m (eq_ignore_ascii_case hash intent.transaction_hash) _ _
      (tt, λ o. h)
      (tt, λ o. Obeys-after treasury_rules (Holds intent) _ _ _ (λ r e. h.0) (λ u e. h.0))
judge_funding-Obeys m intent (ok (ambiguous reason)) h = (
  tt,
  λ o.
      Obeys-after treasury_rules (Holds intent) _ _ _ (λ r e. h.0)
        (λ u e. (tt, λ o. Holding-Holds intent (record m { held = false }) (answered ignore o) h)),
)
judge_funding-Obeys m intent (ok (refused reason)) h = (
  tt,
  λ o.
      Obeys-after treasury_rules (Holds intent) _ _ _ (λ r e. h.0)
        (λ u e. (
          tt,
          λ o.
              Obeys-after treasury_rules (Holds intent) _ _ _ (λ r e. h.0)
                (λ is_known e. judge_refused-Obeys _ intent reason is_known h),
        )),
)

send_funding-Obeys :
    (crates : Crates) (m : Funds) (intent : PreparedFundingIntent) (was_seen : Bool)
    → Holding intent m
    → Obeys treasury_rules (Holds intent) m (send_funding crates intent was_seen)
unfolding send_funding
send_funding-Obeys crates m intent true h = h
send_funding-Obeys crates m intent false h = (
  h,
  λ o.
      Obeys-after treasury_rules (Holds intent) _ _ _ (λ r e. h.0)
        (λ reply e. judge_funding-Obeys _ intent reply h),
)

pub broadcast_funding-Obeys :
    (crates : Crates) (m : Funds) (intent : PreparedFundingIntent)
    → Holding intent m
    → Obeys treasury_rules (Holds intent) m (broadcast_funding crates intent)
unfolding broadcast_funding
broadcast_funding-Obeys crates m intent h =
    Obeys-after treasury_rules (Holds intent) _ _ _ (λ r e. h.0)
      (λ raw e. (
        tt,
        λ o.
            Obeys-after treasury_rules (Holds intent) _ _ _ (λ r e. h.0)
              (λ was_seen e. send_funding-Obeys crates _ intent was_seen h),
      ))

note_settled-Obeys :
    (m : Funds) (intent : PreparedFundingIntent) (success : Bool)
    → m.owned ≡ true
    → m.cleared ≡ true
    → Obeys treasury_rules Settled m (note_settled intent success)
unfolding note_settled
note_settled-Obeys m intent true own cleared = (own, cleared)
note_settled-Obeys m intent false own cleared = own

-- A receipt that is settled clears its transfer.
settle_funding_receipt-Obeys :
    (crates : Crates) (m : Funds) (intent : PreparedFundingIntent) (receipt : Receipt)
    → Holding intent m
    → Obeys treasury_rules Settled m (settle_funding_receipt crates intent receipt)
unfolding settle_funding_receipt forget_broadcast
settle_funding_receipt-Obeys crates m intent receipt h =
    Obeys-after treasury_rules Settled _ _ _ (λ r e. h.0)
      (λ success e. (
        h,
        λ o.
            let own = has_cleared-owned m o ∙ h.0 in
            Obeys-after treasury_rules Settled _ _ _ (λ r e. own)
              (λ u cleared. (
                tt,
                λ o'.
                    Obeys-after treasury_rules Settled _ _ _ (λ r e. own)
                      (λ u e. (
                        tt,
                        λ o'.
                            Obeys-after treasury_rules Settled _ _ _ (λ r e. own)
                              (λ u e.
                                note_settled-Obeys _ intent success own
                                  (has_cleared-cleared m o cleared)),
                      )),
              )),
      ))

resume_by_receipt-Obeys :
    (crates : Crates) (m : Funds) (intent : PreparedFundingIntent) (receipt : Option Receipt)
    → Holding intent m
    → Obeys treasury_rules Owned m (resume_by_receipt crates intent receipt)
unfolding resume_by_receipt
resume_by_receipt-Obeys crates m intent none h =
    Obeys-weaken treasury_rules (Holds intent) Owned (Holds-Owned intent) m
      (await_or_discard_unseen_funding intent) (await_or_discard_unseen_funding-Obeys m intent h)
resume_by_receipt-Obeys crates m intent (some receipt) h =
    Obeys-weaken treasury_rules Settled Owned Settled-Owned m
      (settle_funding_receipt crates intent receipt)
      (settle_funding_receipt-Obeys crates m intent receipt h)

resume_probed-Obeys :
    (crates : Crates) (m : Funds) (intent : PreparedFundingIntent) (probing : Bool)
    → Holding intent m
    → Obeys treasury_rules Owned m (resume_probed crates intent probing)
unfolding resume_probed
resume_probed-Obeys crates m intent false h = h.0
resume_probed-Obeys crates m intent true h = (
  tt,
  λ o.
      Obeys-after treasury_rules Owned _ _ _ (λ r e. h.0)
        (λ receipt e. resume_by_receipt-Obeys crates _ intent receipt h),
)

pub resume_funding-Obeys :
    (crates : Crates) (m : Funds) (intent : PreparedFundingIntent)
    → Holding intent m
    → Obeys treasury_rules Owned m (resume_funding crates intent)
unfolding resume_funding
resume_funding-Obeys crates m intent h =
    Obeys->>= treasury_rules Owned (Holds intent) m (broadcast_funding crates intent) _
      (broadcast_funding-Obeys crates m intent h) (λ m r h. h)
      (λ m u h. (
        tt,
        λ o.
            Obeys-after treasury_rules Owned _ _ _ (λ r e. h.0)
              (λ probing e. resume_probed-Obeys crates _ intent probing h),
      ))

poll_top_up-Obeys :
    (crates : Crates) (m : Funds) (intent : PreparedFundingIntent) (pause_ms polls : ℕ)
    → Holding intent m
    → Obeys treasury_rules Funded m (poll_top_up crates intent pause_ms polls)
unfolding poll_top_up
poll_top_up-Obeys crates m intent pause_ms zero h = h.0
poll_top_up-Obeys crates m intent pause_ms (suc polls) h = (
  tt,
  λ o.
      Obeys-after treasury_rules Funded _ _ _ (λ r e. h.0)
        (λ u e. (
          tt,
          λ o.
              Obeys-after treasury_rules Funded _ _ _ (λ r e. h.0)
                (λ polled e.
                  Obeys-option treasury_rules Funded _ polled _ _
                    (poll_top_up-Obeys crates _ intent pause_ms polls h)
                    (λ receipt.
                      Obeys->>= treasury_rules Funded Settled _ _ _
                        (settle_funding_receipt-Obeys crates _ intent receipt h) (λ m r h. h)
                        (λ m u h. h))),
        )),
)

pub await_fresh_top_up-Obeys :
    (crates : Crates) (m : Funds) (chain_id : ℕ) (intent : PreparedFundingIntent)
    → Holding intent m
    → Obeys treasury_rules Funded m (await_fresh_top_up crates chain_id intent)
unfolding await_fresh_top_up
await_fresh_top_up-Obeys crates m chain_id intent h = poll_top_up-Obeys crates m intent _ _ h
