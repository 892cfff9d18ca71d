-- ===== src/Execution/SigningSafety.antt =====
-- vela-relay-core/src/execution.rs: the signature, the store and the send of a top-up keep the rules.
use vela_relay.Prelude.{ℕ, ◌≡◌, ◌∙◌, sym, refl, inl, Bool, true, false, Option, none, some}
use mathlib.Core.Path.{subst}
use vela_relay.Prelude.Result.{ok}
use vela_relay.Prelude.Text.{Text}
use vela_relay.Task.Prepared.{PreparedFundingIntent}
use vela_relay.Execution.Operation.{Outcome, SignedBundle}
use vela_relay.Execution.Program.{after, answered}
use vela_relay.Execution.Readings.{read_funding, read_saved, read_signed}
use vela_relay.Execution.Discipline.{Obeys, Obeys-after, Obeys->>=}
use vela_relay.Execution.Sending.{Crates}
use vela_relay.Execution.TopUp.{broadcast_funding, resume_funding}
use vela_relay.Execution.Funding.{
  ExecutionPolicy, ensure_treasury_lease, resume_pending, resume_raced, send_saved,
  funding_intent_of, store_and_send, TreasurySign, native_transfer, path_usd_transfer,
  sign_and_send,
}
use vela_relay.Execution.FundingRules.{
  Funds, treasury_rules, Holding, Holds, Owned, Funded, Stored, confirmed, loaded, has_saved,
  has_signed, confirmed-owned, confirmed-held, confirmed-unfunded, loaded-owned, loaded-some,
  has_signed-owned, has_signed-hash, has_saved-owned, has_saved-stored,
}
use vela_relay.Execution.TopUpSafety.{
  broadcast_funding-Obeys, resume_funding-Obeys, await_fresh_top_up-Obeys,
}

pub resume_pending-Obeys :
    (crates : Crates) (m : Funds) (intent : PreparedFundingIntent)
    → Holding intent m
    → Obeys treasury_rules Funded m (resume_pending crates intent)
unfolding resume_pending
resume_pending-Obeys crates m intent h =
    Obeys->>= treasury_rules Funded Owned m (resume_funding crates intent) _
      (resume_funding-Obeys crates m intent h) (λ m r h. h) (λ m u h. h)

pub stored_then-Obeys :
    (crates : Crates) (m : Funds) (i : PreparedFundingIntent) (o : Outcome)
    → m.owned ≡ true
    → answered read_funding o ≡ ok (some i)
    → Obeys treasury_rules Funded (loaded m o) (resume_pending crates i)
stored_then-Obeys crates m i o own e =
    resume_pending-Obeys crates (loaded m o) i (
      loaded-owned m o ∙ own,
      subst (Stored i.transaction_hash) (sym (loaded-some m o e)) (inl refl),
    )

resume_raced-Obeys :
    (crates : Crates) (m : Funds) (raced : Text) (existing : Option PreparedFundingIntent)
    (o : Outcome)
    → m.owned ≡ true
    → answered read_funding o ≡ ok existing
    → Obeys treasury_rules Funded (loaded m o) (resume_raced crates raced existing)
unfolding resume_raced
resume_raced-Obeys crates m raced (some i) o own e = stored_then-Obeys crates m i o own e
resume_raced-Obeys crates m raced none o own e = loaded-owned m o ∙ own

send_saved-Obeys :
    (crates : Crates) (m : Funds) (chain_id amount : ℕ) (intent : PreparedFundingIntent)
    (tempo : Bool) (raced : Text) (was_saved : Bool) (o : Outcome)
    → m.owned ≡ true
    → answered read_saved o ≡ ok was_saved
    → Obeys treasury_rules Funded
        (has_saved m intent o)
        (send_saved crates chain_id intent amount tempo raced was_saved)
unfolding send_saved
send_saved-Obeys crates m chain_id amount intent tempo raced true o own e =
    Obeys->>= treasury_rules Funded (Holds intent) _ (broadcast_funding crates intent) _
      (broadcast_funding-Obeys crates _ intent
        (has_saved-owned m intent o ∙ own, has_saved-stored m intent o e))
      (λ m r h. h)
      (λ m u h. (
        tt,
        λ o.
            Obeys-after treasury_rules Funded _ _ _ (λ r e. h.0)
              (λ u e. await_fresh_top_up-Obeys crates _ chain_id intent h),
      ))
send_saved-Obeys crates m chain_id amount intent tempo raced false o own e =
    let own' = has_saved-owned m intent o ∙ own in
    (
      own',
      λ o'.
          Obeys-after treasury_rules Funded _ _ _
            (λ r e. loaded-owned (has_saved m intent o) o' ∙ own')
            (λ existing e.
              resume_raced-Obeys crates (has_saved m intent o) raced existing o' own' e),
    )

store_and_send-Obeys :
    (crates : Crates) (policy : ExecutionPolicy) (m : Funds) (chain_id amount : ℕ) (tempo : Bool)
    (raced : Text) (signed : SignedBundle)
    → m.owned ≡ true
    → m.signed_hash ≡ some signed.transaction_hash
    → Obeys treasury_rules Funded m
        (store_and_send crates policy chain_id amount tempo raced signed)
unfolding store_and_send ensure_treasury_lease funding_intent_of
store_and_send-Obeys crates policy m chain_id amount tempo raced signed own hash = (
  tt,
  λ o.
      let own' = confirmed-owned m o ∙ own in
      Obeys-after treasury_rules Funded _ _ _ (λ r e. own')
        (λ u held. (
          (own', confirmed-held m o held, (confirmed-unfunded m o).1 ∙ hash),
          λ o'.
              Obeys-after treasury_rules Funded _ _ _
                (λ r e. has_saved-owned (confirmed m o) _ o' ∙ own')
                (λ was_saved e.
                  send_saved-Obeys crates (confirmed m o) chain_id amount
                    (funding_intent_of crates policy chain_id amount signed) tempo raced was_saved
                    o' own' e),
        )),
)

signed_and_send-Obeys :
    (crates : Crates) (policy : ExecutionPolicy) (m : Funds) (chain_id amount : ℕ) (tempo : Bool)
    (raced : Text) (o : Outcome)
    → m.owned ≡ true
    → Obeys treasury_rules Funded (has_signed m o) (
        after
          (λ signed. store_and_send crates policy chain_id amount tempo raced signed)
          (answered read_signed o))
signed_and_send-Obeys crates policy m chain_id amount tempo raced o own =
    let own' = has_signed-owned m o ∙ own in
    Obeys-after treasury_rules Funded _ _ _ (λ r e. own')
      (λ signed e.
        store_and_send-Obeys crates policy _ chain_id amount tempo raced signed own'
          (has_signed-hash m o e))

pub sign_and_send-Obeys :
    (crates : Crates) (policy : ExecutionPolicy) (m : Funds) (chain_id : ℕ) (sign : TreasurySign)
    (amount : ℕ) (tempo : Bool) (raced : Text)
    → m.owned ≡ true
    → m.unfunded ≡ true
    → Obeys treasury_rules Funded m (sign_and_send crates policy chain_id sign amount tempo raced)
unfolding sign_and_send ensure_treasury_lease
sign_and_send-Obeys crates policy m chain_id (native_transfer r) amount tempo raced own free = (
  tt,
  λ o.
      let own' = confirmed-owned m o ∙ own in
      Obeys-after treasury_rules Funded _ _ _ (λ r e. own')
        (λ u held. (
          (own', confirmed-held m o held, (confirmed-unfunded m o).0 ∙ free),
          λ o'. signed_and_send-Obeys crates policy _ chain_id amount tempo raced o' own',
        )),
)
sign_and_send-Obeys crates policy m chain_id (path_usd_transfer r) amount tempo raced own free = (
  tt,
  λ o.
      let own' = confirmed-owned m o ∙ own in
      Obeys-after treasury_rules Funded _ _ _ (λ r e. own')
        (λ u held. (
          (own', confirmed-held m o held, (confirmed-unfunded m o).0 ∙ free),
          λ o'. signed_and_send-Obeys crates policy _ chain_id amount tempo raced o' own',
        )),
)
