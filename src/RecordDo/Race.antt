-- ===== src/RecordDo/Race.antt =====
-- vela-relay-cf/src/record_do.rs: a nonce slot that several operations want.
use vela_relay.Prelude.{◌≡◌, true, false, Option, none, some, List, [], ◌∷◌, All, arith, ◌∙◌, ap}
use vela_relay.Prelude.Text.{Text, eq_ignore_ascii_case, eq_ignore_ascii_case_trans}
use vela_relay.NonceSlot
use vela_relay.NonceSlot.{
  NonceHolder, NonceClaim, claimed, held, SlotStep, claim, take_over, same_hash,
}
use vela_relay.RecordDo.{
  RecordState, Platform, RecordCommand, nonce, claim_nonce, take_over_nonce, release_nonce, handle,
  run, slot_step, if_readable, release_slot, create_queued, get, mark_admitted, restore_queued,
  patch, give_up, mark_bundle_member_submitted,
}

-- The slot names an operation, up to the case of its hash.
abbrev pub Holds : Text → Option NonceHolder → Type 0
Holds hash none = ⊥
Holds hash (some h) = eq_ignore_ascii_case h.user_operation_hash hash ≡ true

-- A command that leaves the holder of `hash` in peace: it is no takeover of a slot whose holder was
-- judged by this hash, and no release by it.
abbrev pub Spares : Text → RecordCommand → Type 0
Spares hash (take_over_nonce judged holder) = eq_ignore_ascii_case hash judged ≡ false
Spares hash (release_nonce released) = eq_ignore_ascii_case hash released ≡ false
Spares hash _ = Unit {0}

-- What the steps of a slot do where it names `hash`.
module _ (hash : Text) (h claimant : NonceHolder) (holds : Holds hash (some h)) where
  claim-Holds : (claim (some h) claimant).write ≡ none
  unfolding claim
  claim-Holds = ground arith

  claim-other :
      eq_ignore_ascii_case claimant.user_operation_hash hash ≡ false
      → claim (some h) claimant ≡ record { write = none; reply = held h }
  unfolding claim
  claim-other other =
      ground
        (arith, eq_ignore_ascii_case_trans h.user_operation_hash claimant.user_operation_hash hash)

  take_over-other :
      (judged : Text)
      → eq_ignore_ascii_case hash judged ≡ false
      → ((take_over (some h) judged claimant).write ≡ none)
        × (eq_ignore_ascii_case claimant.user_operation_hash hash ≡ false
            → take_over (some h) judged claimant ≡ record { write = none; reply = held h })
  unfolding take_over
  take_over-other judged spared = ground (
    arith,
    eq_ignore_ascii_case_trans h.user_operation_hash claimant.user_operation_hash hash,
    eq_ignore_ascii_case_trans h.user_operation_hash hash judged,
  )

  release-other :
      (released : Text)
      → eq_ignore_ascii_case hash released ≡ false
      → NonceSlot.release (some h) released ≡ false
  unfolding NonceSlot.release
  release-other released spared =
      ground (arith, eq_ignore_ascii_case_trans h.user_operation_hash hash released)

-- The commands about records leave the slot alone.
abbrev IsRecordCommand : RecordCommand → Type 0
IsRecordCommand (claim_nonce holder) = ⊥
IsRecordCommand (take_over_nonce judged holder) = ⊥
IsRecordCommand (release_nonce hash) = ⊥
IsRecordCommand _ = Unit {0}

handle-nonce_holder :
    (p : Platform) (c : RecordCommand) (s : RecordState)
    → IsRecordCommand c
    → (handle p c s).0.nonce_holder ≡ s.nonce_holder
unfolding handle
handle-nonce_holder p (create_queued operation) s k = ground arith
handle-nonce_holder p get s k = ground arith
handle-nonce_holder p mark_admitted s k = ground arith
handle-nonce_holder p (restore_queued operation) s k = ground arith
handle-nonce_holder p (patch requested) s k = ground arith
handle-nonce_holder p (give_up now_ms) s k = ground arith
handle-nonce_holder p (mark_bundle_member_submitted chain hash) s k = ground arith
handle-nonce_holder p (claim_nonce holder) s k = absurd k
handle-nonce_holder p (take_over_nonce judged holder) s k = absurd k
handle-nonce_holder p (release_nonce hash) s k = absurd k

-- A slot's command keeps the slot where its step writes nothing.
slot_step-nonce_holder :
    (p : Platform) (step : SlotStep) (s : RecordState)
    → step.write ≡ none
    → (if_readable p (slot_step p step s) s).0.nonce_holder ≡ s.nonce_holder
unfolding if_readable slot_step
slot_step-nonce_holder p step s e = ground arith

release_slot-nonce_holder :
    (p : Platform) (s : RecordState)
    → (if_readable p (release_slot false s) s).0.nonce_holder ≡ s.nonce_holder
unfolding if_readable release_slot
release_slot-nonce_holder p s = ground arith

slot-Holds :
    (hash : Text) (p : Platform) (c : RecordCommand) (s : RecordState) (h : NonceHolder)
    → s.nonce_holder ≡ some h
    → Holds hash (some h)
    → Spares hash c
    → (handle p c s).0.nonce_holder ≡ s.nonce_holder
unfolding handle
slot-Holds hash p (claim_nonce holder) s h e holds spares =
    slot_step-nonce_holder p (claim s.nonce_holder holder) s
      (ap (λ o. (claim o holder).write) e ∙ claim-Holds hash h holder holds)
slot-Holds hash p (take_over_nonce judged holder) s h e holds spares =
    slot_step-nonce_holder p (take_over s.nonce_holder judged holder) s (
      ap (λ o. (take_over o judged holder).write) e
      ∙ (take_over-other hash h holder holds judged spares).0)
slot-Holds hash p (release_nonce released) s h e holds spares =
    ap (λ b. (if_readable p (release_slot b s) s).0.nonce_holder)
      (ap (λ o. NonceSlot.release o released) e ∙ release-other hash h h holds released spares)
    ∙ release_slot-nonce_holder p s
slot-Holds hash p (create_queued operation) s h e holds spares =
    handle-nonce_holder p (create_queued operation) s tt
slot-Holds hash p get s h e holds spares = handle-nonce_holder p get s tt
slot-Holds hash p mark_admitted s h e holds spares = handle-nonce_holder p mark_admitted s tt
slot-Holds hash p (restore_queued operation) s h e holds spares =
    handle-nonce_holder p (restore_queued operation) s tt
slot-Holds hash p (patch requested) s h e holds spares =
    handle-nonce_holder p (patch requested) s tt
slot-Holds hash p (give_up now_ms) s h e holds spares = handle-nonce_holder p (give_up now_ms) s tt
slot-Holds hash p (mark_bundle_member_submitted chain bundle) s h e holds spares =
    handle-nonce_holder p (mark_bundle_member_submitted chain bundle) s tt

run-Holds :
    (hash : Text) (history : List (Platform × RecordCommand)) (s : RecordState) (h : NonceHolder)
    → s.nonce_holder ≡ some h
    → Holds hash (some h)
    → All (λ x. Spares hash x.1) history
    → (run history s).nonce_holder ≡ some h
unfolding run
run-Holds hash [] s h e holds spares = e
run-Holds hash ((p, c) ∷ rest) s h e holds spares =
    run-Holds hash rest (handle p c s).0 h (slot-Holds hash p c s h e holds spares.0 ∙ e) holds
      spares.1

-- A nonce slot that operation `hash` holds stays its own through any commands that neither take it
-- over from a holder judged under this hash nor release it by this hash. After them, where the
-- storage can be read, a different operation is answered that the slot is held, and by whom, both
-- when it claims the slot and when it takes it over from another judged holder; neither answer
-- changes the object.
pub one_holder :
    (hash : Text) (history : List (Platform × RecordCommand)) (s : RecordState) (h : NonceHolder)
    (p : Platform) (judged : Text) (other : NonceHolder)
    → s.nonce_holder ≡ some h
    → Holds hash (some h)
    → All (λ x. Spares hash x.1) history
    → p.readable ≡ true
    → eq_ignore_ascii_case other.user_operation_hash hash ≡ false
    → eq_ignore_ascii_case hash judged ≡ false
    → ((run history s).nonce_holder ≡ some h)
      × (handle p (claim_nonce other) (run history s) ≡ (run history s, nonce (held h)))
      × (handle p (take_over_nonce judged other) (run history s) ≡ (run history s, nonce (held h)))
unfolding handle
one_holder hash history s h p judged other e holds spares ok ne spared =
    let after = run-Holds hash history s h e holds spares in
    let answer =
      λ (step : SlotStep). if_readable p (slot_step p step (run history s)) (run history s) in
    let kept : answer (record { write = none; reply = held h }) ≡ (run history s, nonce (held h)) =
      unfold if_readable slot_step in ground arith in
    (
      after,
      ap (λ o. answer (claim o other)) after ∙ ap answer (claim-other hash h other holds ne) ∙ kept,
      ap (λ o. answer (take_over o judged other)) after
          ∙ ap answer ((take_over-other hash h other holds judged spared).1 ne)
          ∙ kept,
    )
