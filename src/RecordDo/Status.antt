-- ===== src/RecordDo/Status.antt =====
-- vela-relay-cf/src/record_do.rs: what one command makes of a stored record.
use vela_relay.Prelude.{
  ℕ, ◌≡◌, inl, inr, refl, Bool, true, false, Option, none, some, List, arith, Option-cases, sym,
  ◌∙◌,
}
use vela_relay.Task.{UserOperationStatus, submitted, StoredUserOperation, QueuedUserOperation}
use vela_relay.Patch.{Patch, not_object, object, absent, unreadable, requests, PatchField, merge}
use vela_relay.Patch.Merge.{merge-status}
use vela_relay.Lifecycle.{
  transition_is_allowed, decide_patch, PatchDecision, apply, refuse_illegal_transition,
  BundleSubmissionDecision, decide_bundle_submission, transition, index_only, skip,
  dead_letter_patch,
}
use vela_relay.Prelude.Text.{Text}
use vela_relay.NonceSlot
use vela_relay.NonceSlot.{SlotStep, claim, take_over}
use mathlib.Core.Path.{subst}
use vela_relay.RecordDo.{
  RecordState, Platform, RecordCommand, create_queued, get, mark_admitted, restore_queued, patch,
  give_up, mark_bundle_member_submitted, claim_nonce, take_over_nonce, release_nonce, handle,
  read_record, apply_patch, apply_to, decided, with_status, patched_reply, patch_found, give_up_by,
  give_up_found, create, mark, slot_step, if_readable, release_slot, apply_bundle_submission,
  extend_life, submit_as,
}

-- What may become of a stored record in one step.
abbrev pub Follows : Option StoredUserOperation → Option StoredUserOperation → Type 0
Follows none after = Unit
Follows (some r) none = ⊥
Follows (some r) (some r') = transition_is_allowed r.status r'.status ≡ true

Follows-refl : (o : Option StoredUserOperation) → Follows o o
unfolding transition_is_allowed
Follows-refl none = tt
Follows-refl (some r) = ground arith

decided-Follows :
    (d : PatchDecision) (requested : Option UserOperationStatus) (fields : List PatchField)
    (r : StoredUserOperation) (s : RecordState)
    → s.stored ≡ some r
    → (d ≡ apply → transition_is_allowed r.status (with_status requested r).status ≡ true)
    → Follows (some r) (decided d requested fields r s).0.stored
unfolding decided
decided-Follows refuse_illegal_transition requested fields r s e ok = rw e (Follows-refl (some r))
decided-Follows apply requested fields r s e ok =
    elim (Option-cases (merge fields (with_status requested r))) [
      | inl failed ↦ rw (failed, e) (Follows-refl (some r))
      | inr (m, done) ↦ rw (done, merge-status fields (with_status requested r) done) (ok refl)
    ]

apply_to-Follows :
    (p : Patch) (r : StoredUserOperation) (s : RecordState)
    → s.stored ≡ some r
    → Follows (some r) (apply_to p r s).0.stored
unfolding apply_to
apply_to-Follows not_object r s e = rw e (Follows-refl (some r))
apply_to-Follows (object unreadable fields) r s e = rw e (Follows-refl (some r))
apply_to-Follows (object absent fields) r s e =
    decided-Follows (decide_patch r.status none) none fields r s e (λ h. Follows-refl (some r))
apply_to-Follows (object (requests status) fields) r s e =
    decided-Follows (decide_patch r.status (some status)) (some status) fields r s e
      (λ h. unfold decide_patch transition_is_allowed in ground arith)

-- The record that a readable object finds is the one that it stores.
pub read_some :
    (p : Platform) (s : RecordState) (r : StoredUserOperation)
    → p.readable ≡ true
    → s.stored ≡ some r
    → read_record p s ≡ some r
unfolding read_record
read_some p s r ok e = ground arith

-- A step that begins with the read is judged at the record found.
found-Follows {ℓ} :
    {A : Type ℓ} (step : Option StoredUserOperation → RecordState × A) (r : StoredUserOperation)
    {o : Option StoredUserOperation}
    → o ≡ some r
    → Follows (some r) (step (some r)).0.stored
    → Follows (some r) (step o).0.stored
found-Follows step r e h = subst (λ x. Follows (some r) (step x).0.stored) (sym e) h

apply_patch-Follows :
    (p : Platform) (requested : Patch) (r : StoredUserOperation) (s : RecordState)
    → p.readable ≡ true
    → s.stored ≡ some r
    → Follows (some r) (apply_patch p requested s).0.stored
unfolding apply_patch
apply_patch-Follows p requested r s ok e =
    found-Follows (λ x. patch_found x requested s) r (read_some p s r ok e)
      (apply_to-Follows requested r s e)

extend_life-Follows :
    (p : Platform) (now_ms : ℕ) (o : Option StoredUserOperation) (x : RecordState × Option Bool)
    → Follows o x.0.stored
    → Follows o (extend_life p now_ms x).0.stored
unfolding extend_life
extend_life-Follows p now_ms o (s, none) h = h
extend_life-Follows p now_ms o (s, some false) h = h
extend_life-Follows p now_ms o (s, some true) h = h

give_up_by-Follows :
    (p : Platform) (now_ms : ℕ) (dead : Option Patch) (r : StoredUserOperation) (s : RecordState)
    → p.readable ≡ true
    → s.stored ≡ some r
    → Follows (some r) (give_up_by p now_ms dead s).0.stored
unfolding give_up_by
give_up_by-Follows p now_ms none r s ok e = rw e (Follows-refl (some r))
give_up_by-Follows p now_ms (some dead) r s ok e =
    extend_life-Follows p now_ms (some r) (apply_patch p dead s)
      (apply_patch-Follows p dead r s ok e)

patched_reply-Follows :
    (o : Option StoredUserOperation) (x : RecordState × Option Bool)
    → Follows o x.0.stored
    → Follows o (patched_reply x).0.stored
unfolding patched_reply
patched_reply-Follows o (s, none) h = h
patched_reply-Follows o (s, some done) h = h

create-Follows :
    (p : Platform) (operation : QueuedUserOperation) (admitted : Bool) (r : StoredUserOperation)
    (s : RecordState)
    → s.stored ≡ some r
    → Follows (some r) (create p operation admitted (some r) s).0.stored
unfolding create
create-Follows p operation admitted r s e = rw e (Follows-refl (some r))

submit_as-Follows :
    (d : BundleSubmissionDecision) (hash : Text) (r : StoredUserOperation) (s : RecordState)
    → s.stored ≡ some r
    → (d ≡ transition → transition_is_allowed r.status submitted ≡ true)
    → Follows (some r) (submit_as d hash r s).0.stored
unfolding submit_as
submit_as-Follows transition hash r s e ok = ok refl
submit_as-Follows index_only hash r s e ok = rw e (Follows-refl (some r))
submit_as-Follows skip hash r s e ok = rw e (Follows-refl (some r))

slot_step-stored :
    (p : Platform) (step : SlotStep) (s : RecordState)
    → (if_readable p (slot_step p step s) s).0.stored ≡ s.stored
unfolding if_readable slot_step
slot_step-stored p step s = ground arith

release_slot-stored :
    (p : Platform) (b : Bool) (s : RecordState)
    → (if_readable p (release_slot b s) s).0.stored ≡ s.stored
unfolding if_readable release_slot
release_slot-stored p b s = ground arith

kept-Follows :
    (r : StoredUserOperation) {o before : Option StoredUserOperation}
    → o ≡ before
    → before ≡ some r
    → Follows (some r) o
kept-Follows r k e = subst (Follows (some r)) (sym (k ∙ e)) (Follows-refl (some r))

-- One command, of any kind, leaves a stored record stored, and moves its status along the
-- lifecycle table or not at all, if the storage can be read.
pub handle-Follows :
    (p : Platform) (c : RecordCommand) (r : StoredUserOperation) (s : RecordState)
    → p.readable ≡ true
    → s.stored ≡ some r
    → Follows (some r) (handle p c s).0.stored
unfolding handle
handle-Follows p (create_queued operation) r s ok e =
    found-Follows (λ x. create p operation false x s) r (read_some p s r ok e)
      (create-Follows p operation false r s e)
handle-Follows p get r s ok e = kept-Follows r refl e
handle-Follows p mark_admitted r s ok e =
    found-Follows (λ x. mark x s) r (read_some p s r ok e) (Follows-refl (some r))
handle-Follows p (restore_queued operation) r s ok e =
    found-Follows (λ x. create p operation true x s) r (read_some p s r ok e)
      (create-Follows p operation true r s e)
handle-Follows p (patch requested) r s ok e =
    patched_reply-Follows (some r) (apply_patch p requested s)
      (apply_patch-Follows p requested r s ok e)
handle-Follows p (give_up now_ms) r s ok e =
    patched_reply-Follows (some r) (give_up_found p now_ms (read_record p s) s) (
      found-Follows (λ x. give_up_found p now_ms x s) r (read_some p s r ok e)
        (give_up_by-Follows p now_ms (dead_letter_patch r now_ms) r s ok e))
handle-Follows p (mark_bundle_member_submitted chain hash) r s ok e =
    found-Follows (λ x. apply_bundle_submission chain hash x s) r (read_some p s r ok e)
      (submit_as-Follows
        (decide_bundle_submission r.status r.transaction_hash r.chain_id r.chain_id_text chain hash)
        hash r s e (λ h. unfold decide_bundle_submission transition_is_allowed in ground arith))
handle-Follows p (claim_nonce holder) r s ok e =
    kept-Follows r (slot_step-stored p (claim s.nonce_holder holder) s) e
handle-Follows p (take_over_nonce judged holder) r s ok e =
    kept-Follows r (slot_step-stored p (take_over s.nonce_holder judged holder) s) e
handle-Follows p (release_nonce hash) r s ok e =
    kept-Follows r (release_slot-stored p (NonceSlot.release s.nonce_holder hash) s) e
