-- ===== src/Execution/SubmissionSafety.antt =====
-- vela-relay-core/src/execution.rs: the end of the pipeline, from the signature of a bundle on.
use vela_relay.Prelude.{
  ℕ, ◌≡◌, ◌∙◌, refl, Bool, true, false, Option, none, some, List, [], ◌∷◌, length, ◌==◌, arith,
}
use vela_relay.Prelude.Result.{Result, ok}
use vela_relay.Prelude.Text.{Text}
use vela_relay.Task.Prepared.{PreparedBundleIntent}
use vela_relay.Execution.Operation.{Outcome, SignedBundle, load_prepared_bundle}
use vela_relay.Execution.Program.{answered, done}
use vela_relay.Execution.Readings.{read_saved, read_signed, read_intent}
use vela_relay.Execution.Discipline.{Obeys, Obeys-and_then}
use vela_relay.Execution.FundingRules.{Stored}
use vela_relay.Execution.Sending.{Crates, broadcast_bundle}
use vela_relay.Execution.Candidates.{Candidate, should_notify_executor_deferred}
use vela_relay.Execution.Results.{
  Results, Lane, for_each, durable, durable_outcome, lane_after, record_deferred,
  record_candidates_deferred,
}
use vela_relay.Execution.Simulation.{resume_intent}
use vela_relay.Execution.Gate.{Proven}
use vela_relay.Execution.Outbox.{
  Wording, BundleSign, native_bundle, tempo_bundle, sign_operation, Billed, bundle_intent_of,
  mark_durable, mark_submitted, resume_stored, broadcast_saved, save_and_broadcast,
  sign_and_broadcast,
}
use vela_relay.Execution.LaneRules.{
  View, MayAsk, lane_rules, remember, bundle_loaded, bundle_signed, bundle_saved, Kept, Holds,
  Complete,
}
use vela_relay.Execution.LaneSteps.{Obeys-lane_after, Obeys-lane, Obeys-lane_if, length-settle_slot}
use vela_relay.Execution.SimulationSafety.{ensured_then}
use vela_relay.Execution.OutboxSafety.{Stocked, Confirmed, broadcast_bundle-Obeys}

pub loaded-Stocked :
    (v : View) (o : Outcome) (i : PreparedBundleIntent)
    → v.owned ≡ true
    → answered read_intent o ≡ ok (some i)
    → Stocked i (bundle_loaded v o)
unfolding read_intent bundle_loaded
loaded-Stocked v o i own e = ground arith

module _ (n : ℕ) where
  for_each-Complete :
      {A : Type 0} (body : A → Lane (Unit {0}))
      → ((x : A) (v : View) (slots : Results)
          → length slots ≡ n
          → Obeys lane_rules (Complete n) v (body x slots))
      → (xs : List A) (v : View) (slots : Results) → length slots ≡ n
      → Obeys lane_rules (Complete n) v (for_each body xs slots)
  unfolding for_each
  for_each-Complete body each [] v slots h = h
  for_each-Complete body each (x ∷ xs) v slots h =
      Obeys-lane (Complete n) (Complete n) v (body x slots) _ (each x v slots h)
        (λ v' r s held. held) (λ v' u slots' h'. for_each-Complete body each xs v' slots' h')

  pub record_deferred-Complete :
      (hash stage reason : Text) (v : View) (slots : Results)
      → length slots ≡ n
      → Obeys lane_rules (Complete n) v (record_deferred hash stage reason slots)
  unfolding record_deferred
  record_deferred-Complete hash stage reason v slots h = (
    tt,
    λ o.
        Obeys-lane_after (Complete n) _ _ _ slots (λ r e. h)
          (λ u e.
            Obeys-lane_if (Complete n) _ (should_notify_executor_deferred stage) _ _ slots
              (tt, λ o. h) h),
  )

  pub record_candidates_deferred-Complete :
      (candidates : List Candidate) (stage reason : Text) (v : View) (slots : Results)
      → length slots ≡ n
      → Obeys lane_rules (Complete n) v (record_candidates_deferred candidates stage reason slots)
  unfolding record_candidates_deferred
  record_candidates_deferred-Complete candidates stage reason v slots h =
      for_each-Complete (λ c. record_deferred c.hash_string stage reason)
        (λ c v s h. record_deferred-Complete c.hash_string stage reason v s h) candidates v slots h

  mark_durable-Complete :
      (candidates : List Candidate) (v : View) (slots : Results)
      → length slots ≡ n
      → Obeys lane_rules (Complete n) v (mark_durable candidates slots)
  unfolding mark_durable
  mark_durable-Complete candidates v slots h =
      for_each-Complete (λ c. durable c.result_index)
        (λ c v s h. length-settle_slot c.result_index durable_outcome s ∙ h) candidates v slots h

  mark_submitted-Complete :
      (wording : Wording) (candidates : List Candidate) (i : PreparedBundleIntent) (gas : ℕ)
      (sent : Bool) (v : View) (slots : Results)
      → Confirmed i v (ok sent)
      → length slots ≡ n
      → Obeys lane_rules (Complete n) v (mark_submitted wording candidates i gas sent slots)
  unfolding mark_submitted
  mark_submitted-Complete wording candidates i gas false v slots shown h =
      record_candidates_deferred-Complete candidates _ wording.awaits v slots h
  mark_submitted-Complete wording candidates i gas true v slots ((own, st), shown) h = (
    (own, st, shown),
    λ o.
        Obeys-lane_after (Complete n) _ _ _ slots (λ r e. h)
          (λ indexed e.
            Obeys-lane_if (Complete n) _ (indexed == length i.user_operation_hashes) _ _ slots
              (mark_durable-Complete candidates _ slots h) h),
  )

  resume_stored-Complete :
      (wording : Wording) (existing : Option PreparedBundleIntent) (v : View) (o : Outcome)
      (slots : Results)
      → v.owned ≡ true
      → answered read_intent o ≡ ok existing
      → length slots ≡ n
      → Obeys lane_rules
          (Complete n)
          (remember v load_prepared_bundle o)
          (resume_stored wording existing slots)
  unfolding resume_stored resume_intent
  resume_stored-Complete wording none v o slots own e h = h
  resume_stored-Complete wording (some i) v o slots own e h = (
    loaded-Stocked v o i own e,
    λ o'. Obeys-lane_after (Complete n) _ _ _ slots (λ r e. h) (λ u e. h),
  )

  broadcast_saved-Complete :
      (crates : Crates) (wording : Wording) (candidates : List Candidate) (i : PreparedBundleIntent)
      (gas : ℕ) (was_saved : Bool) (v : View) (slots : Results)
      → v.owned ≡ true
      → (was_saved ≡ true → Stored i.transaction_hash v.stored)
      → length slots ≡ n
      → Obeys lane_rules
          (Complete n)
          v
          (broadcast_saved crates wording candidates i gas was_saved slots)
  unfolding broadcast_saved
  broadcast_saved-Complete crates wording candidates i gas true v slots own st h =
      Obeys-lane Sent (Complete n) v _ _
        (Obeys-and_then lane_rules (Confirmed i) Sent v (broadcast_bundle crates i)
          (λ r. done (r, slots)) (broadcast_bundle-Obeys crates i v (own, st refl))
          (λ v' r c. (c, h)))
        (λ v' r s sent. sent.1)
        (λ v' sent s c. mark_submitted-Complete wording candidates i gas sent v' s c.0 c.1)
    where
      Sent : View → Result Text Bool × Results → Type 0
      Sent v x = Confirmed i v x.0 × (length x.1 ≡ n)
  broadcast_saved-Complete crates wording candidates i gas false v slots own st h = (
    own,
    λ o.
        Obeys-lane_after (Complete n) _ _ _ slots (λ r e. h)
          (λ existing e. resume_stored-Complete wording existing v o slots own e h),
  )

saved_stored :
    (v : View) (i : PreparedBundleIntent) (o : Outcome) (was_saved : Bool)
    → answered read_saved o ≡ ok was_saved
    → was_saved ≡ true
    → Stored i.transaction_hash (bundle_saved v i o).stored
unfolding read_saved bundle_saved
saved_stored v i o was_saved e e' = ground arith

saved_owned :
    (v : View) (i : PreparedBundleIntent) (o : Outcome) → (bundle_saved v i o).owned ≡ v.owned
unfolding bundle_saved
saved_owned v i o = ground arith

signed_as :
    (v : View) (o : Outcome) {s : SignedBundle}
    → answered read_signed o ≡ ok s
    → (bundle_signed v o).signed_hash ≡ some s.transaction_hash
unfolding read_signed bundle_signed
signed_as v o e = ground arith

signed-Holds :
    (k : Kept) (v : View) (r : BundleSign) (o : Outcome) (slots : Results)
    → Holds k v slots
    → Holds k (remember v (sign_operation r) o) slots
unfolding bundle_signed
signed-Holds k v (native_bundle r) o slots h = ground arith
signed-Holds k v (tempo_bundle r) o slots h = ground arith

module _ (k : Kept) (own : k.owned ≡ true) where
  save_and_broadcast-Complete :
      (crates : Crates) (wording : Wording) (b : Proven) (billed : Billed) (gas : ℕ)
      (s : SignedBundle) (v : View) (slots : Results)
      → v.signed_hash ≡ some s.transaction_hash
      → Holds k v slots
      → Obeys lane_rules
          (Complete k.size)
          v
          (save_and_broadcast crates wording b billed gas s slots)
  unfolding save_and_broadcast bundle_intent_of
  save_and_broadcast-Complete crates wording b billed gas s v slots signed h =
      ensured_then k v slots _ (h.0 ∙ own) h (λ v' held same h'. (
        (h'.0 ∙ own, held, same ∙ signed),
        λ o.
            Obeys-lane_after (Complete k.size) _ _ _ slots (λ r e. h'.4)
              (λ was_saved e.
                broadcast_saved-Complete k.size crates wording b.survivors
                  (bundle_intent_of crates b billed s) gas was_saved _ slots
                  (saved_owned v' (bundle_intent_of crates b billed s) o ∙ (h'.0 ∙ own))
                  (saved_stored v' (bundle_intent_of crates b billed s) o was_saved e) h'.4),
      ))

  signed_then :
      (crates : Crates) (wording : Wording) (b : Proven) (billed : Billed) (gas : ℕ) (v : View)
      (r : BundleSign) (o : Outcome) (slots : Results)
      → ((s : SignedBundle)
          → answered read_signed o ≡ ok s
          → (remember v (sign_operation r) o).signed_hash ≡ some s.transaction_hash)
      → Holds k v slots
      → Obeys lane_rules (Complete k.size) (remember v (sign_operation r) o) (
          lane_after
            (save_and_broadcast crates wording b billed gas)
            (answered read_signed o, slots))
  signed_then crates wording b billed gas v r o slots signed h =
      Obeys-lane_after (Complete k.size) _ _ _ slots (λ r e. h.4)
        (λ s e.
          save_and_broadcast-Complete crates wording b billed gas s
            (remember v (sign_operation r) o) slots (signed s e) (signed-Holds k v r o slots h))

  pub sign_and_broadcast-Complete :
      (crates : Crates) (wording : Wording) (b : Proven) (r : BundleSign) (billed : Billed)
      (gas : ℕ) (v : View) (slots : Results)
      → MayAsk v (sign_operation r)
      → Holds k v slots
      → Obeys lane_rules
          (Complete k.size)
          v
          (sign_and_broadcast crates wording b r billed gas slots)
  unfolding sign_and_broadcast
  sign_and_broadcast-Complete crates wording b (native_bundle r) billed gas v slots may h = (
    may,
    λ o.
        signed_then crates wording b billed gas v (native_bundle r) o slots (λ s e. signed_as v o e)
          h,
  )
  sign_and_broadcast-Complete crates wording b (tempo_bundle r) billed gas v slots may h = (
    may,
    λ o.
        signed_then crates wording b billed gas v (tempo_bundle r) o slots (λ s e. signed_as v o e)
          h,
  )
