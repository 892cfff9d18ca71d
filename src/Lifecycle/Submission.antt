-- ===== src/Lifecycle/Submission.antt =====
-- vela-relay-core/src/lifecycle.rs: a bundle's submission and its members (`decide_bundle_submission`).
use vela_relay.Prelude.{ℕ, ◌<◌, ◌^◌, ◌≡◌, ◌≢◌, ◌⊎◌, inl, inr, true, some, none, [], ◌∷◌, arith}
use vela_relay.Prelude.Text.{Text, digits_of, digits_of-injective, text_eq_sound}
use vela_relay.Prelude.{Option}
use vela_relay.Task.{UserOperationStatus, submitted}
use vela_relay.Lifecycle.{
  decide_bundle_submission, transition, index_only, skip, same_chain, transition_is_allowed,
}

-- A record is written with the text of its own chain id, or (an older one) with none.
abbrev pub HasChainText : ℕ → Text → Type 0
HasChainText chain_id text = (text ≡ []) ⊎ (text ≡ digits_of chain_id)

pub same_chain_sound :
    (record_chain bundle_chain : ℕ) (text : Text)
    → record_chain < 2 ^ 64
    → bundle_chain < 2 ^ 64
    → HasChainText record_chain text
    → same_chain record_chain text bundle_chain ≡ true
    → record_chain ≡ bundle_chain
unfolding same_chain
same_chain_sound r b [] hr hb t h = ground arith
same_chain_sound r b (c ∷ cs) hr hb (inl e) h = cc
same_chain_sound r b (c ∷ cs) hr hb (inr e) h =
    digits_of-injective r b (omega arith) (omega arith)
      (cc (e, text_eq_sound (c ∷ cs) (digits_of b) h))

-- For 64-bit chain ids, and a record written with the text of its own chain id or with none: a
-- member that a submitted bundle does not skip is on the bundle's chain, and either it is moved,
-- and the lifecycle table allows its move to `submitted`, or it is indexed again, and is
-- `submitted` already by the same transaction.
pub decide_bundle_submission_sound :
    (status : UserOperationStatus) (hash : Option Text) (record_chain : ℕ) (text : Text)
    (bundle_chain : ℕ) (bundle_hash : Text)
    → record_chain < 2 ^ 64
    → bundle_chain < 2 ^ 64
    → HasChainText record_chain text
    → decide_bundle_submission status hash record_chain text bundle_chain bundle_hash ≢ skip
    → (record_chain ≡ bundle_chain)
      × (((decide_bundle_submission status hash record_chain text bundle_chain bundle_hash
              ≡ transition)
            × (transition_is_allowed status submitted ≡ true))
          ⊎ ((decide_bundle_submission status hash record_chain text bundle_chain bundle_hash
                ≡ index_only)
              × (status ≡ submitted)
              × (hash ≡ some bundle_hash)))
unfolding decide_bundle_submission transition_is_allowed
decide_bundle_submission_sound status none r text b h hr hb t ne =
    ground (arith, same_chain_sound r b text hr hb t)
decide_bundle_submission_sound status (some g) r text b h hr hb t ne =
    ground (arith, same_chain_sound r b text hr hb t, text_eq_sound g h)
