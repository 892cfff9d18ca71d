-- ===== src/Execution/MismatchSafety.antt =====
-- vela-relay-core/src/execution.rs: what answers a nonce mismatch leaves the lane as it is.
use vela_relay.Prelude.{ℕ, Option, none, some, List, [], ◌∷◌, length, ltb, ◌==◌}
use vela_relay.Settlement.Calldata.{Address}
use vela_relay.Execution.Discipline.{Obeys}
use vela_relay.Execution.Candidates.{Candidate}
use vela_relay.Execution.Results.{Results, failed}
use vela_relay.Execution.Simulation.{
  lookup_unavailable, note_deferred, defer_future, reject_stale, resolve_mismatch, resolve_each,
  all_unavailable, resolve_nonces, resolve_nonce_mismatches,
}
use vela_relay.Execution.LaneRules.{View, lane_rules, Kept, Holds, Ready}
use vela_relay.Execution.LaneSteps.{
  quiet_then, quiet_read, Obeys-lane_if, for_each-Ready, Holds-settle_slot,
}

module _ (k : Kept) where
  note_deferred-Ready :
      (c : Candidate) (attempt : Option ℕ) (v : View) (slots : Results)
      → Holds k v slots
      → Obeys lane_rules (Ready k) v (note_deferred c attempt slots)
  unfolding note_deferred
  note_deferred-Ready c (some n) v slots h = Holds-settle_slot k v c.result_index _ slots h
  note_deferred-Ready c none v slots h = Holds-settle_slot k v c.result_index _ slots h

  defer_future-Ready :
      (c : Candidate) (nonce : ℕ) (v : View) (slots : Results)
      → Holds k v slots
      → Obeys lane_rules (Ready k) v (defer_future c nonce slots)
  unfolding defer_future
  defer_future-Ready c nonce v slots h =
      (tt, λ o. quiet_read k _ _ _ slots h (λ attempt e. note_deferred-Ready c attempt _ slots h))

  reject_stale-Ready :
      (c : Candidate) (nonce : ℕ) (v : View) (slots : Results)
      → Holds k v slots
      → Obeys lane_rules (Ready k) v (reject_stale c nonce slots)
  unfolding reject_stale
  reject_stale-Ready c nonce v slots h = (
    tt,
    λ o. quiet_read k _ _ _ slots h (λ stored e.
        Obeys-lane_if (Ready k) _ stored _ _ slots (Holds-settle_slot k v c.result_index _ slots h)
          (Holds-settle_slot k v c.result_index _ slots h)),
  )

  resolve_mismatch-Ready :
      (c : Candidate) (nonce : Option ℕ) (v : View) (slots : Results)
      → Holds k v slots
      → Obeys lane_rules (Ready k) v (resolve_mismatch c nonce slots)
  unfolding resolve_mismatch
  resolve_mismatch-Ready c none v slots h = Holds-settle_slot k v c.result_index _ slots h
  resolve_mismatch-Ready c (some nonce) v slots h =
      Obeys-lane_if (Ready k) v (ltb nonce c.packed.packed.nonce) _ _ slots
        (defer_future-Ready c nonce v slots h) (reject_stale-Ready c nonce v slots h)

  resolve_each-Ready :
      (candidates : List Candidate) (nonces : List (Option ℕ)) (v : View) (slots : Results)
      → Holds k v slots
      → Obeys lane_rules (Ready k) v (resolve_each candidates nonces slots)
  unfolding resolve_each
  resolve_each-Ready [] nonces v slots h = h
  resolve_each-Ready (c ∷ candidates) [] v slots h = h
  resolve_each-Ready (c ∷ candidates) (nonce ∷ nonces) v slots h =
      quiet_then k v (resolve_mismatch c nonce slots) _ (resolve_mismatch-Ready c nonce v slots h)
        (λ v' u slots' h'. resolve_each-Ready candidates nonces v' slots' h')

  all_unavailable-Ready :
      (candidates : List Candidate) (v : View) (slots : Results)
      → Holds k v slots
      → Obeys lane_rules (Ready k) v (all_unavailable candidates slots)
  unfolding all_unavailable
  all_unavailable-Ready candidates v slots h =
      for_each-Ready k (λ c. failed c.result_index lookup_unavailable)
        (λ c v s h. Holds-settle_slot k v c.result_index _ s h) candidates v slots h

  resolve_nonces-Ready :
      (candidates : List Candidate) (nonces : Option (List (Option ℕ))) (v : View) (slots : Results)
      → Holds k v slots
      → Obeys lane_rules (Ready k) v (resolve_nonces candidates nonces slots)
  unfolding resolve_nonces
  resolve_nonces-Ready candidates none v slots h = all_unavailable-Ready candidates v slots h
  resolve_nonces-Ready candidates (some nonces) v slots h =
      Obeys-lane_if (Ready k) v (length nonces == length candidates) _ _ slots
        (resolve_each-Ready candidates nonces v slots h)
        (all_unavailable-Ready candidates v slots h)

  pub resolve_nonce_mismatches-Ready :
      (entry_point : Address) (candidates : List Candidate) (v : View) (slots : Results)
      → Holds k v slots
      → Obeys lane_rules (Ready k) v (resolve_nonce_mismatches entry_point candidates slots)
  unfolding resolve_nonce_mismatches
  resolve_nonce_mismatches-Ready entry_point candidates v slots h = (
    tt,
    λ o. quiet_read k _ _ _ slots h (λ nonces e. resolve_nonces-Ready candidates nonces _ slots h),
  )
