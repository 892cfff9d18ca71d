-- ===== src/Execution/LaneLift.antt =====
-- vela-relay-core/src/execution.rs: a top-up inside the lane's pipeline leaves the lane as it was.
use vela_relay.Prelude.{◌≡◌, refl, ◌∙◌, inr, arith}
use vela_relay.Prelude.Text.{Text}
use vela_relay.Execution.Operation.{
  Outcome, Operation, check_chain_supported, load_chain_assets, load_records, dead_letter_routed,
  restore_queued, reload_record, mark_admitted, mark_rejected, mark_rejected_with_reason,
  defer_operation, record_deferred_of, notify_issue, emit_diagnostic_of, acquire_lane_lease,
  ensure_lane_lease_held, load_prepared_bundle, resume_bundle_intent, simulate_individually,
  fetch_account_nonces, simulate_bundle_of, fetch_transaction_context, fetch_market_price,
  acquire_treasury_lease, ensure_treasury_lease_held, release_treasury_lease, load_prepared_funding,
  save_funding_intent, clear_funding_intent, fetch_treasury_context, fetch_tempo_treasury_context,
  sign_treasury_transfer, sign_treasury_path_usd, acquire_receipt_probe, fetch_transaction_receipt,
  pause, record_treasury_shortfall, record_tempo_treasury_shortfall, record_partial_top_up,
  record_funding_submitted, record_unproven_funding, note_funding_receipt, sign_bundle,
  save_prepared_bundle, check_broadcast_seen, broadcast_raw, remember_broadcast_of,
  forget_broadcast_of, probe_transaction_known, probe_stale_nonce, clear_stale_intent,
  record_unproven_broadcast, mark_bundle_submitted, fetch_tempo_context, sign_tempo_bundle,
}
use vela_relay.Execution.Program.{Program, done, ask, and_then}
use vela_relay.Execution.Discipline.{Obeys}
use vela_relay.Execution.FundingRules.{treasury_rules}
use vela_relay.Execution.FundingRules
use vela_relay.Execution.Results.{Results}
use vela_relay.Execution.LaneRules.{
  View, MayAsk, remember, lane_rules, hash_seen, hash_sent, hash_known,
}

-- The lane's part of a view is as before.
abbrev pub Same : View → View → Type 0
Same v v' = (v'.owned ≡ v.owned) × (v'.unprepared ≡ v.unprepared) × (v'.base_fee ≡ v.base_fee)

hash_seen-Same : (v : View) (hash : Text) (o : Outcome) → Same v (hash_seen v hash o)
unfolding hash_seen
hash_seen-Same v hash o = ground arith

hash_sent-Same : (v : View) (hash : Text) (o : Outcome) → Same v (hash_sent v hash o)
unfolding hash_sent
hash_sent-Same v hash o = ground arith

hash_known-Same : (v : View) (hash : Text) (o : Outcome) → Same v (hash_known v hash o)
unfolding hash_known
hash_known-Same v hash o = ground arith

outside :
    (v : View) (operation : Operation)
    → FundingRules.MayAsk v.funds operation
    → MayAsk v operation × ((o : Outcome) → Same v (remember v operation o))
outside v check_chain_supported h = elim h [ ]
outside v load_chain_assets h = elim h [ ]
outside v (load_records a) h = elim h [ ]
outside v (dead_letter_routed a b) h = elim h [ ]
outside v (restore_queued a b) h = elim h [ ]
outside v (reload_record a) h = elim h [ ]
outside v (mark_admitted a) h = elim h [ ]
outside v (mark_rejected a b) h = elim h [ ]
outside v (mark_rejected_with_reason a b c d) h = elim h [ ]
outside v (defer_operation a b) h = elim h [ ]
outside v (record_deferred_of a b c) h = (tt, λ o. (refl, refl, refl))
outside v (notify_issue a b c) h = (tt, λ o. (refl, refl, refl))
outside v (emit_diagnostic_of a) h = (tt, λ o. (refl, refl, refl))
outside v acquire_lane_lease h = elim h [ ]
outside v ensure_lane_lease_held h = elim h [ ]
outside v load_prepared_bundle h = elim h [ ]
outside v (resume_bundle_intent a) h = elim h [ ]
outside v (simulate_individually a b) h = elim h [ ]
outside v (fetch_account_nonces a b) h = elim h [ ]
outside v (simulate_bundle_of a b) h = elim h [ ]
outside v (fetch_transaction_context a b) h = elim h [ ]
outside v fetch_market_price h = (tt, λ o. (refl, refl, refl))
outside v acquire_treasury_lease h = (tt, λ o. (refl, refl, refl))
outside v ensure_treasury_lease_held h = (tt, λ o. (refl, refl, refl))
outside v release_treasury_lease h = (h, λ o. (refl, refl, refl))
outside v load_prepared_funding h = (h, λ o. (refl, refl, refl))
outside v (save_funding_intent a) h = (h, λ o. (refl, refl, refl))
outside v (clear_funding_intent a) h = (h, λ o. (refl, refl, refl))
outside v fetch_treasury_context h = (tt, λ o. (refl, refl, refl))
outside v (fetch_tempo_treasury_context a) h = (tt, λ o. (refl, refl, refl))
outside v (sign_treasury_transfer a) h = (h, λ o. (refl, refl, refl))
outside v (sign_treasury_path_usd a) h = (h, λ o. (refl, refl, refl))
outside v (acquire_receipt_probe a) h = (tt, λ o. (refl, refl, refl))
outside v (fetch_transaction_receipt a) h = (tt, λ o. (refl, refl, refl))
outside v (pause a) h = (tt, λ o. (refl, refl, refl))
outside v (record_treasury_shortfall a b c d e) h = (tt, λ o. (refl, refl, refl))
outside v (record_tempo_treasury_shortfall a b c d e) h = (tt, λ o. (refl, refl, refl))
outside v (record_partial_top_up a b c) h = (tt, λ o. (refl, refl, refl))
outside v (record_funding_submitted a b c) h = (tt, λ o. (refl, refl, refl))
outside v (record_unproven_funding a b c) h = (tt, λ o. (refl, refl, refl))
outside v (note_funding_receipt a b) h = (tt, λ o. (refl, refl, refl))
outside v (sign_bundle a) h = elim h [ ]
outside v (save_prepared_bundle a) h = elim h [ ]
outside v (check_broadcast_seen a) h = (tt, λ o. hash_seen-Same v a o)
outside v (broadcast_raw a b) h = (inr h, λ o. hash_sent-Same v b o)
outside v (remember_broadcast_of a) h = (tt, λ o. (refl, refl, refl))
outside v (forget_broadcast_of a) h = (tt, λ o. (refl, refl, refl))
outside v (probe_transaction_known a) h = (tt, λ o. hash_known-Same v a o)
outside v (probe_stale_nonce a) h = elim h [ ]
outside v (clear_stale_intent a b) h = elim h [ ]
outside v (record_unproven_broadcast a b c) h = (tt, λ o. (refl, refl, refl))
outside v (mark_bundle_submitted a b) h = elim h [ ]
outside v fetch_tempo_context h = elim h [ ]
outside v (sign_tempo_bundle a) h = elim h [ ]

Same-trans : (u v w : View) → Same u v → Same v w → Same u w
Same-trans u v w (a, b, c) (a', b', c') = (a' ∙ a, b' ∙ b, c' ∙ c)

-- What a program gives that keeps the treasury's rules, inside the lane.
abbrev pub Inside :
    {A : Type 0} → (FundingRules.Funds → A → Type 0) → View → Results → View → A × Results → Type 0
Inside Post v slots w x = Post w.funds x.0 × Same v w × (x.1 ≡ slots)

pub lift_outside :
    {A : Type 0} (Post : FundingRules.Funds → A → Type 0) (u v : View) (slots : Results)
    (p : Program A)
    → Same u v
    → Obeys treasury_rules Post v.funds p
    → Obeys lane_rules (Inside Post u slots) v (and_then p (λ r. done (r, slots)))
lift_outside Post u v slots (done a) same h = (h, same, refl)
lift_outside Post u v slots (ask operation k) same (allowed, h) =
    let (may, stays) = outside v operation allowed in
    (
      may,
      λ o.
          lift_outside Post u (remember v operation o) slots (k o)
            (Same-trans u v (remember v operation o) same (stays o)) (h o),
    )
