-- ===== src/Execution/OutboxSafety.antt =====
-- vela-relay-core/src/execution.rs: a bundle is signed, stored, sent and marked in that order, each
-- by the rules.
use vela_relay.Prelude.{◌≡◌, ◌∙◌, ap, refl, Bool, true, false, if◌then◌else◌, arith, inl}
use vela_relay.Prelude.Result.{Result, ok, err}
use vela_relay.Prelude.Text.{Text, codes, eq_ignore_ascii_case}
use vela_relay.Task.Prepared.{PreparedBundleIntent}
use vela_relay.Broadcast.{
  UnprovenBroadcast, confirmed, check_stale_nonce, retain_outbox, nonce_too_low,
  resolve_unproven_broadcast,
}
use vela_relay.Execution.Operation.{
  probe_transaction_known, check_broadcast_seen, Outcome, BroadcastReply, accepted_as, ambiguous,
  refused,
}
use vela_relay.Execution.Program.{answered, ◌>>◌, pure, fail}
use vela_relay.Execution.Readings.{read_seen, read_known, read_sent}
use vela_relay.Execution.Discipline.{Obeys, Obeys-after}
use vela_relay.Execution.FundingRules.{Stored}
use vela_relay.Execution.Sending.{
  Crates, note_unproven, judge_stale, resolve_bundle, probe_bundle, judge_bundle, send_bundle,
  broadcast_bundle, remember_broadcast, forget_broadcast,
}
use vela_relay.Execution.LaneRules.{
  quieted, remember, View, lane_rules, hash_seen, hash_sent, hash_known,
}

-- The lane's lease is owned, and the bundle is stored.
abbrev pub Stocked : PreparedBundleIntent → View → Type 0
Stocked i v = (v.owned ≡ true) × Stored i.transaction_hash v.stored

-- A broadcast that is confirmed was shown to be held.
abbrev pub Confirmed : PreparedBundleIntent → View → Result Text Bool → Type 0
Confirmed i v (ok true) = Stocked i v × Stored i.transaction_hash v.shown
Confirmed i v (ok false) = Stocked i v
Confirmed i v (err reason) = Stocked i v

seen-Stocked :
    (i : PreparedBundleIntent) (v : View) (hash : Text) (o : Outcome)
    → Stocked i v
    → Stocked i (hash_seen v hash o)
unfolding hash_seen
seen-Stocked i v hash o h = ground arith

sent-Stocked :
    (i : PreparedBundleIntent) (v : View) (hash : Text) (o : Outcome)
    → Stocked i v
    → Stocked i (hash_sent v hash o)
unfolding hash_sent
sent-Stocked i v hash o h = ground arith

known-Stocked :
    (i : PreparedBundleIntent) (v : View) (hash : Text) (o : Outcome)
    → Stocked i v
    → Stocked i (hash_known v hash o)
unfolding hash_known
known-Stocked i v hash o h = ground arith

seen-shown :
    (v : View) (hash : Text) (o : Outcome)
    → answered read_seen o ≡ ok true
    → Stored hash (hash_seen v hash o).shown
unfolding read_seen hash_seen
seen-shown v hash o e = ground arith

known-shown :
    (v : View) (hash : Text) (o : Outcome)
    → answered read_known o ≡ ok true
    → Stored hash (hash_known v hash o).shown
unfolding read_known hash_known
known-shown v hash o e = ground arith

sent-shown :
    (v : View) (hash h : Text) (o : Outcome)
    → answered read_sent o ≡ ok (ok (accepted_as h))
    → eq_ignore_ascii_case h hash ≡ true
    → Stored hash (hash_sent v hash o).shown
unfolding read_sent hash_sent
sent-shown v hash h o e e' = ground arith

judge_stale-Obeys :
    (i : PreparedBundleIntent) (v : View) (is_ambiguous : Bool) (reason : Text) (is_stale : Bool)
    → Stocked i v
    → Obeys lane_rules (Confirmed i) v (judge_stale i is_ambiguous reason is_stale)
unfolding judge_stale note_unproven
judge_stale-Obeys i v is_ambiguous reason true h =
    (h, λ o. Obeys-after lane_rules (Confirmed i) _ _ _ (λ r e. h) (λ u e. h))
judge_stale-Obeys i v is_ambiguous reason false h =
    (tt, λ o. Obeys-after lane_rules (Confirmed i) _ _ _ (λ r e. h) (λ u e. h))

-- A transaction that a node has, as far as the resolution says so.
abbrev Proves : PreparedBundleIntent → View → UnprovenBroadcast → Type 0
Proves i v confirmed = Stored i.transaction_hash v.shown
Proves i v check_stale_nonce = Unit
Proves i v retain_outbox = Unit

resolve_bundle-Obeys :
    (i : PreparedBundleIntent) (v : View) (is_ambiguous : Bool) (reason : Text)
    (resolution : UnprovenBroadcast)
    → Stocked i v
    → Proves i v resolution
    → Obeys lane_rules (Confirmed i) v (resolve_bundle i is_ambiguous reason resolution)
unfolding resolve_bundle remember_broadcast note_unproven
resolve_bundle-Obeys i v is_ambiguous reason confirmed h shown =
    (tt, λ o. Obeys-after lane_rules (Confirmed i) _ _ _ (λ r e. h) (λ u e. (h, shown)))
resolve_bundle-Obeys i v is_ambiguous reason check_stale_nonce h shown = (
  h,
  λ o.
      Obeys-after lane_rules (Confirmed i) _ _ _ (λ r e. h)
        (λ is_stale e. judge_stale-Obeys i _ is_ambiguous reason is_stale h),
)
resolve_bundle-Obeys i v is_ambiguous reason retain_outbox h shown =
    (tt, λ o. Obeys-after lane_rules (Confirmed i) _ _ _ (λ r e. h) (λ u e. h))

unproven-Proves :
    (i : PreparedBundleIntent) (v : View) (is_stale : Bool)
    → Proves i v (if is_stale then check_stale_nonce else retain_outbox)
unproven-Proves i v true = tt
unproven-Proves i v false = tt

resolve-Proves :
    (i : PreparedBundleIntent) (v : View) (reason : Text) (is_known : Bool)
    → (is_known ≡ true → Stored i.transaction_hash v.shown)
    → Proves i v (resolve_unproven_broadcast reason is_known)
unfolding resolve_unproven_broadcast
resolve-Proves i v reason true shown = shown refl
resolve-Proves i v reason false shown = unproven-Proves i v (nonce_too_low reason)

probe_bundle-Obeys :
    (i : PreparedBundleIntent) (v : View) (is_ambiguous : Bool) (reason : Text)
    → Stocked i v
    → Obeys lane_rules (Confirmed i) v (probe_bundle i is_ambiguous reason)
unfolding probe_bundle forget_broadcast
probe_bundle-Obeys i v is_ambiguous reason h = (
  tt,
  λ o.
      Obeys-after lane_rules (Confirmed i) _ _ _ (λ r e. h)
        (λ u e. (
          tt,
          λ o.
              Obeys-after lane_rules (Confirmed i) _ _ _
                (λ r e. known-Stocked i (quieted v) i.transaction_hash o h)
                (λ is_known e.
                  resolve_bundle-Obeys i
                    (remember (quieted v) (probe_transaction_known i.transaction_hash) o)
                    is_ambiguous reason (resolve_unproven_broadcast reason is_known)
                    (known-Stocked i (quieted v) i.transaction_hash o h)
                    (resolve-Proves i
                      (remember (quieted v) (probe_transaction_known i.transaction_hash) o) reason
                      is_known
                      (λ is_true.
                        known-shown (quieted v) i.transaction_hash o (e ∙ ap ok is_true)))),
        )),
)

abbrev sent_view : View → PreparedBundleIntent → Outcome → View
sent_view v i o = record (hash_sent v i.transaction_hash o) {
  funds = record v.funds { held = false };
}

accepted_then-Obeys :
    (i : PreparedBundleIntent) (v : View) (o : Outcome) (hash : Text) (same : Bool)
    → eq_ignore_ascii_case hash i.transaction_hash ≡ same
    → answered read_sent o ≡ ok (ok (accepted_as hash))
    → Stocked i (hash_sent v i.transaction_hash o)
    → Obeys lane_rules (Confirmed i) (sent_view v i o) (
        if same then (do remember_broadcast i.transaction_hash; pure true) else (do
          forget_broadcast i.transaction_hash
          fail (codes "RPC returned a transaction hash different from the signed bytes")))
unfolding remember_broadcast forget_broadcast
accepted_then-Obeys i v o hash true same e h = (
  tt,
  λ o'.
      Obeys-after lane_rules (Confirmed i) _ _ _ (λ r e'. h)
        (λ u e'. (h, sent-shown v i.transaction_hash hash o e same)),
)
accepted_then-Obeys i v o hash false same e h =
    (tt, λ o'. Obeys-after lane_rules (Confirmed i) _ _ _ (λ r e'. h) (λ u e'. h))

judge_bundle-Obeys :
    (i : PreparedBundleIntent) (v : View) (o : Outcome) (reply : Result Text BroadcastReply)
    → answered read_sent o ≡ ok reply
    → Stocked i (hash_sent v i.transaction_hash o)
    → Obeys lane_rules (Confirmed i) (sent_view v i o) (judge_bundle i reply)
unfolding judge_bundle forget_broadcast
judge_bundle-Obeys i v o (err message) e h =
    (tt, λ o'. Obeys-after lane_rules (Confirmed i) _ _ _ (λ r e'. h) (λ u e'. h))
judge_bundle-Obeys i v o (ok (accepted_as hash)) e h =
    accepted_then-Obeys i v o hash (eq_ignore_ascii_case hash i.transaction_hash) refl e h
judge_bundle-Obeys i v o (ok (ambiguous reason)) e h =
    probe_bundle-Obeys i (sent_view v i o) true reason h
judge_bundle-Obeys i v o (ok (refused reason)) e h =
    probe_bundle-Obeys i (sent_view v i o) false reason h

send_bundle-Obeys :
    (crates : Crates) (i : PreparedBundleIntent) (v : View) (was_seen : Bool)
    → Stocked i v
    → (was_seen ≡ true → Stored i.transaction_hash v.shown)
    → Obeys lane_rules (Confirmed i) v (send_bundle crates i was_seen)
unfolding send_bundle
send_bundle-Obeys crates i v true h shown = (h, shown refl)
send_bundle-Obeys crates i v false h shown = (
  inl h,
  λ o.
      Obeys-after lane_rules (Confirmed i) _ _ _ (λ r e. sent-Stocked i v i.transaction_hash o h)
        (λ reply e. judge_bundle-Obeys i v o reply e (sent-Stocked i v i.transaction_hash o h)),
)

pub broadcast_bundle-Obeys :
    (crates : Crates) (i : PreparedBundleIntent) (v : View)
    → Stocked i v
    → Obeys lane_rules (Confirmed i) v (broadcast_bundle crates i)
unfolding broadcast_bundle
broadcast_bundle-Obeys crates i v h =
    Obeys-after lane_rules (Confirmed i) _ _ _ (λ r e. h)
      (λ raw e. (
        tt,
        λ o.
            Obeys-after lane_rules (Confirmed i) _ _ _
              (λ r e. seen-Stocked i v i.transaction_hash o h)
              (λ was_seen e.
                send_bundle-Obeys crates i (remember v (check_broadcast_seen i.transaction_hash) o)
                  was_seen (seen-Stocked i v i.transaction_hash o h)
                  (λ is_true. seen-shown v i.transaction_hash o (e ∙ ap ok is_true))),
      ))
