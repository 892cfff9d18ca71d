-- ===== src/Execution/LaneRules.antt =====
-- vela-relay-core/src/execution.rs: what a batch of a lane may ask, and how its slots are kept.
use vela_relay.Prelude.{
  ℕ, ◌+◌, ◌≤◌, ◌≡◌, ◌⊎◌, Bool, true, false, Option, none, some, List, ◌∷◌, length,
}
use vela_relay.Prelude.Text.{Text, eq_ignore_ascii_case}
use vela_relay.Task.Prepared.{PreparedBundleIntent}
use vela_relay.Execution.Operation.{
  Outcome, BundleSignRequest, lease_acquired, lease_held, intent, context, signed, saved, seen,
  sent, accepted_as, known, Operation, acquire_lane_lease, ensure_lane_lease_held,
  load_prepared_bundle, resume_bundle_intent, fetch_transaction_context, acquire_treasury_lease,
  ensure_treasury_lease_held, release_treasury_lease, load_prepared_funding, save_funding_intent,
  clear_funding_intent, sign_treasury_transfer, sign_treasury_path_usd, sign_bundle,
  save_prepared_bundle, check_broadcast_seen, broadcast_raw, probe_transaction_known,
  probe_stale_nonce, clear_stale_intent, mark_bundle_submitted, sign_tempo_bundle,
}
use vela_relay.Execution.Discipline.{Discipline}
use vela_relay.Execution.FundingRules.{Funds, Stored}
use vela_relay.Execution.FundingRules
use vela_relay.Execution.Results.{Results}

-- What a run has shown of the lane: whether its lease was acquired, whether the last answer was that
-- the lease is held, whether no bundle is prepared, the hash that was signed last, the hashes that
-- are known to be stored, those that a node or the relay was seen to hold, the base fee that was
-- read, and what was shown of the treasury.
pub record View : Type 0 where
  pub owned : Bool
  pub held : Bool
  pub unprepared : Bool
  pub signed_hash : Option Text
  pub stored : List Text
  pub shown : List Text
  pub base_fee : Option ℕ
  pub funds : Funds

unfoldable pub lane_owned : View → Outcome → View
lane_owned v (lease_acquired true) = record v { owned = true; held = false }
lane_owned v _ = record v { held = false }

unfoldable pub lane_confirmed : View → Outcome → View
lane_confirmed v (lease_held true) = record v { held = true }
lane_confirmed v _ = record v { held = false }

unfoldable pub bundle_loaded : View → Outcome → View
bundle_loaded v (intent (some i)) = record v {
  held = false;
  unprepared = false;
  stored = i.transaction_hash ∷ v.stored;
}
bundle_loaded v (intent none) = record v { held = false; unprepared = true }
bundle_loaded v _ = record v { held = false }

unfoldable pub bundle_signed : View → Outcome → View
bundle_signed v (signed s) = record v { held = false; signed_hash = some s.transaction_hash }
bundle_signed v _ = record v { held = false }

unfoldable pub bundle_saved : View → PreparedBundleIntent → Outcome → View
bundle_saved v i (saved true) = record v {
  held = false;
  unprepared = false;
  stored = i.transaction_hash ∷ v.stored;
}
bundle_saved v i _ = record v { held = false }

unfoldable pub context_read : View → Outcome → View
context_read v (context c) = record v { held = false; base_fee = some c.base_fee_per_gas }
context_read v _ = record v { held = false }

show_hash : View → Text → Bool → View
show_hash v hash true = record v { held = false; shown = hash ∷ v.shown }
show_hash v hash false = record v { held = false }

unfoldable pub hash_seen : View → Text → Outcome → View
unfolding show_hash
hash_seen v hash (seen b) = show_hash v hash b
hash_seen v hash _ = record v { held = false }

unfoldable pub hash_sent : View → Text → Outcome → View
unfolding show_hash
hash_sent v hash (sent (accepted_as h)) = show_hash v hash (eq_ignore_ascii_case h hash)
hash_sent v hash _ = record v { held = false }

unfoldable pub hash_known : View → Text → Outcome → View
unfolding show_hash
hash_known v hash (known b) = show_hash v hash b
hash_known v hash _ = record v { held = false }

abbrev pub note : View → Operation → Outcome → View
note v acquire_lane_lease o = lane_owned v o
note v ensure_lane_lease_held o = lane_confirmed v o
note v load_prepared_bundle o = bundle_loaded v o
note v (sign_bundle _) o = bundle_signed v o
note v (sign_tempo_bundle _) o = bundle_signed v o
note v (save_prepared_bundle i) o = bundle_saved v i o
note v (fetch_transaction_context _ _) o = context_read v o
note v (check_broadcast_seen hash) o = hash_seen v hash o
note v (broadcast_raw _ hash) o = hash_sent v hash o
note v (probe_transaction_known hash) o = hash_known v hash o
note v _ o = record v { held = false }

abbrev pub remember : View → Operation → Outcome → View
remember v operation o = record (note v operation o) {
  funds = FundingRules.remember v.funds operation o;
}

-- At the base fee that was read, the cap carries the whole tip, where there is one.
abbrev pub Carries : BundleSignRequest → Option ℕ → Type 0
Carries r none = ⊥
Carries r (some base_fee) =
    (r.max_priority_fee_per_gas ≡ 0) ⊎ (base_fee + r.max_priority_fee_per_gas ≤ r.max_fee_per_gas)

-- The lane's bundle is read, signed, stored, sent and marked under its lease only. One is signed
-- right after the lease was confirmed, when none is prepared, at a cap that carries its tip; it is
-- stored only right after another confirmation and as it was signed; what is sent, marked, resumed
-- or cleared is stored, and what is marked submitted was shown to be held by a node. The treasury
-- is asked what `treasury_rules` allow.
abbrev pub MayAsk : View → Operation → Type 0
MayAsk v ensure_lane_lease_held = v.owned ≡ true
MayAsk v load_prepared_bundle = v.owned ≡ true
MayAsk v (sign_bundle r) =
    (v.owned ≡ true) × (v.held ≡ true) × (v.unprepared ≡ true) × Carries r v.base_fee
MayAsk v (sign_tempo_bundle _) = (v.owned ≡ true) × (v.held ≡ true) × (v.unprepared ≡ true)
MayAsk v (save_prepared_bundle i) =
    (v.owned ≡ true) × (v.held ≡ true) × (v.signed_hash ≡ some i.transaction_hash)
MayAsk v (resume_bundle_intent i) = (v.owned ≡ true) × Stored i.transaction_hash v.stored
MayAsk v (probe_stale_nonce i) = (v.owned ≡ true) × Stored i.transaction_hash v.stored
MayAsk v (clear_stale_intent i _) = (v.owned ≡ true) × Stored i.transaction_hash v.stored
MayAsk v (mark_bundle_submitted i _) =
    (v.owned ≡ true) × Stored i.transaction_hash v.stored × Stored i.transaction_hash v.shown
MayAsk v (broadcast_raw _ hash) =
    ((v.owned ≡ true) × Stored hash v.stored)
    ⊎ ((v.funds.owned ≡ true) × Stored hash v.funds.stored)
MayAsk v acquire_treasury_lease = FundingRules.MayAsk v.funds acquire_treasury_lease
MayAsk v ensure_treasury_lease_held = FundingRules.MayAsk v.funds ensure_treasury_lease_held
MayAsk v release_treasury_lease = FundingRules.MayAsk v.funds release_treasury_lease
MayAsk v load_prepared_funding = FundingRules.MayAsk v.funds load_prepared_funding
MayAsk v (save_funding_intent a) = FundingRules.MayAsk v.funds (save_funding_intent a)
MayAsk v (clear_funding_intent a) = FundingRules.MayAsk v.funds (clear_funding_intent a)
MayAsk v (sign_treasury_transfer a) = FundingRules.MayAsk v.funds (sign_treasury_transfer a)
MayAsk v (sign_treasury_path_usd a) = FundingRules.MayAsk v.funds (sign_treasury_path_usd a)
MayAsk v _ = Unit

abbrev pub lane_rules : Discipline
lane_rules = record { Memory = View; remember = remember; Allowed = MayAsk }

-- A view after a step that shows nothing of the lane.
abbrev pub quieted : View → View
quieted v = record v { held = false; funds = record v.funds { held = false } }

-- What the steps of the pipeline keep: the number of slots, whether the lane's lease is owned,
-- whether no bundle is prepared, and the base fee as it was read. The treasury's lease is not owned
-- between them.
pub record Kept : Type 0 where
  pub size : ℕ
  pub owned : Bool
  pub unprepared : Bool
  pub base_fee : Option ℕ

abbrev pub Holds : Kept → View → Results → Type 0
Holds k v slots =
    (v.owned ≡ k.owned)
    × (v.unprepared ≡ k.unprepared)
    × (v.funds.owned ≡ false)
    × (v.base_fee ≡ k.base_fee)
    × (length slots ≡ k.size)

abbrev pub Ready : Kept → {A : Type 0} → View → A × Results → Type 0
Ready k v x = Holds k v x.1

-- No slot is lost.
abbrev pub Complete : ℕ → {A : Type 0} → View → A × Results → Type 0
Complete n v x = length x.1 ≡ n
