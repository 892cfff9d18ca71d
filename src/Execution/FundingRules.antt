-- ===== src/Execution/FundingRules.antt =====
-- vela-relay-core/src/execution.rs: what the treasury's part of the program may ask, and that it
-- asks no more.
use vela_relay.Prelude.{◌≡◌, ◌⊎◌, Bool, true, false, Option, none, some, List, [], ◌∷◌, arith}
use vela_relay.Prelude.Result.{Result, ok, err}
use vela_relay.Prelude.Text.{Text}
use vela_relay.Execution.Operation.{
  SignedBundle, Operation, Outcome, funding_intent, saved, signed, lease_held, lease_acquired,
  failed_with, interrupted, load_prepared_funding, save_funding_intent, acquire_treasury_lease,
  release_treasury_lease, ensure_treasury_lease_held, sign_treasury_transfer,
  sign_treasury_path_usd, clear_funding_intent, broadcast_raw, check_chain_supported,
  load_chain_assets, load_records, dead_letter_routed, restore_queued, reload_record, mark_admitted,
  mark_rejected, mark_rejected_with_reason, defer_operation, acquire_lane_lease,
  ensure_lane_lease_held, load_prepared_bundle, resume_bundle_intent, simulate_individually,
  fetch_account_nonces, simulate_bundle_of, fetch_transaction_context, sign_bundle,
  save_prepared_bundle, probe_stale_nonce, clear_stale_intent, mark_bundle_submitted,
  fetch_tempo_context, sign_tempo_bundle,
}
use vela_relay.Execution.Program.{answered}
use vela_relay.Execution.Discipline.{Discipline}
use vela_relay.Execution.Readings.{
  read_funding, read_held, read_signed, read_saved, read_unless_failed,
}
use vela_relay.Task.Prepared.{PreparedFundingIntent}

-- What a run has shown of the treasury: whether its lease is owned, whether the last answer was
-- that the lease is held, whether no transfer is stored, the hash that was signed last, the hash
-- that is known to be stored, where there is one, and whether a transfer was cleared. The store has
-- a place for one transfer. What was asked to be cleared is not known to be stored any more,
-- whatever was answered, and nothing is after the lease is given back.
pub record Funds : Type 0 where
  pub owned : Bool
  pub held : Bool
  pub unfunded : Bool
  pub signed_hash : Option Text
  pub stored : List Text
  pub cleared : Bool

abbrev pub Stored : Text → List Text → Type 0
Stored hash [] = ⊥
Stored hash (h ∷ hs) = (hash ≡ h) ⊎ Stored hash hs

unfoldable pub acquired : Funds → Outcome → Funds
acquired m (lease_acquired true) = record m { owned = true; held = false }
acquired m _ = record m { held = false }

unfoldable pub confirmed : Funds → Outcome → Funds
confirmed m (lease_held true) = record m { held = true }
confirmed m _ = record m { held = false }

unfoldable pub loaded : Funds → Outcome → Funds
loaded m (funding_intent (some i)) = record m {
  held = false;
  unfunded = false;
  stored = i.transaction_hash ∷ [];
}
loaded m (funding_intent none) = record m { held = false; unfunded = true; stored = [] }
loaded m _ = record m { held = false }

unfoldable pub has_signed : Funds → Outcome → Funds
has_signed m (signed s) = record m { held = false; signed_hash = some s.transaction_hash }
has_signed m _ = record m { held = false }

unfoldable pub has_saved : Funds → PreparedFundingIntent → Outcome → Funds
has_saved m i (saved true) = record m {
  held = false;
  unfunded = false;
  stored = i.transaction_hash ∷ [];
}
has_saved m i _ = record m { held = false }

unfoldable pub has_cleared : Funds → Outcome → Funds
has_cleared m (failed_with _) = record m { held = false; stored = [] }
has_cleared m (interrupted _) = record m { held = false; stored = [] }
has_cleared m _ = record m { held = false; stored = []; cleared = true }

abbrev pub given_back : Funds → Funds
given_back m = record m { owned = false; held = false; unfunded = false; stored = [] }

abbrev pub remember : Funds → Operation → Outcome → Funds
remember m acquire_treasury_lease o = acquired m o
remember m release_treasury_lease o = given_back m
remember m ensure_treasury_lease_held o = confirmed m o
remember m load_prepared_funding o = loaded m o
remember m (sign_treasury_transfer _) o = has_signed m o
remember m (sign_treasury_path_usd _) o = has_signed m o
remember m (save_funding_intent i) o = has_saved m i o
remember m (clear_funding_intent _) o = has_cleared m o
remember m _ o = record m { held = false }

-- The treasury is asked under its lease only. A transfer is signed and stored right after the lease
-- was confirmed, signed only where none is stored, and stored only as it was signed; what is sent or
-- cleared is stored, and was not cleared before. Nothing of the lane is asked.
abbrev pub MayAsk : Funds → Operation → Type 0
MayAsk m release_treasury_lease = m.owned ≡ true
MayAsk m load_prepared_funding = m.owned ≡ true
MayAsk m (sign_treasury_transfer _) = (m.owned ≡ true) × (m.held ≡ true) × (m.unfunded ≡ true)
MayAsk m (sign_treasury_path_usd _) = (m.owned ≡ true) × (m.held ≡ true) × (m.unfunded ≡ true)
MayAsk m (save_funding_intent i) =
    (m.owned ≡ true) × (m.held ≡ true) × (m.signed_hash ≡ some i.transaction_hash)
MayAsk m (clear_funding_intent hash) = (m.owned ≡ true) × Stored hash m.stored
MayAsk m (broadcast_raw _ hash) = (m.owned ≡ true) × Stored hash m.stored
MayAsk m check_chain_supported = ⊥
MayAsk m load_chain_assets = ⊥
MayAsk m (load_records _) = ⊥
MayAsk m (dead_letter_routed _ _) = ⊥
MayAsk m (restore_queued _ _) = ⊥
MayAsk m (reload_record _) = ⊥
MayAsk m (mark_admitted _) = ⊥
MayAsk m (mark_rejected _ _) = ⊥
MayAsk m (mark_rejected_with_reason _ _ _ _) = ⊥
MayAsk m (defer_operation _ _) = ⊥
MayAsk m acquire_lane_lease = ⊥
MayAsk m ensure_lane_lease_held = ⊥
MayAsk m load_prepared_bundle = ⊥
MayAsk m (resume_bundle_intent _) = ⊥
MayAsk m (simulate_individually _ _) = ⊥
MayAsk m (fetch_account_nonces _ _) = ⊥
MayAsk m (simulate_bundle_of _ _) = ⊥
MayAsk m (fetch_transaction_context _ _) = ⊥
MayAsk m (sign_bundle _) = ⊥
MayAsk m (save_prepared_bundle _) = ⊥
MayAsk m (probe_stale_nonce _) = ⊥
MayAsk m (clear_stale_intent _ _) = ⊥
MayAsk m (mark_bundle_submitted _ _) = ⊥
MayAsk m fetch_tempo_context = ⊥
MayAsk m (sign_tempo_bundle _) = ⊥
MayAsk m _ = Unit

abbrev pub treasury_rules : Discipline
treasury_rules = record { Memory = Funds; remember = remember; Allowed = MayAsk }

-- The lease is owned, and the transfer is stored.
abbrev pub Holding : PreparedFundingIntent → Funds → Type 0
Holding intent m = (m.owned ≡ true) × Stored intent.transaction_hash m.stored

-- A program that goes on leaves the transfer stored.
abbrev pub Holds : PreparedFundingIntent → {A : Type 0} → Funds → Result Text A → Type 0
Holds intent m (ok _) = Holding intent m
Holds intent m (err _) = m.owned ≡ true

abbrev pub Owned : {A : Type 0} → Funds → A → Type 0
Owned m a = m.owned ≡ true

-- A program that gives a result has cleared the transfer.
abbrev pub Settled : {A : Type 0} → Funds → Result Text A → Type 0
Settled m (ok _) = (m.owned ≡ true) × (m.cleared ≡ true)
Settled m (err _) = m.owned ≡ true

-- The lease is owned at the end, and a transfer was cleared where the relayer is said to be ready.
abbrev pub Funded : Funds → Result Text Bool → Type 0
Funded m (ok true) = (m.owned ≡ true) × (m.cleared ≡ true)
Funded m (ok false) = m.owned ≡ true
Funded m (err _) = m.owned ≡ true

pub Holding-Holds :
    {A : Type 0} (intent : PreparedFundingIntent) (m : Funds) (r : Result Text A)
    → Holding intent m
    → Holds intent m r
Holding-Holds intent m (ok a) h = h
Holding-Holds intent m (err reason) h = h.0

pub Holds-Owned :
    {A : Type 0} (intent : PreparedFundingIntent) (m : Funds) (r : Result Text A)
    → Holds intent m r
    → Owned m r
Holds-Owned intent m (ok a) h = h.0
Holds-Owned intent m (err reason) h = h

pub Settled-Owned : {A : Type 0} (m : Funds) (r : Result Text A) → Settled m r → Owned m r
Settled-Owned m (ok a) h = h.0
Settled-Owned m (err reason) h = h

pub confirmed-owned : (m : Funds) (o : Outcome) → (confirmed m o).owned ≡ m.owned
unfolding confirmed
confirmed-owned m o = ground arith

pub loaded-owned : (m : Funds) (o : Outcome) → (loaded m o).owned ≡ m.owned
unfolding loaded
loaded-owned m o = ground arith

pub has_signed-owned : (m : Funds) (o : Outcome) → (has_signed m o).owned ≡ m.owned
unfolding has_signed
has_signed-owned m o = ground arith

pub has_saved-owned :
    (m : Funds) (i : PreparedFundingIntent) (o : Outcome) → (has_saved m i o).owned ≡ m.owned
unfolding has_saved
has_saved-owned m i o = ground arith

pub has_cleared-owned : (m : Funds) (o : Outcome) → (has_cleared m o).owned ≡ m.owned
unfolding has_cleared
has_cleared-owned m o = ground arith

-- What the program goes on with is what the shell answered.
pub loaded-some :
    (m : Funds) (o : Outcome) {i : PreparedFundingIntent}
    → answered read_funding o ≡ ok (some i)
    → (loaded m o).stored ≡ i.transaction_hash ∷ []
unfolding read_funding loaded
loaded-some m o h = ground arith

pub loaded-none :
    (m : Funds) (o : Outcome) → answered read_funding o ≡ ok none → (loaded m o).unfunded ≡ true
unfolding read_funding loaded
loaded-none m o h = ground arith

pub confirmed-held :
    (m : Funds) (o : Outcome) → answered read_held o ≡ ok tt → (confirmed m o).held ≡ true
unfolding read_held confirmed
confirmed-held m o h = ground arith

pub confirmed-unfunded :
    (m : Funds) (o : Outcome)
    → ((confirmed m o).unfunded ≡ m.unfunded) × ((confirmed m o).signed_hash ≡ m.signed_hash)
unfolding confirmed
confirmed-unfunded m o = ground arith

pub has_signed-hash :
    (m : Funds) (o : Outcome) {s : SignedBundle}
    → answered read_signed o ≡ ok s
    → (has_signed m o).signed_hash ≡ some s.transaction_hash
unfolding read_signed has_signed
has_signed-hash m o h = ground arith

pub has_saved-stored :
    (m : Funds) (i : PreparedFundingIntent) (o : Outcome)
    → answered read_saved o ≡ ok true
    → Stored i.transaction_hash (has_saved m i o).stored
unfolding read_saved has_saved
has_saved-stored m i o h = ground arith

pub has_cleared-cleared :
    (m : Funds) (o : Outcome)
    → answered read_unless_failed o ≡ ok tt
    → (has_cleared m o).cleared ≡ true
unfolding read_unless_failed has_cleared
has_cleared-cleared m o h = ground arith
