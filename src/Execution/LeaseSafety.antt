-- ===== src/Execution/LeaseSafety.antt =====
-- vela-relay-core/src/execution.rs: a top-up under the treasury's lease gives the lease back.
use vela_relay.Prelude.{◌≡◌, Bool, true, false, none, [], if◌then◌else◌, arith}
use vela_relay.Prelude.Result.{Result, ok, err}
use vela_relay.Prelude.Text.{Text}
use vela_relay.Execution.Operation.{Outcome, release_treasury_lease}
use vela_relay.Execution.Program.{done, ask, and_then, pure, Fallible, answered}
use vela_relay.Execution.Readings.{read_lease}
use vela_relay.Execution.Discipline.{Obeys, Obeys-after, Obeys-and_then}
use vela_relay.Execution.Funding.{under_treasury_lease}
use vela_relay.Execution.FundingRules.{given_back, Funds, treasury_rules, acquired}

-- A run starts with nothing seen.
abbrev pub unseen : Funds
unseen = record {
  owned = false;
  held = false;
  unfunded = false;
  signed_hash = none;
  stored = [];
  cleared = false;
}

acquired-true :
    (m : Funds) (o : Outcome) → answered read_lease o ≡ ok true → (acquired m o).owned ≡ true
unfolding read_lease acquired
acquired-true m o e = ground arith

acquired-false :
    (m : Funds) (o : Outcome)
    → m.owned ≡ false
    → answered read_lease o ≡ ok false
    → (acquired m o).owned ≡ false
unfolding read_lease acquired
acquired-false m o h e = ground arith

acquired-err :
    (m : Funds) (o : Outcome) (r : Text)
    → m.owned ≡ false
    → answered read_lease o ≡ err r
    → (acquired m o).owned ≡ false
unfolding read_lease acquired
acquired-err m o r h e = ground arith

-- What holds of a result under the lease, and what holds of it after the lease was given back.
module _ (Inside Outside : Funds → Result Text Bool → Type 0)
    (leave : (m : Funds) (r : Result Text Bool)
      → Inside m r
      → (m.owned ≡ true) × Outside (given_back m) r)
    (refuse : (m : Funds) → m.owned ≡ false → Outside m (ok false))
    (break : (m : Funds) (reason : Text) → m.owned ≡ false → Outside m (err reason)) where
  release-Obeys :
      (m : Funds) (r : Result Text Bool)
      → Inside m r
      → Obeys treasury_rules Outside m (ask release_treasury_lease (λ o. done r))
  release-Obeys m r h = let (own, out) = leave m r h in (own, λ o. out)

  owned_then-Obeys :
      (m : Funds) (o : Outcome) (funding : Fallible Bool) (owned : Bool)
      → m.owned ≡ false
      → answered read_lease o ≡ ok owned
      → ((m : Funds) → m.owned ≡ true → Obeys treasury_rules Inside m funding)
      → Obeys treasury_rules Outside (acquired m o) (
          if owned
          then and_then funding (λ result. ask release_treasury_lease (λ o. done result))
          else pure false)
  owned_then-Obeys m o funding true free e safe =
      Obeys-and_then treasury_rules Inside Outside _ funding _ (safe _ (acquired-true m o e))
        release-Obeys
  owned_then-Obeys m o funding false free e safe = refuse (acquired m o) (acquired-false m o free e)

  pub under_treasury_lease-Obeys :
      (m : Funds) (funding : Fallible Bool)
      → m.owned ≡ false
      → ((m : Funds) → m.owned ≡ true → Obeys treasury_rules Inside m funding)
      → Obeys treasury_rules Outside m (under_treasury_lease funding)
  unfolding under_treasury_lease
  under_treasury_lease-Obeys m funding free safe = (
    tt,
    λ o.
        Obeys-after treasury_rules Outside _ _ _
          (λ r e. break (acquired m o) r (acquired-err m o r free e))
          (λ owned e. owned_then-Obeys m o funding owned free e safe),
  )
