-- ===== src/Execution/TempoSafety.antt =====
-- vela-relay-core/src/execution.rs: a top-up in pathUSD keeps the rules, too.
use vela_relay.Prelude.{ℕ, ◌≡◌, ◌∙◌, refl, Bool, true, false, Option, none, some, [], ltb}
use vela_relay.Prelude.Result.{Result, ok, err}
use vela_relay.Prelude.Text.{Text, codes}
use vela_relay.Task.Prepared.{PreparedFundingIntent}
use vela_relay.Execution.Operation.{Outcome}
use vela_relay.Execution.Program.{Fallible, answered, Shell, run}
use vela_relay.Execution.Readings.{read_funding}
use vela_relay.Execution.Discipline.{
  Obeys, Obeys-after, Obeys->>=, Obeys-if, Obeys-weaken, Obeys-option, Respects, recall,
  run-Respects,
}
use vela_relay.Execution.Sending.{Crates}
use vela_relay.Execution.Funding.{ExecutionPolicy, resume_pending, path_usd_transfer}
use vela_relay.Execution.FundingRules.{
  Owned, Funded, Funds, treasury_rules, loaded, loaded-owned, loaded-none,
}
use vela_relay.Execution.SigningSafety.{stored_then-Obeys, sign_and_send-Obeys}
use vela_relay.Execution.FundingSafety.{Unfunded}
use vela_relay.Execution.TempoFunding.{
  refuse_short, tempo_top_up, fresh_tempo_top_up, tempo_funding_locked, ensure_tempo_funding,
}
use vela_relay.Execution.LeaseSafety.{unseen, under_treasury_lease-Obeys}

refuse_short-Obeys :
    (m : Funds) (balance required amount gas_limit cost : ℕ)
    → Unfunded m tt
    → Obeys treasury_rules Unfunded m (refuse_short balance required amount gas_limit cost)
unfolding refuse_short
refuse_short-Obeys m balance required amount gas_limit cost h =
    Obeys-if treasury_rules Unfunded m (ltb balance required) _ _
      (tt, λ o. Obeys-after treasury_rules Unfunded _ _ _ (λ r e. h) (λ u e. h)) h

tempo_top_up-Obeys :
    (crates : Crates) (policy : ExecutionPolicy) (m : Funds) (chain_id max_fee amount : ℕ)
    → Unfunded m tt
    → Obeys treasury_rules Funded m (tempo_top_up crates policy chain_id max_fee amount)
unfolding tempo_top_up
tempo_top_up-Obeys crates policy m chain_id max_fee amount h =
    Obeys-after treasury_rules Funded _ _ _ (λ r e. h.0)
      (λ amount_u128 e. (
        tt,
        λ o.
            Obeys-after treasury_rules Funded _ _ _ (λ r e. h.0)
              (λ context e.
                Obeys-after treasury_rules Funded _ _ _ (λ r e. h.0)
                  (λ gas_limit e.
                    Obeys-after treasury_rules Funded _ _ _ (λ r e. h.0)
                      (λ cost e.
                        Obeys-after treasury_rules Funded _ _ _ (λ r e. h.0)
                          (λ required e.
                            Obeys->>= treasury_rules Funded Unfunded _ _ _
                              (refuse_short-Obeys _ _ required amount gas_limit cost h)
                              (λ m r h. h.0)
                              (λ m u h.
                                sign_and_send-Obeys crates policy m chain_id
                                  (path_usd_transfer (record {
                                    nonce = context.0;
                                    gas_limit = gas_limit;
                                    max_fee_per_gas = max_fee;
                                    amount = amount;
                                  }))
                                  amount_u128 true
                                  (codes "another Tempo treasury relayer top-up is pending") h.0
                                  h.1))))),
      ))

Funded-Owned : (m : Funds) (r : Result Text Bool) → Funded m r → Owned m r
Funded-Owned m (ok true) h = h.0
Funded-Owned m (ok false) h = h
Funded-Owned m (err reason) h = h

fresh_tempo_top_up-Obeys :
    (crates : Crates) (policy : ExecutionPolicy) (m : Funds) (chain_id balance prefund max_fee : ℕ)
    → Unfunded m tt
    → Obeys treasury_rules Owned m
        (fresh_tempo_top_up crates policy chain_id balance prefund max_fee)
unfolding fresh_tempo_top_up
fresh_tempo_top_up-Obeys crates policy m chain_id balance prefund max_fee h =
    Obeys-after treasury_rules Owned _ _ _ (λ r e. h.0)
      (λ plan e. Obeys-option treasury_rules Owned m plan _ _ h.0 (λ amount.
        Obeys-weaken treasury_rules Funded Owned Funded-Owned m _
          (tempo_top_up-Obeys crates policy m chain_id max_fee amount h)))

loaded_tempo-Obeys :
    (crates : Crates) (m : Funds) (o : Outcome) (fresh : Fallible Bool)
    (stored : Option PreparedFundingIntent)
    → m.owned ≡ true
    → answered read_funding o ≡ ok stored
    → ((m' : Funds) → Unfunded m' tt → Obeys treasury_rules Owned m' fresh)
    → Obeys treasury_rules Owned
        (loaded m o)
        (elim stored [ some intent ↦ resume_pending crates intent | none ↦ fresh ])
loaded_tempo-Obeys crates m o fresh none own e goes =
    goes (loaded m o) (loaded-owned m o ∙ own, loaded-none m o e)
loaded_tempo-Obeys crates m o fresh (some i) own e goes =
    Obeys-weaken treasury_rules Funded Owned Funded-Owned (loaded m o) _
      (stored_then-Obeys crates m i o own e)

tempo_funding_locked-Obeys :
    (crates : Crates) (policy : ExecutionPolicy) (m : Funds) (chain_id balance prefund max_fee : ℕ)
    → m.owned ≡ true
    → Obeys treasury_rules Owned m
        (tempo_funding_locked crates policy chain_id balance prefund max_fee)
unfolding tempo_funding_locked
tempo_funding_locked-Obeys crates policy m chain_id balance prefund max_fee own = (
  own,
  λ o.
      Obeys-after treasury_rules Owned _ _ _ (λ r e. loaded-owned m o ∙ own)
        (λ stored e.
          loaded_tempo-Obeys crates m o _ stored own e
            (λ m' h. fresh_tempo_top_up-Obeys crates policy m' chain_id balance prefund max_fee h)),
)

abbrev pub GivenBack : {A : Type 0} → Funds → A → Type 0
GivenBack m a = m.owned ≡ false

pub ensure_tempo_funding-Obeys :
    (crates : Crates) (policy : ExecutionPolicy) (m : Funds) (chain_id balance prefund max_fee : ℕ)
    → m.owned ≡ false
    → Obeys treasury_rules GivenBack m
        (ensure_tempo_funding crates policy chain_id balance prefund max_fee)
unfolding ensure_tempo_funding
ensure_tempo_funding-Obeys crates policy m chain_id balance prefund max_fee free =
    under_treasury_lease-Obeys Owned GivenBack (λ m r h. (h, refl)) (λ m h. h) (λ m r h. h) m
      (tempo_funding_locked crates policy chain_id balance prefund max_fee) free
      (λ m own. tempo_funding_locked-Obeys crates policy m chain_id balance prefund max_fee own)

-- Against any shell, each step of a Tempo top-up is one that `treasury_rules` allows after the
-- ones before it, and at the end the lease is given back.
pub ensure_tempo_funding-Respects :
    (crates : Crates) (policy : ExecutionPolicy) (chain_id balance prefund max_fee : ℕ)
    (shell : Shell)
    → Respects treasury_rules unseen
        (run shell [] (ensure_tempo_funding crates policy chain_id balance prefund max_fee)).1
      × ((recall treasury_rules unseen
            (run shell []
              (ensure_tempo_funding crates policy chain_id balance prefund max_fee)).1).owned
          ≡ false)
ensure_tempo_funding-Respects crates policy chain_id balance prefund max_fee shell =
    run-Respects treasury_rules GivenBack shell [] unseen
      (ensure_tempo_funding crates policy chain_id balance prefund max_fee)
      (ensure_tempo_funding-Obeys crates policy unseen chain_id balance prefund max_fee refl)
