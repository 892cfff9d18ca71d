-- ===== src/Execution/FundingSafety.antt =====
-- vela-relay-core/src/execution.rs: a top-up keeps the rules, from the lease to its release.
use vela_relay.Prelude.{ℕ, ◌≡◌, ◌∙◌, refl, Bool, true, false, Option, none, some, [], ltb}
use vela_relay.Prelude.Result.{Result, ok, err}
use vela_relay.Prelude.Text.{Text, codes}
use vela_relay.Task.Prepared.{PreparedFundingIntent}
use vela_relay.Funding.{NativeTopUpRequest, native_top_up_gas_limit}
use vela_relay.Execution.Operation.{Outcome}
use vela_relay.Execution.Program.{Fallible, answered, Shell, run}
use vela_relay.Execution.Readings.{read_funding}
use vela_relay.Execution.Discipline.{
  Obeys, Obeys-after, Obeys->>=, Obeys-if, Respects, recall, run-Respects,
}
use vela_relay.Execution.Sending.{Crates}
use vela_relay.Execution.Funding.{
  ExecutionPolicy, resume_pending, native_transfer, affordable_or_short, note_partial,
  fresh_native_top_up, native_funding_locked, ensure_native_funding,
}
use vela_relay.Execution.FundingRules.{
  given_back, Funded, Funds, treasury_rules, loaded, loaded-owned, loaded-none,
}
use vela_relay.Execution.SigningSafety.{stored_then-Obeys, sign_and_send-Obeys}
use vela_relay.Execution.LeaseSafety.{unseen, under_treasury_lease-Obeys}

-- The lease is owned, and no transfer is stored.
abbrev pub Unfunded : {A : Type 0} → Funds → A → Type 0
Unfunded m a = (m.owned ≡ true) × (m.unfunded ≡ true)

affordable_or_short-Obeys :
    (m : Funds) (plan : NativeTopUpRequest) (balance protected cost : ℕ) (amount : Option ℕ)
    → Unfunded m tt
    → Obeys treasury_rules Unfunded m (affordable_or_short plan balance protected cost amount)
unfolding affordable_or_short
affordable_or_short-Obeys m plan balance protected cost (some amount) h = h
affordable_or_short-Obeys m plan balance protected cost none h =
    Obeys-after treasury_rules Unfunded _ _ _ (λ r e. h)
      (λ required e. (tt, λ o. Obeys-after treasury_rules Unfunded _ _ _ (λ r e. h) (λ u e. h)))

note_partial-Obeys :
    (m : Funds) (plan : NativeTopUpRequest) (amount : ℕ)
    → Unfunded m tt
    → Obeys treasury_rules Unfunded m (note_partial plan amount)
unfolding note_partial
note_partial-Obeys m plan amount h =
    Obeys-if treasury_rules Unfunded m (ltb amount plan.amount_capped) _ _ (tt, λ o. h) h

fresh_native_top_up-Obeys :
    (crates : Crates) (policy : ExecutionPolicy) (m : Funds)
    (chain_id balance prefund max_fee tip cap : ℕ)
    → Unfunded m tt
    → Obeys treasury_rules Funded m
        (fresh_native_top_up crates policy chain_id balance prefund max_fee tip cap)
unfolding fresh_native_top_up
fresh_native_top_up-Obeys crates policy m chain_id balance prefund max_fee tip cap h =
    Obeys-after treasury_rules Funded _ _ _ (λ r e. h.0)
      (λ plan e. (
        tt,
        λ o.
            Obeys-after treasury_rules Funded _ _ _ (λ r e. h.0)
              (λ context e.
                Obeys-after treasury_rules Funded _ _ _ (λ r e. h.0)
                  (λ protected e.
                    Obeys->>= treasury_rules Funded Unfunded _ _ _
                      (affordable_or_short-Obeys _ plan _ protected _ _ h) (λ m r h. h.0)
                      (λ m amount h.
                        Obeys->>= treasury_rules Funded Unfunded _ _ _
                          (note_partial-Obeys m plan amount h) (λ m r h. h.0)
                          (λ m u h.
                            Obeys-after treasury_rules Funded _ _ _ (λ r e. h.0)
                              (λ amount_u128 e.
                                sign_and_send-Obeys crates policy m chain_id
                                  (native_transfer (record {
                                    nonce = context.0;
                                    gas_limit = native_top_up_gas_limit context.2;
                                    amount = amount;
                                    max_fee_per_gas = max_fee;
                                    max_priority_fee_per_gas = tip;
                                  }))
                                  amount_u128 false
                                  (codes "another treasury relayer top-up is pending") h.0 h.1))))),
      ))

pub loaded_then-Obeys :
    (crates : Crates) (m : Funds) (o : Outcome) (fresh : Fallible Bool)
    (stored : Option PreparedFundingIntent)
    → m.owned ≡ true
    → answered read_funding o ≡ ok stored
    → ((m' : Funds) → Unfunded m' tt → Obeys treasury_rules Funded m' fresh)
    → Obeys treasury_rules Funded
        (loaded m o)
        (elim stored [ some intent ↦ resume_pending crates intent | none ↦ fresh ])
loaded_then-Obeys crates m o fresh none own e goes =
    goes (loaded m o) (loaded-owned m o ∙ own, loaded-none m o e)
loaded_then-Obeys crates m o fresh (some i) own e goes = stored_then-Obeys crates m i o own e

native_funding_locked-Obeys :
    (crates : Crates) (policy : ExecutionPolicy) (m : Funds)
    (chain_id balance prefund max_fee tip cap : ℕ)
    → m.owned ≡ true
    → Obeys treasury_rules Funded m
        (native_funding_locked crates policy chain_id balance prefund max_fee tip cap)
unfolding native_funding_locked
native_funding_locked-Obeys crates policy m chain_id balance prefund max_fee tip cap own = (
  own,
  λ o.
      Obeys-after treasury_rules Funded _ _ _ (λ r e. loaded-owned m o ∙ own)
        (λ stored e. loaded_then-Obeys crates m o _ stored own e (λ m' h.
          fresh_native_top_up-Obeys crates policy m' chain_id balance prefund max_fee tip cap h)),
)

-- At the end the lease is not owned any more, and a transfer was cleared where the relayer is said
-- to be ready.
abbrev pub Released : Funds → Result Text Bool → Type 0
Released m (ok true) = (m.owned ≡ false) × (m.cleared ≡ true)
Released m (ok false) = m.owned ≡ false
Released m (err _) = m.owned ≡ false

Funded-leave :
    (m : Funds) (r : Result Text Bool) → Funded m r → (m.owned ≡ true) × Released (given_back m) r
Funded-leave m (ok true) h = (h.0, (refl, h.1))
Funded-leave m (ok false) h = (h, refl)
Funded-leave m (err reason) h = (h, refl)

pub ensure_native_funding-Obeys :
    (crates : Crates) (policy : ExecutionPolicy) (m : Funds)
    (chain_id balance prefund max_fee tip cap : ℕ)
    → m.owned ≡ false
    → Obeys treasury_rules Released m
        (ensure_native_funding crates policy chain_id balance prefund max_fee tip cap)
unfolding ensure_native_funding
ensure_native_funding-Obeys crates policy m chain_id balance prefund max_fee tip cap free =
    under_treasury_lease-Obeys Funded Released Funded-leave (λ m h. h) (λ m r h. h) m
      (native_funding_locked crates policy chain_id balance prefund max_fee tip cap) free
      (λ m own.
        native_funding_locked-Obeys crates policy m chain_id balance prefund max_fee tip cap own)

-- Against any shell, each step of a native top-up is one that `treasury_rules` allows after the
-- ones before it: the treasury's stored transfer is read, and a transfer sent or cleared, only
-- while its lease is owned; a transfer is signed only right after the lease was confirmed, where
-- the last read found none stored and none was stored since, and is stored only right after
-- another confirmation and under the hash that was signed last; what is sent or cleared was, under
-- the lease, the last to be read from the store or stored, and was not asked to be cleared since.
-- At the end the lease is given back, and a relayer that is said to be ready has had a transfer
-- cleared.
pub ensure_native_funding-Respects :
    (crates : Crates) (policy : ExecutionPolicy) (chain_id balance prefund max_fee tip cap : ℕ)
    (shell : Shell)
    → Respects treasury_rules unseen
        (run shell []
          (ensure_native_funding crates policy chain_id balance prefund max_fee tip cap)).1
      × Released
          (recall treasury_rules unseen
            (run shell []
              (ensure_native_funding crates policy chain_id balance prefund max_fee tip cap)).1)
          (run shell []
            (ensure_native_funding crates policy chain_id balance prefund max_fee tip cap)).0
ensure_native_funding-Respects crates policy chain_id balance prefund max_fee tip cap shell =
    run-Respects treasury_rules Released shell [] unseen
      (ensure_native_funding crates policy chain_id balance prefund max_fee tip cap)
      (ensure_native_funding-Obeys crates policy unseen chain_id balance prefund max_fee tip cap
        refl)
