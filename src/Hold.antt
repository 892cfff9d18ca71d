-- ===== src/Hold.antt =====
-- vela-relay-core/src/hold.rs: the delayed-inbox retry ladder and the settlement hold budget.
pub mod Ladder
use vela_relay.Prelude.{
  ℕ, zero, suc, ◌+◌, ◌-◌, ◌*◌, ◌/◌, Bool, true, false, ◌&&◌, List, [], ◌∷◌, ◌++◌, ltb, leb, min,
  if◌then◌else◌,
}
use vela_relay.Prelude.Words.{clamp, saturating_sub}
use vela_relay.Prelude.Text.{Text, codes, digits_of}

abbrev pub delayed_retry_base_ms : ℕ
delayed_retry_base_ms = 5_000

abbrev pub delayed_retry_max_ms : ℕ
delayed_retry_max_ms = 5 * 60 * 1_000

abbrev pub funding_wait_retry_max_ms : ℕ
funding_wait_retry_max_ms = 10_000

-- The `while` of `retry_delay_ms`: `remaining` falls by one in each round.
retry_loop : ℕ → ℕ → ℕ
retry_loop zero delay = delay
retry_loop (suc remaining) delay =
    let next = retry_loop remaining (min (delay * 2) delayed_retry_max_ms) in
    if ltb 1 (suc remaining) && ltb delay delayed_retry_max_ms then next else delay

unfoldable pub retry_delay_ms : ℕ → ℕ
unfolding retry_loop
retry_delay_ms attempt = retry_loop attempt delayed_retry_base_ms

unfoldable pub redelivery_delay_ms : ℕ → Bool → ℕ
redelivery_delay_ms age_ms waiting_on_funding =
    clamp (age_ms / 2) delayed_retry_base_ms
      (if waiting_on_funding then funding_wait_retry_max_ms else delayed_retry_max_ms)

-- The `for attempt in 1..` that ends at the cap, on fuel.
schedule_from : ℕ → ℕ → List ℕ
schedule_from zero attempt = []
schedule_from (suc fuel) attempt =
    let rest = schedule_from fuel (attempt + 1) in
    let delay = retry_delay_ms attempt in
    if leb delayed_retry_max_ms delay then delay ∷ [] else delay ∷ rest

-- The loop ends in its seventh round (`Hold.Ladder.schedule_ends`).
unfoldable pub retry_delay_schedule_ms : List ℕ
unfolding schedule_from retry_delay_ms
retry_delay_schedule_ms = schedule_from 7 1

-- settlement.rs, `settlement_hold_reason`
unfoldable pub settlement_hold_reason : ℕ → ℕ → ℕ → ℕ → Text
settlement_hold_reason paid required attempt max_attempts =
    codes "waiting for network fees to fit the signed in-band reimbursement: paid="
    ++ digits_of paid
    ++ codes ", required="
    ++ digits_of required
    ++ codes ", shortfall="
    ++ digits_of (saturating_sub required paid)
    ++ codes ", attempt="
    ++ digits_of attempt
    ++ codes "/"
    ++ digits_of max_attempts

pub data HoldDecision : Type 0 where
  hold : Text → HoldDecision
  reject_budget_exhausted : HoldDecision

unfoldable pub decide_hold : ℕ → ℕ → ℕ → ℕ → HoldDecision
decide_hold attempt max_attempts paid required =
    if ltb max_attempts attempt
    then reject_budget_exhausted
    else hold (settlement_hold_reason paid required attempt max_attempts)
