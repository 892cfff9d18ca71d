-- ===== src/Hold/Ladder.antt =====
-- vela-relay-core/src/hold.rs: the ladder as a closed form, and its table.
use native.Mathlib.Nat.{pow-suc, one-le-pow, pow-le-pow_right, mul-le-mul_left, mul-le-mul_right}
use vela_relay.Prelude.{
  ℕ, zero, suc, ◌-◌, ◌*◌, ◌^◌, ◌≤◌, ◌≡◌, inl, inr, refl, Bool, true, ltb, leb, min, some, arith,
  length, get_elem?, Bool-cases, ap, sym, ◌∙◌, if◌then◌else◌,
}
use vela_relay.Hold.{
  retry_loop, retry_delay_ms, retry_delay_schedule_ms, schedule_from, redelivery_delay_ms,
  delayed_retry_base_ms, delayed_retry_max_ms, funding_wait_retry_max_ms,
}

-- One round of the loop while a retry is left.
retry_loop_step :
    (remaining delay : ℕ)
    → retry_loop (suc (suc remaining)) delay ≡ (
        if ltb delay delayed_retry_max_ms
        then retry_loop (suc remaining) (min (delay * 2) delayed_retry_max_ms)
        else delay)
unfolding retry_loop
retry_loop_step remaining delay = ground arith

-- Capping before a product by `q` and after it is capping after it.
min-mul-min : (d q cap : ℕ) → 1 ≤ q → min (min d cap * q) cap ≡ min (d * q) cap
min-mul-min d q cap h = elim (Bool-cases (leb d cap)) [
  | inl below ↦ ap (λ m. min (m * q) cap) (let e : min d cap ≡ d = ground arith in e)
  | inr above ↦
      let e : min d cap ≡ cap = ground arith in
      let k : cap * q ≤ d * q = mul-le-mul_right q (ground arith) in
      let l : cap * 1 ≤ cap * q = mul-le-mul_left cap h in ap (λ m. min (m * q) cap) e ∙ omega arith
]

-- The loop from any delay that is not over the cap: the delay doubled once for each round that is
-- left, up to the cap.
retry_loop_lem :
    (remaining delay : ℕ)
    → delay ≤ delayed_retry_max_ms
    → retry_loop (suc remaining) delay ≡ min (delay * 2 ^ remaining) delayed_retry_max_ms
retry_loop_lem zero delay h = unfold retry_loop in omega arith
retry_loop_lem (suc remaining) delay h =
    let doubled : min (delay * 2) delayed_retry_max_ms ≤ delayed_retry_max_ms = omega arith in
    let q : 1 ≤ 2 ^ remaining = one-le-pow remaining 2 (omega arith) in
    let grown : delay * 1 ≤ delay * 2 ^ remaining = mul-le-mul_left delay q in
    elim (Bool-cases (ltb delay delayed_retry_max_ms)) [
      | inl below ↦
          retry_loop_step remaining delay
          ∙ rw (below, retry_loop_lem remaining (min (delay * 2) delayed_retry_max_ms) doubled)
              (min-mul-min (delay * 2) (2 ^ remaining) delayed_retry_max_ms q
                ∙ rw pow-suc (omega arith))
      | inr at_cap ↦
          let e : delay ≡ delayed_retry_max_ms = ground arith in
          retry_loop_step remaining delay ∙ rw at_cap (rw pow-suc (omega arith))
    ]

-- The wait before retry `attempt`, counted from 1, is the base doubled once for each attempt
-- before it, and never more than the cap.
pub retry_delay_ms_closed :
    (attempt : ℕ)
    → retry_delay_ms (suc attempt) ≡ min (delayed_retry_base_ms * 2 ^ attempt) delayed_retry_max_ms
unfolding retry_delay_ms
retry_delay_ms_closed attempt = retry_loop_lem attempt delayed_retry_base_ms (omega arith)

-- The wait stays within the band, and a later retry does not wait less.
pub retry_delay_ms_mono :
    (a b : ℕ)
    → a ≤ b
    → (delayed_retry_base_ms ≤ retry_delay_ms a)
      × (retry_delay_ms a ≤ retry_delay_ms b)
      × (retry_delay_ms b ≤ delayed_retry_max_ms)
retry_delay_ms_mono zero zero h = unfold retry_delay_ms in omega arith
retry_delay_ms_mono zero (suc b) h =
    let q : 1 ≤ 2 ^ b = one-le-pow b 2 (omega arith) in
    rw retry_delay_ms_closed (unfold retry_delay_ms in omega arith)
retry_delay_ms_mono (suc a) zero h = elim h [ ]
retry_delay_ms_mono (suc a) (suc b) h =
    let q : 1 ≤ 2 ^ a = one-le-pow a 2 (omega arith) in
    let m : 2 ^ a ≤ 2 ^ b = pow-le-pow_right {n = 2} (omega arith) (omega arith) in
    simp retry_delay_ms_closed (omega arith)

retry_delay_ms_capped :
    (n : ℕ) → retry_delay_ms (suc (suc (suc (suc (suc (suc (suc n))))))) ≡ delayed_retry_max_ms
retry_delay_ms_capped n =
    let m : 2 ^ 6 ≤ 2 ^ suc (suc (suc (suc (suc (suc n))))) =
      pow-le-pow_right {n = 2} (omega arith) {i = 6} (omega arith) in
    retry_delay_ms_closed (suc (suc (suc (suc (suc (suc n)))))) ∙ omega arith

past_the_end :
    (n : ℕ)
    → min (suc (suc (suc (suc (suc (suc (suc n))))))) (length retry_delay_schedule_ms) - 1 ≡ 6
unfolding retry_delay_schedule_ms
past_the_end n = omega arith

-- The retry table is the ladder: the table's entry for an attempt, or its last entry for an
-- attempt past its end, is the wait that the ladder computes.
schedule-eq-ladder :
    (attempt : ℕ)
    → get_elem? retry_delay_schedule_ms (min (suc attempt) (length retry_delay_schedule_ms) - 1)
      ≡ some (retry_delay_ms (suc attempt))
schedule-eq-ladder zero = unfold retry_delay_schedule_ms in refl
schedule-eq-ladder (suc zero) = unfold retry_delay_schedule_ms in refl
schedule-eq-ladder (suc (suc zero)) = unfold retry_delay_schedule_ms in refl
schedule-eq-ladder (suc (suc (suc zero))) = unfold retry_delay_schedule_ms in refl
schedule-eq-ladder (suc (suc (suc (suc zero)))) = unfold retry_delay_schedule_ms in refl
schedule-eq-ladder (suc (suc (suc (suc (suc zero))))) = unfold retry_delay_schedule_ms in refl
schedule-eq-ladder (suc (suc (suc (suc (suc (suc n)))))) =
    ap (get_elem? retry_delay_schedule_ms) (past_the_end n)
    ∙ (unfold retry_delay_schedule_ms in ap some (sym (retry_delay_ms_capped n)))

-- A larger fuel gives the same table.
schedule_ends :
    (fuel : ℕ)
    → schedule_from (suc (suc (suc (suc (suc (suc (suc fuel))))))) 1 ≡ retry_delay_schedule_ms
unfolding schedule_from retry_delay_schedule_ms
schedule_ends fuel = refl

-- A redelivery waits no less than the base and no more than the ladder's cap, or the shorter cap of
-- an operation that waits on its relayer's funds; in between it waits half its age, and an older
-- message never waits less.
pub redelivery_delay_ms_band :
    (age older : ℕ) (waiting : Bool)
    → age ≤ older
    → (delayed_retry_base_ms ≤ redelivery_delay_ms age waiting)
      × (redelivery_delay_ms age waiting ≤ redelivery_delay_ms older waiting)
      × (redelivery_delay_ms older waiting ≤ delayed_retry_max_ms)
      × (redelivery_delay_ms older true ≤ funding_wait_retry_max_ms)
unfolding redelivery_delay_ms
redelivery_delay_ms_band age older waiting h = ground arith
