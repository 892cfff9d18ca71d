-- ===== src/Funding/Plan.antt =====
-- vela-relay-core/src/funding.rs: the plans and what the treasury pays on them.
use native.Mathlib.Nat.{mul-le-mul_left}
use vela_relay.Prelude.{ℕ, ◌+◌, ◌*◌, ◌/◌, ◌^◌, ◌≤◌, ◌<◌, ◌≡◌, none, some, max, arith}
use vela_relay.Prelude.Result.{ok}
use vela_relay.Funding.{
  NativeTopUpRequest, plan_native_top_up, native_top_up_gas_limit, native_top_up_reserve,
  treasury_affordable_top_up, plan_tempo_top_up, tempo_float_target, top_up_gas_limit,
}

-- A plan asks for what the bundle lacks, at least, and for no more than one transfer may carry or
-- the float target needs.
pub plan_native_top_up-bounds :
    (balance required multiplier target floor cap : ℕ) {r : NativeTopUpRequest}
    → 1 ≤ multiplier
    → plan_native_top_up balance required multiplier target floor cap ≡ ok r
    → (balance + r.deficit ≡ required)
      × (r.deficit ≤ r.amount_capped)
      × (r.amount_capped ≤ cap)
      × (balance + r.amount_capped ≤ max (max (required * multiplier) target) floor)
unfolding plan_native_top_up
plan_native_top_up-bounds balance required multiplier target floor cap m h =
    ground (arith, mul-le-mul_left {m = 1} {n = multiplier} required m)

-- Where the relayer cannot pay for its bundle, the amount that the treasury pays out after a
-- native plan lets it pay, is within the cap of one transfer, and leaves the treasury the gas of
-- the transfer and its floor.
pub funded_bundle :
    (balance required multiplier target floor cap : ℕ) (treasury gas_limit fee treasury_floor : ℕ)
    {r : NativeTopUpRequest} {reserve amount : ℕ}
    → 1 ≤ multiplier
    → balance < required
    → plan_native_top_up balance required multiplier target floor cap ≡ ok r
    → native_top_up_reserve gas_limit fee treasury_floor ≡ ok reserve
    → treasury_affordable_top_up r.amount_capped r.deficit treasury reserve ≡ some amount
    → (required ≤ balance + amount)
      × (amount ≤ cap)
      × (amount + (gas_limit * fee + treasury_floor) ≤ treasury)
unfolding native_top_up_reserve treasury_affordable_top_up
funded_bundle balance required multiplier target floor cap treasury gas_limit fee treasury_floor m
      lt h k l =
    let bounds = plan_native_top_up-bounds balance required multiplier target floor cap m h in
    ground arith

-- The signed gas limit never falls below the floor, and carries a fifth over an estimate that is an
-- amount of gas a block can hold.
pub native_top_up_gas_limit_bounds :
    (estimate : ℕ)
    → estimate < 2 ^ 40
    → (top_up_gas_limit ≤ native_top_up_gas_limit none)
      × (top_up_gas_limit ≤ native_top_up_gas_limit (some estimate))
      × (estimate * 6 / 5 ≤ native_top_up_gas_limit (some estimate))
unfolding native_top_up_gas_limit
native_top_up_gas_limit_bounds estimate h = omega arith

-- Tempo: a top-up brings the relayer to the float target and to the bundle's need, whichever is
-- more, and is never empty.
pub plan_tempo_top_up-some :
    (balance required : ℕ) {amount : ℕ}
    → plan_tempo_top_up balance required ≡ ok (some amount)
    → (0 < amount) × (balance + amount ≡ max required tempo_float_target)
unfolding plan_tempo_top_up
plan_tempo_top_up-some balance required h = ground arith

-- Without one it is there already.
pub plan_tempo_top_up-none :
    (balance required : ℕ)
    → plan_tempo_top_up balance required ≡ ok none
    → balance ≡ max required tempo_float_target
unfolding plan_tempo_top_up
plan_tempo_top_up-none balance required h = ground arith
