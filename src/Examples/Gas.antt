-- ===== src/Examples/Gas.antt =====
-- A bundle's gas: its shares, its bill, and the limit that its operations declare.
use vela_relay.Abi.{PackedUserOperation}
use vela_relay.Prelude.{
  ℕ, ◌+◌, ◌-◌, ◌*◌, ◌/◌, ◌≤◌, ◌≡◌, ◌≢◌, refl, none, some, List, [], ◌∷◌, sum, length, max, arith,
}
use vela_relay.Cost.{
  ceil_div, from_be_slice, split_total, allocate_bundle_gas, outer_limit,
  measured_at_least_half_the_limit, settlement_gas_allocations, billed_gas, buffered_gas,
  declared_bundle_gas, declared_limits, per_operation_overhead, bundle_overhead,
}
use vela_relay.Cost.Shares.{AreFair, split_total_lem}
use vela_relay.Cost.Allocation.{IsBuffered, AreShares, allocate_bundle_gas_lem}
use vela_relay.Cost.Billing.{
  AreSettled, billed_gas_bounds, settlement_gas_allocations_lem, declared_bundle_gas-forwards,
}

abbrev gases : List ℕ
gases = 100 ∷ 50 ∷ 50 ∷ []

split_total_lem_example :
    (sum (51 ∷ 25 ∷ 25 ∷ []) ≡ 101) × AreFair 101 (sum gases) 3 gases (51 ∷ 25 ∷ 25 ∷ [])
unfolding split_total
split_total_lem_example = split_total_lem 101 gases (omega arith) refl

allocate_bundle_gas_lem_example :
    (total : ℕ) × IsBuffered 300 1_000 11 total
    × (sum (171 ∷ 170 ∷ []) ≡ total)
    × AreShares ((total - 200) / 2) (100 ∷ 100 ∷ []) (171 ∷ 170 ∷ [])
unfolding allocate_bundle_gas ceil_div
allocate_bundle_gas_lem_example = allocate_bundle_gas_lem 300 250 1_000 11 100 (100 ∷ []) refl

ne_outer : measured_at_least_half_the_limit ≢ outer_limit
ne_outer h = cc

settlement_gas_allocations_lem_example :
    AreSettled measured_at_least_half_the_limit 300
      (500 ∷ 500 ∷ [])
      (100 ∷ 200 ∷ [])
      (167 ∷ 333 ∷ [])
unfolding settlement_gas_allocations ceil_div
settlement_gas_allocations_lem_example =
    settlement_gas_allocations_lem measured_at_least_half_the_limit 300 500 (500 ∷ [])
      (100 ∷ 200 ∷ []) none 1_000 0 ne_outer refl

abbrev packed : PackedUserOperation
packed = record {
  sender = 1;
  nonce = 0;
  init_code = [];
  call_data = [];
  account_gas_limits = 1 ∷ 0 ∷ [];
  pre_verification_gas = 100_000;
  gas_fees = [];
  signature = [];
  paymaster_and_data = [];
}

declared_bundle_gas-forwards_example :
    (declared : ℕ) × (declared_limits (packed ∷ []) ≡ some declared)
    × (declared ≤ 211_847 - 211_847 / 64)
    × (declared + length (packed ∷ []) * per_operation_overhead + bundle_overhead ≤ 211_847)
unfolding declared_bundle_gas from_be_slice
declared_bundle_gas-forwards_example = declared_bundle_gas-forwards (packed ∷ []) refl

billed_gas_bounds_example :
    (b : ℕ) × (buffered_gas 1_000 500 10 ≡ some b)
    × (1_000 ≤ 1_020)
    × (1_020 ≤ b)
    × (1_020 ≤ max 1_020 1_000)
unfolding billed_gas ceil_div
billed_gas_bounds_example = billed_gas_bounds 1_000 1_020 500 10 {bill = 1_020} refl
