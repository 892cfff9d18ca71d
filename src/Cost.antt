-- ===== src/Cost.antt =====
-- vela-relay-core/src/cost.rs: the gas of a bundle, shared among its operations.
pub mod Sums
pub mod Allocation
pub mod Shares
pub mod Billing
use vela_relay.Abi.{PackedUserOperation}
use vela_relay.Prelude.{
  ℕ, zero, suc, ◌+◌, ◌-◌, ◌*◌, ◌/◌, ◌%◌, Bool, true, false, ◌||◌, Option, none, some, List, [], ◌∷◌,
  min, max, ltb, leb, ◌==◌, if◌then◌else◌, ◌>>=◌, ◌>>◌, guard, length, not,
}
use vela_relay.Prelude.Words.{u256_mod, checked_add, checked_mul, checked_sub}

-- The checked sum of a slice: `try_fold(U256::ZERO, |sum, gas| sum.checked_add(*gas))`.
add_all : ℕ → List ℕ → Option ℕ
add_all acc [] = some acc
add_all acc (x ∷ xs) = checked_add u256_mod acc x >>= λ s. add_all s xs

unfoldable pub checked_sum : List ℕ → Option ℕ
unfolding add_all
checked_sum xs = add_all 0 xs

unfoldable pub ceil_div : ℕ → ℕ → Option ℕ
ceil_div value divisor =
    if divisor == 0
    then none
    else checked_add u256_mod (value / divisor) (if value % divisor == 0 then 0 else 1)

-- The `map` of `allocate_bundle_gas`: `index` counts the operations.
allocate_from : ℕ → ℕ → ℕ → List ℕ → Option (List ℕ)
allocate_from shared remainder index [] = some []
allocate_from shared remainder index (gas ∷ rest) = do
  with_shared ← checked_add u256_mod gas shared
  share ← checked_add u256_mod with_shared (if ltb index remainder then 1 else 0)
  shares ← allocate_from shared remainder (index + 1) rest
  some (share ∷ shares)

-- `metered` with its buffers: the gas to be shared out.
buffered_total : ℕ → ℕ → ℕ → Option ℕ
buffered_total metered buffer_bps fixed_buffer = do
  proportional ← checked_mul u256_mod metered buffer_bps
  proportional_buffer ← ceil_div proportional 10_000
  with_buffer ← checked_add u256_mod metered proportional_buffer
  checked_add u256_mod with_buffer fixed_buffer

share_out : ℕ → ℕ → ℕ → ℕ → ℕ → List ℕ → Option (List ℕ)
unfolding buffered_total allocate_from
share_out simulated estimated buffer_bps fixed_buffer direct gases = do
  total ← buffered_total (max (max simulated estimated) direct) buffer_bps fixed_buffer
  shared ← checked_sub total direct
  allocate_from (shared / length gases) (shared % length gases) 0 gases

unfoldable pub allocate_bundle_gas : ℕ → ℕ → List ℕ → ℕ → ℕ → Option (List ℕ)
unfolding share_out checked_sum
allocate_bundle_gas simulated estimated [] buffer_bps fixed_buffer = some []
allocate_bundle_gas simulated estimated (gas ∷ rest) buffer_bps fixed_buffer = do
  direct ← checked_sum (gas ∷ rest)
  share_out simulated estimated buffer_bps fixed_buffer direct (gas ∷ rest)

abbrev pub take : ℕ → List ℕ → List ℕ
take zero xs = []
take (suc n) [] = []
take (suc n) (x ∷ xs) = x ∷ take n xs

abbrev pub drop : ℕ → List ℕ → List ℕ
drop zero xs = xs
drop (suc n) [] = []
drop (suc n) (x ∷ xs) = drop n xs

-- `U256::from_be_slice`
be_value : ℕ → List ℕ → ℕ
be_value acc [] = acc
be_value acc (b ∷ bs) = be_value (acc * 256 + b) bs

unfoldable pub from_be_slice : List ℕ → ℕ
unfolding be_value
from_be_slice bytes = be_value 0 bytes

paymaster_gas : List ℕ → ℕ × ℕ
paymaster_gas paymaster =
    if leb 52 (length paymaster)
    then (from_be_slice (take 16 (drop 20 paymaster)), from_be_slice (take 16 (drop 36 paymaster)))
    else (0, 0)

add_limits : ℕ → PackedUserOperation → Option ℕ
unfolding paymaster_gas
add_limits total operation = do
  let limits = operation.account_gas_limits
  let paymaster = paymaster_gas operation.paymaster_and_data
  a ← checked_add u256_mod total (from_be_slice (take 16 limits))
  b ← checked_add u256_mod a (from_be_slice (drop 16 limits))
  c ← checked_add u256_mod b paymaster.0
  d ← checked_add u256_mod c paymaster.1
  checked_add u256_mod d operation.pre_verification_gas

limits_from : ℕ → List PackedUserOperation → Option ℕ
unfolding add_limits
limits_from total [] = some total
limits_from total (operation ∷ rest) = add_limits total operation >>= λ t. limits_from t rest

unfoldable pub declared_limits : List PackedUserOperation → Option ℕ
unfolding limits_from
declared_limits operations = limits_from 0 operations

abbrev pub per_operation_overhead : ℕ
per_operation_overhead = 50_000

abbrev pub bundle_overhead : ℕ
bundle_overhead = 60_000

unfoldable pub declared_bundle_gas : List PackedUserOperation → Option ℕ
unfolding declared_limits
declared_bundle_gas operations = do
  declared ← declared_limits operations
  scaled ← checked_mul u256_mod declared 64
  overhead ← checked_mul u256_mod (length operations) per_operation_overhead
  with_operations ← checked_add u256_mod (scaled / 63) overhead
  checked_add u256_mod with_operations bundle_overhead

unfoldable pub credible_simulated_gas : ℕ → ℕ → Option ℕ → ℕ
credible_simulated_gas simulated estimated none = simulated
credible_simulated_gas simulated estimated (some declared) = min simulated (max estimated declared)

pub data SettlementGasRule : Type 0 where
  measured measured_at_least_half_the_limit outer_limit : SettlementGasRule

unfoldable pub settlement_gas_rule : ℕ → SettlementGasRule
settlement_gas_rule chain_id =
    if chain_id == 1
      || (chain_id == 11_155_111
          || (chain_id == 17_000
              || (chain_id == 560_048
                  || (chain_id == 100
                      || (chain_id == 10_200
                          || (chain_id == 137
                              || (chain_id == 80_002 || (chain_id == 56 || chain_id == 97))))))))
    then measured
    else if chain_id == 43_114 || chain_id == 43_113
    then measured_at_least_half_the_limit
    else outer_limit

unfoldable pub buffered_gas : ℕ → ℕ → ℕ → Option ℕ
buffered_gas gas buffer_bps fixed_buffer = do
  scaled ← checked_mul u256_mod gas buffer_bps
  buffer ← ceil_div scaled 10_000
  with_buffer ← checked_add u256_mod gas buffer
  checked_add u256_mod with_buffer fixed_buffer

capped_bill : ℕ → Option ℕ → ℕ → ℕ
capped_bill used none buffered = buffered
capped_bill used (some declared) buffered = min buffered (max declared used)

unfoldable pub billed_gas : ℕ → Option ℕ → ℕ → ℕ → Option ℕ
unfolding buffered_gas capped_bill
billed_gas used declared buffer_bps fixed_buffer = do
  buffered ← buffered_gas used buffer_bps fixed_buffer
  some (capped_bill used declared buffered)

-- One operation's share before the remainder: in proportion to its gas, or even where none is known.
share_of : ℕ → ℕ → ℕ → ℕ → Option ℕ
share_of total weights count gas =
    if weights == 0
    then some (total / count)
    else (checked_mul u256_mod total gas >>= λ product. some (product / weights))

shares_of : ℕ → ℕ → ℕ → List ℕ → Option (List ℕ)
unfolding share_of
shares_of total weights count [] = some []
shares_of total weights count (gas ∷ rest) = do
  share ← share_of total weights count gas
  shares ← shares_of total weights count rest
  some (share ∷ shares)

-- The remainder, one unit to each of the first shares.
hand_out : ℕ → List ℕ → List ℕ
hand_out remainder [] = []
hand_out zero (share ∷ rest) = share ∷ hand_out zero rest
hand_out (suc remainder) (share ∷ rest) = (share + 1) ∷ hand_out remainder rest

unfoldable pub split_total : ℕ → List ℕ → Option (List ℕ)
unfolding checked_sum shares_of hand_out
split_total total gases = do
  weights ← checked_sum gases
  shares ← shares_of total weights (length gases) gases
  assigned ← checked_sum shares
  remainder ← checked_sub total assigned
  some (hand_out remainder shares)

-- At least half the outer limit, where the chain charges that.
at_least_half : SettlementGasRule → ℕ → ℕ → Option ℕ
at_least_half measured_at_least_half_the_limit limit total = do
  half ← ceil_div limit 2
  some (max total half)
at_least_half _ limit total = some total

unfoldable pub settlement_total : SettlementGasRule → ℕ → ℕ → Option ℕ → ℕ → ℕ → Option ℕ
unfolding billed_gas at_least_half
settlement_total rule gas limit declared buffer_bps fixed_buffer = do
  billed ← billed_gas gas declared buffer_bps fixed_buffer
  at_least_half rule limit (min billed limit)

bill_measured : SettlementGasRule → ℕ → List ℕ → List ℕ → Option ℕ → ℕ → ℕ → Option (List ℕ)
unfolding settlement_total split_total
bill_measured rule gas [] gases declared buffer_bps fixed_buffer =
    if 0 == length gases then some [] else none
bill_measured rule gas (l ∷ ls) gases declared buffer_bps fixed_buffer = do
  guard (length (l ∷ ls) == length gases)
  limit ← checked_sum (l ∷ ls)
  total ← settlement_total rule gas limit declared buffer_bps fixed_buffer
  split_total total gases

unfoldable pub settlement_gas_allocations :
    SettlementGasRule → Option ℕ → List ℕ → List ℕ → Option ℕ → ℕ → ℕ → Option (List ℕ)
unfolding bill_measured
settlement_gas_allocations outer_limit gas limits gases declared bps fixed = some limits
settlement_gas_allocations measured none limits gases declared bps fixed = some limits
settlement_gas_allocations measured (some gas) limits gases declared bps fixed =
    bill_measured measured gas limits gases declared bps fixed
settlement_gas_allocations measured_at_least_half_the_limit none limits gases declared bps fixed =
    some limits
settlement_gas_allocations measured_at_least_half_the_limit (some gas) limits gases declared bps
      fixed =
    bill_measured measured_at_least_half_the_limit gas limits gases declared bps fixed

unfoldable pub native_cost : ℕ → ℕ → Option ℕ
native_cost gas max_fee_per_gas = checked_mul u256_mod gas max_fee_per_gas
