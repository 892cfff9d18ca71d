-- ===== src/Cost/Billing.antt =====
-- vela-relay-core/src/cost.rs: the bill of a bundle and of its operations (`billed_gas`,
-- `settlement_gas_allocations`, `declared_bundle_gas`).
use vela_relay.Abi.{PackedUserOperation}
use mathlib.Core.Path.{subst, subst₂}
use vela_relay.Prelude.{
  ℕ, ◌+◌, ◌-◌, ◌*◌, ◌/◌, ◌≤◌, ◌≡◌, ◌≢◌, refl, some, none, List, ◌∷◌, sum, arith, >>=-eq-some,
  Option, ◌==◌, length, ◌>>=◌, min, max, guard, sym, some-eq-some,
}
use vela_relay.Prelude.Words.{u256_mod, checked_add, checked_mul}
use vela_relay.Cost.{
  ceil_div, buffered_gas, billed_gas, settlement_total, at_least_half, SettlementGasRule, measured,
  measured_at_least_half_the_limit, outer_limit, settlement_gas_allocations, bill_measured,
  checked_sum, declared_limits, declared_bundle_gas, per_operation_overhead, bundle_overhead,
}
use vela_relay.Cost.Sums.{checked_sum-eq-some, ceil_div-eq-some}
use vela_relay.Cost.Shares.{split_total_lem, AreFair}

buffered_gas_le :
    (gas bps fixed : ℕ) {b : ℕ} → buffered_gas gas bps fixed ≡ some b → gas + fixed ≤ b
unfolding buffered_gas
buffered_gas_le gas bps fixed h = ground arith

-- Where the operations declare limits, the bill is never below the gas used, nor above that gas
-- with its buffer, nor above the larger of the declared limits and the gas used.
pub billed_gas_bounds :
    (used declared bps fixed : ℕ) {bill : ℕ}
    → billed_gas used (some declared) bps fixed ≡ some bill
    → (b : ℕ) × (buffered_gas used bps fixed ≡ some b)
      × (used ≤ bill)
      × (bill ≤ b)
      × (bill ≤ max declared used)
unfolding billed_gas
billed_gas_bounds used declared bps fixed h =
    let (b, e, k) = >>=-eq-some (buffered_gas used bps fixed) _ h in
    let le = buffered_gas_le used bps fixed e in (b, e, ground arith, ground arith, ground arith)

billed_gas_le :
    (used : ℕ) (declared : Option ℕ) (bps fixed : ℕ) {bill : ℕ}
    → billed_gas used declared bps fixed ≡ some bill
    → used ≤ bill
unfolding billed_gas
billed_gas_le used none bps fixed h =
    let (b, e, k) = >>=-eq-some (buffered_gas used bps fixed) _ h in
    let le = buffered_gas_le used bps fixed e in ground arith
billed_gas_le used (some declared) bps fixed h = (billed_gas_bounds used declared bps fixed h).2

-- The part of the limit of which a rule charges at least half.
unfoldable pub half_charged : SettlementGasRule → ℕ → ℕ
half_charged measured_at_least_half_the_limit limit = limit
half_charged measured limit = 0
half_charged outer_limit limit = 0

-- The total that a chain's rule bills for the measured gas `gas` under the outer limit `limit`.
pub record IsSettled (rule : SettlementGasRule) (gas limit total : ℕ) : Type 0 where
  pub within_limit : total ≤ limit
  pub covers_used : min gas limit ≤ total
  pub covers_half : half_charged rule limit ≤ 2 * total

at_least_half_lem :
    (rule : SettlementGasRule) (gas limit bill : ℕ) {total : ℕ}
    → gas ≤ bill
    → at_least_half rule limit (min bill limit) ≡ some total
    → IsSettled rule gas limit total
unfolding at_least_half half_charged
at_least_half_lem measured gas limit bill le h = ground arith
at_least_half_lem outer_limit gas limit bill le h = ground arith
at_least_half_lem measured_at_least_half_the_limit gas limit bill le h =
    let (half, e, k) = >>=-eq-some (ceil_div limit 2) _ h in
    let (pos, low, high) = ceil_div-eq-some limit 2 e in
    let v = some-eq-some k in
    record { within_limit = omega arith; covers_used = omega arith; covers_half = omega arith }

settlement_total-IsSettled :
    (rule : SettlementGasRule) (gas limit : ℕ) (declared : Option ℕ) (bps fixed : ℕ) {total : ℕ}
    → settlement_total rule gas limit declared bps fixed ≡ some total
    → IsSettled rule gas limit total
unfolding settlement_total
settlement_total-IsSettled rule gas limit declared bps fixed h =
    let (bill, e, k) = >>=-eq-some (billed_gas gas declared bps fixed) _ h in
    at_least_half_lem rule gas limit bill (billed_gas_le gas declared bps fixed e) k

-- What the shares of a bundle's operations are, of limits and gas that are not empty.
abbrev pub AreSettled : SettlementGasRule → ℕ → List ℕ → List ℕ → List ℕ → Type 0
AreSettled rule gas limits gases shares =
    IsSettled rule gas (sum limits) (sum shares)
    × AreFair (sum shares) (sum gases) (length gases) gases shares

bill_measured_lem :
    (rule : SettlementGasRule) (gas : ℕ) (l : ℕ) (ls gases : List ℕ) (declared : Option ℕ)
    (bps fixed : ℕ) {shares : List ℕ}
    → bill_measured rule gas (l ∷ ls) gases declared bps fixed ≡ some shares
    → AreSettled rule gas (l ∷ ls) gases shares
unfolding bill_measured
bill_measured_lem rule gas l ls gases declared bps fixed {shares} h =
    let (u, eu, k) = >>=-eq-some (guard (length (l ∷ ls) == length gases)) _ h in
    let (limit, el, k') = >>=-eq-some (checked_sum (l ∷ ls)) _ k in
    let (total, et, k'') = >>=-eq-some (settlement_total rule gas limit declared bps fixed) _ k' in
    let same : length (l ∷ ls) ≡ length gases = ground arith in
    let (sums, fair) = split_total_lem total gases (omega arith) k'' in
    let settled = settlement_total-IsSettled rule gas limit declared bps fixed et in
    let v = checked_sum-eq-some (l ∷ ls) el in
    (
      subst₂ (IsSettled rule gas) v (sym sums) settled,
      subst (λ t. AreFair t (sum gases) (length gases) gases shares) (sym sums) fair,
    )

-- On a chain that is billed by measured gas, the shares of a simulated bundle add up to no more
-- than the outer limit, and to no less than the gas used, or the limit where that is less; on a
-- chain that charges half the limit, to no less than half the limit. Each share is the operation's
-- proportion of the sum by its gas (even, where none is known), rounded down, or one unit more.
pub settlement_gas_allocations_lem :
    (rule : SettlementGasRule) (gas : ℕ) (l : ℕ) (ls gases : List ℕ) (declared : Option ℕ)
    (bps fixed : ℕ) {shares : List ℕ}
    → rule ≢ outer_limit
    → settlement_gas_allocations rule (some gas) (l ∷ ls) gases declared bps fixed ≡ some shares
    → AreSettled rule gas (l ∷ ls) gases shares
unfolding settlement_gas_allocations
settlement_gas_allocations_lem measured gas l ls gases declared bps fixed ne h =
    bill_measured_lem measured gas l ls gases declared bps fixed h
settlement_gas_allocations_lem measured_at_least_half_the_limit gas l ls gases declared bps fixed ne
      h =
    bill_measured_lem measured_at_least_half_the_limit gas l ls gases declared bps fixed h
settlement_gas_allocations_lem outer_limit gas l ls gases declared bps fixed ne h = absurd (ne refl)

forwarded :
    (declared n : ℕ) {gas : ℕ}
    → (checked_mul u256_mod declared 64 >>= λ scaled.
        checked_mul u256_mod n per_operation_overhead >>= λ overhead.
        checked_add u256_mod (scaled / 63) overhead >>= λ with_operations.
        checked_add u256_mod with_operations bundle_overhead)
      ≡ some gas
    → (declared ≤ gas - gas / 64) × (declared + n * per_operation_overhead + bundle_overhead ≤ gas)
forwarded declared n h = ground arith

-- An outer gas limit made of the operations' declared limits leaves at least those limits after
-- the 64th part that the EntryPoint keeps, and is at least the declared limits with the overhead
-- of every operation and of the bundle.
pub declared_bundle_gas-forwards :
    (operations : List PackedUserOperation) {gas : ℕ}
    → declared_bundle_gas operations ≡ some gas
    → (declared : ℕ) × (declared_limits operations ≡ some declared)
      × (declared ≤ gas - gas / 64)
      × (declared + length operations * per_operation_overhead + bundle_overhead ≤ gas)
unfolding declared_bundle_gas
declared_bundle_gas-forwards operations h =
    let (declared, e, k) = >>=-eq-some (declared_limits operations) _ h in
    let n : ℕ = length operations in let (g, l) = forwarded declared n k in (declared, e, g, l)
