-- ===== src/Settlement/Minimum.antt =====
-- vela-relay-core/src/settlement.rs: the conversions that round up, and the two native minimums.
use native.Mathlib.Nat.{
  mul-le-mul_left, mul-le-mul_right, lt_of_mul-lt-mul_right, div-add-mod', mod-lt,
}
use vela_relay.Prelude.{
  ℕ, suc, ◌+◌, ◌*◌, ◌/◌, ◌%◌, ◌≤◌, ◌<◌, ◌≡◌, some, max, ◌==◌, false, arith, Bool-cases,
  Option-cases, ap, some-eq-some, sym, ◌∙◌, ◌⊎◌, inl, inr,
}
use vela_relay.Prelude.Result.{ok, >>=-eq-ok, ◌>>=◌, ok-eq-ok}
use vela_relay.Settlement.{
  div_ceil_narrow, mul_div_ceil, native_amount_for_usd_ceil, native_minimum_at, minimum_amount,
  checked_pow10, published_native_minimum, enforced_native_minimum, min_native_fraction_decimals,
  minimum_fee_usd,
}

div_ceil_narrow_cases :
    (n d : ℕ) {r : ℕ}
    → div_ceil_narrow n d ≡ ok r
    → ((n % d ≡ 0) × (r ≡ n / d)) ⊎ ((0 < n % d) × (r ≡ n / d + 1))
unfolding div_ceil_narrow
div_ceil_narrow_cases n d h = ground arith

div_ceil_narrow_bounds :
    (n d : ℕ) {r : ℕ} → 0 < d → div_ceil_narrow n d ≡ ok r → (n ≤ r * d) × (r * d < n + d)
div_ceil_narrow_bounds n d pos h =
    let split = div-add-mod' n d in
    let small = mod-lt n pos in
    elim (div_ceil_narrow_cases n d h) [
      | inl (e, eq) ↦ let m = ap (λ (t : ℕ). t * d) eq in omega arith
      | inr (e, eq) ↦ let m = ap (λ (t : ℕ). t * d) eq in omega arith
    ]

-- `left * right / denominator`, rounded up.
pub mul_div_ceil_bounds :
    (left right denominator : ℕ) {r : ℕ}
    → mul_div_ceil left right denominator ≡ ok r
    → (left * right ≤ r * denominator) × (r * denominator < left * right + denominator)
unfolding mul_div_ceil
mul_div_ceil_bounds left right denominator h = elim (Bool-cases (denominator == 0)) [
  | inl e ↦ ground arith
  | inr e ↦ div_ceil_narrow_bounds (left * right) denominator (ground arith) (ground arith)
]

-- Rounding up keeps the order of fractions.
div_ceil_mono : (n m p q : ℕ) {r s : ℕ} → 0 < p → n * p ≤ m * q → r * q < n + q → m ≤ s * p → r ≤ s
div_ceil_mono n m p q {r} {s} pos h hi lo =
    let a : (r * q + 1) * p ≤ (n + q) * p = mul-le-mul_right p (omega arith) in
    let c : m * q ≤ s * p * q = mul-le-mul_right q lo in
    let lt : r * (p * q) < suc s * (p * q) = grind arith in
    let b : r < suc s = lt_of_mul-lt-mul_right (p * q) lt in omega arith

amount_scale :
    (usd decimals price : ℕ) {r : ℕ}
    → (price == 0) ≡ false
    → native_amount_for_usd_ceil usd decimals price ≡ ok r
    → (scale : ℕ) × (checked_pow10 decimals ≡ some scale)
      × (div_ceil_narrow (usd * scale) price ≡ ok r)
unfolding native_amount_for_usd_ceil
amount_scale usd decimals price e h = elim (Option-cases (checked_pow10 decimals)) [
  | inl eq ↦ ground arith
  | inr (scale, eq) ↦ (scale, eq, ground arith)
]

-- What a price makes of an amount in USD.
amount_parts :
    (usd decimals price : ℕ) {r : ℕ}
    → native_amount_for_usd_ceil usd decimals price ≡ ok r
    → (scale : ℕ) × (checked_pow10 decimals ≡ some scale)
      × (0 < price)
      × (usd * scale ≤ r * price)
      × (r * price < usd * scale + price)
unfolding native_amount_for_usd_ceil
amount_parts usd decimals price h = elim (Bool-cases (price == 0)) [
  | inl e ↦ ground arith
  | inr e ↦
      let (scale, eq, k) = amount_scale usd decimals price e h in
      let bounds = div_ceil_narrow_bounds (usd * scale) price (ground arith) k in
      (scale, eq, ground arith, bounds.0, bounds.1)
]

-- A minimum at a price is the larger of an amount in USD and the safety floor.
minimum_parts :
    (decimals price share : ℕ) {r : ℕ}
    → 0 < price
    → native_minimum_at decimals (some price) share ≡ ok r
    → (safety : ℕ) × (amount : ℕ) × (minimum_amount decimals min_native_fraction_decimals
        ≡ ok safety)
      × (native_amount_for_usd_ceil (minimum_fee_usd * share / 10_000) decimals price ≡ ok amount)
      × (r ≡ max amount safety)
unfolding native_minimum_at
minimum_parts decimals price share {r} pos h =
    let (safety, hs, h1) = >>=-eq-ok (minimum_amount decimals min_native_fraction_decimals) _ h in
    let h2 : (native_amount_for_usd_ceil (minimum_fee_usd * share / 10_000) decimals price
          >>= λ amount. ok (max amount safety))
        ≡ ok r =
      ground arith in
    let (amount, ha, h3) =
      >>=-eq-ok (native_amount_for_usd_ceil (minimum_fee_usd * share / 10_000) decimals price) _
        h2 in
    (safety, amount, hs, ha, sym (ok-eq-ok h3))

-- The minimum that is enforced at one positive price is at most the minimum that was published at
-- another, as long as the coin did not lose more than a tenth of its price in between.
pub enforced_native_minimum-le :
    (decimals quoted settled : ℕ) {published enforced : ℕ}
    → 0 < settled
    → 0 < quoted
    → 9 * quoted ≤ 10 * settled
    → published_native_minimum decimals (some quoted) ≡ ok published
    → enforced_native_minimum decimals (some settled) ≡ ok enforced
    → enforced ≤ published
unfolding published_native_minimum enforced_native_minimum
enforced_native_minimum-le decimals quoted settled pos pos' le h k =
    let (s, a, hs, ha, eq) = minimum_parts decimals quoted 10_000 pos' h in
    let (s', a', hs', ha', eq') = minimum_parts decimals settled 9_000 pos k in
    let (scale, hc, q, lo, hi) = amount_parts 1_000_000 decimals quoted ha in
    let (scale', hc', q', lo', hi') = amount_parts 900_000 decimals settled ha' in
    let same : scale' ≡ scale = some-eq-some (sym hc' ∙ hc) in
    let same_safety : s' ≡ s = ok-eq-ok (sym hs' ∙ hs) in
    let cross : 900_000 * scale' * quoted ≤ 1_000_000 * scale * settled =
      let p = ap (λ (t : ℕ). t * quoted) same in
      let m = mul-le-mul_left (100_000 * scale) le in grind arith in
    let amounts : a' ≤ a = div_ceil_mono _ _ quoted settled pos' cross hi' lo in omega arith
