-- ===== src/GasMath/Fees/Delivery.antt =====
-- vela-relay-core/src/gas_math.rs: the signed pair of a tier, and the rows of a quote.
use native.Mathlib.Nat.{mul-le-mul_left}
use vela_relay.Prelude.{
  ℕ, ◌+◌, ◌*◌, ◌/◌, ◌≤◌, ◌<◌, ◌≡◌, ◌⊎◌, ◌↔◌, Option, some, true, arith, >>=-eq-some,
}
use vela_relay.Prelude.Words.{u128_mod, checked-eq-some}
use vela_relay.Prelude.Result.{ok}
use vela_relay.GasMath.{
  SubmissionTier, slow, standard, fast, base_fee_bps, network_fee_bps, legacy_tip_bps, TierTips,
  tip_of, scaled_up, scaled_market_tip,
}
use vela_relay.GasMath.Tips.{scaled_up_bounds, IsOrdered}
use vela_relay.GasMath.Fees.{
  network_tier_price, OuterFee, effective_tip_at, delivers_full_tip_at, tier_outer_fee,
  tier_network_fee, tier_price, GasPrice, NetworkGasPrice, GasPriceTiers, tiers, quoted_outer_fee,
  in_band_fee_per_gas,
}

pub delivers_full_tip_at_iff :
    (fee : OuterFee) (base : ℕ)
    → (delivers_full_tip_at fee base ≡ true) ↔ (
        (fee.max_priority_fee_per_gas ≡ 0)
        ⊎ (base + fee.max_priority_fee_per_gas ≤ fee.max_fee_per_gas))
unfolding delivers_full_tip_at effective_tip_at
delivers_full_tip_at_iff fee base = ground arith

pub tier_outer_fee_eq :
    (tier : SubmissionTier) (base : ℕ) (tips : TierTips) {fee : OuterFee}
    → tier_outer_fee tier base tips ≡ some fee
    → (fee.max_fee_per_gas ≡ base * base_fee_bps tier / 10_000 + tip_of tips tier)
      × (fee.max_priority_fee_per_gas ≡ tip_of tips tier)
unfolding tier_outer_fee
tier_outer_fee_eq tier base tips h = ground arith

-- The pair that a tier is signed with delivers its whole tip, which is the tier's, at every base
-- fee up to half as much again as the one that it was read at.
pub tier_outer_fee_delivers :
    (tier : SubmissionTier) (base : ℕ) (tips : TierTips) (later : ℕ) {fee : OuterFee}
    → tier_outer_fee tier base tips ≡ some fee
    → later ≤ base * 3 / 2
    → (delivers_full_tip_at fee later ≡ true) × (effective_tip_at fee later ≡ tip_of tips tier)
unfolding delivers_full_tip_at effective_tip_at
tier_outer_fee_delivers slow base tips later h le =
    let eq = tier_outer_fee_eq slow base tips h in ground arith
tier_outer_fee_delivers standard base tips later h le =
    let eq = tier_outer_fee_eq standard base tips h in ground arith
tier_outer_fee_delivers fast base tips later h le =
    let eq = tier_outer_fee_eq fast base tips h in ground arith

-- The relay's own pace does too, up to twice the base fee.
pub quoted_outer_fee_delivers :
    (base tip later : ℕ) {cap : ℕ}
    → quoted_outer_fee base tip ≡ some cap
    → later ≤ base * 2
    → delivers_full_tip_at (record { max_fee_per_gas = cap; max_priority_fee_per_gas = tip }) later
      ≡ true
unfolding quoted_outer_fee delivers_full_tip_at effective_tip_at
quoted_outer_fee_delivers base tip later h le = ground arith

-- What a client pays in band covers the marked-up cap, and exceeds it by less than a wei.
pub in_band_fee_per_gas_bounds :
    (cap markup : ℕ) {fee : ℕ}
    → in_band_fee_per_gas cap markup ≡ some fee
    → (cap * markup ≤ fee * 10_000) × (fee * 10_000 < cap * markup + 10_000)
unfolding in_band_fee_per_gas
in_band_fee_per_gas_bounds cap markup h = ground arith

-- A quoted row is the pair that the tier is signed with, and its two shares make up the cap.
pub tier_price_lem :
    (tier : SubmissionTier) (base : ℕ) (tips : TierTips) (market_tip : ℕ) {row : GasPrice}
    → tier_price tier base tips market_tip ≡ some row
    → (tier_outer_fee tier base tips
        ≡ some (record {
          max_fee_per_gas = row.max_fee_per_gas;
          max_priority_fee_per_gas = row.max_priority_fee_per_gas;
        }))
      × (row.max_fee_per_gas ≤ row.network_fee_per_gas + row.relayer_fee_per_gas)
      × (row.relayer_fee_per_gas ≤ row.max_fee_per_gas)
unfolding tier_price
tier_price_lem tier base tips market_tip h = ground arith

-- Rounding up keeps the order of the multiples.
scaled_up_mono :
    (value a b : ℕ) {r s : ℕ}
    → a ≤ b
    → scaled_up value a ≡ some r
    → scaled_up value b ≡ some s
    → r ≤ s
scaled_up_mono value a b le h k =
    let p = scaled_up_bounds value a h in
    let q = scaled_up_bounds value b k in
    let m : value * a ≤ value * b = mul-le-mul_left value le in omega arith

-- One row is at most another: the cap, the tip and the network fee.
unfoldable pub IsDearer : GasPrice → GasPrice → Type 0
IsDearer a b =
    (a.max_fee_per_gas ≤ b.max_fee_per_gas)
    × (a.max_priority_fee_per_gas ≤ b.max_priority_fee_per_gas)
    × (a.network_fee_per_gas ≤ b.network_fee_per_gas)

tier_network_fee_parts :
    (tier : SubmissionTier) (base market_tip : ℕ) {fee : ℕ}
    → tier_network_fee tier base market_tip ≡ some fee
    → (scaled : ℕ) × (tip : ℕ) × (scaled_up base (network_fee_bps tier) ≡ some scaled)
      × (scaled_up market_tip (legacy_tip_bps tier) ≡ some tip)
      × (fee ≡ scaled + tip)
unfolding tier_network_fee scaled_market_tip
tier_network_fee_parts tier base market_tip h =
    let (s, hs, h1) = >>=-eq-some (scaled_up base (network_fee_bps tier)) _ h in
    let (p, hp, h2) = >>=-eq-some (scaled_up market_tip (legacy_tip_bps tier)) _ h1 in
    (s, p, hs, hp, (checked-eq-some _ (s + p) h2).0)

tier_network_fee_mono :
    (t u : SubmissionTier) (base market_tip : ℕ) {a b : ℕ}
    → network_fee_bps t ≤ network_fee_bps u
    → legacy_tip_bps t ≤ legacy_tip_bps u
    → tier_network_fee t base market_tip ≡ some a
    → tier_network_fee u base market_tip ≡ some b
    → a ≤ b
tier_network_fee_mono t u base market_tip le_fee le_tip h k =
    let (s, p, hs, hp, e) = tier_network_fee_parts t base market_tip h in
    let (s', p', hs', hp', e') = tier_network_fee_parts u base market_tip k in
    let ls = scaled_up_mono base _ _ le_fee hs hs' in
    let lp = scaled_up_mono market_tip _ _ le_tip hp hp' in omega arith

-- The cap, the tip and the network fee of a row.
tier_price_parts :
    (tier : SubmissionTier) (base : ℕ) (tips : TierTips) (market_tip : ℕ) {row : GasPrice}
    → tier_price tier base tips market_tip ≡ some row
    → (row.max_fee_per_gas ≡ base * base_fee_bps tier / 10_000 + tip_of tips tier)
      × (row.max_priority_fee_per_gas ≡ tip_of tips tier)
      × (tier_network_fee tier base market_tip ≡ some row.network_fee_per_gas)
unfolding tier_price tier_outer_fee
tier_price_parts tier base tips market_tip h = ground arith

tier_price-IsDearer :
    (t u : SubmissionTier) (base : ℕ) (tips : TierTips) (market_tip : ℕ) {a b : GasPrice}
    → base_fee_bps t ≤ base_fee_bps u
    → network_fee_bps t ≤ network_fee_bps u
    → legacy_tip_bps t ≤ legacy_tip_bps u
    → tip_of tips t ≤ tip_of tips u
    → tier_price t base tips market_tip ≡ some a
    → tier_price u base tips market_tip ≡ some b
    → IsDearer a b
unfolding IsDearer
tier_price-IsDearer t u base tips market_tip le_cap le_fee le_tip le h k =
    let (cap, tip, fee) = tier_price_parts t base tips market_tip h in
    let (cap', tip', fee') = tier_price_parts u base tips market_tip k in
    let lc : base * base_fee_bps t ≤ base * base_fee_bps u = mul-le-mul_left base le_cap in
    (omega arith, omega arith, tier_network_fee_mono t u base market_tip le_fee le_tip fee fee')

-- The rows of a quote are those of its tiers.
tiers_rows :
    (price : NetworkGasPrice) {rows : GasPriceTiers}
    → tiers price ≡ ok rows
    → let row : SubmissionTier → Option GasPrice = λ tier.
      tier_price tier price.base_fee_per_gas price.tier_tips price.max_priority_fee_per_gas in
      (row slow ≡ some rows.slow_price)
      × (row standard ≡ some rows.standard_price)
      × (row fast ≡ some rows.fast_price)
unfolding tiers network_tier_price
tiers_rows price h = ground arith

-- With tips that are ordered, the three rows of a quote are ordered in every fee they name.
pub tiers-IsDearer :
    (price : NetworkGasPrice) {rows : GasPriceTiers}
    → IsOrdered price.tier_tips
    → tiers price ≡ ok rows
    → IsDearer rows.slow_price rows.standard_price × IsDearer rows.standard_price rows.fast_price
unfolding IsOrdered
tiers-IsDearer price ord h =
    let (s, m, f) = tiers_rows price h in
    let base = price.base_fee_per_gas in
    let tip = price.max_priority_fee_per_gas in
    (
      tier_price-IsDearer slow standard base price.tier_tips tip (omega arith) (omega arith)
          (omega arith) ord.1 s m,
      tier_price-IsDearer standard fast base price.tier_tips tip (omega arith) (omega arith)
          (omega arith) ord.2 m f,
    )

-- The base fee and the tier's tip fit in one word wherever the tier has a price.
pub tier_outer_fee_fits :
    (tier : SubmissionTier) (base : ℕ) (tips : TierTips) {fee : OuterFee}
    → tier_outer_fee tier base tips ≡ some fee
    → base + tip_of tips tier < u128_mod
unfolding tier_outer_fee
tier_outer_fee_fits slow base tips h = ground arith
tier_outer_fee_fits standard base tips h = ground arith
tier_outer_fee_fits fast base tips h = ground arith

pub tier_outer_fee_covers :
    (tier : SubmissionTier) (base : ℕ) (tips : TierTips) {fee : OuterFee}
    → tier_outer_fee tier base tips ≡ some fee
    → base + tip_of tips tier ≤ fee.max_fee_per_gas
tier_outer_fee_covers slow base tips h = let eq = tier_outer_fee_eq slow base tips h in omega arith
tier_outer_fee_covers standard base tips h =
    let eq = tier_outer_fee_eq standard base tips h in omega arith
tier_outer_fee_covers fast base tips h = let eq = tier_outer_fee_eq fast base tips h in omega arith
