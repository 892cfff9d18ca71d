-- ===== src/GasMath/Tips.antt =====
-- vela-relay-core/src/gas_math.rs: the tips of the tiers (`TierTips`) and the window they are read over.
use vela_relay.Prelude.{
  ℕ, ◌+◌, ◌*◌, ◌≤◌, ◌<◌, ◌≡◌, Option, none, some, ltb, Bool, List, length, any, inl, inr, arith,
  >>=-eq-some, Option-cases, unwrap_or,
}
use vela_relay.GasMath.{
  slow, standard, fast, TierTips, TipWindow, scaled_up, scaled_market_tip, tip_window_blocks,
  complete_rows, column_median, below, tips_of_medians, from_window, scaled, resolve,
  uncongested_gas_used_ratio_bps,
}
use vela_relay.Pace.{block_interval_ms}

-- A faster tier's tip is at least a slower one's, and the floor is at most the slowest's.
unfoldable pub IsOrdered : TierTips → Type 0
IsOrdered tips =
    (tips.floor ≤ tips.slow_tip)
    × (tips.slow_tip ≤ tips.standard_tip)
    × (tips.standard_tip ≤ tips.fast_tip)

tips_of_medians-IsOrdered :
    (p25 p50 p70 : ℕ) (paid_any : Bool) (ratio : Option ℕ) (market_tip : ℕ) {tips : TierTips}
    → tips_of_medians p25 p50 p70 paid_any ratio market_tip ≡ some tips
    → IsOrdered tips
unfolding IsOrdered tips_of_medians
tips_of_medians-IsOrdered p25 p50 p70 paid_any ratio market_tip h = ground arith

-- `value * bps / 10000`, rounded up.
pub scaled_up_bounds :
    (value bps : ℕ) {r : ℕ}
    → scaled_up value bps ≡ some r
    → (value * bps ≤ r * 10_000) × (r * 10_000 < value * bps + 10_000)
unfolding scaled_up
scaled_up_bounds value bps h = ground arith

scaled-IsOrdered : (tip : ℕ) {tips : TierTips} → scaled tip ≡ some tips → IsOrdered tips
unfolding IsOrdered scaled scaled_market_tip
scaled-IsOrdered tip h =
    let (s, hs, h1) = >>=-eq-some (scaled_market_tip slow tip) _ h in
    let (m, hm, h2) = >>=-eq-some (scaled_market_tip standard tip) _ h1 in
    let (f, hf, h3) = >>=-eq-some (scaled_market_tip fast tip) _ h2 in
    let bs = scaled_up_bounds tip 10_000 hs in
    let bm = scaled_up_bounds tip 12_500 hm in
    let bf = scaled_up_bounds tip 20_000 hf in ground arith

-- What a window with a complete row is read as.
pub from_window_read :
    (w : TipWindow) (market_tip : ℕ) {tips : TierTips}
    → from_window w market_tip ≡ some tips
    → let rows : List (List ℕ) = complete_rows w.rewards in
      (0 < length rows)
      × (tips_of_medians
            (column_median rows 0)
            (column_median rows 1)
            (column_median rows 2)
            (any (any (λ reward. ltb 0 reward)) rows)
            w.gas_used_ratio_bps
            market_tip
          ≡ some tips)
unfolding from_window
from_window_read w market_tip h = ground arith

pub from_window-IsOrdered :
    (w : TipWindow) (market_tip : ℕ) {tips : TierTips}
    → from_window w market_tip ≡ some tips
    → IsOrdered tips
from_window-IsOrdered w market_tip h =
    let (ne, read) = from_window_read w market_tip h in
    tips_of_medians-IsOrdered _ _ _ _ w.gas_used_ratio_bps market_tip read

-- Whichever way the tips were read, faster tiers bid no less than slower ones, and the floor that
-- a payment may be shaved to is at most the slowest tier's tip.
pub resolve-IsOrdered :
    (window : Option TipWindow) (market_tip : ℕ) {tips : TierTips}
    → resolve window market_tip ≡ some tips
    → IsOrdered tips
unfolding resolve
resolve-IsOrdered none market_tip h = scaled-IsOrdered market_tip h
resolve-IsOrdered (some w) market_tip h = elim (Option-cases (from_window w market_tip)) [
  | inl e ↦ scaled-IsOrdered market_tip (ground arith)
  | inr (t, e) ↦ from_window-IsOrdered w market_tip (ground arith)
]

-- In a quiet window, no tier bids more than twice the slowest.
pub quiet_window_bound :
    (p25 p50 p70 : ℕ) (paid_any : Bool) (ratio market_tip : ℕ) {tips : TierTips}
    → ratio < uncongested_gas_used_ratio_bps
    → tips_of_medians p25 p50 p70 paid_any (some ratio) market_tip ≡ some tips
    → tips.fast_tip ≤ 2 * tips.slow_tip
unfolding tips_of_medians scaled_market_tip scaled_up below
quiet_window_bound p25 p50 p70 paid_any ratio market_tip lt h = ground arith

-- A chain's tips are read over 20 to 256 of its blocks, and over at least a minute of them.
tip_window_blocks_bounds :
    (chain_id : ℕ)
    → (20 ≤ tip_window_blocks chain_id)
      × (tip_window_blocks chain_id ≤ 256)
      × (60_000 ≤ tip_window_blocks chain_id * unwrap_or (block_interval_ms chain_id) 2_000)
unfolding tip_window_blocks block_interval_ms
tip_window_blocks_bounds chain_id = ground arith
