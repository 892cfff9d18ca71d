-- ===== src/GasMath.antt =====
-- vela-relay-core/src/gas_math.rs: the submission tiers, the fees they are signed at, and the tips
-- that a window of recent blocks gives them.
pub mod Tips
pub mod Median
pub mod Fees
pub mod Market
use vela_relay.Prelude.{
  ℕ, zero, suc, ◌+◌, ◌-◌, ◌*◌, ◌/◌, ◌%◌, ◌≤◌, ◌≡◌, refl, Option, none, some, min, max, ltb, leb,
  ◌==◌, not, ◌||◌, ◌&&◌, Bool, true, false, if◌then◌else◌, List, [], ◌∷◌, map, length, get_elem?,
  any, unwrap_or, ◌>>=◌, ◌>>◌, guard, is_some,
}
use vela_relay.Prelude.Words.{
  u128_mod, u256_mod, checked, checked_add, checked_mul, checked_sub, saturating_sub, clamp,
}
use vela_relay.Prelude.Text.{Text, codes}
use vela_relay.Prelude.Result.{Result, ok, err, ok_or}
use vela_relay.Prelude.Result
use vela_relay.Pace.{block_interval_ms, default_block_interval_ms}

pub data SubmissionTier : Type 0 where
  slow standard fast : SubmissionTier

abbrev pub base_fee_bps : SubmissionTier → ℕ
base_fee_bps slow = 15_000
base_fee_bps standard = 15_000
base_fee_bps fast = 17_500

abbrev pub legacy_base_fee_bps : SubmissionTier → ℕ
legacy_base_fee_bps slow = 15_000
legacy_base_fee_bps standard = 20_000
legacy_base_fee_bps fast = 30_000

abbrev pub legacy_tip_bps : SubmissionTier → ℕ
legacy_tip_bps slow = 10_000
legacy_tip_bps standard = 12_500
legacy_tip_bps fast = 20_000

abbrev pub reimbursement_basis_bps : ℕ
reimbursement_basis_bps = 6_000

abbrev pub network_fee_bps : SubmissionTier → ℕ
network_fee_bps tier = legacy_base_fee_bps tier * reimbursement_basis_bps / 10_000

abbrev pub tip_window_ms : ℕ
tip_window_ms = 60_000

abbrev pub tip_window_min_blocks : ℕ
tip_window_min_blocks = 20

abbrev pub tip_window_max_blocks : ℕ
tip_window_max_blocks = 256

abbrev pub div_ceil : ℕ → ℕ → ℕ
div_ceil n d = n / d + (if n % d == 0 then 0 else 1)

unfoldable pub tip_window_blocks : ℕ → ℕ
tip_window_blocks chain_id =
    let interval : ℕ = max (unwrap_or (block_interval_ms chain_id) default_block_interval_ms) 1 in
    clamp (div_ceil tip_window_ms interval) tip_window_min_blocks tip_window_max_blocks

abbrev pub uncongested_gas_used_ratio_bps : ℕ
uncongested_gas_used_ratio_bps = 3_000

abbrev pub near_uncongested_gas_used_ratio_bps : ℕ
near_uncongested_gas_used_ratio_bps = 4_000

abbrev pub min_positive_tip : ℕ
min_positive_tip = 1_000_000

-- What both scalings do with a product in basis points: divide, round up, and fit in a u128.
unfoldable pub scaled_up : ℕ → ℕ → Option ℕ
scaled_up value bps = do
  product ← checked_mul u256_mod value bps
  scaled ←
      if product % 10_000 == 0
      then some (product / 10_000)
      else checked_add u256_mod (product / 10_000) 1
  checked u128_mod scaled

unfoldable pub scaled_market_tip : SubmissionTier → ℕ → Option ℕ
scaled_market_tip tier market_tip = scaled_up market_tip (legacy_tip_bps tier)

pub record TierTips : Type 0 where
  pub slow_tip : ℕ
  pub standard_tip : ℕ
  pub fast_tip : ℕ
  pub floor : ℕ

abbrev pub tip_of : TierTips → SubmissionTier → ℕ
tip_of tips slow = tips.slow_tip
tip_of tips standard = tips.standard_tip
tip_of tips fast = tips.fast_tip

pub record TipWindow : Type 0 where
  pub rewards : List (List ℕ)
  pub gas_used_ratio_bps : Option ℕ

insert : ℕ → List ℕ → List ℕ
insert x [] = x ∷ []
insert x (y ∷ ys) = let rest : List ℕ = insert x ys in if leb x y then x ∷ y ∷ ys else y ∷ rest

-- `sort_unstable` of numbers.
sort : List ℕ → List ℕ
unfolding insert
sort [] = []
sort (x ∷ xs) = insert x (sort xs)

-- An index that is in range where the program uses it.
abbrev pub nth : List ℕ → ℕ → ℕ
nth values i = unwrap_or (get_elem? values i) 0

unfoldable pub median : List ℕ → ℕ
unfolding sort
median column =
    let values : List ℕ = sort column in
    let middle : ℕ = length values / 2 in
    if length values % 2 == 1
    then nth values middle
    else (nth values (middle - 1) + div_ceil (nth values middle - nth values (middle - 1)) 2)

unfoldable pub complete_rows : List (List ℕ) → List (List ℕ)
complete_rows [] = []
complete_rows (row ∷ rows) =
    let rest : List (List ℕ) = complete_rows rows in if length row == 3 then row ∷ rest else rest

unfoldable pub column_median : List (List ℕ) → ℕ → ℕ
unfolding median
column_median rewards column = median (map (λ row. nth row column) rewards)

unfoldable pub below : Option ℕ → ℕ → Bool
below none bound = false
below (some ratio) bound = ltb ratio bound

-- `from_window` after its window has been read: the three medians, whether any block paid a tip, the
-- mean fullness and the node's own tip.
unfoldable pub tips_of_medians : ℕ → ℕ → ℕ → Bool → Option ℕ → ℕ → Option TierTips
unfolding below
tips_of_medians p25 p50 p70 paid_any ratio market_tip =
    let least : ℕ = if paid_any then min_positive_tip else 0 in
    let evidence : Bool = ltb 0 p50 in
    let node : Option ℕ = if not evidence || leb market_tip p50 then some market_tip else none in
    let rewarded : ℕ = max p25 least in
    let quiet_slow : ℕ = elim node [ some tip ↦ max tip least | none ↦ rewarded ] in
    let proven : ℕ = if evidence then rewarded else quiet_slow in
    if below ratio uncongested_gas_used_ratio_bps
    then (do
      scaled_standard ← scaled_market_tip standard quiet_slow
      scaled_fast ← scaled_market_tip fast quiet_slow
      let standard_tip : ℕ = max (min scaled_standard p50) quiet_slow
      some (record {
        slow_tip = quiet_slow;
        standard_tip = standard_tip;
        fast_tip = max (min scaled_fast p70) standard_tip;
        floor = min quiet_slow proven;
      }))
    else (let slow_tip : ℕ = max rewarded (unwrap_or node 0) in
        let standard_tip : ℕ = max p50 slow_tip in
        some (record {
          slow_tip = slow_tip;
          standard_tip = standard_tip;
          fast_tip = max p70 standard_tip;
          floor =
              if below ratio near_uncongested_gas_used_ratio_bps
              then min proven quiet_slow
              else proven;
        }))

unfoldable pub from_window : TipWindow → ℕ → Option TierTips
unfolding complete_rows column_median tips_of_medians
from_window window market_tip =
    let rewards : List (List ℕ) = complete_rows window.rewards in
    if length rewards == 0
    then none
    else tips_of_medians (column_median rewards 0) (column_median rewards 1)
        (column_median rewards 2) (any (any (λ reward. ltb 0 reward)) rewards)
        window.gas_used_ratio_bps market_tip

unfoldable pub scaled : ℕ → Option TierTips
scaled market_tip = do
  slow_tip ← scaled_market_tip slow market_tip
  standard_tip ← scaled_market_tip standard market_tip
  fast_tip ← scaled_market_tip fast market_tip
  some (record {
    slow_tip = slow_tip;
    standard_tip = standard_tip;
    fast_tip = fast_tip;
    floor = market_tip;
  })

unfoldable pub resolve : Option TipWindow → ℕ → Option TierTips
resolve none market_tip = scaled market_tip
resolve (some window) market_tip = elim (from_window window market_tip) [
  | some tips ↦ some tips
  | none ↦ scaled market_tip
]
