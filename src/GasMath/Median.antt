-- ===== src/GasMath/Median.antt =====
-- vela-relay-core/src/gas_math.rs: the median of a reward column (`TierTips::from_window`).
use vela_relay.Prelude.{
  ℕ, zero, suc, ◌-◌, ◌/◌, ◌≤◌, ◌<◌, ◌≡◌, refl, Option, some, leb, Bool, true, false, List, [], ◌∷◌,
  map, length, length-map, All, arith, if◌then◌else◌, ap, ◌∙◌,
}
use vela_relay.GasMath.{
  TierTips, TipWindow, insert, sort, median, nth, complete_rows, column_median, below,
  tips_of_medians, from_window, uncongested_gas_used_ratio_bps,
}
use vela_relay.GasMath.Tips.{from_window_read}

insert-All : (P : ℕ → Type 0) (x : ℕ) (xs : List ℕ) → P x → All P xs → All P (insert x xs)
unfolding insert
insert-All P x [] px ps = (px, ps)
insert-All P x (y ∷ ys) px (py, ps) =
    elim (leb x y) as (λ b. All P (if b then x ∷ y ∷ ys else y ∷ insert x ys)) [
      | true ↦ (px, (py, ps))
      | false ↦ (py, insert-All P x ys px ps)
    ]

sort-All : (P : ℕ → Type 0) (xs : List ℕ) → All P xs → All P (sort xs)
unfolding sort
sort-All P [] ps = ps
sort-All P (x ∷ xs) (px, ps) = insert-All P x (sort xs) px (sort-All P xs ps)

nth-All : (P : ℕ → Type 0) (xs : List ℕ) (i : ℕ) → All P xs → i < length xs → P (nth xs i)
nth-All P [] i ps lt = ground arith
nth-All P (x ∷ xs) zero (px, ps) lt = px
nth-All P (x ∷ xs) (suc i) (px, ps) lt = nth-All P xs i ps (omega arith)

insert-length : (x : ℕ) (xs : List ℕ) → length (insert x xs) ≡ suc (length xs)
unfolding insert
insert-length x [] = refl
insert-length x (y ∷ ys) = let ih = insert-length x ys in ground arith

sort-length : (xs : List ℕ) → length (sort xs) ≡ length xs
unfolding sort
sort-length [] = refl
sort-length (x ∷ xs) = insert-length x (sort xs) ∙ ap suc (sort-length xs)

-- A bound of every value bounds their median.
pub median_ge :
    (m : ℕ) (column : List ℕ) → 0 < length column → All (λ v. m ≤ v) column → m ≤ median column
unfolding median
median_ge m column ne ge =
    let values : List ℕ = sort column in
    let n = sort-length column in
    let at : (i : ℕ) → i < length values → m ≤ nth values i =
      λ i. nth-All (λ v. m ≤ v) values i (sort-All (λ v. m ≤ v) column ge) in
    let low : m ≤ nth values (length values / 2 - 1) = at _ (omega arith) in
    let high : m ≤ nth values (length values / 2) = at _ (omega arith) in ground arith

column_ge :
    (m : ℕ) (column : ℕ) (rows : List (List ℕ))
    → All (λ row. m ≤ nth row column) rows
    → All (λ v. m ≤ v) (map (λ row. nth row column) rows)
column_ge m column [] h = h
column_ge m column (row ∷ rows) (h, hs) = (h, column_ge m column rows hs)

busy_slow_tip :
    (p25 p50 p70 : ℕ) (paid_any : Bool) (ratio : Option ℕ) (market_tip : ℕ) {tips : TierTips}
    → below ratio uncongested_gas_used_ratio_bps ≡ false
    → tips_of_medians p25 p50 p70 paid_any ratio market_tip ≡ some tips
    → p25 ≤ tips.slow_tip
unfolding tips_of_medians
busy_slow_tip p25 p50 p70 paid_any ratio market_tip busy h = ground arith

-- In a window that is not quiet, the slowest tier's tip is no less than any amount that the lowest
-- percentile of every complete row reached.
pub slow_tip-clears :
    (w : TipWindow) (market_tip m : ℕ) {tips : TierTips}
    → below w.gas_used_ratio_bps uncongested_gas_used_ratio_bps ≡ false
    → All (λ row. m ≤ nth row 0) (complete_rows w.rewards)
    → from_window w market_tip ≡ some tips
    → m ≤ tips.slow_tip
unfolding column_median
slow_tip-clears w market_tip m {tips} busy ge h =
    let rows : List (List ℕ) = complete_rows w.rewards in
    let (ne, read) = from_window_read w market_tip h in
    let column : List ℕ = map (λ row. nth row 0) rows in
    let len = length-map (λ (row : List ℕ). nth row 0) rows in
    let le : m ≤ column_median rows 0 = median_ge m column (omega arith) (column_ge m 0 rows ge) in
    let slow = busy_slow_tip _ _ _ _ w.gas_used_ratio_bps market_tip busy read in omega arith
