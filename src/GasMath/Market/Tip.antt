-- ===== src/GasMath/Market/Tip.antt =====
-- vela-relay-core/src/gas_math.rs: the tip that a quote prices the tiers from, and the one that the
-- executor reads.
use native.Mathlib.Nat.{div-add-mod', mod-lt, suc-mul}
use mathlib.Core.Path.{subst}
use vela_relay.Prelude.{
  ℕ, zero, suc, ◌+◌, ◌-◌, ◌*◌, ◌/◌, ◌%◌, ◌≤◌, ◌<◌, ◌≡◌, ◌⊎◌, inl, inr, refl, ap, sym, ◌∙◌, true,
  false, Option, none, some, List, [], ◌∷◌, ◌++◌, length, get_elem?, ltb, ◌==◌, max, Bool-cases,
  arith,
}
use vela_relay.Prelude
use vela_relay.Prelude.Words.{u128_mod, checked_sub}
use vela_relay.Prelude.Text.{Text}
use vela_relay.Prelude.Result.{ok}
use vela_relay.GasMath.{div_ceil}
use vela_relay.GasMath.Market.{
  FeeHistory, hex_quantity, last, latest_entry, latest_block_base_fee, next_block_base_fee,
  market_tip, fallback_priority_fee, quote_market_tip,
}
use vela_relay.GasMath.Market.Quote.{parse_quantity-hex_quantity}

-- The least tip above 0 that `divisor` times covers the base fee.
abbrev pub IsLastResort : ℕ → ℕ → ℕ → Type 0
IsLastResort base_fee divisor tip =
    (1 ≤ tip) × (base_fee ≤ tip * divisor) × ((tip ≡ 1) ⊎ ((tip - 1) * divisor < base_fee))

-- What the node bids; where it names no tip, what its gas price leaves above the latest base fee;
-- and where that is nothing either, the last resort on the next base fee, which is the one case in
-- which the executor reads no tip.
abbrev pub IsQuoted :
    (priority legacy : Option ℕ) (latest next divisor tip : ℕ) (read : Option ℕ) → Type 0
IsQuoted (some bid) legacy latest next divisor tip read = (tip ≡ bid) × (read ≡ some tip)
IsQuoted none none latest next divisor tip read = IsLastResort next divisor tip × (read ≡ none)
IsQuoted none (some gas_price) latest next divisor tip read =
    ((latest + tip ≡ gas_price) × (read ≡ some tip))
    ⊎ ((gas_price < latest) × IsLastResort next divisor tip × (read ≡ none))

length-before : (older : List Text) (a b : Text) → length (older ++ a ∷ b ∷ []) ≡ length older + 2
length-before [] a b = refl
length-before (x ∷ older) a b = let e = length-before older a b in omega arith

get_elem?-before :
    (older : List Text) (a b : Text) → get_elem? (older ++ a ∷ b ∷ []) (length older) ≡ some a
get_elem?-before [] a b = refl
get_elem?-before (x ∷ older) a b = get_elem?-before older a b

last-before : (older : List Text) (a b : Text) → last (older ++ a ∷ b ∷ []) ≡ some b
unfolding last
last-before [] a b = refl
last-before (x ∷ []) a b = refl
last-before (x ∷ y ∷ older) a b = last-before (y ∷ older) a b

latest_entry-before : (older : List Text) (a b : Text) → latest_entry (older ++ a ∷ b ∷ []) ≡ some a
unfolding latest_entry
latest_entry-before older a b =
    let len = length-before older a b in
    let found = get_elem?-before older a b in
    let two : checked_sub (length (older ++ a ∷ b ∷ [])) 2 ≡ some (length older) = ground arith in
    let second : Prelude.◌>>=◌ (checked_sub (length (older ++ a ∷ b ∷ [])) 2)
          (get_elem? (older ++ a ∷ b ∷ []))
        ≡ some a =
      ap (λ i. Prelude.◌>>=◌ i (get_elem? (older ++ a ∷ b ∷ []))) two ∙ found in
    ap (λ x. elim x [ some entry ↦ some entry | none ↦ last (older ++ a ∷ b ∷ []) ]) second

module _ (history : FeeHistory) (older : List Text) (latest next : ℕ)
    (entries : history.base_fee_per_gas
      ≡ older ++ hex_quantity latest ∷ hex_quantity next ∷ []) where
  latest_block_base_fee-before : latest < u128_mod → latest_block_base_fee history ≡ ok latest
  unfolding latest_block_base_fee
  latest_block_base_fee-before lt =
      rw (entries, latest_entry-before older (hex_quantity latest) (hex_quantity next))
        (parse_quantity-hex_quantity latest lt)

  next_block_base_fee-before : next < u128_mod → next_block_base_fee history ≡ ok next
  unfolding next_block_base_fee
  next_block_base_fee-before lt =
      rw (entries, last-before older (hex_quantity latest) (hex_quantity next))
        (parse_quantity-hex_quantity next lt)

exact_least : (n d q : ℕ) → 0 < d → q * d ≡ n → (n ≤ q * d) × ((q ≡ 0) ⊎ ((q - 1) * d < n))
exact_least n d zero pos e = (omega arith, inl refl)
exact_least n d (suc q) pos e =
    let less : suc q - 1 ≡ q = omega arith in
    let product = suc-mul q d in (omega arith, inr (rw less (omega arith)))

rest_least :
    (n d q r : ℕ)
    → r < d
    → 0 < r
    → q * d + r ≡ n
    → (n ≤ (q + 1) * d) × ((q + 1 ≡ 0) ⊎ ((q + 1 - 1) * d < n))
rest_least n d q r lt pos e =
    let less : q + 1 - 1 ≡ q = omega arith in
    let product : (q + 1) * d ≡ q * d + d = omega arith in
    (omega arith, inr (rw less (omega arith)))

last_resort :
    (next divisor c : ℕ)
    → (next ≤ c * divisor) × ((c ≡ 0) ⊎ ((c - 1) * divisor < next))
    → IsLastResort next divisor (max c 1)
last_resort next divisor zero (le, least) = (omega arith, omega arith, inl (omega arith))
last_resort next divisor (suc c) (le, inl z) = ground arith
last_resort next divisor (suc c) (le, inr least) =
    let same : max (suc c) 1 ≡ suc c = omega arith in rw same (omega arith, le, inr least)

-- The division, rounded up, is the least number that times the divisor covers the first.
div_ceil_least :
    (n d : ℕ) → 0 < d → (n ≤ div_ceil n d * d) × ((div_ceil n d ≡ 0) ⊎ ((div_ceil n d - 1) * d < n))
div_ceil_least n d pos =
    let split = div-add-mod' n d in
    let small = mod-lt n pos in
    elim (Bool-cases (n % d == 0)) [
      | inl exact ↦
          let c : div_ceil n d ≡ n / d = ground arith in
          subst (λ c. (n ≤ c * d) × ((c ≡ 0) ⊎ ((c - 1) * d < n))) (sym c)
            (exact_least n d (n / d) pos (ground arith))
      | inr more ↦
          let c : div_ceil n d ≡ n / d + 1 = ground arith in
          subst (λ c. (n ≤ c * d) × ((c ≡ 0) ⊎ ((c - 1) * d < n))) (sym c)
            (rest_least n d (n / d) (n % d) small (ground arith) split)
    ]

fallback-IsLastResort :
    (next divisor : ℕ)
    → 0 < divisor
    → IsLastResort next divisor (fallback_priority_fee next divisor)
unfolding fallback_priority_fee
fallback-IsLastResort next divisor pos =
    last_resort next divisor (div_ceil next divisor) (div_ceil_least next divisor pos)

module _ (history : FeeHistory) (priority legacy : Option ℕ) (latest next divisor : ℕ)
    (l : latest_block_base_fee history ≡ ok latest) where
  quote-market_tip :
      (tip : ℕ)
      → market_tip priority legacy latest ≡ some tip
      → quote_market_tip history priority legacy divisor ≡ ok tip
  unfolding quote_market_tip
  quote-market_tip tip e = ground arith

  quote-fallback :
      next_block_base_fee history ≡ ok next
      → market_tip priority legacy latest ≡ none
      → quote_market_tip history priority legacy divisor ≡ ok (fallback_priority_fee next divisor)
  unfolding quote_market_tip
  quote-fallback n e = ground arith

market_tip-below :
    (gas_price latest : ℕ)
    → ltb gas_price latest ≡ true
    → market_tip none (some gas_price) latest ≡ none
unfolding market_tip
market_tip-below gas_price latest e = ground arith

market_tip-above :
    (gas_price latest : ℕ)
    → ltb gas_price latest ≡ false
    → market_tip none (some gas_price) latest ≡ some (gas_price - latest)
unfolding market_tip
market_tip-above gas_price latest e = ground arith

market_tip-bid :
    (bid latest : ℕ) (legacy : Option ℕ) → market_tip (some bid) legacy latest ≡ some bid
unfolding market_tip
market_tip-bid bid latest legacy = refl

market_tip-nothing : (latest : ℕ) → market_tip none none latest ≡ none
unfolding market_tip
market_tip-nothing latest = refl

quote_market_tip-read :
    (history : FeeHistory) (priority legacy : Option ℕ) (latest next divisor : ℕ)
    → latest_block_base_fee history ≡ ok latest
    → next_block_base_fee history ≡ ok next
    → 0 < divisor
    → (tip : ℕ) × (quote_market_tip history priority legacy divisor ≡ ok tip)
      × IsQuoted priority legacy latest next divisor tip (market_tip priority legacy latest)
quote_market_tip-read history (some bid) legacy latest next divisor l n pos =
    let e = market_tip-bid bid latest legacy in
    (bid, quote-market_tip history (some bid) legacy latest next divisor l bid e, (refl, e))
quote_market_tip-read history none none latest next divisor l n pos =
    let e = market_tip-nothing latest in
    (
      fallback_priority_fee next divisor,
      quote-fallback history none none latest next divisor l n e,
      (fallback-IsLastResort next divisor pos, e),
    )
quote_market_tip-read history none (some gas_price) latest next divisor l n pos =
    elim (Bool-cases (ltb gas_price latest)) [
      | inl below ↦
          let e = market_tip-below gas_price latest below in
          (
            fallback_priority_fee next divisor,
            quote-fallback history none (some gas_price) latest next divisor l n e,
            inr (ground arith, fallback-IsLastResort next divisor pos, e),
          )
      | inr above ↦
          let e = market_tip-above gas_price latest above in
          (
            gas_price - latest,
            quote-market_tip history none (some gas_price) latest next divisor l
                (gas_price - latest) e,
            inl (ground arith, e),
          )
    ]

-- Where a fee history ends in the base fees of the latest block and of the next one, as the node
-- prints them, and the divisor is not 0: the quote has a tip. It is the one that the node names;
-- where it names none, what the gas price leaves above the latest block's base fee; and where
-- there is no gas price, or it is below that base fee, the least tip above 0 that, times the
-- divisor, covers the next block's base fee. The executor's reading at the latest block's base fee
-- is that tip in the first two cases, and no tip in the last.
pub quote_market_tip-IsQuoted :
    (history : FeeHistory) (older : List Text) (priority legacy : Option ℕ)
    (latest next divisor : ℕ)
    → history.base_fee_per_gas ≡ older ++ hex_quantity latest ∷ hex_quantity next ∷ []
    → latest < u128_mod
    → next < u128_mod
    → 0 < divisor
    → (tip : ℕ) × (quote_market_tip history priority legacy divisor ≡ ok tip)
      × IsQuoted priority legacy latest next divisor tip (market_tip priority legacy latest)
quote_market_tip-IsQuoted history older priority legacy latest next divisor entries l n pos =
    quote_market_tip-read history priority legacy latest next divisor
      (latest_block_base_fee-before history older latest next entries l)
      (next_block_base_fee-before history older latest next entries n) pos
