-- ===== src/GasMath/Market.antt =====
-- vela-relay-core/src/gas_math.rs: reading the market out of a node's answers. The mean of the
-- `gasUsedRatio` column is floating-point arithmetic, so a fee history carries its reading here.
pub mod Quote
pub mod Tip
use vela_relay.Prelude.{
  ℕ, zero, suc, ◌+◌, ◌-◌, ◌*◌, ◌/◌, ◌%◌, Option, none, some, max, ltb, leb, ◌==◌, ◌&&◌, Bool, true,
  false, if◌then◌else◌, List, [], ◌∷◌, length, get_elem?, ◌>>=◌, ◌>>◌,
}
use vela_relay.Prelude.Words.{u128_mod, checked_add, checked_mul, checked_sub}
use vela_relay.Prelude.Text.{Text}
use vela_relay.Prelude.Result.{Result, ok, err, ok_or}
use vela_relay.Prelude.Result
use vela_relay.GasMath.{TipWindow, div_ceil, resolve, scaled}
use vela_relay.GasMath.Fees.{
  GasPriceError, invalid_upstream_response, arithmetic_overflow, NetworkGasPrice,
}

-- `char::to_digit(16)`.
unfoldable pub hex_digit : ℕ → Option ℕ
hex_digit c =
    if leb 48 c && leb c 57
    then some (c - 48)
    else if leb 97 c && leb c 102
    then some (c - 87)
    else if leb 65 c && leb c 70
    then some (c - 55)
    else none

-- `u128::from_str_radix` past its sign, from the value read so far.
unfoldable pub hex_value : ℕ → Text → Option ℕ
hex_value value [] = some value
hex_value value (c ∷ rest) = do
  digit ← hex_digit c
  shifted ← checked_mul u128_mod value 16
  next ← checked_add u128_mod shifted digit
  hex_value next rest

-- `u128::from_str_radix(value, 16)`: a leading `+` is read over, and at least one digit follows it.
unfoldable pub from_hex : Text → Option ℕ
from_hex [] = none
from_hex (c ∷ []) = hex_value 0 (c ∷ [])
from_hex (c ∷ d ∷ rest) = if c == 43 then hex_value 0 (d ∷ rest) else hex_value 0 (c ∷ d ∷ rest)

unfoldable pub strip_0x : Text → Option Text
strip_0x (c ∷ d ∷ rest) = if c == 48 && d == 120 then some rest else none
strip_0x _ = none

-- The digits of `{:x}`, in front of those that are there. 32 rounds print any u128.
hex_char : ℕ → ℕ
hex_char d = if leb d 9 then 48 + d else 87 + d

hex_digits : ℕ → ℕ → Text → Text
unfolding hex_char
hex_digits zero n digits = digits
hex_digits (suc rounds) n digits =
    let longer : Text = hex_digits rounds (n / 16) (hex_char (n % 16) ∷ digits) in
    if n / 16 == 0 then hex_char n ∷ digits else longer

-- `format!("0x{:x}", n)`.
unfoldable pub hex_quantity : ℕ → Text
unfolding hex_digits
hex_quantity n = 48 ∷ 120 ∷ hex_digits 32 n []

-- The same of a U256, which 64 rounds print.
unfoldable pub hex_word : ℕ → Text
unfolding hex_digits
hex_word n = 48 ∷ 120 ∷ hex_digits 64 n []

unfoldable pub parse_quantity : Text → Result GasPriceError ℕ
parse_quantity value = Result.◌>>=◌ (ok_or (strip_0x value) invalid_upstream_response) (λ digits.
    if length digits == 0
    then err invalid_upstream_response
    else ok_or (from_hex digits) invalid_upstream_response)

pub record FeeHistory : Type 0 where
  pub base_fee_per_gas : List Text
  pub reward : Option (List (List Text))
  pub mean_gas_used_ratio_bps : Option ℕ

-- `collect::<Option<Vec<_>>>()` of the parsed quantities.
unfoldable pub parse_row : List Text → Option (List ℕ)
parse_row [] = some []
parse_row (value ∷ row) = do
  quantity ← elim (parse_quantity value) [ ok q ↦ some q | err _ ↦ none ]
  rest ← parse_row row
  some (quantity ∷ rest)

unfoldable pub parse_rows : List (List Text) → Option (List (List ℕ))
parse_rows [] = some []
parse_rows (row ∷ rows) = do
  quantities ← parse_row row
  rest ← parse_rows rows
  some (quantities ∷ rest)

unfoldable pub rewards_of : FeeHistory → Option (List (List ℕ))
rewards_of history = do
  rows ← history.reward
  quantities ← parse_rows rows
  if length quantities == 0 then none else some quantities

unfoldable pub window : FeeHistory → Option TipWindow
window history = do
  rewards ← rewards_of history
  some (record { rewards = rewards; gas_used_ratio_bps = history.mean_gas_used_ratio_bps })

unfoldable pub last : List Text → Option Text
last [] = none
last (x ∷ []) = some x
last (x ∷ y ∷ rest) = last (y ∷ rest)

unfoldable pub next_block_base_fee : FeeHistory → Result GasPriceError ℕ
next_block_base_fee history =
    Result.◌>>=◌ (ok_or (last history.base_fee_per_gas) invalid_upstream_response) parse_quantity

-- The entry before the last, else the last one.
unfoldable pub latest_entry : List Text → Option Text
latest_entry entries = elim (checked_sub (length entries) 2 >>= get_elem? entries) [
  | some entry ↦ some entry
  | none ↦ last entries
]

unfoldable pub latest_block_base_fee : FeeHistory → Result GasPriceError ℕ
latest_block_base_fee history =
    Result.◌>>=◌ (ok_or (latest_entry history.base_fee_per_gas) invalid_upstream_response)
      parse_quantity

unfoldable pub price_from_fee_history : FeeHistory → ℕ → Result GasPriceError NetworkGasPrice
price_from_fee_history history priority_fee =
    Result.◌>>=◌ (next_block_base_fee history) (λ base_fee_per_gas.
      Result.◌>>=◌ (ok_or (resolve (window history) priority_fee) arithmetic_overflow) (λ tips.
        ok (record {
          base_fee_per_gas = base_fee_per_gas;
          max_priority_fee_per_gas = priority_fee;
          tier_tips = tips;
        })))

unfoldable pub tip_from_legacy_gas_price : ℕ → ℕ → Option ℕ
tip_from_legacy_gas_price gas_price base_fee = checked_sub gas_price base_fee

unfoldable pub market_tip : Option ℕ → Option ℕ → ℕ → Option ℕ
unfolding tip_from_legacy_gas_price
market_tip (some tip) legacy_gas_price latest_base_fee = some tip
market_tip none legacy_gas_price latest_base_fee =
    legacy_gas_price >>= λ gas_price. tip_from_legacy_gas_price gas_price latest_base_fee

unfoldable pub fallback_priority_fee : ℕ → ℕ → ℕ
fallback_priority_fee base_fee priority_fee_divisor = max (div_ceil base_fee priority_fee_divisor) 1

unfoldable pub quote_market_tip : FeeHistory → Option ℕ → Option ℕ → ℕ → Result GasPriceError ℕ
quote_market_tip history max_priority_fee_per_gas legacy_gas_price priority_fee_divisor =
    Result.◌>>=◌ (latest_block_base_fee history) (λ latest.
      elim (market_tip max_priority_fee_per_gas legacy_gas_price latest) [
        | some tip ↦ ok tip
        | none ↦
            Result.◌>>=◌ (next_block_base_fee history)
              (λ next. ok (fallback_priority_fee next priority_fee_divisor))
      ])

-- The answer of `eth_gasPrice`, where it is a string.
unfoldable pub legacy_price_from_result : Option Text → Result GasPriceError NetworkGasPrice
legacy_price_from_result result =
    Result.◌>>=◌ (Result.◌>>=◌ (ok_or result invalid_upstream_response) parse_quantity) (λ value.
      Result.◌>>=◌ (ok_or (scaled value) arithmetic_overflow) (λ tips.
        ok (record { base_fee_per_gas = 0; max_priority_fee_per_gas = value; tier_tips = tips })))
