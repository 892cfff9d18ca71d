-- ===== src/GasMath/Market/Quote.antt =====
-- vela-relay-core/src/gas_math.rs: quantities in hexadecimal, and the quote that a fee history gives.
use native.Mathlib.Nat.{pow-suc, div-add-mod'}
use vela_relay.Prelude.{
  ℕ, zero, suc, ◌+◌, ◌*◌, ◌/◌, ◌%◌, ◌^◌, ◌<◌, ◌≡◌, ◌≢◌, refl, some, ◌==◌, [], ◌∷◌, arith,
  Bool-cases, inl, inr,
}
use vela_relay.Prelude.Words.{u128_mod}
use vela_relay.Prelude.Text.{Text}
use vela_relay.Prelude.Result.{ok}
use vela_relay.GasMath.{resolve}
use vela_relay.GasMath.Tips.{resolve-IsOrdered}
use vela_relay.GasMath.Fees.{NetworkGasPrice, GasPriceTiers, tiers}
use vela_relay.GasMath.Fees.Delivery.{IsDearer, tiers-IsDearer}
use vela_relay.GasMath.Market.{
  hex_char, hex_digits, hex_digit, hex_value, from_hex, strip_0x, hex_quantity, parse_quantity,
  FeeHistory, window, next_block_base_fee, price_from_fee_history,
}

hex_value-char :
    (value d : ℕ) (rest : Text)
    → d < 16
    → value * 16 + d < u128_mod
    → hex_value value (hex_char d ∷ rest) ≡ hex_value (value * 16 + d) rest
unfolding hex_value hex_char hex_digit
hex_value-char value d rest lt fits = ground arith

hex_value-digits :
    (rounds n : ℕ) (digits : Text)
    → n < u128_mod
    → n < 16 ^ rounds
    → 0 < rounds
    → hex_value 0 (hex_digits rounds n digits) ≡ hex_value n digits
unfolding hex_digits
hex_value-digits zero n digits fits lt pos = ground arith
hex_value-digits (suc zero) n digits fits lt pos =
    let one = hex_value-char 0 n digits lt (omega arith) in ground arith
hex_value-digits (suc (suc rounds)) n digits fits lt pos =
    let p = pow-suc 16 (suc rounds) in
    let split = div-add-mod' n 16 in
    let small : n % 16 < 16 = omega arith in
    let longer : Text = hex_char (n % 16) ∷ digits in
    elim (Bool-cases (n / 16 == 0)) [
      | inl e ↦ let one = hex_value-char 0 n digits (ground arith) (omega arith) in ground arith
      | inr e ↦
          let ih =
            hex_value-digits (suc rounds) (n / 16) longer (omega arith) (omega arith)
              (omega arith) in
          let more = hex_value-char (n / 16) (n % 16) digits small (omega arith) in ground arith
    ]

-- Every printed number starts with a digit.
digits_head :
    (rounds n : ℕ) (digits : Text)
    → 0 < rounds
    → n < 16 ^ rounds
    → (c : ℕ) × (rest : Text) × (hex_digits rounds n digits ≡ c ∷ rest) × (c ≢ 43)
unfolding hex_digits hex_char
digits_head zero n digits pos lt = ground arith
digits_head (suc zero) n digits pos lt = (hex_char n, digits, ground arith, ground arith)
digits_head (suc (suc rounds)) n digits pos lt =
    let p = pow-suc 16 (suc rounds) in
    let split = div-add-mod' n 16 in
    elim (Bool-cases (n / 16 == 0)) [
      | inl e ↦ (hex_char n, digits, ground arith, ground arith)
      | inr e ↦
          let (c, rest, eq, ne) =
            digits_head (suc rounds) (n / 16) (hex_char (n % 16) ∷ digits) (omega arith)
              (omega arith) in
          (c, rest, ground arith, ne)
    ]

from_hex_unsigned : (c : ℕ) (rest : Text) → c ≢ 43 → from_hex (c ∷ rest) ≡ hex_value 0 (c ∷ rest)
unfolding from_hex
from_hex_unsigned c [] ne = refl
from_hex_unsigned c (d ∷ rest) ne = ground arith

parse_quantity-digits :
    (digits : Text) (c : ℕ) (rest : Text) (n : ℕ)
    → digits ≡ c ∷ rest
    → c ≢ 43
    → hex_value 0 digits ≡ hex_value n []
    → parse_quantity (48 ∷ 120 ∷ digits) ≡ ok n
unfolding parse_quantity strip_0x hex_value
parse_quantity-digits digits c rest n eq ne read =
    let unsigned = from_hex_unsigned c rest ne in ground arith

-- A quantity below 2 ^ 128 that is printed as the program prints it is read back.
pub parse_quantity-hex_quantity : (n : ℕ) → n < u128_mod → parse_quantity (hex_quantity n) ≡ ok n
unfolding hex_quantity
parse_quantity-hex_quantity n lt =
    let (c, rest, eq, ne) = digits_head 32 n [] (omega arith) lt in
    parse_quantity-digits (hex_digits 32 n []) c rest n eq ne
      (hex_value-digits 32 n [] lt lt (omega arith))

price_read :
    (history : FeeHistory) (tip : ℕ) {price : NetworkGasPrice}
    → price_from_fee_history history tip ≡ ok price
    → (next_block_base_fee history ≡ ok price.base_fee_per_gas)
      × (resolve (window history) tip ≡ some price.tier_tips)
unfolding price_from_fee_history
price_read history tip h = ground arith

-- A quote that a fee history gives is for the base fee of the next block, and its rows are ordered
-- as the tiers are, in the cap, in the tip and in the network fee.
pub price_from_fee_history-IsDearer :
    (history : FeeHistory) (tip : ℕ) {price : NetworkGasPrice} {rows : GasPriceTiers}
    → price_from_fee_history history tip ≡ ok price
    → tiers price ≡ ok rows
    → (next_block_base_fee history ≡ ok price.base_fee_per_gas)
      × IsDearer rows.slow_price rows.standard_price
      × IsDearer rows.standard_price rows.fast_price
price_from_fee_history-IsDearer history tip {price} h k =
    let (eq, read) = price_read history tip h in
    let rows = tiers-IsDearer price (resolve-IsOrdered (window history) tip read) k in
    (eq, rows.0, rows.1)
