-- ===== src/Treasury/Quantity.antt =====
-- vela-relay-core/src/treasury.rs: `quantity_is_below` compares the numbers that are written.
use vela_relay.Prelude.{
  ℕ, ◌*◌, ◌^◌, ◌≤◌, ◌<◌, ◌≡◌, ◌≢◌, ◌⊎◌, ap, refl, inl, inr, true, some, [], ◌∷◌, ltb, map, length,
  All, arith,
}
use native.Mathlib.Nat.{pow-suc, pow-le-pow_right, mul-le-mul_right}
use vela_relay.Prelude.Text.{Text, byte_len, to_ascii_lowercase}
use vela_relay.Prelude.Hex.{all_hexdigits}
use vela_relay.Treasury.Digits.{
  digit, number, IsDigit, lt_trichotomy, number-lt, text_lt-number, lower_digits,
}
use vela_relay.Treasury.{
  parse_quantity, quantity_of, trim_0x, trim_zeros, is_below, quantity_is_below,
}

-- Digits are written in one byte each.
byte_len-length : (cs : Text) → All IsDigit cs → byte_len cs ≡ length cs
byte_len-length [] h = refl
byte_len-length (c ∷ cs) (hc, h) = let l = byte_len-length cs h in ground arith

digit_zero : (c : ℕ) → IsDigit c → (c ≡ 48) ⊎ ((c ≢ 48) × (1 ≤ digit c))
digit_zero c h = ground arith

-- What is left without its zeros is still digits and the same number, and has the most digits that
-- the number needs.
pub trim_zeros_lem :
    (cs : Text)
    → All IsDigit cs
    → All IsDigit (trim_zeros cs)
      × (number (trim_zeros cs) ≡ number cs)
      × ((trim_zeros cs ≡ []) ⊎ (16 ^ length (trim_zeros cs) ≤ 16 * number cs))
unfolding trim_zeros number
trim_zeros_lem [] h = ground arith
trim_zeros_lem (c ∷ cs) (hc, h) =
    let rest = trim_zeros_lem cs h in
    let p = pow-suc 16 (length cs) in
    elim (digit_zero c hc) [
      | inl zero_digit ↦ let q = ap (λ (d : ℕ). digit d * 16 ^ length cs) zero_digit in ground arith
      | inr (other, lt) ↦ let l = mul-le-mul_right (16 ^ length cs) lt in ground arith
    ]

shorter-lt :
    (v f : Text)
    → length v < length f
    → number v < 16 ^ length v
    → (f ≡ []) ⊎ (16 ^ length f ≤ 16 * number f)
    → number v < number f
shorter-lt v [] lt b t = omega arith
shorter-lt v (c ∷ cs) lt b (inl e) = cc
shorter-lt v (c ∷ cs) lt b (inr le) =
    let p = pow-suc 16 (length cs) in
    let m = pow-le-pow_right {n = 16} (omega arith) {i = length v} {j = length cs} (omega arith) in
    omega arith

is_below-number :
    (v f : Text)
    → All IsDigit v
    → All IsDigit f
    → (v ≡ []) ⊎ (16 ^ length v ≤ 16 * number v)
    → (f ≡ []) ⊎ (16 ^ length f ≤ 16 * number f)
    → is_below v f ≡ ltb (number v) (number f)
unfolding is_below
is_below-number v f hv hf tv tf =
    let lv = byte_len-length v hv in
    let lf = byte_len-length f hf in
    let bv = number-lt v hv in
    let bf = number-lt f hf in
    elim (lt_trichotomy (length v) (length f)) [
      | inl lt ↦ let m = shorter-lt v f lt bv tf in ground arith
      | inr (inl same) ↦ let o = text_lt-number v f hv hf same in ground arith
      | inr (inr gt) ↦ let m = shorter-lt f v gt bf tv in ground arith
    ]

trim_0x-digits : (cs : Text) → All IsDigit cs → trim_0x cs ≡ cs
unfolding trim_0x
trim_0x-digits [] h = refl
trim_0x-digits (c ∷ []) h = refl
trim_0x-digits (c ∷ d ∷ cs) (hc, (hd, h)) = ground arith

pub quantity_is_below_digits :
    (v f : Text)
    → All IsDigit v
    → All IsDigit f
    → quantity_is_below (48 ∷ 120 ∷ v) (48 ∷ 120 ∷ f) ≡ ltb (number v) (number f)
unfolding quantity_is_below trim_0x
quantity_is_below_digits v f hv hf =
    let xv = trim_0x-digits v hv in
    let xf = trim_0x-digits f hf in
    let (dv, nv, tv) = trim_zeros_lem v hv in
    let (df, nf, tf) = trim_zeros_lem f hf in
    let b = is_below-number (trim_zeros v) (trim_zeros f) dv df (ground arith) (ground arith) in cc

-- A balance that is read from `0x` and hexadecimal digits of either case is below a floor in
-- lower-case digits exactly when the number that it writes is the smaller one, however many digits
-- and leading zeros both have.
pub quantity_is_below-parse_quantity :
    (v f : Text) {balance : Text}
    → parse_quantity (48 ∷ 120 ∷ v) ≡ some balance
    → All IsDigit f
    → quantity_is_below balance (48 ∷ 120 ∷ f) ≡ ltb (number v) (number f)
unfolding parse_quantity quantity_of
quantity_is_below-parse_quantity [] f h hf = ground arith
quantity_is_below-parse_quantity (c ∷ cs) f {balance} h hf =
    let digits : all_hexdigits (c ∷ cs) ≡ true = ground arith in
    let (ds, vs) = lower_digits (c ∷ cs) digits in
    let e : balance ≡ 48 ∷ 120 ∷ map to_ascii_lowercase (c ∷ cs) = ground arith in
    let b = quantity_is_below_digits (map to_ascii_lowercase (c ∷ cs)) f ds hf in cc
