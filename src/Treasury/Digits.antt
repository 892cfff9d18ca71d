-- ===== src/Treasury/Digits.antt =====
-- Hexadecimal digits, as vela-relay-core/src/treasury.rs reads them (`parse_quantity`).
use vela_relay.Prelude.{
  ℕ, ◌+◌, ◌-◌, ◌*◌, ◌^◌, ◌≤◌, ◌<◌, ◌≡◌, ◌⊎◌, ap, inl, inr, true, false, [], ◌∷◌, ltb, if◌then◌else◌,
  map, length, length-map, All, arith,
}
use native.Mathlib.Nat.{pow-suc, mul-le-mul_right}
use vela_relay.Prelude.Text.{Text, to_ascii_lowercase}
use vela_relay.Prelude.Hex.{is_ascii_hexdigit, all_hexdigits}
use vela_relay.Treasury.{text_lt}

-- The value of a hexadecimal digit, of either case.
abbrev pub digit : ℕ → ℕ
digit c = if ltb c 58 then c - 48 else (if ltb c 71 then c - 55 else c - 87)

unfoldable pub number : Text → ℕ
number [] = 0
number (c ∷ cs) = digit c * 16 ^ length cs + number cs

-- A digit as a quantity is printed with: in lower case.
abbrev pub IsDigit : ℕ → Type 0
IsDigit c = ((48 ≤ c) × (c ≤ 57)) ⊎ ((97 ≤ c) × (c ≤ 102))

digit-lt : (c : ℕ) → IsDigit c → digit c < 16
digit-lt c h = ground arith

digit-injective : (a b : ℕ) → IsDigit a → IsDigit b → digit a ≡ digit b → a ≡ b
digit-injective a b ha hb e = ground arith

digit-lt-digit : (a b : ℕ) → IsDigit a → IsDigit b → digit a < digit b → a < b
digit-lt-digit a b ha hb e = ground arith

step_lt : (p d e r s : ℕ) → d < e → r < p → d * p + r < e * p + s
step_lt p d e r s lt hr = omega (arith, mul-le-mul_right p lt)

pub number-lt : (cs : Text) → All IsDigit cs → number cs < 16 ^ length cs
unfolding number
number-lt [] h = omega arith
number-lt (c ∷ cs) (hc, h) =
    let l = step_lt (16 ^ length cs) (digit c) 16 (number cs) 0 (digit-lt c hc) (number-lt cs h) in
    let p = pow-suc 16 (length cs) in omega arith

pub lt_trichotomy : (m n : ℕ) → (m < n) ⊎ (m ≡ n) ⊎ (n < m)
lt_trichotomy m n = ground arith

-- Two numbers of as many digits, by their first digits and the rest of them.
number_split :
    (a b : ℕ) (as' bs : Text)
    → All IsDigit as'
    → All IsDigit bs
    → length as' ≡ length bs
    → ((digit a ≡ digit b)
        × (ltb (number (a ∷ as')) (number (b ∷ bs)) ≡ ltb (number as') (number bs)))
      ⊎ ((digit a < digit b) × (ltb (number (a ∷ as')) (number (b ∷ bs)) ≡ true))
      ⊎ ((digit b < digit a) × (ltb (number (a ∷ as')) (number (b ∷ bs)) ≡ false))
unfolding number
number_split a b as' bs ha hb e =
    let pw = ap (λ (n : ℕ). 16 ^ n) e in
    let na = number-lt as' ha in
    let nb = number-lt bs hb in
    elim (lt_trichotomy (digit a) (digit b)) [
      | inl lt ↦
          let l = step_lt (16 ^ length as') (digit a) (digit b) (number as') (number bs) lt na in
          let q = ap (λ (n : ℕ). digit b * n) pw in ground arith
      | inr (inl same) ↦
          let q = ap (λ (n : ℕ). digit b * n) pw in
          let r = ap (λ (d : ℕ). d * 16 ^ length as') same in ground arith
      | inr (inr gt) ↦
          let l = step_lt (16 ^ length bs) (digit b) (digit a) (number bs) (number as') gt nb in
          let q = ap (λ (n : ℕ). digit a * n) pw in ground arith
    ]

pub text_lt-number :
    (as' bs : Text)
    → All IsDigit as'
    → All IsDigit bs
    → length as' ≡ length bs
    → text_lt as' bs ≡ ltb (number as') (number bs)
unfolding text_lt
text_lt-number [] [] ha hb e = ground arith
text_lt-number [] (b ∷ bs) ha hb e = ground arith
text_lt-number (a ∷ as') [] ha hb e = ground arith
text_lt-number (a ∷ as') (b ∷ bs) (ha, has) (hb, hbs) e =
    let rest = text_lt-number as' bs has hbs (omega arith) in
    elim (number_split a b as' bs has hbs (omega arith)) [
      | inl (same, v) ↦ let ab = digit-injective a b ha hb same in ground arith
      | inr (inl (lt, v)) ↦ let ab = digit-lt-digit a b ha hb lt in ground arith
      | inr (inr (gt, v)) ↦ let ab = digit-lt-digit b a hb ha gt in ground arith
    ]

lower_digit :
    (c : ℕ)
    → is_ascii_hexdigit c ≡ true
    → IsDigit (to_ascii_lowercase c) × (digit (to_ascii_lowercase c) ≡ digit c)
lower_digit c h = ground arith

pub lower_digits :
    (cs : Text)
    → all_hexdigits cs ≡ true
    → All IsDigit (map to_ascii_lowercase cs) × (number (map to_ascii_lowercase cs) ≡ number cs)
unfolding number
lower_digits [] h = ground arith
lower_digits (c ∷ cs) h =
    let (d, v) = lower_digit c (ground arith) in
    let (ds, vs) = lower_digits cs (ground arith) in
    let l = length-map to_ascii_lowercase cs in ((d, ds), cc)
