-- ===== src/Treasury/Status.antt =====
-- vela-relay-core/src/treasury.rs: `treasury_status`, with the `hex` crate as a parameter.
use vela_relay.Prelude.{
  ℕ, ◌≡◌, ◌∙◌, sym, ap, refl, Bool, ◌&&◌, Option, none, some, List, [], ◌∷◌, ltb, ◌==◌,
  if◌then◌else◌, map, length, All, arith,
}
use vela_relay.Prelude.Result.{Result, ok, ok_or, ◌>>=◌, >>=-eq-ok, ok_or-eq-ok, ok-eq-ok}
use vela_relay.Prelude.Text.{Text, codes, to_ascii_lowercase}
use vela_relay.Prelude.Hex.{Hex, IsHex}
use vela_relay.Treasury.{
  TreasuryAsset, native, path_usd, for_chain, floor, ProbeFailure, invalid_balance, parse_quantity,
  quantity_is_below, trim_zeros,
}
use vela_relay.Treasury.Digits.{number, IsDigit, lower_digits}
use vela_relay.Treasury.Quantity.{
  quantity_is_below-parse_quantity, quantity_is_below_digits, trim_zeros_lem,
}

quantity_of_digits : Text → Text
quantity_of_digits [] = codes "0x0"
quantity_of_digits (c ∷ cs) = 48 ∷ 120 ∷ c ∷ cs

-- `quote::bytes32_quantity`
unfoldable pub bytes32_quantity : Hex → List ℕ → Option Text
unfolding quantity_of_digits trim_zeros
bytes32_quantity h bytes =
    if length bytes == 32 then some (quantity_of_digits (trim_zeros (h.encode bytes))) else none

word_of : Hex → Option (List ℕ) → Option Text
unfolding bytes32_quantity
word_of h none = none
word_of h (some word) = bytes32_quantity h word

unfoldable pub parse_abi_uint256 : Hex → Text → Option Text
unfolding word_of
parse_abi_uint256 h (c ∷ d ∷ digits) =
    if c == 48 && d == 120 then word_of h (h.decode digits) else none
parse_abi_uint256 h _ = none

pub record TreasuryStatus : Type 0 where
  pub chain_id : ℕ
  pub address : Text
  pub asset : TreasuryAsset
  pub balance : Text
  pub floor_text : Text
  pub bootstrap_needed : Bool

unfoldable pub read_balance : Hex → TreasuryAsset → Text → Option Text
unfolding parse_quantity parse_abi_uint256
read_balance h native result = parse_quantity result
read_balance h path_usd result = parse_abi_uint256 h result

-- The result is the text that the JSON value is, if it is one.
unfoldable pub treasury_status : Hex → ℕ → Text → Option Text → Result ProbeFailure TreasuryStatus
unfolding for_chain floor read_balance quantity_is_below
treasury_status h chain_id treasury value = do
  result ← ok_or value invalid_balance
  balance ← ok_or (read_balance h (for_chain chain_id) result) invalid_balance
  ok (record {
    chain_id = chain_id;
    address = treasury;
    asset = for_chain chain_id;
    balance = balance;
    floor_text = floor (for_chain chain_id);
    bootstrap_needed = quantity_is_below balance (floor (for_chain chain_id));
  })

-- The floors in their assets' base units.
abbrev pub floor_amount : TreasuryAsset → ℕ
floor_amount native = 100_000_000_000_000
floor_amount path_usd = 550_000

quantity_of_digits_lem :
    (v f : Text)
    → All IsDigit v
    → All IsDigit f
    → quantity_is_below (quantity_of_digits v) (48 ∷ 120 ∷ f) ≡ ltb (number v) (number f)
unfolding quantity_of_digits number
quantity_of_digits_lem [] f hv hf = quantity_is_below_digits (48 ∷ []) f (ground arith) hf
quantity_of_digits_lem (c ∷ cs) f hv hf = quantity_is_below_digits (c ∷ cs) f hv hf

word_of-below :
    (h : Hex) (v f : Text) (word : Option (List ℕ)) {balance : Text}
    → IsHex h
    → h.decode v ≡ word
    → word_of h word ≡ some balance
    → All IsDigit f
    → quantity_is_below balance (48 ∷ 120 ∷ f) ≡ ltb (number v) (number f)
unfolding word_of bytes32_quantity
word_of-below h v f none law e k hf = ground arith
word_of-below h v f (some bytes) {balance} law e k hf =
    let (ds, vs) = lower_digits v (law.decodes_digits v bytes e) in
    let (dt, nt, tt) = trim_zeros_lem (map to_ascii_lowercase v) ds in
    let enc = law.encodes_lower v bytes e in
    let same : balance ≡ quantity_of_digits (trim_zeros (h.encode bytes)) = ground arith in
    let q = quantity_of_digits_lem (trim_zeros (map to_ascii_lowercase v)) f dt hf in cc

read_balance-below :
    (h : Hex) (asset : TreasuryAsset) (v : Text) {balance : Text}
    → IsHex h
    → read_balance h asset (48 ∷ 120 ∷ v) ≡ some balance
    → quantity_is_below balance (floor asset) ≡ ltb (number v) (floor_amount asset)
unfolding read_balance parse_abi_uint256 floor number
read_balance-below h native v law e =
    quantity_is_below-parse_quantity v (codes "5af3107a4000") e (ground arith)
read_balance-below h path_usd v law e =
    word_of-below h v (codes "86470") (h.decode v) law refl e (ground arith)

-- Where the hex crate decodes digits only and encodes them back in lower case: a status that is
-- read from `0x` and digits says that a deposit is needed exactly when the number that the digits
-- write is below the floor of the chain's asset, 10 ^ 14 wei of a native coin or 550,000
-- millionths of pathUSD.
pub treasury_status-bootstrap_needed :
    (h : Hex) (chain_id : ℕ) (treasury v : Text) {status : TreasuryStatus}
    → IsHex h
    → treasury_status h chain_id treasury (some (48 ∷ 120 ∷ v)) ≡ ok status
    → status.bootstrap_needed ≡ ltb (number v) (floor_amount (for_chain chain_id))
unfolding treasury_status
treasury_status-bootstrap_needed h chain_id treasury v law e =
    let (balance, he, k) =
      >>=-eq-ok (ok_or (read_balance h (for_chain chain_id) (48 ∷ 120 ∷ v)) invalid_balance) _ e in
    let below =
      read_balance-below h (for_chain chain_id) v law (ok_or-eq-ok _ invalid_balance he) in
    sym (ap (λ (s : TreasuryStatus). s.bootstrap_needed) (ok-eq-ok k)) ∙ below
