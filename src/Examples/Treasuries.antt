-- ===== src/Examples/Treasuries.antt =====
-- A treasury's balance against the floor.
use vela_relay.Prelude.{
  ◌+◌, ◌*◌, ◌/◌, ◌%◌, ◌&&◌, Option, none, if◌then◌else◌, map, ap, ◌≡◌, refl, true, false, ltb,
  arith, ℕ, List, [], ◌∷◌, some, ◌<◌, ◌∙◌,
}
use mathlib.Core.Path.{ap₂}
use vela_relay.Prelude.Text.{codes, Text, to_ascii_lowercase}
use vela_relay.Prelude.Hex.{Hex, IsHex, is_ascii_hexdigit, all_hexdigits}
use vela_relay.Treasury.{
  for_chain, path_usd, floor, trim_zeros, parse_quantity, quantity_is_below, unreadable,
  http_status, listed, refused,
}
use vela_relay.Treasury.Digits.{number, digit}
use vela_relay.Treasury.Status.{
  treasury_status, floor_amount, treasury_status-bootstrap_needed, read_balance, parse_abi_uint256,
  bytes32_quantity,
}
use vela_relay.Treasury.Quantity.{quantity_is_below-parse_quantity}

-- A local chain, whose wallet's endpoint the relay may not use, is not served.
anvil : http_status (unreadable listed refused true) ≡ 404
unfolding http_status unreadable
anvil = refl

quantity_is_below-parse_quantity_example :
    quantity_is_below (codes "0x00ab") (codes "0xac")
    ≡ ltb (number (codes "00AB")) (number (codes "ac"))
unfolding parse_quantity
quantity_is_below-parse_quantity_example =
    quantity_is_below-parse_quantity (codes "00AB") (codes "ac") {balance = codes "0x00ab"} refl
      (ground arith)

-- The `hex` crate's functions.
abbrev decode_pair : ℕ → ℕ → Option (List ℕ) → Option (List ℕ)
decode_pair c d none = none
decode_pair c d (some bytes) =
    if is_ascii_hexdigit c && is_ascii_hexdigit d
    then some ((digit c * 16 + digit d) ∷ bytes)
    else none

abbrev hex_decode : Text → Option (List ℕ)
hex_decode [] = some []
hex_decode (c ∷ []) = none
hex_decode (c ∷ d ∷ rest) = decode_pair c d (hex_decode rest)

abbrev hex_char : ℕ → ℕ
hex_char d = if ltb d 10 then 48 + d else 87 + d

abbrev hex_encode : List ℕ → Text
hex_encode [] = []
hex_encode (b ∷ bytes) = hex_char (b / 16) ∷ hex_char (b % 16) ∷ hex_encode bytes

abbrev pub hex : Hex
hex = record { decode = hex_decode; encode = hex_encode }

hex_char-digit :
    (c : ℕ)
    → is_ascii_hexdigit c ≡ true
    → (hex_char (digit c) ≡ to_ascii_lowercase c) × (digit c < 16)
hex_char-digit c h = ground arith

byte_parts : (a b : ℕ) → b < 16 → ((a * 16 + b) / 16 ≡ a) × ((a * 16 + b) % 16 ≡ b)
byte_parts a b h = (omega arith, omega arith)

pair_lem :
    (c d : ℕ) (rest : Text) (word : Option (List ℕ)) (bytes : List ℕ)
    → decode_pair c d word ≡ some bytes
    → ((w : List ℕ)
        → word ≡ some w
        → (all_hexdigits rest ≡ true) × (hex_encode w ≡ map to_ascii_lowercase rest))
    → (all_hexdigits (c ∷ d ∷ rest) ≡ true)
      × (hex_encode bytes ≡ map to_ascii_lowercase (c ∷ d ∷ rest))
pair_lem c d rest none bytes h each = ground arith
pair_lem c d rest (some w) bytes h each =
    let hc : is_ascii_hexdigit c ≡ true = ground arith in
    let hd : is_ascii_hexdigit d ≡ true = ground arith in
    let (all, enc) = each w refl in
    let (ec, lc) = hex_char-digit c hc in
    let (ed, ld) = hex_char-digit d hd in
    let (high, low) = byte_parts (digit c) (digit d) ld in
    let e : bytes ≡ (digit c * 16 + digit d) ∷ w = ground arith in
    (
      ground arith,
      ap hex_encode e ∙ ap₂ ◌∷◌ (ap hex_char high ∙ ec) (ap₂ ◌∷◌ (ap hex_char low ∙ ed) enc),
    )

hex_lem :
    (text : Text) (bytes : List ℕ)
    → hex_decode text ≡ some bytes
    → (all_hexdigits text ≡ true) × (hex_encode bytes ≡ map to_ascii_lowercase text)
hex_lem [] [] h = (refl, refl)
hex_lem [] (b ∷ bs) h = ground arith
hex_lem (c ∷ []) bytes h = ground arith
hex_lem (c ∷ d ∷ rest) bytes h = pair_lem c d rest (hex_decode rest) bytes h (hex_lem rest)

hex-IsHex : IsHex hex
hex-IsHex = record {
  decodes_digits = λ text bytes h. (hex_lem text bytes h).0;
  encodes_lower = λ text bytes h. (hex_lem text bytes h).1;
}

abbrev tempo_word : Text
tempo_word = codes "0000000000000000000000000000000000000000000000000000000000086470"

treasury_status-bootstrap_needed_example :
    false ≡ ltb (number tempo_word) (floor_amount (for_chain 4_217))
unfolding treasury_status for_chain read_balance parse_abi_uint256 bytes32_quantity
    quantity_is_below trim_zeros floor
treasury_status-bootstrap_needed_example =
    treasury_status-bootstrap_needed hex 4_217 (codes "0xaa") tempo_word
      {status = record {
        chain_id = 4_217;
        address = codes "0xaa";
        asset = path_usd;
        balance = codes "0x86470";
        floor_text = codes "0x86470";
        bootstrap_needed = false;
      }}
      hex-IsHex refl
