-- ===== src/Broadcast.antt =====
-- vela-relay-core/src/broadcast.rs: what may be sent, and what an answer to a send means.
use vela_relay.Prelude.{
  ℕ, ◌+◌, Bool, true, false, not, ◌&&◌, ◌||◌, Option, none, some, List, [], ◌∷◌, ◌++◌, map, leb,
  ◌==◌, if◌then◌else◌, ◌%◌, any,
}
use vela_relay.Prelude.Result.{Result, ok, err}
use vela_relay.Prelude.Hex.{Hex}
use vela_relay.Prelude.Text.{
  Text, codes, text_eq, digits_of, len_utf8, byte_len, to_ascii_lowercase, contains, contains_any,
  eq_ignore_ascii_case,
}
pub mod Validation
use vela_relay.Abi.{Alloy}
use vela_relay.RpcWalk.{ℤ, pos, negsuc}

abbrev lower : Text → Text
lower = map to_ascii_lowercase

unfoldable pub nonce_too_low : Text → Bool
nonce_too_low reason = contains (lower reason) (codes "nonce too low")

abbrev pub Bytes : Type 0
Bytes = List ℕ

unfoldable pub parse_hex_bytes : Hex → Text → Option Bytes
parse_hex_bytes hex (c ∷ d ∷ digits) =
    if c == 48 && d == 120 && (byte_len digits % 2 == 0) then hex.decode digits else none
parse_hex_bytes hex _ = none

is_three : Option ℤ → Bool
is_three (some (pos n)) = n == 3
is_three (some (negsuc n)) = false
is_three none = false

unfoldable pub is_executor_revert : Option ℤ → Text → Bool
unfolding is_three
is_executor_revert code message =
    is_three code
    || contains_any (lower message) (codes "execution reverted" ∷ codes "failedop" ∷ [])

unfoldable pub is_broadcast_already_known : Text → Bool
is_broadcast_already_known message =
    contains_any (lower message)
      (codes "already known" ∷ codes "known transaction" ∷ codes "already imported" ∷ [])

unfoldable pub is_broadcast_nonce_ambiguous : Text → Bool
is_broadcast_nonce_ambiguous message =
    contains_any (lower message)
      (codes "nonce too low" ∷ codes "replacement transaction underpriced" ∷ [])

-- The answer of `eth_getTransactionByHash`, where it is an object: the fields that are strings.
pub record TransactionAnswer : Type 0 where
  pub hash : Option Text
  pub block_hash : Option Text
  pub block_number : Option Text

all_zero : Text → Bool
all_zero [] = true
all_zero (c ∷ cs) = c == 48 && all_zero cs

is_zero : Option Text → Bool
unfolding all_zero
is_zero (some (c ∷ d ∷ digits)) = c == 48 && d == 120 && all_zero digits
is_zero _ = false

matches_hash : Option Text → Text → Bool
matches_hash none expected_hash = false
matches_hash (some hash) expected_hash = eq_ignore_ascii_case hash expected_hash

unfoldable pub holds_transaction : Option TransactionAnswer → Text → Bool
unfolding is_zero matches_hash
holds_transaction none expected_hash = false
holds_transaction (some answer) expected_hash =
    matches_hash answer.hash expected_hash
    && not (is_zero answer.block_hash || is_zero answer.block_number)

unfoldable pub is_definitive_broadcast_rejection : Text → Bool
is_definitive_broadcast_rejection message = contains_any (lower message) (
    codes "insufficient funds"
    ∷ codes "intrinsic gas"
    ∷ codes "fee cap"
    ∷ codes "max fee per gas"
    ∷ codes "transaction type not supported"
    ∷ [])

-- The characters that end within `maximum` bytes: a cut at the last boundary.
unfoldable pub chars_up_to : ℕ → ℕ → Text → Text
chars_up_to maximum index [] = []
chars_up_to maximum index (c ∷ cs) =
    let rest = chars_up_to maximum (index + len_utf8 c) cs in
    if leb (index + len_utf8 c) maximum then c ∷ rest else []

unfoldable pub truncate_rpc_diagnostic : Text → ℕ → Text
unfolding chars_up_to
truncate_rpc_diagnostic value maximum =
    if leb (byte_len value) maximum then value else chars_up_to maximum 0 value ++ 8230 ∷ []

code_text : Option ℤ → Text
code_text none = codes "unknown"
code_text (some (pos n)) = digits_of n
code_text (some (negsuc n)) = codes "-" ++ digits_of (n + 1)

message_text : Option Text → Text
message_text none = codes "upstream error"
message_text (some message) = message

unfoldable pub upstream_error_diagnostic : Option ℤ → Option Text → Text
unfolding truncate_rpc_diagnostic code_text message_text
upstream_error_diagnostic code message =
    codes "RPC code "
    ++ code_text code
    ++ codes ": "
    ++ truncate_rpc_diagnostic (message_text message) 256

-- The loop over the diagnostics, after those in `unique`.
unfoldable pub deduplicate : List Text → List Text → List Text
deduplicate unique [] = unique
deduplicate unique (diagnostic ∷ diagnostics) =
    if any (text_eq diagnostic) unique
    then deduplicate unique diagnostics
    else deduplicate (unique ++ diagnostic ∷ []) diagnostics

join : List Text → Text
join [] = []
join (text ∷ []) = text
join (text ∷ texts) = text ++ codes "; " ++ join texts

unfoldable pub join_broadcast_diagnostics : List Text → Text
unfolding deduplicate join truncate_rpc_diagnostic
join_broadcast_diagnostics diagnostics =
    truncate_rpc_diagnostic (join (deduplicate [] diagnostics)) 512

pub data RawTransactionError : Type 0 where
  invalid_bytes unsupported_type invalid_hash hash_mismatch : RawTransactionError

unfoldable pub raw_error_text : RawTransactionError → Text
raw_error_text invalid_bytes = codes "prepared raw transaction is invalid"
raw_error_text unsupported_type =
    codes "prepared transaction is not a supported type 0x02 or Tempo type 0x76"
raw_error_text invalid_hash = codes "prepared transaction hash is invalid"
raw_error_text hash_mismatch = codes "prepared transaction hash does not match raw bytes"

unfoldable checked_hash : Alloy → Bytes → Option ℕ → Result RawTransactionError Bytes
checked_hash alloy raw none = err invalid_hash
checked_hash alloy raw (some expected) =
    if alloy.keccak256 raw == expected then ok raw else err hash_mismatch

unfoldable checked_raw : Alloy → Text → Option Bytes → Result RawTransactionError Bytes
unfolding checked_hash
checked_raw alloy transaction_hash none = err invalid_bytes
checked_raw alloy transaction_hash (some []) = err invalid_bytes
checked_raw alloy transaction_hash (some (kind ∷ rest)) =
    if kind == 0x02 || kind == 0x76
    then checked_hash alloy (kind ∷ rest) (alloy.parse_b256 transaction_hash)
    else err unsupported_type

unfoldable pub validate_raw_transaction :
    Alloy → Hex → Text → Text → Result RawTransactionError Bytes
unfolding checked_raw parse_hex_bytes
validate_raw_transaction alloy hex raw_transaction transaction_hash =
    checked_raw alloy transaction_hash (parse_hex_bytes hex raw_transaction)

pub data UnprovenBroadcast : Type 0 where
  confirmed check_stale_nonce retain_outbox : UnprovenBroadcast

unfoldable pub resolve_unproven_broadcast : Text → Bool → UnprovenBroadcast
unfolding nonce_too_low
resolve_unproven_broadcast reason transaction_known =
    if transaction_known
    then confirmed
    else if nonce_too_low reason
    then check_stale_nonce
    else retain_outbox
