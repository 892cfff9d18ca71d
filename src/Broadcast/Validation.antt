-- ===== src/Broadcast/Validation.antt =====
-- vela-relay-core/src/broadcast.rs: what `validate_raw_transaction` accepts, and what the
-- diagnostics of a walk are joined into.
use vela_relay.Prelude.{ℕ, ◌≡◌, Option, some, [], ◌∷◌, ◌⊎◌, arith}
use vela_relay.Prelude.Result.{ok}
use vela_relay.Prelude.Text.{Text}
use vela_relay.Prelude.Hex.{Hex}
use vela_relay.Abi.{Alloy}
use vela_relay.Broadcast.{
  Bytes, parse_hex_bytes, checked_hash, checked_raw, validate_raw_transaction,
}

-- A type 0x02 or Tempo type 0x76 transaction.
abbrev pub IsSupported : Bytes → Type 0
IsSupported [] = ⊥
IsSupported (kind ∷ rest) = (kind ≡ 0x02) ⊎ (kind ≡ 0x76)

checked_hash-ok :
    (alloy : Alloy) (raw : Bytes) (expected : Option ℕ) (bytes : Bytes)
    → checked_hash alloy raw expected ≡ ok bytes
    → (raw ≡ bytes) × (expected ≡ some (alloy.keccak256 bytes))
unfolding checked_hash
checked_hash-ok alloy raw expected bytes h = ground arith

checked_raw-ok :
    (alloy : Alloy) (hash : Text) (raw : Option Bytes) (bytes : Bytes)
    → checked_raw alloy hash raw ≡ ok bytes
    → (raw ≡ some bytes)
      × (IsSupported bytes × (alloy.parse_b256 hash ≡ some (alloy.keccak256 bytes)))
unfolding checked_raw
checked_raw-ok alloy hash raw bytes h = ground arith

-- Bytes that pass the check before a send are the ones that the raw transaction spells in
-- hexadecimal, are of type 0x02 or 0x76, and hash to the transaction's hash.
pub validate_raw_transaction-ok :
    (alloy : Alloy) (hex : Hex) (raw hash : Text) (bytes : Bytes)
    → validate_raw_transaction alloy hex raw hash ≡ ok bytes
    → (parse_hex_bytes hex raw ≡ some bytes)
      × (IsSupported bytes × (alloy.parse_b256 hash ≡ some (alloy.keccak256 bytes)))
unfolding validate_raw_transaction
validate_raw_transaction-ok alloy hex raw hash bytes h =
    checked_raw-ok alloy hash (parse_hex_bytes hex raw) bytes h
