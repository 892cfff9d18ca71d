-- ===== src/Treasury.antt =====
-- vela-relay-core/src/treasury.rs: why a treasury cannot be read, and when it needs a deposit.
pub mod Digits
pub mod Quantity
pub mod Status
use vela_relay.Prelude.{
  ℕ, ◌+◌, ◌≡◌, Bool, true, false, ◌&&◌, ◌||◌, Option, none, some, List, [], ◌∷◌, ltb, leb, ◌==◌,
  if◌then◌else◌, map,
}
use vela_relay.Prelude.Hex.{all_hexdigits}
use vela_relay.Prelude.Text.{Text, codes, byte_len, to_ascii_lowercase}

pub data TreasuryAsset : Type 0 where
  native : TreasuryAsset
  path_usd : TreasuryAsset

-- `tempo::is_tempo_chain`
unfoldable pub is_tempo_chain : ℕ → Bool
is_tempo_chain chain_id = chain_id == 4_217 || chain_id == 42_431

unfoldable pub for_chain : ℕ → TreasuryAsset
unfolding is_tempo_chain
for_chain chain_id = if is_tempo_chain chain_id then path_usd else native

abbrev native_treasury_floor : Text
native_treasury_floor = codes "0x5af3107a4000"

abbrev path_usd_treasury_floor : Text
path_usd_treasury_floor = codes "0x86470"

unfoldable pub floor : TreasuryAsset → Text
floor native = native_treasury_floor
floor path_usd = path_usd_treasury_floor

pub data ProbeFailure : Type 0 where
  rpc_unavailable : ProbeFailure
  invalid_balance : ProbeFailure
  invalid_address : ProbeFailure
  not_listed : ProbeFailure
  no_rpc : ProbeFailure

unfoldable pub http_status : ProbeFailure → ℕ
http_status not_listed = 404
http_status no_rpc = 404
http_status rpc_unavailable = 503
http_status invalid_balance = 503
http_status invalid_address = 503

unfoldable pub reason : ProbeFailure → Option Text
reason not_listed = some (codes "not_listed")
reason no_rpc = some (codes "no_rpc")
reason rpc_unavailable = none
reason invalid_balance = none
reason invalid_address = none

-- `chain_directory::Listing`
pub data Listing : Type 0 where
  listed : Listing
  unlisted : Listing
  unavailable : Listing

pub data ClientRpc : Type 0 where
  absent : ClientRpc
  used : ClientRpc
  refused : ClientRpc

unfoldable pub unreadable : Listing → ClientRpc → Bool → ProbeFailure
unreadable unavailable client_rpc false = rpc_unavailable
unreadable listed client_rpc false = no_rpc
unreadable unlisted client_rpc false = no_rpc
unreadable listing refused true = no_rpc
unreadable listing absent true = rpc_unavailable
unreadable listing used true = rpc_unavailable

unfoldable pub quantity_of : Text → Option Text
quantity_of [] = none
quantity_of (c ∷ cs) =
    if all_hexdigits (c ∷ cs) then some (48 ∷ 120 ∷ map to_ascii_lowercase (c ∷ cs)) else none

unfoldable pub parse_quantity : Text → Option Text
unfolding quantity_of
parse_quantity (c ∷ d ∷ digits) = if c == 48 && d == 120 then quantity_of digits else none
parse_quantity _ = none

-- `trim_start_matches("0x")`
unfoldable pub trim_0x : Text → Text
trim_0x (c ∷ d ∷ rest) =
    let trimmed = trim_0x rest in if c == 48 && d == 120 then trimmed else c ∷ d ∷ rest
trim_0x text = text

-- `trim_start_matches('0')`
unfoldable pub trim_zeros : Text → Text
trim_zeros [] = []
trim_zeros (c ∷ cs) = let trimmed = trim_zeros cs in if c == 48 then trimmed else c ∷ cs

-- `<` on strings.
unfoldable pub text_lt : Text → Text → Bool
text_lt as' [] = false
text_lt [] (b ∷ bs) = true
text_lt (a ∷ as') (b ∷ bs) = if a == b then text_lt as' bs else ltb a b

unfoldable pub is_below : Text → Text → Bool
unfolding text_lt
is_below value floor =
    ltb (byte_len value) (byte_len floor)
    || (byte_len value == byte_len floor && text_lt value floor)

unfoldable pub quantity_is_below : Text → Text → Bool
unfolding trim_0x trim_zeros is_below
quantity_is_below value floor = is_below (trim_zeros (trim_0x value)) (trim_zeros (trim_0x floor))
