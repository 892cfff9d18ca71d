-- ===== src/Vault.antt =====
-- vela-relay-core/src/vault.rs: the relayer that a sender's operations go to.
use vela_relay.Prelude.{
  ℕ, ◌-◌, ◌%◌, Option, none, some, ◌∷◌, length, ◌==◌, if◌then◌else◌, ◌&&◌, ◌||◌,
}
use vela_relay.Prelude.Text.{Text}
use vela_relay.GasMath.Market.{from_hex}
use vela_relay.Settlement.Calldata.{drop}

abbrev pub relayer_routing_width : ℕ
relayer_routing_width = 10

-- `strip_prefix` of `0x`, or of `0X`.
clean : Text → Text
clean (c ∷ d ∷ rest) = if c == 48 && (d == 120 || d == 88) then rest else c ∷ d ∷ rest
clean text = text

-- The last eight characters, or all where there are fewer.
last_eight : Text → Text
last_eight text = drop (length text - 8) text

index_of : Option ℕ → ℕ → ℕ
index_of none width = 0
index_of (some value) width = value % width

-- Eight hexadecimal digits are below 2 ^ 32.
unfoldable pub relayer_index_for_sender : Text → ℕ → ℕ
unfolding clean last_eight index_of from_hex
relayer_index_for_sender sender width =
    index_of (from_hex (last_eight (clean sender)))
      (if width == 0 then relayer_routing_width else width)
