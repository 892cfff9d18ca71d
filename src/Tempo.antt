-- ===== src/Tempo.antt =====
-- vela-relay-core/src/tempo.rs: the arithmetic of Tempo, whose gas is paid in pathUSD.
use vela_relay.Prelude.{
  ℕ, ◌+◌, ◌*◌, ◌/◌, ◌%◌, ◌^◌, Option, none, some, List, [], ◌∷◌, length, ltb, ◌==◌, if◌then◌else◌,
  ◌||◌, Bool,
}
use vela_relay.Prelude
use vela_relay.Prelude.Words.{u64_mod, u128_mod, u256_mod, checked, checked_add, checked_mul}
use vela_relay.Prelude.Result.{Result, ok_or, ◌>>=◌}
use vela_relay.Prelude.Text.{Text, codes}
use vela_relay.Abi.{PackedUserOperation}
use vela_relay.Cost.{take, drop, from_be_slice}

abbrev pub path_usd_address : ℕ
path_usd_address = 0x20c0000000000000000000000000000000000000

abbrev pub path_usd_decimals : ℕ
path_usd_decimals = 6

abbrev pub tempo_cost_buffer_gas : ℕ
tempo_cost_buffer_gas = 80_000

abbrev pub tempo_float_min : ℕ
tempo_float_min = 100_000

abbrev pub tempo_treasury_floor : ℕ
tempo_treasury_floor = 200_000

abbrev pub tempo_top_up_gas_buffer_bps : ℕ
tempo_top_up_gas_buffer_bps = 12_000

unfoldable pub buffered_top_up_gas_limit : ℕ → Option ℕ
buffered_top_up_gas_limit estimated_gas =
    Prelude.◌>>=◌ (checked_mul u64_mod estimated_gas tempo_top_up_gas_buffer_bps)
      (λ value. some (value / 10_000))

-- The fold over the operations, from `total`.
unfoldable pub declared_gas : ℕ → List PackedUserOperation → Option ℕ
unfolding from_be_slice
declared_gas total [] = some total
declared_gas total (packed ∷ operations) =
    Prelude.◌>>=◌ (checked_add u256_mod total (from_be_slice (take 16 packed.account_gas_limits)))
      (λ a.
        Prelude.◌>>=◌ (checked_add u256_mod a (from_be_slice (drop 16 packed.account_gas_limits)))
          (λ b.
            Prelude.◌>>=◌ (checked_add u256_mod b packed.pre_verification_gas)
              (λ c. declared_gas c operations)))

limit_of : ℕ → ℕ → Option ℕ
limit_of declared count = Prelude.◌>>=◌ (checked_mul u256_mod declared 64) (λ scaled.
    Prelude.◌>>=◌ (checked_mul u256_mod count 50_000) (λ overhead.
      Prelude.◌>>=◌ (checked_add u256_mod (scaled / 63) overhead)
        (λ value. checked_add u256_mod value 60_000)))

unfoldable pub tempo_handle_ops_gas_limit : List PackedUserOperation → Result Text ℕ
unfolding declared_gas limit_of
tempo_handle_ops_gas_limit operations = do
  declared ← ok_or (declared_gas 0 operations) (codes "Tempo declared gas overflow")
  gas ← ok_or (limit_of declared (length operations)) (codes "Tempo outer gas limit overflow")
  ok_or (checked u64_mod gas) (codes "Tempo outer gas limit exceeds uint64")

unfoldable pub tempo_outer_max_fee : ℕ → Result Text ℕ
tempo_outer_max_fee base_fee_atto = do
  fee ←
      ok_or (checked_add u256_mod base_fee_atto (base_fee_atto / 2))
        (codes "Tempo outer fee overflow")
  ok_or (checked u128_mod fee) (codes "Tempo outer fee exceeds uint128")

unfoldable pub tempo_cost_in_path_usd : ℕ → ℕ → Option ℕ
tempo_cost_in_path_usd gas price_atto = Prelude.◌>>=◌ (checked_mul u256_mod gas price_atto) (λ cost.
    Prelude.◌>>=◌ (checked_mul u256_mod cost (10 ^ path_usd_decimals)) (λ numerator.
      checked_add u256_mod (numerator / 10 ^ 18) (if numerator % 10 ^ 18 == 0 then 0 else 1)))
