-- ===== src/Pace.antt =====
-- vela-relay-core/src/pace.rs: block times, and the waits that are measured in blocks.
pub mod Waits
use vela_relay.Prelude.{ℕ, ◌/◌, ◌||◌, Option, none, some, min, max, ◌==◌, if◌then◌else◌, unwrap_or}
use vela_relay.Prelude.Words.{saturating_mul, clamp, u64_mod}

unfoldable pub block_interval_ms : ℕ → Option ℕ
block_interval_ms chain_id =
    if chain_id == 1
    then some 12_000
    else if chain_id == 10 || chain_id == 8_453
    then some 2_000
    else if chain_id == 56
    then some 450
    else if chain_id == 100
    then some 5_000
    else if chain_id == 130
    then some 1_000
    else if chain_id == 137
    then some 2_000
    else if chain_id == 42_161
    then some 250
    else if chain_id == 43_114
    then some 1_000
    else none

abbrev pub default_block_interval_ms : ℕ
default_block_interval_ms = 2_000

abbrev pub top_up_wait_max_ms : ℕ
top_up_wait_max_ms = 5_000

abbrev pub top_up_wait_min_ms : ℕ
top_up_wait_min_ms = 2_000

pub record ReceiptWait : Type 0 where
  pub pause_ms : ℕ
  pub polls : ℕ

-- The pause is at least 500, so `budget / pause_ms` is below 2 ^ 32 and the conversion keeps it.
unfoldable pub top_up_receipt_wait : ℕ → ReceiptWait
top_up_receipt_wait chain_id =
    let block : ℕ = unwrap_or (block_interval_ms chain_id) default_block_interval_ms in
    let budget : ℕ = clamp (saturating_mul u64_mod block 2) top_up_wait_min_ms top_up_wait_max_ms in
    let pause_ms : ℕ = clamp (block / 2) 500 1_000 in
    record { pause_ms = pause_ms; polls = budget / pause_ms }

abbrev pub receipt_pace_floor_ms : ℕ
receipt_pace_floor_ms = 1_000

receipt_pace_for : Option ℕ → ℕ → ℕ
receipt_pace_for none configured_ms = configured_ms
receipt_pace_for (some block) configured_ms = min (max block receipt_pace_floor_ms) configured_ms

unfoldable pub receipt_pace_ms : ℕ → ℕ → ℕ
unfolding receipt_pace_for
receipt_pace_ms chain_id configured_ms = receipt_pace_for (block_interval_ms chain_id) configured_ms
