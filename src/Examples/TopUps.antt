-- ===== src/Examples/TopUps.antt =====
-- Top-ups of a relayer by the treasury, against a shell that answers each operation.
use vela_relay.Prelude.{
  ℕ, suc, true, false, Option, none, some, List, [], ◌∷◌, ◌≡◌, refl, if◌then◌else◌,
}
use vela_relay.Prelude.Result.{ok}
use vela_relay.Prelude.Text.{Text, codes, text_eq}
use vela_relay.Examples.Treasuries.{hex}
use vela_relay.Examples.Records.{account_operation}
use vela_relay.Broadcast.{parse_hex_bytes, validate_raw_transaction}
use vela_relay.Broadcast.Validation.{IsSupported, validate_raw_transaction-ok}
use vela_relay.Execution.Operation.{
  Operation, Outcome, acquire_treasury_lease, ensure_treasury_lease_held, load_prepared_funding,
  fetch_treasury_context, fetch_tempo_treasury_context, sign_treasury_transfer,
  sign_treasury_path_usd, save_funding_intent, check_broadcast_seen, broadcast_raw,
  fetch_transaction_receipt, lease_acquired, lease_held, funding_intent, treasury_context,
  tempo_treasury_context, signed, saved, seen, sent, accepted_as, receipt, settled,
}
use vela_relay.Funding.{
  plan_native_top_up, plan_tempo_top_up, native_top_up_reserve, native_top_up_gas_limit,
  treasury_affordable_top_up,
}
use vela_relay.Pace.{top_up_receipt_wait, block_interval_ms}
use vela_relay.Tempo.{buffered_top_up_gas_limit, tempo_cost_in_path_usd}
use vela_relay.Execution.Program.{after, Shell, run}
use vela_relay.Execution.Discipline.{Respects, recall}
use vela_relay.Execution.Sending.{Crates}
use vela_relay.Execution.Funding.{ExecutionPolicy, ensure_native_funding}
use vela_relay.Execution.TempoFunding.{ensure_tempo_funding}
use vela_relay.Execution.FundingRules.{treasury_rules}
use vela_relay.Execution.LeaseSafety.{unseen}
use vela_relay.Execution.FundingSafety.{Released, ensure_native_funding-Respects}
use vela_relay.Execution.TempoSafety.{ensure_tempo_funding-Respects}

-- A hash that is the length of the bytes, and the texts that it has here.
abbrev parse_hash : Text → Option ℕ
parse_hash text = if text_eq text (codes "0x02") then some 2 else none

abbrev parse_status : Text → Option ℕ
parse_status text =
    if text_eq text (codes "0") then some 0 else if text_eq text (codes "1") then some 1 else none

abbrev byte_count : List ℕ → ℕ
byte_count [] = 0
byte_count (b ∷ bytes) = suc (byte_count bytes)

abbrev pub crates : Crates
crates = record {
  alloy = record {
    keccak256 = byte_count;
    parse_b256 = parse_hash;
    parse_address = λ text. some 1;
    address_text = λ address. codes "0xaa";
    from_str_radix_16 = parse_status;
    abi_encode = λ words. words;
    handle_ops_call = λ operations beneficiary. beneficiary ∷ [];
  };
  hex = hex;
  to_value = λ operation. codes "{}";
  from_value = λ text. some account_operation;
}

abbrev pub policy : ExecutionPolicy
policy = record {
  pool_width = 4;
  max_bundle_operations = 8;
  gas_buffer_bps = 12_000;
  fixed_gas_buffer = 0;
  settlement_inclusion_floor_bps = 10_000;
  settlement_hold_max_attempts = 3;
  top_up_max_wei = 1_000_000_000;
  is_tempo = false;
  treasury = 1;
  relayer = 2;
  relayer_float_cost_multiplier = 2;
  relayer_float_target_wei = 1_000_000;
  relayer_float_min_wei = 1_000;
  treasury_floor_wei = 5_000;
}

abbrev answer : Operation → Outcome
answer acquire_treasury_lease = lease_acquired true
answer ensure_treasury_lease_held = lease_held true
answer load_prepared_funding = funding_intent none
answer fetch_treasury_context = treasury_context 7 1_000_000_000 (some 21_000)
answer (fetch_tempo_treasury_context amount) = tempo_treasury_context 7 1_000_000_000 50_000
answer (sign_treasury_transfer r) =
    signed
      (record { raw_transaction_hex = codes "0x02aa"; transaction_hash = codes "0x02"; nonce = 7 })
answer (sign_treasury_path_usd r) =
    signed
      (record { raw_transaction_hex = codes "0x76aa"; transaction_hash = codes "0x02"; nonce = 7 })
answer (save_funding_intent i) = saved true
answer (check_broadcast_seen hash) = seen false
answer (broadcast_raw raw hash) = sent (accepted_as hash)
answer (fetch_transaction_receipt hash) = receipt (some (record { status = some (codes "0x1") }))
answer _ = settled

abbrev steady : Shell
steady past operation = answer operation

native_top_up :
    (run steady [] (ensure_native_funding crates policy 137 0 500 10 1 1_000_000_000)).0 ≡ ok true
unfolding ensure_native_funding after plan_native_top_up native_top_up_reserve
    native_top_up_gas_limit treasury_affordable_top_up top_up_receipt_wait block_interval_ms
native_top_up = refl

tempo_top_up :
    (run steady [] (ensure_tempo_funding crates policy 4217 0 500 1_000_000_000)).0 ≡ ok true
unfolding ensure_tempo_funding after plan_tempo_top_up buffered_top_up_gas_limit
    tempo_cost_in_path_usd top_up_receipt_wait block_interval_ms
tempo_top_up = refl

ensure_native_funding-Respects_example :
    Respects treasury_rules unseen
      (run steady [] (ensure_native_funding crates policy 137 0 500 10 1 1_000_000_000)).1
    × Released
        (recall treasury_rules unseen
          (run steady [] (ensure_native_funding crates policy 137 0 500 10 1 1_000_000_000)).1)
        (run steady [] (ensure_native_funding crates policy 137 0 500 10 1 1_000_000_000)).0
ensure_native_funding-Respects_example =
    ensure_native_funding-Respects crates policy 137 0 500 10 1 1_000_000_000 steady

ensure_tempo_funding-Respects_example :
    Respects treasury_rules unseen
      (run steady [] (ensure_tempo_funding crates policy 4217 0 500 1_000_000_000)).1
    × ((recall treasury_rules unseen
          (run steady [] (ensure_tempo_funding crates policy 4217 0 500 1_000_000_000)).1).owned
        ≡ false)
ensure_tempo_funding-Respects_example =
    ensure_tempo_funding-Respects crates policy 4217 0 500 1_000_000_000 steady

accepted_bytes :
    validate_raw_transaction crates.alloy hex (codes "0x02aa") (codes "0x02") ≡ ok (2 ∷ 170 ∷ [])
unfolding validate_raw_transaction
accepted_bytes = refl

validate_raw_transaction-ok_example :
    (parse_hex_bytes hex (codes "0x02aa") ≡ some (2 ∷ 170 ∷ []))
    × (IsSupported (2 ∷ 170 ∷ []) × (parse_hash (codes "0x02") ≡ some 2))
validate_raw_transaction-ok_example =
    validate_raw_transaction-ok crates.alloy hex (codes "0x02aa") (codes "0x02") (2 ∷ 170 ∷ [])
      accepted_bytes
