-- ===== src/Examples/Slots.antt =====
-- A nonce slot that two operations race for.
use vela_relay.Prelude.{◌+◌, ◌≤◌, ◌≡◌, ◌⊎◌, refl, true, false, none, some, List, [], ◌∷◌, arith}
use vela_relay.Prelude.Text.{codes}
use vela_relay.Task.{StoredUserOperation, queued}
use vela_relay.Examples.Records.{account_operation}
use vela_relay.NonceSlot.{NonceHolder, held, holder_state, live, admission_grace_ms}
use vela_relay.NonceSlot.Judgement.{holder_state-abandoned, holder_state-stable, IsAbandoned}
use vela_relay.RecordDo.{
  RecordState, Platform, RecordCommand, nonce, claim_nonce, take_over_nonce, release_nonce, handle,
  run,
}
use vela_relay.RecordDo.Race.{one_holder}

abbrev first_holder : NonceHolder
first_holder = record { user_operation_hash = codes "0xAB"; claimed_at_ms = 1_000 }

abbrev second_holder : NonceHolder
second_holder = record { user_operation_hash = codes "0xcd"; claimed_at_ms = 2_000 }

abbrev held_slot : RecordState
held_slot = record {
  stored = none;
  nonce_holder = some first_holder;
  expires_at_ms = some 7_201_000;
  alarm_at_ms = some 7_201_000;
}

abbrev later : Platform
later = record { now = 3_000; readable = true }

abbrev rivals : List (Platform × RecordCommand)
rivals = (later, claim_nonce second_holder) ∷ (later, release_nonce (codes "0xcd")) ∷ []

one_holder_example :
    ((run rivals held_slot).nonce_holder ≡ some first_holder)
    × (handle later (claim_nonce second_holder) (run rivals held_slot)
        ≡ (run rivals held_slot, nonce (held first_holder)))
    × (handle later (take_over_nonce (codes "0xcd") second_holder) (run rivals held_slot)
        ≡ (run rivals held_slot, nonce (held first_holder)))
one_holder_example =
    one_holder (codes "0xab") rivals held_slot first_holder later (codes "0xcd") second_holder refl
      refl (tt, (refl, tt)) refl refl refl

abbrev orphan : StoredUserOperation
orphan = record {
  status = queued;
  transaction_hash = none;
  chain_id = 1;
  chain_id_text = codes "1";
  entry_point = codes "0xee";
  user_operation = account_operation;
  admitted = false;
  next_receipt_check_at_ms = 0;
  block_hash = none;
  block_number = none;
  receipt = none;
  event = none;
  last_executor_stage = none;
  last_executor_error = none;
  last_executor_attempt_at_ms = none;
  rejection_reason = none;
}

holder_state-abandoned_example : IsAbandoned orphan × (1_000 + admission_grace_ms ≤ 121_000)
unfolding holder_state
holder_state-abandoned_example = holder_state-abandoned orphan first_holder 121_000 refl

holder_state-stable_example :
    (holder_state (some orphan) first_holder 121_000 ≡ live)
    ⊎ (holder_state (some orphan) first_holder 500_000
        ≡ holder_state (some orphan) first_holder 121_000)
holder_state-stable_example =
    holder_state-stable (some orphan) first_holder 121_000 500_000 (omega arith)
