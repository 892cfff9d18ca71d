-- ===== src/NonceSlot.antt =====
-- vela-relay-core/src/nonce_slot.rs: one live operation per account nonce. The steps of the slot are
-- also the Redis scripts of src/app/user_operation_store.rs.
pub mod Judgement
use vela_relay.Prelude.{
  ℕ, ◌+◌, ◌-◌, ◌*◌, Bool, true, false, not, ◌&&◌, ◌||◌, Option, none, some, [], ◌∷◌, ◌++◌, ltb,
  ◌==◌, if◌then◌else◌, is_some,
}
use vela_relay.Prelude.Text.{Text, codes, digits_of, eq_ignore_ascii_case}
use vela_relay.Task.{StoredUserOperation, queued, status_code, is_terminal}

abbrev pub admission_grace_ms : ℕ
admission_grace_ms = 120_000

abbrev pub slot_ttl_ms : ℕ
slot_ttl_ms = 2 * 3_600 * 1_000

abbrev pub takeover_attempts : ℕ
takeover_attempts = 3

unfoldable pub nonce_in_flight_message : Text → Text
nonce_in_flight_message existing =
    codes "Already have a pending UserOperation from this sender"
    ++ codes " [existingHash:"
    ++ existing
    ++ codes "]"

pub record NonceSlot : Type 0 where
  pub chain_id : ℕ
  pub entry_point : Text
  pub sender : Text
  pub nonce : Text

unfoldable pub key : NonceSlot → Text
key slot =
    digits_of slot.chain_id
    ++ codes ":"
    ++ slot.entry_point
    ++ codes ":"
    ++ slot.sender
    ++ codes ":"
    ++ slot.nonce

-- `trim_start_matches("0x")` takes every such prefix off.
trim_0x : Text → Text
trim_0x [] = []
trim_0x (a ∷ []) = a ∷ []
trim_0x (a ∷ b ∷ rest) = let r = trim_0x rest in if a == b'0' && b == b'x' then r else a ∷ b ∷ rest

trim_zeros : Text → Text
trim_zeros [] = []
trim_zeros (a ∷ rest) = let r = trim_zeros rest in if a == b'0' then r else a ∷ rest

quantity_digits : Text → Text
quantity_digits [] = codes "0x0"
quantity_digits (d ∷ ds) = codes "0x" ++ (d ∷ ds)

unfoldable pub nonce_quantity : NonceSlot → Text
unfolding trim_0x trim_zeros quantity_digits
nonce_quantity slot = quantity_digits (trim_zeros (trim_0x slot.nonce))

pub record NonceHolder : Type 0 where
  pub user_operation_hash : Text
  pub claimed_at_ms : ℕ

pub data NonceClaim : Type 0 where
  claimed : Bool → NonceClaim
  held : NonceHolder → NonceClaim

pub record SlotStep : Type 0 where
  pub write : Option NonceHolder
  pub reply : NonceClaim

unfoldable pub same_hash : NonceHolder → NonceHolder → Bool
same_hash holder claimant =
    eq_ignore_ascii_case holder.user_operation_hash claimant.user_operation_hash

unfoldable pub claim : Option NonceHolder → NonceHolder → SlotStep
unfolding same_hash
claim none claimant = record { write = some claimant; reply = claimed true }
claim (some holder) claimant =
    if same_hash holder claimant
    then record { write = none; reply = claimed false }
    else record { write = none; reply = held holder }

unfoldable pub take_over : Option NonceHolder → Text → NonceHolder → SlotStep
unfolding same_hash
take_over none judged claimant = record { write = some claimant; reply = claimed true }
take_over (some holder) judged claimant =
    if same_hash holder claimant
    then record { write = none; reply = claimed false }
    else if not (eq_ignore_ascii_case holder.user_operation_hash judged)
    then record { write = none; reply = held holder }
    else record { write = some claimant; reply = claimed true }

unfoldable pub release : Option NonceHolder → Text → Bool
release none hash = false
release (some holder) hash = eq_ignore_ascii_case holder.user_operation_hash hash

pub data HolderState : Type 0 where
  live final abandoned : HolderState

unfoldable pub holder_state : Option StoredUserOperation → NonceHolder → ℕ → HolderState
unfolding is_terminal
holder_state none holder now_ms =
    if ltb (now_ms - holder.claimed_at_ms) admission_grace_ms then live else abandoned
holder_state (some r) holder now_ms =
    if is_terminal r.status
    then final
    else if r.admitted
        || (not (status_code r.status == status_code queued)
            || is_some r.last_executor_attempt_at_ms)
        || ltb (now_ms - holder.claimed_at_ms) admission_grace_ms
    then live
    else abandoned
