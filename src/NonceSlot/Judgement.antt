-- ===== src/NonceSlot/Judgement.antt =====
-- vela-relay-core/src/nonce_slot.rs: the judgement of a slot's holder (`holder_state`).
use vela_relay.Prelude.{ℕ, ◌+◌, ◌≤◌, ◌≡◌, ◌⊎◌, true, false, Option, none, some, arith}
use vela_relay.Task.{StoredUserOperation, queued, is_terminal}
use vela_relay.NonceSlot.{NonceHolder, holder_state, live, final, abandoned, admission_grace_ms}

-- A record that no part of the relay has taken up.
pub record IsAbandoned (r : StoredUserOperation) : Type 0 where
  pub is_queued : r.status ≡ queued
  pub unadmitted : r.admitted ≡ false
  pub untouched : r.last_executor_attempt_at_ms ≡ none

-- A holder with a record is judged abandoned only when its claim is at least as old as the grace,
-- and the record is still queued, was never confirmed by the queue, and never touched by the
-- executor.
pub holder_state-abandoned :
    (r : StoredUserOperation) (h : NonceHolder) (now : ℕ)
    → holder_state (some r) h now ≡ abandoned
    → IsAbandoned r × (h.claimed_at_ms + admission_grace_ms ≤ now)
unfolding holder_state
holder_state-abandoned r h now e = ground arith

pub holder_state-final :
    (r : StoredUserOperation) (h : NonceHolder) (now : ℕ)
    → holder_state (some r) h now ≡ final
    → is_terminal r.status ≡ true
unfolding holder_state
holder_state-final r h now e = ground arith

-- A holder that is judged final or abandoned at one time is judged the same at any later time,
-- while its record is the same.
pub holder_state-stable :
    (r : Option StoredUserOperation) (h : NonceHolder) (now later : ℕ)
    → now ≤ later
    → (holder_state r h now ≡ live) ⊎ (holder_state r h later ≡ holder_state r h now)
unfolding holder_state
holder_state-stable none h now later le = ground arith
holder_state-stable (some r) h now later le = ground arith
