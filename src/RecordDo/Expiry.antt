-- ===== src/RecordDo/Expiry.antt =====
-- vela-relay-cf/src/record_do.rs: deadlines and alarms, in any order with commands.
use vela_relay.Prelude.{◌≡◌, ◌⊎◌, Bool, true, false, ◌||◌, List, [], ◌∷◌, arith, is_some}
use vela_relay.RecordDo.{
  RecordState, Platform, RecordCommand, create_queued, get, mark_admitted, restore_queued, patch,
  give_up, mark_bundle_member_submitted, claim_nonce, take_over_nonce, release_nonce, handle, alarm,
}

pub data Event : Type 0 where
  command : Platform → RecordCommand → Event
  fire : Platform → Event

unfoldable pub after : List Event → RecordState → RecordState
after [] s = s
after (command p c ∷ rest) s = after rest (handle p c s).0
after (fire p ∷ rest) s = after rest (alarm p s)

abbrev pub is_occupied : RecordState → Bool
is_occupied s = is_some s.stored || is_some s.nonce_holder

-- What is stored has a deadline and an alarm.
unfoldable pub IsScheduled : RecordState → Type 0
IsScheduled s =
    (is_occupied s ≡ false) ⊎ ((is_some s.expires_at_ms ≡ true) × (is_some s.alarm_at_ms ≡ true))

handle-IsScheduled :
    (p : Platform) (c : RecordCommand) (s : RecordState)
    → IsScheduled s
    → IsScheduled (handle p c s).0
unfolding handle IsScheduled
handle-IsScheduled p (create_queued operation) s h = ground arith
handle-IsScheduled p get s h = ground arith
handle-IsScheduled p mark_admitted s h = ground arith
handle-IsScheduled p (restore_queued operation) s h = ground arith
handle-IsScheduled p (patch requested) s h = ground arith
handle-IsScheduled p (give_up now_ms) s h = ground arith
handle-IsScheduled p (mark_bundle_member_submitted chain hash) s h = ground arith
handle-IsScheduled p (claim_nonce holder) s h = ground arith
handle-IsScheduled p (take_over_nonce judged holder) s h = ground arith
handle-IsScheduled p (release_nonce hash) s h = ground arith

alarm-IsScheduled : (p : Platform) (s : RecordState) → IsScheduled s → IsScheduled (alarm p s)
unfolding alarm IsScheduled
alarm-IsScheduled p s h = ground arith

-- That an object either stores neither a record nor a holder, or has a deadline and an alarm set,
-- stays so after any commands and alarms, in any order.
pub after-IsScheduled :
    (events : List Event) (s : RecordState) → IsScheduled s → IsScheduled (after events s)
unfolding after
after-IsScheduled [] s h = h
after-IsScheduled (command p c ∷ rest) s h =
    after-IsScheduled rest (handle p c s).0 (handle-IsScheduled p c s h)
after-IsScheduled (fire p ∷ rest) s h = after-IsScheduled rest (alarm p s) (alarm-IsScheduled p s h)
