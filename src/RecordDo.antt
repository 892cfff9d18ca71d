-- ===== src/RecordDo.antt =====
-- vela-relay-cf/src/record_do.rs: one Durable Object for each operation record, or nonce slot. Its
-- single thread takes one command at a time.
pub mod Status
pub mod History
pub mod Expiry
pub mod Race
use vela_relay.Prelude.{
  ℕ, ◌+◌, ◌-◌, ◌*◌, Bool, true, false, Option, none, some, List, [], ◌∷◌, ltb, if◌then◌else◌,
}
use vela_relay.Prelude.Text.{Text}
use vela_relay.Task.{
  UserOperationStatus, submitted, QueuedUserOperation, StoredUserOperation, queued_record,
}
use vela_relay.Patch.{
  Patch, not_object, object, StatusKey, absent, unreadable, requests, PatchField, merge,
}
use vela_relay.Lifecycle.{
  PatchDecision, apply, refuse_illegal_transition, decide_patch, BundleSubmissionDecision,
  transition, index_only, skip, decide_bundle_submission, dead_letter_patch,
}
use vela_relay.NonceSlot
use vela_relay.NonceSlot.{NonceHolder, NonceClaim, SlotStep, claim, take_over, slot_ttl_ms}

abbrev pub record_ttl_ms : ℕ
record_ttl_ms = 3_600 * 1_000

-- What the object stores, and the time that its alarm is set for.
pub record RecordState : Type 0 where
  pub stored : Option StoredUserOperation
  pub nonce_holder : Option NonceHolder
  pub expires_at_ms : Option ℕ
  pub alarm_at_ms : Option ℕ

abbrev pub empty : RecordState
empty = record { stored = none; nonce_holder = none; expires_at_ms = none; alarm_at_ms = none }

-- The platform's part in one call: its clock, and whether its storage can be read. Writes succeed.
pub record Platform : Type 0 where
  pub now : ℕ
  pub readable : Bool

pub data RecordCommand : Type 0 where
  create_queued : QueuedUserOperation → RecordCommand
  get : RecordCommand
  mark_admitted : RecordCommand
  restore_queued : QueuedUserOperation → RecordCommand
  patch : Patch → RecordCommand
  give_up : ℕ → RecordCommand
  mark_bundle_member_submitted : ℕ → Text → RecordCommand
  claim_nonce : NonceHolder → RecordCommand
  take_over_nonce : Text → NonceHolder → RecordCommand
  release_nonce : Text → RecordCommand

pub data RecordReply : Type 0 where
  created : Bool → RecordReply
  found : Option StoredUserOperation → RecordReply
  marked : Bool → RecordReply
  patched : Bool → RecordReply
  indexed : Bool → RecordReply
  nonce : NonceClaim → RecordReply
  released : Bool → RecordReply
  request_failed : RecordReply

-- `record()`: a read that fails is taken for no record.
unfoldable pub read_record : Platform → RecordState → Option StoredUserOperation
read_record p s = if p.readable then s.stored else none

schedule_alarm : Platform → RecordState → RecordState
schedule_alarm p s = record s { alarm_at_ms = some (p.now + record_ttl_ms) }

create :
    Platform
    → QueuedUserOperation
    → Bool
    → Option StoredUserOperation
    → RecordState
    → RecordState × RecordReply
unfolding schedule_alarm
create p operation admitted (some existing) s = (s, created false)
create p operation admitted none s = (
  schedule_alarm p (record s {
    stored = some (queued_record operation admitted);
    expires_at_ms = some (p.now + record_ttl_ms);
  }),
  created true,
)

mark : Option StoredUserOperation → RecordState → RecordState × RecordReply
mark none s = (s, marked false)
mark (some r) s = (record s { stored = some (record r { admitted = true }) }, marked true)

-- What the merge leaves in storage; `none` is the error that the failed read back raises.
put_merged : Option StoredUserOperation → RecordState → RecordState × Option Bool
put_merged none s = (s, none)
put_merged (some merged) s = (record s { stored = some merged }, some true)

with_status : Option UserOperationStatus → StoredUserOperation → StoredUserOperation
with_status none r = r
with_status (some status) r = record r { status = status }

decided :
    PatchDecision
    → Option UserOperationStatus
    → List PatchField
    → StoredUserOperation
    → RecordState
    → RecordState × Option Bool
unfolding put_merged with_status
decided refuse_illegal_transition requested fields r s = (s, some false)
decided apply requested fields r s = put_merged (merge fields (with_status requested r)) s

apply_to : Patch → StoredUserOperation → RecordState → RecordState × Option Bool
unfolding decided
apply_to not_object r s = (s, some false)
apply_to (object unreadable fields) r s = (s, some false)
apply_to (object absent fields) r s = decided (decide_patch r.status none) none fields r s
apply_to (object (requests status) fields) r s =
    decided (decide_patch r.status (some status)) (some status) fields r s

patch_found : Option StoredUserOperation → Patch → RecordState → RecordState × Option Bool
unfolding apply_to
patch_found none p s = (s, some false)
patch_found (some r) p s = apply_to p r s

unfoldable pub apply_patch : Platform → Patch → RecordState → RecordState × Option Bool
unfolding patch_found read_record
apply_patch p requested s = patch_found (read_record p s) requested s

patched_reply : RecordState × Option Bool → RecordState × RecordReply
patched_reply (s, none) = (s, request_failed)
patched_reply (s, some done) = (s, patched done)

-- The tail of `give_up`, after its patch.
extend_life : Platform → ℕ → RecordState × Option Bool → RecordState × Option Bool
unfolding schedule_alarm
extend_life p now_ms (s, none) = (s, none)
extend_life p now_ms (s, some false) = (s, some false)
extend_life p now_ms (s, some true) =
    (schedule_alarm p (record s { expires_at_ms = some (now_ms + record_ttl_ms) }), some true)

give_up_by : Platform → ℕ → Option Patch → RecordState → RecordState × Option Bool
unfolding extend_life apply_patch
give_up_by p now_ms none s = (s, some false)
give_up_by p now_ms (some dead) s = extend_life p now_ms (apply_patch p dead s)

give_up_found : Platform → ℕ → Option StoredUserOperation → RecordState → RecordState × Option Bool
unfolding give_up_by
give_up_found p now_ms none s = (s, some false)
give_up_found p now_ms (some r) s = give_up_by p now_ms (dead_letter_patch r now_ms) s

submit_as :
    BundleSubmissionDecision → Text → StoredUserOperation → RecordState → RecordState × RecordReply
submit_as transition hash r s = (
  record s {
    stored = some (record r { status = submitted; transaction_hash = some hash; admitted = true });
  },
  indexed true,
)
submit_as index_only hash r s = (s, indexed true)
submit_as skip hash r s = (s, indexed false)

apply_bundle_submission :
    ℕ → Text → Option StoredUserOperation → RecordState → RecordState × RecordReply
unfolding submit_as
apply_bundle_submission chain hash none s = (s, indexed false)
apply_bundle_submission chain hash (some r) s =
    submit_as
      (decide_bundle_submission r.status r.transaction_hash r.chain_id r.chain_id_text chain hash)
      hash r s

write_nonce_holder : Platform → Option NonceHolder → RecordState → RecordState
write_nonce_holder p none s = s
write_nonce_holder p (some holder) s = record s {
  nonce_holder = some holder;
  expires_at_ms = some (p.now + slot_ttl_ms);
  alarm_at_ms = some (p.now + slot_ttl_ms);
}

slot_step : Platform → SlotStep → RecordState → RecordState × RecordReply
unfolding write_nonce_holder
slot_step p step s = (write_nonce_holder p step.write s, nonce step.reply)

-- A slot's command fails where the holder cannot be read.
if_readable : Platform → RecordState × RecordReply → RecordState → RecordState × RecordReply
if_readable p done s = if p.readable then done else (s, request_failed)

release_slot : Bool → RecordState → RecordState × RecordReply
release_slot true s = (record s { nonce_holder = none }, released true)
release_slot false s = (s, released false)

-- `fetch`
unfoldable pub handle : Platform → RecordCommand → RecordState → RecordState × RecordReply
unfolding create mark patched_reply apply_patch give_up_found apply_bundle_submission slot_step
    if_readable release_slot
handle p (create_queued operation) s = create p operation false (read_record p s) s
handle p get s = (s, found (read_record p s))
handle p mark_admitted s = mark (read_record p s) s
handle p (restore_queued operation) s = create p operation true (read_record p s) s
handle p (patch requested) s = patched_reply (apply_patch p requested s)
handle p (give_up now_ms) s = patched_reply (give_up_found p now_ms (read_record p s) s)
handle p (mark_bundle_member_submitted chain hash) s =
    apply_bundle_submission chain hash (read_record p s) s
handle p (claim_nonce holder) s = if_readable p (slot_step p (claim s.nonce_holder holder) s) s
handle p (take_over_nonce judged holder) s =
    if_readable p (slot_step p (take_over s.nonce_holder judged holder) s) s
handle p (release_nonce hash) s =
    if_readable p (release_slot (NonceSlot.release s.nonce_holder hash) s) s

alarm_at : ℕ → Option ℕ → RecordState → RecordState
alarm_at now none s = empty
alarm_at now (some expires_at) s =
    if ltb now expires_at then record s { alarm_at_ms = some (now + (expires_at - now)) } else empty

-- `alarm`: the time that it was set for is spent when it fires.
unfoldable pub alarm : Platform → RecordState → RecordState
unfolding alarm_at
alarm p s = alarm_at p.now (if p.readable then s.expires_at_ms else none) s

-- The commands that arrive one after another.
unfoldable pub run : List (Platform × RecordCommand) → RecordState → RecordState
run [] s = s
run ((p, c) ∷ rest) s = run rest (handle p c s).0
