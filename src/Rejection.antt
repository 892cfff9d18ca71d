-- ===== src/Rejection.antt =====
-- vela-relay-core/src/rejection.rs: the machine reason of a rejection.
pub mod Codes
use vela_relay.Prelude.{
  ℕ, Bool, true, false, ◌||◌, Option, none, some, List, [], ◌∷◌, if◌then◌else◌, is_some,
}
use vela_relay.Prelude.Text.{Text, codes, text_eq}
use vela_relay.Task.{StoredUserOperation, UserOperationStatus, failed, rejected}

pub data RejectionReason : Type 0 where
  nonce_in_flight fee_below_market fee_below_minimum fee_payment_invalid : RejectionReason
  nonce_used simulation_failed invalid_operation unsupported_fee_token : RejectionReason
  relay_gave_up reverted_onchain bundle_failed unknown : RejectionReason

abbrev pub every_reason : List RejectionReason
every_reason =
    nonce_in_flight ∷ fee_below_market ∷ fee_below_minimum ∷ fee_payment_invalid ∷ nonce_used
    ∷ simulation_failed ∷ invalid_operation ∷ unsupported_fee_token ∷ relay_gave_up
    ∷ reverted_onchain ∷ bundle_failed ∷ unknown ∷ []

unfoldable pub as_str : RejectionReason → Text
as_str nonce_in_flight = codes "nonce_in_flight"
as_str fee_below_market = codes "fee_below_market"
as_str fee_below_minimum = codes "fee_below_minimum"
as_str fee_payment_invalid = codes "fee_payment_invalid"
as_str nonce_used = codes "nonce_used"
as_str simulation_failed = codes "simulation_failed"
as_str invalid_operation = codes "invalid_operation"
as_str unsupported_fee_token = codes "unsupported_fee_token"
as_str relay_gave_up = codes "relay_gave_up"
as_str reverted_onchain = codes "reverted_onchain"
as_str bundle_failed = codes "bundle_failed"
as_str unknown = codes "unknown"

-- `find(|reason| reason.as_str() == value).unwrap_or(Unknown)`
find_reason : Text → List RejectionReason → RejectionReason
find_reason value [] = unknown
find_reason value (r ∷ rs) =
    let rest = find_reason value rs in if text_eq (as_str r) value then r else rest

unfoldable pub parse : Text → RejectionReason
unfolding find_reason as_str
parse value = find_reason value every_reason

unfoldable pub of_stage : Option Text → RejectionReason
of_stage none = unknown
of_stage (some stage) =
    if text_eq stage (codes "nonce")
    then nonce_used
    else if text_eq stage (codes "simulation")
    then simulation_failed
    else if text_eq stage (codes "dead_letter")
    then relay_gave_up
    else if text_eq stage (codes "queue")
    then invalid_operation
    else if text_eq stage (codes "tempo_fee_token")
    then unsupported_fee_token
    else if text_eq stage (codes "in_band_settlement")
    then fee_below_market
    else unknown

reason_of_rejected : Option Text → StoredUserOperation → RejectionReason
reason_of_rejected (some code) r = parse code
reason_of_rejected none r =
    if is_some r.receipt || is_some r.event
    then reverted_onchain
    else of_stage r.last_executor_stage

reason_for : UserOperationStatus → StoredUserOperation → Option RejectionReason
reason_for failed r = some bundle_failed
reason_for rejected r = some (reason_of_rejected r.rejection_reason r)
reason_for _ r = none

unfoldable pub of_record : StoredUserOperation → Option RejectionReason
unfolding reason_for reason_of_rejected
of_record r = reason_for r.status r
