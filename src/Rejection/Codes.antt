-- ===== src/Rejection/Codes.antt =====
-- vela-relay-core/src/rejection.rs: the codes of the reasons.
use vela_relay.Prelude.{◌≡◌, refl}
use vela_relay.Rejection.{RejectionReason, nonce_in_flight, as_str, parse}

-- The code that a record stores for a reason is parsed back as that reason.
pub parse-as_str : (r : RejectionReason) → parse (as_str r) ≡ r
unfolding parse
parse-as_str nonce_in_flight = refl
parse-as_str _ = refl
