-- ===== src/Lifecycle/Table.antt =====
-- vela-relay-core/src/lifecycle.rs: the transition table (`transition_is_allowed`).
use vela_relay.Prelude.{ℕ, ◌<◌, ◌≡◌, ◌⊎◌, true, false, arith}
use vela_relay.Task.{
  UserOperationStatus, not_found, queued, not_submitted, submitted, rejected, included, failed,
  is_terminal, is_durable,
}
use vela_relay.Lifecycle.{transition_is_allowed}

-- How far a status is along its life.
abbrev pub rank : UserOperationStatus → ℕ
rank not_found = 0
rank queued = 0
rank not_submitted = 1
rank submitted = 2
rank rejected = 3
rank included = 3
rank failed = 3

-- A transition that the table allows is a restatement, or leads from a status that is not terminal
-- to one of higher rank.
pub transition_is_allowed-rank :
    (current next : UserOperationStatus)
    → transition_is_allowed current next ≡ true
    → (current ≡ next) ⊎ ((rank current < rank next) × (is_terminal current ≡ false))
unfolding transition_is_allowed is_terminal
transition_is_allowed-rank current next h = ground arith

-- The statuses that the executor takes for settled are never left for one that it does not.
pub transition_is_allowed-durable :
    (current next : UserOperationStatus)
    → transition_is_allowed current next ≡ true
    → is_durable current ≡ true
    → is_durable next ≡ true
unfolding transition_is_allowed is_durable
transition_is_allowed-durable current next h d = ground arith

-- Two allowed transitions in a row are an allowed one, unless they lead through `submitted` to
-- `included`.
pub transition_is_allowed_trans :
    (a b c : UserOperationStatus)
    → transition_is_allowed a b ≡ true
    → transition_is_allowed b c ≡ true
    → (transition_is_allowed a c ≡ true) ⊎ ((b ≡ submitted) × (c ≡ included))
unfolding transition_is_allowed
transition_is_allowed_trans a b c h k = ground arith
