-- ===== src/Execution/Results.antt =====
-- vela-relay-core/src/execution.rs: the results of a batch, one slot for each of its operations, and
-- the programs that fill them.
use vela_relay.Prelude.{
  ℕ, zero, suc, ◌+◌, Bool, false, Option, none, some, List, [], ◌∷◌, map, is_some, if◌then◌else◌,
}
use vela_relay.Prelude.Result.{Result, ok, err}
use vela_relay.Prelude.Text.{Text}
use vela_relay.Task.Prepared.{RoutedUserOperation}
use vela_relay.Execution.Operation.{
  Operation, Outcome, ExecutionDiagnostic, record_deferred_of, notify_issue, emit_diagnostic_of,
}
use vela_relay.Execution.Program.{Program, done, Fallible, and_then, ask, answered}
use vela_relay.Execution.Candidates.{Candidate, should_notify_executor_deferred}

pub data ItemResolution : Type 0 where
  durable_outcome : ItemResolution
  failed_item : Text → ItemResolution

abbrev pub Results : Type 0
Results = List (Option ItemResolution)

-- `Results::new`
unfoldable pub unsettled : ℕ → Results
unsettled zero = []
unsettled (suc n) = none ∷ unsettled n

-- `self.slots[index] = Some(...)`
unfoldable pub settle_slot : ℕ → ItemResolution → Results → Results
settle_slot index resolution [] = []
settle_slot zero resolution (slot ∷ slots) = some resolution ∷ slots
settle_slot (suc index) resolution (slot ∷ slots) = slot ∷ settle_slot index resolution slots

unfoldable pub is_settled : Results → ℕ → Bool
is_settled [] index = false
is_settled (slot ∷ slots) zero = is_some slot
is_settled (slot ∷ slots) (suc index) = is_settled slots index

or_failed : Text → Option ItemResolution → ItemResolution
or_failed reason none = failed_item reason
or_failed reason (some resolution) = resolution

unfoldable pub finish : Text → Results → List ItemResolution
unfolding or_failed
finish reason slots = map (or_failed reason) slots

unfoldable pub all_failed : ℕ → Text → List ItemResolution
all_failed zero reason = []
all_failed (suc n) reason = failed_item reason ∷ all_failed n reason

-- A fallible program that fills slots on its way; they stay filled where it fails.
abbrev pub Lane : Type 0 → Type 0
Lane A = Results → Program (Result Text A × Results)

unfoldable pub lane_after :
    {A B : Type 0} → (A → Lane B) → Result Text A × Results → Program (Result Text B × Results)
lane_after f (err reason, slots) = done (err reason, slots)
lane_after f (ok a, slots) = f a slots

infixl 5 ◌>>=◌ ◌>>◌
abbrev pub ◌>>=◌ : {A B : Type 0} → Lane A → (A → Lane B) → Lane B
(m >>= f) slots = and_then (m slots) (lane_after f)

abbrev pub ◌>>◌ : {B : Type 0} → Lane (Unit {0}) → Lane B → Lane B
m >> k = m >>= λ _. k

abbrev pub pure : {A : Type 0} → A → Lane A
pure a slots = done (ok a, slots)

abbrev pub fail : {A : Type 0} → Text → Lane A
fail reason slots = done (err reason, slots)

abbrev pub lift : {A : Type 0} → Result Text A → Lane A
lift r slots = done (r, slots)

-- A program that fills no slot.
abbrev pub of : {A : Type 0} → Fallible A → Lane A
of p slots = and_then p (λ r. done (r, slots))

-- One request, with what reads its outcome.
abbrev pub query : {A : Type 0} → Operation → (Outcome → Result Text A) → Lane A
query operation read slots = ask operation (λ o. done (answered read o, slots))

-- `let _ = request_unfenced(...).await`
abbrev pub tell : Operation → Lane (Unit {0})
tell operation slots = ask operation (λ o. done (ok tt, slots))

-- `results.durable` and `results.failed`
abbrev pub settled_as : ItemResolution → ℕ → Lane (Unit {0})
settled_as resolution index slots = done (ok tt, settle_slot index resolution slots)

abbrev pub durable : ℕ → Lane (Unit {0})
durable index = settled_as durable_outcome index

abbrev pub failed : ℕ → Text → Lane (Unit {0})
failed index reason = settled_as (failed_item reason) index

-- One after the other.
unfoldable pub for_each : {A : Type 0} → (A → Lane (Unit {0})) → List A → Lane (Unit {0})
for_each body [] = pure tt
for_each body (x ∷ xs) = do body x; for_each body xs

abbrev pub emit : ExecutionDiagnostic → Lane (Unit {0})
emit diagnostic = tell (emit_diagnostic_of diagnostic)

unfoldable pub record_deferred : Text → Text → Text → Lane (Unit {0})
record_deferred hash stage reason = do
  tell (record_deferred_of hash stage reason)
  if should_notify_executor_deferred stage then tell (notify_issue hash stage reason) else pure tt

-- The slots at the call say which operations are left out.
unfoldable pub record_routed_deferred :
    ℕ → List RoutedUserOperation → Results → Text → Text → Lane (Unit {0})
unfolding record_deferred
record_routed_deferred index [] slots stage reason = pure tt
record_routed_deferred index (operation ∷ operations) slots stage reason =
    (if is_settled slots index
      then pure tt
      else record_deferred operation.user_operation_hash stage reason)
    >> record_routed_deferred (index + 1) operations slots stage reason

unfoldable pub record_candidates_deferred : List Candidate → Text → Text → Lane (Unit {0})
unfolding for_each record_deferred
record_candidates_deferred candidates stage reason =
    for_each (λ candidate. record_deferred candidate.hash_string stage reason) candidates
