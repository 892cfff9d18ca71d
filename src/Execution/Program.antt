-- ===== src/Execution/Program.antt =====
-- vela-relay-core/src/execution.rs: `request` and `request_unfenced`, and a run of the program
-- against a shell.
use vela_relay.Prelude.{List, [], ◌∷◌}
use vela_relay.Prelude.Result.{Result, ok, err}
use vela_relay.Prelude.Text.{Text, codes}
use vela_relay.Execution.Operation.{Operation, Outcome, interrupted}

-- A program that gives an `A` when the shell has answered what it asks.
pub data Program (A : Type 0) : Type 0 where
  done : A → Program A
  ask : Operation → (Outcome → Program A) → Program A

-- A program whose errors defer the batch.
abbrev pub Fallible : Type 0 → Type 0
Fallible A = Program (Result Text A)

abbrev pub and_then : {A B : Type 0} → Program A → (A → Program B) → Program B
and_then (done a) f = f a
and_then (ask operation k) f = ask operation (λ o. and_then (k o) f)

-- The rest of a fallible program after `?`.
unfoldable pub after : {A B : Type 0} → (A → Fallible B) → Result Text A → Fallible B
after f (err reason) = done (err reason)
after f (ok a) = f a

infixl 5 ◌>>=◌ ◌>>◌
abbrev pub ◌>>=◌ : {A B : Type 0} → Fallible A → (A → Fallible B) → Fallible B
m >>= f = and_then m (after f)

abbrev pub ◌>>◌ : {B : Type 0} → Fallible (Unit {0}) → Fallible B → Fallible B
m >> k = m >>= λ _. k

abbrev pub pure : {A : Type 0} → A → Fallible A
pure a = done (ok a)

abbrev pub fail : {A : Type 0} → Text → Fallible A
fail reason = done (err reason)

-- A result that is there already.
abbrev pub lift : {A : Type 0} → Result Text A → Fallible A
lift r = done r

abbrev pub unexpected : {A : Type 0} → Result Text A
unexpected = err (codes "unexpected shell response")

-- `request`, with the `match` that reads its outcome: an interrupt unwinds the program.
abbrev pub answered : {A : Type 0} → (Outcome → Result Text A) → Outcome → Result Text A
answered read (interrupted reason) = err reason
answered read o = read o

abbrev pub request : {A : Type 0} → Operation → (Outcome → Result Text A) → Fallible A
request operation read = ask operation (λ o. done (answered read o))

-- `let _ = request(...).await?`
abbrev pub ignore : Outcome → Result Text (Unit {0})
ignore o = ok tt

-- `let _ = request_unfenced(...).await`
abbrev pub tell : Operation → Fallible (Unit {0})
tell operation = ask operation (λ o. done (ok tt))

-- What happened: each operation with its outcome.
abbrev pub Trace : Type 0
Trace = List (Operation × Outcome)

-- A shell answers by what it has answered before.
abbrev pub Shell : Type 0
Shell = Trace → Operation → Outcome

-- What a program gives against a shell, and what it asks on the way.
abbrev pub run : {A : Type 0} → Shell → Trace → Program A → A × Trace
run shell past (done a) = (a, [])
run shell past (ask operation k) =
    let o = shell past operation in
    let (a, trace) = run shell ((operation, o) ∷ past) (k o) in (a, (operation, o) ∷ trace)
