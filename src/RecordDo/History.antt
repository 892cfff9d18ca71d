-- ===== src/RecordDo/History.antt =====
-- vela-relay-cf/src/record_do.rs: a record's history, command after command.
use vela_relay.Prelude.{
  ◌<◌, ◌≡◌, ◌⊎◌, inl, inr, refl, true, false, Option, none, some, List, [], ◌∷◌, All, arith, sym,
  ap,
}
use mathlib.Core.Path.{subst}
use vela_relay.Task.{
  UserOperationStatus, StoredUserOperation, QueuedUserOperation, queued_record, is_terminal,
}
use vela_relay.Lifecycle.Table.{rank, transition_is_allowed-rank}
use vela_relay.RecordDo.{
  RecordState, Platform, RecordCommand, create_queued, restore_queued, created, handle, create, run,
}
use vela_relay.RecordDo.Status.{Follows, handle-Follows, read_some}

-- The storage answered every read of the history.
abbrev pub AllReadable : List (Platform × RecordCommand) → Type 0
AllReadable = All (λ x. x.0.readable ≡ true)

-- A status and a later one: they are the same, or the later is of higher rank and the earlier was
-- not terminal.
abbrev pub Forward : UserOperationStatus → UserOperationStatus → Type 0
Forward a b = (a ≡ b) ⊎ ((rank a < rank b) × (is_terminal a ≡ false))

Forward-trans : (a b c : UserOperationStatus) → Forward a b → Forward b c → Forward a c
Forward-trans a b c (inl e) f = subst (λ x. Forward x c) (sym e) f
Forward-trans a b c (inr (g, h)) (inl f) = subst (Forward a) f (inr (g, h))
Forward-trans a b c (inr (g, h)) (inr (g', h')) = inr (omega arith, h)

step-Forward :
    (p : Platform) (c : RecordCommand) (r : StoredUserOperation) (s : RecordState)
    → p.readable ≡ true
    → s.stored ≡ some r
    → (r' : StoredUserOperation) × ((handle p c s).0.stored ≡ some r') × Forward r.status r'.status
step-Forward p c r s ok e = go (handle p c s).0.stored refl (handle-Follows p c r s ok e)
  where
    go :
        (o : Option StoredUserOperation)
        → (handle p c s).0.stored ≡ o
        → Follows (some r) o
        → (r' : StoredUserOperation) × ((handle p c s).0.stored ≡ some r')
          × Forward r.status r'.status
    go none q f = absurd f
    go (some r') q f = (r', q, transition_is_allowed-rank r.status r'.status f)

-- Whatever commands a stored record receives while the storage can be read, it stays stored, and
-- its status at the end is the one at the beginning, or one of higher rank that the record moved
-- to from a status that was not terminal.
pub run-Forward :
    (history : List (Platform × RecordCommand)) (r : StoredUserOperation) (s : RecordState)
    → AllReadable history
    → s.stored ≡ some r
    → (r' : StoredUserOperation) × ((run history s).stored ≡ some r') × Forward r.status r'.status
unfolding run
run-Forward [] r s ok e = (r, e, inl refl)
run-Forward ((p, c) ∷ rest) r s ok e =
    let (m, em, fm) = step-Forward p c r s ok.0 e in
    let (r', e', f') = run-Forward rest m (handle p c s).0 ok.1 em in
    (r', e', Forward-trans r.status m.status r'.status fm f')

create-found :
    (p : Platform) (operation : QueuedUserOperation) (r : StoredUserOperation) (s : RecordState)
    → p.readable ≡ true
    → s.stored ≡ some r
    → (handle p (create_queued operation) s ≡ (s, created false))
      × (handle p (restore_queued operation) s ≡ (s, created false))
unfolding handle create
create-found p operation r s ok e = (
  ap (λ o. create p operation false o s) (read_some p s r ok e),
  ap (λ o. create p operation true o s) (read_some p s r ok e),
)

-- After any commands to a stored record while the storage can be read, a further creation, or
-- restoration, answers that it created nothing, and changes nothing.
pub create_queued-once :
    (history : List (Platform × RecordCommand)) (r : StoredUserOperation) (s : RecordState)
    (p : Platform) (operation : QueuedUserOperation)
    → AllReadable history
    → p.readable ≡ true
    → s.stored ≡ some r
    → (handle p (create_queued operation) (run history s) ≡ (run history s, created false))
      × (handle p (restore_queued operation) (run history s) ≡ (run history s, created false))
create_queued-once history r s p operation ok okp e =
    let (r', stored, f) = run-Forward history r s ok e in
    create-found p operation r' (run history s) okp stored

-- Where the read fails, a creation answers that it created the record, and whatever record was
-- stored is replaced by a queued one.
pub create_queued-unreadable :
    (p : Platform) (operation : QueuedUserOperation) (s : RecordState)
    → p.readable ≡ false
    → ((handle p (create_queued operation) s).1 ≡ created true)
      × ((handle p (create_queued operation) s).0.stored ≡ some (queued_record operation false))
unfolding handle create
create_queued-unreadable p operation s h = ground arith
