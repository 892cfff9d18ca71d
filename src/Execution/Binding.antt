-- ===== src/Execution/Binding.antt =====
-- vela-relay-core/src/execution.rs: a batch's candidates are the operations that its messages name.
use mathlib.Core.Path.{subst}
use vela_relay.Prelude.{
  ℕ, ◌+◌, ◌≡◌, ◌⊎◌, inl, inr, refl, ap, Bool, true, false, not, Option, some, List, zero, suc, [],
  ◌∷◌, ◌++◌, ◌==◌, length, arith, any,
}
use vela_relay.Prelude.Result.{Result, ok, err, >>=-eq-ok, ok_or-eq-ok, ok-eq-ok}
use vela_relay.Prelude.Text.{Text, codes, eq_ignore_ascii_case}
use vela_relay.Abi.{PackedOperation, pack, user_operation_hash}
use vela_relay.Vault.{relayer_index_for_sender}
use vela_relay.Settlement.Calldata.{Address}
use vela_relay.Task.{StoredUserOperation, is_durable}
use vela_relay.Task.Prepared.{RoutedUserOperation}
use vela_relay.Execution.Program.{Program, done, ask, Shell, run}
use vela_relay.Execution.Discipline.{Discipline, Obeys, Obeys-if, Obeys-and_then, run-Respects}
use vela_relay.Execution.Sending.{Crates}
use vela_relay.Execution.Funding.{ExecutionPolicy}
use vela_relay.Execution.Candidates.{
  Candidate, candidate_from_record, parsed, require, matches_route, on_lane, has_its_hash,
  packed_as, admission_action, queue_record_matches,
}
use vela_relay.Execution.Results.{ItemResolution, Results, unsettled, durable_outcome}
use vela_relay.Execution.Triage.{
  Item, item_after, ◌>>>◌, found_or_rebuilt, admit, packed_or_rejected, pack_candidate,
  triage_record, triage_item, note_item, triage_items,
}
use vela_relay.Execution.Selection.{either_way}
use vela_relay.Execution.Batch.{first_of_each, take_candidates, bundled}

-- A candidate is what its message names: its hash and EntryPoint are the message's, its hash is the
-- one of its packed operation, its sender is the message's, on the message's lane, and it carries no
-- EIP-7702 authorization.
abbrev pub IsBound : Crates → ℕ → RoutedUserOperation → Candidate → Type 0
IsBound crates width routed c =
    (crates.alloy.parse_b256 routed.user_operation_hash ≡ some c.hash)
    × (crates.alloy.parse_address routed.entry_point ≡ some c.entry_point)
    × (user_operation_hash crates.alloy c.packed c.entry_point routed.chain_id ≡ c.hash)
    × (eq_ignore_ascii_case (crates.alloy.address_text c.packed.sender) routed.sender ≡ true)
    × (relayer_index_for_sender routed.sender width ≡ routed.lane)
    × (c.packed.has_eip7702_authorization ≡ false)

abbrev pub IsBoundIn : Crates → ℕ → List RoutedUserOperation → Candidate → Type 0
IsBoundIn crates width [] c = ⊥
IsBoundIn crates width (routed ∷ rest) c =
    IsBound crates width routed c ⊎ IsBoundIn crates width rest c

unfoldable pub AllBound : Crates → ℕ → List RoutedUserOperation → List Candidate → Type 0
AllBound crates width operations [] = Unit
AllBound crates width operations (c ∷ cs) =
    IsBoundIn crates width operations c × AllBound crates width operations cs

require-true : (b : Bool) (reason : Text) {u : Unit {0}} → require b reason ≡ ok u → b ≡ true
unfolding require
require-true true reason h = refl
require-true false reason h = ground arith

parsed-some : (value : Option ℕ) (error : Text) {n : ℕ} → parsed value error ≡ ok n → value ≡ some n
unfolding parsed
parsed-some value error h = ok_or-eq-ok value error h

on_lane-lane :
    (routed : RoutedUserOperation) (width : ℕ) {u : Unit {0}}
    → on_lane routed width ≡ ok u
    → relayer_index_for_sender routed.sender width ≡ routed.lane
unfolding on_lane
on_lane-lane routed width h =
    let e = require-true (relayer_index_for_sender routed.sender width == routed.lane) _ h in
    ground arith

matches_route-sender :
    (crates : Crates) (routed : RoutedUserOperation) (packed : PackedOperation) {u : Unit {0}}
    → matches_route crates routed packed ≡ ok u
    → (eq_ignore_ascii_case (crates.alloy.address_text packed.sender) routed.sender ≡ true)
      × (packed.has_eip7702_authorization ≡ false)
unfolding matches_route
matches_route-sender crates routed packed h =
    let (u, first, second) = >>=-eq-ok (require (not packed.has_eip7702_authorization) _) _ h in
    let unsigned = require-true (not packed.has_eip7702_authorization) _ first in
    (require-true _ _ second, ground arith)

has_its_hash-hash :
    (crates : Crates) (routed : RoutedUserOperation) (packed : PackedOperation)
    (entry_point : Address) (hash : ℕ) {u : Unit {0}}
    → has_its_hash crates routed packed entry_point hash ≡ ok u
    → user_operation_hash crates.alloy packed entry_point routed.chain_id ≡ hash
unfolding has_its_hash
has_its_hash-hash crates routed packed entry_point hash h =
    let e =
      require-true (user_operation_hash crates.alloy packed entry_point routed.chain_id == hash) _
        h in
    ground arith

candidate_from_record-IsBound :
    (crates : Crates) (index : ℕ) (routed : RoutedUserOperation) (stored : StoredUserOperation)
    (width : ℕ) {c : Candidate}
    → candidate_from_record crates index routed stored width ≡ ok c
    → IsBound crates width routed c
unfolding candidate_from_record
candidate_from_record-IsBound crates index routed stored width {c} h =
    let (hash, h1, r1) =
      >>=-eq-ok (parsed (crates.alloy.parse_b256 routed.user_operation_hash) _) _ h in
    let (entry_point, h2, r2) =
      >>=-eq-ok (parsed (crates.alloy.parse_address routed.entry_point) _) _ r1 in
    let (u3, h3, r3) = >>=-eq-ok (on_lane routed width) _ r2 in
    let (packed, h4, r4) =
      >>=-eq-ok
        (packed_as (pack crates.alloy crates.hex stored.user_operation)
          (codes "could not pack queued UserOperation"))
        _ r3 in
    let (u5, h5, r5) = >>=-eq-ok (matches_route crates routed packed) _ r4 in
    let (u6, h6, r6) = >>=-eq-ok (has_its_hash crates routed packed entry_point hash) _ r5 in
    let same = ok-eq-ok r6 in
    let (sender, plain) = matches_route-sender crates routed packed h5 in
    subst (IsBound crates width routed) same (
      parsed-some _ _ h1,
      parsed-some _ _ h2,
      has_its_hash-hash crates routed packed entry_point hash h6,
      sender,
      on_lane-lane routed width h3,
      plain,
    )

-- Nothing is remembered, and all may be asked.
abbrev no_rules : Discipline
no_rules = record { Memory = Unit; remember = λ m operation o. tt; Allowed = λ m operation. Unit }

any_program : {A : Type 0} (p : Program A) → Obeys no_rules (λ m a. Unit) tt p
any_program (done a) = tt
any_program (ask operation k) = (tt, λ o. any_program (k o))

module _ {A B : Type 0} (Post : B → Type 0) where
  -- Of the steps of the triage only the last is looked at.
  last_item :
      (m : Item A) (f : A → Item B)
      → ((a : A) → Obeys no_rules (λ u r. (b : B) → r ≡ ok b → Post b) tt (f a))
      → Obeys no_rules (λ u r. (b : B) → r ≡ ok b → Post b) tt (m >>> f)
  unfolding item_after
  last_item m f each =
      Obeys-and_then no_rules (λ u r. Unit) (λ u r. (b : B) → r ≡ ok b → Post b) tt m (item_after f)
        (any_program m) (λ u r h. continue r)
    where
      continue :
          (r : Result ItemResolution A)
          → Obeys no_rules (λ u r. (b : B) → r ≡ ok b → Post b) tt (item_after f r)
      continue (err resolution) = λ b e. ground arith
      continue (ok a) = each a

module _ (crates : Crates) (policy : ExecutionPolicy) where
  abbrev Binds : RoutedUserOperation → Unit {0} → Result ItemResolution Candidate → Type 0
  Binds routed u r = (c : Candidate) → r ≡ ok c → IsBound crates policy.pool_width routed c

  packed_or_rejected-Binds :
      (routed : RoutedUserOperation) (r : Result Text Candidate)
      → ((c : Candidate) → r ≡ ok c → IsBound crates policy.pool_width routed c)
      → Obeys no_rules (Binds routed) tt (packed_or_rejected routed r)
  unfolding packed_or_rejected
  packed_or_rejected-Binds routed (ok c) h = λ d e. h d (ap ok (ok-eq-ok e))
  packed_or_rejected-Binds routed (err reason) h = (tt, λ o d e. ground arith)

  triage_item-Binds :
      (index : ℕ) (routed : RoutedUserOperation) (found : Option StoredUserOperation)
      → Obeys no_rules (Binds routed) tt (triage_item crates policy index routed found)
  unfolding triage_item triage_record pack_candidate
  triage_item-Binds index routed found =
      last_item (IsBound crates policy.pool_width routed)
        (found_or_rebuilt crates policy index routed found)
        (triage_record crates policy index routed)
        (λ stored.
          Obeys-if no_rules (Binds routed) tt (is_durable stored.status)
            (done (err durable_outcome))
            (admit index routed
                (admission_action stored.admitted (queue_record_matches crates routed stored))
              >>> λ u. pack_candidate crates policy index routed stored)
            (λ c e. ground arith)
            (last_item (IsBound crates policy.pool_width routed)
              (admit index routed
                (admission_action stored.admitted (queue_record_matches crates routed stored)))
              (λ u. pack_candidate crates policy index routed stored)
              (λ u.
                packed_or_rejected-Binds routed
                  (candidate_from_record crates index routed stored policy.pool_width)
                  (λ c e.
                    candidate_from_record-IsBound crates index routed stored policy.pool_width e))))

  AllBound-snoc :
      (operations : List RoutedUserOperation) (cs : List Candidate) (c : Candidate)
      → AllBound crates policy.pool_width operations cs
      → IsBoundIn crates policy.pool_width operations c
      → AllBound crates policy.pool_width operations (cs ++ c ∷ [])
  unfolding AllBound
  AllBound-snoc operations [] c h b = (b, tt)
  AllBound-snoc operations (d ∷ cs) c (h, rest) b = (h, AllBound-snoc operations cs c rest b)

  note_item-AllBound :
      (operations : List RoutedUserOperation) (index : ℕ) (r : Result ItemResolution Candidate)
      (slots : Results) (cs : List Candidate)
      → AllBound crates policy.pool_width operations cs
      → ((c : Candidate) → r ≡ ok c → IsBoundIn crates policy.pool_width operations c)
      → AllBound crates policy.pool_width operations (note_item index r (slots, cs)).1
  unfolding note_item
  note_item-AllBound operations index (err resolution) slots cs h b = h
  note_item-AllBound operations index (ok c) slots cs h b =
      AllBound-snoc operations cs c h (b c refl)

  module _ (whole : List RoutedUserOperation) where
    abbrev Bounds : Unit {0} → Results × List Candidate → Type 0
    Bounds u x = AllBound crates policy.pool_width whole x.1

    triage_items-AllBound :
        (index : ℕ) (operations : List RoutedUserOperation)
        (stored : List (Option StoredUserOperation)) (so_far : Results × List Candidate)
        → ((c : Candidate)
            → IsBoundIn crates policy.pool_width operations c
            → IsBoundIn crates policy.pool_width whole c)
        → AllBound crates policy.pool_width whole so_far.1
        → Obeys no_rules Bounds tt (triage_items crates policy index operations stored so_far)
    unfolding triage_items
    triage_items-AllBound index [] stored so_far part h = h
    triage_items-AllBound index (routed ∷ operations) [] so_far part h = h
    triage_items-AllBound index (routed ∷ operations) (found ∷ stored) so_far part h =
        Obeys-and_then no_rules (Binds routed) Bounds tt
          (triage_item crates policy index routed found)
          (λ result.
            triage_items crates policy (index + 1) operations stored
              (note_item index result so_far))
          (triage_item-Binds index routed found)
          (λ u result binds.
            triage_items-AllBound (index + 1) operations stored (note_item index result so_far)
              (λ c b. part c (inr b))
              (note_item-AllBound whole index result so_far.0 so_far.1 h
                (λ c e. part c (inl (binds c e)))))

    first_of_each-AllBound :
        (key : Candidate → ℕ) (kept : List ℕ) (cs : List Candidate)
        → AllBound crates policy.pool_width whole cs
        → AllBound crates policy.pool_width whole (first_of_each key kept cs)
    unfolding first_of_each AllBound
    first_of_each-AllBound key kept [] h = h
    first_of_each-AllBound key kept (c ∷ cs) (b, h) =
        either_way (AllBound crates policy.pool_width whole) (any (λ k. key c == k) kept)
          (first_of_each key kept cs) (c ∷ first_of_each key (key c ∷ kept) cs)
          (first_of_each-AllBound key kept cs h)
          (λ e. (b, first_of_each-AllBound key (key c ∷ kept) cs h))

    take_candidates-AllBound :
        (n : ℕ) (cs : List Candidate)
        → AllBound crates policy.pool_width whole cs
        → AllBound crates policy.pool_width whole (take_candidates n cs)
    unfolding take_candidates AllBound
    take_candidates-AllBound zero cs h = tt
    take_candidates-AllBound (suc n) [] h = tt
    take_candidates-AllBound (suc n) (c ∷ cs) (b, h) = (b, take_candidates-AllBound n cs h)

-- Whatever the store answers, each candidate of a batch's bundle is bound to a message of the
-- batch: it has the message's hash and EntryPoint; that hash is the one of its packed operation
-- under that EntryPoint and the message's chain; its sender prints as the message's, up to case,
-- and the message's lane is the one that this sender is routed to; and it carries no EIP-7702
-- authorization.
pub bundled-AllBound :
    (crates : Crates) (policy : ExecutionPolicy) (operations : List RoutedUserOperation)
    (stored : List (Option StoredUserOperation)) (shell : Shell)
    → AllBound crates policy.pool_width operations (
        bundled policy.max_bundle_operations
          (run shell [] (
            triage_items crates policy 0 operations stored
              (unsettled (length operations), []))).0.1)
unfolding AllBound bundled
bundled-AllBound crates policy operations stored shell =
    let (respects, all) =
      run-Respects no_rules (Bounds crates policy operations) shell [] tt
        (triage_items crates policy 0 operations stored (unsettled (length operations), []))
        (triage_items-AllBound crates policy operations 0 operations stored
          (unsettled (length operations), []) (λ c b. b) tt) in
    take_candidates-AllBound crates policy operations policy.max_bundle_operations _ (
      first_of_each-AllBound crates policy operations (λ c. c.packed.sender) [] _
        (first_of_each-AllBound crates policy operations (λ c. c.hash) [] _ all))
