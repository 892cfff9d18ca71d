-- ===== src/Settlement/Loop.antt =====
-- vela-relay-core/src/settlement.rs: the rounds of the loop of `parse_reimbursement`.
use vela_relay.Prelude.{
  ℕ, zero, suc, ◌+◌, ◌≤◌, ◌≡◌, refl, sym, some, List, length, arith, Option-cases, inl, inr,
}
use vela_relay.Prelude.Result.{ok}
use vela_relay.Settlement.Calldata.{
  Bytes, Address, Reimbursement, Transaction, read_transaction, credit, parse_from,
}

-- A transaction ends 85 bytes or more after its start.
read_transaction-moves :
    (bytes : Bytes) (offset : ℕ) {t : Transaction}
    → read_transaction bytes offset ≡ some t
    → offset + 85 ≤ t.data_end
unfolding read_transaction
read_transaction-moves bytes offset h = ground arith

-- Once the offset is past the last byte, no round does anything.
parse_from_past :
    (rounds : ℕ) (recipient : Address) (allowlist : List Address) (bytes : Bytes) (offset : ℕ)
    (paid : Reimbursement)
    → length bytes ≤ offset
    → parse_from rounds recipient allowlist bytes offset paid ≡ ok paid
unfolding parse_from
parse_from_past zero recipient allowlist bytes offset paid le = refl
parse_from_past (suc rounds) recipient allowlist bytes offset paid le = ground arith

-- The loop over the packed transactions ends of itself: any two numbers of rounds that are at
-- least the number of bytes from the offset on give the same result.
pub parse_from-rounds :
    (n m : ℕ) (recipient : Address) (allowlist : List Address) (bytes : Bytes) (offset : ℕ)
    (paid : Reimbursement)
    → length bytes ≤ offset + n
    → length bytes ≤ offset + m
    → parse_from n recipient allowlist bytes offset paid
      ≡ parse_from m recipient allowlist bytes offset paid
unfolding parse_from
parse_from-rounds zero m recipient allowlist bytes offset paid le le' =
    sym (parse_from_past m recipient allowlist bytes offset paid (omega arith))
parse_from-rounds (suc n) zero recipient allowlist bytes offset paid le le' =
    parse_from_past (suc n) recipient allowlist bytes offset paid (omega arith)
parse_from-rounds (suc n) (suc m) recipient allowlist bytes offset paid le le' =
    elim (Option-cases (read_transaction bytes offset)) [
      | inl e ↦ ground arith
      | inr (t, e) ↦
          let moves = read_transaction-moves bytes offset e in
          let ih : (credited : Reimbursement) → _ = λ credited.
            parse_from-rounds n m recipient allowlist bytes t.data_end credited (omega arith)
              (omega arith) in
          elim (Option-cases (credit recipient allowlist t paid)) [
            | inl f ↦ ground arith
            | inr (credited, f) ↦ let same = ih credited in ground arith
          ]
    ]
