-- ===== src/Patch/Merge.antt =====
-- vela-relay-cf/src/record_do.rs: the merge of a patch (`apply_patch`).
use vela_relay.Prelude.{◌≡◌, some, List, [], ◌∷◌, arith, >>=-eq-some, ◌∙◌}
use vela_relay.Task.{StoredUserOperation}
use vela_relay.Patch.{PatchField, merge_field, merge, set_transaction_hash}

merge_field-status :
    (f : PatchField) (r : StoredUserOperation) {r' : StoredUserOperation}
    → merge_field f r ≡ some r'
    → r'.status ≡ r.status
unfolding merge_field
merge_field-status (set_transaction_hash v) r h = ground arith
merge_field-status f r h = ground arith

-- A merge of fields other than `status` that reads back leaves the status alone.
pub merge-status :
    (fs : List PatchField) (r : StoredUserOperation) {r' : StoredUserOperation}
    → merge fs r ≡ some r'
    → r'.status ≡ r.status
unfolding merge
merge-status [] r h = ground arith
merge-status (f ∷ fs) r h =
    let (m, e, k) = >>=-eq-some (merge_field f r) (merge fs) h in
    merge-status fs m k ∙ merge_field-status f r e
