-- ===== src/Execution/TriageSafety.antt =====
-- vela-relay-core/src/execution.rs: the triage of a batch's messages leaves the lane as it is.
use vela_relay.Prelude.{ℕ, ◌+◌, ◌≡◌, ◌∙◌, false, Option, none, some, List, [], ◌∷◌, length, refl}
use vela_relay.Prelude.Result.{Result, ok, err}
use vela_relay.Prelude.Text.{Text}
use vela_relay.Task.{StoredUserOperation, QueuedUserOperation, is_durable}
use vela_relay.Task.Prepared.{RoutedUserOperation}
use vela_relay.Execution.Program.{done}
use vela_relay.Execution.Discipline.{Obeys, Obeys-if, Obeys-and_then}
use vela_relay.Execution.Sending.{Crates}
use vela_relay.Execution.Funding.{ExecutionPolicy}
use vela_relay.Execution.Candidates.{
  Candidate, queued_operation_from_routed, candidate_from_record, queue_record_matches,
  admission_action, AdmissionAction, execute, recover, dead_letter,
}
use vela_relay.Execution.Results.{ItemResolution, Results, durable_outcome}
use vela_relay.Execution.Triage.{
  Item, item_after, ◌>>>◌, restore, rebuild, found_or_rebuilt, admit, packed_or_rejected,
  pack_candidate, triage_record, triage_item, note_item, triage_items,
}
use vela_relay.Execution.LaneRules.{View, lane_rules}
use vela_relay.Execution.LaneSteps.{length-settle_slot}

-- The treasury's lease is not owned.
abbrev pub Calm : {A : Type 0} → View → A → Type 0
Calm v x = v.funds.owned ≡ false

item_after-Calm :
    {A B : Type 0} (f : A → Item B) (r : Result ItemResolution A) (v : View)
    → Calm v r
    → ((a : A) → Obeys lane_rules Calm v (f a))
    → Obeys lane_rules Calm v (item_after f r)
unfolding item_after
item_after-Calm f (err resolution) v free goes = free
item_after-Calm f (ok a) v free goes = goes a

item_then :
    {A B : Type 0} (m : Item A) (f : A → Item B) (v : View)
    → Obeys lane_rules Calm v m
    → ((w : View) (a : A) → w.funds.owned ≡ false → Obeys lane_rules Calm w (f a))
    → Obeys lane_rules Calm v (m >>> f)
item_then m f v h goes =
    Obeys-and_then lane_rules Calm Calm v m (item_after f) h
      (λ w r free. item_after-Calm f r w free (λ a. goes w a free))

restore-Calm :
    (index : ℕ) (routed : RoutedUserOperation) (r : Result Text QueuedUserOperation) (v : View)
    → v.funds.owned ≡ false
    → Obeys lane_rules Calm v (restore index routed r)
unfolding restore
restore-Calm index routed (err reason) v free = (tt, λ o. free)
restore-Calm index routed (ok queued) v free =
    (tt, λ o. item_after-Calm _ _ _ free (λ a. (tt, λ o'. free)))

rebuild-Calm :
    (crates : Crates) (policy : ExecutionPolicy) (index : ℕ) (routed : RoutedUserOperation)
    (v : View)
    → v.funds.owned ≡ false
    → Obeys lane_rules Calm v (rebuild crates policy index routed)
unfolding rebuild
rebuild-Calm crates policy index routed v free =
    restore-Calm index routed (queued_operation_from_routed crates routed policy.pool_width) v free

found_or_rebuilt-Calm :
    (crates : Crates) (policy : ExecutionPolicy) (index : ℕ) (routed : RoutedUserOperation)
    (found : Option StoredUserOperation) (v : View)
    → v.funds.owned ≡ false
    → Obeys lane_rules Calm v (found_or_rebuilt crates policy index routed found)
unfolding found_or_rebuilt
found_or_rebuilt-Calm crates policy index routed (some stored) v free = free
found_or_rebuilt-Calm crates policy index routed none v free =
    rebuild-Calm crates policy index routed v free

admit-Calm :
    (index : ℕ) (routed : RoutedUserOperation) (action : AdmissionAction) (v : View)
    → v.funds.owned ≡ false
    → Obeys lane_rules Calm v (admit index routed action)
unfolding admit
admit-Calm index routed execute v free = free
admit-Calm index routed recover v free = (tt, λ o. free)
admit-Calm index routed dead_letter v free = (tt, λ o. free)

packed_or_rejected-Calm :
    (routed : RoutedUserOperation) (r : Result Text Candidate) (v : View)
    → v.funds.owned ≡ false
    → Obeys lane_rules Calm v (packed_or_rejected routed r)
unfolding packed_or_rejected
packed_or_rejected-Calm routed (ok candidate) v free = free
packed_or_rejected-Calm routed (err reason) v free = (tt, λ o. free)

triage_record-Calm :
    (crates : Crates) (policy : ExecutionPolicy) (index : ℕ) (routed : RoutedUserOperation)
    (stored : StoredUserOperation) (v : View)
    → v.funds.owned ≡ false
    → Obeys lane_rules Calm v (triage_record crates policy index routed stored)
unfolding triage_record pack_candidate
triage_record-Calm crates policy index routed stored v free =
    let action = admission_action stored.admitted (queue_record_matches crates routed stored) in
    Obeys-if lane_rules Calm v (is_durable stored.status) (done (err durable_outcome))
      (admit index routed action >>> λ u. pack_candidate crates policy index routed stored) free
      (item_then (admit index routed action) _ v (admit-Calm index routed action v free)
        (λ w u free.
          packed_or_rejected-Calm routed
            (candidate_from_record crates index routed stored policy.pool_width) w free))

triage_item-Calm :
    (crates : Crates) (policy : ExecutionPolicy) (index : ℕ) (routed : RoutedUserOperation)
    (found : Option StoredUserOperation) (v : View)
    → v.funds.owned ≡ false
    → Obeys lane_rules Calm v (triage_item crates policy index routed found)
unfolding triage_item
triage_item-Calm crates policy index routed found v free =
    item_then (found_or_rebuilt crates policy index routed found)
      (triage_record crates policy index routed) v
      (found_or_rebuilt-Calm crates policy index routed found v free)
      (λ w stored free. triage_record-Calm crates policy index routed stored w free)

length-note_item :
    (index : ℕ) (r : Result ItemResolution Candidate) (so_far : Results × List Candidate)
    → length (note_item index r so_far).0 ≡ length so_far.0
unfolding note_item
length-note_item index (err resolution) (slots, candidates) =
    length-settle_slot index resolution slots
length-note_item index (ok candidate) (slots, candidates) = refl

-- The treasury's lease is not owned, and there is a slot for each message.
abbrev pub Sorted : ℕ → View → Results × List Candidate → Type 0
Sorted n v x = (v.funds.owned ≡ false) × (length x.0 ≡ n)

pub triage_items-Sorted :
    (crates : Crates) (policy : ExecutionPolicy) (index n : ℕ)
    (operations : List RoutedUserOperation) (stored : List (Option StoredUserOperation))
    (so_far : Results × List Candidate) (v : View)
    → Sorted n v so_far
    → Obeys lane_rules (Sorted n) v (triage_items crates policy index operations stored so_far)
unfolding triage_items
triage_items-Sorted crates policy index n [] stored so_far v h = h
triage_items-Sorted crates policy index n (routed ∷ operations) [] so_far v h = h
triage_items-Sorted crates policy index n (routed ∷ operations) (found ∷ stored) so_far v h =
    Obeys-and_then lane_rules Calm (Sorted n) v (triage_item crates policy index routed found)
      (λ result.
        triage_items crates policy (index + 1) operations stored (note_item index result so_far))
      (triage_item-Calm crates policy index routed found v h.0)
      (λ w r free.
        triage_items-Sorted crates policy (index + 1) n operations stored (note_item index r so_far)
          w (free, length-note_item index r so_far ∙ h.1))
