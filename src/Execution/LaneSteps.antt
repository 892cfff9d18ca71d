-- ===== src/Execution/LaneSteps.antt =====
-- vela-relay-core/src/execution.rs: the steps of the lane's pipeline that leave the lane as it is.
use vela_relay.Prelude.{
  ℕ, zero, suc, ◌≡◌, refl, ap, ◌∙◌, Bool, true, false, List, [], ◌∷◌, length, if◌then◌else◌,
}
use vela_relay.Prelude.Result.{Result, ok, err}
use vela_relay.Prelude.Text.{Text}
use vela_relay.Execution.Program.{Program, and_then}
use vela_relay.Execution.Discipline.{Obeys, Obeys-and_then}
use vela_relay.Execution.Candidates.{Candidate, should_notify_executor_deferred}
use vela_relay.Execution.Results.{
  ItemResolution, Results, settle_slot, Lane, lane_after, for_each, record_deferred,
  record_candidates_deferred,
}
use vela_relay.Execution.LaneRules.{View, lane_rules, Kept, Holds, Ready, Complete}

pub length-settle_slot :
    (index : ℕ) (resolution : ItemResolution) (slots : Results)
    → length (settle_slot index resolution slots) ≡ length slots
unfolding settle_slot
length-settle_slot index resolution [] = refl
length-settle_slot zero resolution (slot ∷ slots) = refl
length-settle_slot (suc index) resolution (slot ∷ slots) =
    ap suc (length-settle_slot index resolution slots)

pub Holds-settle_slot :
    (k : Kept) (v : View) (index : ℕ) (resolution : ItemResolution) (slots : Results)
    → Holds k v slots
    → Holds k v (settle_slot index resolution slots)
Holds-settle_slot k v index resolution slots (a, b, c, d, e) =
    (a, b, c, d, length-settle_slot index resolution slots ∙ e)

module _ {A B : Type 0} (Post : View → Result Text B × Results → Type 0) where
  -- What follows a `?`: an error ends the program, with the slots as they are.
  pub Obeys-lane_after :
      (v : View) (f : A → Lane B) (r : Result Text A) (slots : Results)
      → ((reason : Text) → r ≡ err reason → Post v (err reason, slots))
      → ((a : A) → r ≡ ok a → Obeys lane_rules Post v (f a slots))
      → Obeys lane_rules Post v (lane_after f (r, slots))
  unfolding lane_after
  Obeys-lane_after v f (err reason) slots fails goes = fails reason refl
  Obeys-lane_after v f (ok a) slots fails goes = goes a refl

module _ {A B : Type 0} (Mid : View → Result Text A × Results → Type 0)
    (Post : View → Result Text B × Results → Type 0) where
  pub Obeys-lane :
      (v : View) (p : Program (Result Text A × Results)) (f : A → Lane B)
      → Obeys lane_rules Mid v p
      → ((v' : View) (reason : Text) (slots : Results)
          → Mid v' (err reason, slots)
          → Post v' (err reason, slots))
      → ((v' : View) (a : A) (slots : Results)
          → Mid v' (ok a, slots)
          → Obeys lane_rules Post v' (f a slots))
      → Obeys lane_rules Post v (and_then p (lane_after f))
  unfolding lane_after
  Obeys-lane v p f h fails goes =
      Obeys-and_then lane_rules Mid Post v p (lane_after f) h (λ v' x mid. continue v' x.0 x.1 mid)
    where
      continue :
          (v' : View) (r : Result Text A) (slots : Results)
          → Mid v' (r, slots)
          → Obeys lane_rules Post v' (lane_after f (r, slots))
      continue v' (err reason) slots mid = fails v' reason slots mid
      continue v' (ok a) slots mid = goes v' a slots mid

pub Obeys-lane_if :
    {A : Type 0} (Post : View → Result Text A × Results → Type 0) (v : View) (b : Bool)
    (p q : Lane A) (slots : Results)
    → Obeys lane_rules Post v (p slots)
    → Obeys lane_rules Post v (q slots)
    → Obeys lane_rules Post v ((if b then p else q) slots)
Obeys-lane_if Post v true p q slots hp hq = hp
Obeys-lane_if Post v false p q slots hp hq = hq

-- A step that leaves the lane as it is, before others that do, or before the last ones.
module _ {A B : Type 0} (k : Kept) where
  pub quiet_then :
      (v : View) (p : Program (Result Text A × Results)) (f : A → Lane B)
      → Obeys lane_rules (Ready k) v p
      → ((v' : View) (a : A) (slots : Results)
          → Holds k v' slots
          → Obeys lane_rules (Ready k) v' (f a slots))
      → Obeys lane_rules (Ready k) v (and_then p (lane_after f))
  quiet_then v p f h goes = Obeys-lane (Ready k) (Ready k) v p f h (λ v' r s held. held) goes

  pub quiet_read :
      (v : View) (f : A → Lane B) (r : Result Text A) (slots : Results)
      → Holds k v slots
      → ((a : A) → r ≡ ok a → Obeys lane_rules (Ready k) v (f a slots))
      → Obeys lane_rules (Ready k) v (lane_after f (r, slots))
  quiet_read v f r slots h goes = Obeys-lane_after (Ready k) v f r slots (λ reason e. h) goes

  pub last_then :
      (v : View) (p : Program (Result Text A × Results)) (f : A → Lane B)
      → Obeys lane_rules (Ready k) v p
      → ((v' : View) (a : A) (slots : Results)
          → Holds k v' slots
          → Obeys lane_rules (Complete k.size) v' (f a slots))
      → Obeys lane_rules (Complete k.size) v (and_then p (lane_after f))
  last_then v p f h goes =
      Obeys-lane (Ready k) (Complete k.size) v p f h (λ v' r s held. held.4) goes

  pub last_read :
      (v : View) (f : A → Lane B) (r : Result Text A) (slots : Results)
      → length slots ≡ k.size
      → ((a : A) → r ≡ ok a → Obeys lane_rules (Complete k.size) v (f a slots))
      → Obeys lane_rules (Complete k.size) v (lane_after f (r, slots))
  last_read v f r slots e goes =
      Obeys-lane_after (Complete k.size) v f r slots (λ reason e'. e) goes

module _ (k : Kept) where
  pub for_each-Ready :
      {A : Type 0} (body : A → Lane (Unit {0}))
      → ((x : A) (v : View) (slots : Results)
          → Holds k v slots
          → Obeys lane_rules (Ready k) v (body x slots))
      → (xs : List A) (v : View) (slots : Results) → Holds k v slots
      → Obeys lane_rules (Ready k) v (for_each body xs slots)
  unfolding for_each
  for_each-Ready body each [] v slots h = h
  for_each-Ready body each (x ∷ xs) v slots h =
      quiet_then k v (body x slots) _ (each x v slots h)
        (λ v' u slots' h'. for_each-Ready body each xs v' slots' h')

  pub record_deferred-Ready :
      (hash stage reason : Text) (v : View) (slots : Results)
      → Holds k v slots
      → Obeys lane_rules (Ready k) v (record_deferred hash stage reason slots)
  unfolding record_deferred
  record_deferred-Ready hash stage reason v slots h = (
    tt,
    λ o. quiet_read k _ _ _ slots h (λ u e.
        Obeys-lane_if (Ready k) _ (should_notify_executor_deferred stage) _ _ slots (tt, λ o. h) h),
  )

  pub record_candidates_deferred-Ready :
      (candidates : List Candidate) (stage reason : Text) (v : View) (slots : Results)
      → Holds k v slots
      → Obeys lane_rules (Ready k) v (record_candidates_deferred candidates stage reason slots)
  unfolding record_candidates_deferred
  record_candidates_deferred-Ready candidates stage reason v slots h =
      for_each-Ready (λ c. record_deferred c.hash_string stage reason)
        (λ c v s h. record_deferred-Ready c.hash_string stage reason v s h) candidates v slots h
