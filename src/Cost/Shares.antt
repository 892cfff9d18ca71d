-- ===== src/Cost/Shares.antt =====
-- vela-relay-core/src/cost.rs: the split of the settlement gas (the end of `settlement_gas_allocations`).
use native.Mathlib.Nat.{div-add-mod', mod-lt, le_of_mul-le-mul_right, lt_of_mul-lt-mul_right}
use mathlib.Core.Path.{fun_ext}
use vela_relay.Prelude.{length-map, some-eq-some}
use vela_relay.Prelude.{
  ℕ, zero, suc, ◌+◌, ◌*◌, ◌/◌, ◌≤◌, ◌<◌, ◌≡◌, inl, inr, some, List, [], ◌∷◌, sum, arith,
  >>=-eq-some, ◌∙◌, ◌==◌, if◌then◌else◌, length, ap, map, sym, true, false, Bool-cases,
}
use vela_relay.Prelude.Words.{checked_sub, checked_sub-eq-some}
use vela_relay.Cost.{checked_sum, share_of, shares_of, hand_out, split_total}
use vela_relay.Cost.Sums.{checked_sum-eq-some}

-- What an operation's gas is worth of the total, rounded down.
abbrev pub fair_share : ℕ → ℕ → ℕ → ℕ → ℕ
fair_share total weights count gas = if weights == 0 then total / count else total * gas / weights

share_of-eq-some :
    (total weights count gas : ℕ) {s : ℕ}
    → share_of total weights count gas ≡ some s
    → s ≡ fair_share total weights count gas
unfolding share_of
share_of-eq-some total weights count gas h = ground arith

shares_of-eq-some :
    (total weights count : ℕ) (gases : List ℕ) {shares : List ℕ}
    → shares_of total weights count gases ≡ some shares
    → shares ≡ map (fair_share total weights count) gases
unfolding shares_of
shares_of-eq-some total weights count [] h = ground arith
shares_of-eq-some total weights count (gas ∷ rest) h =
    let (s, es, k) = >>=-eq-some (share_of total weights count gas) _ h in
    let (ss, ess, k') = >>=-eq-some (shares_of total weights count rest) _ k in
    cc (
      share_of-eq-some total weights count gas es,
      shares_of-eq-some total weights count rest ess,
      k',
    )

sum-hand_out :
    (r : ℕ) (shares : List ℕ) → r ≤ length shares → sum (hand_out r shares) ≡ sum shares + r
unfolding hand_out
sum-hand_out zero [] h = omega arith
sum-hand_out (suc r) [] h = elim h [ ]
sum-hand_out zero (s ∷ ss) h = omega (arith, sum-hand_out zero ss (omega arith))
sum-hand_out (suc r) (s ∷ ss) h = omega (arith, sum-hand_out r ss (omega arith))

-- The floors of the parts add up to no more than the whole, and to less than one unit for each part
-- short of it.
proportional-sum :
    (total weights : ℕ) (gases : List ℕ)
    → 0 < weights
    → (sum (map (λ gas. total * gas / weights) gases) * weights ≤ total * sum gases)
      × (total * sum gases + length gases
          ≤ sum (map (λ gas. total * gas / weights) gases) * weights + length gases * weights)
proportional-sum total weights [] pos = (omega arith, omega arith)
proportional-sum total weights (gas ∷ rest) pos =
    let (low, high) = proportional-sum total weights rest pos in
    let parts = div-add-mod' (total * gas) weights in
    let small = mod-lt (total * gas) pos in (omega arith, omega arith)

even-sum :
    (total count : ℕ) (gases : List ℕ)
    → sum (map (λ gas. total / count) gases) ≡ length gases * (total / count)
even-sum total count [] = omega arith
even-sum total count (gas ∷ rest) = omega (arith, even-sum total count rest)

-- What is left of the total is less than one unit for each part.
fair_share_even :
    (total weights count : ℕ)
    → (weights == 0) ≡ true
    → fair_share total weights count ≡ (λ gas. total / count)
fair_share_even total weights count h = fun_ext (λ gas. rw h)

fair_share_proportional :
    (total weights count : ℕ)
    → (weights == 0) ≡ false
    → fair_share total weights count ≡ (λ gas. total * gas / weights)
fair_share_proportional total weights count h = fun_ext (λ gas. rw h)

remainder_lt :
    (total : ℕ) (gases : List ℕ)
    → 0 < length gases
    → let floors = map (fair_share total (sum gases) (length gases)) gases in
      (sum floors ≤ total) × (total < sum floors + length gases)
remainder_lt total gases pos = elim (Bool-cases (sum gases == 0)) [
  | inl none_known ↦
      let parts = div-add-mod' total (length gases) in
      let small = mod-lt total pos in
      rw (fair_share_even total (sum gases) (length gases) none_known) (
        omega (arith, even-sum total (length gases) gases),
        omega (arith, even-sum total (length gases) gases),
      )
  | inr known ↦
      let some_gas : 0 < sum gases = ground arith in
      let (low, high) = proportional-sum total (sum gases) gases some_gas in
      rw (fair_share_proportional total (sum gases) (length gases) known)
        (le_of_mul-le-mul_right low some_gas, lt_of_mul-lt-mul_right (sum gases) (omega arith))
]

-- Each share is the fair one or one unit more.
abbrev pub AreFair : ℕ → ℕ → ℕ → List ℕ → List ℕ → Type 0
AreFair total weights count [] [] = Unit {0}
AreFair total weights count [] (s ∷ ss) = ⊥
AreFair total weights count (g ∷ gs) [] = ⊥
AreFair total weights count (g ∷ gs) (s ∷ ss) =
    (fair_share total weights count g ≤ s)
    × (s ≤ fair_share total weights count g + 1)
    × AreFair total weights count gs ss

hand_out-AreFair :
    (total weights count r : ℕ) (gases : List ℕ)
    → AreFair total weights count gases (hand_out r (map (fair_share total weights count) gases))
unfolding hand_out
hand_out-AreFair total weights count r [] = tt
hand_out-AreFair total weights count zero (g ∷ gs) =
    (omega arith, omega arith, hand_out-AreFair total weights count zero gs)
hand_out-AreFair total weights count (suc r) (g ∷ gs) =
    (omega arith, omega arith, hand_out-AreFair total weights count r gs)

-- The shares of the operations add up to the total exactly, and each is in proportion to the gas
-- that the operation used (even, where no operation used any), rounded down, or one unit more.
pub split_total_lem :
    (total : ℕ) (gases : List ℕ) {shares : List ℕ}
    → 0 < length gases
    → split_total total gases ≡ some shares
    → (sum shares ≡ total) × AreFair total (sum gases) (length gases) gases shares
unfolding split_total
split_total_lem total gases {shares} pos h =
    let (weights, ew, k) = >>=-eq-some (checked_sum gases) _ h in
    let (floors, ef, k') = >>=-eq-some (shares_of total weights (length gases) gases) _ k in
    let (assigned, ea, k'') = >>=-eq-some (checked_sum floors) _ k' in
    let (remainder, er, k3) = >>=-eq-some (checked_sub total assigned) _ k'' in
    let w = checked_sum-eq-some gases ew in
    let f : floors ≡ map (fair_share total (sum gases) (length gases)) gases =
      shares_of-eq-some total weights (length gases) gases ef
      ∙ ap (λ x. map (fair_share total x (length gases)) gases) w in
    let a : assigned ≡ sum (map (fair_share total (sum gases) (length gases)) gases) =
      checked_sum-eq-some floors ea ∙ ap sum f in
    let (room, diff) = checked_sub-eq-some total assigned er in
    let (low, high) = remainder_lt total gases pos in
    let e : shares ≡ hand_out remainder (map (fair_share total (sum gases) (length gases)) gases) =
      sym (some-eq-some k3) ∙ ap (hand_out remainder) f in
    rw e (
      sum-hand_out remainder _ (rw length-map (omega arith)) ∙ omega arith,
      hand_out-AreFair total (sum gases) (length gases) remainder gases,
    )
