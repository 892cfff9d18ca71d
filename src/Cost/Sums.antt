-- ===== src/Cost/Sums.antt =====
-- vela-relay-core/src/cost.rs: the exact values behind the checked sums and quotients.
use native.Mathlib.Nat.{div-add-mod', mod-lt}
use vela_relay.Prelude.{
  ℕ, ◌+◌, ◌*◌, ◌/◌, ◌%◌, ◌≤◌, ◌<◌, ◌≡◌, ◌⊎◌, inl, inr, ap, some, List, [], ◌∷◌, sum, arith,
  >>=-eq-some,
}
use vela_relay.Prelude.Words.{u256_mod, checked_add, checked-eq-some}
use vela_relay.Cost.{checked_sum, add_all, ceil_div}

add_all-eq-some : (acc : ℕ) (xs : List ℕ) {s : ℕ} → add_all acc xs ≡ some s → s ≡ acc + sum xs
unfolding add_all
add_all-eq-some acc [] h = ground arith
add_all-eq-some acc (x ∷ xs) h =
    let (m, e, k) = >>=-eq-some (checked_add u256_mod acc x) (λ s. add_all s xs) h in
    let (v, lt) = checked-eq-some u256_mod (acc + x) e in omega (arith, add_all-eq-some m xs k)

-- A checked sum that does not overflow is the sum.
pub checked_sum-eq-some : (xs : List ℕ) {s : ℕ} → checked_sum xs ≡ some s → s ≡ sum xs
unfolding checked_sum
checked_sum-eq-some xs h = omega (arith, add_all-eq-some 0 xs h)

ceil_div_cases :
    (value divisor : ℕ) {q : ℕ}
    → ceil_div value divisor ≡ some q
    → (0 < divisor)
      × (((value % divisor ≡ 0) × (q ≡ value / divisor))
          ⊎ ((0 < value % divisor) × (q ≡ value / divisor + 1)))
unfolding ceil_div
ceil_div_cases value divisor h = ground arith

-- A checked quotient rounded up is the least number whose product with the divisor covers the value.
pub ceil_div-eq-some :
    (value divisor : ℕ) {q : ℕ}
    → ceil_div value divisor ≡ some q
    → (0 < divisor) × (value ≤ q * divisor) × (q * divisor < value + divisor)
ceil_div-eq-some value divisor {q} h =
    let (pos, cases) = ceil_div_cases value divisor h in
    let parts = div-add-mod' value divisor in
    let small = mod-lt value pos in
    elim cases [
      | inl (exact, e) ↦ let m = ap (λ (t : ℕ). t * divisor) e in (pos, omega arith, omega arith)
      | inr (over, e) ↦ let m = ap (λ (t : ℕ). t * divisor) e in (pos, omega arith, omega arith)
    ]
