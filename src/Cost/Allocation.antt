-- ===== src/Cost/Allocation.antt =====
-- vela-relay-core/src/cost.rs: the outer gas limit and its shares (`allocate_bundle_gas`).
use native.Mathlib.Nat.{div-add-mod', mod-lt}
use mathlib.Core.Path.{subst}
use vela_relay.Prelude.{
  ℕ, suc, ◌+◌, ◌-◌, ◌*◌, ◌/◌, ◌%◌, ◌≤◌, ◌<◌, ◌≡◌, refl, some, none, List, [], ◌∷◌, sum, arith,
  >>=-eq-some, Option, ltb, if◌then◌else◌, length, max, min, ◌>>=◌,
}
use vela_relay.Prelude.Words.{
  u256_mod, checked_add, checked_mul, checked_sub, checked-eq-some, checked_sub-eq-some,
}
use vela_relay.Cost.{
  checked_sum, allocate_from, allocate_bundle_gas, buffered_total, share_out, ceil_div,
}
use vela_relay.Cost.Sums.{checked_sum-eq-some, ceil_div-eq-some}

-- How many of the operations from `index` on get a unit of the remainder.
abbrev extras : ℕ → ℕ → ℕ
extras remainder index = remainder - index

-- Each share is the operation's own gas, the even part of the shared gas, and at most one unit more.
abbrev pub AreShares : ℕ → List ℕ → List ℕ → Type 0
AreShares shared [] [] = Unit {0}
AreShares shared [] (s ∷ ss) = ⊥
AreShares shared (g ∷ gs) [] = ⊥
AreShares shared (g ∷ gs) (s ∷ ss) =
    (g + shared ≤ s) × (s ≤ g + shared + 1) × AreShares shared gs ss

allocate_none :
    (shared remainder index : ℕ) {shares : List ℕ}
    → some [] ≡ some shares
    → (sum shares ≡ 0 + 0 * shared + min (remainder - index) 0) × AreShares shared [] shares
allocate_none shared remainder index {shares = []} h = (omega arith, tt)
allocate_none shared remainder index {shares = s ∷ ss} h = cc

-- A round of the loop that does not overflow.
allocate_round :
    (gas shared extra : ℕ) (o : Option (List ℕ)) {shares : List ℕ}
    → (checked_add u256_mod gas shared >>= λ w.
        checked_add u256_mod w extra >>= λ s. o >>= λ ss. some (s ∷ ss))
      ≡ some shares
    → (ss : List ℕ) × (o ≡ some ss) × (shares ≡ (gas + shared + extra) ∷ ss)
allocate_round gas shared extra none h = absurd (ground arith)
allocate_round gas shared extra (some ss) h = (ss, refl, ground arith)

-- A unit of the remainder goes to each of the first operations.
extra_step :
    (index remainder len : ℕ)
    → (if ltb index remainder then 1 else 0) + min (remainder - (index + 1)) len
      ≡ min (remainder - index) (suc len)
extra_step index remainder len = ground arith

extra_le : (index remainder : ℕ) → (if ltb index remainder then 1 else 0) ≤ 1
extra_le index remainder = ground arith

allocate_from_lem :
    (shared remainder index : ℕ) (gases : List ℕ) {shares : List ℕ}
    → allocate_from shared remainder index gases ≡ some shares
    → (sum shares ≡ sum gases + length gases * shared + min (remainder - index) (length gases))
      × AreShares shared gases shares
unfolding allocate_from
allocate_from_lem shared remainder index [] h = allocate_none shared remainder index h
allocate_from_lem shared remainder index (gas ∷ rest) h =
    let extra : ℕ = if ltb index remainder then 1 else 0 in
    let (ss, rec, e) =
      allocate_round gas shared extra (allocate_from shared remainder (index + 1) rest) h in
    let (total, are) = allocate_from_lem shared remainder (index + 1) rest rec in
    let step = extra_step index remainder (length rest) in
    rw e (omega (arith, step, total), (omega arith, omega (arith, extra_le index remainder), are))

-- The buffered total of `metered` gas covers its proportional buffer, rounded up, and the fixed one.
abbrev pub IsBuffered : ℕ → ℕ → ℕ → ℕ → Type 0
IsBuffered metered bps fixed total =
    (buffer : ℕ) × (total ≡ metered + buffer + fixed)
    × (metered * bps ≤ buffer * 10_000)
    × (buffer * 10_000 < metered * bps + 10_000)

buffered_total-IsBuffered :
    (metered bps fixed : ℕ) {total : ℕ}
    → buffered_total metered bps fixed ≡ some total
    → IsBuffered metered bps fixed total
unfolding buffered_total
buffered_total-IsBuffered metered bps fixed h =
    let (p, ep, k) = >>=-eq-some (checked_mul u256_mod metered bps) _ h in
    let (b, eb, k') = >>=-eq-some (ceil_div p 10_000) _ k in
    let (w, ew, k'') = >>=-eq-some (checked_add u256_mod metered b) _ k' in
    let (vp, lp) = checked-eq-some u256_mod (metered * bps) ep in
    let (vw, lw) = checked-eq-some u256_mod (metered + b) ew in
    let (vt, lt) = checked-eq-some u256_mod (w + fixed) k'' in
    let (pos, low, high) = ceil_div-eq-some p 10_000 eb in
    (b, omega arith, omega arith, omega arith)

share_out_lem :
    (simulated estimated bps fixed direct : ℕ) (gases : List ℕ) {shares : List ℕ}
    → 0 < length gases
    → direct ≡ sum gases
    → share_out simulated estimated bps fixed direct gases ≡ some shares
    → (total : ℕ) × IsBuffered (max (max simulated estimated) direct) bps fixed total
      × (sum shares ≡ total)
      × AreShares ((total - direct) / length gases) gases shares
unfolding share_out
share_out_lem simulated estimated bps fixed direct gases {shares} pos e h =
    let (total, et, k) =
      >>=-eq-some (buffered_total (max (max simulated estimated) direct) bps fixed) _ h in
    let (shared, es, k') = >>=-eq-some (checked_sub total direct) _ k in
    let (room, diff) = checked_sub-eq-some total direct es in
    let (sums, are) =
      allocate_from_lem (shared / length gases) (shared % length gases) 0 gases k' in
    let parts = div-add-mod' shared (length gases) in
    let small = mod-lt shared pos in
    (
      total,
      buffered_total-IsBuffered _ bps fixed et,
      omega arith,
      subst (λ d. AreShares (d / length gases) gases shares) diff are,
    )

-- The outer gas of a bundle is its metered gas, which is the largest of the simulated, the
-- estimated and the operations' own gas, with the proportional buffer rounded up and the fixed
-- buffer. The shares of the operations add up to it exactly, and each is the operation's own gas
-- and an even part of the rest, to within one unit.
pub allocate_bundle_gas_lem :
    (simulated estimated bps fixed : ℕ) (gas : ℕ) (rest : List ℕ) {shares : List ℕ}
    → allocate_bundle_gas simulated estimated (gas ∷ rest) bps fixed ≡ some shares
    → (total : ℕ) × IsBuffered (max (max simulated estimated) (gas + sum rest)) bps fixed total
      × (sum shares ≡ total)
      × AreShares ((total - (gas + sum rest)) / suc (length rest)) (gas ∷ rest) shares
unfolding allocate_bundle_gas
allocate_bundle_gas_lem simulated estimated bps fixed gas rest {shares} h =
    let (direct, ed, k) = >>=-eq-some (checked_sum (gas ∷ rest)) _ h in
    let e = checked_sum-eq-some (gas ∷ rest) ed in
    subst
      (λ d.
        (total : ℕ) × IsBuffered (max (max simulated estimated) d) bps fixed total
        × (sum shares ≡ total)
        × AreShares ((total - d) / suc (length rest)) (gas ∷ rest) shares)
      e (share_out_lem simulated estimated bps fixed direct (gas ∷ rest) (omega arith) e k)
