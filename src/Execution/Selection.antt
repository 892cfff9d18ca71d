-- ===== src/Execution/Selection.antt =====
-- vela-relay-core/src/execution.rs: the candidates that a batch's bundle takes.
use vela_relay.Prelude.{
  ℕ, zero, suc, ◌≤◌, ◌≡◌, ◌≢◌, ap, sym, ◌∙◌, refl, Bool, true, false, List, [], ◌∷◌, length, any,
  ◌==◌, arith, if◌then◌else◌,
}
use vela_relay.Execution.Candidates.{Candidate}
use vela_relay.Execution.Batch.{first_of_each, take_candidates, bundled}

-- No candidate has the key `k`.
unfoldable pub Lacks : (Candidate → ℕ) → ℕ → List Candidate → Type 0
Lacks key k [] = Unit
Lacks key k (c ∷ cs) = (key c ≢ k) × Lacks key k cs

-- No two candidates have the same key.
unfoldable pub Distinct : (Candidate → ℕ) → List Candidate → Type 0
unfolding Lacks
Distinct key [] = Unit
Distinct key (c ∷ cs) = Lacks key (key c) cs × Distinct key cs

abbrev has : ℕ → List ℕ → Bool
has k kept = any (λ j. k == j) kept

has-first : (k : ℕ) (kept : List ℕ) → has k (k ∷ kept) ≡ true
has-first k kept = ground arith

has-later : (k j : ℕ) (kept : List ℕ) → has k kept ≡ true → has k (j ∷ kept) ≡ true
has-later k j kept h = ground arith

keys_differ : (a b : ℕ) (kept : List ℕ) → has a kept ≡ false → has b kept ≡ true → a ≢ b
keys_differ a b kept ha hb e = true_false (sym hb ∙ ap (λ x. has x kept) (sym e) ∙ ha)
  where
    true_false : true ≡ false → ⊥
    true_false e = ground arith

pub either_way :
    (P : List Candidate → Type 0) (b : Bool) (x y : List Candidate)
    → P x
    → (b ≡ false → P y)
    → P (if b then x else y)
either_way P true x y hx hy = hx
either_way P false x y hx hy = hy refl

module _ (key other : Candidate → ℕ) where
  Lacks-first_of_each :
      (k : ℕ) (kept : List ℕ) (cs : List Candidate)
      → Lacks other k cs
      → Lacks other k (first_of_each key kept cs)
  unfolding Lacks first_of_each
  Lacks-first_of_each k kept [] h = h
  Lacks-first_of_each k kept (c ∷ cs) (differs, h) =
      either_way (Lacks other k) (has (key c) kept) _ _ (Lacks-first_of_each k kept cs h)
        (λ e. (differs, Lacks-first_of_each k (key c ∷ kept) cs h))

  Distinct-first_of_each :
      (kept : List ℕ) (cs : List Candidate)
      → Distinct other cs
      → Distinct other (first_of_each key kept cs)
  unfolding Distinct first_of_each
  Distinct-first_of_each kept [] h = h
  Distinct-first_of_each kept (c ∷ cs) (lacks, h) =
      either_way (Distinct other) (has (key c) kept) _ _ (Distinct-first_of_each kept cs h) (λ e. (
        Lacks-first_of_each (other c) (key c ∷ kept) cs lacks,
        Distinct-first_of_each (key c ∷ kept) cs h,
      ))

module _ (key : Candidate → ℕ) where
  first_of_each-Lacks :
      (k : ℕ) (kept : List ℕ) (cs : List Candidate)
      → has k kept ≡ true
      → Lacks key k (first_of_each key kept cs)
  unfolding Lacks first_of_each
  first_of_each-Lacks k kept [] h = tt
  first_of_each-Lacks k kept (c ∷ cs) h =
      either_way (Lacks key k) (has (key c) kept) _ _ (first_of_each-Lacks k kept cs h) (λ e. (
        keys_differ (key c) k kept e h,
        first_of_each-Lacks k (key c ∷ kept) cs (has-later k (key c) kept h),
      ))

  first_of_each-Distinct :
      (kept : List ℕ) (cs : List Candidate) → Distinct key (first_of_each key kept cs)
  unfolding Distinct first_of_each
  first_of_each-Distinct kept [] = tt
  first_of_each-Distinct kept (c ∷ cs) =
      either_way (Distinct key) (has (key c) kept) _ _ (first_of_each-Distinct kept cs) (λ e. (
        first_of_each-Lacks (key c) (key c ∷ kept) cs (has-first (key c) kept),
        first_of_each-Distinct (key c ∷ kept) cs,
      ))

  Lacks-take_candidates :
      (k n : ℕ) (cs : List Candidate) → Lacks key k cs → Lacks key k (take_candidates n cs)
  unfolding Lacks take_candidates
  Lacks-take_candidates k zero cs h = tt
  Lacks-take_candidates k (suc n) [] h = tt
  Lacks-take_candidates k (suc n) (c ∷ cs) (differs, h) = (differs, Lacks-take_candidates k n cs h)

  Distinct-take_candidates :
      (n : ℕ) (cs : List Candidate) → Distinct key cs → Distinct key (take_candidates n cs)
  unfolding Distinct take_candidates
  Distinct-take_candidates zero cs h = tt
  Distinct-take_candidates (suc n) [] h = tt
  Distinct-take_candidates (suc n) (c ∷ cs) (lacks, h) =
      (Lacks-take_candidates (key c) n cs lacks, Distinct-take_candidates n cs h)

length-take_candidates : (n : ℕ) (cs : List Candidate) → length (take_candidates n cs) ≤ n
unfolding take_candidates
length-take_candidates zero cs = omega arith
length-take_candidates (suc n) [] = omega arith
length-take_candidates (suc n) (c ∷ cs) = let rest = length-take_candidates n cs in omega arith

-- Where the policy allows an operation: a bundle starts with the batch's first candidate, and has
-- no two operations of one sender, no two of one hash, and no more than the policy allows.
pub bundled-Distinct :
    (n : ℕ) (c : Candidate) (cs : List Candidate)
    → (take_candidates 1 (bundled (suc n) (c ∷ cs)) ≡ c ∷ [])
      × Distinct (λ d. d.packed.sender) (bundled (suc n) (c ∷ cs))
      × Distinct (λ d. d.hash) (bundled (suc n) (c ∷ cs))
      × (length (bundled (suc n) (c ∷ cs)) ≤ suc n)
unfolding bundled first_of_each take_candidates
bundled-Distinct n c cs =
    let by_hash = first_of_each (λ d. d.hash) [] (c ∷ cs) in
    let by_sender = first_of_each (λ d. d.packed.sender) [] by_hash in
    (
      refl,
      Distinct-take_candidates (λ d. d.packed.sender) (suc n) by_sender
          (first_of_each-Distinct (λ d. d.packed.sender) [] by_hash),
      Distinct-take_candidates (λ d. d.hash) (suc n) by_sender
          (Distinct-first_of_each (λ d. d.packed.sender) (λ d. d.hash) [] by_hash
            (first_of_each-Distinct (λ d. d.hash) [] (c ∷ cs))),
      length-take_candidates (suc n) by_sender,
    )
