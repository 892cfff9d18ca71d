-- ===== src/RpcWalk/History.antt =====
-- vela-relay-core/src/rpc_walk.rs: what `lacks` answers after a chain's walks, one after the other.
use vela_relay.Prelude.{
  ℕ, ◌+◌, ◌-◌, ◌≤◌, ◌<◌, ◌≡◌, ◌≢◌, ◌↔◌, ◌⊎◌, inl, inr, refl, sym, ◌∙◌, Bool, true, false,
  Bool-cases, ◌&&◌, none, List, [], ◌∷◌, ltb, if◌then◌else◌, min, arith,
}
use vela_relay.Prelude.Words.{u64_mod}
use vela_relay.Prelude.Text.{Text, text_eq_iff}
use vela_relay.RpcWalk.{
  Deadlines, same_key, MethodAnswer, served, unsupported, refused, is_served, any_answer,
  all_answers, is_unsupported, walk_proves_method_missing, note_walk, lacks, is_before,
  missing_method_memory_ms,
}
use vela_relay.RpcWalk.Memory.{lacks-note_walk}

-- A finished walk: its chain, the method that it asked for, the answers, and when it ended.
pub record Walk : Type 0 where
  pub chain_id : ℕ
  pub method : Text
  pub answers : List MethodAnswer
  pub now_ms : ℕ

-- The memory after the walks, the last of which comes first.
unfoldable pub remembered : List Walk → Deadlines
unfolding note_walk
remembered [] chain_id method = none
remembered (w ∷ ws) chain_id method =
    note_walk w.chain_id w.method w.answers w.now_ms (remembered ws) chain_id method

abbrev pub AllUnsupported : List MethodAnswer → Type 0
AllUnsupported [] = Unit
AllUnsupported (a ∷ rest) = (a ≡ unsupported) × AllUnsupported rest

abbrev pub IsServed : List MethodAnswer → Type 0
IsServed [] = ⊥
IsServed (a ∷ rest) = (a ≡ served) ⊎ IsServed rest

abbrev pub IsFor : Walk → ℕ → Text → Type 0
IsFor w c m = (w.chain_id ≡ c) × (w.method ≡ m)

-- Some walk for the method on the chain got answers that all said that there is no such method,
-- and one at least, less than ten minutes before `t`, and no walk since found an endpoint that
-- serves it.
unfoldable pub IsMissing : ℕ → Text → ℕ → List Walk → Type 0
IsMissing c m t [] = ⊥
IsMissing c m t (w ∷ ws) =
    (IsFor w c m × AllUnsupported w.answers × (w.answers ≢ []) × (t < w.now_ms + 600_000))
    ⊎ (¬ (IsFor w c m × IsServed w.answers) × IsMissing c m t ws)

-- Each walk ended no earlier than the one before it, and the last no later than `t`.
unfoldable pub IsOrdered : ℕ → List Walk → Type 0
IsOrdered t [] = Unit
IsOrdered t (w ∷ ws) = (w.now_ms ≤ t) × IsOrdered w.now_ms ws

IsOrdered-later : (s t : ℕ) (ws : List Walk) → s ≤ t → IsOrdered s ws → IsOrdered t ws
unfolding IsOrdered
IsOrdered-later s t [] le h = tt
IsOrdered-later s t (w ∷ ws) le (before, h) = (omega arith, h)

AllUnsupported-iff :
    (answers : List MethodAnswer)
    → (all_answers is_unsupported answers ≡ true) ↔ AllUnsupported answers
AllUnsupported-iff [] = (λ e. tt, λ h. refl)
AllUnsupported-iff (unsupported ∷ rest) =
    let (to, from) = AllUnsupported-iff rest in (λ e. (refl, to e), λ h. from h.1)
AllUnsupported-iff (served ∷ rest) = (λ e. ground arith, λ h. ground arith)
AllUnsupported-iff (refused ∷ rest) = (λ e. ground arith, λ h. ground arith)

IsServed-iff :
    (answers : List MethodAnswer) → (any_answer is_served answers ≡ true) ↔ IsServed answers
IsServed-iff [] = (λ e. ground arith, λ h. ground arith)
IsServed-iff (served ∷ rest) = (λ e. inl refl, λ h. refl)
IsServed-iff (unsupported ∷ rest) =
    let (to, from) = IsServed-iff rest in (λ e. inr (to e), λ h. ground (arith, from))
IsServed-iff (refused ∷ rest) =
    let (to, from) = IsServed-iff rest in (λ e. inr (to e), λ h. ground (arith, from))

-- The rule of a walk's proof: one answer at least, and each that there is no such method.
proves_iff :
    (answers : List MethodAnswer)
    → (walk_proves_method_missing answers ≡ true) ↔ (AllUnsupported answers × (answers ≢ []))
unfolding walk_proves_method_missing
proves_iff [] = (λ e. ground arith, λ h. ground arith)
proves_iff (a ∷ rest) =
    let (to, from) = AllUnsupported-iff (a ∷ rest) in
    (λ e. (to (ground arith), ground arith), λ h. ground (arith, from h.0))

IsFor-iff : (w : Walk) (c : ℕ) (m : Text) → (same_key w.chain_id w.method c m ≡ true) ↔ IsFor w c m
IsFor-iff w c m =
    let (to, from) = text_eq_iff w.method m in
    (λ e. (ground arith, to (ground arith)), λ h. ground (arith, from h.1))

-- A proof holds for ten minutes from its walk, which is no later than the last one.
IsMissing-recent :
    (c : ℕ) (m : Text) (t now_ms : ℕ) (ws : List Walk)
    → IsOrdered now_ms ws
    → IsMissing c m t ws
    → t < now_ms + 600_000
unfolding IsOrdered IsMissing
IsMissing-recent c m t now_ms [] h x = elim x [ ]
IsMissing-recent c m t now_ms (w ∷ ws) (le, h) (inl (f, a, n, lt)) = omega arith
IsMissing-recent c m t now_ms (w ∷ ws) (le, h) (inr (none_served, before)) =
    let recent = IsMissing-recent c m t w.now_ms ws h before in omega arith

-- What a walk for the method on the chain leaves, by what its answers are.
walk_left : (key proves serves new old : Bool) → Bool
walk_left key proves serves new old =
    if key then (if proves then new else (if serves then false else old)) else old

abbrev Left : (key proves serves new old : Bool) → Type 0
Left key proves serves new old =
    ((key ≡ true) × (proves ≡ true) × (new ≡ true)) ⊎ ((key && serves ≡ false) × (old ≡ true))

walk_left_to :
    (key proves serves new old : Bool)
    → walk_left key proves serves new old ≡ true
    → Left key proves serves new old
unfolding walk_left
walk_left_to false proves serves new old e = inr (refl, e)
walk_left_to true true serves new old e = inl (refl, refl, e)
walk_left_to true false true new old e = ground arith
walk_left_to true false false new old e = inr (refl, e)

walk_left_from :
    (key proves serves new old : Bool)
    → (old ≡ true → new ≡ true)
    → Left key proves serves new old
    → walk_left key proves serves new old ≡ true
unfolding walk_left
walk_left_from false proves serves new old later (inl (k, p, n)) = ground arith
walk_left_from false proves serves new old later (inr (k, o)) = o
walk_left_from true true serves new old later (inl (k, p, n)) = n
walk_left_from true true serves new old later (inr (k, o)) = later o
walk_left_from true false serves new old later (inl (k, p, n)) = ground arith
walk_left_from true false true new old later (inr (k, o)) = ground arith
walk_left_from true false false new old later (inr (k, o)) = o

module _ (w : Walk) (c : ℕ) (m : Text) where
  no_hit_to :
      (same_key w.chain_id w.method c m && any_answer is_served w.answers ≡ false)
      → ¬ (IsFor w c m × IsServed w.answers)
  no_hit_to e (f, s) =
      let k = (IsFor-iff w c m).1 f in let v = (IsServed-iff w.answers).1 s in ground arith

  no_hit_from :
      ¬ (IsFor w c m × IsServed w.answers)
      → (same_key w.chain_id w.method c m && any_answer is_served w.answers ≡ false)
  no_hit_from free =
      elim (Bool-cases (same_key w.chain_id w.method c m && any_answer is_served w.answers)) [
        | inl both ↦
            absurd
              (free ((IsFor-iff w c m).0 (ground arith), (IsServed-iff w.answers).0 (ground arith)))
        | inr e ↦ e
      ]

new_deadline :
    (now_ms t : ℕ)
    → now_ms ≤ t
    → t + 600_000 < u64_mod
    → (ltb t (min (now_ms + missing_method_memory_ms) (u64_mod - 1)) ≡ true)
      ↔ (t < now_ms + 600_000)
new_deadline now_ms t le fits = (λ e. ground arith, λ h. ground arith)

nothing-lacks : (c t : ℕ) (m : Text) → ¬ (lacks (remembered []) c m t ≡ true)
unfolding remembered lacks is_before
nothing-lacks c t m e = ground arith

lacks-step :
    (w : Walk) (ws : List Walk) (c : ℕ) (m : Text) (t : ℕ)
    → w.now_ms ≤ t
    → lacks (remembered (w ∷ ws)) c m t ≡ (
        walk_left
          (same_key w.chain_id w.method c m)
          (walk_proves_method_missing w.answers)
          (any_answer is_served w.answers)
          (ltb t (min (w.now_ms + missing_method_memory_ms) (u64_mod - 1)))
          (lacks (remembered ws) c m t))
unfolding remembered walk_left lacks
lacks-step w ws c m t le =
    lacks-note_walk w.chain_id w.now_ms c t w.method m w.answers (remembered ws) le

-- For walks in the order of time, and a time from the last of them on, ten minutes short of 2 ^
-- 64: the memory that they leave holds a method missing on a chain exactly when a walk for them,
-- less than ten minutes before, got one answer at least and only answers that there is no such
-- method, and no walk for them since found an endpoint that serves it.
pub lacks-remembered :
    (c t : ℕ) (m : Text) (ws : List Walk)
    → IsOrdered t ws
    → t + 600_000 < u64_mod
    → (lacks (remembered ws) c m t ≡ true) ↔ IsMissing c m t ws
unfolding IsOrdered IsMissing remembered
lacks-remembered c t m [] order fits = (λ e. nothing-lacks c t m e, λ x. elim x [ ])
lacks-remembered c t m (w ∷ ws) (le, order) fits =
    let key = same_key w.chain_id w.method c m in
    let proves = walk_proves_method_missing w.answers in
    let serves = any_answer is_served w.answers in
    let new = ltb t (min (w.now_ms + missing_method_memory_ms) (u64_mod - 1)) in
    let old = lacks (remembered ws) c m t in
    let (to, from) = lacks-remembered c t m ws (IsOrdered-later w.now_ms t ws le order) fits in
    let (lt_to, lt_from) = new_deadline w.now_ms t le fits in
    let step = lacks-step w ws c m t le in
    (
      λ e. elim (walk_left_to key proves serves new old (sym step ∙ e)) [
        | inl (k, p, n) ↦
            let (a, ne) = (proves_iff w.answers).0 p in inl ((IsFor-iff w c m).0 k, a, ne, lt_to n)
        | inr (k, o) ↦ inr (no_hit_to w c m k, to o)
      ],
      λ h.
          step
          ∙ walk_left_from key proves serves new old
              (λ o. lt_from (IsMissing-recent c m t w.now_ms ws order (to o)))
              (elim h [
                | inl (f, a, ne, lt) ↦
                    inl ((IsFor-iff w c m).1 f, (proves_iff w.answers).1 (a, ne), lt_from lt)
                | inr (free, before) ↦ inr (no_hit_from w c m free, from before)
              ]),
    )
