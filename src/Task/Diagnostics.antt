-- ===== src/Task/Diagnostics.antt =====
-- vela-relay-core/src/task.rs: a stored diagnostic (`truncate_diagnostic`).
use vela_relay.Prelude.{
  ℕ, ◌+◌, ◌-◌, ◌≤◌, ◌≡◌, refl, ap, ◌⊎◌, inl, inr, Bool-cases, [], ◌∷◌, ◌++◌, leb, arith, leb→le,
}
use vela_relay.Prelude.Text.{Text, codes, len_utf8, byte_len}
use vela_relay.Task.{chars_within, truncate_diagnostic}

byte_len-append : (s t : Text) → byte_len (s ++ t) ≡ byte_len s + byte_len t
byte_len-append [] t = omega arith
byte_len-append (c ∷ s) t = omega (arith, byte_len-append s t)

chars_within-le :
    (limit index : ℕ) (s : Text)
    → index ≤ limit - 3
    → index + byte_len (chars_within limit index s) ≤ limit - 3
unfolding chars_within
chars_within-le limit index [] h = omega arith
chars_within-le limit index (c ∷ cs) h = elim (Bool-cases (leb (index + len_utf8 c) (limit - 3))) [
  | inl fits ↦
      rw fits (omega (arith, chars_within-le limit (index + len_utf8 c) cs (leb→le _ _ fits)))
  | inr over ↦ rw over (omega arith)
]

-- A truncated diagnostic is at most `limit` bytes long, if `limit` has room for the dots.
pub truncate_diagnostic-le :
    (value : Text) (limit : ℕ) → 3 ≤ limit → byte_len (truncate_diagnostic value limit) ≤ limit
unfolding truncate_diagnostic
truncate_diagnostic-le value limit h = elim (Bool-cases (leb (byte_len value) limit)) [
  | inl short ↦ rw short (leb→le _ _ short)
  | inr long ↦
      rw (long, byte_len-append) (omega (arith, chars_within-le limit 0 value (omega arith)))
]

-- A text that another one begins with.
abbrev pub IsCutOf : Text → Text → Type 0
IsCutOf cut value = (rest : Text) × (cut ++ rest ≡ value)

chars_within-IsCutOf : (limit index : ℕ) (s : Text) → IsCutOf (chars_within limit index s) s
unfolding chars_within
chars_within-IsCutOf limit index [] = ([], refl)
chars_within-IsCutOf limit index (c ∷ cs) =
    elim (Bool-cases (leb (index + len_utf8 c) (limit - 3))) [
      | inl fits ↦ rw fits (
          let (rest, e) = chars_within-IsCutOf limit (index + len_utf8 c) cs in
          (rest, ap (λ t. c ∷ t) e))
      | inr over ↦ rw over (c ∷ cs, refl)
    ]

-- A truncated diagnostic is the value itself, or a beginning of the value followed by three dots.
truncate_diagnostic_cases :
    (value : Text) (limit : ℕ)
    → (truncate_diagnostic value limit ≡ value)
      ⊎ ((cut : Text) × IsCutOf cut value × (truncate_diagnostic value limit ≡ cut ++ codes "..."))
unfolding truncate_diagnostic
truncate_diagnostic_cases value limit = elim (Bool-cases (leb (byte_len value) limit)) [
  | inl short ↦ inl (rw short)
  | inr long ↦ inr (chars_within limit 0 value, chars_within-IsCutOf limit 0 value, rw long)
]
