-- ===== src/Prelude/Text.antt =====
-- Text as the program handles it: a Rust `String` is the list of its code points.
use Prim.Native.Nat.{ℕ, zero, suc, ◌+◌, ◌-◌, ◌*◌, ◌/◌, ◌%◌, ◌^◌, ◌<◌}
use Prim.Native.Char.{code}
use Prim.Native.String.{String}
use mathlib.Core.Path.{◌≡◌, refl, ap, sym, ◌∙◌}
use mathlib.Core.Logic.{◌↔◌, inl, inr}
use mathlib.Core.Bool.{Bool, true, false, ◌&&◌, ◌||◌}
use mathlib.Core.List.{List, [], ◌∷◌, ◌++◌}
use native.Mathlib.Nat.{pow-suc}
use native.Mathlib.Omega.{arith}
use vela_relay.Prelude.Tests.{leb, ltb, ◌==◌, if◌then◌else◌, Bool-cases}

abbrev pub Text : Type 0
Text = List ℕ

abbrev pub codes : String → Text
codes String.[] = []
codes (String.◌∷◌ c s) = code c ∷ codes s

-- `char::len_utf8` and `str::len`, which counts bytes.
abbrev pub len_utf8 : ℕ → ℕ
len_utf8 c = if ltb c 0x80 then 1 else if ltb c 0x800 then 2 else if ltb c 0x10000 then 3 else 4

abbrev pub byte_len : Text → ℕ
byte_len [] = 0
byte_len (c ∷ cs) = len_utf8 c + byte_len cs

-- `==` on strings.
abbrev pub text_eq : Text → Text → Bool
text_eq [] [] = true
text_eq [] (b ∷ bs) = false
text_eq (a ∷ as') [] = false
text_eq (a ∷ as') (b ∷ bs) = a == b && text_eq as' bs

-- `u8::to_ascii_lowercase`
abbrev pub to_ascii_lowercase : ℕ → ℕ
to_ascii_lowercase c = if leb 65 c && leb c 90 then c + 32 else c

abbrev starts_with : Text → Text → Bool
starts_with text [] = true
starts_with [] (p ∷ ps) = false
starts_with (c ∷ cs) (p ∷ ps) = c == p && starts_with cs ps

-- `str::contains` of a string.
abbrev pub contains : Text → Text → Bool
contains [] phrase = starts_with [] phrase
contains (c ∷ cs) phrase = starts_with (c ∷ cs) phrase || contains cs phrase

abbrev pub contains_any : Text → List Text → Bool
contains_any text [] = false
contains_any text (phrase ∷ phrases) = contains text phrase || contains_any text phrases

-- `str::eq_ignore_ascii_case`
abbrev pub eq_ignore_ascii_case : Text → Text → Bool
eq_ignore_ascii_case [] [] = true
eq_ignore_ascii_case [] (b ∷ bs) = false
eq_ignore_ascii_case (a ∷ as') [] = false
eq_ignore_ascii_case (a ∷ as') (b ∷ bs) =
    to_ascii_lowercase a == to_ascii_lowercase b && eq_ignore_ascii_case as' bs

pub text_eq_sound : (s t : Text) → text_eq s t ≡ true → s ≡ t
text_eq_sound [] [] h = refl
text_eq_sound [] (b ∷ bs) h = cc
text_eq_sound (a ∷ as') [] h = cc
text_eq_sound (a ∷ as') (b ∷ bs) h = ground (arith, text_eq_sound as' bs)

pub text_eq_refl : (s : Text) → text_eq s s ≡ true
text_eq_refl [] = refl
text_eq_refl (a ∷ as') = ground (arith, text_eq_refl as')

pub text_eq_iff : (s t : Text) → (text_eq s t ≡ true) ↔ (s ≡ t)
text_eq_iff s t = (text_eq_sound s t, λ e. ap (text_eq s) (sym e) ∙ text_eq_refl s)

-- Equality up to case is an equivalence.
pub eq_ignore_ascii_case_refl : (s : Text) → eq_ignore_ascii_case s s ≡ true
eq_ignore_ascii_case_refl [] = refl
eq_ignore_ascii_case_refl (a ∷ as') = ground (arith, eq_ignore_ascii_case_refl as')

pub eq_ignore_ascii_case_symm : (s t : Text) → eq_ignore_ascii_case s t ≡ eq_ignore_ascii_case t s
eq_ignore_ascii_case_symm [] [] = refl
eq_ignore_ascii_case_symm [] (b ∷ bs) = refl
eq_ignore_ascii_case_symm (a ∷ as') [] = refl
eq_ignore_ascii_case_symm (a ∷ as') (b ∷ bs) = ground (arith, eq_ignore_ascii_case_symm as' bs)

eq_ignore_ascii_case_step :
    (a b c : ℕ) (p q r : Bool)
    → (to_ascii_lowercase a == to_ascii_lowercase b && p) ≡ true
    → (p ≡ true → q ≡ r)
    → (to_ascii_lowercase a == to_ascii_lowercase c && q)
      ≡ (to_ascii_lowercase b == to_ascii_lowercase c && r)
eq_ignore_ascii_case_step a b c p q r h ih = ground arith

pub eq_ignore_ascii_case_trans :
    (s t u : Text)
    → eq_ignore_ascii_case s t ≡ true
    → eq_ignore_ascii_case s u ≡ eq_ignore_ascii_case t u
eq_ignore_ascii_case_trans [] [] u h = refl
eq_ignore_ascii_case_trans [] (b ∷ bs) u h = cc
eq_ignore_ascii_case_trans (a ∷ as') [] u h = cc
eq_ignore_ascii_case_trans (a ∷ as') (b ∷ bs) [] h = refl
eq_ignore_ascii_case_trans (a ∷ as') (b ∷ bs) (c ∷ cs) h =
    eq_ignore_ascii_case_step a b c (eq_ignore_ascii_case as' bs) _ _ h
      (eq_ignore_ascii_case_trans as' bs cs)

-- `to_string`: the decimal digits. Eighty rounds print every number below 10 ^ 80, and so every U256.
digits_from : ℕ → ℕ → Text
digits_from zero n = []
digits_from (suc fuel) n =
    let rest = digits_from fuel (n / 10) in
    if ltb n 10 then (48 + n) ∷ [] else rest ++ (48 + n % 10) ∷ []

unfoldable pub digits_of : ℕ → Text
unfolding digits_from
digits_of n = digits_from 80 n

-- The number that a text of decimal digits stands for.
abbrev value_from : ℕ → Text → ℕ
value_from acc [] = acc
value_from acc (c ∷ cs) = value_from (acc * 10 + (c - 48)) cs

value-append :
    (acc c : ℕ) (s : Text) → value_from acc (s ++ c ∷ []) ≡ value_from acc s * 10 + (c - 48)
value-append acc c [] = refl
value-append acc c (d ∷ s) = value-append (acc * 10 + (d - 48)) c s

value-digits_from : (fuel n : ℕ) → n < 10 ^ fuel → value_from 0 (digits_from fuel n) ≡ n
unfolding digits_from
value-digits_from zero n h = omega arith
value-digits_from (suc fuel) n h = elim (Bool-cases (ltb n 10)) [
  | inl small ↦ rw small (omega arith)
  | inr large ↦ rw large (
      rw (value-append 0 (48 + n % 10) (digits_from fuel (n / 10))) (
        let q : n < 10 ^ fuel * 10 = rw pow-suc at h in
        rw (value-digits_from fuel (n / 10) (omega arith)) (omega arith)))
]

-- Two U256 with the same text are the same number.
pub digits_of-injective : (a b : ℕ) → a < 2 ^ 256 → b < 2 ^ 256 → digits_of a ≡ digits_of b → a ≡ b
unfolding digits_of
digits_of-injective a b h k e =
    sym (value-digits_from 80 a (omega arith))
    ∙ ap (value_from 0) e
    ∙ value-digits_from 80 b (omega arith)
