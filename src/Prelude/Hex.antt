-- ===== src/Prelude/Hex.antt =====
-- The `hex` crate as a parameter: its functions, and what it is documented to do.
use Prim.Native.Nat.{ℕ}
use mathlib.Core.Path.{◌≡◌}
use mathlib.Core.Bool.{Bool, true, ◌&&◌, ◌||◌}
use mathlib.Core.Option.{Option, some}
use mathlib.Core.List.{List, [], ◌∷◌, map}
use vela_relay.Prelude.Tests.{leb}
use vela_relay.Prelude.Text.{Text, to_ascii_lowercase}

-- `is_ascii_hexdigit`
abbrev pub is_ascii_hexdigit : ℕ → Bool
is_ascii_hexdigit c = (leb 48 c && leb c 57) || (leb 65 c && leb c 70) || (leb 97 c && leb c 102)

abbrev pub all_hexdigits : Text → Bool
all_hexdigits [] = true
all_hexdigits (c ∷ cs) = is_ascii_hexdigit c && all_hexdigits cs

pub record Hex : Type 0 where
  pub decode : Text → Option (List ℕ)
  pub encode : List ℕ → Text

-- Only hexadecimal digits are decoded, and encoding prints them back in lower case.
pub record IsHex (h : Hex) : Type 0 where
  pub decodes_digits :
      (text : Text) (bytes : List ℕ) → h.decode text ≡ some bytes → all_hexdigits text ≡ true
  pub encodes_lower :
      (text : Text) (bytes : List ℕ)
      → h.decode text ≡ some bytes
      → h.encode bytes ≡ map to_ascii_lowercase text
