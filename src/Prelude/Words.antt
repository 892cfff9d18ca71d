-- ===== src/Prelude/Words.antt =====
-- Machine words: the widths that the program uses, and Rust's checked and saturating operations on
-- them. A word is a native number below its modulus; no operation here gives a larger one.
use vela_relay.Prelude.Tests.{ltb, if◌then◌else◌}
use Prim.Native.Nat.{ℕ, ◌+◌, ◌-◌, ◌*◌, ◌^◌, ◌≤◌, ◌<◌, min}
use mathlib.Core.Path.{◌≡◌}
use mathlib.Core.Option.{Option, none, some}
use native.Mathlib.Omega.{arith}

abbrev pub u32_mod : ℕ
u32_mod = 2 ^ 32

abbrev pub u64_mod : ℕ
u64_mod = 2 ^ 64

abbrev pub u128_mod : ℕ
u128_mod = 2 ^ 128

abbrev pub u256_mod : ℕ
u256_mod = 2 ^ 256

abbrev pub u512_mod : ℕ
u512_mod = 2 ^ 512

-- The result of a checked operation whose exact value is `n`, on words below `limit`.
abbrev pub checked : ℕ → ℕ → Option ℕ
checked limit n = if ltb n limit then some n else none

abbrev pub checked_add : ℕ → ℕ → ℕ → Option ℕ
checked_add limit a b = checked limit (a + b)

abbrev pub checked_mul : ℕ → ℕ → ℕ → Option ℕ
checked_mul limit a b = checked limit (a * b)

abbrev pub checked_sub : ℕ → ℕ → Option ℕ
checked_sub a b = if ltb a b then none else some (a - b)

abbrev pub saturating_add : ℕ → ℕ → ℕ → ℕ
saturating_add limit a b = min (a + b) (limit - 1)

abbrev pub saturating_mul : ℕ → ℕ → ℕ → ℕ
saturating_mul limit a b = min (a * b) (limit - 1)

-- `-` of the native numbers stops at 0, as `saturating_sub` does.
abbrev pub saturating_sub : ℕ → ℕ → ℕ
saturating_sub a b = a - b

abbrev pub clamp : ℕ → ℕ → ℕ → ℕ
clamp x lo hi = if ltb x lo then lo else if ltb hi x then hi else x

pub checked-eq-some : (limit n : ℕ) {r : ℕ} → checked limit n ≡ some r → (r ≡ n) × (n < limit)
checked-eq-some limit n h = ground arith

pub checked_sub-eq-some : (a b : ℕ) {d : ℕ} → checked_sub a b ≡ some d → (b ≤ a) × (d ≡ a - b)
checked_sub-eq-some a b h = ground arith
