-- ===== src/Base/Int.antt =====
-- A signed integer of the platform: its value, and its conversion to `std::size_t`.
use mathlib.Core.Path.{◌≡◌}
use native.Mathlib.Omega.{arith}
use chaos_in_multiplayer.Base.Tests.{leb, if◌then◌else◌}
use Prim.Native.Nat.{◌+◌, ◌<◌, ℕ, suc, ◌-◌, ◌%◌, ◌^◌}

-- `negsuc n` is -(n + 1).
pub data ℤ : Type 0 where
  pos : ℕ → ℤ
  negsuc : ℕ → ℤ

-- a - b, as an integer.
abbrev pub sub_ℕ : ℕ → ℕ → ℤ
sub_ℕ a b = if leb b a then pos (a - b) else negsuc (b - a - 1)

infixl 65 ◌-ℤ◌
abbrev pub ◌-ℤ◌ : ℤ → ℤ → ℤ
pos a -ℤ pos b = sub_ℕ a b
pos a -ℤ negsuc b = pos (a + suc b)
negsuc a -ℤ pos b = negsuc (a + b)
negsuc a -ℤ negsuc b = sub_ℕ b a

-- `static_cast<std::size_t>(n)`: modulo 2^64.
unfoldable pub to_size_t : ℤ → ℕ
to_size_t (pos n) = n % 2 ^ 64
to_size_t (negsuc n) = (2 ^ 64 - suc n % 2 ^ 64) % 2 ^ 64

pub to_size_t-pos : (n : ℕ) → n < 2 ^ 64 → to_size_t (pos n) ≡ n
unfolding to_size_t
to_size_t-pos n h = omega arith
