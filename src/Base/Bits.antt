-- ===== src/Base/Bits.antt =====
-- Masks and bytes as arithmetic.
use Prim.Native.Nat.{ℕ, zero, suc, ◌*◌, ◌/◌, ◌%◌, ◌+◌, ◌^◌, ◌<◌, bit_and}
use mathlib.Core.Path.{◌≡◌, refl}
use mathlib.Core.Bool.{Bool, true, ◌&&◌}
use mathlib.Core.List.{List, [], ◌∷◌}
use native.Mathlib.Omega.{arith}
use smb1client_rs.Base.Tests.{◌==◌}

-- `x as u8` and `x as u16`.
abbrev pub as_u8 : ℕ → ℕ
as_u8 x = x % 2 ^ 8

abbrev pub as_u16 : ℕ → ℕ
as_u16 x = x % 2 ^ 16

-- `u16::to_le_bytes` and `u16::from_le_bytes`.
abbrev pub to_le_bytes : ℕ → List ℕ
to_le_bytes w = w % 2 ^ 8 ∷ w / 2 ^ 8 % 2 ^ 8 ∷ []

abbrev pub from_le_bytes : ℕ → ℕ → ℕ
from_le_bytes lo hi = lo + hi * 2 ^ 8

-- Two functions agree on every value below a bound, checked one by one.
agree_below : (ℕ → ℕ) → (ℕ → ℕ) → ℕ → Bool
agree_below f g zero = true
agree_below f g (suc n) = f n == g n && agree_below f g n

agree_below_sound : (f g : ℕ → ℕ) (n i : ℕ) → agree_below f g n ≡ true → i < n → f i ≡ g i
unfolding agree_below
agree_below_sound f g zero i e h = absurd (omega arith)
agree_below_sound f g (suc n) i e h = ground (arith, agree_below_sound f g n i)

-- All bits of a byte but the lowest.
pub bit_and_upper : (b : ℕ) → b < 256 → bit_and b 0xFE ≡ b / 2 * 2
unfolding agree_below
bit_and_upper b h = agree_below_sound (λ x. bit_and x 0xFE) (λ x. x / 2 * 2) 256 b refl h
