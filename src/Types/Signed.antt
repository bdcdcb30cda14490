-- ===== src/Types/Signed.antt =====
-- The signed byte: `as u8` and `as i8` keep the eight bits.
use rsezsp.Prelude.{ℕ, ◌-◌, ◌%◌, ◌<◌, ltb, if◌then◌else◌, ◌≡◌, arith}

-- `negsuc n` is the number -(n + 1).
pub data ℤ : Type 0 where
  pos : ℕ → ℤ
  negsuc : ℕ → ℤ

unfoldable pub as_u8 : ℤ → ℕ
as_u8 (pos n) = n % 256
as_u8 (negsuc n) = 255 - n % 256

unfoldable pub as_i8 : ℕ → ℤ
as_i8 b = if ltb b 128 then pos b else negsuc (255 - b)

abbrev pub IsI8 : ℤ → Type 0
IsI8 (pos n) = n < 128
IsI8 (negsuc n) = n < 128

pub as_i8-as_u8 : (x : ℤ) → IsI8 x → as_i8 (as_u8 x) ≡ x
unfolding as_u8 as_i8
as_i8-as_u8 (pos n) h = ground arith
as_i8-as_u8 (negsuc n) h = ground arith
