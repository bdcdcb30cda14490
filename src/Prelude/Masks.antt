-- ===== src/Prelude/Masks.antt =====
-- `&` with the masks of a control byte, as arithmetic, by a check of every byte.
use Prim.Native.Nat.{ℕ, zero, suc, ◌*◌, ◌/◌, ◌%◌, ◌<◌, bit_and}
use rsezsp.Prelude.Tests.{◌==◌, ==_iff, if◌then◌else◌}
use mathlib.Core.Path.{◌≡◌, refl}
use mathlib.Core.Bool.{Bool, true, false}
use native.Mathlib.Omega.{arith}

-- The values under a limit, tested one by one.
unfoldable pub passes_under : (ℕ → Bool) → ℕ → Bool
passes_under test zero = true
passes_under test (suc limit) = if test limit then passes_under test limit else false

pub passes_under_sound :
    (test : ℕ → Bool) (limit : ℕ)
    → passes_under test limit ≡ true
    → {v : ℕ} → v < limit
    → test v ≡ true
unfolding passes_under
passes_under_sound test zero passed below = absurd (omega arith)
passes_under_sound test (suc limit) passed {v = v} below =
    ground (arith, λ (h : passes_under test limit ≡ true). passes_under_sound test limit h {v = v})

-- A mask over a byte, as arithmetic, once a check of all 256 values has passed.
pub byte_mask :
    (mask : ℕ) (g : ℕ → ℕ)
    → passes_under (λ c. bit_and c mask == g c) 256 ≡ true
    → (c : ℕ) → c < 256
    → bit_and c mask ≡ g c
byte_mask mask g table c h =
    (==_iff (bit_and c mask) (g c)).0 (passes_under_sound (λ x. bit_and x mask == g x) 256 table h)

table_0xff : passes_under (λ c. bit_and c 0xff == c) 256 ≡ true
unfolding passes_under
table_0xff = refl

table_0x80 : passes_under (λ c. bit_and c 0x80 == c / 128 * 128) 256 ≡ true
unfolding passes_under
table_0x80 = refl

table_0xe0 : passes_under (λ c. bit_and c 0xe0 == c / 32 * 32) 256 ≡ true
unfolding passes_under
table_0xe0 = refl

table_0x70 : passes_under (λ c. bit_and c 0x70 == c / 16 % 8 * 16) 256 ≡ true
unfolding passes_under
table_0x70 = refl

table_0x10 : passes_under (λ c. bit_and c 0x10 == c / 16 % 2 * 16) 256 ≡ true
unfolding passes_under
table_0x10 = refl

table_0x08 : passes_under (λ c. bit_and c 0x08 == c / 8 % 2 * 8) 256 ≡ true
unfolding passes_under
table_0x08 = refl

table_0x07 : passes_under (λ c. bit_and c 0x07 == c % 8) 256 ≡ true
unfolding passes_under
table_0x07 = refl

pub mask_0xff : (c : ℕ) → c < 256 → bit_and c 0xff ≡ c
mask_0xff = byte_mask 0xff (λ c. c) table_0xff

pub mask_0x80 : (c : ℕ) → c < 256 → bit_and c 0x80 ≡ c / 128 * 128
mask_0x80 = byte_mask 0x80 (λ c. c / 128 * 128) table_0x80

pub mask_0xe0 : (c : ℕ) → c < 256 → bit_and c 0xe0 ≡ c / 32 * 32
mask_0xe0 = byte_mask 0xe0 (λ c. c / 32 * 32) table_0xe0

pub mask_0x70 : (c : ℕ) → c < 256 → bit_and c 0x70 ≡ c / 16 % 8 * 16
mask_0x70 = byte_mask 0x70 (λ c. c / 16 % 8 * 16) table_0x70

pub mask_0x10 : (c : ℕ) → c < 256 → bit_and c 0x10 ≡ c / 16 % 2 * 16
mask_0x10 = byte_mask 0x10 (λ c. c / 16 % 2 * 16) table_0x10

pub mask_0x08 : (c : ℕ) → c < 256 → bit_and c 0x08 ≡ c / 8 % 2 * 8
mask_0x08 = byte_mask 0x08 (λ c. c / 8 % 2 * 8) table_0x08

pub mask_0x07 : (c : ℕ) → c < 256 → bit_and c 0x07 ≡ c % 8
mask_0x07 = byte_mask 0x07 (λ c. c % 8) table_0x07
