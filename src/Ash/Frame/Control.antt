-- ===== src/Ash/Frame/Control.antt =====
-- The control byte of each kind of frame as arithmetic.
use rsezsp.Prelude.{
  ℕ, ◌+◌, ◌*◌, ◌/◌, ◌%◌, ◌<◌, bit_and, bit_or, List, ◌≡◌, Bool, true, false, arith, if◌then◌else◌,
}
use rsezsp.Prelude.Bits.{bit_or-sum}
use rsezsp.Prelude.Masks.{mask_0x80, mask_0xe0, mask_0x70, mask_0x08, mask_0x07}
use rsezsp.Ash.Frame.{AshFrame, data_frame, ack, nak, control}

-- A flag as a digit.
abbrev pub digit : Bool → ℕ
digit b = if b then 1 else 0

-- Three fields of one byte: bits 4 and up, bit 3, bits 0 to 2.
or_fields :
    (q a : ℕ) (r : Bool)
    → a < 8
    → bit_or (bit_or (q * 16) (if r then 8 else 0)) a ≡ q * 16 + digit r * 8 + a
or_fields q a true h =
    let top : bit_or (q * 16) 8 ≡ (q * 2 + 1) * 8 = omega (arith, bit_or-sum 4 q 8 (omega arith)) in
    rw top (omega (arith, bit_or-sum 3 (q * 2 + 1) a (omega arith)))
or_fields q a false h =
    let top : bit_or (q * 16) 0 ≡ q * 2 * 8 = omega (arith, bit_or-sum 4 q 0 (omega arith)) in
    rw top (omega (arith, bit_or-sum 3 (q * 2) a (omega arith)))

pub control-data_frame :
    (f a : ℕ) (r : Bool) (payload : List ℕ)
    → control (data_frame f a r payload) ≡ f % 8 * 16 + digit r * 8 + a % 8
unfolding control
control-data_frame f a r payload =
    let fits : f % 8 * 16 % 256 ≡ f % 8 * 16 = omega arith in
    rw fits (or_fields (f % 8) (a % 8) r (omega arith))

pub control-ack : (a : ℕ) (n : Bool) → control (ack a n) ≡ 0x80 + digit n * 8 + a % 8
unfolding control
control-ack a n = or_fields 8 (a % 8) n (omega arith)

pub control-nak : (a : ℕ) (n : Bool) → control (nak a n) ≡ 0xa0 + digit n * 8 + a % 8
unfolding control
control-nak a n = or_fields 10 (a % 8) n (omega arith)

pub control-lt : (f : AshFrame) → control f < 256
unfolding control
control-lt (data_frame f a true payload) = omega (arith, control-data_frame f a true payload)
control-lt (data_frame f a false payload) = omega (arith, control-data_frame f a false payload)
control-lt (ack a true) = omega (arith, control-ack a true)
control-lt (ack a false) = omega (arith, control-ack a false)
control-lt (nak a true) = omega (arith, control-nak a true)
control-lt (nak a false) = omega (arith, control-nak a false)
control-lt _ = omega arith

-- What the masks of `from_parts` read from a byte.
pub masks :
    (c : ℕ)
    → c < 256
    → (bit_and c 0x80 ≡ c / 128 * 128)
      × (bit_and c 0xe0 ≡ c / 32 * 32)
      × (bit_and c 0x70 ≡ c / 16 % 8 * 16)
      × (bit_and c 0x08 ≡ c / 8 % 2 * 8)
      × (bit_and c 0x07 ≡ c % 8)
masks c h = (mask_0x80 c h, mask_0xe0 c h, mask_0x70 c h, mask_0x08 c h, mask_0x07 c h)

pub masks-control :
    (f : AshFrame)
    → let c = control f in
      (bit_and c 0x80 ≡ c / 128 * 128)
      × (bit_and c 0xe0 ≡ c / 32 * 32)
      × (bit_and c 0x70 ≡ c / 16 % 8 * 16)
      × (bit_and c 0x08 ≡ c / 8 % 2 * 8)
      × (bit_and c 0x07 ≡ c % 8)
masks-control f = masks (control f) (control-lt f)
