-- ===== src/Ash/Frame/RoundTrip.antt =====
-- A frame comes back from its control byte and body; other pairs are refused.
use rsezsp.Prelude.{
  ℕ, ◌+◌, ◌%◌, ◌≤◌, ◌<◌, List, [], ◌≡◌, refl, Bool, true, false, arith, ◌⊎◌, ok, length,
}
use rsezsp.Ash.Frame.{
  AshFrame, data_frame, ack, nak, rst, rst_ack, error, control, body, from_parts,
  max_data_field_len,
}
use rsezsp.Ash.Frame.Control.{control-data_frame, control-ack, control-nak, masks, masks-control}

-- The frame with its sequence numbers reduced to three bits, as the control byte holds them.
abbrev pub reduced : AshFrame → AshFrame
reduced (data_frame f a r payload) = data_frame (f % 8) (a % 8) r payload
reduced (ack a n) = ack (a % 8) n
reduced (nak a n) = nak (a % 8) n
reduced rst = rst
reduced (rst_ack v c) = rst_ack v c
reduced (error v c) = error v c

-- Whether a body of this frame is short enough to be received.
abbrev pub FitsDataField : AshFrame → Type 0
FitsDataField f = length (body f) ≤ max_data_field_len

data_fields :
    (f a : ℕ) (r : Bool) (payload : List ℕ)
    → length payload ≤ 128
    → from_parts (control (data_frame f a r payload)) payload
      ≡ ok (data_frame (f % 8) (a % 8) r payload)
unfolding from_parts
data_fields f a true payload h =
    ground (arith, control-data_frame f a true payload, masks-control (data_frame f a true payload))
data_fields f a false payload h =
    ground
      (arith, control-data_frame f a false payload, masks-control (data_frame f a false payload))

ack_fields : (a : ℕ) (n : Bool) → from_parts (control (ack a n)) [] ≡ ok (ack (a % 8) n)
unfolding from_parts
ack_fields a true = ground (arith, control-ack a true, masks-control (ack a true))
ack_fields a false = ground (arith, control-ack a false, masks-control (ack a false))

nak_fields : (a : ℕ) (n : Bool) → from_parts (control (nak a n)) [] ≡ ok (nak (a % 8) n)
unfolding from_parts
nak_fields a true = ground (arith, control-nak a true, masks-control (nak a true))
nak_fields a false = ground (arith, control-nak a false, masks-control (nak a false))

-- Every frame whose body fits comes back from its control byte and body, with its sequence
-- numbers reduced modulo 8.
pub from_parts-control :
    (f : AshFrame) → FitsDataField f → from_parts (control f) (body f) ≡ ok (reduced f)
unfolding body
from_parts-control (data_frame f a r payload) h = data_fields f a r payload h
from_parts-control (ack a n) h = ack_fields a n
from_parts-control (nak a n) h = nak_fields a n
from_parts-control rst h = unfold control from_parts in refl
from_parts-control (rst_ack v c) h = unfold control from_parts in refl
from_parts-control (error v c) h = unfold control from_parts in refl

-- What `from_parts` accepts is a frame with the given body, and with the given control byte up to
-- bit 4, which an ACK or a NAK does not use.
pub from_parts_sound :
    (c : ℕ) (bytes : List ℕ) (f : AshFrame)
    → c < 256
    → from_parts c bytes ≡ ok f
    → (body f ≡ bytes) × ((control f ≡ c) ⊎ (control f + 16 ≡ c)) × FitsDataField f
unfolding from_parts body
from_parts_sound c bytes (data_frame f a r payload) lt h =
    ground (arith, masks c lt, control-data_frame f a r payload)
from_parts_sound c bytes (ack a n) lt h = ground (arith, masks c lt, control-ack a n)
from_parts_sound c bytes (nak a n) lt h = ground (arith, masks c lt, control-nak a n)
from_parts_sound c bytes rst lt h = unfold control in ground (arith, masks c lt)
from_parts_sound c bytes (rst_ack v d) lt h = unfold control in ground (arith, masks c lt)
from_parts_sound c bytes (error v d) lt h = unfold control in ground (arith, masks c lt)
