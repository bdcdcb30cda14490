-- ===== src/Ash/Frame.antt =====
-- src/ash/frame.rs: the six kinds of ASH frame, and the control byte that tells them apart.
pub mod Control
pub mod RoundTrip
use rsezsp.Prelude.{
  ℕ, ◌+◌, ◌*◌, ◌/◌, ◌%◌, ◌^◌, bit_and, bit_or, List, [], ◌∷◌, Option, none, some, Bool, true, false,
  not, Result, ok, err, length, ltb, ◌==◌, if◌then◌else◌,
}
use rsezsp.Ash.Error.{AshError, too_long, invalid_control}

abbrev pub max_data_field_len : ℕ
max_data_field_len = 128

abbrev pub sequence_modulus : ℕ
sequence_modulus = 8

abbrev pub control_data_mask : ℕ
control_data_mask = 0x80

abbrev control_short_mask : ℕ
control_short_mask = 0xe0

abbrev ack_num_mask : ℕ
ack_num_mask = 0x07

abbrev frame_num_mask : ℕ
frame_num_mask = 0x70

abbrev frame_num_shift : ℕ
frame_num_shift = 4

abbrev retransmit_mask : ℕ
retransmit_mask = 0x08

abbrev not_ready_mask : ℕ
not_ready_mask = 0x08

abbrev control_ack : ℕ
control_ack = 0x80

abbrev control_nak : ℕ
control_nak = 0xa0

abbrev control_rst : ℕ
control_rst = 0xc0

abbrev control_rstack : ℕ
control_rstack = 0xc1

abbrev control_error : ℕ
control_error = 0xc2

pub data AshFrame : Type 0 where
  data_frame : (frame_num ack_num : ℕ) (retransmit : Bool) (payload : List ℕ) → AshFrame
  ack : (ack_num : ℕ) (not_ready : Bool) → AshFrame
  nak : (ack_num : ℕ) (not_ready : Bool) → AshFrame
  rst : AshFrame
  rst_ack : (version reset_code : ℕ) → AshFrame
  error : (version error_code : ℕ) → AshFrame

-- The control byte; a shift of a `u8` keeps eight bits.
unfoldable pub control : AshFrame → ℕ
control (data_frame frame_num ack_num retransmit payload) =
    bit_or
      (bit_or ((frame_num % sequence_modulus) * 2 ^ frame_num_shift % 2 ^ 8)
        (if retransmit then retransmit_mask else 0))
      (ack_num % sequence_modulus)
control (ack ack_num not_ready) =
    bit_or (bit_or control_ack (if not_ready then not_ready_mask else 0))
      (ack_num % sequence_modulus)
control (nak ack_num not_ready) =
    bit_or (bit_or control_nak (if not_ready then not_ready_mask else 0))
      (ack_num % sequence_modulus)
control rst = control_rst
control (rst_ack version reset_code) = control_rstack
control (error version error_code) = control_error

-- The bytes between the control byte and the CRC.
unfoldable pub body : AshFrame → List ℕ
body (data_frame frame_num ack_num retransmit payload) = payload
body (rst_ack version reset_code) = version ∷ reset_code ∷ []
body (error version error_code) = version ∷ error_code ∷ []
body (ack ack_num not_ready) = []
body (nak ack_num not_ready) = []
body rst = []

unfoldable pub acknowledges : AshFrame → Option ℕ
acknowledges (data_frame frame_num ack_num retransmit payload) = some ack_num
acknowledges (ack ack_num not_ready) = some ack_num
acknowledges (nak ack_num not_ready) = some ack_num
acknowledges _ = none

-- `body.is_empty()`.
abbrev pub is_empty {ℓ} : {A : Type ℓ} → List A → Bool
is_empty [] = true
is_empty (x ∷ xs) = false

-- `let [a, b] = body else { return Err(e) }`.
two_bytes : List ℕ → (ℕ → ℕ → AshFrame) → AshError → Result AshFrame AshError
two_bytes (a ∷ b ∷ []) make e = ok (make a b)
two_bytes _ make e = err e

data_from_parts : ℕ → List ℕ → Result AshFrame AshError
data_from_parts c bytes =
    if ltb max_data_field_len (length bytes)
    then err (too_long (length bytes) max_data_field_len)
    else ok (
        data_frame (bit_and c frame_num_mask / 2 ^ frame_num_shift) (bit_and c ack_num_mask)
          (not (bit_and c retransmit_mask == 0)) bytes)

short_from_parts : ℕ → List ℕ → AshError → Result AshFrame AshError
short_from_parts c bytes invalid =
    if not (is_empty bytes)
    then err invalid
    else let ack_num = bit_and c ack_num_mask in
      let not_ready = not (bit_and c not_ready_mask == 0) in
      if bit_and c control_short_mask == control_ack
      then ok (ack ack_num not_ready)
      else if bit_and c control_short_mask == control_nak
      then ok (nak ack_num not_ready)
      else err invalid

-- A control byte and a body make a frame if the length is right for the kind.
unfoldable pub from_parts : ℕ → List ℕ → Result AshFrame AshError
unfolding two_bytes data_from_parts short_from_parts
from_parts c bytes =
    let invalid = invalid_control c (length bytes) in
    if bit_and c control_data_mask == 0
    then data_from_parts c bytes
    else if c == control_rst
    then (if is_empty bytes then ok rst else err invalid)
    else if c == control_rstack
    then two_bytes bytes rst_ack invalid
    else if c == control_error
    then two_bytes bytes error invalid
    else short_from_parts c bytes invalid

-- `(n + 1) % 8`.
unfoldable pub next_sequence : ℕ → ℕ
next_sequence n = (n + 1) % sequence_modulus
