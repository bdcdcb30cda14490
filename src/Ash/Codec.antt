-- ===== src/Ash/Codec.antt =====
-- src/ash/codec.rs: frames into bytes and back. A frame's body is randomised if it is a data
-- frame, a CRC is appended, reserved bytes are escaped, and a flag closes the frame.
pub mod Crc
pub mod Randomise
pub mod Stuffing
pub mod Decoding
pub mod Stream
pub mod Corruption
pub mod Wire
use rsezsp.Prelude.{
  ℕ, zero, suc, ◌+◌, ◌-◌, ◌*◌, ◌/◌, ◌%◌, ◌^◌, bit_and, bit_xor, List, [], ◌∷◌, ◌++◌, Option, none,
  some, Bool, true, false, ◌||◌, Result, ok, err, length, take, drop, ltb, leb, ◌==◌, if◌then◌else◌,
}
use rsezsp.Prelude.Words.{to_be_bytes, from_be_bytes}
use rsezsp.Ash.Error.{AshError, bad_crc, too_short, too_long, substituted}
use rsezsp.Ash.Frame.{AshFrame, data_frame, control, body, from_parts, is_empty}

abbrev pub flag : ℕ
flag = 0x7e

abbrev pub escape : ℕ
escape = 0x7d

abbrev pub cancel : ℕ
cancel = 0x1a

abbrev pub substitute : ℕ
substitute = 0x18

abbrev pub xon : ℕ
xon = 0x11

abbrev pub xoff : ℕ
xoff = 0x13

abbrev pub flip : ℕ
flip = 0x20

abbrev pub lfsr_seed : ℕ
lfsr_seed = 0x42

abbrev pub lfsr_poly : ℕ
lfsr_poly = 0xb8

abbrev pub max_frame_with_crc : ℕ
max_frame_with_crc = 133

abbrev pub min_frame_with_crc : ℕ
min_frame_with_crc = 3

unfoldable pub is_reserved : ℕ → Bool
is_reserved byte =
    byte == flag
    || (byte == escape || (byte == xon || (byte == xoff || (byte == substitute || byte == cancel))))

-- One round of the loop of `crc16`, on a `u16`.
unfoldable pub crc16_round : ℕ → ℕ
crc16_round crc =
    if bit_and crc 0x8000 == 0 then crc * 2 % 2 ^ 16 else bit_xor (crc * 2 % 2 ^ 16) 0x1021

-- The loop, with the rounds that are left.
unfoldable pub crc16_rounds : ℕ → ℕ → ℕ
crc16_rounds zero crc = crc
crc16_rounds (suc left) crc = crc16_rounds left (crc16_round crc)

unfoldable pub crc16 : ℕ → ℕ → ℕ
unfolding crc16_round crc16_rounds
crc16 seed byte = crc16_rounds 8 (bit_xor seed (byte * 2 ^ 8 % 2 ^ 16))

-- The fold of `crc16` over bytes, from any seed.
unfoldable pub crc16_from : ℕ → List ℕ → ℕ
crc16_from crc [] = crc
crc16_from crc (byte ∷ bytes) = crc16_from (crc16 crc byte) bytes

unfoldable pub crc16_all : List ℕ → ℕ
crc16_all bytes = crc16_from 0xffff bytes

unfoldable pub lfsr_next : ℕ → ℕ
lfsr_next seed = if bit_and seed 1 == 0 then seed / 2 else bit_xor (seed / 2) lfsr_poly

-- The loop of `randomise`, from any seed.
unfoldable pub randomise_from : ℕ → List ℕ → List ℕ
randomise_from seed [] = []
randomise_from seed (byte ∷ rest) = bit_xor byte seed ∷ randomise_from (lfsr_next seed) rest

unfoldable pub randomise : List ℕ → List ℕ
randomise bytes = randomise_from lfsr_seed bytes

-- The body as it goes on the wire: randomised for a data frame.
unfoldable pub wire_body : AshFrame → List ℕ
wire_body (data_frame frame_num ack_num retransmit payload) =
    randomise (body (data_frame frame_num ack_num retransmit payload))
wire_body frame = body frame

-- Byte stuffing: the loop at the end of `encode`, without the closing flag.
unfoldable pub stuff : List ℕ → List ℕ
stuff [] = []
stuff (byte ∷ bytes) =
    if is_reserved byte then escape ∷ bit_xor byte flip ∷ stuff bytes else byte ∷ stuff bytes

unfoldable pub encode : AshFrame → Result (List ℕ) AshError
encode frame =
    let unstuffed = control frame ∷ wire_body frame in
    if ltb max_frame_with_crc (length unstuffed + 2)
    then err (too_long (length unstuffed + 2) max_frame_with_crc)
    else ok (stuff (unstuffed ++ to_be_bytes (crc16_all unstuffed)) ++ flag ∷ [])

pub data Decoded : Type 0 where
  frame : AshFrame → Decoded
  rejected : AshError → Decoded

pub record Decoder : Type 0 where
  pub partial : List ℕ
  pub escaped : Bool
  pub dropping : Option AshError

abbrev pub new : Decoder
new = record { partial = []; escaped = false; dropping = none }

-- Clears the three fields, whatever they held.
unfoldable pub reset : Decoder → Decoder
reset d = record d { partial = []; escaped = false; dropping = none }

-- The last part of `finish`: the frame of a control byte and a body whose CRC was right.
unfoldable pub parse_covered : List ℕ → Option Decoded
parse_covered [] = none
parse_covered (c ∷ bytes) =
    let plain = if bit_and c 0x80 == 0 then randomise bytes else bytes in
    some (elim (from_parts c plain) [ ok f ↦ frame f | err e ↦ rejected e ])

-- The middle part of `finish`, on the two halves of `split_at`.
unfoldable pub check_crc : ℕ → List ℕ → List ℕ → Option Decoded
unfolding parse_covered
check_crc len covered (hi ∷ lo ∷ []) =
    let carried = from_be_bytes hi lo in
    let computed = crc16_all covered in
    if computed == carried
    then parse_covered covered
    else some (rejected (bad_crc computed carried))
check_crc len covered _ = some (rejected (too_short len min_frame_with_crc))

finish_bytes : List ℕ → Option Decoded
finish_bytes bytes =
    if is_empty bytes
    then none
    else if ltb (length bytes) min_frame_with_crc
    then some (rejected (too_short (length bytes) min_frame_with_crc))
    else let split = length bytes - 2 in
      check_crc (length bytes) (take split bytes) (drop split bytes)

-- Completes the frame at a delimiter.
unfoldable pub finish : Decoder → Option Decoded
unfolding finish_bytes
finish d = elim d.dropping [ some e ↦ some (rejected e) | none ↦ finish_bytes d.partial ]

-- A byte that is none of the six reserved ones, unescaped if the one before was an escape.
unfoldable pub push_plain : Decoder → ℕ → Decoder
push_plain d byte =
    let byte' = if d.escaped then bit_xor byte flip else byte in
    let d' = record d { escaped = false } in
    if leb max_frame_with_crc (length d'.partial)
    then record d' { dropping = some (too_long (length d'.partial + 1) max_frame_with_crc) }
    else record d' { partial = d'.partial ++ byte' ∷ [] }

-- Handles one byte.
unfoldable pub push : Decoder → ℕ → Decoder × Option Decoded
unfolding push_plain reset
push d byte =
    if byte == xon || byte == xoff
    then (d, none)
    else if byte == cancel
    then (reset d, none)
    else if byte == substitute
    then (record d { dropping = some substituted }, none)
    else if byte == escape
    then (record d { escaped = true }, none)
    else if byte == flag
    then (reset d, finish d)
    else (push_plain d byte, none)

abbrev pub emit : Option Decoded → List Decoded → List Decoded
emit none rest = rest
emit (some decoded) rest = decoded ∷ rest

-- Feeds bytes in, and returns whatever completed, in order.
unfoldable pub feed : Decoder → List ℕ → Decoder × List Decoded
feed d [] = (d, [])
feed d (byte ∷ bytes) =
    let (d', completed) = push d byte in
    let (d'', rest) = feed d' bytes in (d'', emit completed rest)
