-- ===== src/Ezsp/Frame.antt =====
-- src/ezsp/frame.rs: the two header formats, the frame control field, writing and parsing.
pub mod Headers
use Prim.Native.String.{String}
use rsezsp.Prelude.{
  ℕ, ◌/◌, ◌%◌, ◌+◌, ◌*◌, bit_and, List, [], ◌∷◌, Bool, true, false, not, Option, none, some, Result,
  ok, err, length, get_elem?, drop, ltb, ◌==◌, if◌then◌else◌,
}
use rsezsp.Prelude.Words.{from_le_bytes}
use rsezsp.Ezsp.Error.{EzspError, truncated_frame, frame_too_long, malformed_header}
use rsezsp.Ezsp.Exec.{Exec, pure, raise, ◌>>=◌, ◌>>◌}
use rsezsp.Ezsp.Codec.Reader
use rsezsp.Ezsp.Codec.Reader.{Reader}
use rsezsp.Ezsp.Codec.Writer
use rsezsp.Ezsp.Codec.Writer.{Writer}
use rsezsp.Ezsp.Version.{ProtocolVersion}
use rsezsp.Ezsp.FrameId.{FrameId, fits_legacy}

pub data HeaderFormat : Type 0 where
  legacy extended : HeaderFormat

unfoldable pub byte_len : HeaderFormat → ℕ
byte_len legacy = 3
byte_len extended = 5

pub data Direction : Type 0 where
  command response : Direction

pub record FrameControl : Type 0 where
  pub direction : Direction
  pub is_callback : Bool
  pub callback_pending : Bool
  pub overflow : Bool
  pub truncated : Bool
  pub raw_low : ℕ

abbrev pub direction_response : ℕ
direction_response = 0x80

abbrev pub overflow_bit : ℕ
overflow_bit = 0x01

abbrev pub truncated_bit : ℕ
truncated_bit = 0x02

abbrev pub callback_pending_bit : ℕ
callback_pending_bit = 0x04

abbrev pub async_callback : ℕ
async_callback = 0x10

-- The control of an outgoing command.
abbrev pub command_control : FrameControl
command_control = record {
  direction = command;
  is_callback = false;
  callback_pending = false;
  overflow = false;
  truncated = false;
  raw_low = 0;
}

unfoldable pub from_low_byte : ℕ → FrameControl
from_low_byte low = record {
  direction = if bit_and low direction_response == 0 then command else response;
  is_callback = not (bit_and low async_callback == 0);
  callback_pending = not (bit_and low callback_pending_bit == 0);
  overflow = not (bit_and low overflow_bit == 0);
  truncated = not (bit_and low truncated_bit == 0);
  raw_low = low;
}

low_byte : Direction → ℕ
low_byte command = 0x00
low_byte response = direction_response

unfoldable pub to_low_byte : FrameControl → ℕ
unfolding low_byte
to_low_byte c = low_byte c.direction

pub record Frame : Type 0 where
  pub sequence : ℕ
  pub control : FrameControl
  pub frame_id : FrameId
  pub parameters : List ℕ

abbrev pub max_frame_length : ℕ
max_frame_length = 218

abbrev pub extended_frame_format_version : ℕ
extended_frame_format_version = 0x01

abbrev pub oversized_id : String
oversized_id = "a legacy header cannot carry a frame id above 0xff"

-- The legacy header refuses an id of two bytes, after the sequence number was written.
unfoldable pub write_header : ℕ → FrameId → HeaderFormat → Exec Writer (Unit {0})
unfolding to_low_byte
write_header sequence id legacy = do
  Writer.u8 sequence
  if not (fits_legacy id)
      then raise (malformed_header oversized_id)
      else do Writer.u8 (to_low_byte command_control); Writer.u8 (bit_and id 0xff)
write_header sequence id extended = do
  Writer.u8 sequence
  Writer.u8 (to_low_byte command_control)
  Writer.u8 extended_frame_format_version
  Writer.u16 id

infixl 5 ◌>>?◌
-- `?` on a result.
abbrev pub ◌>>?◌ :
    {A B : Type 0} → Result A EzspError → (A → Result B EzspError) → Result B EzspError
ok a >>? f = f a
err e >>? f = err e

-- `bytes.get(i).ok_or(TruncatedFrame { needed: i + 1, .. })`.
abbrev pub byte_at : List ℕ → ℕ → Result ℕ EzspError
byte_at bytes i = elim (get_elem? bytes i) [
  | some b ↦ ok b
  | none ↦ err (truncated_frame (i + 1) (length bytes))
]

-- The frame id and the parameters, behind the two bytes that both formats share.
unfoldable pub parse_id : List ℕ → HeaderFormat → Result (FrameId × List ℕ) EzspError
parse_id bytes legacy = byte_at bytes 2 >>? λ id. ok (id, drop 3 bytes)
parse_id bytes extended = byte_at bytes 3 >>? λ lo.
    byte_at bytes 4 >>? λ hi. ok (from_le_bytes (lo ∷ hi ∷ []), drop 5 bytes)

unfoldable pub parse : List ℕ → HeaderFormat → Result Frame EzspError
unfolding byte_len parse_id
parse bytes format =
    if ltb max_frame_length (length bytes)
    then err (frame_too_long (length bytes) max_frame_length)
    else if ltb (length bytes) (byte_len format)
    then err (truncated_frame (byte_len format) (length bytes))
    else (byte_at bytes 0 >>? λ sequence. byte_at bytes 1 >>? λ low. parse_id bytes format >>? λ id.
        ok (record {
          sequence = sequence;
          control = from_low_byte low;
          frame_id = id.0;
          parameters = id.1;
        }))

-- A reader over a frame's parameters.
unfoldable pub parameters_reader : Frame → ProtocolVersion → Reader
parameters_reader f version = Reader.new f.parameters version
