-- ===== src/Ezsp/Frame/Headers.antt =====
-- Headers read back as they were written; a frame too short or too long is refused.
use rsezsp.Prelude.{
  ℕ, ◌+◌, ◌^◌, ◌≤◌, ◌<◌, List, [], ◌∷◌, ◌++◌, true, false, ok, err, length, ltb, leb, le→leb,
  lt→leb, ◌≡◌, arith, Bool-cases, inl, inr, ◌↔◌, append_assoc,
}
use rsezsp.Prelude.Words.{from_le_bytes, to_le_bytes}
use rsezsp.Prelude.Masks.{mask_0xff}
use rsezsp.Ezsp.Error.{malformed_header}
use rsezsp.Ezsp.Codec.Writer
use rsezsp.Ezsp.Codec.Writer.{Writer}
use rsezsp.Ezsp.Version.{ProtocolVersion}
use rsezsp.Ezsp.FrameId.{FrameId, fits_legacy}
use rsezsp.Ezsp.Frame.{
  HeaderFormat, legacy, extended, byte_len, Frame, command_control, from_low_byte, write_header,
  parse, max_frame_length, oversized_id,
}

-- The bytes of a command header.
abbrev pub header_bytes : ℕ → FrameId → HeaderFormat → List ℕ
header_bytes sequence id legacy = sequence ∷ 0 ∷ id ∷ []
header_bytes sequence id extended = sequence ∷ 0 ∷ 1 ∷ to_le_bytes 2 id

-- An id that the format can express.
abbrev pub FitsFormat : FrameId → HeaderFormat → Type 0
FitsFormat id legacy = id ≤ 0xff
FitsFormat id extended = id < 2 ^ 16

-- A header that fits its format is appended, byte for byte.
pub write_header_lem :
    (w : Writer) (sequence : ℕ) (id : FrameId) (format : HeaderFormat)
    → FitsFormat id format
    → write_header sequence id format w
      ≡ (ok tt, record w { bytes = w.bytes ++ header_bytes sequence id format })
unfolding write_header fits_legacy Writer.u8 Writer.u16
write_header_lem w sequence id legacy h =
    let small : leb id 0xff ≡ true = le→leb _ _ h in
    rw (small, mask_0xff id (omega arith)) (simp append_assoc)
write_header_lem w sequence id extended h = simp append_assoc

-- A legacy header refuses an id above 0xff, rather than address another command by its low byte.
pub write_header_oversized :
    (w : Writer) (sequence : ℕ) (id : FrameId)
    → 0xff < id
    → (write_header sequence id legacy w).0 ≡ err (malformed_header oversized_id)
unfolding write_header fits_legacy Writer.u8
write_header_oversized w sequence id h = let big : leb id 0xff ≡ false = lt→leb _ _ h in rw big

-- Header and parameters of a command read back as they were written, in both formats, up to the
-- longest frame.
pub parse-write_header :
    (v : ProtocolVersion) (sequence : ℕ) (id : FrameId) (format : HeaderFormat)
    (parameters : List ℕ)
    → FitsFormat id format
    → byte_len format + length parameters ≤ max_frame_length
    → parse ((write_header sequence id format (Writer.new v)).1.bytes ++ parameters) format
      ≡ ok (record {
        sequence = sequence;
        control = command_control;
        frame_id = id;
        parameters = parameters;
      })
unfolding parse from_low_byte
parse-write_header v sequence id legacy parameters h len =
    rw (write_header_lem (Writer.new v) sequence id legacy h) (ground arith)
parse-write_header v sequence id extended parameters h len =
    rw (write_header_lem (Writer.new v) sequence id extended h) (ground arith)

parse_in_range :
    (bytes : List ℕ) (format : HeaderFormat)
    → byte_len format ≤ length bytes
    → length bytes ≤ 218
    → (f : Frame) × (parse bytes format ≡ ok f)
unfolding parse
parse_in_range [] legacy lo hi = absurd (omega arith)
parse_in_range (a ∷ []) legacy lo hi = absurd (omega arith)
parse_in_range (a ∷ b ∷ []) legacy lo hi = absurd (omega arith)
parse_in_range (a ∷ b ∷ c ∷ rest) legacy lo hi = (
  record { sequence = a; control = from_low_byte b; frame_id = c; parameters = rest },
  ground arith,
)
parse_in_range [] extended lo hi = absurd (omega arith)
parse_in_range (a ∷ []) extended lo hi = absurd (omega arith)
parse_in_range (a ∷ b ∷ []) extended lo hi = absurd (omega arith)
parse_in_range (a ∷ b ∷ c ∷ []) extended lo hi = absurd (omega arith)
parse_in_range (a ∷ b ∷ c ∷ d ∷ []) extended lo hi = absurd (omega arith)
parse_in_range (a ∷ b ∷ c ∷ d ∷ e ∷ rest) extended lo hi = (
  record {
    sequence = a;
    control = from_low_byte b;
    frame_id = from_le_bytes (d ∷ e ∷ []);
    parameters = rest;
  },
  ground arith,
)

parse_bounds :
    (bytes : List ℕ) (format : HeaderFormat) (f : Frame)
    → parse bytes format ≡ ok f
    → (byte_len format ≤ length bytes) × (length bytes ≤ 218)
unfolding parse
parse_bounds bytes format f h = elim (Bool-cases (ltb 218 (length bytes))) [
  | inl long ↦ cc (rw long at h)
  | inr fine ↦ elim (Bool-cases (ltb (length bytes) (byte_len format))) [
    | inl short ↦ cc (rw (fine, short) at h)
    | inr enough ↦ (ground arith, ground arith)
  ]
]

-- A frame is parsed exactly when it has at least its header and at most 218 bytes.
pub parse_iff :
    (bytes : List ℕ) (format : HeaderFormat)
    → ((f : Frame) × (parse bytes format ≡ ok f))
      ↔ ((byte_len format ≤ length bytes) × (length bytes ≤ max_frame_length))
parse_iff bytes format =
    (λ p. parse_bounds bytes format p.0 p.1, λ p. parse_in_range bytes format p.0 p.1)
