-- ===== src/Ash/Codec/Decoding.antt =====
-- The decoder on what `encode` wrote.
use rsezsp.Prelude.{
  ℕ, ◌+◌, ◌-◌, ◌*◌, ◌/◌, ◌%◌, ◌≤◌, bit_and, List, [], ◌∷◌, ◌++◌, ◌≡◌, refl, sym, ap, ◌∙◌, true,
  false, arith, if◌then◌else◌, ◌==◌, ==_refl, none, some, length, take-append, drop-append,
  append_assoc, append-nil, length-append, ltb, le→ltb, ok, err,
}
use rsezsp.Prelude.Words.{to_be_bytes}
use rsezsp.Ash.Error.{too_long}
use rsezsp.Ash.Frame.{AshFrame, data_frame, ack, nak, rst, rst_ack, error, control, body}
use rsezsp.Ash.Frame.Control.{control-data_frame, control-ack, control-nak, masks-control}
use rsezsp.Ash.Frame.RoundTrip.{reduced, FitsDataField, from_parts-control}
use rsezsp.Ash.Codec.{
  flag, frame, Decoder, new, push, finish, check_crc, parse_covered, feed, emit, encode, wire_body,
  stuff, crc16_all, randomise,
}
use rsezsp.Ash.Codec.Crc.{crc16_all-lt}
use rsezsp.Ash.Codec.Randomise.{length-randomise, randomise-randomise}
use rsezsp.Ash.Codec.Stuffing.{holding, feed-stuff}

pub length-wire_body : (f : AshFrame) → length (wire_body f) ≡ length (body f)
unfolding wire_body
length-wire_body (data_frame n a r payload) = length-randomise (body (data_frame n a r payload))
length-wire_body _ = refl

-- De-randomising by the top bit of the control byte gives the body back.
pub plain_body :
    (f : AshFrame)
    → (if bit_and (control f) 0x80 == 0 then randomise (wire_body f) else wire_body f) ≡ body f
unfolding wire_body
plain_body (data_frame n a true payload) = ground (
  arith,
  randomise-randomise (body (data_frame n a true payload)),
  control-data_frame n a true payload,
  masks-control (data_frame n a true payload),
)
plain_body (data_frame n a false payload) = ground (
  arith,
  randomise-randomise (body (data_frame n a false payload)),
  control-data_frame n a false payload,
  masks-control (data_frame n a false payload),
)
plain_body (ack a true) = ground (arith, control-ack a true, masks-control (ack a true))
plain_body (ack a false) = ground (arith, control-ack a false, masks-control (ack a false))
plain_body (nak a true) = ground (arith, control-nak a true, masks-control (nak a true))
plain_body (nak a false) = ground (arith, control-nak a false, masks-control (nak a false))
plain_body rst = unfold control in refl
plain_body (rst_ack v c) = unfold control in refl
plain_body (error v c) = unfold control in refl

parse_covered_lem :
    (f : AshFrame)
    → FitsDataField f
    → parse_covered (control f ∷ wire_body f) ≡ some (frame (reduced f))
unfolding parse_covered
parse_covered_lem f h = rw (plain_body f, from_parts-control f h)

-- The CRC that is sent is the CRC that is read.
carried_crc :
    (u : List ℕ)
    → check_crc (length (u ++ to_be_bytes (crc16_all u))) u (to_be_bytes (crc16_all u))
      ≡ parse_covered u
unfolding check_crc
carried_crc u =
    let same : crc16_all u / 256 % 256 * 256 + crc16_all u % 256 ≡ crc16_all u =
      omega (arith, crc16_all-lt u) in
    rw (same, ==_refl (crc16_all u))

pub finish_sealed :
    (c : ℕ) (u : List ℕ)
    → finish (holding ((c ∷ u) ++ to_be_bytes (crc16_all (c ∷ u))) none) ≡ parse_covered (c ∷ u)
unfolding finish
finish_sealed c u =
    let crc = to_be_bytes (crc16_all (c ∷ u)) in
    let len = length-append u crc in
    let short : ltb (length ((c ∷ u) ++ crc)) 3 ≡ false = le→ltb _ _ (omega (arith, len)) in
    let split : length ((c ∷ u) ++ crc) - 2 ≡ length (c ∷ u) = omega (arith, len) in
    rw (short, split, take-append (c ∷ u) crc, drop-append (c ∷ u) crc) (carried_crc (c ∷ u))

-- A frame before stuffing: control byte, body, CRC.
abbrev pub sealed : AshFrame → List ℕ
sealed f = (control f ∷ wire_body f) ++ to_be_bytes (crc16_all (control f ∷ wire_body f))

pub length-sealed : (f : AshFrame) → length (sealed f) ≡ length (body f) + 3
length-sealed f =
    let u = control f ∷ wire_body f in
    omega (arith, length-append u (to_be_bytes (crc16_all u)), length-wire_body f)

-- `encode` refuses exactly the bodies of more than 130 bytes.
pub encode_lem :
    (f : AshFrame)
    → encode f ≡ (
        if ltb 130 (length (body f))
        then err (too_long (length (body f) + 3) 133)
        else ok (stuff (sealed f) ++ flag ∷ []))
unfolding encode
encode_lem f = ground (arith, length-wire_body f)

pub feed-flag :
    (d : Decoder) (rest : List ℕ)
    → feed d (flag ∷ rest) ≡ ((feed new rest).0, emit (finish d) (feed new rest).1)
unfolding feed push
feed-flag d rest = refl

pub feed-sealed :
    (f : AshFrame) (rest : List ℕ)
    → FitsDataField f
    → feed new (stuff (sealed f) ++ flag ∷ rest)
      ≡ ((feed new rest).0, frame (reduced f) ∷ (feed new rest).1)
feed-sealed f rest h =
    let room : 0 + length (sealed f) ≤ 133 = omega (arith, length-sealed f) in
    feed-stuff [] (sealed f) (flag ∷ rest) none room
    ∙ feed-flag (holding (sealed f) none) rest
    ∙ rw (finish_sealed (control f) (wire_body f), parse_covered_lem f h)

-- Every frame whose data field fits is encoded, and the decoder reads it back from the wire with
-- its sequence numbers reduced modulo 8, whatever follows, and is then as good as new.
pub feed-encode :
    (f : AshFrame)
    → FitsDataField f
    → (wire : List ℕ) × (encode f ≡ ok wire)
      × ((rest : List ℕ)
          → feed new (wire ++ rest) ≡ ((feed new rest).0, frame (reduced f) ∷ (feed new rest).1))
feed-encode f h =
    let small : ltb 130 (length (body f)) ≡ false = le→ltb _ _ (omega arith) in
    (
      stuff (sealed f) ++ flag ∷ [],
      encode_lem f ∙ rw small,
      λ rest. rw append_assoc (feed-sealed f rest h),
    )

-- With nothing behind it.
pub feed-encode_alone :
    (f : AshFrame)
    → FitsDataField f
    → (wire : List ℕ) × (encode f ≡ ok wire) × (feed new wire ≡ (new, frame (reduced f) ∷ []))
feed-encode_alone f h =
    let (wire, sent, read) = feed-encode f h in
    (
      wire,
      sent,
      ap (λ (w : List ℕ). feed new w) (sym (append-nil wire)) ∙ read [] ∙ unfold feed in refl,
    )
