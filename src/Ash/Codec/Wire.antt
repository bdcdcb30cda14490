-- ===== src/Ash/Codec/Wire.antt =====
-- What `encode` writes: no reserved byte but escapes before the closing flag, a bounded length,
-- and data fields of 129 or 130 bytes that no decoder of this crate accepts.
use rsezsp.Prelude.{
  ℕ, ◌+◌, ◌*◌, ◌<◌, ◌≤◌, List, [], ◌∷◌, ◌++◌, ◌≡◌, refl, ap, ◌∙◌, Bool, true, false, arith, ltb,
  le→ltb, All, none, some, length, length-append, ok, err,
}
use rsezsp.Ash.Error.{too_long}
use rsezsp.Ash.Frame.{AshFrame, data_frame, control, body, from_parts}
use rsezsp.Ash.Frame.Control.{control-data_frame, masks-control}
use rsezsp.Ash.Codec.{flag, rejected, new, parse_covered, feed, encode, stuff, wire_body}
use rsezsp.Ash.Codec.Stuffing.{IsInside, stuff-IsInside, length-stuff, holding, feed-stuff}
use rsezsp.Ash.Codec.Decoding.{
  sealed, length-sealed, feed-flag, encode_lem, plain_body, finish_sealed,
}

encode_form :
    (f : AshFrame) (wire : List ℕ)
    → encode f ≡ ok wire
    → (wire ≡ stuff (sealed f) ++ flag ∷ []) × (length (body f) ≤ 130)
encode_form f wire sent = ground (arith, encode_lem f)

long_data :
    (n a : ℕ) (r : Bool) (payload : List ℕ)
    → 128 < length payload
    → from_parts (control (data_frame n a r payload)) payload ≡ err (too_long (length payload) 128)
unfolding from_parts
long_data n a true payload h =
    ground (arith, control-data_frame n a true payload, masks-control (data_frame n a true payload))
long_data n a false payload h =
    ground
      (arith, control-data_frame n a false payload, masks-control (data_frame n a false payload))

-- What is written is a stretch with no flag, cancel, substitute or flow-control byte, then one
-- flag; it is at most twice the frame with its CRC, and the flag.
pub encode_wire :
    (f : AshFrame) (wire : List ℕ)
    → encode f ≡ ok wire
    → (inside : List ℕ) × (wire ≡ inside ++ flag ∷ [])
      × All IsInside inside
      × (length wire ≤ 2 * (length (body f) + 3) + 1)
      × (length wire ≤ 267)
encode_wire f wire sent =
    let (form, small) = encode_form f wire sent in
    let xs = sealed f in
    let grown : (length wire ≤ 2 * (length (body f) + 3) + 1) × (length wire ≤ 267) = omega (
      arith,
      ap length form,
      length-append (stuff xs) (flag ∷ []),
      length-stuff xs,
      length-sealed f,
    ) in
    (stuff xs, form, stuff-IsInside xs, grown.0, grown.1)

encode_small :
    (f : AshFrame) → length (body f) ≤ 130 → encode f ≡ ok (stuff (sealed f) ++ flag ∷ [])
encode_small f h =
    let small : ltb 130 (length (body f)) ≡ false = le→ltb _ _ h in encode_lem f ∙ rw small

parse_long :
    (n a : ℕ) (r : Bool) (payload : List ℕ)
    → 128 < length payload
    → let f = data_frame n a r payload in
      parse_covered (control f ∷ wire_body f) ≡ some (rejected (too_long (length payload) 128))
unfolding parse_covered body
parse_long n a r payload h = rw (plain_body (data_frame n a r payload), long_data n a r payload h)

data_sealed :
    (n a : ℕ) (r : Bool) (payload : List ℕ)
    → length (sealed (data_frame n a r payload)) ≡ length payload + 3
unfolding body
data_sealed n a r payload = length-sealed (data_frame n a r payload)

-- `encode` accepts a data field of 129 or 130 bytes, and the decoder rejects what it wrote.
pub encode_unreadable :
    (n a : ℕ) (r : Bool) (payload : List ℕ)
    → 128 < length payload
    → length payload ≤ 130
    → (wire : List ℕ) × (encode (data_frame n a r payload) ≡ ok wire)
      × (feed new wire ≡ (new, rejected (too_long (length payload) 128) ∷ []))
encode_unreadable n a r payload low high =
    let f = data_frame n a r payload in
    let size : length (sealed f) ≡ length payload + 3 = data_sealed n a r payload in
    let room : 0 + length (sealed f) ≤ 133 = omega (arith, size) in
    (
      stuff (sealed f) ++ flag ∷ [],
      encode_small f (omega (arith, size, length-sealed f)),
      feed-stuff [] (sealed f) (flag ∷ []) none room
          ∙ feed-flag (holding (sealed f) none) []
          ∙ rw (finish_sealed (control f) (wire_body f), parse_long n a r payload low)
              (unfold feed in refl),
    )
