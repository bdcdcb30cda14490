-- ===== src/Ash/Codec/Stream.antt =====
-- The decoder over a stream: read boundaries, recovery at a delimiter, and bounds on what it holds
-- and on what it produces.
use rsezsp.Prelude.{
  ℕ, ◌+◌, ◌≤◌, List, [], ◌∷◌, ◌++◌, ◌≡◌, refl, arith, if◌then◌else◌, ◌==◌, Bool-cases, inl, inr,
  Option, none, some, length, append_assoc, length-append, ok, leb, bit_xor,
}
use rsezsp.Ash.Frame.{AshFrame}
use rsezsp.Ash.Frame.RoundTrip.{reduced, FitsDataField}
use rsezsp.Ash.Codec.{
  flag, cancel, Decoded, frame, Decoder, new, push, push_plain, flip, feed, emit, encode,
  max_frame_with_crc,
}
use rsezsp.Ash.Codec.Decoding.{feed-flag, feed-encode_alone}

emit-append : (o : Option Decoded) (xs ys : List Decoded) → emit o (xs ++ ys) ≡ emit o xs ++ ys
emit-append none xs ys = refl
emit-append (some x) xs ys = refl

pub feed-append :
    (d : Decoder) (xs ys : List ℕ)
    → feed d (xs ++ ys) ≡ ((feed (feed d xs).0 ys).0, (feed d xs).1 ++ (feed (feed d xs).0 ys).1)
unfolding feed
feed-append d [] ys = refl
feed-append d (x ∷ xs) ys = rw (feed-append (push d x).0 xs ys, emit-append (push d x).1)

feed-cancel : (d : Decoder) (rest : List ℕ) → feed d (cancel ∷ rest) ≡ feed new rest
unfolding feed push
feed-cancel d rest = refl

-- Whatever came before, good frames or garbage, a flag makes the decoder as good as new, so the
-- frame that follows is read; and what came before has given its results already.
pub recovery :
    (d : Decoder) (junk : List ℕ) (f : AshFrame)
    → FitsDataField f
    → (wire : List ℕ) × (encode f ≡ ok wire)
      × (feed d (junk ++ flag ∷ wire)
          ≡ (new, (feed d (junk ++ flag ∷ [])).1 ++ frame (reduced f) ∷ []))
recovery d junk f h =
    let (wire, sent, read) = feed-encode_alone f h in
    (
      wire,
      sent,
      rw
          (
            feed-append d junk (flag ∷ wire),
            feed-append d junk (flag ∷ []),
            feed-flag,
            feed-flag,
            read,
          )
          (rw (append_assoc, ← emit-append) (unfold feed in refl)),
    )

-- A cancel drops the frame in progress with no result, and the next frame is read.
pub recovery-cancel :
    (d : Decoder) (junk : List ℕ) (f : AshFrame)
    → FitsDataField f
    → (wire : List ℕ) × (encode f ≡ ok wire)
      × (feed d (junk ++ cancel ∷ wire) ≡ (new, (feed d junk).1 ++ frame (reduced f) ∷ []))
recovery-cancel d junk f h =
    let (wire, sent, read) = feed-encode_alone f h in
    (wire, sent, rw (feed-append d junk (cancel ∷ wire), feed-cancel, read))

-- The buffer holds at most MAX_FRAME_WITH_CRC bytes.
abbrev pub IsBounded : Decoder → Type 0
IsBounded d = length d.partial ≤ max_frame_with_crc

push_plain-IsBounded : (d : Decoder) (x : ℕ) → IsBounded d → IsBounded (push_plain d x)
unfolding push_plain
push_plain-IsBounded d x h =
    let byte = if d.escaped then bit_xor x flip else x in
    elim (Bool-cases (leb max_frame_with_crc (length d.partial))) [
      | inl full ↦ rw full h
      | inr room ↦ rw room (ground (arith, length-append d.partial (byte ∷ [])))
    ]

push-IsBounded : (d : Decoder) (x : ℕ) → IsBounded d → IsBounded (push d x).0
unfolding push
push-IsBounded d x h = ground (arith, push_plain-IsBounded d x)

-- Whatever bytes come, a decoder that holds at most 133 bytes (MAX_FRAME_WITH_CRC) holds at most
-- that many afterwards.
pub feed-IsBounded : (d : Decoder) (xs : List ℕ) → IsBounded d → IsBounded (feed d xs).0
unfolding feed
feed-IsBounded d [] h = h
feed-IsBounded d (x ∷ xs) h = feed-IsBounded (push d x).0 xs (push-IsBounded d x h)

-- How many flags a stream has.
abbrev pub flags : List ℕ → ℕ
flags [] = 0
flags (x ∷ xs) = (if x == flag then 1 else 0) + flags xs

push_results :
    (d : Decoder) (x : ℕ) (rest : List Decoded)
    → length (emit (push d x).1 rest) ≤ (if x == flag then 1 else 0) + length rest
unfolding push
push_results d x rest = ground arith

-- No more results than flags: only a delimiter completes a frame.
pub feed_results : (d : Decoder) (xs : List ℕ) → length (feed d xs).1 ≤ flags xs
unfolding feed
feed_results d [] = omega arith
feed_results d (x ∷ xs) =
    omega (arith, push_results d x (feed (push d x).0 xs).1, feed_results (push d x).0 xs)
