-- ===== src/Ash/Codec/Stuffing.antt =====
-- Stuffed bytes hold no reserved byte but the escape, and what the decoder collects from them is
-- what was stuffed.
use rsezsp.Prelude.{
  ℕ, ◌+◌, ◌*◌, ◌<◌, ◌≤◌, bit_xor, List, [], ◌∷◌, ◌++◌, ◌≡◌, refl, ◌∙◌, true, false, not, arith,
  if◌then◌else◌, Bool-cases, inl, inr, ◌⊎◌, Option, none, length, All, append_assoc, length-append,
  append-nil,
}
use rsezsp.Prelude.Bits.{bit_xor-cancel}
use rsezsp.Prelude.Masks.{passes_under, passes_under_sound}
use rsezsp.Ash.Error.{AshError}
use rsezsp.Ash.Codec.{
  is_reserved, escape, flip, stuff, Decoder, push, push_plain, feed, max_frame_with_crc,
}

flip_table :
    passes_under (λ b. if is_reserved b then not (is_reserved (bit_xor b flip)) else true) 256
    ≡ true
unfolding passes_under is_reserved
flip_table = refl

reserved-lt : (b : ℕ) → is_reserved b ≡ true → b < 256
unfolding is_reserved
reserved-lt b h = ground arith

-- What is sent after an escape is not reserved.
pub flipped : (b : ℕ) → is_reserved b ≡ true → is_reserved (bit_xor b flip) ≡ false
flipped b h =
    let entry =
      passes_under_sound (λ x. if is_reserved x then not (is_reserved (bit_xor x flip)) else true)
        256 flip_table (reserved-lt b h) in
    ground (arith, entry)

-- A byte that may stand inside a frame on the wire.
abbrev pub IsInside : ℕ → Type 0
IsInside b = (is_reserved b ≡ false) ⊎ (b ≡ escape)

pub stuff-IsInside : (xs : List ℕ) → All IsInside (stuff xs)
unfolding stuff
stuff-IsInside [] = tt
stuff-IsInside (x ∷ xs) = elim (Bool-cases (is_reserved x)) [
  | inl e ↦ rw e (inr refl, (inl (flipped x e), stuff-IsInside xs))
  | inr e ↦ rw e (inl e, stuff-IsInside xs)
]

-- Stuffing at most doubles the length.
pub length-stuff :
    (xs : List ℕ) → (length xs ≤ length (stuff xs)) × (length (stuff xs) ≤ 2 * length xs)
unfolding stuff
length-stuff [] = omega arith
length-stuff (x ∷ xs) = ground (arith, length-stuff xs)

-- The decoder in the middle of a frame, with no escape seen.
abbrev pub holding : List ℕ → Option AshError → Decoder
holding bytes drop = record { partial = bytes; escaped = false; dropping = drop }

-- A byte that is not reserved goes to the frame in progress.
pub push-plain : (d : Decoder) (x : ℕ) → is_reserved x ≡ false → push d x ≡ (push_plain d x, none)
unfolding push is_reserved
push-plain d x r = ground arith

push-held :
    (bytes : List ℕ) (o : Option AshError) (x : ℕ)
    → is_reserved x ≡ false
    → length bytes < max_frame_with_crc
    → push (holding bytes o) x ≡ (holding (bytes ++ x ∷ []) o, none)
push-held bytes o x r h = push-plain (holding bytes o) x r ∙ unfold push_plain in ground arith

push-escape : (d : Decoder) → push d escape ≡ (record d { escaped = true }, none)
unfolding push
push-escape d = refl

push-flipped :
    (bytes : List ℕ) (o : Option AshError) (x : ℕ)
    → is_reserved x ≡ true
    → length bytes < max_frame_with_crc
    → push (record (holding bytes o) { escaped = true }) (bit_xor x flip)
      ≡ (holding (bytes ++ x ∷ []) o, none)
push-flipped bytes o x r h =
    push-plain (record (holding bytes o) { escaped = true }) (bit_xor x flip) (flipped x r)
    ∙ unfold push_plain in ground (arith, bit_xor-cancel x flip)

-- The decoder collects exactly what was stuffed, if it has room for it.
pub feed-stuff :
    (bytes xs rest : List ℕ) (o : Option AshError)
    → length bytes + length xs ≤ max_frame_with_crc
    → feed (holding bytes o) (stuff xs ++ rest) ≡ feed (holding (bytes ++ xs) o) rest
unfolding stuff feed
feed-stuff bytes [] rest o h = rw append-nil
feed-stuff bytes (x ∷ xs) rest o h =
    let room : length (bytes ++ x ∷ []) + length xs ≤ max_frame_with_crc =
      omega (arith, length-append bytes (x ∷ [])) in
    let more : feed (holding (bytes ++ x ∷ []) o) (stuff xs ++ rest)
        ≡ feed (holding (bytes ++ x ∷ xs) o) rest =
      feed-stuff (bytes ++ x ∷ []) xs rest o room ∙ rw append_assoc in
    elim (Bool-cases (is_reserved x)) [
      | inl e ↦ rw (e, push-escape, push-flipped bytes o x e (omega arith)) more
      | inr e ↦ rw (e, push-held bytes o x e (omega arith)) more
    ]
