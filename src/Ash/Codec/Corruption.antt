-- ===== src/Ash/Codec/Corruption.antt =====
-- A frame of which one byte was changed before stuffing, CRC included, is rejected.
use rsezsp.Prelude.{
  ℕ, suc, ◌+◌, ◌-◌, ◌/◌, ◌%◌, ◌^◌, ◌<◌, ◌≤◌, List, [], ◌∷◌, ◌++◌, ◌≡◌, ◌≢◌, refl, sym, ap, ◌∙◌,
  false, arith, if◌then◌else◌, ◌==◌, ==_ne, inl, inr, ◌⊎◌, ltb, le→ltb, IsByte, none, some, length,
  take-append, drop-append, length-append,
}
use rsezsp.Prelude.Words.{from_be_bytes}
use rsezsp.Ash.Error.{bad_crc}
use rsezsp.Ash.Frame.{AshFrame, control}
use rsezsp.Ash.Frame.RoundTrip.{FitsDataField}
use rsezsp.Ash.Codec.{
  flag, rejected, new, finish, check_crc, parse_covered, feed, stuff, max_frame_with_crc, crc16,
  crc16_from, crc16_all, wire_body,
}
use rsezsp.Ash.Codec.Crc.{crc16-lt, crc16_all-lt, crc16_byte_injective, crc16_from_seed_injective}
use rsezsp.Ash.Codec.Stuffing.{holding, feed-stuff}
use rsezsp.Ash.Codec.Decoding.{sealed, length-sealed, feed-flag}

-- The two lists differ in one place, where both hold a byte.
abbrev pub OneByte : List ℕ → List ℕ → Type 0
OneByte [] ys = ⊥
OneByte (x ∷ xs) [] = ⊥
OneByte (x ∷ xs) (y ∷ ys) = ((x ≢ y) × IsByte x × IsByte y × (xs ≡ ys)) ⊎ ((x ≡ y) × OneByte xs ys)

pub length-OneByte : (xs ys : List ℕ) → OneByte xs ys → length ys ≡ length xs
length-OneByte [] ys h = absurd h
length-OneByte (x ∷ xs) [] h = absurd h
length-OneByte (x ∷ xs) (y ∷ ys) (inl h) = ap suc (ap length (sym h.3))
length-OneByte (x ∷ xs) (y ∷ ys) (inr h) = ap suc (length-OneByte xs ys h.1)

-- A list that ends in a word that is not the CRC of the rest.
abbrev BadlySealed : ℕ → ℕ → List ℕ → Type 0
BadlySealed seed n ys =
    (u : List ℕ) × (hi : ℕ) × (lo : ℕ) × (ys ≡ u ++ hi ∷ lo ∷ [])
    × (length u ≡ n)
    × (crc16_from seed u ≢ from_be_bytes hi lo)

broken :
    (seed : ℕ) (u : List ℕ) (hi lo : ℕ) (ys : List ℕ)
    → seed < 2 ^ 16
    → crc16_from seed u ≡ from_be_bytes hi lo
    → OneByte (u ++ hi ∷ lo ∷ []) ys
    → BadlySealed seed (length u) ys
unfolding crc16_from
broken seed [] hi lo [] s e h = absurd h
broken seed [] hi lo (y ∷ ys) s e (inl h) =
    ([], y, lo, ap (◌∷◌ y) (sym h.3), refl, λ same. h.0 (omega arith))
broken seed [] hi lo (y ∷ []) s e (inr h) = absurd h.1
broken seed [] hi lo (y ∷ z ∷ ys) s e (inr (p, inl h)) =
    ([], y, z, ap (λ (t : List ℕ). y ∷ z ∷ t) (sym h.3), refl, λ same. h.0 (omega arith))
broken seed [] hi lo (y ∷ z ∷ ys) s e (inr (p, inr h)) = absurd h.1
broken seed (x ∷ u) hi lo [] s e h = absurd h
broken seed (x ∷ u) hi lo (y ∷ ys) s e (inl h) = (
  y ∷ u,
  hi,
  lo,
  ap (◌∷◌ y) (sym h.3),
  refl,
  λ same. h.0 (
      crc16_byte_injective seed x y s h.1 h.2 (
        crc16_from_seed_injective (crc16 seed x) (crc16 seed y) u (crc16-lt seed x s)
          (crc16-lt seed y s) (e ∙ sym same))),
)
broken seed (x ∷ u) hi lo (y ∷ ys) s e (inr h) =
    let (u', hi', lo', parts, len, ne) =
      broken (crc16 seed x) u hi lo ys (crc16-lt seed x s) e h.1 in
    (
      y ∷ u',
      hi',
      lo',
      ap (◌∷◌ y) parts,
      ap suc len,
      λ same. ne (ap (λ (t : ℕ). crc16_from (crc16 seed t) u') h.0 ∙ same),
    )

-- `finish` on a buffer of three bytes or more is the check of the last two against the CRC.
finish_checked :
    (c : ℕ) (u : List ℕ) (hi lo : ℕ)
    → finish (holding ((c ∷ u) ++ hi ∷ lo ∷ []) none) ≡ (
        if crc16_all (c ∷ u) == from_be_bytes hi lo
        then parse_covered (c ∷ u)
        else some (rejected (bad_crc (crc16_all (c ∷ u)) (from_be_bytes hi lo))))
unfolding finish check_crc
finish_checked c u hi lo =
    let crc : List ℕ = hi ∷ lo ∷ [] in
    let len = length-append u crc in
    let short : ltb (length ((c ∷ u) ++ crc)) 3 ≡ false = le→ltb _ _ (omega (arith, len)) in
    let split : length ((c ∷ u) ++ crc) - 2 ≡ length (c ∷ u) = omega (arith, len) in
    rw (short, split, take-append (c ∷ u) crc, drop-append (c ∷ u) crc)

finish_broken :
    (n : ℕ) (ys : List ℕ)
    → BadlySealed 0xffff (suc n) ys
    → (computed : ℕ) × (carried : ℕ) × (finish (holding ys none)
        ≡ some (rejected (bad_crc computed carried)))
finish_broken n ys ([], hi, lo, parts, len, ne) = absurd (omega arith)
finish_broken n ys (c ∷ u, hi, lo, parts, len, ne) =
    let wrong : (crc16_all (c ∷ u) == from_be_bytes hi lo) ≡ false =
      ==_ne _ _ (unfold crc16_all in ne) in
    (crc16_all (c ∷ u), from_be_bytes hi lo, rw (parts, finish_checked c u hi lo, wrong))

-- A frame of which one byte was changed, in the control byte, the body or the CRC, is reported as
-- a CRC mismatch, whatever follows, and the decoder goes on as good as new.
pub feed_corrupted :
    (f : AshFrame) (bytes rest : List ℕ)
    → FitsDataField f
    → OneByte (sealed f) bytes
    → (computed : ℕ) × (carried : ℕ) × (feed new (stuff bytes ++ flag ∷ rest)
        ≡ ((feed new rest).0, rejected (bad_crc computed carried) ∷ (feed new rest).1))
feed_corrupted f bytes rest h differ =
    let u = control f ∷ wire_body f in
    let crc = crc16_all u in
    let word : crc ≡ from_be_bytes (crc / 256 % 256) (crc % 256) = omega (arith, crc16_all-lt u) in
    let bad =
      broken 0xffff u (crc / 256 % 256) (crc % 256) bytes (omega arith) (unfold crc16_all in word)
        differ in
    let (computed, carried, finished) = finish_broken (length (wire_body f)) bytes bad in
    let room : 0 + length bytes ≤ max_frame_with_crc =
      omega (arith, length-sealed f, length-OneByte (sealed f) bytes differ) in
    (
      computed,
      carried,
      feed-stuff [] bytes (flag ∷ rest) none room
          ∙ feed-flag (holding bytes none) rest
          ∙ rw finished,
    )
