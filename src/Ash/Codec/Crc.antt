-- ===== src/Ash/Codec/Crc.antt =====
-- `crc16` is a bijection in its seed and injective in its byte, so no corruption of one byte
-- leaves the CRC of a message as it was.
use rsezsp.Prelude.{
  ℕ, zero, suc, ◌+◌, ◌*◌, ◌/◌, ◌%◌, ◌^◌, ◌<◌, bit_and, bit_xor, List, [], ◌∷◌, ◌++◌, ◌≡◌, ◌≢◌, sym,
  ap, ◌∙◌, arith, IsByte, if◌then◌else◌, ◌==◌,
}
use rsezsp.Prelude.Bits.{bit_xor-cancel, bit_xor-lt, bit_xor_comm, bit_xor_step, bit_and_power}
use rsezsp.Ash.Codec.{crc16_round, crc16_rounds, crc16, crc16_from, crc16_all}

top_bit : (x : ℕ) → x < 2 ^ 16 → bit_and x 0x8000 ≡ x / 32768 * 32768
top_bit x h =
    let split : x ≡ x / 32768 * 32768 + x % 32768 = omega arith in
    ap (λ (t : ℕ). bit_and t 0x8000) split
    ∙ bit_and_power 15 (x / 32768) (x % 32768) (omega arith) (omega arith)

crc16_round-lt : (x : ℕ) → crc16_round x < 2 ^ 16
unfolding crc16_round
crc16_round-lt x = ground (arith, bit_xor-lt 16 (x * 2 % 2 ^ 16) 0x1021 (omega arith) (omega arith))

-- The round run backwards: the lowest bit tells which branch was taken.
unround : ℕ → ℕ
unround z = if z % 2 == 0 then z / 2 else bit_xor z 0x1021 / 2 + 32768

unround-crc16_round : (x : ℕ) → x < 2 ^ 16 → unround (crc16_round x) ≡ x
unfolding unround crc16_round
unround-crc16_round x h = ground (
  arith,
  top_bit x h,
  bit_xor-cancel (x * 2 % 2 ^ 16) 0x1021,
  bit_xor_step (x * 2 % 2 ^ 16) 0x1021,
)

round_injective : (x y : ℕ) → x < 2 ^ 16 → y < 2 ^ 16 → crc16_round x ≡ crc16_round y → x ≡ y
round_injective x y hx hy e =
    sym (unround-crc16_round x hx) ∙ ap unround e ∙ unround-crc16_round y hy

crc16_rounds-lt : (n x : ℕ) → x < 2 ^ 16 → crc16_rounds n x < 2 ^ 16
unfolding crc16_rounds
crc16_rounds-lt zero x h = h
crc16_rounds-lt (suc n) x h = crc16_rounds-lt n (crc16_round x) (crc16_round-lt x)

rounds_injective :
    (n x y : ℕ) → x < 2 ^ 16 → y < 2 ^ 16 → crc16_rounds n x ≡ crc16_rounds n y → x ≡ y
unfolding crc16_rounds
rounds_injective zero x y hx hy e = e
rounds_injective (suc n) x y hx hy e =
    round_injective x y hx hy
      (rounds_injective n (crc16_round x) (crc16_round y) (crc16_round-lt x) (crc16_round-lt y) e)

-- `^` from the left is injective too.
xor_left_injective : (s x y : ℕ) → bit_xor s x ≡ bit_xor s y → x ≡ y
xor_left_injective s x y e =
    sym (bit_xor-cancel x s)
    ∙ ap (λ (t : ℕ). bit_xor t s) (bit_xor_comm x s ∙ e ∙ bit_xor_comm s y)
    ∙ bit_xor-cancel y s

mixed-lt : (seed byte : ℕ) → seed < 2 ^ 16 → bit_xor seed (byte * 2 ^ 8 % 2 ^ 16) < 2 ^ 16
mixed-lt seed byte h = bit_xor-lt 16 seed (byte * 2 ^ 8 % 2 ^ 16) h (omega arith)

pub crc16-lt : (seed byte : ℕ) → seed < 2 ^ 16 → crc16 seed byte < 2 ^ 16
unfolding crc16
crc16-lt seed byte h =
    crc16_rounds-lt 8 (bit_xor seed (byte * 2 ^ 8 % 2 ^ 16)) (mixed-lt seed byte h)

-- Two seeds that give one CRC after the same byte are one.
crc16_seed_injective :
    (x y byte : ℕ) → x < 2 ^ 16 → y < 2 ^ 16 → crc16 x byte ≡ crc16 y byte → x ≡ y
unfolding crc16
crc16_seed_injective x y byte hx hy e =
    let k = byte * 2 ^ 8 % 2 ^ 16 in
    let same =
      rounds_injective 8 (bit_xor x k) (bit_xor y k) (mixed-lt x byte hx) (mixed-lt y byte hy) e in
    sym (bit_xor-cancel x k) ∙ ap (λ (t : ℕ). bit_xor t k) same ∙ bit_xor-cancel y k

pub crc16_byte_injective :
    (seed a b : ℕ) → seed < 2 ^ 16 → IsByte a → IsByte b → crc16 seed a ≡ crc16 seed b → a ≡ b
unfolding crc16
crc16_byte_injective seed a b hs ha hb e =
    let same = rounds_injective 8 _ _ (mixed-lt seed a hs) (mixed-lt seed b hs) e in
    let words = xor_left_injective seed (a * 2 ^ 8 % 2 ^ 16) (b * 2 ^ 8 % 2 ^ 16) same in
    omega (arith, words)

crc16_from-lt : (seed : ℕ) (xs : List ℕ) → seed < 2 ^ 16 → crc16_from seed xs < 2 ^ 16
unfolding crc16_from
crc16_from-lt seed [] h = h
crc16_from-lt seed (x ∷ xs) h = crc16_from-lt (crc16 seed x) xs (crc16-lt seed x h)

-- The CRC is a `u16`.
pub crc16_all-lt : (xs : List ℕ) → crc16_all xs < 2 ^ 16
unfolding crc16_all
crc16_all-lt xs = crc16_from-lt 0xffff xs (omega arith)

pub crc16_from_seed_injective :
    (x y : ℕ) (xs : List ℕ) → x < 2 ^ 16 → y < 2 ^ 16 → crc16_from x xs ≡ crc16_from y xs → x ≡ y
unfolding crc16_from
crc16_from_seed_injective x y [] hx hy e = e
crc16_from_seed_injective x y (b ∷ bs) hx hy e =
    crc16_seed_injective x y b hx hy
      (crc16_from_seed_injective (crc16 x b) (crc16 y b) bs (crc16-lt x b hx) (crc16-lt y b hy) e)

corrupted_from :
    (seed : ℕ) (before : List ℕ) (a b : ℕ) (after : List ℕ)
    → seed < 2 ^ 16
    → IsByte a
    → IsByte b
    → crc16_from seed (before ++ a ∷ after) ≡ crc16_from seed (before ++ b ∷ after)
    → a ≡ b
unfolding crc16_from
corrupted_from seed [] a b after hs ha hb e = crc16_byte_injective seed a b hs ha hb (
    crc16_from_seed_injective (crc16 seed a) (crc16 seed b) after (crc16-lt seed a hs)
      (crc16-lt seed b hs) e)
corrupted_from seed (x ∷ xs) a b after hs ha hb e =
    corrupted_from (crc16 seed x) xs a b after (crc16-lt seed x hs) ha hb e

-- A message with one byte replaced by another value has another CRC.
crc16_all_one_byte :
    (before : List ℕ) (a b : ℕ) (after : List ℕ)
    → IsByte a
    → IsByte b
    → a ≢ b
    → crc16_all (before ++ a ∷ after) ≢ crc16_all (before ++ b ∷ after)
unfolding crc16_all
crc16_all_one_byte before a b after ha hb ne e =
    ne (corrupted_from 0xffff before a b after (omega arith) ha hb e)
