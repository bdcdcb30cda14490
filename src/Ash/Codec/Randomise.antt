-- ===== src/Ash/Codec/Randomise.antt =====
-- `randomise` undoes itself, keeps the length, and keeps bytes bytes.
use rsezsp.Prelude.{ℕ, suc, ◌/◌, ◌<◌, List, [], ◌∷◌, ◌≡◌, refl, ap, ap₂, arith, length, IsBytes}
use rsezsp.Prelude.Bits.{bit_xor-cancel, bit_xor-lt}
use rsezsp.Ash.Codec.{lfsr_next, lfsr_seed, lfsr_poly, randomise_from, randomise}

length-randomise_from : (seed : ℕ) (xs : List ℕ) → length (randomise_from seed xs) ≡ length xs
unfolding randomise_from
length-randomise_from seed [] = refl
length-randomise_from seed (x ∷ xs) = ap suc (length-randomise_from (lfsr_next seed) xs)

pub length-randomise : (xs : List ℕ) → length (randomise xs) ≡ length xs
unfolding randomise
length-randomise xs = length-randomise_from lfsr_seed xs

twice : (seed : ℕ) (xs : List ℕ) → randomise_from seed (randomise_from seed xs) ≡ xs
unfolding randomise_from
twice seed [] = refl
twice seed (x ∷ xs) = ap₂ ◌∷◌ (bit_xor-cancel x seed) (twice (lfsr_next seed) xs)

-- Randomising twice gives the data back.
pub randomise-randomise : (xs : List ℕ) → randomise (randomise xs) ≡ xs
unfolding randomise
randomise-randomise xs = twice lfsr_seed xs

pub lfsr_next-lt : (seed : ℕ) → seed < 256 → lfsr_next seed < 256
unfolding lfsr_next
lfsr_next-lt seed h = ground (arith, bit_xor-lt 8 (seed / 2) lfsr_poly (omega arith) (omega arith))

randomise_from-IsBytes :
    (seed : ℕ) (xs : List ℕ) → seed < 256 → IsBytes xs → IsBytes (randomise_from seed xs)
unfolding randomise_from
randomise_from-IsBytes seed [] s h = tt
randomise_from-IsBytes seed (x ∷ xs) s h = (
  bit_xor-lt 8 x seed h.0 s,
  randomise_from-IsBytes (lfsr_next seed) xs (lfsr_next-lt seed s) h.1,
)

pub randomise-IsBytes : (xs : List ℕ) → IsBytes xs → IsBytes (randomise xs)
unfolding randomise
randomise-IsBytes xs h = randomise_from-IsBytes lfsr_seed xs (omega arith) h
