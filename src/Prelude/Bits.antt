-- ===== src/Prelude/Bits.antt =====
-- `&`, `|` and `^` at variables: the lowest binary digit, from the digit recursion that the native
-- operations stand for, then bounds and cancellation at every width.
use Prim.Native.Nat.{
  ℕ, zero, suc, ◌+◌, ◌*◌, ◌/◌, ◌%◌, ◌^◌, ◌≤◌, ◌<◌, min, max, bit_and, bit_or, bit_xor,
}
use Prim.Native.Nat.{differ, digits, bitwise, bit_and-bitwise, bit_or-bitwise, bit_xor-bitwise}
use mathlib.Core.Path.{◌≡◌, refl, ap, ◌∙◌}
use native.Mathlib.Omega.{arith}
use native.Mathlib.Nat.{le_refl, pow-suc}

-- `digits` counts down while it halves its first number; from the number itself on, a higher count
-- gives the same.
module _ (low : ℕ → ℕ) (join : ℕ → ℕ → ℕ) where
  count-digits :
      (x y small big : ℕ)
      → x ≤ small
      → small ≤ big
      → digits low join big x y ≡ digits low join small x y
  count-digits zero y zero zero hx hs = refl
  count-digits zero y zero (suc big) hx hs = refl
  count-digits zero y (suc small) (suc big) hx hs = refl
  count-digits x y (suc small) zero hx hs = absurd (omega arith)
  count-digits (suc x) y zero big hx hs = absurd (omega arith)
  count-digits (suc x) y (suc small) (suc big) hx hs =
      let halves = count-digits (suc x / 2) (y / 2) small big (omega arith) (omega arith) in
      rw halves

  suc-digits :
      (x y : ℕ)
      → bitwise low join (suc x) y
        ≡ join (suc x % 2) (y % 2) + 2 * bitwise low join (suc x / 2) (y / 2)
  suc-digits x y =
      let h = suc x / 2 in omega (arith, count-digits h (y / 2) h x (le_refl _) (omega arith))

pub bit_or_step : (x y : ℕ) → bit_or x y ≡ max (x % 2) (y % 2) + 2 * bit_or (x / 2) (y / 2)
bit_or_step zero y = omega (arith, bit_or-bitwise 0 y, bit_or-bitwise 0 (y / 2))
bit_or_step (suc x) y = simp bit_or-bitwise (suc-digits (λ z. z) max x y)

pub bit_and_step : (x y : ℕ) → bit_and x y ≡ min (x % 2) (y % 2) + 2 * bit_and (x / 2) (y / 2)
bit_and_step zero y = omega (arith, bit_and-bitwise 0 y, bit_and-bitwise 0 (y / 2))
bit_and_step (suc x) y = simp bit_and-bitwise (suc-digits (λ z. 0) min x y)

differ_digits : (x y : ℕ) → x < 2 → y < 2 → differ x y ≡ (x + y) % 2
differ_digits zero y p q = omega arith
differ_digits (suc zero) zero p q = refl
differ_digits (suc zero) (suc zero) p q = refl
differ_digits (suc zero) (suc (suc y)) p q = absurd (omega arith)
differ_digits (suc (suc x)) y p q = absurd (omega arith)

-- The lowest digit of `^` is the sum of the lowest digits modulo 2.
pub bit_xor_step : (a b : ℕ) → bit_xor a b ≡ bit_xor (a / 2) (b / 2) * 2 + (a % 2 + b % 2) % 2
bit_xor_step zero b = simp bit_xor-bitwise (omega arith)
bit_xor_step (suc a) b = simp bit_xor-bitwise (
    omega (
      arith,
      suc-digits (λ z. z) differ a b,
      differ_digits (suc a % 2) (b % 2) (omega arith) (omega arith),
    ))

pub bit_xor-lt : (k a b : ℕ) → a < 2 ^ k → b < 2 ^ k → bit_xor a b < 2 ^ k
bit_xor-lt zero a b p q =
    let ea : a ≡ 0 = omega arith in let eb : b ≡ 0 = omega arith in rw (ea, eb) (omega arith)
bit_xor-lt (suc k) a b p q =
    let two : 2 ^ suc k ≡ 2 * 2 ^ k = omega (arith, pow-suc 2 k) in
    omega (
      arith,
      two,
      bit_xor_step a b,
      bit_xor-lt k (a / 2) (b / 2) (omega (arith, two)) (omega (arith, two)),
    )

-- A second `^` with the same number undoes the first.
cancel_fuel : (n a b : ℕ) → a ≤ n → b ≤ n → bit_xor (bit_xor a b) b ≡ a
cancel_fuel zero a b p q =
    let ea : a ≡ 0 = omega arith in let eb : b ≡ 0 = omega arith in rw (ea, eb)
cancel_fuel (suc n) a b p q =
    let inner = bit_xor_step a b in
    let half : bit_xor a b / 2 ≡ bit_xor (a / 2) (b / 2) = omega (arith, inner) in
    let digit : bit_xor a b % 2 ≡ (a % 2 + b % 2) % 2 = omega (arith, inner) in
    let smaller = cancel_fuel n (a / 2) (b / 2) (omega arith) (omega arith) in
    bit_xor_step (bit_xor a b) b ∙ rw (half, digit, smaller) (omega arith)

pub bit_xor-cancel : (a b : ℕ) → bit_xor (bit_xor a b) b ≡ a
bit_xor-cancel a b = cancel_fuel (a + b) a b (omega arith) (omega arith)

comm_fuel : (n a b : ℕ) → a ≤ n → b ≤ n → bit_xor a b ≡ bit_xor b a
comm_fuel zero a b p q = let ea : a ≡ 0 = omega arith in let eb : b ≡ 0 = omega arith in rw (ea, eb)
comm_fuel (suc n) a b p q = omega (
  arith,
  bit_xor_step a b,
  bit_xor_step b a,
  comm_fuel n (a / 2) (b / 2) (omega arith) (omega arith),
)

pub bit_xor_comm : (a b : ℕ) → bit_xor a b ≡ bit_xor b a
bit_xor_comm a b = comm_fuel (a + b) a b (omega arith) (omega arith)

-- `& 2^k` reads the top bit of a number of `k + 1` bits.
pub bit_and_power : (k q r : ℕ) → q < 2 → r < 2 ^ k → bit_and (q * 2 ^ k + r) (2 ^ k) ≡ q * 2 ^ k
bit_and_power zero zero r hq hr = let e : r ≡ 0 = omega arith in rw e
bit_and_power zero (suc zero) r hq hr = let e : r ≡ 0 = omega arith in rw e
bit_and_power zero (suc (suc q)) r hq hr = absurd (omega arith)
bit_and_power (suc k) q r hq hr =
    let two : 2 ^ suc k ≡ 2 * 2 ^ k = omega (arith, pow-suc 2 k) in
    let twice : q * 2 ^ suc k ≡ 2 * (q * 2 ^ k) = omega (arith, ap (λ (t : ℕ). q * t) two) in
    let half : 2 ^ suc k / 2 ≡ 2 ^ k = omega (arith, two) in
    let even : 2 ^ suc k % 2 ≡ 0 = omega (arith, two) in
    let halved : (q * 2 ^ suc k + r) / 2 ≡ q * 2 ^ k + r / 2 = omega (arith, twice) in
    let smaller = bit_and_power k q (r / 2) hq (omega (arith, two)) in
    bit_and_step (q * 2 ^ suc k + r) (2 ^ suc k)
    ∙ rw (half, even, halved, smaller) (omega (arith, twice))

bit_or-zero_fuel : (n a : ℕ) → a ≤ n → bit_or a 0 ≡ a
bit_or-zero_fuel zero a h = let e : a ≡ 0 = omega arith in rw e
bit_or-zero_fuel (suc n) a h =
    omega (arith, bit_or_step a 0, bit_or-zero_fuel n (a / 2) (omega arith))

-- `|` is a sum where the second number fits below the lowest digit of the first.
pub bit_or-sum : (k q r : ℕ) → r < 2 ^ k → bit_or (q * 2 ^ k) r ≡ q * 2 ^ k + r
bit_or-sum zero q r h =
    let er : r ≡ 0 = omega arith in
    rw er (omega (arith, bit_or-zero_fuel (q * 1) (q * 1) (le_refl _)))
bit_or-sum (suc k) q r h =
    let two : 2 ^ suc k ≡ 2 * 2 ^ k = omega (arith, pow-suc 2 k) in
    let twice : q * 2 ^ suc k ≡ 2 * (q * 2 ^ k) = omega (arith, ap (λ (t : ℕ). q * t) two) in
    let half : q * 2 ^ suc k / 2 ≡ q * 2 ^ k = omega (arith, twice) in
    let even : q * 2 ^ suc k % 2 ≡ 0 = omega (arith, twice) in
    let smaller = bit_or-sum k q (r / 2) (omega (arith, two)) in
    bit_or_step (q * 2 ^ suc k) r ∙ rw (half, even, smaller) (omega (arith, twice))

bit_and-zero_under : (n a : ℕ) → a ≤ n → bit_and a 0 ≡ 0
bit_and-zero_under zero a h = let e : a ≡ 0 = omega arith in rw e
bit_and-zero_under (suc n) a h =
    omega (arith, bit_and_step a 0, bit_and-zero_under n (a / 2) (omega arith))

-- `&` with a row of ones keeps as many digits, at any width.
low_1 : (x : ℕ) → bit_and x 1 ≡ x % 2
low_1 x = omega (arith, bit_and_step x 1, bit_and-zero_under (x / 2) (x / 2) (le_refl _))

low_2 : (x : ℕ) → bit_and x 3 ≡ x % 4
low_2 x = omega (arith, bit_and_step x 3, low_1 (x / 2))

low_3 : (x : ℕ) → bit_and x 7 ≡ x % 8
low_3 x = omega (arith, bit_and_step x 7, low_2 (x / 2))

low_4 : (x : ℕ) → bit_and x 15 ≡ x % 16
low_4 x = omega (arith, bit_and_step x 15, low_3 (x / 2))

low_5 : (x : ℕ) → bit_and x 31 ≡ x % 32
low_5 x = omega (arith, bit_and_step x 31, low_4 (x / 2))

low_6 : (x : ℕ) → bit_and x 63 ≡ x % 64
low_6 x = omega (arith, bit_and_step x 63, low_5 (x / 2))

low_7 : (x : ℕ) → bit_and x 127 ≡ x % 128
low_7 x = omega (arith, bit_and_step x 127, low_6 (x / 2))

pub bit_and_low_byte : (x : ℕ) → bit_and x 0xff ≡ x % 256
bit_and_low_byte x = omega (arith, bit_and_step x 0xff, low_7 (x / 2))
