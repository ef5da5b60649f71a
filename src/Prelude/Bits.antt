-- ===== src/Prelude/Bits.antt =====
-- Laws of `bit_and` and `bit_or` at variables, digit by digit.
use Prim.Native.Nat.{
  ℕ, zero, suc, ◌+◌, ◌-◌, ◌*◌, ◌/◌, ◌%◌, ◌^◌, ◌≤◌, ◌<◌, min, max, bit_and, bit_or, digits, bitwise,
  bit_and-bitwise, bit_or-bitwise,
}
use native.Mathlib.Nat.{le_refl, pow-suc}
use mathlib.Core.Path.{◌≡◌, refl, ◌∙◌, ap, ap₂}
use native.Mathlib.Omega.{arith}

-- More fuel than the first operand changes nothing.
module _ (last : ℕ → ℕ) (op : ℕ → ℕ → ℕ) where
  spare_fuel : (n m a b : ℕ) → a ≤ n → a ≤ m → digits last op n a b ≡ digits last op m a b
  spare_fuel n zero zero b p q = at_zero n
    where
      at_zero : (k : ℕ) → digits last op k 0 b ≡ digits last op 0 0 b
      at_zero zero = refl
      at_zero (suc k) = refl
  spare_fuel n zero (suc a) b p q = absurd (omega arith)
  spare_fuel zero (suc m) zero b p q = refl
  spare_fuel zero (suc m) (suc a) b p q = absurd (omega arith)
  spare_fuel (suc n) (suc m) zero b p q = refl
  spare_fuel (suc n) (suc m) (suc a) b p q =
      omega (arith, spare_fuel n m (suc a / 2) (b / 2) (omega arith) (omega arith))

  lowest_digit :
      (a b : ℕ)
      → bitwise last op (suc a) b ≡ bitwise last op (suc a / 2) (b / 2) * 2 + op (suc a % 2) (b % 2)
  lowest_digit a b =
      omega (arith, spare_fuel a (suc a / 2) (suc a / 2) (b / 2) (omega arith) (le_refl _))

pub bit_and_digit : (a b : ℕ) → bit_and a b ≡ 2 * bit_and (a / 2) (b / 2) + min (a % 2) (b % 2)
bit_and_digit zero b = omega (arith, bit_and-bitwise 0 b, bit_and-bitwise 0 (b / 2))
bit_and_digit (suc a) b = omega (
  arith,
  bit_and-bitwise (suc a) b,
  bit_and-bitwise (suc a / 2) (b / 2),
  lowest_digit (λ y. 0) min a b,
)

pub bit_or_digit : (a b : ℕ) → bit_or a b ≡ 2 * bit_or (a / 2) (b / 2) + max (a % 2) (b % 2)
bit_or_digit zero b = omega (arith, bit_or-bitwise 0 b, bit_or-bitwise 0 (b / 2))
bit_or_digit (suc a) b = omega (
  arith,
  bit_or-bitwise (suc a) b,
  bit_or-bitwise (suc a / 2) (b / 2),
  lowest_digit (λ y. y) max a b,
)

bit_and_bound : (n a b : ℕ) → a ≤ n → bit_and a b ≤ a
bit_and_bound n zero b h = omega (arith, bit_and-bitwise 0 b)
bit_and_bound zero (suc a) b h = absurd (omega arith)
bit_and_bound (suc n) (suc a) b h =
    omega (arith, bit_and_digit (suc a) b, bit_and_bound n (suc a / 2) (b / 2) (omega arith))

pub bit_and-le_left : (a b : ℕ) → bit_and a b ≤ a
bit_and-le_left a b = bit_and_bound a a b (le_refl a)

pub bit_and-zero_right : (a : ℕ) → bit_and a 0 ≡ 0
bit_and-zero_right a = go a a (le_refl a)
  where
    go : (n a : ℕ) → a ≤ n → bit_and a 0 ≡ 0
    go n zero h = omega (arith, bit_and-bitwise 0 0)
    go zero (suc a) h = absurd (omega arith)
    go (suc n) (suc a) h = omega (arith, bit_and_digit (suc a) 0, go n (suc a / 2) (omega arith))

pub bit_or-zero_right : (a : ℕ) → bit_or a 0 ≡ a
bit_or-zero_right a = go a a (le_refl a)
  where
    go : (n a : ℕ) → a ≤ n → bit_or a 0 ≡ a
    go n zero h = omega (arith, bit_or-bitwise 0 0)
    go zero (suc a) h = absurd (omega arith)
    go (suc n) (suc a) h = omega (arith, bit_or_digit (suc a) 0, go n (suc a / 2) (omega arith))

pub bit_or-zero_left : (b : ℕ) → bit_or 0 b ≡ b
bit_or-zero_left b = bit_or-bitwise 0 b

pub bit_and-one : (a : ℕ) → bit_and a 1 ≡ a % 2
bit_and-one a = omega (arith, bit_and_digit a 1, bit_and-zero_right (a / 2))

-- A word cut in two at bit `k`: a digit-wise operation works on each part.
module _ (op digit_op : ℕ → ℕ → ℕ)
    (digit : (a b : ℕ) → op a b ≡ 2 * op (a / 2) (b / 2) + digit_op (a % 2) (b % 2))
    (op_zero : op 0 0 ≡ 0) where
  split_at :
      (k h l i m : ℕ)
      → l < 2 ^ k
      → m < 2 ^ k
      → op (h * 2 ^ k + l) (i * 2 ^ k + m) ≡ op h i * 2 ^ k + op l m
  split_at zero h l i m p q = omega (arith, op_zero, ap₂ op low_l low_m, ap₂ op whole_h whole_i)
    where
      low_l : l ≡ 0
      low_l = omega arith

      low_m : m ≡ 0
      low_m = omega arith

      whole_h : h * 2 ^ 0 + l ≡ h
      whole_h = omega arith

      whole_i : i * 2 ^ 0 + m ≡ i
      whole_i = omega arith
  split_at (suc k) h l i m p q = rw (pow-suc 2 k) (
      omega (
        arith,
        pow-suc 2 k,
        digit (h * (2 ^ k * 2) + l) (i * (2 ^ k * 2) + m),
        ap₂ op upper_l upper_m,
        split_at k h (l / 2) i (m / 2) (omega (arith, pow-suc 2 k)) (omega (arith, pow-suc 2 k)),
        digit l m,
        ap₂ digit_op low_l low_m,
      ))
    where
      upper_l : (h * (2 ^ k * 2) + l) / 2 ≡ h * 2 ^ k + l / 2
      upper_l = omega arith

      upper_m : (i * (2 ^ k * 2) + m) / 2 ≡ i * 2 ^ k + m / 2
      upper_m = omega arith

      low_l : (h * (2 ^ k * 2) + l) % 2 ≡ l % 2
      low_l = omega arith

      low_m : (i * (2 ^ k * 2) + m) % 2 ≡ m % 2
      low_m = omega arith

pub bit_and_split :
    (k h l i m : ℕ)
    → l < 2 ^ k
    → m < 2 ^ k
    → bit_and (h * 2 ^ k + l) (i * 2 ^ k + m) ≡ bit_and h i * 2 ^ k + bit_and l m
bit_and_split = split_at bit_and min bit_and_digit refl

pub bit_or_split :
    (k h l i m : ℕ)
    → l < 2 ^ k
    → m < 2 ^ k
    → bit_or (h * 2 ^ k + l) (i * 2 ^ k + m) ≡ bit_or h i * 2 ^ k + bit_or l m
bit_or_split = split_at bit_or max bit_or_digit refl

-- A mask of `k` ones keeps a value below `2 ^ k`.
pub bit_and_ones : (k a : ℕ) → a < 2 ^ k → bit_and a (2 ^ k - 1) ≡ a
bit_and_ones zero a h = omega (arith, bit_and-zero_right a)
bit_and_ones (suc k) a h = omega (
  arith,
  pow-suc 2 k,
  bit_and_digit a (2 ^ suc k - 1),
  ap (bit_and (a / 2)) ones_half,
  bit_and_ones k (a / 2) (omega (arith, pow-suc 2 k)),
)
  where
    ones_half : (2 ^ suc k - 1) / 2 ≡ 2 ^ k - 1
    ones_half = omega (arith, pow-suc 2 k)

-- The bit at place `i`.
abbrev pub bit_at : ℕ → ℕ → ℕ
bit_at a zero = a % 2
bit_at a (suc i) = bit_at (a / 2) i

pub bit_at-le-one : (a i : ℕ) → bit_at a i ≤ 1
bit_at-le-one a zero = omega arith
bit_at-le-one a (suc i) = bit_at-le-one (a / 2) i

pub bit_at-bit_and : (a b i : ℕ) → bit_at (bit_and a b) i ≡ min (bit_at a i) (bit_at b i)
bit_at-bit_and a b zero = omega (arith, bit_and_digit a b)
bit_at-bit_and a b (suc i) =
    ap (λ t. bit_at t i) (omega (arith, bit_and_digit a b)) ∙ bit_at-bit_and (a / 2) (b / 2) i

pub bit_at-bit_or : (a b i : ℕ) → bit_at (bit_or a b) i ≡ max (bit_at a i) (bit_at b i)
bit_at-bit_or a b zero = omega (arith, bit_or_digit a b)
bit_at-bit_or a b (suc i) =
    ap (λ t. bit_at t i) (omega (arith, bit_or_digit a b)) ∙ bit_at-bit_or (a / 2) (b / 2) i

-- The complement of a `w`-bit word.
abbrev pub bit_not : ℕ → ℕ → ℕ
bit_not w a = 2 ^ w - 1 - a

pub bit_at-bit_not : (w a i : ℕ) → a < 2 ^ w → i < w → bit_at (bit_not w a) i ≡ 1 - bit_at a i
bit_at-bit_not zero a i h k = absurd (omega arith)
bit_at-bit_not (suc w) a zero h k = omega (arith, pow-suc 2 w)
bit_at-bit_not (suc w) a (suc i) h k =
    ap (λ t. bit_at t i) halved
    ∙ bit_at-bit_not w (a / 2) i (omega (arith, pow-suc 2 w)) (omega arith)
  where
    halved : (2 ^ suc w - 1 - a) / 2 ≡ 2 ^ w - 1 - a / 2
    halved = omega (arith, pow-suc 2 w)
