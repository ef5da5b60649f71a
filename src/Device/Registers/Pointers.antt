-- ===== src/Device/Registers/Pointers.antt =====
-- The masks and shifts of the pointer registers, as arithmetic.
use pcie_systemc_linux.Prelude.{
  ℕ, ◌+◌, ◌*◌, ◌/◌, ◌%◌, ◌^◌, ◌<◌, ◌≡◌, ap, ap₂, ◌∙◌, bit_and, bit_or, arith,
}
use pcie_systemc_linux.Prelude.Bits.{
  bit_and_split, bit_or_split, bit_and_ones, bit_and-zero_right, bit_or-zero_right,
  bit_or-zero_left,
}
use pcie_systemc_linux.Device.Mmio.{write_low, write_high}

keep_high :
    (h l : ℕ) → h < 2 ^ 32 → l < 2 ^ 32 → bit_and (h * 2 ^ 32 + l) 0xFFFFFFFF00000000 ≡ h * 2 ^ 32
keep_high h l p q = omega (
  arith,
  bit_and_split 32 h l 0xFFFFFFFF 0 q (omega arith),
  bit_and_ones 32 h p,
  bit_and-zero_right l,
)

keep_low : (h l : ℕ) → l < 2 ^ 32 → bit_and (h * 2 ^ 32 + l) 0xFFFFFFFF ≡ l
keep_low h l q = omega (
  arith,
  bit_and_split 32 h l 0 0xFFFFFFFF q (omega arith),
  bit_and_ones 32 l q,
  bit_and-zero_right h,
)

join : (h l : ℕ) → l < 2 ^ 32 → bit_or (h * 2 ^ 32) l ≡ h * 2 ^ 32 + l
join h l q = omega (
  arith,
  ap₂ bit_or first second,
  bit_or_split 32 h 0 0 l (omega arith) q,
  bit_or-zero_right h,
  bit_or-zero_left l,
)
  where
    first : h * 2 ^ 32 ≡ h * 2 ^ 32 + 0
    first = omega arith

    second : l ≡ 0 * 2 ^ 32 + l
    second = omega arith

halves : (p : ℕ) → p ≡ p / 2 ^ 32 * 2 ^ 32 + p % 2 ^ 32
halves p = omega arith

-- A four-byte write replaces the low word.
pub write_low_lem :
    (p v w : ℕ) → p < 2 ^ 64 → v < 2 ^ 32 → write_low p 4 v w ≡ p / 2 ^ 32 * 2 ^ 32 + v
unfolding write_low
write_low_lem p v w hp hv =
    ap (λ t. bit_or t v)
      (ap (λ t. bit_and t 0xFFFFFFFF00000000) (halves p)
        ∙ keep_high (p / 2 ^ 32) (p % 2 ^ 32) (omega arith) (omega arith))
    ∙ join (p / 2 ^ 32) v hv

-- A write four bytes further on replaces the high word.
pub write_high_lem : (p v : ℕ) → p < 2 ^ 64 → v < 2 ^ 32 → write_high p v ≡ v * 2 ^ 32 + p % 2 ^ 32
unfolding write_high
write_high_lem p v hp hv =
    ap (λ t. bit_or t (v * 2 ^ 32))
      (ap (λ t. bit_and t 0xFFFFFFFF) (halves p) ∙ keep_low (p / 2 ^ 32) (p % 2 ^ 32) (omega arith))
    ∙ omega (
      arith,
      ap₂ bit_or first second,
      bit_or_split 32 0 (p % 2 ^ 32) v 0 (omega arith) (omega arith),
      bit_or-zero_right (p % 2 ^ 32),
      bit_or-zero_left v,
    )
  where
    first : p % 2 ^ 32 ≡ 0 * 2 ^ 32 + p % 2 ^ 32
    first = omega arith

    second : v * 2 ^ 32 ≡ v * 2 ^ 32 + 0
    second = omega arith
