-- ===== src/Driver/Race.antt =====
-- Two programs in `IOCTL_SET_OP1_MATRIX` at once. The driver takes no lock, so that the register
-- writes of the two calls come in any order.
use mathlib.Core.Path.{subst}
use native.Mathlib.Decide.{ℕ_discrete}
use pcie_systemc_linux.Prelude.{
  ℕ, zero, suc, ◌+◌, ◌*◌, ◌^◌, ◌<◌, ◌≡◌, refl, sym, ap, ◌∙◌, ◌⊎◌, inl, inr, List, length, get_or,
  get_or-set_self, get_or-set_ne, arith,
}
use pcie_systemc_linux.Prelude.Bytes.{AllWords, get_or-AllWords}
use pcie_systemc_linux.Driver.Kernel.{Mmio}
use pcie_systemc_linux.Driver.Ioctl.{write_row, write_rows, op1_offset}
use pcie_systemc_linux.Driver.Contract.{MatrixDevice, Operands}

module _ {B : Type 0} (io : Mmio B) (mmio : ℕ) (first_buf second_buf : List ℕ) (start : B) where
  -- The loops of both calls, after `i` words of the first and `j` of the second.
  pub data Racing : (i j : ℕ) → B → Type 0 where
    begun : Racing 0 0 start
    first :
        {i j : ℕ} {b : B}
        → i < 16
        → Racing i j b
        → Racing (suc i) j (io.iowrite32 b (get_or first_buf i 0) (mmio + op1_offset + i * 4))
    second :
        {i j : ℕ} {b : B}
        → j < 16
        → Racing i j b
        → Racing i (suc j) (io.iowrite32 b (get_or second_buf j 0) (mmio + op1_offset + j * 4))

  moved : (i i' j : ℕ) (b : B) → i ≡ i' → Racing i j b → Racing i' j b
  moved i i' j b e r = subst (λ t. Racing t j b) e r

  write_row-Racing :
      (rounds i k j : ℕ) (b : B)
      → i < 4
      → k + rounds ≡ 4
      → Racing (i * 4 + k) j b
      → Racing (i * 4 + 4) j (write_row io rounds (mmio + op1_offset) i k first_buf b)
  unfolding write_row
  write_row-Racing zero i k j b h e r = moved (i * 4 + k) (i * 4 + 4) j b (omega arith) r
  write_row-Racing (suc rounds) i k j b h e r =
      write_row-Racing rounds i (k + 1) j _ h (omega arith)
        (moved (suc (i * 4 + k)) (i * 4 + (k + 1)) j _ (omega arith) (first (omega arith) r))

  write_rows-Racing :
      (rounds i j : ℕ) (b : B)
      → i + rounds ≡ 4
      → Racing (i * 4) j b
      → Racing 16 j (write_rows io rounds (mmio + op1_offset) i first_buf b)
  unfolding write_rows
  write_rows-Racing zero i j b e r = moved (i * 4) 16 j b (omega arith) r
  write_rows-Racing (suc rounds) i j b e r = write_rows-Racing rounds (i + 1) j _ (omega arith) (
      moved (i * 4 + 4) ((i + 1) * 4) j _ (omega arith) (
        write_row-Racing 4 i 0 j b (omega arith) (omega arith)
          (moved (i * 4) (i * 4 + 0) j b (omega arith) r)))

  -- The loops of the driver are such a run, of the first call alone from wherever the second
  -- stands.
  pub write_rows-runs :
      (j : ℕ) (b : B)
      → Racing 0 j b
      → Racing 16 j (write_rows io 4 (mmio + op1_offset) 0 first_buf b)
  write_rows-runs j b r = write_rows-Racing 4 0 j b refl r

module _ {B : Type 0} (io : Mmio B) (mmio : ℕ) (device : MatrixDevice io mmio)
    (first_buf second_buf : List ℕ) (first_words : AllWords first_buf)
    (second_words : AllWords second_buf) (start : B) where
  open device use {operands}

  abbrev op1_word : B → ℕ → ℕ
  op1_word b k = get_or (operands b).op1 k 0

  -- The word is that of one of the buffers.
  abbrev IsEither : ℕ → ℕ → Type 0
  IsEither k x = (x ≡ get_or first_buf k 0) ⊎ (x ≡ get_or second_buf k 0)

  -- Each word that one of the calls has passed is a word of one of the buffers, and the rest of
  -- the operands is as it was.
  record IsMixed (i j : ℕ) (b : B) : Type 0 where
    mixed : (k : ℕ) → (k < i) ⊎ (k < j) → IsEither k (op1_word b k)
    others :
        ((operands b).op2 ≡ (operands start).op2) × ((operands b).opcode ≡ (operands start).opcode)

  -- A word is written and the others stay.
  module _ (b : B) (v i : ℕ) (h : i < 16) (w : v < 2 ^ 32) where
    abbrev written : B
    written = io.iowrite32 b v (mmio + op1_offset + i * 4)

    word_self : op1_word written i ≡ v
    word_self =
        ap (λ (o : Operands). get_or o.op1 i 0) (device.write_op1 b v i h w)
        ∙ get_or-set_self (operands b).op1 i v 0 (omega (arith, device.length_op1 b))

    word_other : (k : ℕ) → (i ≡ k → ⊥) → op1_word written k ≡ op1_word b k
    word_other k ne =
        ap (λ (o : Operands). get_or o.op1 k 0) (device.write_op1 b v i h w)
        ∙ get_or-set_ne (operands b).op1 i k v 0 ne

    others_kept :
        ((operands written).op2 ≡ (operands b).op2)
        × ((operands written).opcode ≡ (operands b).opcode)
    others_kept = (
      ap (λ (o : Operands). o.op2) (device.write_op1 b v i h w),
      ap (λ (o : Operands). o.opcode) (device.write_op1 b v i h w),
    )

  -- One more word, of either call.
  one_more :
      (i j i' j' p v : ℕ) (b : B)
      → (h : p < 16) → (w : v < 2 ^ 32) → IsEither p v
      → ((k : ℕ) → (k < i') ⊎ (k < j') → (p ≡ k → ⊥) → (k < i) ⊎ (k < j))
      → IsMixed i j b
      → IsMixed i' j' (written b v p h w)
  one_more i j i' j' p v b h w either passed before = record {
    mixed = λ k l. elim (ℕ_discrete p k) [
      | yes e ↦
          subst (λ t. IsEither t (op1_word (written b v p h w) t)) e
            (subst (IsEither p) (sym (word_self b v p h w)) either)
      | no ne ↦
          subst (IsEither k) (sym (word_other b v p h w k ne)) (before.mixed k (passed k l ne))
    ];
    others =
        ((others_kept b v p h w).0 ∙ before.others.0, (others_kept b v p h w).1 ∙ before.others.1);
  }

  Racing-IsMixed :
      (i j : ℕ) (b : B) → Racing io mmio first_buf second_buf start i j b → IsMixed i j b
  Racing-IsMixed _ _ _ begun = record { mixed = λ k h. absurd (grind arith); others = (refl, refl) }
  Racing-IsMixed _ _ _ (first {i} {j} {b} h r) =
      one_more i j (suc i) j i (get_or first_buf i 0) b h (get_or-AllWords first_buf i first_words)
        (inl refl) (λ k l ne. grind arith) (Racing-IsMixed i j b r)
  Racing-IsMixed _ _ _ (second {i} {j} {b} h r) =
      one_more i j i (suc j) j (get_or second_buf j 0) b h
        (get_or-AllWords second_buf j second_words) (inr refl) (λ k l ne. grind arith)
        (Racing-IsMixed i j b r)

  -- Two programs write the first operand at once, each with sixteen 32-bit words. The driver's
  -- loops for one of them alone are one of these runs, and in whatever order the register writes
  -- of the two calls come, the device ends with sixteen words of which each is the word at its
  -- place in one of the two buffers, and with its second operand and its opcode as they were.
  pub Racing-mixed :
      (b : B)
      → Racing io mmio first_buf second_buf start 16 16 b
      → Racing io mmio first_buf second_buf start 16 0
          (write_rows io 4 (mmio + op1_offset) 0 first_buf start)
        × (length (operands b).op1 ≡ 16)
        × ((k : ℕ)
            → k < 16
            → (get_or (operands b).op1 k 0 ≡ get_or first_buf k 0)
              ⊎ (get_or (operands b).op1 k 0 ≡ get_or second_buf k 0))
        × ((operands b).op2 ≡ (operands start).op2)
        × ((operands b).opcode ≡ (operands start).opcode)
  Racing-mixed b r =
      let m = Racing-IsMixed 16 16 b r in
      (
        write_rows-runs io mmio first_buf second_buf start 0 start begun,
        device.length_op1 b,
        λ k h. m.mixed k (inl h),
        m.others.0,
        m.others.1,
      )
