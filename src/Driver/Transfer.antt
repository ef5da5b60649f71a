-- ===== src/Driver/Transfer.antt =====
-- The driver's loops against the endpoint that it is written for.
use pcie_systemc_linux.Prelude.{
  ℕ, zero, suc, ◌+◌, ◌*◌, ◌≤◌, ◌<◌, ◌≡◌, refl, ap, sym, ◌∙◌, List, length, length-set, get_or, set,
  tabulate_from, get_or-set_self, get_or-set_ne, eq_of_get_or, arith,
}
use mathlib.Core.Path.{subst}
use native.Mathlib.Decide.{ℕ_discrete}
use pcie_systemc_linux.Prelude.Bytes.{AllWords, get_or-AllWords}
use pcie_systemc_linux.Driver.Kernel.{Mmio}
use pcie_systemc_linux.Driver.Ioctl.{
  write_row, write_rows, read_rows, op1_offset, op2_offset, result_offset,
}
use pcie_systemc_linux.Driver.Contract.{MatrixDevice, Operands, product_word}

-- The first `k` words of a buffer, written over some cells one by one.
module _ (kbuf cells : List ℕ) where
  abbrev filled : ℕ → List ℕ
  filled zero = cells
  filled (suc k) = set (filled k) k (get_or kbuf k 0)

  length-filled : (k : ℕ) → length (filled k) ≡ length cells
  length-filled zero = refl
  length-filled (suc k) = length-set (filled k) k _ ∙ length-filled k

  filled-below : (k p : ℕ) → p < k → k ≤ length cells → get_or (filled k) p 0 ≡ get_or kbuf p 0
  filled-below zero p h l = absurd (omega arith)
  filled-below (suc k) p h l = elim (ℕ_discrete k p) [
    | yes e ↦ rw (← e) (get_or-set_self (filled k) k _ 0 (omega (arith, length-filled k)))
    | no ne ↦ get_or-set_ne (filled k) k p _ 0 ne ∙ filled-below k p (omega arith) (omega arith)
  ]

  filled-all : (k : ℕ) → k ≡ length cells → k ≡ length kbuf → filled k ≡ kbuf
  filled-all k e f =
      eq_of_get_or (filled k) kbuf 0 (length-filled k ∙ sym e ∙ f)
        (λ p h. filled-below k p (omega (arith, length-filled k)) (omega arith))

-- One window of operands: how it is read and replaced, and that a write sets one of its words.
module _ {B : Type 0} (io : Mmio B) (operands : B → Operands) (base : ℕ) (get : Operands → List ℕ)
    (put : Operands → List ℕ → Operands) (get_put : (o : Operands) (x : List ℕ) → get (put o x) ≡ x)
    (put_put : (o : Operands) (x y : List ℕ) → put (put o x) y ≡ put o y)
    (put_get : (o : Operands) → put o (get o) ≡ o) (kbuf : List ℕ)
    (write : (b : B) (k : ℕ)
      → k < 16
      → operands (io.iowrite32 b (get_or kbuf k 0) (base + k * 4))
        ≡ put (operands b) (set (get (operands b)) k (get_or kbuf k 0)))
    (o : Operands) where
  abbrev Written : B → ℕ → Type 0
  Written b k = operands b ≡ put o (filled kbuf (get o) k)

  moved : (b : B) (k k' : ℕ) → k ≡ k' → Written b k → Written b k'
  moved b k k' e w = subst (Written b) e w

  one_more :
      (b : B) (k : ℕ)
      → k < 16
      → Written b k
      → Written (io.iowrite32 b (get_or kbuf k 0) (base + k * 4)) (suc k)
  one_more b k h w =
      write b k h
      ∙ rw (w, get_put) (put_put o (filled kbuf (get o) k) (filled kbuf (get o) (suc k)))

  write_row-Written :
      (rounds i j : ℕ) (b : B)
      → i < 4
      → j + rounds ≡ 4
      → Written b (i * 4 + j)
      → Written (write_row io rounds base i j kbuf b) (i * 4 + 4)
  unfolding write_row
  write_row-Written zero i j b h e w = moved b (i * 4 + j) (i * 4 + 4) (omega arith) w
  write_row-Written (suc rounds) i j b h e w =
      write_row-Written rounds i (j + 1) _ h (omega arith) (
        moved _ (suc (i * 4 + j)) (i * 4 + (j + 1)) (omega arith)
          (one_more b (i * 4 + j) (omega arith) w))

  write_rows-Written :
      (rows i : ℕ) (b : B)
      → i + rows ≡ 4
      → Written b (i * 4)
      → Written (write_rows io rows base i kbuf b) 16
  unfolding write_rows
  write_rows-Written zero i b e w = moved b (i * 4) 16 (omega arith) w
  write_rows-Written (suc rows) i b e w = write_rows-Written rows (i + 1) _ (omega arith) (
      moved _ (i * 4 + 4) ((i + 1) * 4) (omega arith) (
        write_row-Written 4 i 0 b (omega arith) (omega arith)
          (moved b (i * 4) (i * 4 + 0) (omega arith) w)))

  -- The loops of the driver leave the buffer in the window, and nothing else changes.
  pub write_rows-put :
      (b : B)
      → operands b ≡ o
      → length (get o) ≡ 16
      → length kbuf ≡ 16
      → operands (write_rows io 4 base 0 kbuf b) ≡ put o kbuf
  write_rows-put b e l m =
      write_rows-Written 4 0 b (omega arith) (e ∙ sym (put_get o))
      ∙ ap (put o) (filled-all kbuf (get o) 16 (sym l) (sym m))

module _ {B : Type 0} (io : Mmio B) (mmio : ℕ) (device : MatrixDevice io mmio) where
  open device use {operands, IsFresh}

  -- Writing sixteen words to the first window.
  pub write_rows-op1 :
      (kbuf : List ℕ) (b : B)
      → AllWords kbuf
      → length kbuf ≡ 16
      → operands (write_rows io 4 (mmio + op1_offset) 0 kbuf b) ≡ record (operands b) { op1 = kbuf }
  write_rows-op1 kbuf b w h =
      write_rows-put io operands (mmio + op1_offset) (λ o. o.op1) (λ o x. record o { op1 = x })
        (λ o x. refl) (λ o x y. refl) (λ o. refl) kbuf
        (λ b k l. device.write_op1 b (get_or kbuf k 0) k l (get_or-AllWords kbuf k w)) (operands b)
        b refl (device.length_op1 b) h

  -- And to the second.
  pub write_rows-op2 :
      (kbuf : List ℕ) (b : B)
      → AllWords kbuf
      → length kbuf ≡ 16
      → operands (write_rows io 4 (mmio + op2_offset) 0 kbuf b) ≡ record (operands b) { op2 = kbuf }
  write_rows-op2 kbuf b w h =
      write_rows-put io operands (mmio + op2_offset) (λ o. o.op2) (λ o x. record o { op2 = x })
        (λ o x. refl) (λ o x y. refl) (λ o. refl) kbuf
        (λ b k l. device.write_op2 b (get_or kbuf k 0) k l (get_or-AllWords kbuf k w)) (operands b)
        b refl (device.length_op2 b) h

  -- The loops of `IOCTL_GET_RESULT` read the sixteen words of the product, and leave the device as
  -- its first read left it.
  module _ (b : B) (multiplies : (operands b).opcode ≡ 1) where
    abbrev pub after_first : B
    after_first = (io.ioread32 b (mmio + result_offset + 0)).1

    next :
        (k : ℕ)
        → 0 < k
        → k < 16
        → io.ioread32 after_first (mmio + result_offset + k * 4)
          ≡ (product_word (operands b).op1 (operands b).op2 k, after_first)
    next k p q =
        let (_, kept, fresh) = device.read_first b multiplies in
        rw (← kept) (device.read_next after_first k fresh (rw kept multiplies) p q)

    pub read_rows-product :
        read_rows io 4 (mmio + result_offset) 0 b
        ≡ (tabulate_from 16 0 (product_word (operands b).op1 (operands b).op2), after_first)
    unfolding read_rows
    read_rows-product = rw (
      next 1 (omega arith) (omega arith),
      next 2 (omega arith) (omega arith),
      next 3 (omega arith) (omega arith),
      next 4 (omega arith) (omega arith),
      next 5 (omega arith) (omega arith),
      next 6 (omega arith) (omega arith),
      next 7 (omega arith) (omega arith),
      next 8 (omega arith) (omega arith),
      next 9 (omega arith) (omega arith),
      next 10 (omega arith) (omega arith),
      next 11 (omega arith) (omega arith),
      next 12 (omega arith) (omega arith),
      next 13 (omega arith) (omega arith),
      next 14 (omega arith) (omega arith),
      next 15 (omega arith) (omega arith),
      (device.read_first b multiplies).0,
    )
