-- ===== src/App/EndToEnd.antt =====
-- The program through the driver on the endpoint that the driver is written for.
use pcie_systemc_linux.Prelude.{
  ℕ, ◌+◌, ◌≡◌, ap, ◌∙◌, List, length, tabulate_from, length-tabulate_from, arith,
}
use pcie_systemc_linux.Prelude.Bytes.{AllWords, le_bytes, words_to_bytes, tabulate_from-AllWords}
use pcie_systemc_linux.Driver.Kernel.{IoctlAbi, UserSpace, Mmio}
use pcie_systemc_linux.Driver.Ioctl.{result_offset, read_rows}
use pcie_systemc_linux.Driver.Contract.{MatrixDevice, Operands, product_word}
use pcie_systemc_linux.Driver.Transfer.{
  write_rows-op1, write_rows-op2, read_rows-product, after_first,
}
use pcie_systemc_linux.App.Main.{Syscalls, Variables, Exit, main}
use pcie_systemc_linux.App.Steps.{OpensDriver, bus1, bus2, bus3}
use pcie_systemc_linux.App.Printed.{success_output}
use pcie_systemc_linux.App.Runs.{main_runs}

module _ (abi : IoctlAbi) {U B : Type 0} (space : UserSpace U) (io : Mmio B) (mmio : ℕ)
    (device : MatrixDevice io mmio) (sys : Syscalls (U × B)) (fd : ℕ)
    (driver : OpensDriver abi space io mmio sys fd) (var : Variables) (u u' : U) (b : B)
    (matrix_a matrix_b : List ℕ) (bounded_a : AllWords matrix_a) (bounded_b : AllWords matrix_b)
    (count_a : length matrix_a ≡ 16) (count_b : length matrix_b ≡ 16)
    (copy_a : space.copy_from_user u var.matrix_a 64 ≡ (0, words_to_bytes matrix_a))
    (copy_b : space.copy_from_user u var.matrix_b 64 ≡ (0, words_to_bytes matrix_b))
    (copy_opcode : space.copy_from_user u var.opcode 4 ≡ (0, le_bytes 4 1))
    (copy_c : space.copy_to_user u var.matrix_c
        (words_to_bytes (tabulate_from 16 0 (product_word matrix_a matrix_b)))
      ≡ (0, u')) where
  open device use {operands}

  -- The device when the operands and the opcode are written.
  abbrev ready : B
  ready = bus3 io mmio matrix_a matrix_b b

  operands-ready : operands ready ≡ record { op1 = matrix_a; op2 = matrix_b; opcode = 1 }
  operands-ready =
      device.write_opcode (bus2 io mmio matrix_a matrix_b b) 1 (omega arith)
      ∙ ap (λ (o : Operands). record o { opcode = 1 })
          (write_rows-op2 io mmio device matrix_b (bus1 io mmio matrix_a b) bounded_b count_b
            ∙ ap (λ (o : Operands). record o { op2 = matrix_b })
                (write_rows-op1 io mmio device matrix_a b bounded_a count_a))

  multiplies : (operands ready).opcode ≡ 1
  multiplies = ap (λ (o : Operands). o.opcode) operands-ready

  abbrev finished : B
  finished = after_first io mmio device ready multiplies

  read-ready :
      read_rows io 4 (mmio + result_offset) 0 ready
      ≡ (tabulate_from 16 0 (product_word matrix_a matrix_b), finished)
  read-ready =
      read_rows-product io mmio device ready multiplies
      ∙ ap (λ (o : Operands). (tabulate_from 16 0 (product_word o.op1 o.op2), finished))
          operands-ready

  -- On the endpoint that the driver is written for, whatever it held before, the program copies to
  -- `C` the sixteen words of the product of its operands, of sixteen 32-bit words each, mod 2 ^ 32,
  -- row by row, prints all that it prints without an error, at the end these words in four rows of
  -- four, and exits with 0, provided that its four copies between user and kernel memory succeed.
  pub main_multiplies :
      ((main abi sys var (u, b)).code ≡ 0)
      × ((main abi sys var (u, b)).output
          ≡ success_output abi (tabulate_from 16 0 (product_word matrix_a matrix_b)))
      × ((main abi sys var (u, b)).state.0 ≡ u')
  main_multiplies =
      let ends =
        main_runs abi space io mmio sys fd driver var u u' b finished matrix_a matrix_b _ bounded_a
          bounded_b count_a count_b copy_a copy_b copy_opcode read-ready
          (length-tabulate_from 16 0 (product_word matrix_a matrix_b))
          (tabulate_from-AllWords 16 0 (product_word matrix_a matrix_b) (λ k. omega arith))
          copy_c in
      (
        ap (λ (r : Exit (U × B)). r.code) ends,
        ap (λ (r : Exit (U × B)). r.output) ends,
        ap (λ (r : Exit (U × B)). r.state.0) ends,
      )
