-- ===== src/App/Printed.antt =====
-- What the program prints when every call succeeds.
use pcie_systemc_linux.Prelude.{
  tabulate_from-get_or, ℕ, ◌+◌, ◌*◌, ◌<◌, ◌≡◌, ap, List, [], ◌∷◌, ◌++◌, length, get_or, arith,
}
use pcie_systemc_linux.Driver.Kernel.{IoctlAbi}
use pcie_systemc_linux.Driver.Ioctl.{ioctl_set_op2_matrix}
use pcie_systemc_linux.App.Main.{Syscalls, Variables, Output, printf, print_numbers, print_rows}

-- A matrix of four columns as the program prints it.
abbrev pub table : List ℕ → List Output
table (v ∷ w ∷ x ∷ y ∷ words) =
    printf "%6u " (v ∷ [])
    ∷ printf "%6u " (w ∷ [])
    ∷ printf "%6u " (x ∷ [])
    ∷ printf "%6u " (y ∷ [])
    ∷ printf "\n" []
    ∷ table words
table _ = []

-- All that the program prints when nothing fails and the result is `words`.
abbrev pub success_output : IoctlAbi → List ℕ → List Output
success_output abi words =
    print_numbers abi
    ++ printf "[APP]: Device opened\n" []
      ∷ printf "[APP]: OP1 matrix written\n" []
      ∷ printf "[APP]: About to call IOCTL_SET_OP2_MATRIX with cmd=0x%x\n"
          (ioctl_set_op2_matrix abi ∷ [])
      ∷ printf "[APP]: ioctl returned: %d\n" (0 ∷ [])
      ∷ printf "[APP]: OP2 matrix written\n" []
      ∷ printf "[APP]: Opcode set to %u\n" (1 ∷ [])
      ∷ printf "[APP]: Result matrix retrieved\n" []
      ∷ printf "[APP]: Result matrix:\n" []
      ∷ table words

-- The loops print the words that the process loads, row by row.
pub print_rows-table :
    {S : Type 0} (sys : Syscalls S) (var : Variables) (s : S) (words : List ℕ)
    → length words ≡ 16
    → ((k : ℕ) → k < 16 → sys.load_word s (var.matrix_c + k * 4) ≡ get_or words k 0)
    → print_rows sys var 4 0 s ≡ table words
print_rows-table sys var s words count load =
    rw
      (
        load 0 (omega arith),
        load 1 (omega arith),
        load 2 (omega arith),
        load 3 (omega arith),
        load 4 (omega arith),
        load 5 (omega arith),
        load 6 (omega arith),
        load 7 (omega arith),
        load 8 (omega arith),
        load 9 (omega arith),
        load 10 (omega arith),
        load 11 (omega arith),
        load 12 (omega arith),
        load 13 (omega arith),
        load 14 (omega arith),
        load 15 (omega arith),
      )
      (ap table (tabulate_from-get_or words 16 0 count))
