-- ===== src/App/Main.antt =====
-- `main` of app.c over the system calls and the process's memory, which are a parameter.
use Prim.Native.String.{String}
use pcie_systemc_linux.Prelude.{
  ℕ, zero, suc, ◌+◌, ◌*◌, ◌^◌, leb, Option, none, some, List, [], ◌∷◌, ◌++◌, if◌then◌else◌, Bool,
}
use pcie_systemc_linux.Driver.Kernel.{IoctlAbi}
use pcie_systemc_linux.Driver.Ioctl.{
  ioctl_set_op1_matrix, ioctl_set_op2_matrix, ioctl_get_result, ioctl_set_opcode,
}

-- `open` of the device file gives a descriptor or fails; `ioctl` gives the `int` that it returns,
-- in 32 bits. `load_word` is the `uint32_t` at an address of the process.
pub record Syscalls (S : Type 0) : Type 0 where
  pub open_device : S → Option ℕ × S
  pub ioctl : S → ℕ → ℕ → ℕ → ℕ × S
  pub close : S → ℕ → S
  pub load_word : S → ℕ → ℕ

-- Where the variables `A`, `B`, `C` and `opcode` lie.
pub record Variables : Type 0 where
  pub matrix_a : ℕ
  pub matrix_b : ℕ
  pub matrix_c : ℕ
  pub opcode : ℕ

-- A call of `printf`, with its format and the words for it, or of `perror`.
pub data Output : Type 0 where
  printf : String → List ℕ → Output
  perror : String → Output

-- The exit code, what was printed, and the system at the end.
pub record Exit (S : Type 0) : Type 0 where
  pub code : ℕ
  pub output : List Output
  pub state : S

-- The operands of the program.
abbrev pub operand_a : List ℕ
operand_a = 122 ∷ 2 ∷ 3 ∷ 4 ∷ 57 ∷ 6 ∷ 7 ∷ 82 ∷ 9 ∷ 171 ∷ 252 ∷ 37 ∷ 4 ∷ 52 ∷ 6 ∷ 7 ∷ []

abbrev pub operand_b : List ℕ
operand_b = 1 ∷ 100 ∷ 0 ∷ 0 ∷ 100 ∷ 1 ∷ 0 ∷ 0 ∷ 0 ∷ 20 ∷ 1 ∷ 0 ∷ 0 ∷ 0 ∷ 0 ∷ 301 ∷ []

abbrev pub is_negative_int : ℕ → Bool
is_negative_int ret = leb (2 ^ 31) ret

-- The rest of a run, with what is printed before it.
abbrev pub after : {S : Type 0} → List Output → Exit S → Exit S
after lines r = record r { output = lines ++ r.output }

-- The four numbers, printed first.
abbrev pub print_numbers : IoctlAbi → List Output
print_numbers abi =
    printf "[APP]: IOCTL_SET_OP1_MATRIX = 0x%x\n" (ioctl_set_op1_matrix abi ∷ [])
    ∷ printf "[APP]: IOCTL_SET_OP2_MATRIX = 0x%x\n" (ioctl_set_op2_matrix abi ∷ [])
    ∷ printf "[APP]: IOCTL_GET_RESULT     = 0x%x\n" (ioctl_get_result abi ∷ [])
    ∷ printf "[APP]: IOCTL_SET_OPCODE     = 0x%x\n" (ioctl_set_opcode abi ∷ [])
    ∷ []

module _ {S : Type 0} (sys : Syscalls S) (var : Variables) where
  -- The loops that print `C`: row `i` from column `j` on, and the rows from `i` on.
  abbrev pub print_row : ℕ → ℕ → ℕ → S → List Output
  print_row zero i j s = printf "\n" [] ∷ []
  print_row (suc rounds) i j s =
      printf "%6u " (sys.load_word s (var.matrix_c + (i * 4 + j) * 4) ∷ [])
      ∷ print_row rounds i (j + 1) s

  abbrev pub print_rows : ℕ → ℕ → S → List Output
  print_rows zero i s = []
  print_rows (suc rows) i s = print_row 4 i 0 s ++ print_rows rows (i + 1) s

module _ (abi : IoctlAbi) {S : Type 0} (sys : Syscalls S) (var : Variables) where
  -- A call, what is printed once it has returned, and the exit with the file closed if it failed
  -- or what is printed if it has not, and the rest.
  unfoldable pub attempt :
      S → ℕ → ℕ → ℕ → (ℕ → List Output) → String → (S → List Output) → (S → Exit S) → Exit S
  attempt s fd cmd arg returned message written next =
      let (ret, s') = sys.ioctl s fd cmd arg in
      after (returned ret) (
        if is_negative_int ret
        then record { code = 1; output = perror message ∷ []; state = sys.close s' fd }
        else after (written s') (next s'))

  -- The end of `main`, after all four calls.
  unfoldable pub print_result : ℕ → S → Exit S
  print_result fd s = record {
    code = 0;
    output = printf "[APP]: Result matrix:\n" [] ∷ print_rows sys var 4 0 s;
    state = sys.close s fd;
  }

  -- `main` from each of its calls on.
  unfoldable pub read_result : ℕ → S → Exit S
  unfolding attempt print_result
  read_result fd s =
      attempt s fd (ioctl_get_result abi) var.matrix_c (λ ret. []) "[APP]: IOCTL_GET_RESULT failed"
        (λ s'. printf "[APP]: Result matrix retrieved\n" [] ∷ []) (print_result fd)

  unfoldable pub set_opcode : ℕ → S → Exit S
  unfolding attempt read_result
  set_opcode fd s =
      attempt s fd (ioctl_set_opcode abi) var.opcode (λ ret. []) "[APP]: IOCTL_SET_OPCODE failed"
        (λ s'. printf "[APP]: Opcode set to %u\n" (sys.load_word s' var.opcode ∷ []) ∷ [])
        (read_result fd)

  unfoldable pub write_op2 : ℕ → S → Exit S
  unfolding attempt set_opcode
  write_op2 fd s =
      after
        (printf "[APP]: About to call IOCTL_SET_OP2_MATRIX with cmd=0x%x\n"
            (ioctl_set_op2_matrix abi ∷ [])
          ∷ [])
        (attempt s fd (ioctl_set_op2_matrix abi) var.matrix_b
          (λ ret. printf "[APP]: ioctl returned: %d\n" (ret ∷ []) ∷ [])
          "[APP]: IOCTL_SET_OP2_MATRIX failed" (λ s'. printf "[APP]: OP2 matrix written\n" [] ∷ [])
          (set_opcode fd))

  unfoldable pub write_op1 : ℕ → S → Exit S
  unfolding attempt write_op2
  write_op1 fd s =
      attempt s fd (ioctl_set_op1_matrix abi) var.matrix_a (λ ret. [])
        "[APP]: IOCTL_SET_OP1_MATRIX failed" (λ s'. printf "[APP]: OP1 matrix written\n" [] ∷ [])
        (write_op2 fd)

  unfoldable pub main : S → Exit S
  unfolding write_op1
  main s =
      let (fd, s') = sys.open_device s in
      after (print_numbers abi) (elim fd [
        | none ↦ record { code = 1; output = perror "open" ∷ []; state = s' }
        | some fd ↦ after (printf "[APP]: Device opened\n" [] ∷ []) (write_op1 fd s')
      ])
