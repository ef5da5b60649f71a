-- ===== src/App/Runs.antt =====
-- The program through the driver on any device, when its four copies between user and kernel memory
-- succeed.
use pcie_systemc_linux.Prelude.{
  ℕ, ◌+◌, ◌*◌, ◌<◌, ◌≡◌, ap, sym, ◌∙◌, List, [], ◌∷◌, ◌++◌, length, get_or, arith,
}
use pcie_systemc_linux.Prelude.Bytes.{AllWords, le_bytes, words_to_bytes, length-words_to_bytes}
use pcie_systemc_linux.Driver.Kernel.{IoctlAbi, UserSpace, Mmio, Code}
use pcie_systemc_linux.Driver.Ioctl.{
  ioctl_set_op1_matrix, ioctl_set_op2_matrix, ioctl_get_result, ioctl_set_opcode, Called, dev_ioctl,
  op1_offset, op2_offset, result_offset, read_rows,
}
use pcie_systemc_linux.Driver.Dispatch.{
  dev_ioctl-op1, dev_ioctl-op2, dev_ioctl-opcode, dev_ioctl-result,
}
use pcie_systemc_linux.App.Main.{
  Syscalls, Variables, Output, printf, after, attempt, print_numbers, print_result, read_result,
  set_opcode as opcode_call, write_op2, write_op1, main,
}
use pcie_systemc_linux.App.Steps.{
  set_matrix-ok, set_opcode-ok, get_result-ok, library_result, OpensDriver, bus1, bus2, bus3,
}
use pcie_systemc_linux.App.Printed.{table, success_output, print_rows-table}

-- What each part of `main` prints when its call succeeds.
abbrev opening : IoctlAbi → List Output
opening abi = print_numbers abi ++ printf "[APP]: Device opened\n" [] ∷ []

abbrev op1_lines : List Output
op1_lines = printf "[APP]: OP1 matrix written\n" [] ∷ []

abbrev op2_lines : IoctlAbi → List Output
op2_lines abi =
    printf "[APP]: About to call IOCTL_SET_OP2_MATRIX with cmd=0x%x\n"
      (ioctl_set_op2_matrix abi ∷ [])
    ∷ printf "[APP]: ioctl returned: %d\n" (0 ∷ [])
    ∷ printf "[APP]: OP2 matrix written\n" []
    ∷ []

abbrev opcode_lines : ℕ → List Output
opcode_lines opcode = printf "[APP]: Opcode set to %u\n" (opcode ∷ []) ∷ []

abbrev result_lines : List Output
result_lines = printf "[APP]: Result matrix retrieved\n" [] ∷ []

module _ (abi : IoctlAbi) {U B : Type 0} (space : UserSpace U) (io : Mmio B) (mmio : ℕ)
    (sys : Syscalls (U × B)) (fd : ℕ) (driver : OpensDriver abi space io mmio sys fd)
    (var : Variables) (u u' : U) (b bus4 : B) (matrix_a matrix_b words : List ℕ)
    (bounded_a : AllWords matrix_a) (bounded_b : AllWords matrix_b) (count_a : length matrix_a ≡ 16)
    (count_b : length matrix_b ≡ 16)
    (copy_a : space.copy_from_user u var.matrix_a 64 ≡ (0, words_to_bytes matrix_a))
    (copy_b : space.copy_from_user u var.matrix_b 64 ≡ (0, words_to_bytes matrix_b))
    (copy_opcode : space.copy_from_user u var.opcode 4 ≡ (0, le_bytes 4 1))
    (read : read_rows io 4 (mmio + result_offset) 0 (bus3 io mmio matrix_a matrix_b b)
      ≡ (words, bus4))
    (count : length words ≡ 16) (bounded : AllWords words)
    (copy_c : space.copy_to_user u var.matrix_c (words_to_bytes words) ≡ (0, u')) where
  call :
      (cmd arg : ℕ) (s : U) (c : B) (s' : U) (c' : B)
      → dev_ioctl abi space io mmio s c cmd arg ≡ record { code = Code.ok; user = s'; bus = c' }
      → sys.ioctl (s, c) fd cmd arg ≡ (0, (s', c'))
  call cmd arg s c s' c' e =
      driver.calls s c cmd arg ∙ ap (λ (r : Called U B). (library_result r.code, (r.user, r.bus))) e

  -- `main` from each call on, with what it prints.
  from_result :
      read_result abi sys var fd (u, bus3 io mmio matrix_a matrix_b b)
      ≡ after result_lines (print_result abi sys var fd (u', bus4))
  unfolding read_result attempt
  from_result = rw (
      call (ioctl_get_result abi) var.matrix_c u (bus3 io mmio matrix_a matrix_b b) u' bus4 (
        dev_ioctl-result abi space io mmio u (bus3 io mmio matrix_a matrix_b b) var.matrix_c
        ∙ get_result-ok abi space io mmio var.matrix_c u u' (bus3 io mmio matrix_a matrix_b b) bus4
            words read copy_c))

  -- The opcode as the process loads it.
  opcode_lem : sys.load_word (u, bus3 io mmio matrix_a matrix_b b) var.opcode ≡ 1
  opcode_lem =
      let e : var.opcode + 0 * 4 ≡ var.opcode = omega arith in
      ap (sys.load_word (u, bus3 io mmio matrix_a matrix_b b)) (sym e)
      ∙ driver.loads u (bus3 io mmio matrix_a matrix_b b) var.opcode 0 (1 ∷ []) (omega arith, tt)
          copy_opcode (omega arith)

  from_opcode :
      opcode_call abi sys var fd (u, bus2 io mmio matrix_a matrix_b b)
      ≡ after (opcode_lines 1) (read_result abi sys var fd (u, bus3 io mmio matrix_a matrix_b b))
  unfolding opcode_call attempt
  from_opcode = rw (
    call (ioctl_set_opcode abi) var.opcode u (bus2 io mmio matrix_a matrix_b b) u
        (bus3 io mmio matrix_a matrix_b b)
        (dev_ioctl-opcode abi space io mmio u (bus2 io mmio matrix_a matrix_b b) var.opcode
          ∙ set_opcode-ok abi space io mmio var.opcode u (bus2 io mmio matrix_a matrix_b b)
              copy_opcode),
    opcode_lem,
  )

  from_op2 :
      write_op2 abi sys var fd (u, bus1 io mmio matrix_a b)
      ≡ after (op2_lines abi) (opcode_call abi sys var fd (u, bus2 io mmio matrix_a matrix_b b))
  unfolding write_op2 attempt
  from_op2 = rw (
      call (ioctl_set_op2_matrix abi) var.matrix_b u (bus1 io mmio matrix_a b) u
        (bus2 io mmio matrix_a matrix_b b)
        (dev_ioctl-op2 abi space io mmio u (bus1 io mmio matrix_a b) var.matrix_b
          ∙ set_matrix-ok abi space io mmio op2_offset var.matrix_b u (bus1 io mmio matrix_a b)
              matrix_b bounded_b count_b copy_b))

  from_op1 :
      write_op1 abi sys var fd (u, b)
      ≡ after op1_lines (write_op2 abi sys var fd (u, bus1 io mmio matrix_a b))
  unfolding write_op1 attempt
  from_op1 = rw (
      call (ioctl_set_op1_matrix abi) var.matrix_a u b u (bus1 io mmio matrix_a b) (
        dev_ioctl-op1 abi space io mmio u b var.matrix_a
        ∙ set_matrix-ok abi space io mmio op1_offset var.matrix_a u b matrix_a bounded_a count_a
            copy_a))

  from_open : main abi sys var (u, b) ≡ after (opening abi) (write_op1 abi sys var fd (u, b))
  unfolding main
  from_open =
      rw (driver.opens u b, main)
        (ap (λ s. after (opening abi) (write_op1 abi sys var fd s.1)) (driver.opens u b))

  -- The result as the process loads it.
  load-result :
      (k : ℕ) → k < 16 → sys.load_word (u', bus4) (var.matrix_c + k * 4) ≡ get_or words k 0
  load-result k h =
      let e : length (words_to_bytes words) ≡ 4 * length words = length-words_to_bytes words in
      driver.loads u' bus4 var.matrix_c k words bounded
        (ap (space.copy_from_user u' var.matrix_c) (sym e)
          ∙ driver.copies u u' var.matrix_c (words_to_bytes words) copy_c)
        (omega arith)

  at_end : print_result abi sys var fd (u', bus4) ≡ record {
    code = 0;
    output = printf "[APP]: Result matrix:\n" [] ∷ table words;
    state = (u', bus4);
  }
  unfolding print_result
  at_end = rw (driver.closes, print_rows-table sys var (u', bus4) words count load-result)

  -- The program prints what it was copied, and exits with 0.
  pub main_runs :
      main abi sys var (u, b)
      ≡ record { code = 0; output = success_output abi words; state = (u', bus4) }
  main_runs =
      from_open
      ∙ ap (after (opening abi)) (
          from_op1
          ∙ ap (after op1_lines) (
              from_op2
              ∙ ap (after (op2_lines abi)) (
                  from_opcode
                  ∙ ap (after (opcode_lines 1)) (from_result ∙ ap (after result_lines) at_end))))
