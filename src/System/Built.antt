-- ===== src/System/Built.antt =====
-- The driver on what main.cc builds: the monitor with the target behind it.
use pcie_systemc_linux.Prelude.{
  ℕ, ◌+◌, ◌*◌, ◌^◌, ◌<◌, ◌≡◌, ap, ◌∙◌, List, length, replicate, length-replicate, arith,
}
use pcie_systemc_linux.Prelude.Bytes.{AllWords, le_bytes, words_to_bytes, replicate-AllWords}
use pcie_systemc_linux.Driver.Kernel.{IoctlAbi, UserSpace, Mmio}
use pcie_systemc_linux.Driver.Ioctl.{read_rows, result_offset}
use pcie_systemc_linux.Driver.Bus.{Reaches, read_rows-replicate}
use pcie_systemc_linux.Server.Target.{b_transport, example_data}
use pcie_systemc_linux.Server.Monitor
use pcie_systemc_linux.Server.Monitor.{Monitored}
use pcie_systemc_linux.App.Main.{Syscalls, Variables, Exit, main}
use pcie_systemc_linux.App.Steps.{OpensDriver, bus3}
use pcie_systemc_linux.App.Printed.{success_output}
use pcie_systemc_linux.App.Runs.{main_runs}

module _ (behind : List ℕ) (io : Mmio (Monitored (List (List ℕ)))) (mmio : ℕ)
    (bus : Reaches (Monitor.b_transport (b_transport behind)) io mmio) where
  read_word :
      (s : Monitored (List (List ℕ))) (offset : ℕ)
      → offset < 2 ^ 20
      → (io.ioread32 s (mmio + offset)).0 ≡ example_data
  unfolding Monitor.b_transport b_transport
  read_word s offset h = ap (λ t. t.0) (bus.reads s offset h)

  pub result_word :
      (s : Monitored (List (List ℕ))) (k : ℕ)
      → k < 16
      → (io.ioread32 s (mmio + result_offset + k * 4)).0 ≡ example_data
  result_word s k h =
      let e : mmio + result_offset + k * 4 ≡ mmio + (result_offset + k * 4) = omega arith in
      ap (λ a. (io.ioread32 s a).0) e ∙ read_word s (result_offset + k * 4) (omega arith)

  -- On what main.cc builds, the program exits with 0, has been given sixteen times the word
  -- 0xABCD1234 as the product of its operands, of sixteen 32-bit words each, whatever they are, and
  -- prints that, without an error, as the result, provided that its four copies between user and
  -- kernel memory succeed.
  pub main-example_data :
      (abi : IoctlAbi) {U : Type 0} (space : UserSpace U)
      (sys : Syscalls (U × Monitored (List (List ℕ)))) (fd : ℕ)
      (driver : OpensDriver abi space io mmio sys fd) (var : Variables) (u u' : U)
      (s : Monitored (List (List ℕ))) (matrix_a matrix_b : List ℕ)
      → AllWords matrix_a
      → AllWords matrix_b
      → length matrix_a ≡ 16
      → length matrix_b ≡ 16
      → space.copy_from_user u var.matrix_a 64 ≡ (0, words_to_bytes matrix_a)
      → space.copy_from_user u var.matrix_b 64 ≡ (0, words_to_bytes matrix_b)
      → space.copy_from_user u var.opcode 4 ≡ (0, le_bytes 4 1)
      → space.copy_to_user u var.matrix_c (words_to_bytes (replicate 16 example_data)) ≡ (0, u')
      → ((main abi sys var (u, s)).code ≡ 0)
        × ((main abi sys var (u, s)).output ≡ success_output abi (replicate 16 example_data))
        × ((main abi sys var (u, s)).state.0 ≡ u')
  main-example_data abi {U = U} space sys fd driver var u u' s matrix_a matrix_b wa wb ca cb pa pb
        po pc =
      let ends =
        main_runs abi space io mmio sys fd driver var u u' s read.1 matrix_a matrix_b words wa wb ca
          cb pa pb po given (length-replicate 16 example_data)
          (replicate-AllWords 16 example_data (omega arith)) pc in
      (
        ap (λ (r : Exit (U × Monitored (List (List ℕ)))). r.code) ends,
        ap (λ (r : Exit (U × Monitored (List (List ℕ)))). r.output) ends,
        ap (λ (r : Exit (U × Monitored (List (List ℕ)))). r.state.0) ends,
      )
    where
      words : List ℕ
      words = replicate 16 example_data

      read : List ℕ × Monitored (List (List ℕ))
      read = read_rows io 4 (mmio + result_offset) 0 (bus3 io mmio matrix_a matrix_b s)

      given :
          read_rows io 4 (mmio + result_offset) 0 (bus3 io mmio matrix_a matrix_b s)
          ≡ (words, read.1)
      given =
          ap (λ t. (t, read.1))
            (read_rows-replicate io (mmio + result_offset) example_data result_word _)
