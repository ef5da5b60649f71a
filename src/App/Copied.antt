-- ===== src/App/Copied.antt =====
-- What the program's exit code says of the copies between user and kernel memory.
use Prim.Native.String.{String}
use pcie_systemc_linux.Prelude.{
  ℕ, ◌+◌, ◌≡◌, refl, ap, sym, ◌∙◌, ◌↔◌, [], ◌∷◌, inl, inr, Bool-cases, false, List, arith,
}
use pcie_systemc_linux.Prelude.Bytes.{words_to_bytes}
use pcie_systemc_linux.Driver.Kernel.{IoctlAbi, UserSpace, Mmio, Code, ok}
use pcie_systemc_linux.Driver.Ioctl.{
  ioctl_set_op1_matrix, ioctl_set_op2_matrix, ioctl_get_result, ioctl_set_opcode, Called,
  set_matrix, set_opcode, get_result, dev_ioctl, op1_offset, op2_offset, result_offset, read_rows,
}
use pcie_systemc_linux.Driver.Dispatch.{
  dev_ioctl-op1, dev_ioctl-op2, dev_ioctl-opcode, dev_ioctl-result,
}
use pcie_systemc_linux.App.Main.{
  Syscalls, Variables, Output, printf, Exit, is_negative_int, attempt, print_result, read_result,
  set_opcode as opcode_call, write_op2, write_op1, main,
}
use pcie_systemc_linux.App.Steps.{library_result, OpensDriver}

-- The C library's result is negative unless the driver's code is `ok`.
library_result-ok_only : (c : Code) → is_negative_int (library_result c) ≡ false → c ≡ ok
library_result-ok_only Code.ok h = refl
library_result-ok_only Code.efault h = absurd (ground arith)
library_result-ok_only Code.einval h = absurd (ground arith)

library_result-ok : (c : Code) → c ≡ ok → is_negative_int (library_result c) ≡ false
library_result-ok c e = rw e refl

module _ (abi : IoctlAbi) {U B : Type 0} (space : UserSpace U) (io : Mmio B) (mmio : ℕ) where
  -- A call reports success exactly when it has copied every byte.
  set_matrix-copied :
      (offset arg : ℕ) (u : U) (b : B)
      → (set_matrix abi space io mmio offset u b arg).code ≡ ok
        ↔ (space.copy_from_user u arg 64).0 ≡ 0
  unfolding set_matrix
  set_matrix-copied offset arg u b = (ground arith, ground arith)

  set_opcode-copied :
      (arg : ℕ) (u : U) (b : B)
      → (set_opcode abi space io mmio u b arg).code ≡ ok ↔ (space.copy_from_user u arg 4).0 ≡ 0
  unfolding set_opcode
  set_opcode-copied arg u b = (ground arith, ground arith)

  get_result-copied :
      (arg : ℕ) (u : U) (b : B)
      → (get_result abi space io mmio u b arg).code ≡ ok
        ↔ (space.copy_to_user u arg
            (words_to_bytes (read_rows io 4 (mmio + result_offset) 0 b).0)).0
          ≡ 0
  unfolding get_result
  get_result-copied arg u b = (ground arith, ground arith)

  -- Writing leaves user memory as it is.
  set_matrix-user :
      (offset arg : ℕ) (u : U) (b : B) → (set_matrix abi space io mmio offset u b arg).user ≡ u
  unfolding set_matrix
  set_matrix-user offset arg u b = ground arith

  set_opcode-user : (arg : ℕ) (u : U) (b : B) → (set_opcode abi space io mmio u b arg).user ≡ u
  unfolding set_opcode
  set_opcode-user arg u b = ground arith

  -- What the driver copies in full for the program's calls, from each of them on.
  abbrev ResultCopied : Variables → U → B → Type 0
  ResultCopied var u b =
      (space.copy_to_user u var.matrix_c
        (words_to_bytes (read_rows io 4 (mmio + result_offset) 0 b).0)).0
      ≡ 0

  abbrev OpcodeCopied : Variables → U → B → Type 0
  OpcodeCopied var u b =
      ((space.copy_from_user u var.opcode 4).0 ≡ 0)
      × ResultCopied var u (set_opcode abi space io mmio u b var.opcode).bus

  abbrev Op2Copied : Variables → U → B → Type 0
  Op2Copied var u b =
      ((space.copy_from_user u var.matrix_b 64).0 ≡ 0)
      × OpcodeCopied var u (set_matrix abi space io mmio op2_offset u b var.matrix_b).bus

  abbrev pub AllCopied : Variables → U → B → Type 0
  AllCopied var u b =
      ((space.copy_from_user u var.matrix_a 64).0 ≡ 0)
      × Op2Copied var u (set_matrix abi space io mmio op1_offset u b var.matrix_a).bus

  module _ (sys : Syscalls (U × B)) (fd : ℕ) (driver : OpensDriver abi space io mmio sys fd)
      (var : Variables) where
    -- The program exits with 0 from a call on exactly when the call succeeds in the driver and the
    -- program then exits with 0.
    attempt-zero :
        (cmd arg : ℕ) (u : U) (b : B) (r : Called U B) (returned : ℕ → List Output)
        (message : String) (written : U × B → List Output) (next : U × B → Exit (U × B))
        → dev_ioctl abi space io mmio u b cmd arg ≡ r
        → (attempt abi sys var (u, b) fd cmd arg returned message written next).code ≡ 0
          ↔ (r.code ≡ ok) × ((next (r.user, r.bus)).code ≡ 0)
    unfolding attempt
    attempt-zero cmd arg u b r returned message written next e =
        rw (driver.calls u b cmd arg, e)
          (elim (Bool-cases (is_negative_int (library_result r.code))) [
            | inl n ↦ rw n (
              λ h. absurd (omega arith),
              λ h. let e = library_result-ok r.code h.0 in absurd (ground arith),
            )
            | inr n ↦ rw n (λ h. (library_result-ok_only r.code n, h), λ h. h.1)
          ])

    -- The same for a call that leaves user memory as it is, with what both mean for the copies.
    attempt-Copied :
        (cmd arg : ℕ) (u : U) (b : B) (r : Called U B) (returned : ℕ → List Output)
        (message : String) (written : U × B → List Output) (next : U × B → Exit (U × B))
        (Copied Rest : Type 0)
        → dev_ioctl abi space io mmio u b cmd arg ≡ r
        → r.user ≡ u
        → r.code ≡ ok ↔ Copied
        → (next (u, r.bus)).code ≡ 0 ↔ Rest
        → (attempt abi sys var (u, b) fd cmd arg returned message written next).code ≡ 0
          ↔ Copied × Rest
    attempt-Copied cmd arg u b r returned message written next Copied Rest e same copied rest =
        let (only, enough) = attempt-zero cmd arg u b r returned message written next e in
        let after_call = ap (λ v. (next (v, r.bus)).code) same in
        (
          λ h. (copied.0 (only h).0, rest.0 (sym after_call ∙ (only h).1)),
          λ c. enough (copied.1 c.0, after_call ∙ rest.1 c.1),
        )

    -- `main` from each of its calls on.
    from_result :
        (u : U) (b : B) → (read_result abi sys var fd (u, b)).code ≡ 0 ↔ ResultCopied var u b
    unfolding read_result print_result
    from_result u b =
        let r = get_result abi space io mmio u b var.matrix_c in
        let (only, enough) =
          attempt-zero (ioctl_get_result abi) var.matrix_c u b r (λ ret. [])
            "[APP]: IOCTL_GET_RESULT failed"
            (λ s'. printf "[APP]: Result matrix retrieved\n" [] ∷ []) (print_result abi sys var fd)
            (dev_ioctl-result abi space io mmio u b var.matrix_c) in
        let copied = get_result-copied var.matrix_c u b in
        (λ h. copied.0 (only h).0, λ c. enough (copied.1 c, refl))

    from_opcode :
        (u : U) (b : B) → (opcode_call abi sys var fd (u, b)).code ≡ 0 ↔ OpcodeCopied var u b
    unfolding opcode_call
    from_opcode u b =
        let r = set_opcode abi space io mmio u b var.opcode in
        attempt-Copied (ioctl_set_opcode abi) var.opcode u b r (λ ret. [])
          "[APP]: IOCTL_SET_OPCODE failed"
          (λ s'. printf "[APP]: Opcode set to %u\n" (sys.load_word s' var.opcode ∷ []) ∷ [])
          (read_result abi sys var fd) ((space.copy_from_user u var.opcode 4).0 ≡ 0)
          (ResultCopied var u r.bus) (dev_ioctl-opcode abi space io mmio u b var.opcode)
          (set_opcode-user var.opcode u b) (set_opcode-copied var.opcode u b) (from_result u r.bus)

    from_op2 : (u : U) (b : B) → (write_op2 abi sys var fd (u, b)).code ≡ 0 ↔ Op2Copied var u b
    unfolding write_op2
    from_op2 u b =
        let r = set_matrix abi space io mmio op2_offset u b var.matrix_b in
        attempt-Copied (ioctl_set_op2_matrix abi) var.matrix_b u b r
          (λ ret. printf "[APP]: ioctl returned: %d\n" (ret ∷ []) ∷ [])
          "[APP]: IOCTL_SET_OP2_MATRIX failed" (λ s'. printf "[APP]: OP2 matrix written\n" [] ∷ [])
          (opcode_call abi sys var fd) ((space.copy_from_user u var.matrix_b 64).0 ≡ 0)
          (OpcodeCopied var u r.bus) (dev_ioctl-op2 abi space io mmio u b var.matrix_b)
          (set_matrix-user op2_offset var.matrix_b u b)
          (set_matrix-copied op2_offset var.matrix_b u b) (from_opcode u r.bus)

    from_op1 : (u : U) (b : B) → (write_op1 abi sys var fd (u, b)).code ≡ 0 ↔ AllCopied var u b
    unfolding write_op1
    from_op1 u b =
        let r = set_matrix abi space io mmio op1_offset u b var.matrix_a in
        attempt-Copied (ioctl_set_op1_matrix abi) var.matrix_a u b r (λ ret. [])
          "[APP]: IOCTL_SET_OP1_MATRIX failed" (λ s'. printf "[APP]: OP1 matrix written\n" [] ∷ [])
          (write_op2 abi sys var fd) ((space.copy_from_user u var.matrix_a 64).0 ≡ 0)
          (Op2Copied var u r.bus) (dev_ioctl-op1 abi space io mmio u b var.matrix_a)
          (set_matrix-user op1_offset var.matrix_a u b)
          (set_matrix-copied op1_offset var.matrix_a u b) (from_op2 u r.bus)

    main-code :
        (u : U) (b : B) → (main abi sys var (u, b)).code ≡ (write_op1 abi sys var fd (u, b)).code
    unfolding main
    main-code u b =
        rw (driver.opens u b, main)
          (ap (λ s. (write_op1 abi sys var fd s.1).code) (driver.opens u b))

    -- On a system whose `ioctl` on the device file is the driver's, the program exits with 0 exactly
    -- when the driver copies everything in full: `A`, `B` and the opcode from the process, and to it
    -- the words that it then reads from the device.
    pub main-AllCopied : (u : U) (b : B) → (main abi sys var (u, b)).code ≡ 0 ↔ AllCopied var u b
    main-AllCopied u b =
        let (only, enough) = from_op1 u b in
        (λ h. only (sym (main-code u b) ∙ h), λ c. main-code u b ∙ enough c)
