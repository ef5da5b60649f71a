-- ===== src/App/Calls.antt =====
-- Which calls the program makes, and what it prints last, on every path.
use Prim.Native.String.{String}
use pcie_systemc_linux.Prelude.{
  ℕ, zero, suc, ◌<◌, ◌≡◌, refl, ap, ◌∙◌, sym, Bool, true, false, Bool-cases, inl, inr, Option, none,
  some, List, [], ◌∷◌, ◌++◌, arith,
}
use mathlib.Core.List.{append_assoc}
use pcie_systemc_linux.Driver.Kernel.{IoctlAbi}
use pcie_systemc_linux.Driver.Ioctl.{
  ioctl_set_op1_matrix, ioctl_set_op2_matrix, ioctl_get_result, ioctl_set_opcode,
}
use pcie_systemc_linux.App.Main.{
  Syscalls, Variables, Output, printf, perror, Exit, is_negative_int, after, print_numbers,
  print_rows, attempt, print_result, read_result, set_opcode, write_op2, write_op1, main,
}

pub data Event : Type 0 where
  opened : Option ℕ → Event
  called : (fd cmd arg : ℕ) (negative : Bool) → Event
  closed : ℕ → Event

-- System calls that note what was called, the latest first.
abbrev pub logged : {S : Type 0} → Syscalls S → Syscalls (S × List Event)
logged sys = record {
  open_device = λ s. (let (fd, s') = sys.open_device s.0 in (fd, (s', opened fd ∷ s.1)));
  ioctl = λ s fd cmd arg.
      (let (ret, s') = sys.ioctl s.0 fd cmd arg in
        (ret, (s', called fd cmd arg (is_negative_int ret) ∷ s.1)));
  close = λ s fd. (sys.close s.0 fd, closed fd ∷ s.1);
  load_word = λ s addr. sys.load_word s.0 addr;
}

-- The messages that `perror` printed.
abbrev pub errors : List Output → List String
errors [] = []
errors (printf format words ∷ lines) = errors lines
errors (perror message ∷ lines) = message ∷ errors lines

errors-append : (lines rest : List Output) → errors (lines ++ rest) ≡ errors lines ++ errors rest
errors-append [] rest = refl
errors-append (printf format words ∷ lines) rest = errors-append lines rest
errors-append (perror message ∷ lines) rest = ap (◌∷◌ message) (errors-append lines rest)

-- The number of each call and the variable whose address it passes.
abbrev pub command : IoctlAbi → ℕ → ℕ
command abi zero = ioctl_set_op1_matrix abi
command abi (suc zero) = ioctl_set_op2_matrix abi
command abi (suc (suc zero)) = ioctl_set_opcode abi
command abi (suc (suc (suc k))) = ioctl_get_result abi

abbrev pub argument : Variables → ℕ → ℕ
argument var zero = var.matrix_a
argument var (suc zero) = var.matrix_b
argument var (suc (suc zero)) = var.opcode
argument var (suc (suc (suc k))) = var.matrix_c

-- What the program says of call `k` that failed.
abbrev pub failure : ℕ → String
failure zero = "[APP]: IOCTL_SET_OP1_MATRIX failed"
failure (suc zero) = "[APP]: IOCTL_SET_OP2_MATRIX failed"
failure (suc (suc zero)) = "[APP]: IOCTL_SET_OPCODE failed"
failure (suc (suc (suc k))) = "[APP]: IOCTL_GET_RESULT failed"

module _ (abi : IoctlAbi) (var : Variables) where
  -- The log once the file is open and the first `k` calls have succeeded.
  abbrev pub succeeded : ℕ → ℕ → List Event
  succeeded fd zero = opened (some fd) ∷ []
  succeeded fd (suc k) = called fd (command abi k) (argument var k) false ∷ succeeded fd k

  -- How a run ends: the file did not open, call `k` failed, or all four succeeded and the words
  -- that `C` held before the file was closed were printed last.
  pub data Ended {S : Type 0} (sys : Syscalls S) (r : Exit (S × List Event)) : Type 0 where
    not_opened :
        r.code ≡ 1 → errors r.output ≡ "open" ∷ [] → r.state.1 ≡ opened none ∷ [] → Ended sys r
    call_failed :
        (fd k : ℕ)
        → k < 4
        → r.code ≡ 1
        → errors r.output ≡ failure k ∷ []
        → r.state.1 ≡ closed fd ∷ called fd (command abi k) (argument var k) true ∷ succeeded fd k
        → Ended sys r
    all_succeeded :
        (fd : ℕ) (s : S) (before : List Output)
        → r.code ≡ 0
        → errors r.output ≡ []
        → r.output ≡ before ++ print_rows sys var 4 0 s
        → r.state ≡ (sys.close s fd, closed fd ∷ succeeded fd 4)
        → Ended sys r

  module _ {S : Type 0} (sys : Syscalls S) where
    -- Printing first what is no error changes none of this.
    after-Ended :
        (lines : List Output) (r : Exit (S × List Event))
        → errors lines ≡ []
        → Ended sys r
        → Ended sys (after lines r)
    after-Ended lines r e (not_opened c o s) =
        not_opened c (errors-append lines r.output ∙ rw e o) s
    after-Ended lines r e (call_failed fd k h c o s) =
        call_failed fd k h c (errors-append lines r.output ∙ rw e o) s
    after-Ended lines r e (all_succeeded fd s before c o p l) =
        all_succeeded fd s (lines ++ before) c (errors-append lines r.output ∙ rw e o)
          (ap (λ t. lines ++ t) p ∙ sym (append_assoc lines before (print_rows sys var 4 0 s))) l

    -- One call: it fails, and the file is closed, or the rest of the program runs.
    attempt-Ended :
        (s : S) (fd k : ℕ) (returned : ℕ → List Output) (written : S × List Event → List Output)
        (next : S × List Event → Exit (S × List Event))
        → k < 4
        → ((ret : ℕ) → errors (returned ret) ≡ [])
        → ((t : S × List Event) → errors (written t) ≡ [])
        → ((s' : S) → Ended sys (next (s', succeeded fd (suc k))))
        → Ended sys (
            attempt abi
              (logged sys)
              var
              (s, succeeded fd k)
              fd
              (command abi k)
              (argument var k)
              returned
              (failure k)
              written
              next)
    unfolding attempt
    attempt-Ended s fd k returned written next h quiet silent rest =
        after-Ended (returned ret) _ (quiet ret) (elim (Bool-cases (is_negative_int ret)) [
          | inl e ↦ rw e (call_failed fd k h refl refl refl)
          | inr e ↦ rw e (
              after-Ended (written (s', succeeded fd (suc k))) (next (s', succeeded fd (suc k)))
                (silent (s', succeeded fd (suc k))) (rest s'))
        ])
      where
        ret : ℕ
        ret = (sys.ioctl s fd (command abi k) (argument var k)).0

        s' : S
        s' = (sys.ioctl s fd (command abi k) (argument var k)).1

    print_result-Ended :
        (fd : ℕ) (s : S) → Ended sys (print_result abi (logged sys) var fd (s, succeeded fd 4))
    unfolding print_result
    print_result-Ended fd s =
        all_succeeded fd s (printf "[APP]: Result matrix:\n" [] ∷ []) refl refl refl refl

    read_result-Ended :
        (fd : ℕ) (s : S) → Ended sys (read_result abi (logged sys) var fd (s, succeeded fd 3))
    unfolding read_result
    read_result-Ended fd s =
        attempt-Ended s fd 3 (λ ret. []) (λ t. printf "[APP]: Result matrix retrieved\n" [] ∷ [])
          (print_result abi (logged sys) var fd) (omega arith) (λ ret. refl) (λ t. refl)
          (print_result-Ended fd)

    set_opcode-Ended :
        (fd : ℕ) (s : S) → Ended sys (set_opcode abi (logged sys) var fd (s, succeeded fd 2))
    unfolding set_opcode
    set_opcode-Ended fd s =
        attempt-Ended s fd 2 (λ ret. [])
          (λ t. printf "[APP]: Opcode set to %u\n" (sys.load_word t.0 var.opcode ∷ []) ∷ [])
          (read_result abi (logged sys) var fd) (omega arith) (λ ret. refl) (λ t. refl)
          (read_result-Ended fd)

    write_op2-Ended :
        (fd : ℕ) (s : S) → Ended sys (write_op2 abi (logged sys) var fd (s, succeeded fd 1))
    unfolding write_op2
    write_op2-Ended fd s =
        after-Ended
          (printf "[APP]: About to call IOCTL_SET_OP2_MATRIX with cmd=0x%x\n"
              (ioctl_set_op2_matrix abi ∷ [])
            ∷ [])
          _ refl
          (attempt-Ended s fd 1 (λ ret. printf "[APP]: ioctl returned: %d\n" (ret ∷ []) ∷ [])
            (λ t. printf "[APP]: OP2 matrix written\n" [] ∷ []) (set_opcode abi (logged sys) var fd)
            (omega arith) (λ ret. refl) (λ t. refl) (set_opcode-Ended fd))

    write_op1-Ended :
        (fd : ℕ) (s : S) → Ended sys (write_op1 abi (logged sys) var fd (s, succeeded fd 0))
    unfolding write_op1
    write_op1-Ended fd s =
        attempt-Ended s fd 0 (λ ret. []) (λ t. printf "[APP]: OP1 matrix written\n" [] ∷ [])
          (write_op2 abi (logged sys) var fd) (omega arith) (λ ret. refl) (λ t. refl)
          (write_op2-Ended fd)

    main_from :
        (fd : Option ℕ) (s : S)
        → (sys.open_device s).0 ≡ fd
        → Ended sys (main abi (logged sys) var (s, []))
    unfolding main
    main_from none s e = rw (e, main) (not_opened refl refl (ap (λ t. opened t ∷ []) e))
    main_from (some fd) s e =
        rw (e, main)
          (rw e (
            after-Ended (print_numbers abi ++ printf "[APP]: Device opened\n" [] ∷ [])
              (write_op1 abi (logged sys) var fd ((sys.open_device s).1, succeeded fd 0)) refl
              (write_op1-Ended fd (sys.open_device s).1)))

    -- Whatever the system calls return, the program opens the device first, makes its four calls
    -- in order until one fails, and closes the file once, last, if and only if it was opened; it
    -- exits with 0 exactly when all four calls succeeded, and then prints no error and last the
    -- words that `C` holds, and else it exits with 1, and prints the one error of the call that
    -- failed.
    pub main-Ended : (s : S) → Ended sys (main abi (logged sys) var (s, []))
    main-Ended s = main_from (sys.open_device s).0 s refl
