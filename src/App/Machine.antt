-- ===== src/App/Machine.antt =====
-- A machine for the program to run on: user memory as bytes, with the driver behind a descriptor.
use pcie_systemc_linux.Prelude.{
  ℕ, zero, suc, ◌+◌, ◌*◌, ◌<◌, ◌≡◌, refl, ap, sym, ◌∙◌, some, List, [], ◌∷◌, ◌++◌, length, get_or,
  get_or-tabulate_from, tabulate_from, tabulate_from-ap, replicate, arith,
}
use pcie_systemc_linux.Prelude.Bytes.{
  AllWords, from_le, from_le-le_bytes4, words_to_bytes, le_bytes,
}
use pcie_systemc_linux.Driver.Kernel.{UserSpace, Mmio}
use pcie_systemc_linux.Driver.Abi.{linux_abi}
use pcie_systemc_linux.Driver.Ioctl.{fops}
use pcie_systemc_linux.Testbench.Memory.{HostMemory, load, store}
use pcie_systemc_linux.Testbench.Ranges.{load-store}
use pcie_systemc_linux.App.Main.{Syscalls, Variables, operand_a, operand_b}
use pcie_systemc_linux.App.Steps.{OpensDriver, library_result}

abbrev pub user_space : UserSpace HostMemory
user_space = record {
  copy_from_user = λ u addr len. (0, load u addr len);
  copy_to_user = λ u addr bytes. (0, store u addr bytes);
}

-- `A` at 0, `B` at 64, `C` at 128 and `opcode` at 192.
abbrev pub variables : Variables
variables = record { matrix_a = 0; matrix_b = 64; matrix_c = 128; opcode = 192 }

abbrev initial_bytes : List ℕ
initial_bytes =
    words_to_bytes operand_a ++ words_to_bytes operand_b ++ replicate 64 0 ++ le_bytes 4 1

abbrev pub user_memory : HostMemory
user_memory = record { size = 196; cell = λ q. get_or initial_bytes q 0 }

-- A word in the bytes of an array.
word-words_to_bytes :
    (words : List ℕ) (k : ℕ)
    → AllWords words
    → k < length words
    → from_le (tabulate_from 4 (k * 4) (λ p. get_or (words_to_bytes words) p 0)) ≡ get_or words k 0
word-words_to_bytes [] k bounded h = absurd (omega arith)
word-words_to_bytes (w ∷ words) zero bounded h = from_le-le_bytes4 w bounded.0
word-words_to_bytes (w ∷ words) (suc k) bounded h =
    ap from_le (
      tabulate_from-ap 4 (suc k * 4) (k * 4) (λ p. get_or (words_to_bytes (w ∷ words)) p 0)
        (λ p. get_or (words_to_bytes words) p 0)
        (λ p h'. later (suc k * 4 + p) (k * 4 + p) (omega arith)))
    ∙ word-words_to_bytes words k bounded.1 (omega arith)
  where
    later :
        (p q : ℕ)
        → p ≡ suc (suc (suc (suc q)))
        → get_or (words_to_bytes (w ∷ words)) p 0 ≡ get_or (words_to_bytes words) q 0
    later p q e = ap (λ t. get_or (words_to_bytes (w ∷ words)) t 0) e

-- The bytes that would be copied, one by one.
copied_byte :
    (u : HostMemory) (addr n p : ℕ) (bytes : List ℕ)
    → load u addr n ≡ bytes
    → p < n
    → u.cell (addr + p) ≡ get_or bytes p 0
copied_byte u addr n p bytes e h =
    sym (get_or-tabulate_from n addr p u.cell 0 h) ∙ ap (λ t. get_or t p 0) e

-- A word of an array that would be copied, as the process loads it.
pub load_word_lem :
    (u : HostMemory) (addr k : ℕ) (words : List ℕ)
    → AllWords words
    → load u addr (4 * length words) ≡ words_to_bytes words
    → k < length words
    → from_le (load u (addr + k * 4) 4) ≡ get_or words k 0
load_word_lem u addr k words bounded e h =
    ap from_le (
      tabulate_from-ap 4 (addr + k * 4) (k * 4) u.cell (λ p. get_or (words_to_bytes words) p 0)
        (λ p h'.
          (let l : addr + k * 4 + p ≡ addr + (k * 4 + p) = omega arith in ap u.cell l)
          ∙ copied_byte u addr (4 * length words) (k * 4 + p) (words_to_bytes words) e
              (omega arith)))
    ∙ word-words_to_bytes words k bounded h

module _ {B : Type 0} (io : Mmio B) (mmio : ℕ) where
  abbrev pub linux : Syscalls (HostMemory × B)
  linux = record {
    open_device = λ s. (some 3, s);
    ioctl = λ s fd cmd arg.
        (let r = (fops linux_abi user_space io mmio).unlocked_ioctl s.0 s.1 cmd arg in
          (library_result r.code, (r.user, r.bus)));
    close = λ s fd. s;
    load_word = λ s addr. from_le (load s.0 addr 4);
  }

  abbrev pub opens_driver : OpensDriver linux_abi user_space io mmio linux 3
  opens_driver = record {
    opens = λ u b. refl;
    calls = λ u b cmd arg. refl;
    closes = λ s. refl;
    copies = λ u u' addr bytes e.
        ap (λ (t : ℕ × HostMemory). (0, load t.1 addr (length bytes))) (sym e)
        ∙ ap (λ t. (0, t)) (load-store u addr (length bytes) bytes refl);
    loads = λ u b addr k words bounded e h.
        load_word_lem u addr k words bounded (ap (λ (t : ℕ × List ℕ). t.1) e) h;
  }
