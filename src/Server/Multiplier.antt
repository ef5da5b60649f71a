-- ===== src/Server/Multiplier.antt =====
-- `MatrixMultiplier`, the endpoint that main.cc keeps as a comment (lines 121 to 220): the register
-- map is the one that the kernel driver writes and reads. The file builds `DummyTarget` instead.
use pcie_systemc_linux.Prelude.{
  ℕ, take, ◌+◌, ◌-◌, ◌*◌, ◌/◌, ◌%◌, ◌^◌, Bool, true, false, not, ◌&&◌, List, leb, ltb, ◌==◌,
  if◌then◌else◌, get_or, set, replicate,
}
use pcie_systemc_linux.Prelude.Bytes.{le_bytes, from_le}
use pcie_systemc_linux.Tlm.{Payload, Command, Response, Outcome, ignore, overwrite}
use pcie_systemc_linux.Device.Compute.{FloatOps}
use pcie_systemc_linux.Device.Multiply.Product.{rows_from}

pub record Multiplier : Type 0 where
  pub op1 : List ℕ
  pub op2 : List ℕ
  pub opcode : ℕ
  pub result : List ℕ
  pub result_valid : Bool

-- `uint32_t` arithmetic
abbrev pub word_ops : FloatOps
word_ops = record { add = λ a b. (a + b) % 2 ^ 32; mul = λ a b. a * b % 2 ^ 32 }

abbrev pub matrix_multiplier : Multiplier
matrix_multiplier = record {
  op1 = replicate 16 0;
  op2 = replicate 16 0;
  opcode = 0;
  result = replicate 16 0;
  result_valid = false;
}

-- The two nests of loops; that of the product is the nest of `perform_matrix_multiply` at size 4,
-- in `uint32_t`.
unfoldable pub perform_multiplication : Multiplier → Multiplier
perform_multiplication m =
    if not (m.opcode == 1)
    then record m { result = replicate 16 0xFFFFFFFF; result_valid = true }
    else record m { result = rows_from word_ops 4 m.op1 m.op2 4 0 m.result; result_valid = true }

unfoldable pub handle_write : Multiplier → ℕ → ℕ → Multiplier
handle_write m addr value =
    if leb 0x10 addr && ltb addr 0x50
    then record m { op1 = set m.op1 ((addr - 0x10) / 4) value; result_valid = false }
    else if leb 0x50 addr && ltb addr 0x90
    then record m { op2 = set m.op2 ((addr - 0x50) / 4) value; result_valid = false }
    else if addr == 0x90
    then record m { opcode = value; result_valid = false }
    else m

unfoldable pub handle_read : Multiplier → ℕ → ℕ × Multiplier
handle_read m addr =
    let ready = if addr == 0xA0 && not m.result_valid then perform_multiplication m else m in
    if leb 0xA0 addr && ltb addr 0xE0
    then (get_or ready.result ((addr - 0xA0) / 4) 0, ready)
    else if addr == 0x90
    then (m.opcode, m)
    else (0xFFFFFFFF, m)

-- The `if` on the command: everything but a write reads.
unfoldable pub serve_word : Command → Multiplier → Payload → Multiplier × List ℕ
unfolding handle_write handle_read
serve_word Command.write m trans =
    (handle_write m trans.address (from_le (take 4 trans.buffer)), trans.buffer)
serve_word Command.read m trans =
    let (value, m') = handle_read m trans.address in (m', overwrite trans.buffer (le_bytes 4 value))
serve_word ignore m trans =
    let (value, m') = handle_read m trans.address in (m', overwrite trans.buffer (le_bytes 4 value))

unfoldable pub b_transport_bar0 : Multiplier → Payload → ℕ → Outcome Multiplier
unfolding serve_word
b_transport_bar0 m trans delay =
    if not (trans.length == 4)
    then record {
      state = m;
      trans = record trans { response = Response.generic_error };
      delay = delay;
    }
    else (let (m', bytes) = serve_word trans.command m trans in
        record {
          state = m';
          trans = record trans { buffer = bytes; response = Response.ok };
          delay = delay + 10;
        })
