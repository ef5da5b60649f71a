-- ===== src/Server/Endpoint.antt =====
-- `MatrixMultiplier` behind a mapping of its BAR is the endpoint that the driver is written for.
use mathlib.Core.HLevel.{Σ_prop_path}
use native.Mathlib.Decide.{ℕ_discrete}
use pcie_systemc_linux.Prelude.{
  ℕ, ◌+◌, ◌-◌, ◌/◌, ◌*◌, ◌%◌, ◌^◌, ◌<◌, ◌≡◌, refl, ap, ap₂, ◌∙◌, true, set, arith,
}
use pcie_systemc_linux.Prelude.Bytes.{le_bytes, from_le, from_le-le_bytes4}
use pcie_systemc_linux.Tlm.{Transport}
use pcie_systemc_linux.Driver.Kernel.{Mmio}
use pcie_systemc_linux.Driver.Bus.{Reaches}
use pcie_systemc_linux.Driver.Contract.{MatrixDevice, Operands, product_word}
use pcie_systemc_linux.Server.Multiplier.{
  Multiplier, matrix_multiplier, handle_write, handle_read, b_transport_bar0, serve_word,
}
use pcie_systemc_linux.Server.Fresh.{IsCoherent, read_first_word, read_next_word}
use pcie_systemc_linux.Server.Reachable.{built-IsCoherent, b_transport_bar0-IsCoherent}

IsCoherent-prop : (m : Multiplier) → IsProp (IsCoherent m)
IsCoherent-prop m = hlevel ℕ_discrete

-- The endpoint with its invariant.
abbrev pub Endpoint : Type 0
Endpoint = (m : Multiplier) × IsCoherent m

abbrev pub endpoint : Endpoint
endpoint = (matrix_multiplier, built-IsCoherent)

abbrev pub endpoint_transport : Transport Endpoint
endpoint_transport e trans delay =
    let r = b_transport_bar0 e.0 trans delay in
    record {
      state = (r.state, b_transport_bar0-IsCoherent e.0 trans delay e.1);
      trans = r.trans;
      delay = r.delay;
    }

abbrev pub operands_of : Multiplier → Operands
operands_of m = record { op1 = m.op1; op2 = m.op2; opcode = m.opcode }

abbrev operands_path :
    {o p : Operands} → (o.op1 ≡ p.op1) × (o.op2 ≡ p.op2) × (o.opcode ≡ p.opcode) → o ≡ p
operands_path (a, b, c) = λ i. record { op1 = a i; op2 = b i; opcode = c i }

handle_write-op1 :
    (m : Multiplier) (v k : ℕ)
    → k < 16
    → operands_of (handle_write m (0x10 + k * 4) v) ≡ record (operands_of m) { op1 = set m.op1 k v }
unfolding handle_write
handle_write-op1 m v k h = operands_path (ground (arith, place))
  where
    place : set m.op1 ((0x10 + k * 4 - 0x10) / 4) v ≡ set m.op1 k v
    place = ap (λ t. set m.op1 t v) (omega arith)

handle_write-op2 :
    (m : Multiplier) (v k : ℕ)
    → k < 16
    → operands_of (handle_write m (0x50 + k * 4) v) ≡ record (operands_of m) { op2 = set m.op2 k v }
unfolding handle_write
handle_write-op2 m v k h = operands_path (ground (arith, place))
  where
    place : set m.op2 ((0x50 + k * 4 - 0x50) / 4) v ≡ set m.op2 k v
    place = ap (λ t. set m.op2 t v) (omega arith)

handle_write-opcode :
    (m : Multiplier) (v : ℕ)
    → operands_of (handle_write m 0x90 v) ≡ record (operands_of m) { opcode = v }
unfolding handle_write
handle_write-opcode m v = refl

module _ (io : Mmio Endpoint) (mmio : ℕ) (bus : Reaches endpoint_transport io mmio) where
  write_word :
      (e : Endpoint) (v offset : ℕ)
      → offset < 2 ^ 20
      → v < 2 ^ 32
      → (io.iowrite32 e v (mmio + offset)).0 ≡ handle_write e.0 offset v
  unfolding b_transport_bar0 serve_word
  write_word e v offset h w =
      ap (λ t. t.0) (bus.writes e offset v h) ∙ ap (handle_write e.0 offset) (from_le-le_bytes4 v w)

  -- The state of a read, and its value if it is a word.
  read_word :
      (e : Endpoint) (offset : ℕ)
      → offset < 2 ^ 20
      → ((io.ioread32 e (mmio + offset)).1.0 ≡ (handle_read e.0 offset).1)
        × ((io.ioread32 e (mmio + offset)).0 ≡ from_le (le_bytes 4 (handle_read e.0 offset).0))
  unfolding b_transport_bar0 serve_word
  read_word e offset h =
      (ap (λ t. t.1.0) (bus.reads e offset h), ap (λ t. t.0) (bus.reads e offset h))

  word_value : (v a b : ℕ) → v ≡ a % 2 ^ 32 → b ≡ from_le (le_bytes 4 v) → b ≡ a % 2 ^ 32
  word_value v a b e f = omega arith

  read_first_lem :
      (e : Endpoint)
      → e.0.opcode ≡ 1
      → ((io.ioread32 e (mmio + 0xA0)).0 ≡ product_word e.0.op1 e.0.op2 0)
        × (operands_of (io.ioread32 e (mmio + 0xA0)).1.0 ≡ operands_of e.0)
        × ((io.ioread32 e (mmio + 0xA0)).1.0.result_valid ≡ true)
  read_first_lem (m, c) o =
      let (state, word) = read_word (m, c) 0xA0 (omega arith) in
      let (value, a, b, p, valid) = read_first_word m c o in
      (
        word_value (handle_read m 0xA0).0 _ _ value word,
        ap operands_of state ∙ operands_path (a, b, p),
        ap (λ (t : Multiplier). t.result_valid) state ∙ valid,
      )

  read_next_lem :
      (e : Endpoint) (k : ℕ)
      → e.0.result_valid ≡ true
      → e.0.opcode ≡ 1
      → 0 < k
      → k < 16
      → io.ioread32 e (mmio + (0xA0 + k * 4)) ≡ (product_word e.0.op1 e.0.op2 k, e)
  read_next_lem (m, c) k v o p q =
      let (state, word) = read_word (m, c) (0xA0 + k * 4) (omega arith) in
      let r = read_next_word m k c o v p q in
      ap₂ (λ x y. (x, y)) (word_value (handle_read m (0xA0 + k * 4)).0 _ _ (ap (λ t. t.0) r) word)
        (Σ_prop_path IsCoherent-prop (state ∙ ap (λ t. t.1) r))

  at_offset : (a b : ℕ) → mmio + a + b ≡ mmio + (a + b)
  at_offset a b = omega arith

  pub endpoint_device : MatrixDevice io mmio
  endpoint_device = record {
    operands = λ e. operands_of e.0;
    IsFresh = λ e. e.0.result_valid ≡ true;
    length_op1 = λ e. e.1.op1_size;
    length_op2 = λ e. e.1.op2_size;
    write_op1 = λ e v k h w.
        ap (λ a. operands_of (io.iowrite32 e v a).0) (at_offset 0x10 (k * 4))
        ∙ ap operands_of (write_word e v (0x10 + k * 4) (omega arith) w)
        ∙ handle_write-op1 e.0 v k h;
    write_op2 = λ e v k h w.
        ap (λ a. operands_of (io.iowrite32 e v a).0) (at_offset 0x50 (k * 4))
        ∙ ap operands_of (write_word e v (0x50 + k * 4) (omega arith) w)
        ∙ handle_write-op2 e.0 v k h;
    write_opcode =
        λ e v w. ap operands_of (write_word e v 0x90 (omega arith) w) ∙ handle_write-opcode e.0 v;
    read_first =
        λ e o. (let at : mmio + 0xA0 + 0 ≡ mmio + 0xA0 = omega arith in rw at (read_first_lem e o));
    read_next = λ e k v o p q.
        ap (λ a. io.ioread32 e a) (at_offset 0xA0 (k * 4)) ∙ read_next_lem e k v o p q;
  }
