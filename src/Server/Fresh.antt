-- ===== src/Server/Fresh.antt =====
-- The result window of `MatrixMultiplier`: its cached result is the product of its operands.
use mathlib.Core.Path.{subst}
use pcie_systemc_linux.Prelude.{
  ℕ, ◌+◌, ◌-◌, ◌*◌, ◌/◌, ◌%◌, ◌<◌, ◌≡◌, refl, ap, ap₂, sym, ◌≢◌, ◌⊎◌, inl, inr, Bool-cases,
  replicate, ◌∙◌, true, false, not, ◌&&◌, ◌==◌, ==_iff, List, leb, ltb, get_or, length, length-set,
  arith,
}
use pcie_systemc_linux.Device.Multiply.Product.{dot, rows_from, rows_from-dot, length-rows_from}
use pcie_systemc_linux.Driver.Contract.{product_word}
use pcie_systemc_linux.Server.Multiplier.{
  Multiplier, word_ops, perform_multiplication, handle_write, handle_read,
}

-- Sums that wrap at each step wrap as their whole.
dot-product_word :
    (a b : List ℕ) (k : ℕ) → dot word_ops 4 a b (k / 4) (k % 4) 4 ≡ product_word a b k
dot-product_word a b k = omega (arith, first)
  where
    first :
        get_or a (k / 4 * 4 + 0) 0 * get_or b (0 + k % 4) 0
        ≡ get_or a (k / 4 * 4) 0 * get_or b (k % 4) 0
    first = ap₂ (λ s t. get_or a s 0 * get_or b t 0) (omega arith) (omega arith)

-- The windows have sixteen words, and a result that is marked valid is that of the operands and the
-- opcode that the device holds.
pub record IsCoherent (m : Multiplier) : Type 0 where
  pub op1_size : length m.op1 ≡ 16
  pub op2_size : length m.op2 ≡ 16
  pub result_size : length m.result ≡ 16
  pub cached :
      m.result_valid ≡ true
      → m.opcode ≡ 1
      → (k : ℕ) → k < 16
      → get_or m.result k 0 ≡ product_word m.op1 m.op2 k
  pub refused : m.result_valid ≡ true → m.opcode ≢ 1 → m.result ≡ replicate 16 0xFFFFFFFF

-- A state whose result is not marked valid has only its sizes to keep.
invalid-IsCoherent :
    (m : Multiplier)
    → m.result_valid ≡ false
    → length m.op1 ≡ 16
    → length m.op2 ≡ 16
    → length m.result ≡ 16
    → IsCoherent m
invalid-IsCoherent m e s t u = record {
  op1_size = s;
  op2_size = t;
  result_size = u;
  cached = λ h o k l. cc;
  refused = λ h o. cc;
}

-- No write leaves a stale result marked valid.
pub handle_write-IsCoherent :
    (m : Multiplier) (addr value : ℕ) → IsCoherent m → IsCoherent (handle_write m addr value)
unfolding handle_write
handle_write-IsCoherent m addr value c = elim (Bool-cases (leb 0x10 addr && ltb addr 0x50)) [
  | inl first ↦
      rw first
        (invalid-IsCoherent _ refl (length-set m.op1 _ value ∙ c.op1_size) c.op2_size c.result_size)
  | inr later ↦ rw later (elim (Bool-cases (leb 0x50 addr && ltb addr 0x90)) [
    | inl second ↦
        rw second (
          invalid-IsCoherent _ refl c.op1_size (length-set m.op2 _ value ∙ c.op2_size)
            c.result_size)
    | inr last ↦ rw last (elim (Bool-cases (addr == 0x90)) [
      | inl opcode ↦ rw opcode (invalid-IsCoherent _ refl c.op1_size c.op2_size c.result_size)
      | inr other ↦ rw other c
    ])
  ])
]

product_entry :
    (m : Multiplier) (k : ℕ)
    → k < 16
    → length m.result ≡ 16
    → get_or (rows_from word_ops 4 m.op1 m.op2 4 0 m.result) k 0 ≡ product_word m.op1 m.op2 k
product_entry m k l size =
    ap (λ t. get_or (rows_from word_ops 4 m.op1 m.op2 4 0 m.result) t 0) place
    ∙ rows_from-dot word_ops 4 m.op1 m.op2 (omega arith) 4 0 (k / 4) (k % 4) m.result refl size
        (omega arith) (omega arith) (omega arith)
    ∙ dot-product_word m.op1 m.op2 k
  where
    place : k ≡ k / 4 * 4 + k % 4
    place = omega arith

perform_multiplication-IsCoherent :
    (m : Multiplier) → IsCoherent m → IsCoherent (perform_multiplication m)
unfolding perform_multiplication
perform_multiplication-IsCoherent m c = elim (Bool-cases (m.opcode == 1)) [
  | inl multiplies ↦ rw multiplies (record {
    op1_size = c.op1_size;
    op2_size = c.op2_size;
    result_size =
        length-rows_from word_ops 4 m.op1 m.op2 (omega arith) 4 0 m.result refl ∙ c.result_size;
    cached = λ h o k l. product_entry m k l c.result_size;
    refused = λ h o. absurd (o ((==_iff m.opcode 1).0 multiplies));
  })
  | inr other ↦
      let different : m.opcode ≢ 1 = ground arith in
      rw other (record {
        op1_size = c.op1_size;
        op2_size = c.op2_size;
        result_size = refl;
        cached = λ h o k l. absurd (different o);
        refused = λ h o. refl;
      })
]

read_state :
    (m : Multiplier) (addr : ℕ)
    → ((handle_read m addr).1 ≡ m) ⊎ ((handle_read m addr).1 ≡ perform_multiplication m)
unfolding handle_read
read_state m addr = ground arith

-- No read does either.
pub handle_read-IsCoherent :
    (m : Multiplier) (addr : ℕ) → IsCoherent m → IsCoherent (handle_read m addr).1
handle_read-IsCoherent m addr c = elim (read_state m addr) [
  | inl same ↦ subst IsCoherent (sym same) c
  | inr computed ↦ subst IsCoherent (sym computed) (perform_multiplication-IsCoherent m c)
]

after_perform :
    (m : Multiplier)
    → ((perform_multiplication m).op1 ≡ m.op1)
      × ((perform_multiplication m).op2 ≡ m.op2)
      × ((perform_multiplication m).opcode ≡ m.opcode)
      × ((perform_multiplication m).result_valid ≡ true)
unfolding perform_multiplication
after_perform m = ground arith

-- The first word of the result: it is computed if it has to be.
pub read_first_word :
    (m : Multiplier)
    → IsCoherent m
    → m.opcode ≡ 1
    → ((handle_read m 0xA0).0 ≡ product_word m.op1 m.op2 0)
      × ((handle_read m 0xA0).1.op1 ≡ m.op1)
      × ((handle_read m 0xA0).1.op2 ≡ m.op2)
      × ((handle_read m 0xA0).1.opcode ≡ m.opcode)
      × ((handle_read m 0xA0).1.result_valid ≡ true)
unfolding handle_read
read_first_word m c o = elim (Bool-cases (not m.result_valid)) [
  | inl stale ↦
      let (a, b, p, v) = after_perform m in
      let done = perform_multiplication-IsCoherent m c in
      rw stale
        (done.cached v (p ∙ o) 0 (omega arith) ∙ ap₂ (λ x y. product_word x y 0) a b, a, b, p, v)
  | inr kept ↦
      let valid : m.result_valid ≡ true = ground arith in
      rw kept (c.cached valid o 0 (omega arith), refl, refl, refl, valid)
]

-- The other words, from a valid result.
pub read_next_word :
    (m : Multiplier) (k : ℕ)
    → IsCoherent m
    → m.opcode ≡ 1
    → m.result_valid ≡ true
    → 0 < k
    → k < 16
    → handle_read m (0xA0 + k * 4) ≡ (product_word m.op1 m.op2 k, m)
unfolding handle_read
read_next_word m k c o v p q = ground (arith, place, c.cached v o k q)
  where
    place : get_or m.result ((0xA0 + k * 4 - 0xA0) / 4) 0 ≡ get_or m.result k 0
    place = ap (λ t. get_or m.result t 0) (omega arith)
