-- ===== src/Testbench/Ranges.antt =====
-- What `host_memory` keeps: reads see the last write, and what lies outside it is untouched.
use pcie_systemc_linux.Prelude.{
  ℕ, zero, suc, ◌+◌, ◌-◌, ◌%◌, ◌^◌, ◌≤◌, ◌<◌, ◌≡◌, refl, ap, ap₂, ◌∙◌, ◌⊎◌, List, ◌∷◌, ltb, length,
  get_or, length-tabulate_from, get_or-tabulate_from, eq_of_get_or, drop_all, take_all, arith,
  false,
}
use mathlib.Core.List.{append-nil}
use pcie_systemc_linux.Tlm.{Command, Response, request}
use pcie_systemc_linux.Testbench.Memory.{HostMemory, load, store, b_transport}

cell_inside :
    (m : HostMemory) (addr i : ℕ) (bytes : List ℕ)
    → i < length bytes
    → (store m addr bytes).cell (addr + i) ≡ get_or bytes i 0
cell_inside m addr i bytes h =
    let e : addr + i - addr ≡ i = omega arith in ground (arith, ap (λ t. get_or bytes t 0) e)

cell_outside :
    (m : HostMemory) (addr a : ℕ) (bytes : List ℕ)
    → (a < addr) ⊎ (addr + length bytes ≤ a)
    → (store m addr bytes).cell a ≡ m.cell a
cell_outside m addr a bytes h = ground arith

-- Bytes that were stored are read back.
pub load-store :
    (m : HostMemory) (addr n : ℕ) (bytes : List ℕ)
    → n ≡ length bytes
    → load (store m addr bytes) addr n ≡ bytes
load-store m addr n bytes e = eq_of_get_or _ bytes 0 (count ∙ e) λ i p.
    get_or-tabulate_from n addr i _ 0 (omega (arith, count))
    ∙ cell_inside m addr i bytes (omega (arith, count))
  where
    count : length (load (store m addr bytes) addr n) ≡ n
    count = length-tabulate_from n addr _

-- Bytes outside the range that was stored stay.
pub load-store_disjoint :
    (m : HostMemory) (addr a n : ℕ) (bytes : List ℕ)
    → (a + n ≤ addr) ⊎ (addr + length bytes ≤ a)
    → load (store m addr bytes) a n ≡ load m a n
load-store_disjoint m addr a zero bytes h = refl
load-store_disjoint m addr a (suc n) bytes h =
    ap₂ ◌∷◌ (cell_outside m addr a bytes (omega arith))
      (load-store_disjoint m addr (a + 1) n bytes (omega arith))

-- A transfer that fits in the memory, as the device's DMA issues it.
module _ (m : HostMemory) (addr len delay : ℕ) (bytes : List ℕ) (count : len ≡ length bytes)
    (fits : addr + len ≤ m.size) (small : m.size < 2 ^ 64) where
  in_range : ltb m.size ((addr + len) % 2 ^ 64) ≡ false
  in_range = ground (arith, no_wrap)
    where
      no_wrap : (addr + len) % 2 ^ 64 ≡ addr + len
      no_wrap = omega arith

  pub b_transport-write : b_transport m (request Command.write addr bytes len) delay ≡ record {
    state = store m addr bytes;
    trans = record (request Command.write addr bytes len) { response = Response.ok };
    delay = delay + 20;
  }
  unfolding b_transport
  b_transport-write = rw (in_range, take_all bytes len (omega arith))

  pub b_transport-read : b_transport m (request Command.read addr bytes len) delay ≡ record {
    state = m;
    trans = record (request Command.read addr bytes len) {
      buffer = load m addr len;
      response = Response.ok;
    };
    delay = delay + 20;
  }
  unfolding b_transport
  b_transport-read = rw (in_range, drop_all bytes (length (load m addr len)) loaded, append-nil)
    where
      loaded : length bytes ≤ length (load m addr len)
      loaded = omega (arith, length-tabulate_from len addr m.cell)
