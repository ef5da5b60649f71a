-- ===== src/System/Races.antt =====
-- A race of two programs on the endpoint that the driver is written for, with nothing between.
use pcie_systemc_linux.Prelude.{
  ℕ, zero, suc, ◌≤◌, ◌<◌, ◌≡◌, refl, ◌⊎◌, Bool, true, false, List, length, replicate, ◌++◌, get_or,
  ltb, arith,
}
use pcie_systemc_linux.Driver.Kernel.{Mmio}
use pcie_systemc_linux.Driver.Bus.{direct, direct-Reaches}
use pcie_systemc_linux.Driver.Contract.{MatrixDevice}
use pcie_systemc_linux.Driver.Ioctl.{write_rows, op1_offset}
use pcie_systemc_linux.Driver.Race.{Racing, begun, first, second, Racing-mixed}
use pcie_systemc_linux.Server.Endpoint.{
  Endpoint, endpoint, endpoint_transport, endpoint_device, operands_of,
}
use pcie_systemc_linux.Server.Multiplier.{b_transport_bar0}

abbrev io : Mmio Endpoint
io = direct 0 endpoint_transport

abbrev ones : List ℕ
ones = replicate 16 1

abbrev twos : List ℕ
twos = replicate 16 2

abbrev Raced : ℕ → Type 0
Raced k = (b : Endpoint) × Racing io 0 ones twos endpoint k k b

-- Both calls write their next word, the second one after the first or before it.
abbrev step : (second_last : Bool) (k : ℕ) → k < 16 → Raced k → Raced (suc k)
step true k h (b, r) = (_, second h (first h r))
step false k h (b, r) = (_, first h (second h r))

-- The second is ahead in the first eight words, and behind in the others.
abbrev race : (k : ℕ) → k ≤ 16 → Raced k
race zero h = (endpoint, begun)
race (suc k) h = step (ltb k 8) k (omega arith) (race k (omega arith))

abbrev raced : Raced 16
raced = race 16 (omega arith)

abbrev device : MatrixDevice io 0
device = endpoint_device io 0 (direct-Reaches 0 endpoint_transport)

Racing-mixed_example :
    Racing io 0 ones twos endpoint 16 0 (write_rows io 4 op1_offset 0 ones endpoint)
    × (length (device.operands raced.0).op1 ≡ 16)
    × ((k : ℕ)
        → k < 16
        → (get_or (device.operands raced.0).op1 k 0 ≡ get_or ones k 0)
          ⊎ (get_or (device.operands raced.0).op1 k 0 ≡ get_or twos k 0))
    × ((device.operands raced.0).op2 ≡ (device.operands endpoint).op2)
    × ((device.operands raced.0).opcode ≡ (device.operands endpoint).opcode)
Racing-mixed_example =
    Racing-mixed io 0 device ones twos (ground arith) (ground arith) endpoint raced.0 raced.1

-- The operand is neither program's.
raced-torn : (operands_of raced.0.0).op1 ≡ replicate 8 2 ++ replicate 8 1
unfolding b_transport_bar0
raced-torn = refl
