-- ===== src/Testbench/Memory.antt =====
-- `host_memory` of custom-endpoint/testbench.cpp.
use pcie_systemc_linux.Prelude.{
  ℕ, ◌+◌, ◌-◌, ◌*◌, ◌%◌, ◌^◌, ◌&&◌, List, leb, ltb, if◌then◌else◌, length, get_or, take,
  tabulate_from,
}
use pcie_systemc_linux.Tlm.{Payload, Command, Response, Outcome, overwrite}

-- `memory`: a byte for each index. An index past `size` is what lies behind the vector.
pub record HostMemory : Type 0 where
  pub size : ℕ
  pub cell : ℕ → ℕ

-- memcpy from and to `&memory[addr]`
abbrev pub load : HostMemory → ℕ → ℕ → List ℕ
load m addr len = tabulate_from len addr m.cell

abbrev pub store : HostMemory → ℕ → List ℕ → HostMemory
store m addr bytes = record m {
  cell = λ q.
      if leb addr q && ltb q (addr + length bytes) then get_or bytes (q - addr) 0 else m.cell q;
}

-- The constructor.
abbrev pub host_memory : HostMemory
host_memory = record { size = 16 * 1024 * 1024; cell = λ q. 0 }

-- The `if` chain on the command.
unfoldable pub serve : Command → HostMemory → Payload → HostMemory × List ℕ
serve Command.read m trans = (m, overwrite trans.buffer (load m trans.address trans.length))
serve Command.write m trans = (store m trans.address (take trans.length trans.buffer), trans.buffer)
serve Command.ignore m trans = (m, trans.buffer)

-- `addr + len` is computed in 64 bits.
unfoldable pub b_transport : HostMemory → Payload → ℕ → Outcome HostMemory
unfolding serve
b_transport m trans delay =
    if ltb m.size ((trans.address + trans.length) % 2 ^ 64)
    then record {
      state = m;
      trans = record trans { response = Response.address_error };
      delay = delay;
    }
    else (let (m', bytes) = serve trans.command m trans in
        record {
          state = m';
          trans = record trans { buffer = bytes; response = Response.ok };
          delay = delay + 20;
        })

-- `bytes` are the `len` bytes at `data`.
unfoldable pub write_data : HostMemory → ℕ → List ℕ → HostMemory
write_data m addr bytes =
    if leb ((addr + length bytes) % 2 ^ 64) m.size then store m addr bytes else m

-- The buffer at `data` after the call.
unfoldable pub read_data : HostMemory → ℕ → List ℕ → ℕ → List ℕ
read_data m addr buffer len =
    if leb ((addr + len) % 2 ^ 64) m.size then overwrite buffer (load m addr len) else buffer
