-- ===== src/Testbench/Refused.antt =====
-- The transfers that `host_memory` refuses, and what it does with the others.
use pcie_systemc_linux.Prelude.{
  ℕ, length-take, ◌+◌, ◌%◌, ◌^◌, ◌≤◌, ◌<◌, ◌≡◌, ◌≢◌, ◌⊎◌, inl, inr, refl, ltb, arith, Bool-cases,
}
use pcie_systemc_linux.Tlm.{Payload, Command, Response, ignore}
use pcie_systemc_linux.Testbench.Memory.{HostMemory, serve, b_transport}

serve-size : (c : Command) (m : HostMemory) (trans : Payload) → (serve c m trans).0.size ≡ m.size
unfolding serve
serve-size Command.read m trans = refl
serve-size Command.write m trans = refl
serve-size ignore m trans = refl

serve-cell :
    (c : Command) (m : HostMemory) (trans : Payload) (a : ℕ)
    → (c ≢ Command.write) ⊎ (a < trans.address) ⊎ (trans.address + trans.length ≤ a)
    → (serve c m trans).0.cell a ≡ m.cell a
unfolding serve
serve-cell Command.read m trans a out = refl
serve-cell ignore m trans a out = refl
serve-cell Command.write m trans a (inl other) = absurd (other refl)
serve-cell Command.write m trans a (inr out) =
    let short = length-take trans.length trans.buffer in ground (arith, short)

-- A transfer that ends beyond the memory, without its end passing 2 ^ 64, is answered with an
-- address error: the memory, the data and the delay stay as they were. One that ends inside is
-- answered with OK after 20 ns, and only a write changes the memory, only in the range that it
-- names.
pub b_transport-range :
    (m : HostMemory) (trans : Payload) (delay : ℕ)
    → trans.address + trans.length < 2 ^ 64
    → let r = b_transport m trans delay in
      ((m.size < trans.address + trans.length)
        × (r ≡ record {
          state = m;
          trans = record trans { response = Response.address_error };
          delay = delay;
        }))
      ⊎ ((trans.address + trans.length ≤ m.size)
          × (r.trans.response ≡ Response.ok)
          × (r.delay ≡ delay + 20)
          × (r.state.size ≡ m.size)
          × ((a : ℕ)
              → (trans.command ≢ Command.write)
                ⊎ (a < trans.address)
                ⊎ (trans.address + trans.length ≤ a)
              → r.state.cell a ≡ m.cell a))
unfolding b_transport
b_transport-range m trans delay h =
    elim (Bool-cases (ltb m.size ((trans.address + trans.length) % 2 ^ 64))) [
      | inl beyond ↦ inl (ground arith, rw beyond refl)
      | inr inside ↦
          let fits : trans.address + trans.length ≤ m.size = ground arith in
          inr (
            rw inside (
              fits,
              refl,
              refl,
              serve-size trans.command m trans,
              serve-cell trans.command m trans,
            ))
    ]
