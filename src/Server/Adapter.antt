-- ===== src/Server/Adapter.antt =====
-- `PCIeRPAdapter`, which main.cc keeps as a comment (lines 38 to 117): the window of BAR0 on the
-- side of QEMU.
use pcie_systemc_linux.Prelude.{ℕ, Bool, ◌+◌, ◌-◌, ◌%◌, ◌^◌, ◌||◌, ltb, leb, if◌then◌else◌}
use pcie_systemc_linux.Tlm.{Response, Transport, request}

pub record Adapter : Type 0 where
  pub bar_base_address : ℕ
  pub bar_size : ℕ

-- The `uint64_t` comparisons of the window check.
abbrev pub is_outside : Adapter → ℕ → Bool
is_outside adapter addr =
    ltb addr adapter.bar_base_address
    || leb ((adapter.bar_base_address + adapter.bar_size) % 2 ^ 64) addr

-- The comments of main.cc register this function with no socket and call it nowhere. In it, a
-- transaction of QEMU's becomes one of the adapter's own, on the same data, with the offset
-- into the BAR as its address.
unfoldable pub b_transport_from_qemu : {S : Type 0} → Transport S → Adapter → Transport S
b_transport_from_qemu init_socket adapter s trans delay =
    if is_outside adapter trans.address
    then record {
      state = s;
      trans = record trans { response = Response.address_error };
      delay = delay;
    }
    else (let r =
          init_socket s
            (request trans.command (trans.address - adapter.bar_base_address) trans.buffer
              trans.length)
            delay in
        record {
          state = r.state;
          trans = record trans { buffer = r.trans.buffer; response = r.trans.response };
          delay = r.delay;
        })

-- What the endpoint sends towards the host is answered, and goes nowhere.
unfoldable pub b_transport_from_pcie : {S : Type 0} → Transport S
b_transport_from_pcie s trans delay = record {
  state = s;
  trans = record trans { response = Response.ok };
  delay = delay;
}

-- The adapter that `PCIeCoSimTop` creates.
abbrev pub top_adapter : Adapter
top_adapter = record { bar_base_address = 0; bar_size = 0x100000 }
