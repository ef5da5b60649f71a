-- ===== src/Server/Target.antt =====
-- `DummyTarget`: every read gives one word, and every write is printed and dropped.
use pcie_systemc_linux.Prelude.{ℕ, List, ◌∷◌, ◌++◌, take, if◌then◌else◌}
use pcie_systemc_linux.Prelude.Bytes.{le_bytes}
use pcie_systemc_linux.Tlm.{Payload, Response, Outcome, is_read, overwrite}

abbrev pub example_data : ℕ
example_data = 0xABCD1234

-- The state is what was printed: the bytes of each write, the latest first. `behind` are the bytes
-- behind the local variable `data`, which a read of more than four bytes copies.
unfoldable pub b_transport : List ℕ → List (List ℕ) → Payload → ℕ → Outcome (List (List ℕ))
b_transport behind printed trans delay =
    if is_read trans.command
    then record {
      state = printed;
      trans = record trans {
        buffer = overwrite trans.buffer (take trans.length (le_bytes 4 example_data ++ behind));
        response = Response.ok;
      };
      delay = delay;
    }
    else record {
      state = take trans.length trans.buffer ∷ printed;
      trans = record trans { response = Response.ok };
      delay = delay;
    }
