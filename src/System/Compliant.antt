-- ===== src/System/Compliant.antt =====
-- Every `b_transport` of custom-endpoint against the rules of the base protocol.
use pcie_systemc_linux.Prelude.{ℕ, refl, List, ◌++◌, take, length-take, if_both, arith}
use pcie_systemc_linux.Prelude.Bytes.{le_bytes}
use pcie_systemc_linux.Tlm.{Response, is_read}
use pcie_systemc_linux.Device.State.{Device}
use pcie_systemc_linux.Testbench.Memory
use pcie_systemc_linux.Testbench.Memory.{HostMemory}
use pcie_systemc_linux.Server.Monitor
use pcie_systemc_linux.Server.Target
use pcie_systemc_linux.Server.Target.{example_data}
use pcie_systemc_linux.Server.Bridge
use pcie_systemc_linux.Server.Adapter.{Adapter}
use pcie_systemc_linux.System.Rules.{Complies, IsCompliant, overwrite-IsWithin, with_response}

pub target-IsCompliant : (behind : List ℕ) → IsCompliant (Target.b_transport behind)
unfolding Target.b_transport
target-IsCompliant behind printed trans delay =
    if_both (Complies trans delay) (is_read trans.command) _ _
      (record {
        answered = λ e. absurd (grind arith);
        later = omega arith;
        command = refl;
        address = refl;
        size = refl;
        within =
            overwrite-IsWithin (take trans.length copied) trans.buffer trans.length
              (omega (arith, length-take trans.length copied));
      })
      (with_response _ trans delay Response.ok (λ e. absurd (grind arith)))
  where
    copied : List ℕ
    copied = le_bytes 4 example_data ++ behind
