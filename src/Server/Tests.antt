-- ===== src/Server/Tests.antt =====
-- The monitor and the endpoint behind it on two transactions.
use pcie_systemc_linux.Prelude.{ℕ}
use pcie_systemc_linux.Prelude.{ℕ, drop, none, true, refl, ◌≡◌, List, [], ◌∷◌}
use pcie_systemc_linux.Prelude.Bytes.{le_bytes}
use pcie_systemc_linux.Tlm.{Payload, Command, request}
use pcie_systemc_linux.Server.Bridge.{startup, default_descr}
use pcie_systemc_linux.Server.Target.{b_transport}
use pcie_systemc_linux.Server.Multiplier.{Multiplier, matrix_multiplier, b_transport_bar0}
use pcie_systemc_linux.Server.Fresh.{IsCoherent}
use pcie_systemc_linux.Server.Reachable.{built, accessed, Reachable-IsCoherent}
use pcie_systemc_linux.Server.Monitor.{Monitored, run_monitored, run_target, run_monitored-target}

abbrev transactions : List Payload
transactions =
    request Command.write 0x10 (le_bytes 4 122) 4 ∷ request Command.read 0xA0 (le_bytes 4 0) 4 ∷ []

abbrev silent : Monitored (List (List ℕ))
silent = record { target = []; lines = [] }

run_monitored-target_example :
    ((run_monitored (b_transport []) silent transactions).0.target
      ≡ (run_target (b_transport []) [] transactions).0)
    × ((run_monitored (b_transport []) silent transactions).1
        ≡ (run_target (b_transport []) [] transactions).1)
run_monitored-target_example = run_monitored-target (b_transport []) transactions silent

-- The opcode is written, and the first word of the result is read.
abbrev with_opcode : Multiplier
with_opcode =
    (b_transport_bar0 matrix_multiplier (request Command.write 0x90 (le_bytes 4 1) 4) 0).state

abbrev read_once : Payload
read_once = request Command.read 0xA0 (le_bytes 4 0) 4

Reachable-IsCoherent_example : IsCoherent (b_transport_bar0 with_opcode read_once 0).state
Reachable-IsCoherent_example =
    Reachable-IsCoherent _
      (accessed read_once 0 (accessed (request Command.write 0x90 (le_bytes 4 1) 4) 0 built))

-- A socket path with and without its prefix.
startup-prefix : (startup none (λ f. true)).socket_file ≡ drop 5 default_descr
unfolding startup
startup-prefix = refl
