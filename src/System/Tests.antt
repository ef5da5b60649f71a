-- ===== src/System/Tests.antt =====
-- The compositions with nothing between the driver and the target, and the BAR mapped at 0.
use pcie_systemc_linux.System.RegisterMap.{
  AllPermit, print_device_info, print_device_info-AllPermit,
}
use pcie_systemc_linux.Device.Registers.Bounds.{IsBounded}
use pcie_systemc_linux.Testbench.Memory
use pcie_systemc_linux.Server.Bridge
use pcie_systemc_linux.Prelude.{
  ℕ, true, false, ◌≡◌, refl, List, [], ◌∷◌, replicate, arith, ◌-◌, ◌*◌, ◌/◌, ◌^◌,
}
use pcie_systemc_linux.Prelude.Bytes.{words_to_bytes}
use pcie_systemc_linux.Tlm.{Transport}
use pcie_systemc_linux.Driver.Abi.{linux_abi}
use pcie_systemc_linux.Driver.Irq.{irq_handler, irq_handled}
use pcie_systemc_linux.Driver.Bus.{direct, direct-Reaches}
use pcie_systemc_linux.Device.State.{Device, ControllerThread, start_of_simulation}
use pcie_systemc_linux.Device.Mmio.{bar0_b_transport}
use pcie_systemc_linux.Device.Compute.{compute_thread}
use pcie_systemc_linux.Testbench.Memory.{host_memory, store, b_transport}
use pcie_systemc_linux.Server.Target
use pcie_systemc_linux.Server.Monitor
use pcie_systemc_linux.Server.Monitor.{Monitored}
use pcie_systemc_linux.Server.Multiplier.{word_ops}
use pcie_systemc_linux.App.Main.{operand_a, operand_b, main}
use pcie_systemc_linux.App.Machine.{user_space, variables, user_memory, linux, opens_driver}
use pcie_systemc_linux.App.Printed.{success_output}
use pcie_systemc_linux.System.Built.{main-example_data}
use pcie_systemc_linux.System.Traced.{traced, read32, write32}
use pcie_systemc_linux.System.Device.{irq_handler-ignored, iowrite32-probe, refused}
use pcie_systemc_linux.Driver.Lifecycle.Probe.{
  Replies, pci_probe, create_device, set_up_pci, set_up_irq, check_resource,
}
use pcie_systemc_linux.Driver.Lifecycle.Unwind.{loaded}
use pcie_systemc_linux.Driver.Lifecycle.Accesses.{performed}

abbrev Built : Type 0
Built = Monitored (List (List ℕ))

abbrev built : Transport Built
built = Monitor.b_transport (Target.b_transport [])

abbrev silent : Built
silent = record { target = []; lines = [] }

abbrev example_words : List ℕ
example_words = replicate 16 0xABCD1234

main-example_data_example :
    ((main linux_abi (linux (direct 0 built) 0) variables (user_memory, silent)).code ≡ 0)
    × ((main linux_abi (linux (direct 0 built) 0) variables (user_memory, silent)).output
        ≡ success_output linux_abi example_words)
    × ((main linux_abi (linux (direct 0 built) 0) variables (user_memory, silent)).state.0
        ≡ store user_memory 128 (words_to_bytes example_words))
main-example_data_example =
    main-example_data [] (direct 0 built) 0 (direct-Reaches 0 built) linux_abi user_space
      (linux (direct 0 built) 0) 3 (opens_driver (direct 0 built) 0) variables user_memory
      (store user_memory 128 (words_to_bytes example_words)) silent operand_a operand_b
      (ground arith) (ground arith) refl refl refl refl refl refl

-- The endpoint of pcie_system_top.h with its interrupt pending.
abbrev interrupting : Device
interrupting = record start_of_simulation {
  reg_matrix_c_ptr = 0x300000000;
  reg_int_status = 1;
  reg_int_enable = 1;
  interrupt = true;
}

interrupting-IsBounded : IsBounded interrupting
interrupting-IsBounded = record {
  control = omega arith;
  status = omega arith;
  size = omega arith;
  a_ptr = omega arith;
  b_ptr = omega arith;
  c_ptr = omega arith;
  pending = omega arith;
  enabled = omega arith;
}

abbrev bar0 : Transport Device
bar0 = bar0_b_transport 0

irq_handler-ignored_example :
    (irq_handler (traced (direct 0 bar0)) 0 251 (interrupting, []) 251
      ≡ (irq_handled, (interrupting, write32 0x64 3 ∷ read32 0x24 3 ∷ [])))
    × ((direct 0 bar0).iowrite32 interrupting 1 0x64 ≡ interrupting)
irq_handler-ignored_example =
    irq_handler-ignored 0 (direct 0 bar0) 0 (direct-Reaches 0 bar0) interrupting 251 1
      interrupting-IsBounded

-- The kernel's replies to a probe that succeeds, with the BAR mapped at 0.
abbrev replies : Replies
replies = record {
  alloc_failed = false;
  dev_num = 251 * 2 ^ 20;
  major_of = λ n. n / 2 ^ 20;
  cdev_add_failed = false;
  class = 1;
  class_failed = false;
  device = 2;
  device_failed = false;
  enable_failed = false;
  request_region_failed = false;
  mapping = 0;
  interrupt_line_offset = 0x3C;
  interrupt_line = 11;
  request_irq_failed = false;
  resource_flags = 0x200;
  ioresource_mem = 0x200;
}

pci_probe-replies : (pci_probe replies loaded).code ≡ 0
unfolding pci_probe create_device set_up_pci set_up_irq check_resource
pci_probe-replies = refl

iowrite32-probe_example :
    let after =
      compute_thread word_ops b_transport
        (performed (direct 0 bar0) (pci_probe replies loaded).driver.calls interrupting)
        host_memory in
    (after.device ≡ refused ControllerThread.starting true) × (after.memory ≡ host_memory)
iowrite32-probe_example =
    iowrite32-probe 0 (direct 0 bar0) 0 (direct-Reaches 0 bar0) word_ops b_transport replies
      interrupting host_memory refl pci_probe-replies refl

abbrev dummy : Transport (List (List ℕ))
dummy = Target.b_transport []

-- A device of which every bit of INT_STATUS is set, and what is written: a word with RESET, and
-- eight bytes.
abbrev pending_all : Device
pending_all = record start_of_simulation { reg_int_status = 2 ^ 32 - 1 }

pending_all-IsBounded : IsBounded pending_all
pending_all-IsBounded = record {
  control = omega arith;
  status = omega arith;
  size = omega arith;
  a_ptr = omega arith;
  b_ptr = omega arith;
  c_ptr = omega arith;
  pending = omega arith;
  enabled = omega arith;
}

print_device_info-AllPermit_example :
    AllPermit 0 7 pending_all print_device_info 0xFFFFFFFE (2 ^ 64 - 1) 5
print_device_info-AllPermit_example =
    print_device_info-AllPermit 0 7 pending_all 0xFFFFFFFE (2 ^ 64 - 1) 5 pending_all-IsBounded
      (omega arith) (omega arith) (omega arith)
