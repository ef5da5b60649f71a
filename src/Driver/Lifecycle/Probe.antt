-- ===== src/Driver/Lifecycle/Probe.antt =====
-- `pci_probe` and `pci_remove`: which kernel functions they call, in which order. What the kernel replies is a parameter, and so are its constants.
use pcie_systemc_linux.Prelude.{
  ℕ, zero, suc, ◌+◌, Bool, not, List, ◌∷◌, bit_and, ◌==◌, if◌then◌else◌,
}

-- A call with the arguments that the driver computes, and for the calls that can fail whether
-- this one did, as the driver tests it.
pub data Call : Type 0 where
  alloc_chrdev_region : (failed : Bool) → Call
  cdev_init : Call
  cdev_add : (dev_num : ℕ) (failed : Bool) → Call
  class_create : (failed : Bool) → Call
  device_create : (class dev_num : ℕ) (failed : Bool) → Call
  pci_enable_device : (failed : Bool) → Call
  pci_request_region : (failed : Bool) → Call
  pci_iomap : Call
  pci_read_config_byte : (offset : ℕ) → Call
  request_irq : (irq : ℕ) (failed : Bool) → Call
  iowrite32 : (value addr : ℕ) → Call
  device_destroy : (class dev_num : ℕ) → Call
  class_destroy : (class : ℕ) → Call
  cdev_del : Call
  unregister_chrdev_region : (dev_num : ℕ) → Call
  free_irq : (irq : ℕ) → Call
  pci_iounmap : (mmio : ℕ) → Call
  pci_release_region : Call

-- The static variables of the file, and the calls so far, the latest first.
pub record Driver : Type 0 where
  pub pci_irq : ℕ
  pub major : ℕ
  pub mmio : ℕ
  pub cpcidev_class : ℕ
  pub cpcidev_device : ℕ
  pub dev_num : ℕ
  pub calls : List Call

abbrev pub call : Driver → Call → Driver
call s c = record s { calls = c ∷ s.calls }

-- The kernel's replies to one probe. `major_of` is MAJOR, `ioresource_mem` is IORESOURCE_MEM, and
-- `interrupt_line_offset` is PCI_INTERRUPT_LINE.
pub record Replies : Type 0 where
  pub alloc_failed : Bool
  pub dev_num : ℕ
  pub major_of : ℕ → ℕ
  pub cdev_add_failed : Bool
  pub class : ℕ
  pub class_failed : Bool
  pub device : ℕ
  pub device_failed : Bool
  pub enable_failed : Bool
  pub request_region_failed : Bool
  pub mapping : ℕ
  pub interrupt_line_offset : ℕ
  pub interrupt_line : ℕ
  pub request_irq_failed : Bool
  pub resource_flags : ℕ
  pub ioresource_mem : ℕ

-- What `pci_probe` returns and leaves.
pub record Probed : Type 0 where
  pub code : ℕ
  pub driver : Driver

-- The labels at its end, the last first; each falls through to the one below it.
abbrev error : Driver → Probed
error s = record { code = 1; driver = s }

abbrev error_cdev_add : Driver → Probed
error_cdev_add s = error (call s (unregister_chrdev_region s.dev_num))

abbrev error_class : Driver → Probed
error_class s = error_cdev_add (call s cdev_del)

abbrev error_device : Driver → Probed
error_device s = error_class (call s (class_destroy s.cpcidev_class))

abbrev error_pci : Driver → Probed
error_pci s = error_device (call s (device_destroy s.cpcidev_class s.dev_num))

-- The loop over the configuration space: `rounds` bytes from `i` on.
abbrev pub read_config : ℕ → ℕ → Driver → Driver
read_config zero i s = s
read_config (suc rounds) i s = read_config rounds (i + 1) (call s (pci_read_config_byte i))

module _ (r : Replies) where
  -- `pci_probe` from the comment "Optional sanity checks" on.
  unfoldable pub check_resource : Driver → Probed
  check_resource s =
      if not (bit_and r.resource_flags r.ioresource_mem == r.ioresource_mem)
      then error_pci s
      else (let s' = read_config 64 0 s in
          record { code = 0; driver = call s' (iowrite32 0xAB s'.mmio) })

  -- From the comment "IRQ setup" on.
  unfoldable pub set_up_irq : Driver → Probed
  unfolding check_resource
  set_up_irq s =
      let read = record (call s (pci_read_config_byte r.interrupt_line_offset)) {
        pci_irq = r.interrupt_line;
      } in
      let requested = call read (request_irq read.pci_irq r.request_irq_failed) in
      if r.request_irq_failed then error_pci requested else check_resource requested

  -- From `pci_enable_device` on.
  unfoldable pub set_up_pci : Driver → Probed
  unfolding set_up_irq
  set_up_pci s =
      let enabled = call s (pci_enable_device r.enable_failed) in
      let requested = call enabled (pci_request_region r.request_region_failed) in
      if r.enable_failed
      then error_pci enabled
      else if r.request_region_failed
      then error_pci requested
      else set_up_irq (record (call requested pci_iomap) { mmio = r.mapping })

  -- From `class_create` on.
  unfoldable pub create_device : Driver → Probed
  unfolding set_up_pci
  create_device s =
      let with_class = record (call s (class_create r.class_failed)) { cpcidev_class = r.class } in
      let with_device =
        record (call with_class (device_create r.class with_class.dev_num r.device_failed)) {
          cpcidev_device = r.device;
        } in
      if r.class_failed
      then error_class with_class
      else if r.device_failed
      then error_device with_device
      else set_up_pci with_device

  unfoldable pub pci_probe : Driver → Probed
  unfolding create_device
  pci_probe s =
      let allocated = call s (alloc_chrdev_region r.alloc_failed) in
      let numbered =
        call (record allocated { dev_num = r.dev_num; major = r.major_of r.dev_num }) cdev_init in
      let added = call numbered (cdev_add r.dev_num r.cdev_add_failed) in
      if r.alloc_failed
      then error allocated
      else if r.cdev_add_failed
      then error_cdev_add added
      else create_device added

unfoldable pub pci_remove : Driver → Driver
pci_remove s =
    let s1 = call s (free_irq s.pci_irq) in
    let s2 = call s1 (pci_iounmap s.mmio) in
    let s3 = call s2 pci_release_region in
    let s4 = call s3 (device_destroy s.cpcidev_class s.dev_num) in
    let s5 = call s4 (class_destroy s.cpcidev_class) in
    let s6 = call s5 cdev_del in call s6 (unregister_chrdev_region s.dev_num)
