-- ===== src/Driver/Lifecycle/Unwind.antt =====
-- What the driver holds of the kernel after a probe, and after a remove, whatever it held before.
use pcie_systemc_linux.Prelude.{
  ℕ, zero, suc, ◌+◌, ◌≡◌, refl, sym, ap, ◌∙◌, inl, inr, Bool-cases, Bool, true, false, not, List,
  [], ◌∷◌, ◌++◌, ◌==◌, if◌then◌else◌, bit_and, arith,
}
use pcie_systemc_linux.Driver.Lifecycle.Probe.{
  Call, Driver, Replies, Probed, pci_probe, read_config, call, pci_read_config_byte,
  alloc_chrdev_region, cdev_init, cdev_add, class_create, device_create, pci_enable_device,
  pci_request_region, pci_iomap, request_irq, pci_remove, check_resource, set_up_irq, set_up_pci,
  create_device,
}
use pcie_systemc_linux.Driver.Lifecycle.Resources.{
  Resource, numbers, character_device, class, device_file, enabled, region, mapping, irq, acquired,
  held, misreleased, only_pci,
}

-- Reading the configuration space takes nothing.
read_config_keeps :
    (rounds i : ℕ) (s : Driver)
    → (held (read_config rounds i s).calls ≡ held s.calls)
      × (acquired (read_config rounds i s).calls ≡ acquired s.calls)
      × (misreleased (read_config rounds i s).calls ≡ misreleased s.calls)
read_config_keeps zero i s = (refl, refl, refl)
read_config_keeps (suc rounds) i s =
    read_config_keeps rounds (i + 1) (call s (pci_read_config_byte i))

-- The driver as it is loaded.
abbrev pub loaded : Driver
loaded = record {
  pci_irq = 0;
  major = 0;
  mmio = 0;
  cpcidev_class = 0;
  cpcidev_device = 0;
  dev_num = 0;
  calls = [];
}

abbrev pub left_after : Probed → List Resource
left_after p = if p.code == 0 then acquired p.driver.calls else only_pci (acquired p.driver.calls)

-- The eight resources, the latest first.
abbrev pub everything : List Resource
everything =
    irq ∷ mapping ∷ region ∷ enabled ∷ device_file ∷ class ∷ character_device ∷ numbers ∷ []

-- The last steps, once everything is acquired: from two drivers, one of which held more before.
check_resource_leaves :
    (r : Replies) (s t : Driver) (before : List Resource)
    → held s.calls ≡ everything ++ before
    → acquired t.calls ≡ everything
    → (held (check_resource r s).driver.calls ≡ left_after (check_resource r t) ++ before)
      × ((check_resource r s).code ≡ (check_resource r t).code)
      × ((check_resource r s).code ≡ 0
          → held (check_resource r s).driver.calls ≡ everything ++ before)
      × (misreleased (check_resource r s).driver.calls ≡ misreleased s.calls)
unfolding check_resource
check_resource_leaves r s t before h a =
    elim (Bool-cases (not (bit_and r.resource_flags r.ioresource_mem == r.ioresource_mem))) [
      | inl other ↦ rw (other, a, h) (refl, refl, λ e. absurd (omega arith), refl)
      | inr memory ↦
          let kept = (read_config_keeps 64 0 s).0 ∙ h in
          rw memory (
            kept ∙ ap (λ k. k ++ before) (sym a ∙ sym (read_config_keeps 64 0 t).1),
            refl,
            λ e. kept,
            (read_config_keeps 64 0 s).2,
          )
    ]

-- The driver when every call up to the interrupt has succeeded.
abbrev pub complete : Replies → List Call → Driver
complete r calls = record {
  pci_irq = r.interrupt_line;
  major = r.major_of r.dev_num;
  mmio = r.mapping;
  cpcidev_class = r.class;
  cpcidev_device = r.device;
  dev_num = r.dev_num;
  calls =
      request_irq r.interrupt_line false
      ∷ pci_read_config_byte r.interrupt_line_offset
      ∷ pci_iomap
      ∷ pci_request_region false
      ∷ pci_enable_device false
      ∷ device_create r.class r.dev_num false
      ∷ class_create false
      ∷ cdev_add r.dev_num false
      ∷ cdev_init
      ∷ alloc_chrdev_region false
      ∷ calls;
}

-- What a probe leaves acquired, whatever the driver `s` held before: what it leaves when the
-- driver was just loaded, and everything when it succeeds. It gives nothing back twice.
abbrev Leaves : Replies → Driver → Type 0
Leaves r s =
    (held (pci_probe r s).driver.calls ≡ left_after (pci_probe r loaded) ++ held s.calls)
    × ((pci_probe r s).code ≡ (pci_probe r loaded).code)
    × ((pci_probe r s).code ≡ 0 → held (pci_probe r s).driver.calls ≡ everything ++ held s.calls)
    × (misreleased (pci_probe r s).driver.calls ≡ misreleased s.calls)

-- The steps by whether each call fails.
pci_probe_by_failure :
    (r : Replies) (s : Driver) (alloc add class_fails device_fails enable request irq_fails : Bool)
    → Leaves
        (record r {
          alloc_failed = alloc;
          cdev_add_failed = add;
          class_failed = class_fails;
          device_failed = device_fails;
          enable_failed = enable;
          request_region_failed = request;
          request_irq_failed = irq_fails;
        })
        s
unfolding pci_probe create_device set_up_pci set_up_irq
pci_probe_by_failure r s true add c d e q i = (refl, refl, λ p. absurd (omega arith), refl)
pci_probe_by_failure r s false true c d e q i = (refl, refl, λ p. absurd (omega arith), refl)
pci_probe_by_failure r s false false true d e q i = (refl, refl, λ p. absurd (omega arith), refl)
pci_probe_by_failure r s false false false true e q i =
    (refl, refl, λ p. absurd (omega arith), refl)
pci_probe_by_failure r s false false false false true q i =
    (refl, refl, λ p. absurd (omega arith), refl)
pci_probe_by_failure r s false false false false false true i =
    (refl, refl, λ p. absurd (omega arith), refl)
pci_probe_by_failure r s false false false false false false true =
    (refl, refl, λ p. absurd (omega arith), refl)
pci_probe_by_failure r s false false false false false false false =
    check_resource_leaves r (complete r s.calls) (complete r []) (held s.calls) refl refl

pub pci_probe-Leaves : (r : Replies) (s : Driver) → Leaves r s
pci_probe-Leaves r s =
    pci_probe_by_failure r s r.alloc_failed r.cdev_add_failed r.class_failed r.device_failed
      r.enable_failed r.request_region_failed r.request_irq_failed

-- A probe, whatever the driver held before, that succeeds holds all that it acquired; one that
-- fails, at whatever step, has given back all that it acquired of the character device, and keeps
-- all that it acquired of the PCI device.
pub held-pci_probe :
    (r : Replies) (s : Driver)
    → held (pci_probe r s).driver.calls ≡ left_after (pci_probe r loaded) ++ held s.calls
held-pci_probe r s = (pci_probe-Leaves r s).0

pub pci_remove_leaves :
    (s : Driver) (before : List Resource)
    → held s.calls ≡ everything ++ before
    → (held (pci_remove s).calls ≡ enabled ∷ before)
      × (misreleased (pci_remove s).calls ≡ misreleased s.calls)
unfolding pci_remove
pci_remove_leaves s before h = rw h (refl, refl)

-- A remove after a probe that succeeded gives back everything that the probe acquired, except that
-- the PCI device stays enabled.
held-pci_remove :
    (r : Replies) (s : Driver)
    → (pci_probe r s).code ≡ 0
    → held (pci_remove (pci_probe r s).driver).calls ≡ enabled ∷ held s.calls
held-pci_remove r s p =
    (pci_remove_leaves (pci_probe r s).driver (held s.calls) ((pci_probe-Leaves r s).2 p)).0
