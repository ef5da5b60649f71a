-- ===== src/Driver/Lifecycle/Resources.antt =====
-- What the driver holds of the kernel after a run of calls.
use pcie_systemc_linux.Prelude.{
  ℕ, Option, none, some, Bool, true, false, List, [], ◌∷◌, ◌==◌, if◌then◌else◌,
}
use pcie_systemc_linux.Driver.Lifecycle.Probe.{
  Call, pci_read_config_byte, alloc_chrdev_region, cdev_init, cdev_add, class_create, device_create,
  pci_enable_device, pci_request_region, pci_iomap, request_irq, iowrite32, device_destroy,
  class_destroy, cdev_del, unregister_chrdev_region, free_irq, pci_iounmap, pci_release_region,
}

pub data Resource : Type 0 where
  numbers character_device class device_file enabled region mapping irq : Resource

abbrev pub tag : Resource → ℕ
tag numbers = 0
tag character_device = 1
tag class = 2
tag device_file = 3
tag enabled = 4
tag region = 5
tag mapping = 6
tag irq = 7

-- The resources of the PCI device, in contrast to those of the character device.
abbrev pub is_pci : Resource → Bool
is_pci numbers = false
is_pci character_device = false
is_pci class = false
is_pci device_file = false
is_pci enabled = true
is_pci region = true
is_pci mapping = true
is_pci irq = true

abbrev gained : Resource → (failed : Bool) → List Resource → List Resource
gained k true held = held
gained k false held = k ∷ held

abbrev pub dropped : Resource → List Resource → List Resource
dropped k [] = []
dropped k (h ∷ held) = let rest = dropped k held in if tag h == tag k then held else h ∷ rest

-- What a call adds to the resources, whether it then is given back or not.
abbrev acquire : Call → List Resource → List Resource
acquire (alloc_chrdev_region failed) held = gained numbers failed held
acquire cdev_init held = held
acquire (cdev_add dev_num failed) held = gained character_device failed held
acquire (class_create failed) held = gained class failed held
acquire (device_create class_of dev_num failed) held = gained device_file failed held
acquire (pci_enable_device failed) held = gained enabled failed held
acquire (pci_request_region failed) held = gained region failed held
acquire pci_iomap held = mapping ∷ held
acquire (pci_read_config_byte offset) held = held
acquire (request_irq line failed) held = gained irq failed held
acquire (iowrite32 value addr) held = held
acquire (device_destroy class_of dev_num) held = held
acquire (class_destroy class_of) held = held
acquire cdev_del held = held
acquire (unregister_chrdev_region dev_num) held = held
acquire (free_irq line) held = held
acquire (pci_iounmap mmio) held = held
acquire pci_release_region held = held

-- Which resource a call gives back, if any.
abbrev pub given_back : Call → Option Resource
given_back (device_destroy class_of dev_num) = some device_file
given_back (class_destroy class_of) = some class
given_back cdev_del = some character_device
given_back (unregister_chrdev_region dev_num) = some numbers
given_back (free_irq line) = some irq
given_back (pci_iounmap mmio) = some mapping
given_back pci_release_region = some region
given_back (alloc_chrdev_region failed) = none
given_back cdev_init = none
given_back (cdev_add dev_num failed) = none
given_back (class_create failed) = none
given_back (device_create class_of dev_num failed) = none
given_back (pci_enable_device failed) = none
given_back (pci_request_region failed) = none
given_back pci_iomap = none
given_back (pci_read_config_byte offset) = none
given_back (request_irq line failed) = none
given_back (iowrite32 value addr) = none

abbrev pub release : Option Resource → List Resource → List Resource
release none held = held
release (some k) held = dropped k held

-- Whether a call gives back what is not held.
abbrev pub is_missing : Resource → List Resource → Bool
is_missing k [] = true
is_missing k (h ∷ held) = let rest = is_missing k held in if tag h == tag k then false else rest

abbrev pub missed : Option Resource → List Resource → List Resource → List Resource
missed none held others = others
missed (some k) held others = if is_missing k held then k ∷ others else others

-- All that the calls acquired, and what of it is still held, the latest first.
abbrev pub acquired : List Call → List Resource
acquired [] = []
acquired (c ∷ cs) = acquire c (acquired cs)

abbrev pub held : List Call → List Resource
held [] = []
held (c ∷ cs) = release (given_back c) (acquire c (held cs))

-- What the calls gave back without holding it.
abbrev pub misreleased : List Call → List Resource
misreleased [] = []
misreleased (c ∷ cs) = missed (given_back c) (held cs) (misreleased cs)

abbrev pub only_pci : List Resource → List Resource
only_pci [] = []
only_pci (k ∷ ks) = let rest = only_pci ks in if is_pci k then k ∷ rest else rest
