-- ===== src/Driver/Lifecycle/Above.antt =====
-- Two runs of the driver's calls, of which one began with more held: a remove does the same in both.
use pcie_systemc_linux.Prelude.{
  ◌≡◌, refl, ap, inl, inr, Bool-cases, true, false, ◌==◌, List, [], ◌∷◌, ◌++◌, if◌then◌else◌, some,
  arith,
}
use pcie_systemc_linux.Driver.Lifecycle.Probe.{Driver, pci_remove}
use pcie_systemc_linux.Driver.Lifecycle.Resources.{
  Resource, numbers, character_device, class, device_file, enabled, region, mapping, irq, tag,
  dropped, missed, held, misreleased, is_missing,
}

dropped-is_missing :
    (k : Resource) (before : List Resource) → is_missing k before ≡ true → dropped k before ≡ before
dropped-is_missing k [] = λ e. refl
dropped-is_missing k (h ∷ before) = elim (Bool-cases (tag h == tag k)) [
  | inl same ↦ rw same (λ e. absurd (ground arith))
  | inr other ↦ rw other (λ e. ap (◌∷◌ h) (dropped-is_missing k before e))
]

-- What is held below does not matter for a resource that is not there.
dropped-append :
    (k : Resource) (ks before : List Resource)
    → is_missing k before ≡ true
    → dropped k (ks ++ before) ≡ dropped k ks ++ before
dropped-append k [] before e = dropped-is_missing k before e
dropped-append k (h ∷ ks) before e = elim (Bool-cases (tag h == tag k)) [
  | inl same ↦ rw same refl
  | inr other ↦ rw other (ap (◌∷◌ h) (dropped-append k ks before e))
]

is_missing-append :
    (k : Resource) (ks before : List Resource)
    → is_missing k before ≡ true
    → is_missing k (ks ++ before) ≡ is_missing k ks
is_missing-append k [] before e = e
is_missing-append k (h ∷ ks) before e =
    ap (λ rest. if tag h == tag k then false else rest) (is_missing-append k ks before e)

-- Everything but the enabled device is missing.
abbrev pub OnlyEnabled : List Resource → Type 0
OnlyEnabled before = (k : Resource) → (tag enabled == tag k) ≡ false → is_missing k before ≡ true

module _ (before others : List Resource) where
  -- Two runs of calls, the first of which had `before` held and `others` misreleased at its start.
  abbrev pub Above : (held_s held_t missed_s missed_t : List Resource) → Type 0
  Above held_s held_t missed_s missed_t =
      (held_s ≡ held_t ++ before) × (missed_s ≡ missed_t ++ others)

  module _ (only : OnlyEnabled before) where
    give_back :
        (k : Resource) (held_s held_t missed_s missed_t : List Resource)
        → (tag enabled == tag k) ≡ false
        → Above held_s held_t missed_s missed_t
        → Above
            (dropped k held_s)
            (dropped k held_t)
            (missed (some k) held_s missed_s)
            (missed (some k) held_t missed_t)
    give_back k held_s held_t missed_s missed_t e (h, m) =
        rw (h, m)
          (
            dropped-append k held_t before (only k e),
            rw (is_missing-append k held_t before (only k e))
                (elim (Bool-cases (is_missing k held_t)) [ inl t ↦ rw t refl | inr f ↦ rw f refl ]),
          )

    pub pci_remove-Above :
        (s t : Driver)
        → Above (held s.calls) (held t.calls) (misreleased s.calls) (misreleased t.calls)
        → Above
            (held (pci_remove s).calls)
            (held (pci_remove t).calls)
            (misreleased (pci_remove s).calls)
            (misreleased (pci_remove t).calls)
    unfolding pci_remove
    pci_remove-Above s t above = give_back numbers _ _ _ _ refl (
        give_back character_device _ _ _ _ refl (
          give_back class _ _ _ _ refl (
            give_back device_file _ _ _ _ refl (
              give_back region _ _ _ _ refl
                (give_back mapping _ _ _ _ refl (give_back irq _ _ _ _ refl above))))))
