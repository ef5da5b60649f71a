-- ===== src/System/Alike.antt =====
-- `IOCTL_GET_RESULT` on a result window whose words all read alike.
use pcie_systemc_linux.Prelude.{ℕ, ◌+◌, ◌*◌, ◌<◌, ◌≡◌, ap, ◌∙◌, ◌==◌, replicate, if_both}
use pcie_systemc_linux.Prelude.Bytes.{words_to_bytes}
use pcie_systemc_linux.Driver.Kernel.{IoctlAbi, UserSpace, Mmio}
use pcie_systemc_linux.Driver.Ioctl.{
  ioctl_get_result, dev_ioctl, get_result, read_rows, result_offset, Called,
}
use pcie_systemc_linux.Driver.Dispatch.{dev_ioctl-result}
use pcie_systemc_linux.Driver.Bus.{read_rows-replicate}

module _ (abi : IoctlAbi) {U B : Type 0} (space : UserSpace U) (io : Mmio B) (mmio word : ℕ)
    (alike : (b : B) (k : ℕ)
      → k < 16
      → (io.ioread32 b (mmio + result_offset + k * 4)).0 ≡ word) where
  pub dev_ioctl-alike :
      (u : U) (b : B) (arg : ℕ)
      → (dev_ioctl abi space io mmio u b (ioctl_get_result abi) arg).user
        ≡ (space.copy_to_user u arg (words_to_bytes (replicate 16 word))).1
  unfolding get_result
  dev_ioctl-alike u b arg =
      ap (λ (r : Called U B). r.user) (dev_ioctl-result abi space io mmio u b arg)
      ∙ if_both (λ (r : Called U B). r.user ≡ copied.1) (_ == 0) _ _ same same
    where
      copied : ℕ × U
      copied = space.copy_to_user u arg (words_to_bytes (replicate 16 word))

      same :
          (space.copy_to_user u arg
            (words_to_bytes (read_rows io 4 (mmio + result_offset) 0 b).0)).1
          ≡ copied.1
      same =
          ap (λ k. (space.copy_to_user u arg (words_to_bytes k)).1)
            (read_rows-replicate io (mmio + result_offset) word alike b)
