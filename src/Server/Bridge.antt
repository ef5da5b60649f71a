-- ===== src/Server/Bridge.antt =====
-- custom-endpoint/qemu-bridge.h: `PCIeQemuBridge::b_transport`, and the socket path of `sc_main` in
-- main.cc.
use pcie_systemc_linux.Prelude.{
  ℕ, Bool, true, false, Option, none, some, List, [], ◌∷◌, ◌++◌, ◌==◌, ◌&&◌, drop, if◌then◌else◌,
}
use pcie_systemc_linux.Tlm.{Transport}

-- It hands the transaction on to what is bound to `init_socket`.
unfoldable pub b_transport : {S : Type 0} → Transport S → Transport S
b_transport init_socket s trans delay = init_socket s trans delay

-- "unix:" and "unix:/tmp/qemu-rport", as their bytes.
abbrev pub unix_prefix : List ℕ
unix_prefix = b'u' ∷ b'n' ∷ b'i' ∷ b'x' ∷ b':' ∷ []

abbrev pub default_descr : List ℕ
default_descr =
    unix_prefix
    ++ (b'/' ∷ b't' ∷ b'm' ∷ b'p' ∷ b'/' ∷ b'q' ∷ b'e' ∷ b'm' ∷ b'u' ∷ b'-' ∷ b'r' ∷ b'p' ∷ b'o'
        ∷ b'r' ∷ b't' ∷ [])

-- strncmp(s, p, 5) == 0 for a `p` of five characters.
abbrev pub starts_with : List ℕ → List ℕ → Bool
starts_with [] s = true
starts_with (p ∷ ps) [] = false
starts_with (p ∷ ps) (c ∷ s) = (c == p) && starts_with ps s

-- The descriptor and the file that `sc_main` takes from its first argument, and whether it
-- unlinks the file, by whether one is there.
pub record Startup : Type 0 where
  pub sk_descr : List ℕ
  pub socket_file : List ℕ
  pub unlinked : Bool

unfoldable pub startup : Option (List ℕ) → (exists : List ℕ → Bool) → Startup
startup argument exists =
    let sk_descr : List ℕ = elim argument [ none ↦ default_descr | some a ↦ a ] in
    let socket_file = if starts_with unix_prefix sk_descr then drop 5 sk_descr else sk_descr in
    record { sk_descr = sk_descr; socket_file = socket_file; unlinked = exists socket_file }
