-- ===== src/Server/Reachable.antt =====
-- Every history of `MatrixMultiplier`.
use pcie_systemc_linux.Prelude.{ℕ, refl}
use mathlib.Core.Bool.{false≢true}
use pcie_systemc_linux.Prelude.{not, ◌==◌, if_both, take}
use pcie_systemc_linux.Prelude.Bytes.{from_le}
use pcie_systemc_linux.Tlm.{Payload, Outcome, Command, ignore}
use pcie_systemc_linux.Server.Multiplier.{
  b_transport_bar0, serve_word, Multiplier, matrix_multiplier,
}
use pcie_systemc_linux.Server.Fresh.{IsCoherent, handle_write-IsCoherent, handle_read-IsCoherent}

-- The states that transactions on its BAR can bring it to.
pub data Reachable : Multiplier → Type 0 where
  built : Reachable matrix_multiplier
  accessed :
      {m : Multiplier} (trans : Payload) (delay : ℕ)
      → Reachable m
      → Reachable (b_transport_bar0 m trans delay).state

pub built-IsCoherent : IsCoherent matrix_multiplier
built-IsCoherent = record {
  op1_size = refl;
  op2_size = refl;
  result_size = refl;
  cached = λ h. absurd (false≢true h);
  refused = λ h. absurd (false≢true h);
}

pub b_transport_bar0-IsCoherent :
    (m : Multiplier) (trans : Payload) (delay : ℕ)
    → IsCoherent m
    → IsCoherent (b_transport_bar0 m trans delay).state
unfolding b_transport_bar0 serve_word
b_transport_bar0-IsCoherent m trans delay c =
    if_both (λ (x : Outcome Multiplier). IsCoherent x.state) (not (trans.length == 4)) _ _ c
      (served trans.command)
  where
    served : (k : Command) → IsCoherent (serve_word k m trans).0
    served Command.write = handle_write-IsCoherent m trans.address (from_le (take 4 trans.buffer)) c
    served Command.read = handle_read-IsCoherent m trans.address c
    served ignore = handle_read-IsCoherent m trans.address c

-- After any sequence of transactions, a result marked valid is the product of the operands that the
-- device holds, or all ones if its opcode is not multiplication, and the three windows still have
-- sixteen words.
pub Reachable-IsCoherent : (m : Multiplier) → Reachable m → IsCoherent m
Reachable-IsCoherent _ built = built-IsCoherent
Reachable-IsCoherent _ (accessed {m} trans delay r) =
    b_transport_bar0-IsCoherent m trans delay (Reachable-IsCoherent m r)
