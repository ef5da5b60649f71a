-- ===== src/Server/Monitor.antt =====
-- `TrafficMonitor`: it prints each transaction and passes it on.
use pcie_systemc_linux.Prelude.{
  ℕ, Bool, List, [], ◌∷◌, ◌&&◌, ◌≡◌, refl, ap, leb, take, if◌then◌else◌,
}
use pcie_systemc_linux.Prelude.Bytes.{from_le}
use pcie_systemc_linux.Tlm.{Payload, Outcome, Transport, is_read, is_response_ok}

-- A line that it prints.
pub data Line : Type 0 where
  transaction : (reads : Bool) (addr len : ℕ) → Line
  response_data : ℕ → Line

-- The target behind it, and the lines printed, the latest first.
pub record Monitored (S : Type 0) : Type 0 where
  pub target : S
  pub lines : List Line

module _ {S : Type 0} (target_transport : Transport S) where
  unfoldable pub b_transport : Monitored S → Payload → ℕ → Outcome (Monitored S)
  b_transport s trans delay =
      let first = transaction (is_read trans.command) trans.address trans.length ∷ s.lines in
      let r = target_transport s.target trans delay in
      let val = if leb trans.length 4 then from_le (take trans.length r.trans.buffer) else 0 in
      record {
        state = record {
          target = r.state;
          lines =
              if is_read trans.command && is_response_ok r.trans.response
              then response_data val ∷ first
              else first;
        };
        trans = r.trans;
        delay = r.delay;
      }

  -- A sequence of transactions, each with its own delay; what is left of each, in order.
  abbrev pub run_monitored : Monitored S → List Payload → Monitored S × List Payload
  run_monitored s [] = (s, [])
  run_monitored s (p ∷ ps) =
      let r = b_transport s p 0 in let (s', rest) = run_monitored r.state ps in (s', r.trans ∷ rest)

  abbrev pub run_target : S → List Payload → S × List Payload
  run_target s [] = (s, [])
  run_target s (p ∷ ps) =
      let r = target_transport s p 0 in
      let (s', rest) = run_target r.state ps in (s', r.trans ∷ rest)

  -- The monitor is transparent: after any sequence of transactions the target's state, and what
  -- each transaction holds on its return, are those of the target alone.
  pub run_monitored-target :
      (ps : List Payload) (s : Monitored S)
      → ((run_monitored s ps).0.target ≡ (run_target s.target ps).0)
        × ((run_monitored s ps).1 ≡ (run_target s.target ps).1)
  unfolding b_transport
  run_monitored-target [] s = (refl, refl)
  run_monitored-target (p ∷ ps) s =
      let r = b_transport s p 0 in
      let (same_state, same_rest) = run_monitored-target ps r.state in
      (same_state, ap (◌∷◌ r.trans) same_rest)
