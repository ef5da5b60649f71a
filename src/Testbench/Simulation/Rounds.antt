-- ===== src/Testbench/Simulation/Rounds.antt =====
-- The simulation in rounds: each thread takes one step in each round, in an order of its own.
use pcie_systemc_linux.Prelude.{
  ℕ, ◌-◌, ◌≤◌, ◌<◌, ◌≡◌, inl, inr, Bool, true, false, ◌==◌, Bool-cases, List, [], ◌∷◌, ◌++◌, arith,
}
use mathlib.Core.Path.{subst}
use pcie_systemc_linux.Device.State.{ControllerThread, unstarted, starting, waiting, woken}
use pcie_systemc_linux.Testbench.Simulation.Phases.{
  at_status, at_n, at_a, at_b, at_c, at_enable, at_start,
}
use pcie_systemc_linux.Testbench.Simulation.Schedule.{Thread, test, compute, control}
use pcie_systemc_linux.Testbench.Simulation.Stages.{
  Stage, early, counting, ended, received, known, stopped, step,
}

-- The order of the threads in a round: who comes first, and who of the others.
pub data Order : Type 0 where
  test_compute_control test_control_compute compute_test_control : Order
  compute_control_test control_test_compute control_compute_test : Order

abbrev pub round : Order → List Thread
round test_compute_control = test ∷ compute ∷ control ∷ []
round test_control_compute = test ∷ control ∷ compute ∷ []
round compute_test_control = compute ∷ test ∷ control ∷ []
round compute_control_test = compute ∷ control ∷ test ∷ []
round control_test_compute = control ∷ test ∷ compute ∷ []
round control_compute_test = control ∷ compute ∷ test ∷ []

abbrev pub rounds : List Order → List Thread
rounds [] = []
rounds (o ∷ os) = round o ++ rounds os

abbrev pub steps : List Thread → Stage → Stage
steps [] x = x
steps (t ∷ ts) x = steps ts (step t x)

-- The stages that a round can begin in. The controller has started before the multiplication does,
-- so that its end is not the notification that starts it.
pub data Regular : Stage → Type 0 where
  unread : {status : ℕ} → Regular (early at_status unstarted status)
  without_n : {status : ℕ} → Regular (early at_n unstarted status)
  without_a : {status : ℕ} → Regular (early at_a unstarted status)
  without_b : {status : ℕ} → Regular (early at_b unstarted status)
  without_c : {status : ℕ} → Regular (early at_c unstarted status)
  disabled : {status : ℕ} → Regular (early at_enable unstarted status)
  notified : {status : ℕ} → Regular (early at_start starting status)
  attentive : {status : ℕ} → Regular (early at_start waiting status)
  multiplying : {j status : ℕ} → j < 8 → Regular (counting j waiting status)
  undriven : {status : ℕ} → Regular (ended woken false status)
  driven : {status : ℕ} → Regular (ended waiting true status)
  interrupted : Regular (received waiting true)
  informed : Regular (known waiting true)
  finished : {c : ControllerThread} {i : Bool} → Regular (stopped c i)

-- The rounds that are left.
abbrev pub left : Stage → ℕ
left (early at_status c status) = 19
left (early at_n c status) = 18
left (early at_a c status) = 17
left (early at_b c status) = 16
left (early at_c c status) = 15
left (early at_enable c status) = 14
left (early at_start c status) = 13
left (counting j c status) = 12 - j
left (ended c false status) = 4
left (ended c true status) = 3
left (received c i) = 2
left (known c i) = 1
left (stopped c i) = 0

abbrev pub Nearer : ℕ → Stage → Type 0
Nearer k x = Regular x × (left x ≤ k)

-- The last step of the multiplication.
progress-last : (o : Order) (status : ℕ) → Nearer 4 (steps (round o) (counting 7 waiting status))
progress-last test_compute_control status = (driven, omega arith)
progress-last test_control_compute status = (undriven, omega arith)
progress-last compute_test_control status = (driven, omega arith)
progress-last compute_control_test status = (interrupted, omega arith)
progress-last control_test_compute status = (undriven, omega arith)
progress-last control_compute_test status = (undriven, omega arith)

progress-multiplying :
    (o : Order) (j status : ℕ)
    → j < 8
    → Nearer (11 - j) (steps (round o) (counting j waiting status))
progress-multiplying o j status h = elim (Bool-cases (j == 7)) [
  | inl last ↦
      let e : 7 ≡ j = ground arith in
      subst (λ j. Nearer (11 - j) (steps (round o) (counting j waiting status))) e
        (progress-last o status)
  | inr more ↦ later o more (ground arith)
]
  where
    later :
        (o : Order)
        → (j == 7) ≡ false
        → j < 7
        → Nearer (11 - j) (steps (round o) (counting j waiting status))
    later test_compute_control e l = rw e (multiplying (omega arith), omega arith)
    later _ e l = rw e (multiplying (omega arith), omega arith)

-- A round leaves one round less.
pub progress : (o : Order) (x : Stage) → Regular x → Nearer (left x - 1) (steps (round o) x)
progress test_compute_control _ unread = (without_n, omega arith)
progress _ _ unread = (without_n, omega arith)
progress test_compute_control _ without_n = (without_a, omega arith)
progress _ _ without_n = (without_a, omega arith)
progress test_compute_control _ without_a = (without_b, omega arith)
progress _ _ without_a = (without_b, omega arith)
progress test_compute_control _ without_b = (without_c, omega arith)
progress _ _ without_b = (without_c, omega arith)
progress test_compute_control _ without_c = (disabled, omega arith)
progress _ _ without_c = (disabled, omega arith)
progress test_compute_control _ disabled = (attentive, omega arith)
progress test_control_compute _ disabled = (attentive, omega arith)
progress compute_test_control _ disabled = (attentive, omega arith)
progress compute_control_test _ disabled = (notified, omega arith)
progress control_test_compute _ disabled = (notified, omega arith)
progress control_compute_test _ disabled = (notified, omega arith)
progress test_compute_control _ notified = (multiplying (omega arith), omega arith)
progress _ _ notified = (multiplying (omega arith), omega arith)
progress test_compute_control _ attentive = (multiplying (omega arith), omega arith)
progress _ _ attentive = (multiplying (omega arith), omega arith)
progress o _ (multiplying {j} {status} h) =
    let (regular, near) = progress-multiplying o j status h in (regular, omega arith)
progress test_compute_control _ undriven = (driven, omega arith)
progress test_control_compute _ undriven = (driven, omega arith)
progress compute_test_control _ undriven = (driven, omega arith)
progress compute_control_test _ undriven = (interrupted, omega arith)
progress control_test_compute _ undriven = (interrupted, omega arith)
progress control_compute_test _ undriven = (interrupted, omega arith)
progress test_compute_control _ driven = (interrupted, omega arith)
progress _ _ driven = (interrupted, omega arith)
progress test_compute_control _ interrupted = (informed, omega arith)
progress _ _ interrupted = (informed, omega arith)
progress test_compute_control _ informed = (finished, omega arith)
progress _ _ informed = (finished, omega arith)
progress test_compute_control _ finished = (finished, omega arith)
progress _ _ finished = (finished, omega arith)
