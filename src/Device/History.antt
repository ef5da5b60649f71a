-- ===== src/Device/History.antt =====
-- Every history of the device: accesses of BAR0, steps of its two threads, in any order, with
-- anything behind its DMA socket.
use pcie_systemc_linux.Device.Access.{accessed_both, controlled_all, value_of, value64_of}
use pcie_systemc_linux.Prelude.{
  ℕ, zero, suc, ◌≤◌, ◌≡◌, refl, ◌∙◌, inl, inr, ◌==◌, ◌||◌, ltb, Bool-cases, Bool, true, false, List,
  length-replicate, if_both, ltb→lt, bit_or, ◌≢◌, arith,
}
use pcie_systemc_linux.Tlm.{Payload, Transport}
use pcie_systemc_linux.Device.State.{
  Device, Progress, ComputeThread, waiting, woken, running, reading_a, reading_b, row_done,
  writing_c, update_interrupt, start_of_simulation, interrupt_controller,
}
use pcie_systemc_linux.Device.Mmio.{bar0_b_transport}
use pcie_systemc_linux.Device.Compute.{
  FloatOps, Suspended, finish, compute_thread, accept_request, resume_thread, resume_multiply,
  perform_matrix_multiply, read_matrix_a, read_matrix_b, write_matrix_c, row_step,
}
use pcie_systemc_linux.Device.Multiply.Product.{elements_lem, length-row_loop}
use pcie_systemc_linux.Device.Sound.{
  IsSound, IsSized, IsRunning, IsSize, write_register-IsSound, length-bytes_to_words,
}

-- Where the thread stands matters only to `busy` and `sized`.
moved :
    (d : Device) (t : ComputeThread)
    → IsSound d
    → IsRunning t
    → IsSized t
    → IsSound (record d { compute = t })
moved d t i r s = record { status = i.status; busy = λ e. r; sized = s; pending = i.pending }

pub bit_or_one : (s : ℕ) → s ≤ 1 → bit_or s 1 ≡ 1
bit_or_one zero h = refl
bit_or_one (suc zero) h = refl
bit_or_one (suc (suc s)) h = absurd (omega arith)

finish-IsSound : (success : Bool) (d : Device) → d.reg_int_status ≤ 1 → IsSound (finish success d)
unfolding finish update_interrupt
finish-IsSound true d p = record {
  status = inr (inr (inl refl));
  busy = λ e. absurd (omega arith);
  sized = tt;
  pending = omega (arith, bit_or_one d.reg_int_status p);
}
finish-IsSound false d p = record {
  status = inr (inr (inr refl));
  busy = λ e. absurd (omega arith);
  sized = tt;
  pending = p;
}

module _ (float : FloatOps) {M : Type 0} (transport : Transport M) where
  row_step-IsSound :
      (n i : ℕ) (matrix_a matrix_b matrix_c : List ℕ) (d : Device) (m : M)
      → IsSized (running (row_done n i matrix_a matrix_b matrix_c))
      → IsSound d
      → IsSound (row_step float transport n i matrix_a matrix_b matrix_c d m).device
  unfolding row_step write_matrix_c
  row_step-IsSound n i matrix_a matrix_b matrix_c d m (size, rows, a, b, c) s =
      elim (Bool-cases (ltb i n)) [
        | inl more ↦ rw more (
            moved d _ s tt (
              size,
              omega (arith, ltb→lt i n more),
              a,
              b,
              length-row_loop float n matrix_a matrix_b size.1 i (ltb→lt i n more) n 0 matrix_c ∙ c,
            ))
        | inr last ↦ rw last (moved d _ s tt size)
      ]

  resume_multiply-IsSound :
      (p : Progress) (d : Device) (m : M)
      → IsSized (running p)
      → IsSound d
      → IsSound (resume_multiply float transport p d m).device
  unfolding resume_multiply read_matrix_b
  resume_multiply-IsSound (reading_a n matrix_a true) d m (size, a) s =
      moved d _ s tt (size, a, length-bytes_to_words _ _ ∙ elements_lem n size.1)
  resume_multiply-IsSound (reading_a n matrix_a false) d m h s = finish-IsSound false d s.pending
  resume_multiply-IsSound (reading_b n matrix_a matrix_b true) d m (size, a, b) s =
      row_step-IsSound n 0 matrix_a matrix_b _ d m
        (size, omega arith, a, b, length-replicate _ _ ∙ elements_lem n size.1) s
  resume_multiply-IsSound (reading_b n matrix_a matrix_b false) d m h s =
      finish-IsSound false d s.pending
  resume_multiply-IsSound (row_done n rows matrix_a matrix_b matrix_c) d m h s =
      row_step-IsSound n rows matrix_a matrix_b matrix_c d m h s
  resume_multiply-IsSound (writing_c n success) d m h s = finish-IsSound success d s.pending

  accept_request-IsSound :
      (d : Device) (m : M)
      → d.reg_status ≢ 2
      → IsSound d
      → IsSound (accept_request float transport d m).device
  unfolding accept_request perform_matrix_multiply read_matrix_a
  accept_request-IsSound d m free i =
      if_both IsSoundAfter d.computation_requested (perform_matrix_multiply float transport busy m)
        _
        (elim (Bool-cases (d.reg_dim_n == 0 || ltb 256 d.reg_dim_n)) [
          | inl bad ↦ rw bad (finish-IsSound false busy i.pending)
          | inr good ↦
              let size : IsSize d.reg_dim_n = ground arith in
              rw good (record {
                status = inr (inl refl);
                busy = λ e. tt;
                sized = (size, length-bytes_to_words _ _ ∙ elements_lem d.reg_dim_n size.1);
                pending = i.pending;
              })
        ])
        (record { status = i.status; busy = λ e. free e; sized = tt; pending = i.pending })
    where
      IsSoundAfter : Suspended M → Type 0
      IsSoundAfter x = IsSound x.device

      busy : Device
      busy = record d { reg_status = 2; computation_requested = false }

  compute_thread-IsSound :
      (d : Device) (m : M) → IsSound d → IsSound (compute_thread float transport d m).device
  unfolding compute_thread resume_thread
  compute_thread-IsSound d m i = resumed d.compute i.busy i.sized
    where
      resumed :
          (t : ComputeThread)
          → (d.reg_status ≡ 2 → IsRunning t)
          → IsSized t
          → IsSound (resume_thread float transport t d m).device
      resumed waiting busy h = i
      resumed woken busy h = accept_request-IsSound d m busy i
      resumed (running p) busy h = resume_multiply-IsSound p d m h i

interrupt_controller-IsSound : (d : Device) → IsSound d → IsSound (interrupt_controller d)
interrupt_controller-IsSound d i =
    controlled_all IsSound d
      (λ t line. record { status = i.status; busy = i.busy; sized = i.sized; pending = i.pending })

bar0_b_transport-IsSound :
    (behind : ℕ) (d : Device) (trans : Payload) (delay : ℕ)
    → IsSound d
    → IsSound (bar0_b_transport behind d trans delay).state
bar0_b_transport-IsSound behind d trans delay i =
    accessed_both IsSound behind d trans delay i
      (write_register-IsSound d trans.address trans.length (value_of trans) (value64_of trans) i)

-- The states that a device with the given arithmetic can come to, from the start of simulation
-- on: an access of BAR0, a step of the compute thread, with any target behind the DMA socket and
-- in any state, and a step of the interrupt controller.
pub data Reachable (float : FloatOps) : Device → Type 1 where
  started : Reachable float start_of_simulation
  accessed :
      {d : Device} (behind : ℕ) (trans : Payload) (delay : ℕ)
      → Reachable float d
      → Reachable float (bar0_b_transport behind d trans delay).state
  computed :
      {d : Device} {M : Type 0} (transport : Transport M) (m : M)
      → Reachable float d
      → Reachable float (compute_thread float transport d m).device
  controlled : {d : Device} → Reachable float d → Reachable float (interrupt_controller d)

-- In every history: STATUS reads IDLE, BUSY, IDLE with DONE, or IDLE with ERROR; it reads BUSY
-- only while the thread is inside a multiplication; the size of a multiplication under way is
-- from 1 to 256 and its vectors have a cell for each index that the loops use; and INT_STATUS is
-- 0 or 1.
pub Reachable-IsSound : (float : FloatOps) (d : Device) → Reachable float d → IsSound d
Reachable-IsSound float _ started = record {
  status = inl refl;
  busy = λ e. absurd (omega arith);
  sized = tt;
  pending = omega arith;
}
Reachable-IsSound float _ (accessed {d} behind trans delay r) =
    bar0_b_transport-IsSound behind d trans delay (Reachable-IsSound float d r)
Reachable-IsSound float _ (computed {d} transport m r) =
    compute_thread-IsSound float transport d m (Reachable-IsSound float d r)
Reachable-IsSound float _ (controlled {d} r) =
    interrupt_controller-IsSound d (Reachable-IsSound float d r)
