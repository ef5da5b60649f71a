-- ===== src/Device/Multiply/Undisturbed.antt =====
-- The product under way, whatever is written to the registers meanwhile.
use mathlib.Core.Path.{subst}
use pcie_systemc_linux.Prelude.{
  ℕ, zero, suc, ◌+◌, ◌<◌, ◌≤◌, ◌≡◌, refl, sym, ap, ◌∙◌, ◌⊎◌, inl, inr, true, false, ◌||◌, ◌==◌, ltb,
  ltb→lt, List, Bool, Bool-cases, if_both, ap₂, replicate, arith,
}
use native.Mathlib.Numerals.{add-one}
use pcie_systemc_linux.Prelude.Bytes.{words_to_bytes}
use pcie_systemc_linux.Tlm.{Transport}
use pcie_systemc_linux.Device.State.{
  Device, Progress, ComputeThread, waiting, woken, running, reading_a, reading_b, row_done,
  writing_c, notify_start, update_interrupt,
}
use pcie_systemc_linux.Device.Compute.{
  FloatOps, Suspended, elements, byte_count, finish, compute_thread, accept_request, resume_thread,
  resume_multiply, perform_matrix_multiply, read_matrix_a, read_matrix_b, write_matrix_c, row_step,
  row_loop, dma_write,
}
use pcie_systemc_linux.Device.Multiply.Product.{rows_from, matrix_product}
use pcie_systemc_linux.Device.History.{
  Reachable, Reachable-IsSound, started, accessed, computed, controlled,
}
use pcie_systemc_linux.Device.Sound.{IsSized}
use pcie_systemc_linux.Device.Place.{bar0_b_transport-keeps, interrupt_controller-keeps}

module _ (float : FloatOps) where
  -- One more row at the end.
  rows_from-last :
      (n : ℕ) (matrix_a matrix_b : List ℕ) (rounds i : ℕ) (matrix_c : List ℕ)
      → rows_from float n matrix_a matrix_b (suc rounds) i matrix_c
        ≡ row_loop float n n
            (i + rounds)
            matrix_a
            matrix_b
            0
            (rows_from float n matrix_a matrix_b rounds i matrix_c)
  unfolding rows_from
  rows_from-last n matrix_a matrix_b zero i matrix_c =
      let e : i ≡ i + 0 = omega arith in
      ap (λ t. row_loop float n n t matrix_a matrix_b 0 matrix_c) e
  rows_from-last n matrix_a matrix_b (suc rounds) i matrix_c =
      let e : i + 1 + rounds ≡ i + suc rounds = omega arith in
      rows_from-last n matrix_a matrix_b rounds (i + 1) _
      ∙ ap
          (λ t.
            row_loop float n n t matrix_a matrix_b 0
              (rows_from float n matrix_a matrix_b (suc rounds) i matrix_c))
          e

  -- The rows that are done.
  abbrev first_rows : ℕ → List ℕ → List ℕ → ℕ → List ℕ
  first_rows n matrix_a matrix_b rows =
      rows_from float n matrix_a matrix_b rows 0 (replicate (elements n) 0)

  next_row :
      (n i : ℕ) (matrix_a matrix_b matrix_c : List ℕ)
      → matrix_c ≡ first_rows n matrix_a matrix_b i
      → row_loop float n n i matrix_a matrix_b 0 matrix_c ≡ first_rows n matrix_a matrix_b (i + 1)
  next_row n i matrix_a matrix_b matrix_c e =
      let start : i ≡ 0 + i = omega arith in
      ap₂ (λ t c. row_loop float n n t matrix_a matrix_b 0 c) start e
      ∙ sym (rows_from-last n matrix_a matrix_b i 0 (replicate (elements n) 0))
      ∙ ap (first_rows n matrix_a matrix_b) (sym (add-one i))

  abbrev IsPartial : ComputeThread → Type 0
  IsPartial waiting = Unit {0}
  IsPartial woken = Unit {0}
  IsPartial (running (reading_a n matrix_a success)) = Unit {0}
  IsPartial (running (reading_b n matrix_a matrix_b success)) = Unit {0}
  IsPartial (running (row_done n rows matrix_a matrix_b matrix_c)) =
      matrix_c ≡ first_rows n matrix_a matrix_b rows
  IsPartial (running (writing_c n success)) = Unit {0}

  notify_start-IsPartial : (t : ComputeThread) → IsPartial t → IsPartial (notify_start t)
  notify_start-IsPartial waiting h = tt
  notify_start-IsPartial woken h = tt
  notify_start-IsPartial (running p) h = h

  module _ {M : Type 0} (transport : Transport M) (m : M) where
    abbrev Continues : Suspended M → Type 0
    Continues x = IsPartial x.device.compute

    finish-Continues : (success : Bool) (d : Device) → IsPartial (finish success d).compute
    unfolding finish update_interrupt
    finish-Continues true d = tt
    finish-Continues false d = tt

    row_step-Continues :
        (n i : ℕ) (matrix_a matrix_b matrix_c : List ℕ) (d : Device)
        → matrix_c ≡ first_rows n matrix_a matrix_b i
        → Continues (row_step float transport n i matrix_a matrix_b matrix_c d m)
    unfolding row_step write_matrix_c
    row_step-Continues n i matrix_a matrix_b matrix_c d e =
        if_both Continues (ltb i n) _ _ (next_row n i matrix_a matrix_b matrix_c e) tt

    resume_multiply-Continues :
        (p : Progress) (d : Device)
        → IsPartial (running p)
        → Continues (resume_multiply float transport p d m)
    unfolding resume_multiply read_matrix_b rows_from
    resume_multiply-Continues (reading_a n matrix_a true) d h = tt
    resume_multiply-Continues (reading_a n matrix_a false) d h = finish-Continues false d
    resume_multiply-Continues (reading_b n matrix_a matrix_b true) d h =
        row_step-Continues n 0 matrix_a matrix_b _ d refl
    resume_multiply-Continues (reading_b n matrix_a matrix_b false) d h = finish-Continues false d
    resume_multiply-Continues (row_done n rows matrix_a matrix_b matrix_c) d h =
        row_step-Continues n rows matrix_a matrix_b matrix_c d h
    resume_multiply-Continues (writing_c n success) d h = finish-Continues success d

    accept_request-Continues : (d : Device) → Continues (accept_request float transport d m)
    unfolding accept_request perform_matrix_multiply read_matrix_a
    accept_request-Continues d =
        if_both Continues d.computation_requested _ _
          (if_both Continues (d.reg_dim_n == 0 || ltb 256 d.reg_dim_n) _ _
            (finish-Continues false busy) tt)
          tt
      where
        busy : Device
        busy = record d { reg_status = 2; computation_requested = false }

    compute_thread-Continues :
        (d : Device) → IsPartial d.compute → Continues (compute_thread float transport d m)
    unfolding compute_thread resume_thread
    compute_thread-Continues d h = resumed d.compute refl h
      where
        resumed :
            (t : ComputeThread)
            → d.compute ≡ t
            → IsPartial t
            → Continues (resume_thread float transport t d m)
        resumed waiting e h = subst IsPartial (sym e) h
        resumed woken e h = accept_request-Continues d
        resumed (running p) e h = resume_multiply-Continues p d h

  Reachable-IsPartial : (d : Device) → Reachable float d → IsPartial d.compute
  Reachable-IsPartial _ started = tt
  Reachable-IsPartial _ (accessed {d} behind trans delay r) =
      bar0_b_transport-keeps IsPartial notify_start-IsPartial behind d trans delay
        (Reachable-IsPartial d r)
  Reachable-IsPartial _ (computed {d} transport m r) =
      compute_thread-Continues transport m d (Reachable-IsPartial d r)
  Reachable-IsPartial _ (controlled {d} r) =
      interrupt_controller-keeps IsPartial notify_start-IsPartial d (Reachable-IsPartial d r)

  module _ {M : Type 0} (transport : Transport M) (d : Device) (m : M) (n rows : ℕ)
      (matrix_a matrix_b : List ℕ) where
    -- Another row, with the memory and the registers as they were, or the transfer of the product.
    abbrev pub IsRowOrProduct : Suspended M → Type 0
    IsRowOrProduct r =
        ((rows < n)
          × (r.memory ≡ m)
          × (r.device ≡ record d {
            compute = running (
                row_done n (rows + 1) matrix_a matrix_b
                  (first_rows n matrix_a matrix_b (rows + 1)));
          }))
        ⊎ ((rows ≡ n)
            × (r.memory
                ≡ (dma_write transport m d.reg_matrix_c_ptr
                    (words_to_bytes (matrix_product float n matrix_a matrix_b))
                    (byte_count n)).state))

    row_step-product :
        (matrix_c : List ℕ)
        → rows ≤ n
        → matrix_c ≡ first_rows n matrix_a matrix_b rows
        → IsRowOrProduct (row_step float transport n rows matrix_a matrix_b matrix_c d m)
    unfolding row_step write_matrix_c matrix_product
    row_step-product matrix_c h e = elim (Bool-cases (ltb rows n)) [
      | inl more ↦ rw more (
          inl (
            ltb→lt rows n more,
            refl,
            ap (λ c. record d { compute = running (row_done n (rows + 1) matrix_a matrix_b c) })
                (next_row n rows matrix_a matrix_b matrix_c e),
          ))
      | inr last ↦
          let all : rows ≡ n = ground arith in
          rw last (
            inr (
              all,
              ap
                  (λ c.
                    (dma_write transport m d.reg_matrix_c_ptr (words_to_bytes c)
                      (byte_count n)).state)
                  (e ∙ ap (first_rows n matrix_a matrix_b) all),
            ))
    ]

    -- In every history, whatever was written to the registers since the multiplication began: a
    -- step of the thread between two rows does another row and leaves the memory and the
    -- registers alone, or all rows are done and it writes, to where the C pointer points now, the
    -- product of the two matrices that the multiplication fetched.
    pub Reachable-product :
        (matrix_c : List ℕ)
        → Reachable float d
        → d.compute ≡ running (row_done n rows matrix_a matrix_b matrix_c)
        → IsRowOrProduct (compute_thread float transport d m)
    unfolding compute_thread resume_thread resume_multiply
    Reachable-product matrix_c r e =
        let sized = subst IsSized e (Reachable-IsSound float d r).sized in
        subst (λ t. IsRowOrProduct (resume_thread float transport t d m)) (sym e)
          (row_step-product matrix_c sized.1 (subst IsPartial e (Reachable-IsPartial d r)))
