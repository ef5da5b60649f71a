-- ===== src/Device/Sound.antt =====
-- What always holds of the device: its status, its registers, and the sizes that a multiplication
-- under way works with.
use pcie_systemc_linux.Prelude.{
  ℕ, zero, suc, ◌*◌, ◌≤◌, ◌<◌, ◌≡◌, refl, ap, ◌⊎◌, inl, ◌&&◌, Bool, if_both, if◌then◌else◌, List,
  drop, length, arith, true,
}
use pcie_systemc_linux.Prelude.Bytes.{bytes_to_words}
use pcie_systemc_linux.Prelude.Bits.{bit_not, bit_and-le_left}
use pcie_systemc_linux.Device.State.{
  Device, bit_set, ctrl_start, ctrl_reset, status_idle, ComputeThread, waiting, woken, running,
  reading_a, reading_b, row_done, writing_c, update_interrupt, reset_device, notify_start,
}
use pcie_systemc_linux.Device.Mmio.{write_register, write_control}

-- IDLE, BUSY, IDLE and DONE, or IDLE and ERROR.
abbrev pub IsStatus : ℕ → Type 0
IsStatus s = (s ≡ 1) ⊎ (s ≡ 2) ⊎ (s ≡ 5) ⊎ (s ≡ 9)

abbrev pub IsSize : ℕ → Type 0
IsSize n = (0 < n) × (n ≤ 256)

-- The vectors have a cell for each index that the loops use.
abbrev pub IsSized : ComputeThread → Type 0
IsSized waiting = Unit {0}
IsSized woken = Unit {0}
IsSized (running (reading_a n matrix_a success)) = IsSize n × (length matrix_a ≡ n * n)
IsSized (running (reading_b n matrix_a matrix_b success)) =
    IsSize n × (length matrix_a ≡ n * n) × (length matrix_b ≡ n * n)
IsSized (running (row_done n rows matrix_a matrix_b matrix_c)) =
    IsSize n
    × (rows ≤ n)
    × (length matrix_a ≡ n * n)
    × (length matrix_b ≡ n * n)
    × (length matrix_c ≡ n * n)
IsSized (running (writing_c n success)) = IsSize n

abbrev pub IsRunning : ComputeThread → Type 0
IsRunning waiting = ⊥
IsRunning woken = ⊥
IsRunning (running p) = Unit {0}

pub record IsSound (d : Device) : Type 0 where
  pub status : IsStatus d.reg_status
  pub busy : d.reg_status ≡ 2 → IsRunning d.compute
  pub sized : IsSized d.compute
  pub pending : d.reg_int_status ≤ 1

pub length-bytes_to_words : (k : ℕ) (bytes : List ℕ) → length (bytes_to_words k bytes) ≡ k
length-bytes_to_words zero bytes = refl
length-bytes_to_words (suc k) bytes = ap suc (length-bytes_to_words k (drop 4 bytes))

-- A notification does not disturb a thread that runs.
notify_start-IsSized : (t : ComputeThread) → IsSized t → IsSized (notify_start t)
notify_start-IsSized waiting h = h
notify_start-IsSized woken h = h
notify_start-IsSized (running p) h = h

notify_start-IsRunning : (t : ComputeThread) → IsRunning t → IsRunning (notify_start t)
notify_start-IsRunning waiting h = h
notify_start-IsRunning woken h = h
notify_start-IsRunning (running p) h = h

start-IsSound :
    (d : Device) (b : Bool)
    → IsSound d
    → IsSound (record d { computation_requested = b; compute = notify_start d.compute })
start-IsSound d b i = record {
  status = i.status;
  busy = λ e. notify_start-IsRunning d.compute (i.busy e);
  sized = notify_start-IsSized d.compute i.sized;
  pending = i.pending;
}

reset_device-IsSound : (d : Device) → IsSound d → IsSound (reset_device d)
unfolding reset_device
reset_device-IsSound d i = record {
  status = inl refl;
  busy = λ e. absurd (omega arith);
  sized = i.sized;
  pending = omega arith;
}

write_control-IsSound : (d : Device) (v : ℕ) → IsSound d → IsSound (write_control d v)
unfolding write_control
write_control-IsSound d v i =
    if_both IsSound (bit_set v ctrl_start && bit_set cleared.reg_status status_idle) _ cleared
      (start-IsSound cleared true sound) sound
  where
    stored : Device
    stored = record d { reg_control = v }

    stored-IsSound : IsSound stored
    stored-IsSound = record {
      status = i.status;
      busy = i.busy;
      sized = i.sized;
      pending = i.pending;
    }

    cleared : Device
    cleared = if bit_set v ctrl_reset then reset_device stored else stored

    sound : IsSound cleared
    sound =
        if_both IsSound (bit_set v ctrl_reset) (reset_device stored) stored
          (reset_device-IsSound stored stored-IsSound) stored-IsSound

pub write_register-IsSound :
    (d : Device) (addr len v v64 : ℕ) → IsSound d → IsSound (write_register d addr len v v64)
unfolding write_register update_interrupt
write_register-IsSound d addr len v v64 i =
    ground (arith, write_control-IsSound d v i, bit_and-le_left d.reg_int_status (bit_not 32 v))
