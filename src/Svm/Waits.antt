-- ===== src/Svm/Waits.antt =====
-- The waits for a transfer of the page DMA core: wait_for_c2h_intr and wait_for_h2c_intr of
-- runtime/kernel/pcie/pcie_svm.c. What the status register, the clock and the wait queue give is an
-- argument.
mod Ends
mod Tests
use tapasco.Base.{
  ℕ, ◌+◌, ◌/◌, ◌%◌, ◌^◌, Bool, true, false, not, ◌&&◌, List, [], ◌∷◌, Option, none, some, leb, ltb,
  ◌==◌, if◌then◌else◌, Ret, ok, err, efault, etime, eintr,
}

-- A read of the status register, and the milliseconds since the start.
pub record Sample : Type 0 where
  pub rval : ℕ
  pub millis_elapsed : ℕ

abbrev pub is_busy : ℕ → Bool
is_busy rval = rval % 2 == 1

abbrev pub has_error : ℕ → Bool
has_error rval = not ((rval / 2 ^ 2) % 2 ^ 2 == 0)

abbrev pub timeout_msecs : ℕ
timeout_msecs = 1000

-- What a wait leaves: its result, whether it sets DMA_TIMEOUT_ERROR, and the values that it writes to
-- the status register.
pub record Waited : Type 0 where
  pub result : Ret
  pub timeout_error : Bool
  pub writes : List ℕ

abbrev pub judged : Sample → Waited
judged s =
    if has_error s.rval
    then record { result = err efault; timeout_error = false; writes = [] }
    else if leb timeout_msecs s.millis_elapsed
    then record { result = err etime; timeout_error = true; writes = [] }
    else record { result = ok; timeout_error = false; writes = [] }

-- Over the reads to come; `none`: the loop goes on behind them.
unfoldable pub poll_status : List Sample → Option Waited
poll_status [] = none
poll_status (s ∷ ss) =
    let rest = poll_status ss in
    if is_busy s.rval && ltb s.millis_elapsed timeout_msecs then rest else some (judged s)

-- The result of wait_event_interruptible_timeout: 0, below 0, or above it.
pub data Woken : Type 0 where
  expired interrupted woken : Woken

-- Enables the interrupt before the wait; disables and resets it behind.
abbrev pub intr_writes : List ℕ
intr_writes = 2 ^ 5 ∷ (2 ^ 6 + 2 ^ 1) ∷ []

abbrev pub wait_event : Woken → Waited
wait_event expired = record { result = err etime; timeout_error = true; writes = intr_writes }
wait_event interrupted = record { result = err eintr; timeout_error = false; writes = intr_writes }
wait_event woken = record { result = ok; timeout_error = false; writes = intr_writes }

unfoldable pub wait_for_c2h_intr : Bool → List Sample → Woken → Option Waited
unfolding poll_status
wait_for_c2h_intr true ss t = poll_status ss
wait_for_c2h_intr false ss t = some (wait_event t)

unfoldable pub wait_for_h2c_intr : Bool → List Sample → Woken → Option Waited
unfolding poll_status
wait_for_h2c_intr true ss t = poll_status ss
wait_for_h2c_intr false ss t = some (wait_event t)
