-- ===== src/Svm/Waits/Tests.antt =====
-- Waits for the page DMA core.
use tapasco.Base.{◌≡◌, refl, true, false, List, [], ◌∷◌, some, ok, err, etime, inl, inr}
use tapasco.Svm.Waits.{
  Sample, Waited, expired, woken, wait_for_c2h_intr, wait_for_h2c_intr, poll_status,
}
use tapasco.Svm.Waits.Ends.{EndsAt, wait_for_intr_ends}

-- Busy at first, idle after 3 milliseconds.
abbrev samples : List Sample
samples = record { rval = 1; millis_elapsed = 0 } ∷ record { rval = 0; millis_elapsed = 3 } ∷ []

wait_for_intr_ends_example :
    (w : Waited) × (wait_for_c2h_intr true samples woken ≡ some w)
    × (wait_for_h2c_intr true samples woken ≡ some w)
    × EndsAt w samples
wait_for_intr_ends_example = wait_for_intr_ends samples woken (inr (inl (inr refl)))

idle_in_time :
    wait_for_c2h_intr true samples woken
    ≡ some (record { result = ok; timeout_error = false; writes = [] })
unfolding wait_for_c2h_intr poll_status
idle_in_time = refl

interrupt_expires :
    wait_for_h2c_intr false [] expired
    ≡ some (record { result = err etime; timeout_error = true; writes = 0x20 ∷ 0x42 ∷ [] })
unfolding wait_for_h2c_intr
interrupt_expires = refl
