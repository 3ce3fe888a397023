-- ===== src/Dma/Tests.antt =====
-- Runs of the DMA engine's writes (runtime/kernel/dma/tlkm_dma.c) on concrete data.
use tapasco.Base.{[], ◌∷◌, ℕ, ◌≡◌, ◌==◌, refl, true, some, if◌then◌else◌, ok}
use tapasco.Dma.{Counters, Outcome, copy_chunks, no_data, sent, tlkm_dma_copy_to}

abbrev idle : Counters
idle = record { wq_requested = 7; wq_enqueued = 7 }

abbrev len : ℕ
len = 600000

abbrev all_sent : ℕ → Outcome
all_sent n = sent

abbrev second_fails : ℕ → Outcome
second_fails n = if n == 8 then no_data else sent

-- Three chunks in the buffers 7, 8 and 9.
three_chunks :
    tlkm_dma_copy_to 64 all_sent true 4 4096 8192 len idle
    ≡ some (
      record { usr_addr = 4096; dev_addr = 8192; slot = 7; size = 262144 }
          ∷ record { usr_addr = 266240; dev_addr = 270336; slot = 8; size = 262144 }
          ∷ record { usr_addr = 528384; dev_addr = 532480; slot = 9; size = 75712 }
          ∷ [],
      (ok, record { wq_requested = 10; wq_enqueued = 10 }),
    )
unfolding tlkm_dma_copy_to copy_chunks
three_chunks = refl
