-- ===== src/Dma/Read/Tests.antt =====
-- A read of three chunks (runtime/kernel/dma/tlkm_dma.c).
use tapasco.Base.{[], ◌%◌, true, refl, arith}
use tapasco.Dma.Read.{Reader, Events, tlkm_dma_copy_from}
use tapasco.Dma.Read.Delivery.{Ends, IsDisturbed, IsDelivered, copy_from-IsDelivered}

abbrev calm : Events
calm = record {
  ended = λ k. k;
  waits = λ k. true;
  copies = λ k. true;
  locks = λ k. true;
  last_ended = λ i. 0;
  last_waits = λ i. true;
  last_copies = λ i. true;
}

-- Left from a read before.
abbrev stale : Reader
stale = record {
  chunk = λ i. record { t_id = 9; usr_addr = 0; cpy_sz = 4 };
  buf = λ i t. 255;
  pending = [];
  rq_enqueued = 9;
  rq_processed = 9;
  user = λ a. 0;
}

copy_from-IsDelivered_example :
    Ends
      (IsDisturbed calm)
      (IsDelivered (λ a. a % 256) 4096 64 600000 stale)
      (tlkm_dma_copy_from 64 (λ a. a % 256) calm 4 4096 64 600000 stale)
copy_from-IsDelivered_example =
    copy_from-IsDelivered 64 (λ a. a % 256) calm 4 4096 64 600000 stale refl (λ j. refl) refl
      (omega arith) (omega arith) (omega arith) (omega arith)
