-- ===== src/Zynq/Buffers/Tests.antt =====
-- The DMA buffers of runtime/kernel/zynq/zynq_dmamgmt.c over concrete calls.
use tapasco.Base.{ℕ, ◌≡◌, refl, false, List, [], ◌∷◌, some, none, arith}
use tapasco.Zynq.Buffers.{Zynq, init_dma_buf_t, zynq_dmamgmt_init, zynq_dmamgmt_exit}
use tapasco.Zynq.Buffers.Run.{
  Call, allocates, deallocates, deallocates_dma, AreFair, run, buffers_lifetime,
}

abbrev idle : Zynq
idle = record {
  elems = λ i. init_dma_buf_t;
  pool = record { locked = λ r. false; curr = 0 };
  live = λ a. none;
  bytes = λ a. 0;
}

-- The last allocation is refused.
abbrev calls : List Call
calls =
    allocates (some (4096, 8192)) 64 ∷ deallocates_dma 8192 ∷ deallocates 5 ∷ allocates none 8 ∷ []

calls-AreFair : AreFair (zynq_dmamgmt_init idle) calls
unfolding zynq_dmamgmt_init
calls-AreFair = (
  (omega arith, omega arith, refl, λ i h e. omega arith),
  λ z e. (omega arith, λ y d. (omega arith, λ x c. (omega arith, λ w b. omega arith))),
)

buffers_lifetime_example :
    (u : Zynq) × (v : Zynq) × (run (zynq_dmamgmt_init idle) calls ≡ some u)
    × (zynq_dmamgmt_exit u ≡ some v)
    × ((a : ℕ) → v.live a ≡ none)
buffers_lifetime_example = buffers_lifetime idle calls (λ a. refl) calls-AreFair
