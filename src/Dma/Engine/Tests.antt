-- ===== src/Dma/Engine/Tests.antt =====
-- The setup of the DMA engine (runtime/kernel/dma/tlkm_dma.c) with one allocation that fails.
use tapasco.Base.{ltb, true, false, [], ◌∷◌, some, if◌then◌else◌}
use tapasco.Dma.Engine.{granted, unmapped, Outcomes, tlkm_dma_init}
use tapasco.Dma.Engine.Lifetime.{Settled, engine_lifetime}

-- The second kind of engine is there; the sixth buffer for writes cannot be mapped.
abbrev sixth_fails : Outcomes
sixth_fails = record {
  ioremap = true;
  detects = false ∷ true ∷ [];
  reads = λ i. granted;
  writes = λ i. if ltb i 5 then granted else unmapped;
}

engine_lifetime_example : Settled sixth_fails (77 ∷ []) (tlkm_dma_init sixth_fails (some (77 ∷ [])))
engine_lifetime_example = engine_lifetime sixth_fails (77 ∷ [])
