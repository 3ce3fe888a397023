-- ===== src/Platform/Mapping/Tests.antt =====
-- Mappings of a PCIe device's memory.
use tapasco.Base.{
  ℕ, ◌+◌, ◌≡◌, refl, true, false, List, [], ◌∷◌, Option, none, some, length, leb, ◌||◌, ◌==◌, ok,
  err, enxio, arith,
}
use tapasco.Platform.Mapping.{Ranges, addr2map_off, tlkm_device_mmap}
use tapasco.Platform.Mapping.Places.{is_outside, tlkm_device_mmap_outside}

-- Two of three buffers have memory.
abbrev buffers : List (Option ℕ)
buffers = some 0x5000 ∷ none ∷ some 0x9000 ∷ []

abbrev device : Ranges
device = record {
  base_offset = 0x10000000;
  status_base = 0x0;
  arch_base = 0x2000000;
  plat_base = 0x4000;
  dma_buffer = some buffers;
}

-- The page in front of the first buffer.
tlkm_device_mmap_outside_example :
    is_outside (tlkm_device_mmap false true device 3 4096) ≡ (3 == 3 || leb (4 + length buffers) 3)
tlkm_device_mmap_outside_example =
    tlkm_device_mmap_outside false true device buffers 3 4096 refl (omega arith) (omega arith)

arch_mapped :
    tlkm_device_mmap false true device 1 4096
    ≡ some (ok, some (record { pfn = 0x12000; sz = 4096; noncached = true }))
unfolding tlkm_device_mmap addr2map_off
arch_mapped = refl

third_buffer_mapped :
    tlkm_device_mmap false true device 6 4096
    ≡ some (ok, some (record { pfn = 9; sz = 4096; noncached = false }))
unfolding tlkm_device_mmap addr2map_off
third_buffer_mapped = refl

empty_buffer_refused : tlkm_device_mmap false true device 5 4096 ≡ some (err enxio, none)
unfolding tlkm_device_mmap addr2map_off
empty_buffer_refused = refl
