-- ===== src/Zynq/Ioctl/Tests.antt =====
-- The combined calls of runtime/kernel/zynq/zynq_ioctl.c on concrete bytes.
use tapasco.Base.{ℕ, ◌+◌, ◌≡◌, ◌<◌, refl, false, some, none, ok, arith, inr}
use tapasco.Zynq.Buffers.{Zynq, init_dma_buf_t}
use tapasco.Zynq.Buffers.Valid.{IsValid}
use tapasco.Zynq.Buffers.Find.{get_unused}
use tapasco.Zynq.Ioctl.{BulkCmd, no_addr, zynq_ioctl_alloc_copyto, zynq_ioctl_copyfrom_free}
use tapasco.Zynq.Ioctl.Bulk.{bulk_round_trip}

abbrev idle : Zynq
idle = record {
  elems = λ i. init_dma_buf_t;
  pool = record { locked = λ r. false; curr = 0 };
  live = λ a. none;
  bytes = λ a. 0;
}

idle-IsValid : IsValid idle
idle-IsValid = record {
  packed = λ i below. absurd (omega arith);
  used = λ i h. refl;
  held = λ i h pos. absurd (omega arith);
  addressed = λ i h. refl;
  apart = λ i j hi hj pos n. absurd (omega arith);
  owned = λ a b e. absurd (ground arith);
}

abbrev outgoing : BulkCmd
outgoing = record {
  mm = record { sz = 64; dev_addr = 0 };
  copy = record { length = 16; user = λ o. o + 1; dev_addr = 0 };
}

abbrev incoming : BulkCmd
incoming = record {
  mm = record { sz = 64; dev_addr = 0 };
  copy = record { length = 16; user = λ o. 0; dev_addr = 8192 };
}

bulk_round_trip_example :
    (z : Zynq) × (u : Zynq) × (user : ℕ → ℕ) × (zynq_ioctl_alloc_copyto
        (some (4096, 8192))
        none
        0
        outgoing
        idle
      ≡ some (
        ok,
        record {
          mm = record { sz = 64; dev_addr = 8192 };
          copy = record { length = 16; user = λ o. o + 1; dev_addr = 8192 };
        },
        z,
      ))
    × (zynq_ioctl_copyfrom_free 0 incoming z
        ≡ some (
          ok,
          record {
            mm = record { sz = 64; dev_addr = no_addr };
            copy = record { length = 16; user = user; dev_addr = 8192 };
          },
          u,
        ))
    × ((o : ℕ) → o < 16 → user o ≡ o + 1)
    × ((q : ℕ) → u.live q ≡ none)
    × ((i : ℕ) → (u.elems i).kvirt_addr ≡ 0)
bulk_round_trip_example =
    bulk_round_trip none 4096 8192 0 outgoing incoming idle idle-IsValid
      (omega arith, omega arith, refl, λ i h e. omega arith) (omega arith) refl (omega arith)
      (omega arith) (omega arith) (get_unused 0 idle idle-IsValid (inr refl)) refl refl
