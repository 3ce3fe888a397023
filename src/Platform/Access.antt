-- ===== src/Platform/Access.antt =====
-- Reading back what was written to the registers (runtime/kernel/tlkm/tlkm_platform.c).
use tapasco.Base.{
  ℕ, ◌≤◌, ◌≡◌, refl, Option-cases, inl, inr, true, List, [], ◌∷◌, some, length, ok, arith,
}
use tapasco.Platform.{
  Mmap, write_at, read_at, addr2map, store, memcpy_fromio, memcpy_toio, tlkm_platform_read,
  tlkm_platform_write,
}

toio_returns :
    (regs bytes : List ℕ)
    → length bytes ≤ length regs
    → (regs' : List ℕ) × (memcpy_toio regs bytes ≡ some regs')
unfolding memcpy_toio
toio_returns regs [] h = (regs, refl)
toio_returns [] (b ∷ bytes) h = absurd (omega arith)
toio_returns (r ∷ regs) (b ∷ bytes) h =
    let (regs', e) = toio_returns regs bytes (omega arith) in (b ∷ regs', rw e refl)

fromio-toio :
    (regs bytes regs' : List ℕ)
    → memcpy_toio regs bytes ≡ some regs'
    → memcpy_fromio regs' (length bytes) ≡ some bytes
unfolding memcpy_toio memcpy_fromio
fromio-toio regs [] regs' e = refl
fromio-toio [] (b ∷ bytes) regs' e = absurd (ground arith)
fromio-toio (r ∷ regs) (b ∷ bytes) regs' e = elim (Option-cases (memcpy_toio regs bytes)) [
  | inl n ↦ absurd (ground (arith, n, e))
  | inr (rest, there) ↦ ground (arith, there, e, fromio-toio regs bytes rest there)
]

addr2map-store :
    (m : Mmap) (addr : ℕ) (regs regs' : List ℕ)
    → addr2map m addr ≡ some regs
    → addr2map (store m addr regs') addr ≡ some regs'
addr2map-store m addr regs regs' e = ground (arith, e)

-- At an address whose range is mapped, bytes that fit into it are written, and a read of as many
-- gives them back.
pub read-write :
    (m : Mmap) (addr : ℕ) (regs bytes : List ℕ)
    → addr2map m addr ≡ some regs
    → length bytes ≤ length regs
    → (m' : Mmap) × ((tlkm_platform_write true m addr bytes ≡ some (ok, m'))
        × (tlkm_platform_read true m' addr (length bytes) ≡ some (ok, bytes)))
unfolding tlkm_platform_write tlkm_platform_read
read-write m addr regs bytes e h =
    let (regs', w) = toio_returns regs bytes h in
    (
      store m addr regs',
      (
        rw (e, write_at, w) refl,
        rw (addr2map-store m addr regs regs' e, read_at, fromio-toio regs bytes regs' w) refl,
      ),
    )
