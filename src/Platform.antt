-- ===== src/Platform.antt =====
-- Register access of runtime/kernel/tlkm/tlkm_platform.c: the map from addresses to mapped ranges, and
-- tlkm_platform_read and tlkm_platform_write.
pub mod Access
pub mod Mapping
use tapasco.Base.{
  ℕ, zero, suc, Bool, true, false, List, [], ◌∷◌, Option, none, some, ◌==◌, if◌then◌else◌, length,
  Ret, ok, err, enxio, eagain,
}

-- `struct platform_mmap`, each pointer NULL or the mapped registers.
pub record Mmap : Type 0 where
  pub status : Option (List ℕ)
  pub arch : Option (List ℕ)
  pub plat : Option (List ℕ)

abbrev pub addr2map : Mmap → ℕ → Option (List ℕ)
addr2map m addr =
    if addr == 0
    then m.status
    else if addr == 4096
    then m.arch
    else if addr == 8192
    then m.plat
    else none

-- The range at an address that `addr2map` knows, with other registers.
abbrev pub store : Mmap → ℕ → List ℕ → Mmap
store m addr regs =
    if addr == 0
    then record m { status = some regs }
    else if addr == 4096
    then record m { arch = some regs }
    else record m { plat = some regs }

-- `memcpy_fromio` of `n` bytes; `none` is an access past the range.
pub memcpy_fromio : List ℕ → ℕ → Option (List ℕ)
memcpy_fromio regs zero = some []
memcpy_fromio [] (suc n) = none
memcpy_fromio (r ∷ regs) (suc n) = elim (memcpy_fromio regs n) as (λ _. Option (List ℕ)) [
  | none ↦ none
  | some bytes ↦ some (r ∷ bytes)
]

-- `memcpy_toio` of the bytes.
pub memcpy_toio : List ℕ → List ℕ → Option (List ℕ)
memcpy_toio regs [] = some regs
memcpy_toio [] (b ∷ bytes) = none
memcpy_toio (r ∷ regs) (b ∷ bytes) = elim (memcpy_toio regs bytes) as (λ _. Option (List ℕ)) [
  | none ↦ none
  | some regs' ↦ some (b ∷ regs')
]

-- `copied`: whether the user's memory takes all bytes. The buffer is there; `kzalloc` is not tested.
-- The result holds the bytes that reach the user.
abbrev pub read_at : Bool → Option (List ℕ) → ℕ → Option (Ret × List ℕ)
read_at copied none n = some (err enxio, [])
read_at copied (some regs) n = elim (memcpy_fromio regs n) as (λ _. Option (Ret × List ℕ)) [
  | none ↦ none
  | some bytes ↦ some (if copied then (ok, bytes) else (err eagain, []))
]

pub tlkm_platform_read : Bool → Mmap → ℕ → ℕ → Option (Ret × List ℕ)
unfolding memcpy_fromio
tlkm_platform_read copied m addr n = read_at copied (addr2map m addr) n

-- The bytes come from the user, if `copied`.
abbrev pub write_at : Bool → Mmap → ℕ → Option (List ℕ) → List ℕ → Option (Ret × Mmap)
write_at copied m addr none bytes = some (err enxio, m)
write_at false m addr (some regs) bytes = some (err eagain, m)
write_at true m addr (some regs) bytes =
    elim (memcpy_toio regs bytes) as (λ _. Option (Ret × Mmap)) [
      | none ↦ none
      | some regs' ↦ some (ok, store m addr regs')
    ]

pub tlkm_platform_write : Bool → Mmap → ℕ → List ℕ → Option (Ret × Mmap)
unfolding memcpy_toio
tlkm_platform_write copied m addr bytes = write_at copied m addr (addr2map m addr) bytes
