-- ===== src/Device.antt =====
-- Access to a device, runtime/kernel/tlkm/tlkm_device.c: the reference counts that
-- `tlkm_device_acquire` and `tlkm_device_release` keep under the device's mutex.
pub mod Access
mod Tests
use tapasco.Base.{
  ℕ, ◌+◌, ◌-◌, ◌%◌, ◌^◌, Bool, not, ◌&&◌, ◌||◌, Option, none, some, ltb, ◌==◌, if◌then◌else◌, Ret,
  ok, err, ebusy, enxio,
}

-- `tlkm_access_t`; the codes come from user space unchecked.
abbrev pub access_exclusive : ℕ
access_exclusive = 0

abbrev pub access_monitor : ℕ
access_monitor = 1

abbrev pub access_shared : ℕ
access_shared = 2

abbrev pub access_types : ℕ
access_types = 3

-- `size_t ref_cnt[TLKM_ACCESS_TYPES]`.
pub record RefCnt : Type 0 where
  pub exclusive : ℕ
  pub monitor : ℕ
  pub shared : ℕ

abbrev pub no_refs : RefCnt
no_refs = record { exclusive = 0; monitor = 0; shared = 0 }

abbrev pub inc : ℕ → ℕ
inc n = (n + 1) % 2 ^ 64

abbrev pub dec : ℕ → ℕ
dec n = (n + (2 ^ 64 - 1)) % 2 ^ 64

-- A write to `ref_cnt[access]`; `none` is a write outside the array.
abbrev pub write_count : (ℕ → ℕ) → RefCnt → ℕ → Option RefCnt
write_count f r access =
    if access == access_exclusive
    then some (record r { exclusive = f r.exclusive })
    else if access == access_monitor
    then some (record r { monitor = f r.monitor })
    else if access == access_shared
    then some (record r { shared = f r.shared })
    else none

abbrev pub refused : RefCnt → ℕ → Bool
refused r access =
    (ltb 0 r.exclusive && not (access == access_monitor))
    || (ltb 0 r.shared && access == access_exclusive)

unfoldable pub tlkm_device_acquire : RefCnt → ℕ → Option (Ret × RefCnt)
tlkm_device_acquire r access =
    if refused r access
    then some (err ebusy, r)
    else elim (write_count inc r access) [ none ↦ none | some r' ↦ some (ok, r') ]

unfoldable pub tlkm_device_release : RefCnt → ℕ → Option RefCnt
tlkm_device_release r access =
    if ltb 0 ((r.exclusive + r.monitor + r.shared) % 2 ^ 64)
    then write_count dec r access
    else some r
