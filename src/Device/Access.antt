-- ===== src/Device/Access.antt =====
-- The reference counts of runtime/kernel/tlkm/tlkm_device.c against the rules of sharing.
use tapasco.Base.{
  ℕ, ◌+◌, ◌^◌, ◌≤◌, ◌<◌, ◌≡◌, ◌⊎◌, none, some, ◌==◌, if◌then◌else◌, Ret, ok, err, ebusy, arith,
}
use tapasco.Device.{
  access_exclusive, access_monitor, access_shared, access_types, RefCnt, tlkm_device_acquire,
  tlkm_device_release,
}

-- One exclusive user and no shared one, or no exclusive user at all.
abbrev pub IsShareable : RefCnt → Type 0
IsShareable r = (r.exclusive ≡ 0) ⊎ ((r.exclusive ≡ 1) × (r.shared ≡ 0))

-- No count is at the end of its range.
abbrev pub HasRoom : RefCnt → Type 0
HasRoom r = r.exclusive + r.monitor + r.shared + 1 < 2 ^ 64

-- Who may join: a monitor always, a shared user unless there is an exclusive one, an exclusive user
-- unless there is an exclusive or a shared one.
abbrev pub MayJoin : RefCnt → ℕ → Type 0
MayJoin r access =
    (access ≡ access_monitor)
    ⊎ ((access ≡ access_shared) × (r.exclusive ≡ 0))
    ⊎ ((access ≡ access_exclusive) × (r.exclusive ≡ 0) × (r.shared ≡ 0))

-- The counts with one more user of a kind.
abbrev pub joined : RefCnt → ℕ → RefCnt
joined r access =
    if access == access_exclusive
    then record r { exclusive = r.exclusive + 1 }
    else if access == access_monitor
    then record r { monitor = r.monitor + 1 }
    else record r { shared = r.shared + 1 }

-- With a known kind of access and room in the counts, a user joins and is counted once if the
-- rules allow it; otherwise the call fails with EBUSY and the counts stay as they are.
pub acquire_lem :
    (r : RefCnt) (access : ℕ)
    → access < access_types
    → HasRoom r
    → (MayJoin r access → tlkm_device_acquire r access ≡ some (ok, joined r access))
      × (¬ MayJoin r access → tlkm_device_acquire r access ≡ some (err ebusy, r))
unfolding tlkm_device_acquire
acquire_lem r access h room = (λ may. ground arith, λ may. ground arith)

-- Acquiring keeps an exclusive user alone among the exclusive and the shared ones.
pub acquire-IsShareable :
    (r : RefCnt) (access : ℕ) {ret : Ret} {r' : RefCnt}
    → HasRoom r
    → IsShareable r
    → tlkm_device_acquire r access ≡ some (ret, r')
    → IsShareable r'
unfolding tlkm_device_acquire
acquire-IsShareable r access room v e = ground arith

-- With room in the counts, releasing what was just acquired gives back the counts from before.
pub release-acquire :
    (r : RefCnt) (access : ℕ) {r' : RefCnt}
    → HasRoom r
    → tlkm_device_acquire r access ≡ some (ok, r')
    → tlkm_device_release r' access ≡ some r
unfolding tlkm_device_acquire tlkm_device_release
release-acquire r access room e = ground arith

-- Without an exclusive user, a kind of access past the last one makes the acquisition write
-- outside the array of counts.
pub acquire_outside :
    (r : RefCnt) (access : ℕ)
    → access_types ≤ access
    → r.exclusive ≡ 0
    → tlkm_device_acquire r access ≡ none
unfolding tlkm_device_acquire
acquire_outside r access h e = ground arith
