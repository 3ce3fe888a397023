-- ===== src/Device/Tests.antt =====
-- The reference counts at concrete users, and their theorems at inputs that meet their hypotheses.
use tapasco.Base.{◌≡◌, refl, some, arith, ok, err, ebusy}
use tapasco.Device.{RefCnt, no_refs, access_exclusive, access_shared, tlkm_device_acquire}
use tapasco.Device.Access.{IsShareable, MayJoin, joined, acquire_lem, acquire-IsShareable}

-- Two shared users and a monitor.
abbrev shared : RefCnt
shared = record { exclusive = 0; monitor = 1; shared = 2 }

no_exclusive : tlkm_device_acquire shared access_exclusive ≡ some (err ebusy, shared)
unfolding tlkm_device_acquire
no_exclusive = refl

acquire_lem_example :
    (MayJoin shared access_shared
      → tlkm_device_acquire shared access_shared ≡ some (ok, joined shared access_shared))
    × (¬ MayJoin shared access_shared
        → tlkm_device_acquire shared access_shared ≡ some (err ebusy, shared))
acquire_lem_example = acquire_lem shared access_shared (omega arith) (omega arith)

acquire-IsShareable_example : IsShareable (joined no_refs access_exclusive)
unfolding tlkm_device_acquire
acquire-IsShareable_example =
    acquire-IsShareable no_refs access_exclusive {ret = ok} (omega arith) (omega arith) refl
