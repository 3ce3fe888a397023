-- ===== src/Ioctl.antt =====
-- The control file, runtime/kernel/tlkm/tlkm.c and tlkm_ioctl.c: open files, the devices that each
-- has acquired, and the calls that acquire and release them.
pub mod Count
pub mod Invariant
pub mod Run
pub mod Total
mod Tests
use tapasco.Base.{
  ℕ, ◌+◌, ◌-◌, ◌%◌, ◌^◌, Bool, true, false, not, ◌&&◌, ◌||◌, List, [], ◌∷◌, ◌++◌, Option, none,
  some, ltb, ◌==◌, if◌then◌else◌, length, get_elem?, set, remove_at, Ret, ok, err, ebusy, enxio,
  eacces, enomem, enodev,
}
use tapasco.Bus.{Bus, Member, Found, null, device, not_a_device, tlkm_bus_get_device}
use tapasco.Device.{RefCnt, tlkm_device_acquire, tlkm_device_release}

-- `struct tlkm_ioctl_dev_list_entry`.
pub record Entry : Type 0 where
  pub pdev : ℕ
  pub access : ℕ

-- The list behind `private_data` of an open file, newest entry first.
abbrev pub File : Type 0
File = List Entry

-- The reference counts of the device at each address.
abbrev pub Refs : Type 0
Refs = ℕ → RefCnt

abbrev pub update : Refs → ℕ → RefCnt → Refs
update refs p r q = if q == p then r else refs q

-- `none` is an access outside the object that was meant: the head of the bus taken for a device, or
-- a count past the end of `ref_cnt`.
abbrev pub Result : Type 0
Result = Option (Ret × Refs × File)

abbrev pub acquired : ℕ → ℕ → Refs → File → Option (Ret × RefCnt) → Result
acquired p access refs file none = none
acquired p access refs file (some (ok, r)) =
    some (ok, update refs p r, record { pdev = p; access = access } ∷ file)
acquired p access refs file (some (err e, r)) = some (err e, update refs p r, file)

-- `tlkm_device_acquire` of what `tlkm_bus_get_device` returned.
abbrev pub acquire_found : Found → ℕ → Refs → File → Result
acquire_found null access refs file = some (err enxio, refs, file)
acquire_found not_a_device access refs file = none
acquire_found (device m) access refs file =
    acquired m.ptr access refs file (tlkm_device_acquire (refs m.ptr) access)

-- `copied` and `granted`: whether `copy_from_user` and `kmalloc` succeed.
pub tlkm_ioctl_create_device : Bool → Bool → Bus → ℕ → ℕ → Refs → File → Result
tlkm_ioctl_create_device copied granted bus dev_id access refs file =
    if not copied
    then some (err eacces, refs, file)
    else if not granted
    then some (err enomem, refs, file)
    else acquire_found (tlkm_bus_get_device bus dev_id) access refs file

-- The pointer that entries are compared with. No entry holds NULL or the head of the bus.
abbrev pub pointer : Found → Option ℕ
pointer (device m) = some m.ptr
pointer _ = none

-- The index of the first entry of the device and the kind of access.
pub find_entry : ℕ → ℕ → File → Option ℕ
find_entry p access [] = none
find_entry p access (e ∷ es) =
    let later = elim (find_entry p access es) as (λ _. Option ℕ) [
      | none ↦ none
      | some i ↦ some (i + 1)
    ] in
    if e.pdev == p && e.access == access then some 0 else later

abbrev pub released : File → ℕ → Option Refs → Result
released file i none = none
released file i (some refs) = some (ok, refs, remove_at i file)

-- `tlkm_device_release(pdev, access)`.
abbrev pub release : Refs → ℕ → ℕ → Option Refs
release refs p access = elim (tlkm_device_release (refs p) access) [
  | none ↦ none
  | some r ↦ some (update refs p r)
]

abbrev pub destroy_entry : ℕ → ℕ → Refs → File → Option ℕ → Result
destroy_entry p access refs file none = some (err enodev, refs, file)
destroy_entry p access refs file (some i) = released file i (release refs p access)

abbrev pub destroy_found : Option ℕ → ℕ → Refs → File → Result
destroy_found none access refs file = some (err enodev, refs, file)
destroy_found (some p) access refs file =
    destroy_entry p access refs file (find_entry p access file)

pub tlkm_ioctl_destroy_device : Bool → Bus → ℕ → ℕ → Refs → File → Result
tlkm_ioctl_destroy_device copied bus dev_id access refs file =
    if not copied
    then some (err eacces, refs, file)
    else destroy_found (pointer (tlkm_bus_get_device bus dev_id)) access refs file

-- The loop of `tlkm_miscdev_release`.
pub release_all : Refs → File → Option Refs
release_all refs [] = some refs
release_all refs (e ∷ es) = elim (release refs e.pdev e.access) [
  | none ↦ none
  | some refs' ↦ release_all refs' es
]

-- The open files, and how often the control file is open.
pub record Kernel : Type 0 where
  pub bus : Bus
  pub refs : Refs
  pub files : List File
  pub opened_counter : ℕ

pub tlkm_miscdev_open : Bool → Kernel → Ret × Kernel
tlkm_miscdev_open granted k =
    let k' = record k { opened_counter = (k.opened_counter + 1) % 2 ^ 32 } in
    if granted then (ok, record k' { files = k.files ++ [] ∷ [] }) else (err enodev, k')

pub tlkm_miscdev_release : ℕ → File → Kernel → Option Kernel
unfolding release_all
tlkm_miscdev_release i file k = elim (release_all k.refs file) [
  | none ↦ none
  | some refs ↦ some (record k {
    refs = refs;
    files = remove_at i k.files;
    opened_counter = (k.opened_counter + (2 ^ 32 - 1)) % 2 ^ 32;
  })
]

-- The calls of user space; a file is named by its position among the open ones.
pub data Call : Type 0 where
  opens : Bool → Call
  closes : ℕ → Call
  creates : ℕ → Bool → Bool → ℕ → ℕ → Call
  destroys : ℕ → Bool → ℕ → ℕ → Call

abbrev pub after : Kernel → ℕ → Result → Option Kernel
after k i none = none
after k i (some (ret, refs, file)) = some (record k { refs = refs; files = set k.files i file })

-- No call is made on a file that is not open.
pub step : Kernel → Call → Option Kernel
step k (opens granted) = some (tlkm_miscdev_open granted k).1
step k (closes i) = elim (get_elem? k.files i) [
  | none ↦ some k
  | some file ↦ tlkm_miscdev_release i file k
]
step k (creates i copied granted dev_id access) = elim (get_elem? k.files i) [
  | none ↦ some k
  | some file ↦ after k i (tlkm_ioctl_create_device copied granted k.bus dev_id access k.refs file)
]
step k (destroys i copied dev_id access) = elim (get_elem? k.files i) [
  | none ↦ some k
  | some file ↦ after k i (tlkm_ioctl_destroy_device copied k.bus dev_id access k.refs file)
]

pub run : Kernel → List Call → Option Kernel
run k [] = some k
run k (c ∷ cs) = elim (step k c) [ none ↦ none | some k' ↦ run k' cs ]
