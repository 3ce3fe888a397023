-- ===== src/Bus/Enumerate.antt =====
-- tlkm_ioctl_enum_devices of runtime/kernel/tlkm/tlkm_ioctl.c over the bus. A device is reported as
-- its entry; names are left out.
use tapasco.Base.{
  ℕ, zero, suc, ◌+◌, ◌≤◌, ◌<◌, ◌≡◌, ap, ◌∙◌, refl, Bool, Bool-cases, inl, inr, true, false, List,
  [], ◌∷◌, Option, some, none, ltb, if◌then◌else◌, length, get_elem?, Ret, ok, err, efault, eagain,
  arith,
}
use tapasco.Bus.{
  Member, Bus, Found, null, not_a_device, device, tlkm_bus_num_devices, tlkm_bus_get_device,
}
use tapasco.Bus.Lookup.{get_device_in_range}

-- `devs[10]` of the command.
abbrev pub max_devs : ℕ
max_devs = 10

abbrev pub Report : Type 0
Report = Option (Ret × List Member)

abbrev pub also : Member → Report → Report
also m none = none
also m (some (ok, ms)) = some (ok, m ∷ ms)
also m (some (err e, ms)) = some (err e, ms)

-- One round: a device is written to `devs[i]`, and `none` is a write past the end of it.
abbrev pub report : Found → ℕ → Report → Report
report null i rest = some (err efault, [])
report not_a_device i rest = none
report (device m) i rest = if ltb i max_devs then also m rest else none

-- `remaining` rounds, from `i` on.
pub enum_from : ℕ → ℕ → Bus → Report
enum_from zero i bus = some (ok, [])
enum_from (suc remaining) i bus =
    report (tlkm_bus_get_device bus i) i (enum_from remaining (suc i) bus)

abbrev pub copied_out : Bool → Report → Report
copied_out true r = r
copied_out false none = none
copied_out false (some (ok, ms)) = some (err eagain, [])
copied_out false (some (err e, ms)) = some (err e, ms)

unfoldable pub tlkm_ioctl_enum_devices : Bool → Bus → Report
unfolding enum_from
tlkm_ioctl_enum_devices copied bus = copied_out copied (enum_from (tlkm_bus_num_devices bus) 0 bus)

none_copied : (copied : Bool) → copied_out copied none ≡ none
none_copied true = refl
none_copied false = refl

enum_from_lem :
    (bus : Bus) (i : ℕ) (ms : List Member)
    → ((j : ℕ) → get_elem? bus.devices (i + j) ≡ get_elem? ms j)
    → i + length ms ≤ max_devs
    → enum_from (length ms) i bus ≡ some (ok, ms)
unfolding enum_from
enum_from_lem bus i [] at h = refl
enum_from_lem bus i (m ∷ ms) at h =
    let here = get_device_in_range bus i (ap (get_elem? bus.devices) (omega arith) ∙ at 0) in
    let rest =
      enum_from_lem bus (suc i) ms (λ j. ap (get_elem? bus.devices) (omega arith) ∙ at (suc j))
        (omega arith) in
    rw (here, rest) (ground arith)

-- With at most 10 devices, all of them counted, the enumeration that reaches the user reports
-- every device of the bus, in order.
pub enum_devices_lem :
    (bus : Bus)
    → bus.num_devs ≡ length bus.devices
    → length bus.devices ≤ max_devs
    → tlkm_ioctl_enum_devices true bus ≡ some (ok, bus.devices)
unfolding tlkm_ioctl_enum_devices tlkm_bus_num_devices
enum_devices_lem bus n h =
    ap (λ k. copied_out true (enum_from k 0 bus)) n
    ∙ ap (copied_out true) (
        enum_from_lem bus 0 bus.devices (λ j. ap (get_elem? bus.devices) (omega arith))
          (omega arith))

enum_from_overflow :
    (bus : Bus) (i : ℕ) (ms : List Member)
    → ((j : ℕ) → get_elem? bus.devices (i + j) ≡ get_elem? ms j)
    → i ≤ max_devs
    → max_devs < i + length ms
    → enum_from (length ms) i bus ≡ none
unfolding enum_from
enum_from_overflow bus i [] at l h = absurd (omega arith)
enum_from_overflow bus i (m ∷ ms) at l h =
    let here = get_device_in_range bus i (ap (get_elem? bus.devices) (omega arith) ∙ at 0) in
    elim (Bool-cases (ltb i max_devs)) [
      | inl t ↦
          let rest =
            enum_from_overflow bus (suc i) ms
              (λ j. ap (get_elem? bus.devices) (omega arith) ∙ at (suc j)) (ground arith)
              (omega arith) in
          rw (here, t, rest) refl
      | inr n ↦ rw (here, n) refl
    ]

-- With more than 10 devices, all of them counted, the enumeration writes past the end of the
-- command's array.
pub enum_devices_overflow :
    (copied : Bool) (bus : Bus)
    → bus.num_devs ≡ length bus.devices
    → max_devs < length bus.devices
    → tlkm_ioctl_enum_devices copied bus ≡ none
unfolding tlkm_ioctl_enum_devices tlkm_bus_num_devices
enum_devices_overflow copied bus n h =
    ap (λ k. copied_out copied (enum_from k 0 bus)) n
    ∙ ap (copied_out copied) (
        enum_from_overflow bus 0 bus.devices (λ j. ap (get_elem? bus.devices) (omega arith))
          (omega arith) (omega arith))
    ∙ none_copied copied
