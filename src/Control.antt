-- ===== src/Control.antt =====
-- The interrupts of a device's control file: struct tlkm_control of runtime/kernel/device/
-- tlkm_control.h, tlkm_control_release of runtime/kernel/device/tlkm_control.c and
-- tlkm_device_reg_int of runtime/kernel/device/tlkm_device_ioctl.c.
pub mod Interrupts
mod Tests
use tapasco.Base.{
  ℕ, Bool, true, false, List, [], ◌∷◌, Option, none, some, ltb, ◌==◌, if◌then◌else◌, Ret, ok, err,
  efault,
}

-- An entry of the list of interrupts: the line, and the event file to signal. A line, `int` in C,
-- stands here as its value plus 2^31, which keeps equality and order.
pub record Mapping : Type 0 where
  pub irq_no : ℕ
  pub eventfd : ℕ

-- What the driver asks of its device's class and of the kernel; `pirq` where it succeeds.
-- `fdget` gives an event file, and `fdget_fails` an error pointer, which is entered and put back like
-- an event file.
pub data Event : Type 0 where
  pirq rirq fdget fdget_fails put : ℕ → Event
  miscdev_close : Event

-- The list, and all events so far, the last one first.
pub record Control : Type 0 where
  pub interrupts : List Mapping
  pub events : List Event

-- Whether an entry has the line.
abbrev pub taken : ℕ → List Mapping → Bool
taken n [] = false
taken n (e ∷ es) = if e.irq_no == n then true else taken n es

-- The loop that enters a mapping before the first entry of a larger line, or at the end.
abbrev pub enter : Mapping → List Mapping → List Mapping
enter m [] = m ∷ []
enter m (e ∷ es) = if ltb m.irq_no e.irq_no then m ∷ e ∷ es else e ∷ enter m es

-- The part behind the call of the class's `pirq`, whose result is given.
abbrev pub got : Bool → ℕ → Event
got true fd = fdget fd
got false fd = fdget_fails fd

abbrev pub registered : ℕ → Bool → ℕ → Ret → Control → Ret × Control
registered pe_id is_file fd (err e) c = (err e, c)
registered pe_id is_file fd ok c = (
  ok,
  record {
    interrupts = enter (record { irq_no = pe_id; eventfd = fd }) c.interrupts;
    events = got is_file fd ∷ pirq pe_id ∷ c.events;
  },
)

-- `requested` is the result of the class's `pirq`; `fd` is the pointer that `eventfd_ctx_fdget` gives,
-- to an event file if `is_file`, which is not tested. `none`: the entry is written to without memory for
-- it.
unfoldable pub tlkm_device_reg_int :
    Bool → Bool → ℕ → Bool → ℕ → Ret → Control → Option (Ret × Control)
tlkm_device_reg_int false allocated pe_id is_file fd requested c = some (err efault, c)
tlkm_device_reg_int true allocated pe_id is_file fd requested c =
    if taken pe_id c.interrupts
    then some (err efault, c)
    else if allocated
    then some (registered pe_id is_file fd requested c)
    else none

-- The events of the loop that drops every entry.
abbrev pub drop_all : List Mapping → List Event → List Event
drop_all [] es = es
drop_all (m ∷ ms) es = drop_all ms (rirq m.irq_no ∷ put m.eventfd ∷ es)

-- `closes`: the class has a `miscdev_close`.
unfoldable pub tlkm_control_release : Bool → Control → Control
tlkm_control_release closes c =
    let es = drop_all c.interrupts c.events in
    record { interrupts = []; events = if closes then miscdev_close ∷ es else es }
