-- ===== src/Setup.antt =====
-- Bringing a device up and down: runtime/kernel/tlkm/tlkm_device.c with what it calls in
-- tlkm_platform.c, device/tlkm_control.c and device/tlkm_perfc_miscdev.c, built without ENABLE_SIM
-- and NPERFC. The state is the list of resources that are held; the results of the kernel and of
-- the device class are arguments.
pub mod Balance
pub mod Exit
mod Tests
use tapasco.Base.{
  Bool, true, false, List, [], ◌∷◌, Option, none, some, ℕ, ◌==◌, if◌then◌else◌, Ret, ok, err, Errno,
  enomem, enospc,
}

pub data Resource : Type 0 where
  perfc_name perfc_file control control_name control_file private : Resource
  status_map arch_map plat_map subsystems interrupts : Resource

abbrev code : Resource → ℕ
code perfc_name = 0
code perfc_file = 1
code control = 2
code control_name = 3
code control_file = 4
code private = 5
code status_map = 6
code arch_map = 7
code plat_map = 8
code subsystems = 9
code interrupts = 10

-- `none`: something was released that was not held.
abbrev pub Held : Type 0
Held = Option (List Resource)

abbrev pub remove : Resource → List Resource → Held
remove r [] = none
remove r (x ∷ xs) =
    if code r == code x
    then some xs
    else elim (remove r xs) [ none ↦ none | some ys ↦ some (x ∷ ys) ]

abbrev pub acquire : Resource → Held → Held
acquire r none = none
acquire r (some h) = some (r ∷ h)

abbrev pub release : Resource → Held → Held
release r none = none
release r (some h) = remove r h

-- Beside what is held, the callbacks that failed with something of theirs still set up (`kept`), and what
-- the fields of the device and its control tell the exit functions: which pointers are set.
pub record Setup : Type 0 where
  pub held : Held
  pub kept : List Resource
  pub perfc_named : Bool
  pub control_named : Bool
  pub status : Bool
  pub arch : Bool
  pub plat : Bool

abbrev pub get : Resource → Setup → Setup
get r s = record s { held = acquire r s.held }

abbrev pub put : Resource → Setup → Setup
put r s = record s { held = release r s.held }

-- The results of the calls that can fail, in the order in which they are made, and for the callbacks
-- of the class whether a failing one keeps something set up.
pub record Outcomes : Type 0 where
  pub perfc_kstrdup : Bool
  pub perfc_register : Ret
  pub control_kzalloc : Bool
  pub control_kstrdup : Bool
  pub control_register : Ret
  pub create : Ret
  pub create_keeps : Bool
  pub status_ioremap : Bool
  pub status_read : Ret
  pub arch_ioremap : Bool
  pub plat_ioremap : Bool
  pub init_subsystems : Ret
  pub subsystems_keeps : Bool
  pub init_interrupts : Ret
  pub interrupts_keeps : Bool

-- Which optional callbacks a device class has.
pub record Class : Type 0 where
  pub has_init_subsystems : Bool
  pub has_exit_subsystems : Bool
  pub has_init_interrupts : Bool
  pub has_exit_interrupts : Bool

-- A string copy that is NULL when memory runs out; `kfree` of NULL does nothing.
abbrev pub get_if : Bool → Resource → Setup → Setup
get_if b r s = if b then get r s else s

abbrev put_if : Bool → Resource → Setup → Setup
put_if b r s = if b then put r s else s

-- A callback of the class; one that fails may keep something of its own set up.
abbrev pub called : Ret → Bool → Resource → Setup → Ret × Setup
called ok keeps r s = (ok, get r s)
called (err e) keeps r s = (err e, if keeps then record s { kept = r ∷ s.kept } else s)

abbrev pub registered : Ret → Resource → Setup → Ret × Setup
registered ok r s = (ok, get r s)
registered (err e) r s = (err e, s)

pub tlkm_perfc_miscdev_init : Outcomes → Setup → Ret × Setup
tlkm_perfc_miscdev_init o s =
    registered o.perfc_register perfc_file
      (record (get_if o.perfc_kstrdup perfc_name s) { perfc_named = o.perfc_kstrdup })

pub tlkm_perfc_miscdev_exit : Setup → Setup
tlkm_perfc_miscdev_exit s = record (put perfc_file (put_if s.perfc_named perfc_name s)) {
  perfc_named = false;
}

pub init_miscdev : Outcomes → Setup → Ret × Setup
init_miscdev o s =
    registered o.control_register control_file
      (record (get_if o.control_kstrdup control_name s) { control_named = o.control_kstrdup })

pub exit_miscdev : Setup → Setup
exit_miscdev s = record (put_if s.control_named control_name (put control_file s)) {
  control_named = false;
}

abbrev control_registered : Ret × Setup → Ret × Setup
control_registered (ok, s) = (ok, s)
control_registered (err e, s) = (err e, put control s)

pub tlkm_control_init : Outcomes → Setup → Ret × Setup
unfolding init_miscdev
tlkm_control_init o s =
    if o.control_kzalloc
    then control_registered (init_miscdev o (get control s))
    else (err enomem, s)

pub tlkm_control_exit : Setup → Setup
unfolding exit_miscdev
tlkm_control_exit s = put control (exit_miscdev s)

pub tlkm_platform_status_init : Outcomes → Setup → Ret × Setup
tlkm_platform_status_init o s =
    if o.status_ioremap
    then (ok, record (get status_map s) { status = true })
    else (err enospc, record s { status = false })

pub tlkm_platform_status_exit : Setup → Setup
tlkm_platform_status_exit s = if s.status then record (put status_map s) { status = false } else s

pub tlkm_platform_mmap_init : Outcomes → Setup → Ret × Setup
tlkm_platform_mmap_init o s =
    if o.arch_ioremap
    then (let s' = record (get arch_map s) { arch = true } in
        if o.plat_ioremap
        then (ok, record (get plat_map s') { plat = true })
        else (err enospc, record (put arch_map (record s' { plat = false })) { arch = false }))
    else (err enospc, record s { arch = false })

pub tlkm_platform_mmap_exit : Setup → Setup
tlkm_platform_mmap_exit s =
    let s' : Setup = if s.plat then record (put plat_map s) { plat = false } else s in
    if s'.arch then record (put arch_map s') { arch = false } else s'

-- The stages of `tlkm_device_init` from the last to the first; each undoes itself when a later
-- stage fails.
abbrev undo : (Setup → Setup) → Ret × Setup → Ret × Setup
undo f (ok, s) = (ok, s)
undo f (err e, s) = (err e, f s)

abbrev next : Ret × Setup → (Setup → Ret × Setup) → Ret × Setup
next (ok, s) f = f s
next (err e, s) f = (err e, s)

abbrev optional : Bool → Ret → Bool → Resource → Setup → Ret × Setup
optional b r keeps x s = if b then called r keeps x s else (ok, s)

pub init_interrupts_stage : Class → Outcomes → Setup → Ret × Setup
init_interrupts_stage c o s =
    optional c.has_init_interrupts o.init_interrupts o.interrupts_keeps interrupts s

pub init_subsystems_stage : Class → Outcomes → Setup → Ret × Setup
init_subsystems_stage c o s =
    next (optional c.has_init_subsystems o.init_subsystems o.subsystems_keeps subsystems s)
      λ s'. undo (put_if c.has_exit_subsystems subsystems) (init_interrupts_stage c o s')

pub mmap_stage : Class → Outcomes → Setup → Ret × Setup
mmap_stage c o s =
    next (tlkm_platform_mmap_init o s)
      λ s'. undo tlkm_platform_mmap_exit (init_subsystems_stage c o s')

-- `tlkm_status_init` holds nothing.
pub status_stage : Class → Outcomes → Setup → Ret × Setup
status_stage c o s =
    next (tlkm_platform_status_init o s)
      λ s'. undo tlkm_platform_status_exit (next (o.status_read, s') (mmap_stage c o))

pub create_stage : Class → Outcomes → Setup → Ret × Setup
create_stage c o s =
    next (called o.create o.create_keeps private s) λ s'. undo (put private) (status_stage c o s')

pub control_stage : Class → Outcomes → Setup → Ret × Setup
control_stage c o s =
    next (tlkm_control_init o s) λ s'. undo tlkm_control_exit (create_stage c o s')

pub tlkm_device_init : Class → Outcomes → Setup → Ret × Setup
tlkm_device_init c o s =
    next (tlkm_perfc_miscdev_init o s) λ s'. undo tlkm_perfc_miscdev_exit (control_stage c o s')

pub tlkm_device_exit : Class → Setup → Setup
unfolding tlkm_platform_status_exit tlkm_platform_mmap_exit tlkm_control_exit
    tlkm_perfc_miscdev_exit
tlkm_device_exit c s = tlkm_perfc_miscdev_exit (
    tlkm_control_exit (
      tlkm_platform_mmap_exit (
        tlkm_platform_status_exit (
          put private (
            put_if c.has_exit_subsystems subsystems (put_if c.has_exit_interrupts interrupts s))))))
