-- ===== src/Setup/Balance.antt =====
-- What bringing a device up and down leaves behind: runtime/kernel/tlkm/tlkm_device.c.
use tapasco.Base.{
  Bool, not, Ret, if◌then◌else◌, ◌&&◌, ◌++◌, true, false, List, [], ◌∷◌, some, ◌≡◌, ok, err, arith,
  ◌≢◌,
}
use tapasco.Setup.{
  Resource, subsystems, interrupts, perfc_name, control_name, Setup, Outcomes, Class, mmap_stage,
  status_stage, create_stage, control_stage, init_subsystems_stage, init_interrupts_stage, get,
  private, status_map, arch_map, plat_map, control, control_file, perfc_file,
  tlkm_platform_mmap_init, tlkm_platform_mmap_exit, tlkm_platform_status_init,
  tlkm_platform_status_exit, tlkm_control_init, tlkm_control_exit, tlkm_perfc_miscdev_init,
  tlkm_perfc_miscdev_exit, tlkm_device_init,
}

-- No pointer is set, and the resources `h` are held.
abbrev pub blank : List Resource → Setup
blank h = record {
  held = some h;
  kept = [];
  perfc_named = false;
  control_named = false;
  status = false;
  arch = false;
  plat = false;
}

-- A class exits what it inits.
abbrev pub Paired : Class → Type 0
Paired c =
    (c.has_exit_subsystems ≡ c.has_init_subsystems)
    × (c.has_exit_interrupts ≡ c.has_init_interrupts)

abbrev is_ok : Ret → Bool
is_ok ok = true
is_ok (err e) = false

abbrev leaked_name : Bool → Ret → Resource → List Resource
leaked_name copied ok r = []
leaked_name copied (err e) r = if copied then r ∷ [] else []

-- What a failed `tlkm_device_init` leaves held: the copy of a file's name, when it is the
-- registration of that file that fails.
abbrev pub leaked : Outcomes → List Resource
leaked o =
    leaked_name o.perfc_kstrdup o.perfc_register perfc_name
    ++ (if o.control_kzalloc
        then leaked_name (is_ok o.perfc_register && o.control_kstrdup) o.control_register
            control_name
        else [])

-- The callback whose failure keeps something set up, by the stage from which the setup goes on.
abbrev keeps_interrupts : Class → Outcomes → List Resource
keeps_interrupts c o =
    if c.has_init_interrupts && not (is_ok o.init_interrupts) && o.interrupts_keeps
    then interrupts ∷ []
    else []

abbrev keeps_subsystems : Class → Outcomes → List Resource
keeps_subsystems c o =
    if c.has_init_subsystems && not (is_ok o.init_subsystems)
    then (if o.subsystems_keeps then subsystems ∷ [] else [])
    else keeps_interrupts c o

abbrev keeps_mmap : Class → Outcomes → List Resource
keeps_mmap c o = if o.arch_ioremap && o.plat_ioremap then keeps_subsystems c o else []

abbrev keeps_status : Class → Outcomes → List Resource
keeps_status c o = if o.status_ioremap && is_ok o.status_read then keeps_mmap c o else []

abbrev keeps_create : Class → Outcomes → List Resource
keeps_create c o =
    if is_ok o.create then keeps_status c o else if o.create_keeps then private ∷ [] else []

abbrev pub keeps : Class → Outcomes → List Resource
keeps c o =
    if is_ok o.perfc_register && o.control_kzalloc && is_ok o.control_register
    then keeps_create c o
    else []

module _ (c : Class) (o : Outcomes) (paired : Paired c) where
  -- A stage that fails after the first resources are held gives back the state that it started from.
  subsystems_fails :
      (s : Setup) (h : List Resource)
      → s.held ≡ some h
      → (init_subsystems_stage c o s).0 ≢ ok
      → (init_subsystems_stage c o s).1 ≡ record s { kept = keeps_subsystems c o ++ s.kept }
  unfolding init_subsystems_stage init_interrupts_stage
  subsystems_fails s h held f = ground arith

  mmap_fails :
      (s : Setup) (h : List Resource)
      → s.held ≡ some h
      → s.arch ≡ false
      → s.plat ≡ false
      → (mmap_stage c o s).0 ≢ ok
      → (mmap_stage c o s).1 ≡ record s { kept = keeps_mmap c o ++ s.kept }
  unfolding mmap_stage tlkm_platform_mmap_init tlkm_platform_mmap_exit
  mmap_fails s h held arch plat f = ground (
    arith,
    subsystems_fails
        (record (get plat_map (record (get arch_map s) { arch = true })) { plat = true })
        (plat_map ∷ arch_map ∷ h),
  )

  status_fails :
      (s : Setup) (h : List Resource)
      → s.held ≡ some h
      → s.status ≡ false
      → s.arch ≡ false
      → s.plat ≡ false
      → (status_stage c o s).0 ≢ ok
      → (status_stage c o s).1 ≡ record s { kept = keeps_status c o ++ s.kept }
  unfolding status_stage tlkm_platform_status_init tlkm_platform_status_exit
  status_fails s h held status arch plat f =
      ground (arith, mmap_fails (record (get status_map s) { status = true }) (status_map ∷ h))

  create_fails :
      (s : Setup) (h : List Resource)
      → s.held ≡ some h
      → s.status ≡ false
      → s.arch ≡ false
      → s.plat ≡ false
      → (create_stage c o s).0 ≢ ok
      → (create_stage c o s).1 ≡ record s { kept = keeps_create c o ++ s.kept }
  unfolding create_stage
  create_fails s h held status arch plat f =
      ground (arith, status_fails (get private s) (private ∷ h))

  control_fails :
      (s : Setup) (h : List Resource)
      → s.held ≡ some h
      → s.control_named ≡ false
      → s.status ≡ false
      → s.arch ≡ false
      → s.plat ≡ false
      → (control_stage c o s).0 ≢ ok
      → ((control_stage c o s).1.held
          ≡ some (
              (if o.control_kzalloc
                then leaked_name o.control_kstrdup o.control_register control_name
                else [])
              ++ h))
        × ((control_stage c o s).1.kept
            ≡ (if o.control_kzalloc && is_ok o.control_register then keeps_create c o else [])
              ++ s.kept)
        × ((control_stage c o s).1.perfc_named ≡ s.perfc_named)
  unfolding control_stage tlkm_control_init tlkm_control_exit
  control_fails s h held named status arch plat f = ground (
    arith,
    create_fails
        (record (get control_file (get control_name (get control s))) { control_named = true })
        (control_file ∷ control_name ∷ control ∷ h),
    create_fails (record (get control_file (get control s)) { control_named = false })
        (control_file ∷ control ∷ h),
  )

  -- For a class that exits what it inits, a failed tlkm_device_init releases all that it
  -- acquired, each resource once, except for the copy of a file's name, which stays held when the
  -- registration of that file is what fails, and for what a callback of the class keeps set up
  -- when it is the one that fails, with all calls before it successful.
  pub init_fails :
      (h : List Resource)
      → (tlkm_device_init c o (blank h)).0 ≢ ok
      → ((tlkm_device_init c o (blank h)).1.held ≡ some (leaked o ++ h))
        × ((tlkm_device_init c o (blank h)).1.kept ≡ keeps c o)
  unfolding tlkm_device_init tlkm_perfc_miscdev_init tlkm_perfc_miscdev_exit
  init_fails h f = ground (
    arith,
    control_fails (record (get perfc_file (get perfc_name (blank h))) { perfc_named = true })
        (perfc_file ∷ perfc_name ∷ h),
    control_fails (get perfc_file (blank h)) (perfc_file ∷ h),
  )
