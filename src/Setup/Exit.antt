-- ===== src/Setup/Exit.antt =====
-- tlkm_device_exit after tlkm_device_init (runtime/kernel/tlkm/tlkm_device.c): what each stage builds
-- when it succeeds, and that the exit takes it down.
use tapasco.Base.{Bool, true, false, List, some, ◌≡◌, refl, ap, sym, ◌∙◌, ok, arith}
use mathlib.Core.Path.{subst}
use tapasco.Setup.{
  exit_miscdev, Resource, subsystems, interrupts, perfc_name, control_name, Setup, Outcomes, Class,
  mmap_stage, status_stage, create_stage, control_stage, init_subsystems_stage,
  init_interrupts_stage, get, get_if, private, status_map, arch_map, plat_map, control,
  control_file, perfc_file, tlkm_platform_mmap_init, tlkm_platform_mmap_exit,
  tlkm_platform_status_init, tlkm_platform_status_exit, tlkm_control_init, tlkm_control_exit,
  tlkm_perfc_miscdev_init, tlkm_perfc_miscdev_exit, tlkm_device_init, tlkm_device_exit,
}
use tapasco.Setup.Balance.{blank, Paired}

-- The state that a stage leaves when it succeeds.
abbrev subsystems_up : Class → Setup → Setup
subsystems_up c s =
    get_if c.has_init_interrupts interrupts (get_if c.has_init_subsystems subsystems s)

abbrev mmap_up : Class → Setup → Setup
mmap_up c s =
    subsystems_up c
      (record (get plat_map (record (get arch_map s) { arch = true })) { plat = true })

abbrev status_up : Class → Setup → Setup
status_up c s = mmap_up c (record (get status_map s) { status = true })

abbrev create_up : Class → Setup → Setup
create_up c s = status_up c (get private s)

abbrev control_up : Class → Bool → Setup → Setup
control_up c named s =
    create_up c (record (get control_file (get_if named control_name (get control s))) {
      control_named = named;
    })

abbrev device_up : Class → Bool → Bool → Setup → Setup
device_up c perfc named s =
    control_up c named (record (get perfc_file (get_if perfc perfc_name s)) { perfc_named = perfc })

module _ (c : Class) (o : Outcomes) where
  subsystems_succeeds :
      (s : Setup)
      → (init_subsystems_stage c o s).0 ≡ ok
      → (init_subsystems_stage c o s).1 ≡ subsystems_up c s
  unfolding init_subsystems_stage init_interrupts_stage
  subsystems_succeeds s f = ground arith

  mmap_succeeds : (s : Setup) → (mmap_stage c o s).0 ≡ ok → (mmap_stage c o s).1 ≡ mmap_up c s
  unfolding mmap_stage tlkm_platform_mmap_init
  mmap_succeeds s f = ground (
    arith,
    subsystems_succeeds
        (record (get plat_map (record (get arch_map s) { arch = true })) { plat = true }),
  )

  status_succeeds :
      (s : Setup) → (status_stage c o s).0 ≡ ok → (status_stage c o s).1 ≡ status_up c s
  unfolding status_stage tlkm_platform_status_init
  status_succeeds s f = ground (arith, mmap_succeeds (record (get status_map s) { status = true }))

  create_succeeds :
      (s : Setup) → (create_stage c o s).0 ≡ ok → (create_stage c o s).1 ≡ create_up c s
  unfolding create_stage
  create_succeeds s f = ground (arith, status_succeeds (get private s))

  control_succeeds :
      (s : Setup)
      → (control_stage c o s).0 ≡ ok
      → (control_stage c o s).1 ≡ control_up c o.control_kstrdup s
  unfolding control_stage tlkm_control_init
  control_succeeds s f = ground (
    arith,
    create_succeeds
        (record (get control_file (get_if o.control_kstrdup control_name (get control s))) {
          control_named = o.control_kstrdup;
        }),
  )

  init_succeeds :
      (s : Setup)
      → (tlkm_device_init c o s).0 ≡ ok
      → (tlkm_device_init c o s).1 ≡ device_up c o.perfc_kstrdup o.control_kstrdup s
  unfolding tlkm_device_init tlkm_perfc_miscdev_init
  init_succeeds s f = ground (
    arith,
    control_succeeds (record (get perfc_file (get_if o.perfc_kstrdup perfc_name s)) {
      perfc_named = o.perfc_kstrdup;
    }),
  )

abbrev pairing : Bool → Bool → Class
pairing a b = record {
  has_init_subsystems = a;
  has_exit_subsystems = a;
  has_init_interrupts = b;
  has_exit_interrupts = b;
}

exit-pairing :
    (a b perfc named : Bool) (h : List Resource)
    → (tlkm_device_exit (pairing a b) (device_up (pairing a b) perfc named (blank h))).held ≡ some h
unfolding tlkm_device_exit tlkm_control_exit tlkm_platform_status_exit tlkm_platform_mmap_exit
    tlkm_perfc_miscdev_exit exit_miscdev
exit-pairing true true true true h = refl
exit-pairing true true true false h = refl
exit-pairing true true false true h = refl
exit-pairing true true false false h = refl
exit-pairing true false true true h = refl
exit-pairing true false true false h = refl
exit-pairing true false false true h = refl
exit-pairing true false false false h = refl
exit-pairing false true true true h = refl
exit-pairing false true true false h = refl
exit-pairing false true false true h = refl
exit-pairing false true false false h = refl
exit-pairing false false true true h = refl
exit-pairing false false true false h = refl
exit-pairing false false false true h = refl
exit-pairing false false false false h = refl

exit-device_up :
    (c : Class) (perfc named : Bool) (h : List Resource)
    → Paired c
    → (tlkm_device_exit c (device_up c perfc named (blank h))).held ≡ some h
exit-device_up c perfc named h p =
    subst (λ d. (tlkm_device_exit d (device_up d perfc named (blank h))).held ≡ some h)
      (λ i. record {
        has_init_subsystems = c.has_init_subsystems;
        has_exit_subsystems = sym p.0 i;
        has_init_interrupts = c.has_init_interrupts;
        has_exit_interrupts = sym p.1 i;
      })
      (exit-pairing c.has_init_subsystems c.has_init_interrupts perfc named h)

-- For a class that exits what it inits, tlkm_device_exit after a successful tlkm_device_init
-- releases exactly what the initialization acquired, each resource once.
pub exit-init :
    (c : Class) (o : Outcomes) (h : List Resource) {s : Setup}
    → Paired c
    → tlkm_device_init c o (blank h) ≡ (ok, s)
    → (tlkm_device_exit c s).held ≡ some h
exit-init c o h {s} p e =
    let up = sym (ap (λ r. r.1) e) ∙ init_succeeds c o (blank h) (ap (λ r. r.0) e) in
    rw up (exit-device_up c o.perfc_kstrdup o.control_kstrdup h p)
