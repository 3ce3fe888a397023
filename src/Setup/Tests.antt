-- ===== src/Setup/Tests.antt =====
-- Device setup at concrete results of the kernel's calls.
use tapasco.Base.{true, false, [], ◌∷◌, some, ◌≡◌, ◌≢◌, refl, ok, err, enospc}
use tapasco.Setup.{
  perfc_name, perfc_file, control, control_name, control_file, private, status_map, arch_map,
  plat_map, subsystems, interrupts, Setup, Outcomes, Class, tlkm_device_init,
  tlkm_perfc_miscdev_init, tlkm_perfc_miscdev_exit, tlkm_control_init, tlkm_control_exit,
  tlkm_platform_mmap_init, tlkm_platform_mmap_exit, tlkm_platform_status_init,
  tlkm_platform_status_exit, mmap_stage, status_stage, create_stage, control_stage,
  init_subsystems_stage, init_interrupts_stage,
}
use tapasco.Setup.Balance.{blank, init_fails}

abbrev all_well : Outcomes
all_well = record {
  perfc_kstrdup = true;
  perfc_register = ok;
  control_kzalloc = true;
  control_kstrdup = true;
  control_register = ok;
  create = ok;
  create_keeps = false;
  status_ioremap = true;
  status_read = ok;
  arch_ioremap = true;
  plat_ioremap = true;
  init_subsystems = ok;
  subsystems_keeps = false;
  init_interrupts = ok;
  interrupts_keeps = false;
}

abbrev pcie : Class
pcie = record {
  has_init_subsystems = true;
  has_exit_subsystems = true;
  has_init_interrupts = true;
  has_exit_interrupts = true;
}

abbrev up : Setup
up = record {
  held = some (
      interrupts ∷ subsystems ∷ plat_map ∷ arch_map ∷ status_map ∷ private ∷ control_file
      ∷ control_name ∷ control ∷ perfc_file ∷ perfc_name ∷ []);
  kept = [];
  perfc_named = true;
  control_named = true;
  status = true;
  arch = true;
  plat = true;
}

comes_up : tlkm_device_init pcie all_well (blank []) ≡ (ok, up)
unfolding tlkm_device_init control_stage create_stage status_stage mmap_stage init_subsystems_stage
    init_interrupts_stage tlkm_platform_mmap_init tlkm_platform_mmap_exit tlkm_platform_status_init
    tlkm_platform_status_exit tlkm_control_init tlkm_control_exit tlkm_perfc_miscdev_init
    tlkm_perfc_miscdev_exit
comes_up = refl

-- The QDMA engine stays set up when the subsystems behind it fail.
abbrev no_vectors : Outcomes
no_vectors = record all_well { init_subsystems = err enospc; subsystems_keeps = true }

no_vectors_fail : (tlkm_device_init pcie no_vectors (blank [])).0 ≢ ok
unfolding tlkm_device_init control_stage create_stage status_stage mmap_stage init_subsystems_stage
    init_interrupts_stage tlkm_platform_mmap_init tlkm_platform_mmap_exit tlkm_platform_status_init
    tlkm_platform_status_exit tlkm_control_init tlkm_control_exit tlkm_perfc_miscdev_init
    tlkm_perfc_miscdev_exit
no_vectors_fail e = cc

init_fails_example :
    ((tlkm_device_init pcie no_vectors (blank [])).1.held ≡ some [])
    × ((tlkm_device_init pcie no_vectors (blank [])).1.kept ≡ subsystems ∷ [])
init_fails_example = init_fails pcie no_vectors (refl, refl) [] no_vectors_fail
