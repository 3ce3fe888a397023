-- ===== src/Pcie/Bringup/Rollback.antt =====
-- What creating a PCIe device and bringing up its subsystems leaves behind
-- (runtime/kernel/pcie/pcie_device.c).
use tapasco.Base.{
  ℕ, Bool, true, false, not, ◌&&◌, List, [], ◌∷◌, ◌++◌, some, ◌≡◌, ◌≢◌, refl, Ret, ok, err, arith,
  if◌then◌else◌,
}
use tapasco.Base.Stages.{
  Held, Restores, Holds, Undoes, done-Restores, grab-Restores, grab-Holds, grabbed-Restores,
  grabbed-Holds, call, call-Restores,
}
use tapasco.Svm.Bringup.{pcie_init_svm}
use tapasco.Svm.Bringup.Rollback.{init_svm-Restores}
use tapasco.Pcie.Bringup.{
  ack_register_aws, private_data, pci_enabled, pci_regions, msi, qdma, Outcomes, claim_device,
  release_device, configure_device, claim_msi, release_msi, pcie_device_create, pcie_device_destroy,
  optional, pcie_device_init_subsystems, pcie_device_exit_subsystems,
}

module _ (o : Outcomes) where
  claim-Restores : Restores (claim_device o)
  unfolding claim_device
  claim-Restores = grabbed-Restores _ pci_enabled _ (grab-Restores _ pci_regions)

  claim-Holds : Holds (pci_regions ∷ pci_enabled ∷ []) (claim_device o)
  unfolding claim_device
  claim-Holds = grabbed-Holds _ pci_enabled (pci_regions ∷ []) _ (grab-Holds _ pci_regions)

  configure-Restores : Restores (configure_device o)
  unfolding configure_device
  configure-Restores h f = refl

  pub create-Restores : Restores (pcie_device_create o)
  unfolding pcie_device_create release_device
  create-Restores = grabbed-Restores _ private_data _ (
      call-Restores (pci_regions ∷ pci_enabled ∷ []) (claim_device o) release_device _
        claim-Restores claim-Holds (λ h. refl) configure-Restores)

  optional-Restores : (b : Bool) (f : Held → Ret × Held) → Restores f → Restores (optional b f)
  optional-Restores true f r = r
  optional-Restores false f r = done-Restores

  msi-Undoes : Undoes release_msi (msi ∷ [])
  unfolding release_msi
  msi-Undoes h = refl

  msi_stage : Held → Ret × Held
  msi_stage = call (claim_msi o) release_msi (optional o.has_mmu (pcie_init_svm o.svm))

  msi_stage-Restores : Restores msi_stage
  unfolding msi_stage claim_msi
  msi_stage-Restores =
      call-Restores (msi ∷ []) (claim_msi o) release_msi _ (grab-Restores _ msi) (grab-Holds _ msi)
        msi-Undoes (optional-Restores o.has_mmu (pcie_init_svm o.svm) (init_svm-Restores o.svm))

  abbrev is_ok : Ret → Bool
  is_ok ok = true
  is_ok (err e) = false

  -- A setup of the subsystems that fails gives back all that it acquired but for the QDMA engine,
  -- which stays set up if it was.
  pub subsystems_fails :
      (h : List ℕ)
      → (pcie_device_init_subsystems o (some h)).0 ≢ ok
      → (pcie_device_init_subsystems o (some h)).1
        ≡ some ((if o.qdma_in_use && is_ok o.qdma_init then qdma ∷ [] else []) ++ h)
  unfolding pcie_device_init_subsystems msi_stage call
  subsystems_fails h f = ground (arith, msi_stage-Restores h, msi_stage-Restores (qdma ∷ h))

-- What the exit of the QDMA engine leaves mapped.
abbrev pub unacknowledged : Bool → Bool → List ℕ
unacknowledged qdma_in_use found = if qdma_in_use && not found then ack_register_aws ∷ [] else []

-- A device whose life goes through: created, set up, taken down, destroyed.
abbrev pub lifetime : Outcomes → Held → Held
lifetime o h =
    pcie_device_destroy
      (pcie_device_exit_subsystems o (pcie_device_init_subsystems o (pcie_device_create o h).1).1)

-- A creation of a PCIe device that fails, at whatever call, gives back all that it acquired, each
-- resource once.
pub create_fails :
    (o : Outcomes) (h : List ℕ)
    → (pcie_device_create o (some h)).0 ≢ ok
    → (pcie_device_create o (some h)).1 ≡ some h
create_fails o = create-Restores o
