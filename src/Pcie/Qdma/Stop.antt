-- ===== src/Pcie/Qdma/Stop.antt =====
-- Disabling the QDMA engine: pcie_qdma_exit of runtime/kernel/pcie/pcie_qdma.c.
use tapasco.Base.{
  ℕ, ◌%◌, ◌^◌, Bool, true, false, ◌||◌, ◌==◌, if◌then◌else◌, Ret, ok, err, enodev, efault,
}
use tapasco.Base.Stages.{acquire}
use tapasco.Pcie.Qdma.{
  sw_c2h, sw_h2c, mm_qid, c2h_mm_ctrl, h2c_mm_ctrl, Qdma, iowrite32, qdma_inv_ind_context,
}
use tapasco.Pcie.Qdma.Start.{
  ctxt_regs, c2h_mm, h2c_mm, ack_register_aws, desc_gen_id, Outcomes, iounmap, free_ring, eacces_if,
}

abbrev pub override : Ret → Ret → Ret
override ok res = res
override (err e) res = err e

-- A step of the exit that maps registers, uses them and unmaps them; a failure goes into the result.
unfoldable pub with_map : Bool → ℕ → (Qdma → Ret × Qdma) → Ret × Qdma → Ret × Qdma
unfolding iounmap
with_map false r use_it (res, s) = (err efault, s)
with_map true r use_it (res, s) =
    let (res', s') = use_it (record s { held = acquire r s.held }) in
    (override res' res, iounmap r s')

abbrev pub inv_contexts : (ℕ → ℕ) → Qdma → Ret × Qdma
inv_contexts read s =
    let (r, s') = qdma_inv_ind_context read sw_c2h mm_qid s in
    let (r', s'') = qdma_inv_ind_context read sw_h2c mm_qid s' in eacces_if (r || r', s'')

unfoldable pub drop_ring : Qdma → Qdma
unfolding free_ring
drop_ring s = if s.cmpt_ring_addr == 0 then s else record (free_ring s) { cmpt_ring_addr = 0 }

unfoldable pub pcie_qdma_exit : Outcomes → Qdma → Ret × Qdma
unfolding drop_ring with_map qdma_inv_ind_context iowrite32
pcie_qdma_exit o s =
    let s' = drop_ring s in
    if o.id % 2 ^ 32 == desc_gen_id
    then with_map o.maps_ctxt ctxt_regs (inv_contexts o.read) (
        with_map o.maps_c2h c2h_mm (λ t. (ok, iowrite32 0 c2h_mm_ctrl t))
          (with_map o.maps_h2c h2c_mm (λ t. (ok, iowrite32 0 h2c_mm_ctrl t))
            (ok, iounmap ack_register_aws s')))
    else (err enodev, s')
