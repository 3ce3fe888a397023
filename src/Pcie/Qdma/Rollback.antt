-- ===== src/Pcie/Qdma/Rollback.antt =====
-- What a setup of the QDMA engine leaves behind when it fails, and what its exit gives back
-- (runtime/kernel/pcie/pcie_qdma.c).
use tapasco.Base.{
  ℕ, ◌%◌, ◌^◌, ◌≡◌, ◌≢◌, refl, ◌∙◌, Bool, Bool-cases, inl, inr, List, [], ◌∷◌, ◌++◌, some, ltb,
  ◌==◌, if◌then◌else◌, Ret, ok, err, arith,
}
use tapasco.Base.Stages.{acquire}
use tapasco.Pcie.Qdma.{Qdma, dma_reset, iowrite32, qdma_inv_ind_context, c2h_mm_ctrl, h2c_mm_ctrl}
use tapasco.Pcie.Qdma.Start.{
  ctxt_regs, qid2vec_regs, c2h_mm, h2c_mm, fmap, buf_size, ring_size, ack_register_aws, cmpt_ring,
  desc_gen_id, Outcomes, iounmap, alloc_ring, free_ring, address, ring_stages, mapped_stages,
  unmapped, pcie_qdma_init,
}
use tapasco.Pcie.Qdma.Stop.{with_map, inv_contexts, drop_ring, pcie_qdma_exit}
use tapasco.Base.Steps.{Restores, Holds, stage-Restores, stage-Holds}
use tapasco.Pcie.Qdma.Resources.{
  resources, Keeps, poll-held, eacces_if-held, map-Restores, map-Holds, alloc_ring-Restores,
  alloc_ring-Holds, free_ring-Undoes, contexts-Restores, contexts-Holds,
}

-- What the setup holds before it unmaps, the last first.
abbrev up_to_ring_size : List ℕ
up_to_ring_size = cmpt_ring ∷ ack_register_aws ∷ ring_size ∷ []

abbrev up_to_buf_size : List ℕ
up_to_buf_size = cmpt_ring ∷ ack_register_aws ∷ ring_size ∷ buf_size ∷ []

abbrev up_to_fmap : List ℕ
up_to_fmap = cmpt_ring ∷ ack_register_aws ∷ ring_size ∷ buf_size ∷ fmap ∷ []

abbrev up_to_h2c_mm : List ℕ
up_to_h2c_mm = cmpt_ring ∷ ack_register_aws ∷ ring_size ∷ buf_size ∷ fmap ∷ h2c_mm ∷ []

abbrev up_to_c2h_mm : List ℕ
up_to_c2h_mm = cmpt_ring ∷ ack_register_aws ∷ ring_size ∷ buf_size ∷ fmap ∷ h2c_mm ∷ c2h_mm ∷ []

abbrev up_to_qid2vec_regs : List ℕ
up_to_qid2vec_regs =
    cmpt_ring ∷ ack_register_aws ∷ ring_size ∷ buf_size ∷ fmap ∷ h2c_mm ∷ c2h_mm ∷ qid2vec_regs ∷ []

abbrev all_held : List ℕ
all_held =
    cmpt_ring ∷ ack_register_aws ∷ ring_size ∷ buf_size ∷ fmap ∷ h2c_mm ∷ c2h_mm ∷ qid2vec_regs
    ∷ ctxt_regs ∷ []

module _ (o : Outcomes) where
  ring-Restores : Restores resources (ring_stages o)
  unfolding ring_stages
  ring-Restores = map-Restores o.maps_ack ack_register_aws _ (
      stage-Restores resources (cmpt_ring ∷ []) (alloc_ring o.ring) free_ring _
        (alloc_ring-Restores o.ring) (alloc_ring-Holds o.ring) free_ring-Undoes
        (contexts-Restores o.read (address o.ring)))

  ring-Holds : Holds resources (cmpt_ring ∷ ack_register_aws ∷ []) (ring_stages o)
  unfolding ring_stages
  ring-Holds = map-Holds o.maps_ack ack_register_aws _ (cmpt_ring ∷ []) (
      stage-Holds resources (cmpt_ring ∷ []) (alloc_ring o.ring) free_ring _ []
        (alloc_ring-Holds o.ring) (contexts-Holds o.read (address o.ring)))

  mapped-Restores : Restores resources (mapped_stages o)
  unfolding mapped_stages
  mapped-Restores = map-Restores o.maps_ctxt ctxt_regs _ (
      map-Restores o.maps_qid2vec qid2vec_regs _ (
        map-Restores o.maps_c2h c2h_mm _ (
          map-Restores o.maps_h2c h2c_mm _ (
            map-Restores o.maps_fmap fmap _ (
              map-Restores o.maps_buf_size buf_size _
                (map-Restores o.maps_ring_size ring_size _ ring-Restores))))))

  mapped-Holds : Holds resources all_held (mapped_stages o)
  unfolding mapped_stages
  mapped-Holds = map-Holds o.maps_ctxt ctxt_regs _ up_to_qid2vec_regs (
      map-Holds o.maps_qid2vec qid2vec_regs _ up_to_c2h_mm (
        map-Holds o.maps_c2h c2h_mm _ up_to_h2c_mm (
          map-Holds o.maps_h2c h2c_mm _ up_to_fmap (
            map-Holds o.maps_fmap fmap _ up_to_buf_size (
              map-Holds o.maps_buf_size buf_size _ up_to_ring_size (
                map-Holds o.maps_ring_size ring_size _ (cmpt_ring ∷ ack_register_aws ∷ [])
                  ring-Holds))))))

unmapped_lem :
    (r : Ret × Qdma) (h : List ℕ)
    → r.0 ≡ ok
    → r.1.held ≡ some (all_held ++ h)
    → (unmapped r).1.held ≡ some (cmpt_ring ∷ ack_register_aws ∷ h)
unfolding iounmap
unmapped_lem (ok, s) h e holds = rw holds refl
unmapped_lem (err e', s) h e holds = absurd (ground arith)

unmapped-ret : (r : Ret × Qdma) → (unmapped r).0 ≡ r.0
unmapped-ret (ok, s) = refl
unmapped-ret (err e, s) = refl

unmapped_err : (r : Ret × Qdma) → r.0 ≢ ok → unmapped r ≡ r
unmapped_err (ok, s) h = absurd (h refl)
unmapped_err (err e, s) h = refl

-- A setup of the QDMA engine that fails, at whatever call, gives back all that it acquired, each
-- resource once. One that succeeds keeps the completion ring and the registers that acknowledge
-- interrupts, and nothing else.
pub init_lem :
    (o : Outcomes) (s : Qdma) (h : List ℕ)
    → s.held ≡ some h
    → (pcie_qdma_init o s).1.held
      ≡ some (elim (pcie_qdma_init o s).0 [ ok ↦ cmpt_ring ∷ ack_register_aws ∷ h | err e ↦ h ])
unfolding pcie_qdma_init iowrite32
init_lem o s h e =
    let reset : Qdma = iowrite32 1 dma_reset s in
    elim (Bool-cases (o.id % 2 ^ 32 == desc_gen_id)) [
      | inr missing ↦ rw missing e
      | inl found ↦ elim (Bool-cases (ltb o.qdma_bar_len 0x18010)) [
        | inl small ↦ rw (found, small) e
        | inr long ↦
            rw (found, long)
              (finish (mapped_stages o reset) (mapped-Restores o reset h e)
                (mapped-Holds o reset h e))
      ]
    ]
  where
    finish :
        (r : Ret × Qdma)
        → (r.0 ≢ ok → r.1.held ≡ some h)
        → (r.0 ≡ ok → r.1.held ≡ some (all_held ++ h))
        → (unmapped r).1.held
          ≡ some (elim (unmapped r).0 [ ok ↦ cmpt_ring ∷ ack_register_aws ∷ h | err e ↦ h ])
    finish (ok, t) fails holds = unmapped_lem (ok, t) h refl (holds refl)
    finish (err e', t) fails holds = fails (ground arith)

module _ (b : Bool) (r : ℕ) (use_it : Qdma → Ret × Qdma) (k : Keeps use_it) (h : List ℕ) where
  with_map-held : (p : Ret × Qdma) → p.1.held ≡ some h → (with_map b r use_it p).1.held ≡ some h
  unfolding with_map
  with_map-held (res, s) e = elim (Bool-cases b) [
    | inl t ↦ rw t (ground (arith, k (record s { held = acquire r s.held })))
    | inr f ↦ rw f e
  ]

inv_contexts-Keeps : (read : ℕ → ℕ) → Keeps (inv_contexts read)
unfolding qdma_inv_ind_context
inv_contexts-Keeps read s = eacces_if-held _ ∙ poll-held read 99 _ ∙ poll-held read 99 s

drop_ring-held :
    (s : Qdma) (h : List ℕ)
    → s.held ≡ some (cmpt_ring ∷ h)
    → s.cmpt_ring_addr ≢ 0
    → (drop_ring s).held ≡ some h
unfolding drop_ring free_ring
drop_ring-held s h e set = ground arith

exit_lem :
    (o : Outcomes) (s : Qdma) (h : List ℕ)
    → s.held ≡ some (cmpt_ring ∷ ack_register_aws ∷ h)
    → s.cmpt_ring_addr ≢ 0
    → (pcie_qdma_exit o s).1.held
      ≡ some (if o.id % 2 ^ 32 == desc_gen_id then h else ack_register_aws ∷ h)
unfolding pcie_qdma_exit iounmap iowrite32
exit_lem o s h e set =
    let dropped = drop_ring-held s (ack_register_aws ∷ h) e set in
    elim (Bool-cases (o.id % 2 ^ 32 == desc_gen_id)) [
      | inr missing ↦ rw missing dropped
      | inl found ↦ rw found (
          with_map-held o.maps_ctxt ctxt_regs (inv_contexts o.read) (inv_contexts-Keeps o.read) h _
            (with_map-held o.maps_c2h c2h_mm (λ t. (ok, iowrite32 0 c2h_mm_ctrl t)) (λ t. refl) h _
              (with_map-held o.maps_h2c h2c_mm (λ t. (ok, iowrite32 0 h2c_mm_ctrl t)) (λ t. refl) h
                (ok, iounmap ack_register_aws (drop_ring s)) (rw dropped refl))))
    ]

-- A QDMA engine that is set up, with its ring at a bus address other than 0, and disabled later,
-- has given back all that it acquired, each resource once, whatever registers the exit could map;
-- but if the exit does not find the descriptor generator, the registers that acknowledge
-- interrupts stay mapped.
pub qdma_lifetime :
    (o o' : Outcomes) (s : Qdma) (h : List ℕ)
    → s.held ≡ some h
    → (pcie_qdma_init o s).0 ≡ ok
    → (pcie_qdma_init o s).1.cmpt_ring_addr ≢ 0
    → (pcie_qdma_exit o' (pcie_qdma_init o s).1).1.held
      ≡ some (if o'.id % 2 ^ 32 == desc_gen_id then h else ack_register_aws ∷ h)
qdma_lifetime o o' s h e up set =
    exit_lem o' (pcie_qdma_init o s).1 h (ground (arith, init_lem o s h e)) set
