-- ===== src/Pcie/Qdma/Tests.antt =====
-- A setup of the QDMA engine, its exit, and interrupts of its stream queue on concrete inputs.
use tapasco.Base.{
  ◌+◌, ◌%◌, ◌^◌, ◌≡◌, ◌≢◌, refl, true, false, [], ◌∷◌, some, ◌==◌, if◌then◌else◌, ok, err, eacces,
  arith,
}
use tapasco.Pcie.Qdma.{Qdma, sw_c2h, mm_qid}
use tapasco.Base.Steps.{stage}
use tapasco.Pcie.Qdma.Start.{
  Outcomes, cmpt_ring, ack_register_aws, desc_gen_id, pcie_qdma_init, completion_words, ioremap,
  alloc_ring, clear_contexts, program, set_sizes, enable,
}
use tapasco.Pcie.Qdma.Stop.{pcie_qdma_exit}
use tapasco.Pcie.Qdma.Rollback.{init_lem, qdma_lifetime}
use tapasco.Pcie.Qdma.Commands.{
  IsSetUp, last_command, ring_address, is_valid, init_contexts, exit-last_command,
}
use tapasco.Pcie.Qdma.Events.{
  Handled, interrupts, count, total, acknowledged, stream_signals, qdma_intr_handler_c2h_stream,
}

abbrev working : Outcomes
working = record {
  id = desc_gen_id;
  qdma_bar_len = 0x20000;
  maps_ctxt = true;
  maps_qid2vec = true;
  maps_c2h = true;
  maps_h2c = true;
  maps_fmap = true;
  maps_buf_size = true;
  maps_ring_size = true;
  maps_ack = true;
  ring = some 0x123456780;
  read = λ n. 0;
}

-- The engine stays busy.
abbrev busy : Outcomes
busy = record working { read = λ n. 1 }

abbrev idle : Qdma
idle = record { held = some (24 ∷ []); cmpt_ring_addr = 0; writes = []; polls = 0 }

working_ok : (pcie_qdma_init working idle).0 ≡ ok
unfolding pcie_qdma_init stage ioremap alloc_ring clear_contexts program set_sizes enable
    completion_words
working_ok = refl

busy_eacces : (pcie_qdma_init busy idle).0 ≡ err eacces
unfolding pcie_qdma_init stage ioremap alloc_ring clear_contexts
busy_eacces = refl

init_lem_example :
    (pcie_qdma_init working idle).1.held
    ≡ some (elim (pcie_qdma_init working idle).0 [
      | ok ↦ cmpt_ring ∷ ack_register_aws ∷ 24 ∷ []
      | err e ↦ 24 ∷ []
    ])
init_lem_example = init_lem working idle (24 ∷ []) refl

ring_at : (pcie_qdma_init working idle).1.cmpt_ring_addr ≡ 0x123456780
unfolding pcie_qdma_init stage ioremap alloc_ring clear_contexts program set_sizes enable
    completion_words
ring_at = refl

ring_lies : (pcie_qdma_init working idle).1.cmpt_ring_addr ≢ 0
ring_lies h = omega (arith, ring_at)

-- The exit maps nothing.
abbrev unmappable : Outcomes
unmappable = record working { maps_ctxt = false; maps_c2h = false; maps_h2c = false }

qdma_lifetime_example :
    (pcie_qdma_exit unmappable (pcie_qdma_init working idle).1).1.held
    ≡ some (if unmappable.id % 2 ^ 32 == desc_gen_id then 24 ∷ [] else ack_register_aws ∷ 24 ∷ [])
qdma_lifetime_example = qdma_lifetime working unmappable idle (24 ∷ []) refl working_ok ring_lies

init_contexts_example :
    IsSetUp 0x123456780 (pcie_qdma_init working idle).1.writes
    × (ring_address (completion_words 0x123456780) ≡ 0x123456780)
    × (is_valid (completion_words 0x123456780) ≡ 1)
init_contexts_example =
    init_contexts working idle 0x123456780 refl (omega arith) (omega arith) working_ok

exit-last_command_example :
    last_command sw_c2h mm_qid (pcie_qdma_exit working idle).1.writes
    ≡ last_command sw_c2h mm_qid idle.writes
exit-last_command_example = exit-last_command working idle sw_c2h mm_qid

abbrev unhandled : Handled
unhandled = record { signals = []; acks = [] }

-- The indices wrap at 63.
stream_signals_example :
    (count 7 (interrupts 0 7 (40 ∷ 30 ∷ 0 ∷ []) unhandled).signals
      ≡ total (40 ∷ 30 ∷ 0 ∷ []) + count 7 unhandled.signals)
    × (acknowledged 0 (interrupts 0 7 (40 ∷ 30 ∷ 0 ∷ []) unhandled).acks
        ≡ (0 + total (40 ∷ 30 ∷ 0 ∷ [])) % 63)
stream_signals_example =
    stream_signals 0 7 (40 ∷ 30 ∷ 0 ∷ []) unhandled (omega arith) (omega arith) (omega arith) refl

acknowledges_7 : acknowledged 0 (interrupts 0 7 (40 ∷ 30 ∷ 0 ∷ []) unhandled).acks ≡ 7
unfolding interrupts qdma_intr_handler_c2h_stream
acknowledges_7 = refl
