-- ===== src/Pcie/Qdma/Commands.antt =====
-- The commands on contexts that a setup of the QDMA engine and its exit leave as the last ones
-- (runtime/kernel/pcie/pcie_qdma.c), read off the log of register writes.
use tapasco.Base.{
  ℕ, ◌+◌, ◌*◌, ◌/◌, ◌%◌, ◌^◌, ◌<◌, ◌≡◌, refl, ap, ◌∙◌, Bool, Bool-cases, true, false, ◌&&◌, inl,
  inr, List, [], ◌∷◌, Option, none, some, ltb, ◌==◌, if◌then◌else◌, Ret, ok, err, arith,
}
use tapasco.Base.Stages.{acquire}
use tapasco.Base.Steps.{stage}
use tapasco.Pcie.Qdma.{
  ctxt_data, ctxt_cmd, c2h_mm_ctrl, h2c_mm_ctrl, dma_reset, sw_c2h, sw_h2c, hw_c2h, hw_h2c, cr_c2h,
  cr_h2c, wrb, pftch, mm_qid, st_qid, ctxt_cmd_clr, ctxt_cmd_wr, Qdma, iowrite32, command_word,
  qdma_inv_ind_context,
}
use tapasco.Pcie.Qdma.Start.{
  ctxt_regs, qid2vec_regs, c2h_mm, h2c_mm, fmap, buf_size, ring_size, ack_register_aws, desc_gen_id,
  Outcomes, ioremap, iounmap, alloc_ring, free_ring, mm_words, c2h_st_words, h2c_st_words,
  prefetch_words, completion_words, contexts, address, ring_stages, mapped_stages, unmapped,
  pcie_qdma_init,
}
use tapasco.Pcie.Qdma.Stop.{with_map, inv_contexts, drop_ring, pcie_qdma_exit}
use tapasco.Pcie.Qdma.Contexts.{
  Log, Sends, stage-Sends, setup_log, contexts-Sends, ioremap-Sends, alloc_ring-Sends, poll-writes,
  eacces_if-writes,
}

module _ (o : Outcomes) where
  abbrev sends : Log → Log
  sends = setup_log o.read (address o.ring)

  ring-Sends : Sends sends (ring_stages o)
  unfolding ring_stages
  ring-Sends =
      stage-Sends (λ l. l) sends (ioremap o.maps_ack ack_register_aws) _ (iounmap ack_register_aws)
        (ioremap-Sends o.maps_ack ack_register_aws)
        (stage-Sends (λ l. l) sends (alloc_ring o.ring) (contexts o.read (address o.ring)) free_ring
          (alloc_ring-Sends o.ring) (contexts-Sends o.read (address o.ring)))

  map-Sends :
      (b : Bool) (r : ℕ) (rest : Qdma → Ret × Qdma)
      → Sends sends rest
      → Sends sends (stage (ioremap b r) (iounmap r) rest)
  map-Sends b r rest = stage-Sends (λ l. l) sends (ioremap b r) rest (iounmap r) (ioremap-Sends b r)

  mapped-Sends : Sends sends (mapped_stages o)
  unfolding mapped_stages
  mapped-Sends = map-Sends o.maps_ctxt ctxt_regs _ (
      map-Sends o.maps_qid2vec qid2vec_regs _ (
        map-Sends o.maps_c2h c2h_mm _ (
          map-Sends o.maps_h2c h2c_mm _ (
            map-Sends o.maps_fmap fmap _ (
              map-Sends o.maps_buf_size buf_size _
                (map-Sends o.maps_ring_size ring_size (ring_stages o) ring-Sends))))))

unmapped-writes : (r : Ret × Qdma) → (unmapped r).1.writes ≡ r.1.writes
unfolding iounmap
unmapped-writes (ok, s) = refl
unmapped-writes (err e, s) = refl

unmapped-ok : (r : Ret × Qdma) → (unmapped r).0 ≡ ok → r.0 ≡ ok
unmapped-ok (ok, s) h = refl
unmapped-ok (err e, s) h = h

init-Sends : (o : Outcomes) → Sends (λ l. sends o ((dma_reset, 1) ∷ l)) (pcie_qdma_init o)
unfolding pcie_qdma_init iowrite32
init-Sends o s good = elim (Bool-cases (o.id % 2 ^ 32 == desc_gen_id)) [
  | inr missing ↦ absurd (ground (arith, missing))
  | inl found ↦ elim (Bool-cases (ltb o.qdma_bar_len 0x18010)) [
    | inl small ↦ absurd (ground (arith, found, small))
    | inr long ↦
        let reset : Qdma = iowrite32 1 dma_reset s in
        let up : (mapped_stages o reset).0 ≡ ok =
          unmapped-ok (mapped_stages o reset) (ground (arith, found, long)) in
        rw (found, long) (unmapped-writes (mapped_stages o reset) ∙ mapped-Sends o reset up)
  ]
]

-- The word that was last written to the `i`-th data register.
abbrev data_word : ℕ → Log → ℕ
data_word i [] = 0
data_word i ((ctxt_data j, v) ∷ l) = if j == i then v else data_word i l
data_word i (w ∷ l) = data_word i l

-- The operation and the data words of the last command on a context.
abbrev pub last_command : ℕ → ℕ → Log → Option (ℕ × List ℕ)
last_command sel qid [] = none
last_command sel qid ((ctxt_cmd, v) ∷ l) =
    if v / 2 % 16 == sel && v / 2 ^ 7 % 2048 == qid
    then some (v / 2 ^ 5 % 4, data_word 0 l ∷ data_word 1 l ∷ data_word 2 l ∷ data_word 3 l ∷ [])
    else last_command sel qid l
last_command sel qid (w ∷ l) = last_command sel qid l

-- The last value that a register that switches an engine was given.
abbrev pub switched : Bool → Log → Option ℕ
switched c2h [] = none
switched c2h ((c2h_mm_ctrl, v) ∷ l) = if c2h then some v else switched c2h l
switched c2h ((h2c_mm_ctrl, v) ∷ l) = if c2h then switched c2h l else some v
switched c2h (w ∷ l) = switched c2h l

abbrev pub written : List ℕ → Option (ℕ × List ℕ)
written ws = some (ctxt_cmd_wr, ws)

abbrev pub operation : Option (ℕ × List ℕ) → Option ℕ
operation none = none
operation (some (op, ws)) = some op

-- The bus address that the four words of a completion context hold, and the bit that makes it valid.
abbrev pub ring_address : List ℕ → ℕ
ring_address (w0 ∷ w1 ∷ w2 ∷ w3 ∷ []) = (w0 / 2 ^ 28 + w1 * 2 ^ 4 + w2 % 2 ^ 22 * 2 ^ 36) * 2 ^ 6
ring_address ws = 0

abbrev pub is_valid : List ℕ → ℕ
is_valid (w0 ∷ w1 ∷ w2 ∷ w3 ∷ []) = w3 / 2 ^ 24 % 2
is_valid ws = 0

completion_words_lem :
    (a : ℕ)
    → a % 2 ^ 6 ≡ 0
    → a < 2 ^ 64
    → (ring_address (completion_words a) ≡ a) × (is_valid (completion_words a) ≡ 1)
unfolding completion_words
completion_words_lem a aligned lt = (omega arith, omega arith)

-- The last commands of a log that ends a setup whose ring lies at `a`.
pub record IsSetUp (a : ℕ) (l : Log) : Type 0 where
  pub c2h_mm_queue : last_command sw_c2h mm_qid l ≡ written mm_words
  pub h2c_mm_queue : last_command sw_h2c mm_qid l ≡ written mm_words
  pub c2h_st_queue : last_command sw_c2h st_qid l ≡ written c2h_st_words
  pub h2c_st_queue : last_command sw_h2c st_qid l ≡ written h2c_st_words
  pub prefetch : last_command pftch st_qid l ≡ written prefetch_words
  pub completion : last_command wrb st_qid l ≡ written (completion_words a)
  pub hw_clear :
      (operation (last_command hw_c2h mm_qid l) ≡ some ctxt_cmd_clr)
      × (operation (last_command hw_h2c mm_qid l) ≡ some ctxt_cmd_clr)
      × (operation (last_command hw_c2h st_qid l) ≡ some ctxt_cmd_clr)
      × (operation (last_command hw_h2c st_qid l) ≡ some ctxt_cmd_clr)
  pub credit_clear :
      (operation (last_command cr_c2h mm_qid l) ≡ some ctxt_cmd_clr)
      × (operation (last_command cr_h2c mm_qid l) ≡ some ctxt_cmd_clr)
      × (operation (last_command cr_c2h st_qid l) ≡ some ctxt_cmd_clr)
      × (operation (last_command cr_h2c st_qid l) ≡ some ctxt_cmd_clr)
  pub switched_on : (switched true l ≡ some 1) × (switched false l ≡ some 1)

setup_log-IsSetUp : (read : ℕ → ℕ) (a : ℕ) (l : Log) → IsSetUp a (setup_log read a l)
unfolding command_word completion_words
setup_log-IsSetUp read a l = record {
  c2h_mm_queue = refl;
  h2c_mm_queue = refl;
  c2h_st_queue = refl;
  h2c_st_queue = refl;
  prefetch = refl;
  completion = refl;
  hw_clear = (refl, refl, refl, refl);
  credit_clear = (refl, refl, refl, refl);
  switched_on = (refl, refl);
}

-- After a setup that succeeds, with a ring at an aligned 64-bit address, the last command on each
-- context of the queues writes it with the words for that queue, the completion context's words
-- are valid and hold the ring's address, the last command on each hardware and credit context
-- clears it, and both memory-mapped engines are switched on.
pub init_contexts :
    (o : Outcomes) (s : Qdma) (a : ℕ)
    → o.ring ≡ some a
    → a % 2 ^ 6 ≡ 0
    → a < 2 ^ 64
    → (pcie_qdma_init o s).0 ≡ ok
    → IsSetUp a (pcie_qdma_init o s).1.writes
      × (ring_address (completion_words a) ≡ a)
      × (is_valid (completion_words a) ≡ 1)
init_contexts o s a at_a aligned lt good =
    let (holds, valid) = completion_words_lem a aligned lt in
    (
      rw (init-Sends o s good, at_a) (setup_log-IsSetUp o.read a ((dma_reset, 1) ∷ s.writes)),
      holds,
      valid,
    )

module _ (sel qid : ℕ) (b : Bool) (r : ℕ) (use_it : Qdma → Ret × Qdma)
    (k : (s : Qdma)
      → last_command sel qid (use_it s).1.writes ≡ last_command sel qid s.writes) where
  with_map-command :
      (p : Ret × Qdma)
      → last_command sel qid (with_map b r use_it p).1.writes ≡ last_command sel qid p.1.writes
  unfolding with_map
  with_map-command (res, s) = elim (Bool-cases b) [
    | inl t ↦ rw t (k (record s { held = acquire r s.held }))
    | inr f ↦ rw f refl
  ]

inv_contexts-writes : (read : ℕ → ℕ) (s : Qdma) → (inv_contexts read s).1.writes ≡ s.writes
unfolding qdma_inv_ind_context
inv_contexts-writes read s = eacces_if-writes _ ∙ poll-writes read 99 _ ∙ poll-writes read 99 s

drop_ring-writes : (s : Qdma) → (drop_ring s).writes ≡ s.writes
unfolding drop_ring free_ring
drop_ring-writes s = ground arith

-- The exit sends no command: on each context, the last command is that before the exit, so that the
-- queues that a setup wrote are not invalidated.
pub exit-last_command :
    (o : Outcomes) (s : Qdma) (sel qid : ℕ)
    → last_command sel qid (pcie_qdma_exit o s).1.writes ≡ last_command sel qid s.writes
unfolding pcie_qdma_exit iounmap iowrite32
exit-last_command o s sel qid = elim (Bool-cases (o.id % 2 ^ 32 == desc_gen_id)) [
  | inr missing ↦ rw missing (ap (last_command sel qid) (drop_ring-writes s))
  | inl found ↦ rw found (
      with_map-command sel qid o.maps_ctxt ctxt_regs (inv_contexts o.read)
        (λ t. ap (last_command sel qid) (inv_contexts-writes o.read t)) _
      ∙ with_map-command sel qid o.maps_c2h c2h_mm (λ t. (ok, iowrite32 0 c2h_mm_ctrl t))
          (λ t. refl) _
      ∙ with_map-command sel qid o.maps_h2c h2c_mm (λ t. (ok, iowrite32 0 h2c_mm_ctrl t))
          (λ t. refl) (ok, iounmap ack_register_aws (drop_ring s))
      ∙ ap (last_command sel qid) (drop_ring-writes s))
]
