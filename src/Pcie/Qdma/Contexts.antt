-- ===== src/Pcie/Qdma/Contexts.antt =====
-- What the stages of a setup of the QDMA engine write to its registers
-- (runtime/kernel/pcie/pcie_qdma.c).
use tapasco.Base.{
  ℕ, suc, zero, ◌+◌, ◌*◌, ◌^◌, ◌≡◌, refl, ap, ◌∙◌, Bool, true, false, List, [], ◌∷◌, Option, none,
  some, Ret, ok, arith,
}
use tapasco.Base.Steps.{stage}
use tapasco.Pcie.Qdma.{
  QdmaRegister, write_words, ctxt_data, ctxt_mask, ctxt_cmd, c2h_mm_ctrl, h2c_mm_ctrl, fmap_reg,
  buf_size_reg, ring_size_reg, wrb_cidx_1, qid2vec_qid, qid2vec_map, sw_c2h, sw_h2c, wrb, pftch,
  mm_qid, st_qid, ctxt_cmd_clr, ctxt_cmd_wr, Qdma, poll, iowrite32, command_word,
  qdma_program_ind_context, qdma_clear_ind_context,
}
use tapasco.Pcie.Qdma.Start.{
  ioremap, alloc_ring, eacces_if, no_label, clear_contexts, clear_each, cleared_contexts, program,
  ones, all_ones, mm_words, c2h_st_words, h2c_st_words, prefetch_words, completion_words,
  wrb_update, set_sizes, enable, stream_contexts, contexts,
}

-- The log of register writes, the last one first.
abbrev pub Log : Type 0
Log = List (QdmaRegister × ℕ)

-- What a stage that succeeds makes of the log.
abbrev pub Sends : (Log → Log) → (Qdma → Ret × Qdma) → Type 0
Sends t f = (s : Qdma) → (f s).0 ≡ ok → (f s).1.writes ≡ t s.writes

module _ (t u : Log → Log) (f rest : Qdma → Ret × Qdma) (label : Qdma → Qdma) where
  pub stage-Sends : Sends t f → Sends u rest → Sends (λ l. u (t l)) (stage f label rest)
  unfolding stage
  stage-Sends a b s good = ground (arith, a s, b (f s).1)

pub poll-writes : (read : ℕ → ℕ) (n : ℕ) (s : Qdma) → (poll read n s).1.writes ≡ s.writes
unfolding poll
poll-writes read zero s = refl
poll-writes read (suc n) s = ground (arith, poll-writes read n (record s { polls = s.polls + 1 }))

pub eacces_if-writes : (r : Bool × Qdma) → (eacces_if r).1.writes ≡ r.1.writes
eacces_if-writes (true, s) = refl
eacces_if-writes (false, s) = refl

abbrev pub logged : (ℕ → QdmaRegister) → ℕ → List ℕ → Log → Log
logged r i [] l = l
logged r i (v ∷ vs) l = logged r (i + 1) vs ((r i, v) ∷ l)

write_words-writes :
    (r : ℕ → QdmaRegister) (i : ℕ) (vs : List ℕ) (s : Qdma)
    → (write_words r i vs s).writes ≡ logged r i vs s.writes
unfolding iowrite32
write_words-writes r i [] s = refl
write_words-writes r i (v ∷ vs) s = write_words-writes r (i + 1) vs _

abbrev pub programs : List ℕ → List ℕ → ℕ → ℕ → Log → Log
programs mask words sel qid l =
    (ctxt_cmd, command_word sel ctxt_cmd_wr qid)
    ∷ logged ctxt_data 0 words (logged ctxt_mask 0 mask l)

module _ (read : ℕ → ℕ) (mask words : List ℕ) (sel qid : ℕ) where
  program-Sends : Sends (programs mask words sel qid) (program read mask words sel qid)
  unfolding program qdma_program_ind_context iowrite32
  program-Sends s good =
      eacces_if-writes (qdma_program_ind_context read mask words sel qid s)
      ∙ poll-writes read 99 _
      ∙ cc (
        write_words-writes ctxt_data 0 words (write_words ctxt_mask 0 mask s),
        write_words-writes ctxt_mask 0 mask s,
      )

abbrev pub clears : List (ℕ × ℕ) → Log → Log
clears [] l = l
clears ((sel, qid) ∷ cs) l = clears cs ((ctxt_cmd, command_word sel ctxt_cmd_clr qid) ∷ l)

clear-writes :
    (read : ℕ → ℕ) (sel qid : ℕ) (s : Qdma)
    → (qdma_clear_ind_context read sel qid s).1.writes
      ≡ (ctxt_cmd, command_word sel ctxt_cmd_clr qid) ∷ s.writes
unfolding qdma_clear_ind_context iowrite32
clear-writes read sel qid s = poll-writes read 99 _

clear_each-writes :
    (read : ℕ → ℕ) (cs : List (ℕ × ℕ)) (r : Bool) (s : Qdma)
    → (clear_each read cs (r, s)).1.writes ≡ clears cs s.writes
clear_each-writes read [] r s = refl
clear_each-writes read ((sel, qid) ∷ cs) r s =
    clear_each-writes read cs _ (qdma_clear_ind_context read sel qid s).1
    ∙ ap (clears cs) (clear-writes read sel qid s)

clear-Sends : (read : ℕ → ℕ) → Sends (clears cleared_contexts) (clear_contexts read)
unfolding clear_contexts
clear-Sends read s good =
    eacces_if-writes (clear_each read cleared_contexts (false, s))
    ∙ clear_each-writes read cleared_contexts false s

abbrev pub sets : Log → Log
sets l = (ring_size_reg, 64) ∷ (buf_size_reg, 0x8000) ∷ l

set_sizes-Sends : Sends sets set_sizes
unfolding set_sizes iowrite32
set_sizes-Sends s good = refl

abbrev pub enables : Log → Log
enables l =
    (wrb_cidx_1, wrb_update)
    ∷ (h2c_mm_ctrl, 1)
    ∷ (c2h_mm_ctrl, 1)
    ∷ (fmap_reg, 2 * 2 ^ 11)
    ∷ (qid2vec_map, 2 + 3 * 2 ^ 9)
    ∷ (qid2vec_qid, st_qid)
    ∷ (qid2vec_map, 0 + 1 * 2 ^ 9)
    ∷ (qid2vec_qid, mm_qid)
    ∷ l

enable-Sends : Sends enables enable
unfolding enable iowrite32
enable-Sends s good = refl

pub ioremap-Sends : (b : Bool) (r : ℕ) → Sends (λ l. l) (ioremap b r)
unfolding ioremap
ioremap-Sends true r s good = refl
ioremap-Sends false r s good = refl

pub alloc_ring-Sends : (a : Option ℕ) → Sends (λ l. l) (alloc_ring a)
unfolding alloc_ring
alloc_ring-Sends none s good = refl
alloc_ring-Sends (some a) s good = refl

abbrev pub prefetch_mask : List ℕ
prefetch_mask = ones ∷ ones ∷ 0 ∷ 0 ∷ []

module _ (read : ℕ → ℕ) (addr : ℕ) where
  abbrev pub streams : Log → Log
  streams l = enables (
      programs all_ones (completion_words addr) wrb st_qid (
        programs prefetch_mask prefetch_words pftch st_qid (
          programs all_ones h2c_st_words sw_h2c st_qid
            (programs all_ones c2h_st_words sw_c2h st_qid l))))

  abbrev pub setup_log : Log → Log
  setup_log l = streams (
      sets (
        programs all_ones mm_words sw_h2c mm_qid
          (programs all_ones mm_words sw_c2h mm_qid (clears cleared_contexts l))))

  stream-Sends : Sends streams (stream_contexts read addr)
  unfolding stream_contexts
  stream-Sends =
      stage-Sends (programs all_ones c2h_st_words sw_c2h st_qid) _
        (program read all_ones c2h_st_words sw_c2h st_qid) _ _
        (program-Sends read all_ones c2h_st_words sw_c2h st_qid)
        (stage-Sends (programs all_ones h2c_st_words sw_h2c st_qid) _
          (program read all_ones h2c_st_words sw_h2c st_qid) _ _
          (program-Sends read all_ones h2c_st_words sw_h2c st_qid)
          (stage-Sends (programs prefetch_mask prefetch_words pftch st_qid) _
            (program read prefetch_mask prefetch_words pftch st_qid) _ _
            (program-Sends read prefetch_mask prefetch_words pftch st_qid)
            (stage-Sends (programs all_ones (completion_words addr) wrb st_qid) enables
              (program read all_ones (completion_words addr) wrb st_qid) enable no_label
              (program-Sends read all_ones (completion_words addr) wrb st_qid) enable-Sends)))

  pub contexts-Sends : Sends setup_log (contexts read addr)
  unfolding contexts
  contexts-Sends =
      stage-Sends (clears cleared_contexts) _ (clear_contexts read) _ no_label (clear-Sends read) (
        stage-Sends (programs all_ones mm_words sw_c2h mm_qid) _
          (program read all_ones mm_words sw_c2h mm_qid) _ _
          (program-Sends read all_ones mm_words sw_c2h mm_qid)
          (stage-Sends (programs all_ones mm_words sw_h2c mm_qid) _
            (program read all_ones mm_words sw_h2c mm_qid) _ _
            (program-Sends read all_ones mm_words sw_h2c mm_qid)
            (stage-Sends sets streams set_sizes (stream_contexts read addr) no_label set_sizes-Sends
              stream-Sends)))
