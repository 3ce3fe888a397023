-- ===== src/Pcie/Qdma/Resources.antt =====
-- What the stages of a setup of the QDMA engine hold and give back (runtime/kernel/pcie/pcie_qdma.c).
use tapasco.Base.{
  ℕ, suc, zero, ◌+◌, ◌≡◌, refl, ◌∙◌, Bool, true, false, List, [], ◌∷◌, ◌++◌, Option, none, some,
  Ret, arith,
}
use tapasco.Base.Stages.{Held}
use tapasco.Base.Steps.{stage, Restores, Holds, Undoes, stage-Restores, stage-Holds}
use tapasco.Pcie.Qdma.{
  QdmaRegister, ctxt_data, ctxt_mask, write_words, sw_c2h, sw_h2c, wrb, pftch, mm_qid, st_qid, Qdma,
  poll, iowrite32, qdma_program_ind_context, qdma_clear_ind_context, qdma_inv_ind_context,
}
use tapasco.Pcie.Qdma.Start.{
  cmpt_ring, ioremap, iounmap, alloc_ring, free_ring, no_label, clear_each, cleared_contexts,
  clear_contexts, program, invalidate, ones, all_ones, mm_words, c2h_st_words, h2c_st_words,
  prefetch_words, completion_words, set_sizes, enable, stream_contexts, contexts, eacces_if,
}

abbrev pub resources : Qdma → Held
resources s = s.held

pub poll-held : (read : ℕ → ℕ) (n : ℕ) (s : Qdma) → (poll read n s).1.held ≡ s.held
unfolding poll
poll-held read zero s = refl
poll-held read (suc n) s = ground (arith, poll-held read n (record s { polls = s.polls + 1 }))

-- A stage that leaves alone what is held.
abbrev pub Keeps : (Qdma → Ret × Qdma) → Type 0
Keeps f = (s : Qdma) → (f s).1.held ≡ s.held

Keeps-Restores : (f : Qdma → Ret × Qdma) → Keeps f → Restores resources f
Keeps-Restores f k s h e bad = k s ∙ e

Keeps-Holds : (f : Qdma → Ret × Qdma) → Keeps f → Holds resources [] f
Keeps-Holds f k s h e good = k s ∙ e

pub eacces_if-held : (r : Bool × Qdma) → (eacces_if r).1.held ≡ r.1.held
eacces_if-held (true, s) = refl
eacces_if-held (false, s) = refl

clear_each-held :
    (read : ℕ → ℕ) (cs : List (ℕ × ℕ)) (r : Bool) (s : Qdma)
    → (clear_each read cs (r, s)).1.held ≡ s.held
unfolding qdma_clear_ind_context iowrite32
clear_each-held read [] r s = refl
clear_each-held read ((sel, qid) ∷ cs) r s =
    clear_each-held read cs _ (qdma_clear_ind_context read sel qid s).1 ∙ poll-held read 99 _

pub clear-Keeps : (read : ℕ → ℕ) → Keeps (clear_contexts read)
unfolding clear_contexts
clear-Keeps read s =
    eacces_if-held (clear_each read cleared_contexts (false, s))
    ∙ clear_each-held read cleared_contexts false s

write_words-held :
    (r : ℕ → QdmaRegister) (i : ℕ) (vs : List ℕ) (s : Qdma) → (write_words r i vs s).held ≡ s.held
unfolding iowrite32
write_words-held r i [] s = refl
write_words-held r i (v ∷ vs) s = write_words-held r (i + 1) vs _

module _ (read : ℕ → ℕ) (mask words : List ℕ) (sel qid : ℕ) where
  program-Keeps : Keeps (program read mask words sel qid)
  unfolding program qdma_program_ind_context iowrite32
  program-Keeps s =
      eacces_if-held (qdma_program_ind_context read mask words sel qid s)
      ∙ poll-held read 99 _
      ∙ write_words-held ctxt_data 0 words _
      ∙ write_words-held ctxt_mask 0 mask s

  -- A context that is programmed, and the label that leaves alone what is held, before stages.
  module _ (label : Qdma → Qdma) (rest : Qdma → Ret × Qdma) where
    program-Restores :
        Undoes resources label []
        → Restores resources rest
        → Restores resources (stage (program read mask words sel qid) label rest)
    program-Restores =
        stage-Restores resources [] (program read mask words sel qid) label rest
          (Keeps-Restores (program read mask words sel qid) program-Keeps)
          (Keeps-Holds (program read mask words sel qid) program-Keeps)

    program-Holds :
        Holds resources [] rest
        → Holds resources [] (stage (program read mask words sel qid) label rest)
    program-Holds =
        stage-Holds resources [] (program read mask words sel qid) label rest []
          (Keeps-Holds (program read mask words sel qid) program-Keeps)

invalidate-Undoes : (read : ℕ → ℕ) (sel qid : ℕ) → Undoes resources (invalidate read sel qid) []
unfolding invalidate qdma_inv_ind_context
invalidate-Undoes read sel qid s h e = poll-held read 99 s ∙ e

no_label-Undoes : Undoes resources no_label []
no_label-Undoes s h e = e

set_sizes-Keeps : Keeps set_sizes
unfolding set_sizes
set_sizes-Keeps s = refl

enable-Keeps : Keeps enable
unfolding enable
enable-Keeps s = refl

abbrev prefetch_mask : List ℕ
prefetch_mask = ones ∷ ones ∷ 0 ∷ 0 ∷ []

module _ (read : ℕ → ℕ) (addr : ℕ) where
  stream-Restores : Restores resources (stream_contexts read addr)
  unfolding stream_contexts
  stream-Restores =
      program-Restores read all_ones c2h_st_words sw_c2h st_qid _ _
        (invalidate-Undoes read sw_c2h st_qid)
        (program-Restores read all_ones h2c_st_words sw_h2c st_qid _ _
          (invalidate-Undoes read sw_h2c st_qid)
          (program-Restores read prefetch_mask prefetch_words pftch st_qid _ _
            (invalidate-Undoes read pftch st_qid)
            (program-Restores read all_ones (completion_words addr) wrb st_qid no_label enable
              no_label-Undoes (Keeps-Restores enable enable-Keeps))))

  stream-Holds : Holds resources [] (stream_contexts read addr)
  unfolding stream_contexts
  stream-Holds = program-Holds read all_ones c2h_st_words sw_c2h st_qid _ _ (
      program-Holds read all_ones h2c_st_words sw_h2c st_qid _ _ (
        program-Holds read prefetch_mask prefetch_words pftch st_qid _ _ (
          program-Holds read all_ones (completion_words addr) wrb st_qid no_label enable
            (Keeps-Holds enable enable-Keeps))))

  pub contexts-Restores : Restores resources (contexts read addr)
  unfolding contexts
  contexts-Restores =
      stage-Restores resources [] (clear_contexts read) no_label _
        (Keeps-Restores (clear_contexts read) (clear-Keeps read))
        (Keeps-Holds (clear_contexts read) (clear-Keeps read)) no_label-Undoes
        (program-Restores read all_ones mm_words sw_c2h mm_qid _ _
          (invalidate-Undoes read sw_c2h mm_qid)
          (program-Restores read all_ones mm_words sw_h2c mm_qid _ _
            (invalidate-Undoes read sw_h2c mm_qid)
            (stage-Restores resources [] set_sizes no_label (stream_contexts read addr)
              (Keeps-Restores set_sizes set_sizes-Keeps) (Keeps-Holds set_sizes set_sizes-Keeps)
              no_label-Undoes stream-Restores)))

  pub contexts-Holds : Holds resources [] (contexts read addr)
  unfolding contexts
  contexts-Holds =
      stage-Holds resources [] (clear_contexts read) no_label _ []
        (Keeps-Holds (clear_contexts read) (clear-Keeps read))
        (program-Holds read all_ones mm_words sw_c2h mm_qid _ _ (
          program-Holds read all_ones mm_words sw_h2c mm_qid _ _ (
            stage-Holds resources [] set_sizes no_label (stream_contexts read addr) []
              (Keeps-Holds set_sizes set_sizes-Keeps) stream-Holds)))

ioremap-Restores : (b : Bool) (r : ℕ) → Restores resources (ioremap b r)
unfolding ioremap
ioremap-Restores true r s h e bad = absurd (bad refl)
ioremap-Restores false r s h e bad = e

ioremap-Holds : (b : Bool) (r : ℕ) → Holds resources (r ∷ []) (ioremap b r)
unfolding ioremap
ioremap-Holds true r s h e good = rw e refl
ioremap-Holds false r s h e good = ground arith

iounmap-Undoes : (r : ℕ) → Undoes resources (iounmap r) (r ∷ [])
unfolding iounmap
iounmap-Undoes r s h e = ground arith

-- Registers that are mapped, before further stages.
module _ (b : Bool) (r : ℕ) (rest : Qdma → Ret × Qdma) where
  pub map-Restores :
      Restores resources rest → Restores resources (stage (ioremap b r) (iounmap r) rest)
  map-Restores =
      stage-Restores resources (r ∷ []) (ioremap b r) (iounmap r) rest (ioremap-Restores b r)
        (ioremap-Holds b r) (iounmap-Undoes r)

  pub map-Holds :
      (qs : List ℕ)
      → Holds resources qs rest
      → Holds resources (qs ++ r ∷ []) (stage (ioremap b r) (iounmap r) rest)
  map-Holds qs =
      stage-Holds resources (r ∷ []) (ioremap b r) (iounmap r) rest qs (ioremap-Holds b r)

pub alloc_ring-Restores : (a : Option ℕ) → Restores resources (alloc_ring a)
unfolding alloc_ring
alloc_ring-Restores (some a) s h e bad = absurd (bad refl)
alloc_ring-Restores none s h e bad = e

pub alloc_ring-Holds : (a : Option ℕ) → Holds resources (cmpt_ring ∷ []) (alloc_ring a)
unfolding alloc_ring
alloc_ring-Holds (some a) s h e good = rw e refl
alloc_ring-Holds none s h e good = ground arith

pub free_ring-Undoes : Undoes resources free_ring (cmpt_ring ∷ [])
unfolding free_ring
free_ring-Undoes s h e = ground arith
