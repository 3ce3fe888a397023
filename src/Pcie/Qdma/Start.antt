-- ===== src/Pcie/Qdma/Start.antt =====
-- Setting up the QDMA engine: pcie_qdma_init of runtime/kernel/pcie/pcie_qdma.c. What the kernel's calls and the reads of registers give is an
-- argument.
use tapasco.Base.{
  ℕ, ◌+◌, ◌*◌, ◌%◌, ◌/◌, ◌^◌, Bool, true, false, ◌||◌, List, [], ◌∷◌, Option, none, some, ltb, ◌==◌,
  if◌then◌else◌, Ret, ok, err, enodev, efault, enomem, eacces,
}
use tapasco.Base.Stages.{acquire, release}
use tapasco.Base.Steps.{stage}
use tapasco.Pcie.Qdma.{
  sw_c2h, sw_h2c, hw_c2h, hw_h2c, cr_c2h, cr_h2c, wrb, pftch, mm_qid, st_qid, dma_reset,
  qid2vec_qid, qid2vec_map, c2h_mm_ctrl, h2c_mm_ctrl, fmap_reg, buf_size_reg, ring_size_reg,
  wrb_cidx_1, Qdma, iowrite32, qdma_program_ind_context, qdma_clear_ind_context,
  qdma_inv_ind_context, sw_words, cmpl_words,
}

-- What can be held: the mapped registers, and the completion ring.
abbrev pub ctxt_regs : ℕ
ctxt_regs = 40

abbrev pub qid2vec_regs : ℕ
qid2vec_regs = 41

abbrev pub c2h_mm : ℕ
c2h_mm = 42

abbrev pub h2c_mm : ℕ
h2c_mm = 43

abbrev pub fmap : ℕ
fmap = 44

abbrev pub buf_size : ℕ
buf_size = 45

abbrev pub ring_size : ℕ
ring_size = 46

abbrev pub ack_register_aws : ℕ
ack_register_aws = 47

abbrev pub cmpt_ring : ℕ
cmpt_ring = 48

abbrev pub desc_gen_id : ℕ
desc_gen_id = 0xDE5C1000

abbrev pub cmpt_ring_sz : ℕ
cmpt_ring_sz = 64

-- The descriptor generator's identification, the length of BAR 2, which calls of `ioremap` succeed
-- in the order of the source, the ring's bus address unless its allocation fails, and what the reads
-- of the command register give.
pub record Outcomes : Type 0 where
  pub id : ℕ
  pub qdma_bar_len : ℕ
  pub maps_ctxt : Bool
  pub maps_qid2vec : Bool
  pub maps_c2h : Bool
  pub maps_h2c : Bool
  pub maps_fmap : Bool
  pub maps_buf_size : Bool
  pub maps_ring_size : Bool
  pub maps_ack : Bool
  pub ring : Option ℕ
  pub read : ℕ → ℕ

unfoldable pub ioremap : Bool → ℕ → Qdma → Ret × Qdma
ioremap true r s = (ok, record s { held = acquire r s.held })
ioremap false r s = (err efault, s)

unfoldable pub iounmap : ℕ → Qdma → Qdma
iounmap r s = record s { held = release r s.held }

unfoldable pub alloc_ring : Option ℕ → Qdma → Ret × Qdma
alloc_ring none s = (err enomem, s)
alloc_ring (some a) s = (ok, record s { held = acquire cmpt_ring s.held; cmpt_ring_addr = a })

-- `dma_free_coherent`; the address stays where it is.
unfoldable pub free_ring : Qdma → Qdma
free_ring s = record s { held = release cmpt_ring s.held }

abbrev pub eacces_if : Bool × Qdma → Ret × Qdma
eacces_if (true, s) = (err eacces, s)
eacces_if (false, s) = (ok, s)

abbrev pub no_label : Qdma → Qdma
no_label s = s

-- The contexts that are cleared_contexts, in order.
abbrev pub cleared_contexts : List (ℕ × ℕ)
cleared_contexts =
    (sw_c2h, mm_qid)
    ∷ (hw_c2h, mm_qid)
    ∷ (cr_c2h, mm_qid)
    ∷ (sw_h2c, mm_qid)
    ∷ (hw_h2c, mm_qid)
    ∷ (cr_h2c, mm_qid)
    ∷ (sw_c2h, st_qid)
    ∷ (hw_c2h, st_qid)
    ∷ (cr_c2h, st_qid)
    ∷ (sw_h2c, st_qid)
    ∷ (hw_h2c, st_qid)
    ∷ (cr_h2c, st_qid)
    ∷ (pftch, st_qid)
    ∷ (wrb, st_qid)
    ∷ []

-- All are cleared_contexts, whatever the calls return.
abbrev pub clear_each : (ℕ → ℕ) → List (ℕ × ℕ) → Bool × Qdma → Bool × Qdma
clear_each read [] (res, s) = (res, s)
clear_each read ((sel, qid) ∷ cs) (res, s) =
    let (r, s') = qdma_clear_ind_context read sel qid s in clear_each read cs (res || r, s')

unfoldable pub clear_contexts : (ℕ → ℕ) → Qdma → Ret × Qdma
unfolding qdma_clear_ind_context
clear_contexts read s = eacces_if (clear_each read cleared_contexts (false, s))

unfoldable pub program : (ℕ → ℕ) → List ℕ → List ℕ → ℕ → ℕ → Qdma → Ret × Qdma
unfolding qdma_program_ind_context
program read mask words sel qid s = eacces_if (qdma_program_ind_context read mask words sel qid s)

unfoldable pub invalidate : (ℕ → ℕ) → ℕ → ℕ → Qdma → Qdma
unfolding qdma_inv_ind_context
invalidate read sel qid s = (qdma_inv_ind_context read sel qid s).1

abbrev pub ones : ℕ
ones = 0xFFFFFFFF

abbrev pub all_ones : List ℕ
all_ones = ones ∷ ones ∷ ones ∷ ones ∷ []

-- QEN, BYPASS, IRQ_EN and IS_MM.
abbrev pub mm_words : List ℕ
mm_words = (2 ^ 16) ∷ (1 + 2 ^ 18 + 2 ^ 21 + 2 ^ 31) ∷ 0 ∷ 0 ∷ []

abbrev pub c2h_st_words : List ℕ
c2h_st_words = sw_words (record { irq_arm = 0; qen = 1; fcrd_en = 1; bypass = 1; irq_en = 0 })

abbrev pub h2c_st_words : List ℕ
h2c_st_words = sw_words (record { irq_arm = 1; qen = 1; fcrd_en = 0; bypass = 1; irq_en = 1 })

abbrev pub prefetch_words : List ℕ
prefetch_words = 1 ∷ (2 ^ 13) ∷ 0 ∷ 0 ∷ []

-- For a kernel whose bus addresses have 64 bits.
unfoldable pub completion_words : ℕ → List ℕ
completion_words addr = cmpl_words (record {
  en_stat_desc = 1;
  en_int = 1;
  trig_mode = 3;
  qsize_idx = 0;
  baddr_high_l = addr / 2 ^ 6 % 2 ^ 36;
  baddr_high_h = addr / 2 ^ 6 / 2 ^ 36 % 2 ^ 22;
  valid = 1;
  full_upd = 1;
})

-- TRIG_USER, IRQ_EN and WRB_EN.
abbrev pub wrb_update : ℕ
wrb_update = 3 * 2 ^ 24 + 2 ^ 28 + 2 ^ 27

unfoldable pub set_sizes : Qdma → Ret × Qdma
unfolding iowrite32
set_sizes s = (ok, iowrite32 cmpt_ring_sz ring_size_reg (iowrite32 0x8000 buf_size_reg s))

-- The vectors of the queues, the function, and the engines; then the first update of the ring.
unfoldable pub enable : Qdma → Ret × Qdma
unfolding iowrite32
enable s =
    let vectors = iowrite32 (2 + 3 * 2 ^ 9) qid2vec_map (
      iowrite32 st_qid qid2vec_qid
        (iowrite32 (0 + 1 * 2 ^ 9) qid2vec_map (iowrite32 mm_qid qid2vec_qid s))) in
    let enabled =
      iowrite32 1 h2c_mm_ctrl (iowrite32 1 c2h_mm_ctrl (iowrite32 (2 * 2 ^ 11) fmap_reg vectors)) in
    (ok, iowrite32 wrb_update wrb_cidx_1 enabled)

unfoldable pub stream_contexts : (ℕ → ℕ) → ℕ → Qdma → Ret × Qdma
stream_contexts read addr =
    stage (program read all_ones c2h_st_words sw_c2h st_qid) (invalidate read sw_c2h st_qid) (
      stage (program read all_ones h2c_st_words sw_h2c st_qid) (invalidate read sw_h2c st_qid) (
        stage (program read (ones ∷ ones ∷ 0 ∷ 0 ∷ []) prefetch_words pftch st_qid)
          (invalidate read pftch st_qid)
          (stage (program read all_ones (completion_words addr) wrb st_qid) no_label enable)))

unfoldable pub contexts : (ℕ → ℕ) → ℕ → Qdma → Ret × Qdma
unfolding stream_contexts
contexts read addr = stage (clear_contexts read) no_label (
    stage (program read all_ones mm_words sw_c2h mm_qid) (invalidate read sw_c2h mm_qid) (
      stage (program read all_ones mm_words sw_h2c mm_qid) (invalidate read sw_h2c mm_qid)
        (stage set_sizes no_label (stream_contexts read addr))))

abbrev pub address : Option ℕ → ℕ
address none = 0
address (some a) = a

-- What stays mapped, and the ring.
unfoldable pub ring_stages : Outcomes → Qdma → Ret × Qdma
unfolding contexts
ring_stages o =
    stage (ioremap o.maps_ack ack_register_aws) (iounmap ack_register_aws)
      (stage (alloc_ring o.ring) free_ring (contexts o.read (address o.ring)))

unfoldable pub mapped_stages : Outcomes → Qdma → Ret × Qdma
unfolding ring_stages
mapped_stages o = stage (ioremap o.maps_ctxt ctxt_regs) (iounmap ctxt_regs) (
    stage (ioremap o.maps_qid2vec qid2vec_regs) (iounmap qid2vec_regs) (
      stage (ioremap o.maps_c2h c2h_mm) (iounmap c2h_mm) (
        stage (ioremap o.maps_h2c h2c_mm) (iounmap h2c_mm) (
          stage (ioremap o.maps_fmap fmap) (iounmap fmap) (
            stage (ioremap o.maps_buf_size buf_size) (iounmap buf_size)
              (stage (ioremap o.maps_ring_size ring_size) (iounmap ring_size) (ring_stages o)))))))

-- The end of a setup that succeeds.
abbrev pub unmapped : Ret × Qdma → Ret × Qdma
unmapped (err e, s) = (err e, s)
unmapped (ok, s) = (
  ok,
  iounmap ctxt_regs (
      iounmap qid2vec_regs
        (iounmap c2h_mm (iounmap h2c_mm (iounmap fmap (iounmap buf_size (iounmap ring_size s)))))),
)

unfoldable pub pcie_qdma_init : Outcomes → Qdma → Ret × Qdma
unfolding mapped_stages iounmap iowrite32
pcie_qdma_init o s =
    let reset = iowrite32 1 dma_reset s in
    if o.id % 2 ^ 32 == desc_gen_id
    then (if ltb o.qdma_bar_len 0x18010
        then (err enodev, reset)
        else unmapped (mapped_stages o reset))
    else (err enodev, s)
