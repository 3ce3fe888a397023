-- ===== src/Pcie/Qdma.antt =====
-- The registers of the QDMA engine and the programming of its contexts:
-- runtime/kernel/pcie/pcie_qdma.c. What a read of a register gives is an argument.
pub mod Start
pub mod Stop
mod Resources
mod Rollback
mod Contexts
mod Commands
mod Events
mod Tests
use tapasco.Base.{
  ℕ, suc, zero, ◌+◌, ◌*◌, ◌%◌, ◌/◌, ◌^◌, Bool, true, false, List, [], ◌∷◌, ◌==◌, leb, if◌then◌else◌,
  Ret, ok, err, eacces,
}
use tapasco.Base.Stages.{Held}

-- Operations on a context.
abbrev pub ctxt_cmd_clr : ℕ
ctxt_cmd_clr = 0

abbrev pub ctxt_cmd_wr : ℕ
ctxt_cmd_wr = 1

abbrev pub ctxt_cmd_inv : ℕ
ctxt_cmd_inv = 3

-- Selectors of the contexts.
abbrev pub sw_c2h : ℕ
sw_c2h = 0

abbrev pub sw_h2c : ℕ
sw_h2c = 1

abbrev pub hw_c2h : ℕ
hw_c2h = 2

abbrev pub hw_h2c : ℕ
hw_h2c = 3

abbrev pub cr_c2h : ℕ
cr_c2h = 4

abbrev pub cr_h2c : ℕ
cr_h2c = 5

abbrev pub wrb : ℕ
wrb = 6

abbrev pub pftch : ℕ
pftch = 7

abbrev pub mm_qid : ℕ
mm_qid = 0

abbrev pub st_qid : ℕ
st_qid = 1

-- The registers that the driver writes.
pub data QdmaRegister : Type 0 where
  dma_reset : QdmaRegister
  ctxt_data ctxt_mask : ℕ → QdmaRegister
  ctxt_cmd : QdmaRegister
  qid2vec_qid qid2vec_map : QdmaRegister
  c2h_mm_ctrl h2c_mm_ctrl : QdmaRegister
  fmap_reg buf_size_reg ring_size_reg : QdmaRegister
  c2h_dsc_pidx_0 h2c_dsc_pidx_0 h2c_dsc_pidx_1 wrb_cidx_1 : QdmaRegister

-- What the driver holds, the bus address that it keeps of the completion ring, the writes to
-- registers, the last one first, and how often it has read the command register.
pub record Qdma : Type 0 where
  pub held : Held
  pub cmpt_ring_addr : ℕ
  pub writes : List (QdmaRegister × ℕ)
  pub polls : ℕ

unfoldable pub iowrite32 : ℕ → QdmaRegister → Qdma → Qdma
iowrite32 v r s = record s { writes = (r, v) ∷ s.writes }

-- The first four values of a list go to the registers from `i` on.
abbrev pub write_words : (ℕ → QdmaRegister) → ℕ → List ℕ → Qdma → Qdma
write_words r i [] s = s
write_words r i (v ∷ vs) s = write_words r (i + 1) vs (iowrite32 v (r i) s)

-- The command word. Its fields do not overlap, so that `|` is a sum.
unfoldable pub command_word : ℕ → ℕ → ℕ → ℕ
command_word sel op qid = sel % 16 * 2 ^ 1 + op * 2 ^ 5 + qid % 2048 * 2 ^ 7

-- Reads the command register until its busy bit is clear, `fuel` times at most. `read k` is what
-- the read after `k` others gives.
pub poll : (ℕ → ℕ) → ℕ → Qdma → Bool × Qdma
poll read zero s = (true, s)
poll read (suc fuel) s =
    let s' = record s { polls = s.polls + 1 } in
    elim (read s.polls % 2 == 1) [ false ↦ (false, s') | true ↦ poll read fuel s' ]

-- The loops read 99 times. Each result tells whether the command failed.
pub qdma_program_ind_context : (ℕ → ℕ) → List ℕ → List ℕ → ℕ → ℕ → Qdma → Bool × Qdma
unfolding poll
qdma_program_ind_context read mask words sel qid s = poll read 99 (
    iowrite32 (command_word sel ctxt_cmd_wr qid) ctxt_cmd
      (write_words ctxt_data 0 words (write_words ctxt_mask 0 mask s)))

pub qdma_clear_ind_context : (ℕ → ℕ) → ℕ → ℕ → Qdma → Bool × Qdma
unfolding poll
qdma_clear_ind_context read sel qid s =
    poll read 99 (iowrite32 (command_word sel ctxt_cmd_clr qid) ctxt_cmd s)

-- The command word is computed and not written.
pub qdma_inv_ind_context : (ℕ → ℕ) → ℕ → ℕ → Qdma → Bool × Qdma
unfolding poll
qdma_inv_ind_context read sel qid s =
    let w_val = command_word sel ctxt_cmd_inv qid in poll read 99 s

-- The fields of a software context that the driver sets; the others stay 0.
pub record SwDescCtxt : Type 0 where
  pub irq_arm : ℕ
  pub qen : ℕ
  pub fcrd_en : ℕ
  pub bypass : ℕ
  pub irq_en : ℕ

-- The four words that the fields fill, as the bit fields of the structure lie in memory.
abbrev pub sw_words : SwDescCtxt → List ℕ
sw_words c =
    (c.irq_arm * 2 ^ 16)
    ∷ (c.qen + c.fcrd_en * 2 ^ 1 + c.bypass * 2 ^ 18 + c.irq_en * 2 ^ 21)
    ∷ 0
    ∷ 0
    ∷ []

-- Likewise for the completion context, whose 64-bit parts give two words each.
pub record CmplCtxt : Type 0 where
  pub en_stat_desc : ℕ
  pub en_int : ℕ
  pub trig_mode : ℕ
  pub qsize_idx : ℕ
  pub baddr_high_l : ℕ
  pub baddr_high_h : ℕ
  pub valid : ℕ
  pub full_upd : ℕ

abbrev pub cmpl_words : CmplCtxt → List ℕ
cmpl_words c =
    let low =
      c.en_stat_desc
      + c.en_int * 2 ^ 1
      + c.trig_mode * 2 ^ 2
      + c.qsize_idx * 2 ^ 24
      + c.baddr_high_l * 2 ^ 28 in
    let high = c.baddr_high_h + c.valid * 2 ^ 56 + c.full_upd * 2 ^ 61 in
    (low % 2 ^ 32) ∷ (low / 2 ^ 32) ∷ (high % 2 ^ 32) ∷ (high / 2 ^ 32) ∷ []
