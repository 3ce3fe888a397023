-- ===== src/Pcie/Qdma/Events.antt =====
-- The interrupt handlers of the QDMA engine (runtime/kernel/pcie/pcie_qdma.c), built for a kernel
-- from 6.8 on, and how often they signal a stream's event file.
use tapasco.Base.{
  ℕ, suc, zero, ◌+◌, ◌-◌, ◌%◌, ◌^◌, ◌<◌, ◌≡◌, ◌≢◌, List, [], ◌∷◌, ltb, ◌==◌, if◌then◌else◌, arith,
  ==_ne, ◌∙◌,
}
use tapasco.Pcie.Qdma.{QdmaRegister, c2h_dsc_pidx_0, h2c_dsc_pidx_0, h2c_dsc_pidx_1, wrb_cidx_1}
use tapasco.Pcie.Qdma.Start.{wrb_update, cmpt_ring_sz}

-- The event files signalled and the writes to registers, each the last one first.
pub record Handled : Type 0 where
  pub signals : List ℕ
  pub acks : List (QdmaRegister × ℕ)

-- `eventfd_signal`, `n` times.
abbrev pub signal : ℕ → ℕ → List ℕ → List ℕ
signal zero fd ss = ss
signal (suc n) fd ss = signal n fd (fd ∷ ss)

-- An event file of 0 is none.
abbrev pub notify : ℕ → ℕ → List ℕ → List ℕ
notify n fd ss = if fd == 0 then ss else signal n fd ss

abbrev pub irq_arm : ℕ
irq_arm = 2 ^ 16

pub qdma_intr_handler_read : ℕ → Handled → Handled
qdma_intr_handler_read fd s = record {
  signals = notify 1 fd s.signals;
  acks = (c2h_dsc_pidx_0, irq_arm) ∷ s.acks;
}

pub qdma_intr_handler_write : ℕ → Handled → Handled
qdma_intr_handler_write fd s = record {
  signals = notify 1 fd s.signals;
  acks = (h2c_dsc_pidx_0, irq_arm) ∷ s.acks;
}

-- `uint32_t` arithmetic on the two indices of the completion ring.
unfoldable pub idx_diff : ℕ → ℕ → ℕ
idx_diff pidx cidx =
    if ltb pidx cidx
    then (pidx + cmpt_ring_sz - 1 + 2 ^ 32 - cidx) % 2 ^ 32
    else (pidx + 2 ^ 32 - cidx) % 2 ^ 32

-- `pidx` and `cidx` are those of the ring's last entry, which holds its status. The index is below
-- 2^16, so that `|` is a sum.
unfoldable pub qdma_intr_handler_c2h_stream : ℕ → ℕ → ℕ → Handled → Handled
unfolding idx_diff
qdma_intr_handler_c2h_stream pidx cidx fd s = record {
  signals = notify (idx_diff pidx cidx) fd s.signals;
  acks = (wrb_cidx_1, wrb_update + pidx) ∷ s.acks;
}

pub qdma_intr_handler_h2c_stream : ℕ → Handled → Handled
qdma_intr_handler_h2c_stream fd s = record {
  signals = notify 1 fd s.signals;
  acks = (h2c_dsc_pidx_1, irq_arm) ∷ s.acks;
}

-- The number of completions between two indices of a ring with one entry for the status.
idx_diff_lem : (cidx n : ℕ) → cidx < 63 → n < 63 → idx_diff ((cidx + n) % 63) cidx ≡ n
unfolding idx_diff
idx_diff_lem cidx n lt few = ground arith

abbrev pub count : ℕ → List ℕ → ℕ
count fd [] = 0
count fd (x ∷ xs) = (if x == fd then 1 else 0) + count fd xs

count-signal : (n fd : ℕ) (ss : List ℕ) → count fd (signal n fd ss) ≡ n + count fd ss
count-signal zero fd ss = omega arith
count-signal (suc n) fd ss = ground (arith, count-signal n fd (fd ∷ ss))

-- The engine's interrupts: before each, some completions are written. The status holds the index
-- behind them, and the index that the driver acknowledged last.
unfoldable pub interrupts : ℕ → ℕ → List ℕ → Handled → Handled
unfolding qdma_intr_handler_c2h_stream
interrupts cidx fd [] s = s
interrupts cidx fd (n ∷ ns) s =
    let pidx = (cidx + n) % 63 in
    interrupts pidx fd ns (qdma_intr_handler_c2h_stream pidx cidx fd s)

abbrev pub AllBelow : ℕ → List ℕ → Type 0
AllBelow k [] = Unit {0}
AllBelow k (n ∷ ns) = (n < k) × AllBelow k ns

abbrev pub total : List ℕ → ℕ
total [] = 0
total (n ∷ ns) = n + total ns

-- The index that the last acknowledgement carries.
abbrev pub acknowledged : ℕ → List (QdmaRegister × ℕ) → ℕ
acknowledged d [] = d
acknowledged d ((wrb_cidx_1, v) ∷ ws) = v % 2 ^ 16
acknowledged d (w ∷ ws) = acknowledged d ws

acknowledged-pidx : (pidx : ℕ) → pidx < 63 → (wrb_update + pidx) % 2 ^ 16 ≡ pidx
acknowledged-pidx pidx lt = omega arith

-- Over any run of interrupts of the stream queue, on which an event file is set, with fewer than
-- 63 completions before each, and from the index last acknowledged on, the handler signals the
-- event file once for each completion, and acknowledges the index behind them.
pub stream_signals :
    (cidx fd : ℕ) (ns : List ℕ) (s : Handled)
    → cidx < 63
    → fd ≢ 0
    → AllBelow 63 ns
    → acknowledged 0 s.acks ≡ cidx
    → (count fd (interrupts cidx fd ns s).signals ≡ total ns + count fd s.signals)
      × (acknowledged 0 (interrupts cidx fd ns s).acks ≡ (cidx + total ns) % 63)
unfolding interrupts qdma_intr_handler_c2h_stream
stream_signals cidx fd [] s lt set few ack = (omega arith, omega arith)
stream_signals cidx fd (n ∷ ns) s lt set few ack =
    let pidx : ℕ = (cidx + n) % 63 in
    let s' : Handled = qdma_intr_handler_c2h_stream pidx cidx fd s in
    let signalled : count fd s'.signals ≡ n + count fd s.signals =
      rw (==_ne fd 0 set, idx_diff_lem cidx n lt few.0) (count-signal n fd s.signals) in
    let (counted, acked) =
      stream_signals pidx fd ns s' (omega arith) set few.1 (acknowledged-pidx pidx (omega arith)) in
    (omega (arith, counted, signalled), acked ∙ omega arith)
