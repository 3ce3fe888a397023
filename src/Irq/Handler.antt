-- ===== src/Irq/Handler.antt =====
-- The handlers of the interrupt controllers: aws_irq_handler of runtime/kernel/pcie/pcie_irq_aws.c
-- and zynq_irq_handler of runtime/kernel/zynq/zynq_irq.c.
use tapasco.Base.{
  ℕ, zero, suc, ◌+◌, Bool, true, false, List, [], ◌∷◌, Option, none, some, ltb, ◌==◌, if◌then◌else◌,
}
use tapasco.Control.{Mapping}
use tapasco.Irq.{line_0}

-- A word of 32 bits, the lowest first.
abbrev pub Word : Type 0
Word = List Bool

-- `__builtin_ffs(w) - 1` for a word that is not 0.
abbrev pub ffs : Word → ℕ
ffs [] = 0
ffs (b ∷ bs) = if b then 0 else suc (ffs bs)

abbrev pub is_zero : Word → Bool
is_zero [] = true
is_zero (b ∷ bs) = if b then false else is_zero bs

-- `^ (1U << slot)`; `none`: the word has no such bit.
abbrev pub flip : ℕ → Word → Option Word
flip slot [] = none
flip zero (b ∷ bs) = some ((if b then false else true) ∷ bs)
flip (suc slot) (b ∷ bs) = elim (flip slot bs) [ none ↦ none | some w ↦ some (b ∷ w) ]

-- The entry that the handler stands at, and those behind it.
abbrev pub Position : Type 0
Position = Mapping × List Mapping

-- On to the first entry whose line is not below that of the slot, or to the last one.
abbrev pub walk_to : ℕ → Position → Position
walk_to slot (m, []) = (m, [])
walk_to slot (m, e ∷ es) =
    if ltb m.irq_no (line_0 + slot) then walk_to slot (e, es) else (m, e ∷ es)

-- The event files signalled, the last one first.
abbrev pub signal_at : ℕ → Mapping → List ℕ → List ℕ
signal_at slot m ss = if m.irq_no == line_0 + slot then m.eventfd ∷ ss else ss

-- The loop over the bits of a word that is not 0. The bit that it clears is the slot's, plus `off`.
-- `none`: there is no such bit, or the fuel, one unit a bit, is used up.
unfoldable pub serve : ℕ → ℕ → ℕ → Word → Position → List ℕ → Option (Position × List ℕ)
serve zero off start w p ss = none
serve (suc fuel) off start w p ss =
    let slot = ffs w in
    let p' = walk_to (slot + start) p in
    let ss' = signal_at (slot + start) p'.0 ss in
    elim (flip (slot + off) w) [
      | none ↦ none
      | some w' ↦ elim (is_zero w') [
        | true ↦ some (p', ss')
        | false ↦ serve fuel off start w' p' ss'
      ]
    ]

-- The loop over the words that the reads of the status register give, the first 0 or the end of the
-- list being the last read.
unfoldable pub serve_all : ℕ → ℕ → List Word → Position → List ℕ → Option (List ℕ)
unfolding serve
serve_all off start [] p ss = some ss
serve_all off start (w ∷ ws) p ss = elim (is_zero w) [
  | true ↦ some ss
  | false ↦ elim (serve 32 off start w p ss) [
    | none ↦ none
    | some (p', ss') ↦ serve_all off start ws p' ss'
  ]
]

-- The entry with a line, and those behind it. `none`: no entry has it.
abbrev pub at_line : ℕ → List Mapping → Option Position
at_line n [] = none
at_line n (m ∷ ms) = if m.irq_no == n then some (m, ms) else at_line n ms

unfoldable pub irq_handler : ℕ → ℕ → Option ℕ → List Mapping → List Word → Option (List ℕ)
unfolding serve_all
irq_handler off start none ms ws = some []
irq_handler off start (some n) ms ws = elim (at_line n ms) [
  | none ↦ none
  | some p ↦ serve_all off start ws p []
]

-- `mapping` is the first line of the controller, and `ms` the list of interrupts.
unfoldable pub aws_irq_handler : ℕ → Option ℕ → List Mapping → List Word → Option (List ℕ)
unfolding irq_handler
aws_irq_handler start = irq_handler 0 start

-- The slot has `start` added to it before its bit is cleared.
unfoldable pub zynq_irq_handler : ℕ → Option ℕ → List Mapping → List Word → Option (List ℕ)
unfolding irq_handler
zynq_irq_handler start = irq_handler start start
