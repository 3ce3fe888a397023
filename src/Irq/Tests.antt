-- ===== src/Irq/Tests.antt =====
-- Interrupt controllers on concrete lines and status words.
use tapasco.Base.{
  ℕ, zero, suc, ◌+◌, ◌*◌, ◌≡◌, refl, Bool, true, false, List, [], ◌∷◌, Option, none, some, ltb,
  get_elem?, if◌then◌else◌, Ret, ok, err, ebusy, arith,
}
use tapasco.Control.{Mapping, Control}
use tapasco.Irq.{
  line_0, irqs_per_controller, Irqs, reg_int_on_aws, pcie_aws_irqs_request_platform_irq,
}
use tapasco.Irq.Handler.{Word, aws_irq_handler, irq_handler, serve_all, serve, zynq_irq_handler}
use tapasco.Irq.Delivery.{raised}
use tapasco.Irq.Start.{zynq_irq_init, zynq_irq_exit, request_from}
use tapasco.Irq.Service.{AwsCall, register, run, start, unused, unpointed, run-served}
use tapasco.Irq.ZynqDelivery.{zynq_irq_handler_stuck}

-- Bits 1 and 3.
abbrev word_10 : Word
word_10 = false ∷ true ∷ false ∷ true ∷ false ∷ []

abbrev line : ℕ → ℕ → Mapping
line n fd = record { irq_no = line_0 + n; eventfd = fd }

-- Lines 7 and 5 of the first controller, line 40 of the second, and the direct line 2.
abbrev calls : List AwsCall
calls =
    register false ok (line_0 + 7) 17
    ∷ register false ok (line_0 + 5) 15
    ∷ register false (err ebusy) (line_0 + 2) 12
    ∷ register false ok (line_0 + 40) 50
    ∷ []

run-served_example :
    (c : Control) × (s : Irqs) × (first : Option ℕ) × (run calls unused unpointed ≡ some (c, s))
    × (get_elem? s.intc_bases 0 ≡ some first)
    × (aws_irq_handler (start 0) first c.interrupts (word_10 ∷ [])
        ≡ some (raised (start 0) word_10 c.interrupts []))
run-served_example = run-served calls 0 word_10 (omega arith) (omega arith) (omega arith)

serves_15_17 :
    aws_irq_handler 4
      (some (line_0 + 5))
      (line 2 12 ∷ line 5 15 ∷ line 7 17 ∷ line 40 50 ∷ [])
      (word_10 ∷ [])
    ≡ some (17 ∷ 15 ∷ [])
unfolding aws_irq_handler irq_handler serve_all serve
serves_15_17 = refl

-- The line 5 that is raised between two reads of the status is lost once the walk has gone past it.
loses_5 :
    aws_irq_handler 4
      (some (line_0 + 5))
      (line 5 15 ∷ line 7 17 ∷ [])
      ((false ∷ false ∷ false ∷ true ∷ []) ∷ (false ∷ true ∷ []) ∷ [])
    ≡ some (17 ∷ [])
unfolding aws_irq_handler irq_handler serve_all serve
loses_5 = refl

-- A line behind the last controller is written behind the array.
line_132 : run (register false ok (line_0 + 132) 9 ∷ []) unused unpointed ≡ none
unfolding run reg_int_on_aws pcie_aws_irqs_request_platform_irq
line_132 = refl

zynq_irq_handler_stuck_example :
    zynq_irq_handler (1 * irqs_per_controller) (some (line_0 + 33)) (line 33 3 ∷ []) (word_10 ∷ [])
    ≡ none
zynq_irq_handler_stuck_example =
    zynq_irq_handler_stuck 1 (line_0 + 33) (line 33 3 ∷ []) (line 33 3, []) word_10 [] (omega arith)
      refl (omega arith) refl

-- The request for the third controller fails.
abbrev third_busy : ℕ → Ret
third_busy i = if ltb i 2 then ok else err ebusy

abbrev all_granted : ℕ → Ret
all_granted i = ok

-- Only the second controller is there: the exit gives back the wrong interrupt.
abbrev only_second : ℕ → Bool
only_second i = elim i [ zero ↦ false | suc j ↦ ltb j 1 ]

zynq_gap :
    zynq_irq_exit (zynq_irq_init only_second all_granted [] []).1
    ≡ some (record {
      handlers = (0, 1) ∷ [];
      names = 1 ∷ [];
      mappings = none ∷ [];
      starts = 32 ∷ [];
      requested = 1;
    })
unfolding zynq_irq_exit zynq_irq_init request_from
zynq_gap = refl
