-- ===== src/Irq/ZynqDelivery.antt =====
-- Which event files the handler of Zynq's interrupt controllers signals
-- (runtime/kernel/zynq/zynq_irq.c).
use tapasco.Base.{
  ℕ, zero, suc, ◌+◌, ◌*◌, ◌≤◌, ◌<◌, ◌≡◌, refl, false, List, [], ◌∷◌, none, some, length, arith,
}
use tapasco.Control.{Mapping}
use tapasco.Control.Interrupts.{Ascending}
use tapasco.Irq.{line_0, irqs_per_controller}
use tapasco.Irq.First.{first_in}
use tapasco.Irq.Handler.{
  Word, ffs, is_zero, flip, Position, serve, serve_all, at_line, irq_handler, aws_irq_handler,
  zynq_irq_handler,
}
use tapasco.Irq.Delivery.{raised, aws_irq_handler_lem}

flip-beyond : (slot : ℕ) (w : Word) → length w ≤ slot → flip slot w ≡ none
flip-beyond slot [] le = refl
flip-beyond zero (b ∷ bs) le = absurd (omega arith)
flip-beyond (suc slot) (b ∷ bs) le = rw (flip-beyond slot bs (omega arith)) refl

-- The handler of Zynq's first controller signals the event files of exactly the registered lines whose
-- bits are set in the one status word that it reads.
pub zynq_irq_handler_first :
    (ms : List Mapping) (w : Word)
    → Ascending 0 ms
    → length w ≤ 32
    → zynq_irq_handler 0 (first_in line_0 (line_0 + 32) ms) ms (w ∷ []) ≡ some (raised 0 w ms [])
unfolding zynq_irq_handler aws_irq_handler
zynq_irq_handler_first ms w a short = aws_irq_handler_lem 0 ms w a short

-- For a Zynq controller behind the first one that points at a registered line, the handler comes,
-- for every status word other than 0, to a shift of 32 or more, which names no bit of the word.
pub zynq_irq_handler_stuck :
    (k f : ℕ) (ms : List Mapping) (p : Position) (w : Word) (ws : List Word)
    → 0 < k
    → at_line f ms ≡ some p
    → length w ≤ 32
    → is_zero w ≡ false
    → zynq_irq_handler (k * irqs_per_controller) (some f) ms (w ∷ ws) ≡ none
unfolding zynq_irq_handler irq_handler serve_all serve
zynq_irq_handler_stuck k f ms p w ws pos at short nz =
    rw
      (
        irq_handler,
        at,
        serve_all,
        nz,
        serve,
        flip-beyond (ffs w + k * irqs_per_controller) w (omega arith),
      )
      refl
