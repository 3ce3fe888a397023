-- ===== src/Irq/Ends.antt =====
-- What setting up the controllers' interrupts leaves behind when it fails, and what the exit gives
-- back (runtime/kernel/pcie/pcie_irq_aws.c, runtime/kernel/zynq/zynq_irq.c).
use tapasco.Base.{
  ℕ, zero, suc, ◌+◌, ◌≤◌, ◌<◌, ◌≡◌, ◌⊎◌, refl, inl, inr, List, [], ◌∷◌, Option, none, some, ltb,
  Ret, Errno, ok, err, arith,
}
use tapasco.Irq.{num_direct_irqs}
use tapasco.Irq.Start.{
  Handlers, Requests, request_from, pcie_aws_irqs_init, zynq_irq_init, pcie_aws_irqs_exit,
  zynq_irq_exit,
}

Ret-cases : (r : Ret) → (r ≡ ok) ⊎ ((e : Errno) × (r ≡ err e))
Ret-cases ok = inl refl
Ret-cases (err e) = inr (e, refl)

-- The handlers of the controllers below the `i`-th of an AWS device.
abbrev pub below : ℕ → Handlers
below zero = []
below (suc i) = (num_direct_irqs + i, i) ∷ below i

abbrev pub Granted : ℕ → (ℕ → Ret) → Type 0
Granted zero granted = Unit {0}
Granted (suc i) granted = Granted i granted × (granted i ≡ ok)

-- When the request of an AWS device's interrupts fails at a controller, those before it granted,
-- the error is returned, the handlers of the controllers before it stay requested, and a later
-- exit runs in front of the array of controllers.
pub aws_init_fails :
    (configured : Ret) (granted : ℕ → Ret) (i : ℕ) (e : Errno)
    → i < 4
    → Granted i granted
    → granted i ≡ err e
    → ((pcie_aws_irqs_init configured granted [] []).0 ≡ err e)
      × ((pcie_aws_irqs_init configured granted [] []).1.handlers ≡ below i)
      × (pcie_aws_irqs_exit (pcie_aws_irqs_init configured granted [] []).1 ≡ none)
unfolding pcie_aws_irqs_init request_from pcie_aws_irqs_exit
aws_init_fails configured granted zero e lt g f = (ground arith, ground arith, ground arith)
aws_init_fails configured granted (suc zero) e lt g f = (ground arith, ground arith, ground arith)
aws_init_fails configured granted (suc (suc zero)) e lt g f =
    (ground arith, ground arith, ground arith)
aws_init_fails configured granted (suc (suc (suc zero))) e lt g f =
    (ground arith, ground arith, ground arith)
aws_init_fails configured granted (suc (suc (suc (suc i)))) e lt g f = absurd (omega arith)

abbrev pub IsGivenBack : Handlers → List ℕ → Option Requests → Type 0
IsGivenBack hs ns none = ⊥
IsGivenBack hs ns (some s) = (s.handlers ≡ hs) × (s.names ≡ ns)

-- For an AWS device whose interrupts are all granted, the exit after the setup gives back every handler
-- and every name that the setup took, and nothing else.
pub aws_exit-init :
    (configured : Ret) (granted : ℕ → Ret) (hs : Handlers) (ns : List ℕ)
    → Granted 4 granted
    → IsGivenBack hs ns (pcie_aws_irqs_exit (pcie_aws_irqs_init configured granted hs ns).1)
unfolding pcie_aws_irqs_init request_from pcie_aws_irqs_exit
aws_exit-init configured granted hs ns g = ground (arith, g.0.0.0.1, g.0.0.1, g.0.1, g.1)

-- For a Zynq bitstream whose controllers are the first ones, at most four, whose interrupts are
-- all granted, the exit after the setup gives back every handler and every name that the setup
-- took, and nothing else.
pub zynq_exit-init :
    (granted : ℕ → Ret) (c : ℕ) (hs : Handlers) (ns : List ℕ)
    → c ≤ 4
    → Granted c granted
    → IsGivenBack hs ns (zynq_irq_exit (zynq_irq_init (λ i. ltb i c) granted hs ns).1)
unfolding zynq_irq_init request_from zynq_irq_exit
zynq_exit-init granted zero hs ns le g = ground arith
zynq_exit-init granted (suc zero) hs ns le g = ground arith
zynq_exit-init granted (suc (suc zero)) hs ns le g = ground arith
zynq_exit-init granted (suc (suc (suc zero))) hs ns le g = ground arith
zynq_exit-init granted (suc (suc (suc (suc zero)))) hs ns le g = ground arith
zynq_exit-init granted (suc (suc (suc (suc (suc c))))) hs ns le g = absurd (omega arith)
