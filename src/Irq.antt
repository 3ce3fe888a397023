-- ===== src/Irq.antt =====
-- The interrupt controllers behind a device: runtime/kernel/pcie/pcie_irq_aws.c (AWS F1) and
-- runtime/kernel/zynq/zynq_irq.c, with runtime/kernel/pcie/pcie_irq.c for the lines of a PCIe
-- device that have a vector of their own.
pub mod Handler
pub mod Start
mod First
mod Lines
mod Release
mod Service
mod Delivery
mod Ends
mod ZynqDelivery
mod Tests
use tapasco.Base.{
  ℕ, zero, suc, ◌+◌, ◌-◌, ◌/◌, ◌^◌, Bool, true, false, List, [], ◌∷◌, Option, none, some, get_elem?,
  set, ltb, leb, ◌==◌, ◌&&◌, if◌then◌else◌, Ret, ok, err, efault,
}
use tapasco.Control.{Mapping, Control, taken, tlkm_device_reg_int, tlkm_control_release}

abbrev pub irqs_per_controller : ℕ
irqs_per_controller = 32

abbrev pub num_direct_irqs : ℕ
num_direct_irqs = 4

-- The number that stands for the line 0: lines are kept as in Control.
abbrev pub line_0 : ℕ
line_0 = 2 ^ 31

-- The `mapping` of each controller, a pointer to an entry of the list of interrupts: the entry's
-- line, which no other entry has.
abbrev pub Controllers : Type 0
Controllers = List (Option ℕ)

-- `none`: the controller stands behind the array.
abbrev pub request_at : ℕ → ℕ → Controllers → Option Controllers
request_at k n cs = elim (get_elem? cs k) [
  | none ↦ none
  | some none ↦ some (set cs k (some n))
  | some (some first) ↦ some (if ltb n first then set cs k (some n) else cs)
]

-- The entry behind that of a line.
abbrev pub next_line : ℕ → List Mapping → Option ℕ
next_line n [] = none
next_line n (m ∷ []) = none
next_line n (m ∷ e ∷ es) = if m.irq_no == n then some e.irq_no else next_line n (e ∷ es)

-- `of` gives the controller of a line.
abbrev pub release_at : (ℕ → ℕ) → ℕ → ℕ → List Mapping → Controllers → Option Controllers
release_at of k n ms cs = elim (get_elem? cs k) [
  | none ↦ none
  | some none ↦ some cs
  | some (some first) ↦ some (
      if first == n
      then set cs k
          (elim (next_line n ms) [ none ↦ none | some l ↦ if of l == k then some l else none ])
      else cs)
]

-- The lines of a PCIe device that have a vector of their own, and the handler of each.
pub data DirectHandler : Type 0 where
  intr_handler_platform qdma_read qdma_write qdma_c2h_stream qdma_h2c_stream : DirectHandler

abbrev pub Direct : Type 0
Direct = List (ℕ × DirectHandler)

-- `qdma`: the device has a QDMA engine.
unfoldable pub direct_handler : Bool → ℕ → DirectHandler
direct_handler qdma n =
    if n == line_0 + 1 && qdma
    then qdma_write
    else if n == line_0 && qdma
    then qdma_read
    else if n == line_0 + 2 && qdma
    then qdma_c2h_stream
    else if n == line_0 + 3 && qdma
    then qdma_h2c_stream
    else intr_handler_platform

-- `granted` is the result of `request_irq`.
unfoldable pub pcie_irqs_request_platform_irq : Bool → Ret → ℕ → Direct → Ret × Direct
unfolding direct_handler
pcie_irqs_request_platform_irq qdma (err e) n ds = (err e, ds)
pcie_irqs_request_platform_irq qdma ok n ds = (ok, (n, direct_handler qdma n) ∷ ds)

unfoldable pub pcie_irqs_release_platform_irq : ℕ → Direct → Direct
pcie_irqs_release_platform_irq n [] = []
pcie_irqs_release_platform_irq n ((m, h) ∷ ds) =
    if m == n then ds else (m, h) ∷ pcie_irqs_release_platform_irq n ds

-- What the driver keeps of the lines.
pub record Irqs : Type 0 where
  pub direct : Direct
  pub intc_bases : Controllers

abbrev pub with_controllers : Irqs → Option Controllers → Option Irqs
with_controllers s none = none
with_controllers s (some cs) = some (record s { intc_bases = cs })

abbrev pub aws_controller : ℕ → ℕ
aws_controller n = (n - (line_0 + num_direct_irqs)) / irqs_per_controller

-- The result of the request of a direct line is not used: the call returns 0 in any case.
unfoldable pub pcie_aws_irqs_request_platform_irq : Bool → Ret → ℕ → Irqs → Option Irqs
unfolding pcie_irqs_request_platform_irq
pcie_aws_irqs_request_platform_irq qdma granted n s =
    if ltb n (line_0 + num_direct_irqs)
    then some (record s { direct = (pcie_irqs_request_platform_irq qdma granted n s.direct).1 })
    else with_controllers s (request_at (aws_controller n) n s.intc_bases)

-- The entry still stands in the list.
unfoldable pub pcie_aws_irqs_release_platform_irq : ℕ → List Mapping → Irqs → Option Irqs
unfolding pcie_irqs_release_platform_irq
pcie_aws_irqs_release_platform_irq n ms s =
    if ltb n (line_0 + num_direct_irqs)
    then some (record s { direct = pcie_irqs_release_platform_irq n s.direct })
    else with_controllers s (release_at aws_controller (aws_controller n) n ms s.intc_bases)

-- Lines from -31 on divide to 0, lower ones to a controller in front of the array.
abbrev pub zynq_controller : ℕ → ℕ
zynq_controller n = (n - line_0) / irqs_per_controller

unfoldable pub zynq_irq_request_platform_irq : ℕ → Controllers → Option Controllers
zynq_irq_request_platform_irq n cs =
    if leb (n + 32) line_0 then none else request_at (zynq_controller n) n cs

unfoldable pub zynq_irq_release_platform_irq : ℕ → List Mapping → Controllers → Option Controllers
zynq_irq_release_platform_irq n ms cs =
    if leb (n + 32) line_0 then none else release_at zynq_controller (zynq_controller n) n ms cs

-- tlkm_device_reg_int on the control file of an AWS device: the line is requested before it is
-- entered into the list. The process names an event file. `none`: a controller behind the array is
-- written.
unfoldable pub reg_int_on_aws : Bool → Ret → ℕ → ℕ → Control → Irqs → Option (Ret × Control × Irqs)
unfolding pcie_aws_irqs_request_platform_irq tlkm_device_reg_int
reg_int_on_aws qdma granted pe_id fd c s =
    if taken pe_id c.interrupts
    then some (err efault, c, s)
    else elim (pcie_aws_irqs_request_platform_irq qdma granted pe_id s) [
      | none ↦ none
      | some s' ↦ elim (tlkm_device_reg_int true true pe_id true fd ok c) [
        | none ↦ none
        | some (r, c') ↦ some (r, c', s')
      ]
    ]

-- The loop of tlkm_control_release: each line is released while its entry still stands in the list.
unfoldable pub drop_lines : List Mapping → Irqs → Option Irqs
unfolding pcie_aws_irqs_release_platform_irq
drop_lines [] s = some s
drop_lines (m ∷ ms) s = elim (pcie_aws_irqs_release_platform_irq m.irq_no (m ∷ ms) s) [
  | none ↦ none
  | some s' ↦ drop_lines ms s'
]

unfoldable pub close_on_aws : Bool → Control → Irqs → Option (Control × Irqs)
unfolding drop_lines tlkm_control_release
close_on_aws closes c s = elim (drop_lines c.interrupts s) [
  | none ↦ none
  | some s' ↦ some (tlkm_control_release closes c, s')
]
