-- ===== src/Irq/Start.antt =====
-- Requesting the interrupts of the controllers and giving them back: pcie_aws_irqs_init and
-- pcie_aws_irqs_exit of runtime/kernel/pcie/pcie_irq_aws.c, zynq_irq_init and zynq_irq_exit of
-- runtime/kernel/zynq/zynq_irq.c, for a kernel from 4.12 on. What `request_irq` gives is an argument.
use tapasco.Base.{
  ℕ, zero, suc, ◌+◌, ◌-◌, ◌*◌, Bool, true, false, ◌&&◌, List, [], ◌∷◌, Option, none, some, ◌==◌,
  if◌then◌else◌, Ret, ok, err,
}
use tapasco.Irq.{irqs_per_controller, num_direct_irqs, Controllers}

-- An interrupt with a handler: its number, and the controller that the handler is given.
abbrev pub Handlers : Type 0
Handlers = List (ℕ × ℕ)

-- The requested interrupts and the names allocated for them, the last ones first, what the
-- controllers point at and the lines that they start at, and the value of `requested_irq_num`, plus
-- 1.
pub record Requests : Type 0 where
  pub handlers : Handlers
  pub names : List ℕ
  pub mappings : Controllers
  pub starts : List ℕ
  pub requested : ℕ

-- `free_irq` of an interrupt without that handler only warns. It gives the name back.
abbrev pub free_irq : ℕ → ℕ → Handlers → Bool × Handlers
free_irq irq id [] = (false, [])
free_irq irq id ((r, k) ∷ hs) =
    if r == irq && k == id
    then (true, hs)
    else (let (found, rest) = free_irq irq id hs in (found, (r, k) ∷ rest))

abbrev pub drop_name : ℕ → List ℕ → List ℕ
drop_name k [] = []
drop_name k (n ∷ ns) = if n == k then ns else n ∷ drop_name k ns

-- The label: the same interrupt for each controller from the failed one down to 0; names are not
-- freed.
abbrev pub undo_requests : ℕ → ℕ → Handlers → Handlers
undo_requests irq zero hs = hs
undo_requests irq (suc k) hs = undo_requests irq k (free_irq irq k hs).1

-- What a request of the interrupt `irq` for the controller `i` leaves.
abbrev pub requested_at : Ret → ℕ → ℕ → ℕ → Requests → Requests
requested_at granted irq i start s = record {
  handlers = elim granted [ ok ↦ (irq, i) ∷ s.handlers | err e ↦ s.handlers ];
  names = i ∷ s.names;
  mappings = none ∷ s.mappings;
  starts = start ∷ s.starts;
  requested = s.requested + 1;
}

abbrev pub failed : ℕ → Requests → Requests
failed irq s = record s { handlers = undo_requests irq (s.requested - 1) s.handlers; requested = 0 }

-- `n` controllers from `i` on; `present` tells which there are, and `granted` what the request for
-- each gives. The interrupt is `vector`, of the controller and the number of requests so far.
unfoldable pub request_from :
    (ℕ → ℕ → ℕ) → (ℕ → ℕ) → (ℕ → Bool) → (ℕ → Ret) → ℕ → ℕ → Requests → Ret × Requests
request_from vector start present granted zero i s = (ok, s)
request_from vector start present granted (suc n) i s = elim (present i) [
  | false ↦ request_from vector start present granted n (i + 1) s
  | true ↦
      let irq = vector i (s.requested - 1) in
      let s' = requested_at (granted i) irq i (start i) s in
      elim (granted i) [
        | ok ↦ request_from vector start present granted n (i + 1) s'
        | err e ↦ (err e, failed irq s')
      ]
]

-- No requests yet, for what is held before.
abbrev pub unrequested : Handlers → List ℕ → Requests
unrequested hs ns = record { handlers = hs; names = ns; mappings = []; starts = []; requested = 1 }

-- The result of the configuration of the XDMA core is overwritten.
unfoldable pub pcie_aws_irqs_init : Ret → (ℕ → Ret) → Handlers → List ℕ → Ret × Requests
unfolding request_from
pcie_aws_irqs_init configured granted hs ns =
    request_from (λ i n. num_direct_irqs + i) (λ i. i * irqs_per_controller + num_direct_irqs)
      (λ i. true) granted 4 0 (unrequested hs ns)

-- `present` tells which controllers the bitstream has.
unfoldable pub zynq_irq_init : (ℕ → Bool) → (ℕ → Ret) → Handlers → List ℕ → Ret × Requests
unfolding request_from
zynq_irq_init present granted hs ns =
    request_from (λ i n. n) (λ i. i * irqs_per_controller) present granted 4 0 (unrequested hs ns)

-- A name is freed if its interrupt had the handler.
abbrev pub give_back : (ℕ → ℕ) → ℕ → Requests → Requests
give_back vector zero s = s
give_back vector (suc k) s =
    let (found, hs) = free_irq (vector k) k s.handlers in
    give_back vector k (record s {
      handlers = hs;
      names = if found then drop_name k s.names else s.names;
      requested = suc k;
    })

-- `none`: the count is -1, as a setup that fails leaves it, and the loop runs in front of the array.
abbrev pub exit_all : (ℕ → ℕ) → Requests → Option Requests
exit_all vector s = elim s.requested [ zero ↦ none | suc n ↦ some (give_back vector n s) ]

unfoldable pub pcie_aws_irqs_exit : Requests → Option Requests
pcie_aws_irqs_exit = exit_all (λ k. num_direct_irqs + k)

unfoldable pub zynq_irq_exit : Requests → Option Requests
zynq_irq_exit = exit_all (λ k. k)
