-- ===== src/Irq/Service.antt =====
-- Lines of an AWS device that are registered and released in any order, and the interrupts then
-- served (runtime/kernel/pcie/pcie_irq_aws.c, runtime/kernel/device/tlkm_device_ioctl.c,
-- tlkm_control.c).
use tapasco.Base.{
  true, ℕ, zero, suc, ◌+◌, ◌*◌, ◌≤◌, ◌<◌, ◌≡◌, refl, Bool, Bool-cases, inl, inr, List, [], ◌∷◌,
  Option, none, some, ltb, get_elem?, length, Ret, ok, err, efault, arith,
}
use tapasco.Control.{
  Mapping, Control, taken, enter, registered, tlkm_device_reg_int, tlkm_control_release,
}
use tapasco.Control.Interrupts.{Ascending, ended, next, enter-Ascending}
use tapasco.Irq.{
  line_0, irqs_per_controller, num_direct_irqs, Irqs, reg_int_on_aws, drop_lines, close_on_aws,
}
use tapasco.Irq.Handler.{Word, aws_irq_handler}
use tapasco.Irq.Delivery.{raised, aws_irq_handler_lem}
use tapasco.Irq.Lines.{lo, IsPointed, request-IsPointed}
use tapasco.Irq.Release.{release-IsPointed}

-- Lines that are direct or belong to one of the four controllers.
abbrev pub AllServed : List Mapping → Type 0
AllServed [] = Unit {0}
AllServed (m ∷ ms) = (m.irq_no < lo 4) × AllServed ms

pub record IsReady (c : Control) (s : Irqs) : Type 0 where
  pub ascends : Ascending 0 c.interrupts
  pub served : AllServed c.interrupts
  pub pointed : IsPointed c.interrupts s.intc_bases

enter-AllServed :
    (m : Mapping) (ms : List Mapping) → m.irq_no < lo 4 → AllServed ms → AllServed (enter m ms)
enter-AllServed m [] lt all = (lt, tt)
enter-AllServed m (e ∷ es) lt all = elim (Bool-cases (ltb m.irq_no e.irq_no)) [
  | inl below ↦ rw below (lt, all)
  | inr above ↦ rw above (all.0, enter-AllServed m es lt all.1)
]

reg_int-IsReady :
    (qdma : Bool) (granted : Ret) (pe_id fd : ℕ) (c : Control) (s : Irqs)
    → pe_id < lo 4
    → IsReady c s
    → (q : Ret × Control × Irqs) × (reg_int_on_aws qdma granted pe_id fd c s ≡ some q)
      × IsReady q.1 q.2
unfolding reg_int_on_aws tlkm_device_reg_int
reg_int-IsReady qdma granted pe_id fd c s lt r = elim (Bool-cases (taken pe_id c.interrupts)) [
  | inl t ↦ ((err efault, c, s), rw t refl, r)
  | inr t ↦
      let m : Mapping = record { irq_no = pe_id; eventfd = fd } in
      let (s', requested, p) =
        request-IsPointed qdma granted m c.interrupts s lt r.ascends t r.pointed in
      (
        (ok, (registered pe_id true fd ok c).1, s'),
        rw (t, requested, tlkm_device_reg_int, t) refl,
        record {
          ascends = enter-Ascending 0 m c.interrupts (omega arith) t r.ascends;
          served = enter-AllServed m c.interrupts lt r.served;
          pointed = p;
        },
      )
]

Ascending-le : (k n : ℕ) (ms : List Mapping) → k ≤ n → Ascending n ms → Ascending k ms
Ascending-le k n [] le a = ended k
Ascending-le k n (m ∷ ms) le (next _ _ _ l a) = next k m ms (omega arith) a

drop_lines-IsPointed :
    (ms : List Mapping) (s : Irqs)
    → Ascending 0 ms
    → AllServed ms
    → IsPointed ms s.intc_bases
    → (s' : Irqs) × (drop_lines ms s ≡ some s') × IsPointed [] s'.intc_bases
unfolding drop_lines
drop_lines-IsPointed [] s a all p = (s, refl, p)
drop_lines-IsPointed (m ∷ ms) s (next _ _ _ l a) all p =
    let (s', released, p') = release-IsPointed m ms s all.0 (next 0 m ms l a) p in
    let (s'', dropped, p'') =
      drop_lines-IsPointed ms s' (Ascending-le 0 _ ms (omega arith) a) all.1 p' in
    (s'', rw (drop_lines, released) dropped, p'')

close-IsReady :
    (closes : Bool) (c : Control) (s : Irqs)
    → IsReady c s
    → (q : Control × Irqs) × (close_on_aws closes c s ≡ some q) × IsReady q.0 q.1
unfolding close_on_aws tlkm_control_release
close-IsReady closes c s r =
    let (s', dropped, p) = drop_lines-IsPointed c.interrupts s r.ascends r.served r.pointed in
    (
      (tlkm_control_release closes c, s'),
      rw (close_on_aws, dropped) refl,
      record { ascends = ended 0; served = tt; pointed = p },
    )

-- A call on the control file of an AWS device; `request_irq` gives the result of a direct line.
pub data AwsCall : Type 0 where
  register : Bool → Ret → ℕ → ℕ → AwsCall
  close : Bool → AwsCall

unfoldable pub run : List AwsCall → Control → Irqs → Option (Control × Irqs)
unfolding reg_int_on_aws close_on_aws
run [] c s = some (c, s)
run (register qdma granted pe_id fd ∷ cs) c s = elim (reg_int_on_aws qdma granted pe_id fd c s) [
  | none ↦ none
  | some q ↦ run cs q.1 q.2
]
run (close closes ∷ cs) c s = elim (close_on_aws closes c s) [
  | none ↦ none
  | some q ↦ run cs q.0 q.1
]

abbrev pub AllInRange : List AwsCall → Type 0
AllInRange [] = Unit {0}
AllInRange (register qdma granted pe_id fd ∷ cs) = (pe_id < lo 4) × AllInRange cs
AllInRange (close closes ∷ cs) = AllInRange cs

run-IsReady :
    (cs : List AwsCall) (c : Control) (s : Irqs)
    → AllInRange cs
    → IsReady c s
    → (q : Control × Irqs) × (run cs c s ≡ some q) × IsReady q.0 q.1
unfolding run
run-IsReady [] c s all r = ((c, s), refl, r)
run-IsReady (register qdma granted pe_id fd ∷ cs) c s all r =
    let (q, e, r') = reg_int-IsReady qdma granted pe_id fd c s all.0 r in
    rw (run, e) (run-IsReady cs q.1 q.2 all.1 r')
run-IsReady (close closes ∷ cs) c s all r =
    let (q, e, r') = close-IsReady closes c s r in rw (run, e) (run-IsReady cs q.0 q.1 all r')

-- The lines of the controllers as pcie_aws_irqs_init leaves them.
abbrev pub unpointed : Irqs
unpointed = record { direct = []; intc_bases = none ∷ none ∷ none ∷ none ∷ [] }

abbrev pub unused : Control
unused = record { interrupts = []; events = [] }

unpointed-IsReady : IsReady unused unpointed
unpointed-IsReady = record {
  ascends = ended 0;
  served = tt;
  pointed = record { four = refl; points = points };
}
  where
    points : (k : ℕ) → k < 4 → get_elem? unpointed.intc_bases k ≡ some none
    points zero lt = refl
    points (suc zero) lt = refl
    points (suc (suc zero)) lt = refl
    points (suc (suc (suc zero))) lt = refl
    points (suc (suc (suc (suc k)))) lt = absurd (omega arith)

-- The line that the source gives as the first one of a controller.
abbrev pub start : ℕ → ℕ
start k = k * irqs_per_controller + num_direct_irqs

-- After any calls on the control file of an AWS device, fresh, that register lines which are
-- direct or belong to one of the four controllers, with whatever result for a direct line, or
-- that close the file: for each controller and each status word of 32 bits, read once, the
-- handler signals the event files of exactly the registered lines of that controller whose bits
-- are set, each once, in ascending order.
pub run-served :
    (cs : List AwsCall) (k : ℕ) (w : Word)
    → AllInRange cs
    → k < 4
    → length w ≤ 32
    → (c : Control) × (s : Irqs) × (first : Option ℕ) × (run cs unused unpointed ≡ some (c, s))
      × (get_elem? s.intc_bases k ≡ some first)
      × (aws_irq_handler (start k) first c.interrupts (w ∷ [])
          ≡ some (raised (start k) w c.interrupts []))
run-served cs k w all lt short =
    let (q, e, r) = run-IsReady cs unused unpointed all unpointed-IsReady in
    let same : line_0 + start k ≡ lo k = omega arith in
    (
      q.0,
      q.1,
      _,
      e,
      r.pointed.points k lt,
      rw (← same) (aws_irq_handler_lem (start k) q.0.interrupts w r.ascends short),
    )
