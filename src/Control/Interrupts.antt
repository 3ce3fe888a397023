-- ===== src/Control/Interrupts.antt =====
-- The list of interrupts stays in order, and the lines and event files that a control file holds are
-- those of its list (runtime/kernel/device/tlkm_control.c, tlkm_device_ioctl.c).
use tapasco.Base.{
  ℕ, suc, ◌+◌, ◌≤◌, ◌≡◌, refl, Bool, Bool-cases, true, false, inl, inr, List, [], ◌∷◌, Option, none,
  some, ltb, ◌==◌, if◌then◌else◌, Ret, ok, err, efault, arith,
}
use tapasco.Control.{
  Mapping, Event, pirq, rirq, fdget, fdget_fails, put, miscdev_close, Control, taken, enter,
  tlkm_device_reg_int, drop_all, tlkm_control_release,
}

-- Lines in strictly ascending order, the first at least `n`.
pub data Ascending : ℕ → List Mapping → Type 0 where
  ended : (n : ℕ) → Ascending n []
  next :
      (n : ℕ) (m : Mapping) (ms : List Mapping)
      → n ≤ m.irq_no
      → Ascending (suc m.irq_no) ms
      → Ascending n (m ∷ ms)

pub enter-Ascending :
    (n : ℕ) (m : Mapping) (ms : List Mapping)
    → n ≤ m.irq_no
    → taken m.irq_no ms ≡ false
    → Ascending n ms
    → Ascending n (enter m ms)
enter-Ascending n m [] l t (ended k) = next n m [] l (ended _)
enter-Ascending n m (e ∷ es) l t (next k x xs le a) = elim (Bool-cases (ltb m.irq_no e.irq_no)) [
  | inl lt ↦ rw lt (next n m (e ∷ es) l (next _ e es (ground arith) a))
  | inr ge ↦
      rw ge (next n e (enter m es) le (enter-Ascending _ m es (ground arith) (ground arith) a))
]

-- How many of the events, and of the list's entries, are about a line or an event file.
abbrev pub pirqs : ℕ → List Event → ℕ
pirqs n [] = 0
pirqs n (pirq k ∷ es) = (if k == n then 1 else 0) + pirqs n es
pirqs n (rirq k ∷ es) = pirqs n es
pirqs n (fdget k ∷ es) = pirqs n es
pirqs n (put k ∷ es) = pirqs n es
pirqs n (fdget_fails k ∷ es) = pirqs n es
pirqs n (miscdev_close ∷ es) = pirqs n es

abbrev pub rirqs : ℕ → List Event → ℕ
rirqs n [] = 0
rirqs n (rirq k ∷ es) = (if k == n then 1 else 0) + rirqs n es
rirqs n (pirq k ∷ es) = rirqs n es
rirqs n (fdget k ∷ es) = rirqs n es
rirqs n (put k ∷ es) = rirqs n es
rirqs n (fdget_fails k ∷ es) = rirqs n es
rirqs n (miscdev_close ∷ es) = rirqs n es

abbrev pub fdgets : ℕ → List Event → ℕ
fdgets n [] = 0
fdgets n (fdget k ∷ es) = (if k == n then 1 else 0) + fdgets n es
fdgets n (pirq k ∷ es) = fdgets n es
fdgets n (rirq k ∷ es) = fdgets n es
fdgets n (put k ∷ es) = fdgets n es
fdgets n (fdget_fails k ∷ es) = fdgets n es
fdgets n (miscdev_close ∷ es) = fdgets n es

abbrev pub puts : ℕ → List Event → ℕ
puts n [] = 0
puts n (put k ∷ es) = (if k == n then 1 else 0) + puts n es
puts n (pirq k ∷ es) = puts n es
puts n (rirq k ∷ es) = puts n es
puts n (fdget k ∷ es) = puts n es
puts n (fdget_fails k ∷ es) = puts n es
puts n (miscdev_close ∷ es) = puts n es

-- The error pointers.
abbrev pub bads : ℕ → List Event → ℕ
bads n [] = 0
bads n (fdget_fails k ∷ es) = (if k == n then 1 else 0) + bads n es
bads n (pirq k ∷ es) = bads n es
bads n (rirq k ∷ es) = bads n es
bads n (fdget k ∷ es) = bads n es
bads n (put k ∷ es) = bads n es
bads n (miscdev_close ∷ es) = bads n es

abbrev lines : ℕ → List Mapping → ℕ
lines n [] = 0
lines n (m ∷ ms) = (if m.irq_no == n then 1 else 0) + lines n ms

abbrev files : ℕ → List Mapping → ℕ
files n [] = 0
files n (m ∷ ms) = (if m.eventfd == n then 1 else 0) + files n ms

-- The list is in order, and what is held is what is listed.
pub record IsBalanced (c : Control) : Type 0 where
  pub ascends : Ascending 0 c.interrupts
  pub held_lines : (n : ℕ) → pirqs n c.events ≡ rirqs n c.events + lines n c.interrupts
  pub held_files :
      (n : ℕ) → fdgets n c.events + bads n c.events ≡ puts n c.events + files n c.interrupts

pirqs-drop_all :
    (n : ℕ) (ms : List Mapping) (es : List Event) → pirqs n (drop_all ms es) ≡ pirqs n es
pirqs-drop_all n [] es = refl
pirqs-drop_all n (m ∷ ms) es = pirqs-drop_all n ms _

fdgets-drop_all :
    (n : ℕ) (ms : List Mapping) (es : List Event) → fdgets n (drop_all ms es) ≡ fdgets n es
fdgets-drop_all n [] es = refl
fdgets-drop_all n (m ∷ ms) es = fdgets-drop_all n ms _

bads-drop_all : (n : ℕ) (ms : List Mapping) (es : List Event) → bads n (drop_all ms es) ≡ bads n es
bads-drop_all n [] es = refl
bads-drop_all n (m ∷ ms) es = bads-drop_all n ms _

rirqs-drop_all :
    (n : ℕ) (ms : List Mapping) (es : List Event)
    → rirqs n (drop_all ms es) ≡ rirqs n es + lines n ms
rirqs-drop_all n [] es = omega arith
rirqs-drop_all n (m ∷ ms) es =
    omega (arith, rirqs-drop_all n ms (rirq m.irq_no ∷ put m.eventfd ∷ es))

puts-drop_all :
    (n : ℕ) (ms : List Mapping) (es : List Event) → puts n (drop_all ms es) ≡ puts n es + files n ms
puts-drop_all n [] es = omega arith
puts-drop_all n (m ∷ ms) es = omega (arith, puts-drop_all n ms (rirq m.irq_no ∷ put m.eventfd ∷ es))

release-IsBalanced :
    (closes : Bool) (c : Control) → IsBalanced c → IsBalanced (tlkm_control_release closes c)
unfolding tlkm_control_release
release-IsBalanced false c b = record {
  ascends = ended 0;
  held_lines = λ n. omega (
    arith,
    pirqs-drop_all n c.interrupts c.events,
    rirqs-drop_all n c.interrupts c.events,
    b.held_lines n,
  );
  held_files = λ n. omega (
    arith,
    fdgets-drop_all n c.interrupts c.events,
    bads-drop_all n c.interrupts c.events,
    puts-drop_all n c.interrupts c.events,
    b.held_files n,
  );
}
release-IsBalanced true c b = record {
  ascends = ended 0;
  held_lines = λ n. omega (
    arith,
    pirqs-drop_all n c.interrupts c.events,
    rirqs-drop_all n c.interrupts c.events,
    b.held_lines n,
  );
  held_files = λ n. omega (
    arith,
    fdgets-drop_all n c.interrupts c.events,
    bads-drop_all n c.interrupts c.events,
    puts-drop_all n c.interrupts c.events,
    b.held_files n,
  );
}

-- A call on the control file, with what the user's memory and the class's `pirq` give.
pub data Call : Type 0 where
  registers : Bool → ℕ → Bool → ℕ → Ret → Call
  releases : Bool → Call

unfoldable pub run : Control → List Call → Option Control
unfolding tlkm_device_reg_int tlkm_control_release
run c [] = some c
run c (registers copied pe_id is_file fd r ∷ cs) =
    elim (tlkm_device_reg_int copied true pe_id is_file fd r c) [
      | none ↦ none
      | some q ↦ run q.1 cs
    ]
run c (releases closes ∷ cs) = run (tlkm_control_release closes c) cs

-- After a control file in such a state is closed, every line has been released as often as it was
-- requested, and every pointer put back as often as it was got, error pointers among them.
pub release_lem :
    (closes : Bool) (c : Control) (n : ℕ)
    → IsBalanced c
    → let c' = tlkm_control_release closes c in
      (pirqs n c'.events ≡ rirqs n c'.events)
      × (fdgets n c'.events + bads n c'.events ≡ puts n c'.events)
unfolding tlkm_control_release
release_lem closes c n b =
    let b' = release-IsBalanced closes c b in
    (omega (arith, b'.held_lines n), omega (arith, b'.held_files n))

taken-enter : (m : Mapping) (ms : List Mapping) → taken m.irq_no (enter m ms) ≡ true
taken-enter m [] = ground arith
taken-enter m (e ∷ es) = ground (arith, taken-enter m es)

taken-again :
    (pe_id : ℕ) (is_file : Bool) (fd : ℕ) (c c' : Control)
    → tlkm_device_reg_int true true pe_id is_file fd ok c ≡ some (ok, c')
    → taken pe_id c'.interrupts ≡ true
unfolding tlkm_device_reg_int
taken-again pe_id is_file fd c c' e = elim (Bool-cases (taken pe_id c.interrupts)) [
  | inl t ↦ absurd (ground (arith, t, e))
  | inr t ↦
      let m : Mapping = record { irq_no = pe_id; eventfd = fd } in
      ground (arith, t, e, taken-enter m c.interrupts)
]

-- A line that a call registered is refused with EFAULT to the next call, which changes nothing.
pub reg_int_twice :
    (pe_id fd fd' : ℕ) (is_file is_file' : Bool) (r : Ret) (allocated : Bool) (c c' : Control)
    → tlkm_device_reg_int true true pe_id is_file fd ok c ≡ some (ok, c')
    → tlkm_device_reg_int true allocated pe_id is_file' fd' r c' ≡ some (err efault, c')
unfolding tlkm_device_reg_int
reg_int_twice pe_id fd fd' is_file is_file' r allocated c c' e =
    rw (taken-again pe_id is_file fd c c' e) refl
