-- ===== src/Control/Tests.antt =====
-- Runs of the interrupt list of a control file on concrete calls.
use tapasco.Base.{◌≡◌, refl, true, false, List, [], ◌∷◌, some, ok, err, ebusy, arith}
use tapasco.Control.{pirq, fdget, fdget_fails, Control, tlkm_device_reg_int}
use tapasco.Control.Interrupts.{IsBalanced, ended, next, Call, registers, run}

abbrev unused : Control
unused = record { interrupts = []; events = [] }

abbrev calls : List Call
calls =
    registers true 5 true 30 ok
    ∷ registers true 2 false 31 ok
    ∷ registers true 5 true 32 ok
    ∷ registers true 3 true 33 (err ebusy)
    ∷ []

abbrev one_line : Control
one_line = record {
  interrupts = record { irq_no = 5; eventfd = 30 } ∷ [];
  events = fdget 30 ∷ pirq 5 ∷ [];
}

run_of_calls :
    run unused calls
    ≡ some (record {
      interrupts = record { irq_no = 2; eventfd = 31 } ∷ record { irq_no = 5; eventfd = 30 } ∷ [];
      events = fdget_fails 31 ∷ pirq 2 ∷ fdget 30 ∷ pirq 5 ∷ [];
    })
unfolding run tlkm_device_reg_int
run_of_calls = refl

one_line-IsBalanced : IsBalanced one_line
one_line-IsBalanced = record {
  ascends = next 0 _ _ (omega arith) (ended _);
  held_lines = λ n. omega arith;
  held_files = λ n. omega arith;
}
