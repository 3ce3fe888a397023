-- ===== src/Irq/Release.antt =====
-- Releasing a line of an AWS device leaves every controller at its first registered line
-- (runtime/kernel/pcie/pcie_irq_aws.c).
use tapasco.Base.{
  ℕ, suc, ◌≤◌, ◌<◌, ◌≡◌, refl, sym, ap, ◌∙◌, Bool-cases, true, false, inl, inr, List, [], ◌∷◌,
  Option, none, some, ltb, ◌==◌, if◌then◌else◌, ==_iff, ==_refl, ◌⊎◌, get_elem?, set, length-set,
  arith,
}
use tapasco.Control.{Mapping}
use tapasco.Control.Interrupts.{Ascending, next}
use tapasco.Irq.{
  next_line, release_at, Irqs, aws_controller, pcie_irqs_release_platform_irq,
  pcie_aws_irqs_release_platform_irq,
}
use tapasco.Irq.First.{first_in}
use tapasco.Irq.Lines.{
  lo, hi, in_range, head_below, first_in-behind, get_elem?-set, in_range-controller,
  in_range-direct, IsPointed,
}

-- The entry behind the first one, if the controller has it, is what the release points it at.
behind-head :
    (m : Mapping) (ms : List Mapping)
    → Ascending (suc m.irq_no) ms
    → lo 0 ≤ m.irq_no
    → (elim (next_line m.irq_no (m ∷ ms)) [
      | none ↦ none
      | some l ↦ if aws_controller l == aws_controller m.irq_no then some l else none
    ])
      ≡ head_below (hi (aws_controller m.irq_no)) ms
behind-head m [] a le = refl
behind-head m (e ∷ es) (next _ _ _ l a) le = ground arith

pub release-IsPointed :
    (m : Mapping) (ms : List Mapping) (s : Irqs)
    → m.irq_no < lo 4
    → Ascending 0 (m ∷ ms)
    → IsPointed (m ∷ ms) s.intc_bases
    → (s' : Irqs) × (pcie_aws_irqs_release_platform_irq m.irq_no (m ∷ ms) s ≡ some s')
      × IsPointed ms s'.intc_bases
unfolding pcie_aws_irqs_release_platform_irq
release-IsPointed m ms s lt (next _ _ _ _ a) p = elim (Bool-cases (ltb m.irq_no (lo 0))) [
  | inl direct ↦ (
    record s { direct = pcie_irqs_release_platform_irq m.irq_no s.direct },
    rw direct refl,
    record {
      four = p.four;
      points = λ k small. p.points k small ∙ rw (in_range-direct m.irq_no k (ground arith)) refl;
    },
  )
  | inr above ↦
      let from_first : lo 0 ≤ m.irq_no = ground (arith, above) in
      let k : ℕ = aws_controller m.irq_no in
      let small : k < 4 = omega arith in
      let ranged : in_range (lo k) (hi k) m.irq_no ≡ true =
        in_range-controller m.irq_no k from_first lt small ∙ ground arith in
      let at : get_elem? s.intc_bases k ≡ some (some m.irq_no) =
        p.points k small ∙ rw ranged refl in
      let v : Option ℕ = head_below (hi k) ms in
      (
        record s { intc_bases = set s.intc_bases k v },
        rw (above, release_at, at, ==_refl m.irq_no, behind-head m ms a from_first) refl,
        record {
          four = length-set s.intc_bases k v ∙ p.four;
          points = λ j less.
              get_elem?-set s.intc_bases k j v (omega (arith, p.four))
              ∙ released j less from_first (p.points j less) (Bool-cases (j == k));
        },
      )
]
  where
    released :
        (j : ℕ)
        → j < 4
        → lo 0 ≤ m.irq_no
        → get_elem? s.intc_bases j ≡ some (first_in (lo j) (hi j) (m ∷ ms))
        → (j == aws_controller m.irq_no ≡ true) ⊎ (j == aws_controller m.irq_no ≡ false)
        → (if j == aws_controller m.irq_no
            then some (head_below (hi (aws_controller m.irq_no)) ms)
            else get_elem? s.intc_bases j)
          ≡ some (first_in (lo j) (hi j) ms)
    released j less from got (inl same) =
        let e : j ≡ aws_controller m.irq_no = (==_iff j (aws_controller m.irq_no)).0 same in
        rw (same, ← e)
          (ap some (sym (first_in-behind (lo j) (hi j) (suc m.irq_no) ms a (ground arith))))
    released j less from got (inr other) =
        rw other (got ∙ rw (in_range-controller m.irq_no j from lt less, other) refl)
