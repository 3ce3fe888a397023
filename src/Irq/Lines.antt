-- ===== src/Irq/Lines.antt =====
-- Every controller of an AWS device points at its first registered line
-- (runtime/kernel/pcie/pcie_irq_aws.c), over the list of interrupts of the device's control file.
use tapasco.Base.{
  ℕ, zero, suc, ◌+◌, ◌*◌, ◌≤◌, ◌<◌, ◌≡◌, ◌⊎◌, refl, sym, ap, ◌∙◌, Bool, Bool-cases, Option-cases,
  true, false, ◌&&◌, inl, inr, List, [], ◌∷◌, Option, none, some, ltb, leb, ◌==◌, if◌then◌else◌,
  ==_iff, get_elem?, set, length, length-set, Ret, arith,
}
use tapasco.Control.{Mapping, taken, enter}
use tapasco.Control.Interrupts.{Ascending, next}
use tapasco.Irq.{
  line_0, num_direct_irqs, irqs_per_controller, Controllers, request_at, Irqs, aws_controller,
  pcie_irqs_request_platform_irq, pcie_aws_irqs_request_platform_irq,
}
use tapasco.Irq.First.{first_in, first_in-le, first_in_range}

abbrev pub in_range : ℕ → ℕ → ℕ → Bool
in_range lo hi n = leb lo n && ltb n hi

abbrev earlier : ℕ → Option ℕ → Option ℕ
earlier n none = some n
earlier n (some f) = if ltb n f then some n else some f

first_in-enter :
    (lo hi k : ℕ) (m : Mapping) (ms : List Mapping)
    → Ascending k ms
    → taken m.irq_no ms ≡ false
    → first_in lo hi (enter m ms) ≡ (
        if in_range lo hi m.irq_no then earlier m.irq_no (first_in lo hi ms) else first_in lo hi ms)
first_in-enter lo hi k m [] a t = refl
first_in-enter lo hi k m (e ∷ es) (next _ _ _ le a) t = elim (Option-cases (first_in lo hi es)) [
  | inl no_line ↦ ground (arith, no_line, first_in-enter lo hi (suc e.irq_no) m es a)
  | inr (f, found) ↦ ground (
    arith,
    found,
    first_in-enter lo hi (suc e.irq_no) m es a,
    first_in-le lo hi (suc e.irq_no) f es a found,
  )
]

-- Where the first entry lies in the range, the first line behind it is the next entry's, or there is
-- none.
abbrev pub head_below : ℕ → List Mapping → Option ℕ
head_below hi [] = none
head_below hi (m ∷ ms) = if ltb m.irq_no hi then some m.irq_no else none

pub first_in-behind :
    (lo hi k : ℕ) (ms : List Mapping)
    → Ascending k ms
    → lo ≤ k
    → first_in lo hi ms ≡ head_below hi ms
first_in-behind lo hi k [] a le = refl
first_in-behind lo hi k (m ∷ ms) (next _ _ _ l a) le = elim (Bool-cases (ltb m.irq_no hi)) [
  | inl lt ↦ ground (arith, lt)
  | inr ge ↦ elim (Option-cases (first_in lo hi ms)) [
    | inl no_line ↦ ground (arith, ge, no_line)
    | inr (f, found) ↦ absurd (
        ground (
          arith,
          ge,
          first_in-le lo hi (suc m.irq_no) f ms a found,
          first_in_range lo hi f ms found,
        ))
  ]
]

pub get_elem?-set :
    (cs : Controllers) (k j : ℕ) (v : Option ℕ)
    → k < length cs
    → get_elem? (set cs k v) j ≡ (if j == k then some v else get_elem? cs j)
get_elem?-set [] k j v lt = absurd (omega arith)
get_elem?-set (c ∷ cs) zero zero v lt = refl
get_elem?-set (c ∷ cs) zero (suc j) v lt = ground arith
get_elem?-set (c ∷ cs) (suc k) zero v lt = ground arith
get_elem?-set (c ∷ cs) (suc k) (suc j) v lt = ground (arith, get_elem?-set cs k j v)

-- The first line of a controller.
abbrev pub lo : ℕ → ℕ
lo k = line_0 + num_direct_irqs + irqs_per_controller * k

abbrev pub hi : ℕ → ℕ
hi k = lo k + 32

-- Every controller points at its first registered line.
pub record IsPointed (ms : List Mapping) (cs : Controllers) : Type 0 where
  pub four : length cs ≡ 4
  pub points : (k : ℕ) → k < 4 → get_elem? cs k ≡ some (first_in (lo k) (hi k) ms)

module _ (cs : Controllers) (k n : ℕ) (c : Option ℕ) (four : length cs ≡ 4) (lt : k < 4)
    (at : get_elem? cs k ≡ some c) where
  request_at_lem :
      (cs' : Controllers) × (request_at k n cs ≡ some cs')
      × (length cs' ≡ 4)
      × ((j : ℕ) → get_elem? cs' j ≡ (if j == k then some (earlier n c) else get_elem? cs j))
  request_at_lem = elim (Option-cases c) [
    | inl empty ↦ (
      set cs k (some n),
      rw (request_at, at, empty) refl,
      length-set cs k (some n) ∙ four,
      λ j. rw empty (get_elem?-set cs k j (some n) (omega arith)),
    )
    | inr (f, first) ↦ elim (Bool-cases (ltb n f)) [
      | inl below ↦ (
        set cs k (some n),
        rw (request_at, at, first, below) refl,
        length-set cs k (some n) ∙ four,
        λ j. rw (first, below) (get_elem?-set cs k j (some n) (omega arith)),
      )
      | inr above ↦
          (cs, rw (request_at, at, first, above) refl, four, λ j. ground (arith, first, above, at))
    ]
  ]

pub in_range-controller :
    (n j : ℕ) → lo 0 ≤ n → n < lo 4 → j < 4 → in_range (lo j) (hi j) n ≡ (j == aws_controller n)
in_range-controller n j le lt small = ground arith

pub in_range-direct : (n j : ℕ) → n < lo 0 → in_range (lo j) (hi j) n ≡ false
in_range-direct n j lt = ground arith

-- A line that is requested and then entered into the list.
pub request-IsPointed :
    (qdma : Bool) (granted : Ret) (m : Mapping) (ms : List Mapping) (s : Irqs)
    → m.irq_no < lo 4
    → Ascending 0 ms
    → taken m.irq_no ms ≡ false
    → IsPointed ms s.intc_bases
    → (s' : Irqs) × (pcie_aws_irqs_request_platform_irq qdma granted m.irq_no s ≡ some s')
      × IsPointed (enter m ms) s'.intc_bases
unfolding pcie_aws_irqs_request_platform_irq
request-IsPointed qdma granted m ms s lt a t p = elim (Bool-cases (ltb m.irq_no (lo 0))) [
  | inl direct ↦ (
    (record s { direct = (pcie_irqs_request_platform_irq qdma granted m.irq_no s.direct).1 }),
    rw direct refl,
    record {
      four = p.four;
      points = λ k small.
          p.points k small
          ∙ ap some (
              sym (
                ground
                  (arith, first_in-enter (lo k) (hi k) 0 m ms a t, in_range-direct m.irq_no k)));
    },
  )
  | inr above ↦
      let k : ℕ = aws_controller m.irq_no in
      let from_first : lo 0 ≤ m.irq_no = ground (arith, above) in
      let small : k < 4 = omega arith in
      let (cs', requested, four, got) =
        request_at_lem s.intc_bases k m.irq_no _ p.four small (p.points k small) in
      (
        record s { intc_bases = cs' },
        rw (above, requested) refl,
        record {
          four = four;
          points =
              λ j less. got j ∙ entered j less from_first (p.points j less) (Bool-cases (j == k));
        },
      )
]
  where
    entered :
        (j : ℕ)
        → j < 4
        → lo 0 ≤ m.irq_no
        → get_elem? s.intc_bases j ≡ some (first_in (lo j) (hi j) ms)
        → (j == aws_controller m.irq_no ≡ true) ⊎ (j == aws_controller m.irq_no ≡ false)
        → (if j == aws_controller m.irq_no
            then some (
                earlier m.irq_no
                  (first_in (lo (aws_controller m.irq_no)) (hi (aws_controller m.irq_no)) ms))
            else get_elem? s.intc_bases j)
          ≡ some (first_in (lo j) (hi j) (enter m ms))
    entered j less from got (inl same) =
        let e : j ≡ aws_controller m.irq_no = (==_iff j (aws_controller m.irq_no)).0 same in
        rw
          (
            same,
            ← e,
            first_in-enter (lo j) (hi j) 0 m ms a t,
            in_range-controller m.irq_no j from lt less,
            same,
          )
          refl
    entered j less from got (inr other) =
        rw
          (
            other,
            first_in-enter (lo j) (hi j) 0 m ms a t,
            in_range-controller m.irq_no j from lt less,
            other,
          )
          got
