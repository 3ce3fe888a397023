-- ===== src/Svm/Intervals/Remove.antt =====
-- What a removal inside one interval does to the set of addresses on the device
-- (runtime/kernel/pcie/pcie_svm.c).
use tapasco.Base.{
  ℕ, zero, suc, ◌+◌, ◌-◌, ◌*◌, ◌%◌, ◌^◌, ◌≤◌, ◌<◌, ◌≡◌, refl, ap, ◌∙◌, Bool, true, false, not, ◌&&◌,
  ◌||◌, Option, none, some, ltb, ◌==◌, add64, ◌↔◌, arith, Bool-cases, inl, inr, ◌⊎◌,
}
use tapasco.Svm.Faults.{page_size}
use tapasco.Svm.Intervals.{
  Node, same, TreeCalls, IsTree, Overlaps, right_of, trimmed, remove_from, remove_vmem_interval,
}
use tapasco.Svm.Intervals.Merge.{Covers}

same_node : (a b : Node) → same a b ≡ true → b ≡ a
same_node a b e =
    let s : b.start ≡ a.start = ground (arith, e) in
    let l : b.last ≡ a.last = ground (arith, e) in
    ap (λ k. record { start = k; last = b.last }) s
    ∙ ap (λ k. record { start = a.start; last = k }) l

module _ {T : Type 0} (tree : TreeCalls T) (laws : IsTree tree) (t : T) (vaddr end : ℕ) (n : Node)
    (w : end < 2 ^ 64 - 1) (first_in : n.start ≤ vaddr) (last_in : vaddr ≤ n.last)
    (order : vaddr ≤ end) (here : tree.has t n ≡ true)
    (only : (m : Node) → tree.has t m ≡ true → Overlaps vaddr end m → same n m ≡ true) where
  abbrev left : Node
  left = record { start = n.start; last = (vaddr + (2 ^ 64 - 1)) % 2 ^ 64 }

  abbrev right : Node
  right = record { start = add64 end 1; last = n.last }

  abbrev rest : T
  rest = trimmed tree true vaddr end n (tree.remove n t)

  has-right :
      (u : T) (m : Node)
      → tree.has (right_of tree true end n u) m ≡ ((ltb end n.last && same right m) || tree.has u m)
  has-right u m = elim (Bool-cases (ltb end n.last)) [
    | inl more ↦ rw more (laws.inserted u right m)
    | inr all ↦ rw all refl
  ]

  -- The parts of the node on either side of the region, and the nodes that stay.
  has-rest :
      (m : Node)
      → tree.has rest m ≡ (
          (not (n.start == vaddr) && same left m)
          || ((ltb end n.last && same right m) || (not (same n m) && tree.has t m)))
  has-rest m = elim (Bool-cases (n.start == vaddr)) [
    | inl at ↦ rw at (has-right (tree.remove n t) m ∙ rw (laws.removed t n m) refl)
    | inr before ↦ rw before (
        laws.inserted (right_of tree true end n (tree.remove n t)) left m
        ∙ rw (has-right (tree.remove n t) m, laws.removed t n m) refl)
  ]

  from_rest : (x : ℕ) → Covers tree rest x → Covers tree t x × ((x < vaddr) ⊎ (end < x))
  from_rest x (m, h, low, high) = elim (Bool-cases (not (n.start == vaddr) && same left m)) [
    | inl is_left ↦ (
      (n, here, ground (arith, is_left, low), ground (arith, is_left, high)),
      inl (ground (arith, is_left, high)),
    )
    | inr not_left ↦ elim (Bool-cases (ltb end n.last && same right m)) [
      | inl is_right ↦ (
        (n, here, ground (arith, is_right, low), ground (arith, is_right, high)),
        inr (ground (arith, is_right, low)),
      )
      | inr not_right ↦
          let there : tree.has t m ≡ true = ground (arith, has-rest m, h) in
          let other : same n m ≡ false = ground (arith, has-rest m, h) in
          (
            (m, there, low, high),
            elim (Bool-cases (ltb x vaddr)) [
              | inl below ↦ inl (ground arith)
              | inr up ↦ elim (Bool-cases (ltb end x)) [
                | inl above ↦ inr (ground arith)
                | inr inside ↦
                    absurd (ground (arith, other, only m there (ground arith, ground arith)))
              ]
            ],
          )
    ]
  ]

  to_rest : (x : ℕ) → Covers tree t x → (x < vaddr) ⊎ (end < x) → Covers tree rest x
  to_rest x (m, h, low, high) out = elim (Bool-cases (same n m)) [
    | inr other ↦ (m, has-rest m ∙ ground (arith, other, h), low, high)
    | inl this ↦ elim out [
      | inl below ↦
          let self : same left left ≡ true = ground arith in
          let starts : (n.start == vaddr) ≡ false = ground (arith, this, low) in
          (left, has-rest left ∙ rw (starts, self) refl, ground (arith, this), omega arith)
      | inr above ↦
          let self : same right right ≡ true = ground arith in
          let more : ltb end n.last ≡ true = ground (arith, this, high) in
          (right, has-rest right ∙ ground (arith, self, more), omega arith, ground (arith, this))
    ]
  ]

  first_lem :
      (o : Option Node) → tree.first t vaddr end ≡ o → (m : Node) × (o ≡ some m) × (same n m ≡ true)
  first_lem none e = absurd (laws.missed t vaddr end n e here (omega arith, last_in))
  first_lem (some m) e =
      let (there, over) = laws.found t vaddr end e in (m, refl, only m there over)

  next_lem : (o : Option Node) → tree.next t n vaddr end ≡ o → o ≡ none
  next_lem none e = refl
  next_lem (some m) e =
      let (there, other, over) = laws.followed t n vaddr end e in
      absurd (ground (arith, other, only m there over))

  remove_none :
      (fuel : ℕ) (granted : ℕ → Bool) (start : ℕ) (u : T)
      → remove_from tree fuel granted start end none u ≡ u
  unfolding remove_from
  remove_none zero granted start u = refl
  remove_none (suc fuel) granted start u = refl

  pub remove_from_lem :
      (fuel : ℕ)
      → remove_from tree (suc fuel) (λ k. true) vaddr end (tree.first t vaddr end) t ≡ rest
  unfolding remove_from
  remove_from_lem fuel =
      let (m, e, eq) = first_lem (tree.first t vaddr end) refl in
      let this : m ≡ n = same_node n m eq in
      rw (e, this, next_lem (tree.next t n vaddr end) refl) (remove_none fuel (λ k. true) _ rest)

-- With a tree that keeps the stated laws, memory for a node and fuel for a round, removing a
-- nonempty region of pages below 2^64 that begins in an interval, where no other interval meets
-- the region, leaves exactly the addresses covered that were and lie outside the region.
pub remove-Covers :
    {T : Type 0} (tree : TreeCalls T) (t : T) (fuel vaddr npages : ℕ) (n : Node)
    → IsTree tree
    → 0 < npages
    → vaddr + npages * page_size < 2 ^ 64
    → tree.has t n ≡ true
    → n.start ≤ vaddr
    → vaddr ≤ n.last
    → ((m : Node)
        → tree.has t m ≡ true
        → Overlaps vaddr (vaddr + npages * page_size - 1) m
        → same n m ≡ true)
    → (x : ℕ)
    → Covers tree (remove_vmem_interval tree (suc fuel) (λ k. true) vaddr npages t) x
      ↔ (Covers tree t x × ((x < vaddr) ⊎ (vaddr + npages * page_size ≤ x)))
unfolding remove_vmem_interval
remove-Covers tree t fuel vaddr npages n laws pos w here first_in last_in only x =
    let end = vaddr + npages * page_size - 1 in
    let fits : (vaddr + npages * page_size + (2 ^ 64 - 1)) % 2 ^ 64 ≡ end = omega arith in
    let last : end < 2 ^ 64 - 1 = omega arith in
    let order : vaddr ≤ end = omega arith in
    let removed =
      remove_from_lem tree laws t vaddr end n last first_in last_in order here only fuel in
    rw (fits, removed)
      (
        (λ c.
            let (old, out) =
              from_rest tree laws t vaddr end n last first_in last_in order here only x c in
            (old, elim out [ inl below ↦ inl below | inr above ↦ inr (omega arith) ])),
        λ h.
            to_rest tree laws t vaddr end n last first_in last_in order here only x h.0
              (elim h.1 [ inl below ↦ inl below | inr above ↦ inr (omega arith) ]),
      )
