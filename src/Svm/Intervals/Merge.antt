-- ===== src/Svm/Intervals/Merge.antt =====
-- What replaces a region and its neighbours in the tree of intervals (runtime/kernel/pcie/pcie_svm.c).
use tapasco.Base.{
  ℕ, ◌+◌, ◌%◌, ◌^◌, ◌≤◌, ◌<◌, ◌≡◌, refl, ◌∙◌, Bool, true, false, not, ◌&&◌, ◌||◌, Option, none,
  some, ltb, arith, Bool-cases, inl, inr, ◌⊎◌,
}
use tapasco.Svm.Faults.{page_size}
use tapasco.Svm.Intervals.{Node, same, TreeCalls, IsTree, without, start_of, last_of, merged}

module _ {T : Type 0} (tree : TreeCalls T) where
  -- Nodes are whole pages, and between two of them is at least one.
  pub record IsCanonical (t : T) : Type 0 where
    pub paged :
        (n : Node)
        → tree.has t n ≡ true
        → (n.start % page_size ≡ 0) × ((n.last + 1) % page_size ≡ 0) × (n.start ≤ n.last)
    pub apart :
        (n m : Node)
        → tree.has t n ≡ true
        → tree.has t m ≡ true
        → (same n m ≡ true) ⊎ (n.last + 1 < m.start) ⊎ (m.last + 1 < n.start)

  abbrev pub Covers : T → ℕ → Type 0
  Covers t x = (n : Node) × (tree.has t n ≡ true) × (n.start ≤ x) × (x ≤ n.last)

  -- What the search before the region `[vaddr, end)` finds.
  abbrev pub Before : ℕ → ℕ → T → Option Node → Type 0
  Before vaddr end t none =
      (n : Node) → tree.has t n ≡ true → (n.last + 1 < vaddr) ⊎ (end ≤ n.start)
  Before vaddr end t (some p) = (tree.has t p ≡ true) × (p.last + 1 ≡ vaddr)

  abbrev pub Behind : ℕ → ℕ → T → Option Node → Type 0
  Behind vaddr end t none = (n : Node) → tree.has t n ≡ true → (n.last < vaddr) ⊎ (end < n.start)
  Behind vaddr end t (some s) = (tree.has t s ≡ true) × (s.start ≡ end)

  abbrev pub Clear : ℕ → ℕ → T → Type 0
  Clear vaddr end t = (n : Node) → tree.has t n ≡ true → (n.last < vaddr) ⊎ (end ≤ n.start)

  abbrev is : Option Node → Node → Bool
  is none m = false
  is (some n) m = same n m

  has-without :
      (o : Option Node) (t : T) (m : Node)
      → IsTree tree
      → tree.has (without tree o t) m ≡ (not (is o m) && tree.has t m)
  has-without none t m laws = refl
  has-without (some n) t m laws = laws.removed t n m

  has-merged :
      (vaddr end : ℕ) (p s : Option Node) (t : T) (m : Node)
      → IsTree tree
      → tree.has (merged tree vaddr end p s t) m ≡ (
          same (record { start = start_of tree vaddr p; last = last_of tree end s }) m
          || (not (is s m) && (not (is p m) && tree.has t m)))
  has-merged vaddr end p s t m laws =
      rw
        (
          laws.inserted (without tree s (without tree p t))
              (record { start = start_of tree vaddr p; last = last_of tree end s }) m,
          has-without s (without tree p t) m laws,
          has-without p t m laws,
        )
        refl

  -- A node that stays leaves a page to the node that `p`, the region and `s` become.
  stays_apart :
      (t : T) (vaddr end : ℕ) (p s : Option Node) (m : Node)
      → IsCanonical t
      → vaddr < end
      → end < 2 ^ 64
      → Clear vaddr end t
      → Before vaddr end t p
      → Behind vaddr end t s
      → tree.has t m ≡ true
      → is p m ≡ false
      → is s m ≡ false
      → (m.last + 1 < start_of tree vaddr p) ⊎ (last_of tree end s + 1 < m.start)
  stays_apart t vaddr end none none m c pos w clear b a h np ns =
      grind (arith, clear m h, b m h, a m h)
  stays_apart t vaddr end none (some s) m c pos w clear b (hs, a) h np ns =
      grind (arith, clear m h, b m h, c.apart s m hs h)
  stays_apart t vaddr end (some p) none m c pos w clear (hp, b) a h np ns =
      grind (arith, clear m h, a m h, c.apart p m hp h, c.paged m h)
  stays_apart t vaddr end (some p) (some s) m c pos w clear (hp, b) (hs, a) h np ns =
      grind (arith, clear m h, c.apart p m hp h, c.apart s m hs h, c.paged m h)

  merged_bounds :
      (t : T) (vaddr end : ℕ) (p s : Option Node)
      → IsCanonical t
      → vaddr % page_size ≡ 0
      → end % page_size ≡ 0
      → vaddr < end
      → end < 2 ^ 64
      → Before vaddr end t p
      → Behind vaddr end t s
      → (start_of tree vaddr p % page_size ≡ 0)
        × ((last_of tree end s + 1) % page_size ≡ 0)
        × (start_of tree vaddr p ≤ vaddr)
        × (end ≤ last_of tree end s + 1)
  merged_bounds t vaddr end none none c pa ea pos w b a =
      (pa, omega arith, omega arith, omega arith)
  merged_bounds t vaddr end none (some s) c pa ea pos w b (hs, a) =
      let s_paged = c.paged s hs in (pa, s_paged.1, omega arith, omega arith)
  merged_bounds t vaddr end (some p) none c pa ea pos w (hp, b) a =
      let p_paged = c.paged p hp in (p_paged.0, omega arith, omega arith, omega arith)
  merged_bounds t vaddr end (some p) (some s) c pa ea pos w (hp, b) (hs, a) =
      let p_paged = c.paged p hp in
      let s_paged = c.paged s hs in (p_paged.0, s_paged.1, omega arith, omega arith)

  same_bounds : (n m : Node) → same n m ≡ true → (n.start ≡ m.start) × (n.last ≡ m.last)
  same_bounds n m e = ground (arith, e)

  Before-of_same :
      (vaddr end : ℕ) (t : T) (p : Option Node) (n : Node)
      → Before vaddr end t p
      → is p n ≡ true
      → (start_of tree vaddr p ≡ n.start) × (n.last + 1 ≡ vaddr)
  Before-of_same vaddr end t none n b e = absurd (ground (arith, e))
  Before-of_same vaddr end t (some p) n (_, b) e =
      let (es, el) = same_bounds p n e in (es, omega arith)

  Behind-of_same :
      (vaddr end : ℕ) (t : T) (s : Option Node) (n : Node)
      → Behind vaddr end t s
      → is s n ≡ true
      → (last_of tree end s ≡ n.last) × (n.start ≡ end)
  Behind-of_same vaddr end t none n a e = absurd (ground (arith, e))
  Behind-of_same vaddr end t (some s) n (_, a) e =
      let (es, el) = same_bounds s n e in (el, omega arith)

  Before-Covers :
      (vaddr end x : ℕ) (t : T) (p : Option Node)
      → Before vaddr end t p
      → start_of tree vaddr p ≤ x
      → x < vaddr
      → Covers t x
  Before-Covers vaddr end x t none b low high = absurd (omega arith)
  Before-Covers vaddr end x t (some p) (hp, b) low high = (p, hp, low, omega arith)

  Behind-Covers :
      (vaddr end x : ℕ) (t : T) (s : Option Node)
      → Behind vaddr end t s
      → end ≤ x
      → vaddr < end
      → end < 2 ^ 64
      → x ≤ last_of tree end s
      → Covers t x
  Behind-Covers vaddr end x t none a low pos w high = absurd (omega arith)
  Behind-Covers vaddr end x t (some s) (hs, a) low pos w high = (s, hs, omega arith, high)

  module _ (laws : IsTree tree) (t : T) (vaddr end : ℕ) (p s : Option Node) (c : IsCanonical t)
      (pa : vaddr % page_size ≡ 0) (ea : end % page_size ≡ 0) (pos : vaddr < end) (w : end < 2 ^ 64)
      (clear : Clear vaddr end t) (b : Before vaddr end t p) (a : Behind vaddr end t s) where
    abbrev node : Node
    node = record { start = start_of tree vaddr p; last = last_of tree end s }

    -- A node of the result is the new one, or stayed.
    from_merged :
        (m : Node)
        → tree.has (merged tree vaddr end p s t) m ≡ true
        → (same node m ≡ true)
          ⊎ ((tree.has t m ≡ true)
              × ((m.last + 1 < start_of tree vaddr p) ⊎ (last_of tree end s + 1 < m.start)))
    from_merged m h = elim (Bool-cases (same node m)) [
      | inl new ↦ inl new
      | inr other ↦
          let e = has-merged vaddr end p s t m laws in
          let there : tree.has t m ≡ true = ground (arith, e, h) in
          let not_p : is p m ≡ false = ground (arith, e, h) in
          let not_s : is s m ≡ false = ground (arith, e, h) in
          inr (there, stays_apart t vaddr end p s m c pos w clear b a there not_p not_s)
    ]

    new_apart :
        (n m : Node)
        → same node n ≡ true
        → (m.last + 1 < start_of tree vaddr p) ⊎ (last_of tree end s + 1 < m.start)
        → (n.last + 1 < m.start) ⊎ (m.last + 1 < n.start)
    new_apart n m new (inl f) = let (es, el) = same_bounds node n new in inr (omega (arith, es))
    new_apart n m new (inr f) = let (es, el) = same_bounds node n new in inl (omega (arith, el))

    pub merged-IsCanonical : IsCanonical (merged tree vaddr end p s t)
    merged-IsCanonical = record {
      paged = λ n h. elim (from_merged n h) [
        | inl new ↦
            let bounds = merged_bounds t vaddr end p s c pa ea pos w b a in
            let (es, el) = same_bounds node n new in
            (rw (← es) bounds.0, rw (← el) bounds.1, omega (arith, es, el, bounds))
        | inr (old, _) ↦ c.paged n old
      ];
      apart = λ n m h k. elim (from_merged n h) [
        | inl new ↦ elim (from_merged m k) [
          | inl also_new ↦
              let e = same_bounds node n new in
              let e' = same_bounds node m also_new in inl (ground (arith, e, e'))
          | inr (old, far) ↦ inr (new_apart n m new far)
        ]
        | inr (old, far) ↦ elim (from_merged m k) [
          | inl new ↦ inr (elim (new_apart m n new far) [ inl f ↦ inr f | inr f ↦ inl f ])
          | inr (also_old, _) ↦ c.apart n m old also_old
        ]
      ];
    }

    -- The merged node covers what the region and the nodes that it replaces cover.
    node-Covers :
        (x : ℕ) → (node.start ≤ x) × (x ≤ node.last) → Covers t x ⊎ ((vaddr ≤ x) × (x < end))
    node-Covers x h = elim (Bool-cases (ltb x vaddr)) [
      | inl low ↦ inl (Before-Covers vaddr end x t p b h.0 (ground arith))
      | inr up ↦ elim (Bool-cases (ltb x end)) [
        | inl inside ↦ inr (ground arith, ground arith)
        | inr high ↦ inl (Behind-Covers vaddr end x t s a (ground arith) pos w h.1)
      ]
    ]

    pub merged-Covers :
        (x : ℕ) → Covers (merged tree vaddr end p s t) x → Covers t x ⊎ ((vaddr ≤ x) × (x < end))
    merged-Covers x (n, h, low, high) = elim (from_merged n h) [
      | inl new ↦
          let (es, el) = same_bounds node n new in
          node-Covers x (omega (arith, es, low), omega (arith, el, high))
      | inr (old, _) ↦ inl (n, old, low, high)
    ]

    has_node : tree.has (merged tree vaddr end p s t) node ≡ true
    has_node =
        let self : same node node ≡ true = ground arith in
        has-merged vaddr end p s t node laws ∙ rw self refl

    pub merged_region : (x : ℕ) → vaddr ≤ x → x < end → Covers (merged tree vaddr end p s t) x
    merged_region x low high =
        let bounds = merged_bounds t vaddr end p s c pa ea pos w b a in
        (node, has_node, omega (arith, bounds), omega (arith, bounds))

    pub merged_keeps : (x : ℕ) → Covers t x → Covers (merged tree vaddr end p s t) x
    merged_keeps x (n, h, low, high) = elim (Bool-cases (is p n)) [
      | inl before ↦
          let (es, el) = Before-of_same vaddr end t p n b before in
          let bounds = merged_bounds t vaddr end p s c pa ea pos w b a in
          (node, has_node, omega (arith, es, low), omega (arith, el, high, bounds))
      | inr not_p ↦ elim (Bool-cases (is s n)) [
        | inl behind ↦
            let (el, es) = Behind-of_same vaddr end t s n a behind in
            let bounds = merged_bounds t vaddr end p s c pa ea pos w b a in
            (node, has_node, omega (arith, es, low, bounds), omega (arith, el, high))
        | inr not_s ↦
            (n, has-merged vaddr end p s t n laws ∙ ground (arith, not_p, not_s, h), low, high)
      ]
    ]
