-- ===== src/Svm/Intervals/Insert.antt =====
-- What an insertion does to the set of addresses on the device (runtime/kernel/pcie/pcie_svm.c).
use tapasco.Base.{
  ℕ, ◌+◌, ◌-◌, ◌*◌, ◌%◌, ◌^◌, ◌≤◌, ◌<◌, ◌≡◌, refl, true, Option, none, some, ltb, ◌==◌, ok, add64,
  ◌↔◌, arith, Bool-cases, inl, inr, ◌⊎◌,
}
use tapasco.Svm.Faults.{page_size}
use tapasco.Svm.Intervals.{
  Node, TreeCalls, IsTree, predecessor_of, successor_of, insert_vmem_interval,
}
use tapasco.Svm.Intervals.Merge.{
  IsCanonical, Covers, Before, Behind, Clear, merged-IsCanonical, merged-Covers, merged_region,
  merged_keeps,
}

module _ {T : Type 0} (tree : TreeCalls T) where
  page_before :
      (vaddr : ℕ)
      → vaddr % page_size ≡ 0
      → 0 < vaddr
      → vaddr < 2 ^ 64
      → (page_size ≤ vaddr) × ((vaddr + (2 ^ 64 - page_size)) % 2 ^ 64 ≡ vaddr - page_size)
  page_before vaddr pa up w = (omega arith, omega arith)

  module _ (laws : IsTree tree) (t : T) (vaddr end : ℕ) (c : IsCanonical tree t)
      (pa : vaddr % page_size ≡ 0) (ea : end % page_size ≡ 0) (pos : vaddr < end) (w : end < 2 ^ 64)
      (clear : Clear tree vaddr end t) where
    found-Before :
        (o : Option Node)
        → 0 < vaddr
        → tree.first t ((vaddr + (2 ^ 64 - page_size)) % 2 ^ 64) (vaddr - 1) ≡ o
        → Before tree vaddr end t o
    found-Before none up e = λ n h.
        let apart = laws.missed t ((vaddr + (2 ^ 64 - page_size)) % 2 ^ 64) (vaddr - 1) n e h in
        let paged = c.paged n h in
        elim (clear n h) [
          | inr behind ↦ inr behind
          | inl before ↦ elim (Bool-cases (ltb (n.last + 1) vaddr)) [
            | inl far ↦ inl (ground arith)
            | inr near ↦
                let reached : vaddr ≤ n.last + 1 = ground arith in
                absurd (
                  apart (
                    omega (arith, paged),
                    omega (arith, page_before vaddr pa up (omega arith), reached),
                  ))
          ]
        ]
    found-Before (some p) up e =
        let (h, over) = laws.found t ((vaddr + (2 ^ 64 - page_size)) % 2 ^ 64) (vaddr - 1) e in
        let paged = c.paged p h in
        (
          h,
          elim (clear p h) [
            | inl before ↦ omega (arith, paged, over, pa, page_before vaddr pa up (omega arith))
            | inr behind ↦ absurd (omega (arith, over))
          ],
        )

    predecessor-Before : Before tree vaddr end t (predecessor_of tree vaddr t)
    predecessor-Before = elim (Bool-cases (vaddr == 0)) [
      | inl lowest ↦
          rw lowest (λ n h. elim (clear n h) [
            | inl below ↦ absurd (ground arith)
            | inr behind ↦ inr behind
          ])
      | inr up ↦ rw up (found-Before _ (ground arith) refl)
    ]

    successor-Behind : (o : Option Node) → tree.first t end end ≡ o → Behind tree vaddr end t o
    successor-Behind none e = λ n h.
        let apart = laws.missed t end end n e h in
        let paged = c.paged n h in
        elim (clear n h) [
          | inl before ↦ inl before
          | inr behind ↦ elim (Bool-cases (n.start == end)) [
            | inl at ↦ absurd (apart (ground arith, ground (arith, paged)))
            | inr far ↦ inr (ground arith)
          ]
        ]
    successor-Behind (some s) e =
        let (h, over) = laws.found t end end e in
        (
          h,
          elim (clear s h) [
            | inl before ↦ absurd (omega (arith, over))
            | inr behind ↦ omega (arith, over)
          ],
        )

-- The addresses of a region of `npages` pages, in order.
abbrev pub InRegion : ℕ → ℕ → ℕ → Type 0
InRegion vaddr npages x = (vaddr ≤ x) × (x < vaddr + npages * page_size)

-- With a tree that keeps the stated laws and memory for the node, inserting a nonempty region of
-- whole pages below 2^64 that meets no interval of a canonical tree (whole pages, at least one
-- between any two) succeeds, keeps the tree canonical, and makes exactly the addresses of the
-- region covered beside those that were.
pub insert-Covers :
    {T : Type 0} (tree : TreeCalls T) (t : T) (vaddr npages : ℕ)
    → IsTree tree
    → IsCanonical tree t
    → vaddr % page_size ≡ 0
    → 0 < npages
    → vaddr + npages * page_size < 2 ^ 64
    → Clear tree vaddr (vaddr + npages * page_size) t
    → let (r, t') = insert_vmem_interval tree true vaddr npages t in
      (r ≡ ok)
      × IsCanonical tree t'
      × ((x : ℕ) → Covers tree t' x ↔ (Covers tree t x ⊎ InRegion vaddr npages x))
unfolding insert_vmem_interval
insert-Covers tree t vaddr npages laws c pa pos w clear =
    let end = vaddr + npages * page_size in
    let fits : add64 vaddr (npages * page_size) ≡ end = omega arith in
    let ea : end % page_size ≡ 0 = omega arith in
    let up : vaddr < end = omega arith in
    let p = predecessor_of tree vaddr t in
    let s = successor_of tree end t in
    let b = predecessor-Before tree laws t vaddr end c pa ea up w clear in
    let a = successor-Behind tree laws t vaddr end c pa ea up w clear s refl in
    rw fits (
      refl,
      merged-IsCanonical tree laws t vaddr end p s c pa ea up w clear b a,
      λ x. (
        merged-Covers tree laws t vaddr end p s c pa ea up w clear b a x,
        λ h. elim h [
          | inl old ↦ merged_keeps tree laws t vaddr end p s c pa ea up w clear b a x old
          | inr (low, high) ↦
              merged_region tree laws t vaddr end p s c pa ea up w clear b a x low high
        ],
      ),
    )
