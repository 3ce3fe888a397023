-- ===== src/Svm/Intervals/Tests.antt =====
-- The insertion and the removal of runtime/kernel/pcie/pcie_svm.c over a tree that is a list of its nodes.
use tapasco.Base.{
  ℕ, ◌<◌, ◌≤◌, ◌+◌, ◌*◌, ◌≡◌, ◌⊎◌, ◌↔◌, refl, Bool, true, false, not, ◌&&◌, ◌||◌, List, [], ◌∷◌,
  Option, none, some, leb, if◌then◌else◌, ok, arith, Bool-cases, inl, inr,
}
use tapasco.Svm.Intervals.{
  Node, same, TreeCalls, IsTree, Overlaps, insert_vmem_interval, remove_vmem_interval,
}
use tapasco.Svm.Intervals.Merge.{IsCanonical, Covers}
use tapasco.Svm.Intervals.Remove.{remove-Covers}
use tapasco.Svm.Intervals.Insert.{InRegion, insert-Covers}

abbrev first : List Node → ℕ → ℕ → Option Node
first [] lo hi = none
first (n ∷ ns) lo hi =
    let later = first ns lo hi in if leb n.start hi && leb lo n.last then some n else later

abbrev remove : Node → List Node → List Node
remove n [] = []
remove n (m ∷ ns) = let later = remove n ns in if same n m then later else m ∷ later

abbrev has : List Node → Node → Bool
has [] m = false
has (n ∷ ns) m = same n m || has ns m

abbrev nodes : TreeCalls (List Node)
nodes = record {
  first = first;
  next = λ ns n lo hi. first (remove n ns) lo hi;
  insert = λ n ns. n ∷ ns;
  remove = remove;
  has = has;
}

same_refl : (n : Node) → same n n ≡ true
same_refl n = ground arith

first_found :
    (ns : List Node) (lo hi : ℕ) {n : Node}
    → first ns lo hi ≡ some n
    → (has ns n ≡ true) × Overlaps lo hi n
first_found [] lo hi e = ground arith
first_found (m ∷ ns) lo hi {n} e = elim (Bool-cases (leb m.start hi && leb lo m.last)) [
  | inl here ↦
      let this : n ≡ m = ground (arith, rw here at e) in
      rw this (rw (same_refl m) refl, ground arith)
  | inr later ↦
      let (there, over) = first_found ns lo hi (rw later at e) in (ground (arith, there), over)
]

first_missed :
    (ns : List Node) (lo hi : ℕ) (n : Node)
    → first ns lo hi ≡ none
    → has ns n ≡ true
    → ¬ Overlaps lo hi n
first_missed [] lo hi n e h o = ground arith
first_missed (m ∷ ns) lo hi n e h o = ground (arith, first_missed ns lo hi n)

has-remove : (ns : List Node) (n m : Node) → has (remove n ns) m ≡ (not (same n m) && has ns m)
has-remove [] n m = ground arith
has-remove (k ∷ ns) n m = ground (arith, has-remove ns n m)

nodes-IsTree : IsTree nodes
nodes-IsTree = record {
  found = λ t lo hi e. first_found t lo hi e;
  missed = λ t lo hi n e h. first_missed t lo hi n e h;
  followed = λ t n lo hi {m} e.
      let (there, over) = first_found (remove n t) lo hi e in
      (ground (arith, there, has-remove t n m), ground (arith, there, has-remove t n m), over);
  inserted = λ t n m. refl;
  removed = λ t n m. has-remove t n m;
}

-- The page before the region, and one further up.
abbrev two : List Node
two = record { start = 4096; last = 8191 } ∷ record { start = 40960; last = 45055 } ∷ []

two-IsCanonical : IsCanonical nodes two
two-IsCanonical = record { paged = λ n h. ground arith; apart = λ n m h k. ground arith }

insert-Covers_example :
    let (r, t) = insert_vmem_interval nodes true 8192 2 two in
    (r ≡ ok)
    × IsCanonical nodes t
    × ((x : ℕ) → Covers nodes t x ↔ (Covers nodes two x ⊎ InRegion 8192 2 x))
insert-Covers_example =
    insert-Covers nodes two 8192 2 nodes-IsTree two-IsCanonical refl (omega arith) (omega arith)
      (λ n h. ground arith)

-- A page in the middle of an interval of three.
abbrev three_pages : List Node
three_pages = record { start = 4096; last = 16383 } ∷ record { start = 40960; last = 45055 } ∷ []

remove-Covers_example :
    Covers nodes (remove_vmem_interval nodes 1 (λ k. true) 8192 1 three_pages) 8200
    ↔ (Covers nodes three_pages 8200 × ((8200 < 8192) ⊎ (8192 + 1 * 4096 ≤ 8200)))
remove-Covers_example =
    remove-Covers nodes three_pages 0 8192 1 (record { start = 4096; last = 16383 }) nodes-IsTree
      (omega arith) (omega arith) refl (omega arith) (omega arith) (λ m h o. ground (arith, h, o))
      8200
