-- ===== src/Svm/Intervals.antt =====
-- The intervals of virtual memory that are on a device: insert_vmem_interval and
-- remove_vmem_interval of runtime/kernel/pcie/pcie_svm.c. The interval tree is the kernel's: its calls
-- are an argument, and what is relied on is stated beside them.
pub mod Merge
pub mod Insert
pub mod Remove
mod Tests
use tapasco.Base.{
  ℕ, zero, suc, ◌+◌, ◌-◌, ◌*◌, ◌≤◌, ◌<◌, ◌≡◌, Bool, true, false, not, ◌&&◌, ◌||◌, Option, none,
  some, ltb, ◌==◌, if◌then◌else◌, Ret, ok, err, enomem, add64, ◌%◌, ◌^◌,
}
use tapasco.Svm.Faults.{page_size}

-- `struct interval_tree_node`; a node's bounds stand for it.
pub record Node : Type 0 where
  pub start : ℕ
  pub last : ℕ

abbrev pub same : Node → Node → Bool
same n m = n.start == m.start && n.last == m.last

-- `interval_tree_iter_first`, `interval_tree_iter_next`, `interval_tree_insert` and `interval_tree_remove`, and whether a node
-- is in the tree.
pub record TreeCalls (T : Type 0) : Type 0 where
  pub first : T → ℕ → ℕ → Option Node
  pub next : T → Node → ℕ → ℕ → Option Node
  pub insert : Node → T → T
  pub remove : Node → T → T
  pub has : T → Node → Bool

abbrev pub Overlaps : ℕ → ℕ → Node → Type 0
Overlaps lo hi n = (n.start ≤ hi) × (lo ≤ n.last)

-- A search finds a node that overlaps the bounds, unless none does, and goes on to another one.
pub record IsTree {T : Type 0} (tree : TreeCalls T) : Type 0 where
  pub found :
      (t : T) (lo hi : ℕ) {n : Node}
      → tree.first t lo hi ≡ some n
      → (tree.has t n ≡ true) × Overlaps lo hi n
  pub missed :
      (t : T) (lo hi : ℕ) (n : Node)
      → tree.first t lo hi ≡ none
      → tree.has t n ≡ true
      → ¬ Overlaps lo hi n
  pub followed :
      (t : T) (n : Node) (lo hi : ℕ) {m : Node}
      → tree.next t n lo hi ≡ some m
      → (tree.has t m ≡ true) × (same n m ≡ false) × Overlaps lo hi m
  pub inserted : (t : T) (n m : Node) → tree.has (tree.insert n t) m ≡ (same n m || tree.has t m)
  pub removed :
      (t : T) (n m : Node) → tree.has (tree.remove n t) m ≡ (not (same n m) && tree.has t m)

module _ {T : Type 0} (tree : TreeCalls T) where
  abbrev pub predecessor_of : ℕ → T → Option Node
  predecessor_of vaddr t =
      if vaddr == 0
      then none
      else tree.first t ((vaddr + (2 ^ 64 - page_size)) % 2 ^ 64) (vaddr - 1)

  abbrev pub successor_of : ℕ → T → Option Node
  successor_of end t = tree.first t end end

  abbrev pub without : Option Node → T → T
  without none t = t
  without (some n) t = tree.remove n t

  abbrev pub start_of : ℕ → Option Node → ℕ
  start_of vaddr none = vaddr
  start_of vaddr (some n) = n.start

  abbrev pub last_of : ℕ → Option Node → ℕ
  last_of end none = (end + (2 ^ 64 - 1)) % 2 ^ 64
  last_of end (some n) = n.last

  abbrev pub merged : ℕ → ℕ → Option Node → Option Node → T → T
  merged vaddr end p s t =
      tree.insert (record { start = start_of vaddr p; last = last_of end s })
        (without s (without p t))

  -- `granted`: whether `kmalloc` finds memory for the node.
  pub insert_vmem_interval : Bool → ℕ → ℕ → T → Ret × T
  insert_vmem_interval granted vaddr npages t =
      let end = add64 vaddr (npages * page_size) in
      if granted
      then (ok, merged vaddr end (predecessor_of vaddr t) (successor_of end t) t)
      else (err enomem, t)

  abbrev pub next_start : Node → ℕ → ℕ
  next_start n end = if ltb (add64 n.last 1) end then add64 n.last 1 else end

  abbrev pub right_of : Bool → ℕ → Node → T → T
  right_of granted end n t =
      if ltb end n.last && granted
      then tree.insert (record { start = add64 end 1; last = n.last }) t
      else t

  -- What of a node, which is out of the tree, goes back into it.
  abbrev pub trimmed : Bool → ℕ → ℕ → Node → T → T
  trimmed granted start end n t =
      if not (n.start == start)
      then tree.insert (record { start = n.start; last = (start + (2 ^ 64 - 1)) % 2 ^ 64 })
          (right_of granted end n t)
      else right_of true end n t

  -- The loop, one node a round; `granted` is whether `kmalloc` finds memory, by the start.
  pub remove_from : ℕ → (ℕ → Bool) → ℕ → ℕ → Option Node → T → T
  remove_from zero granted start end o t = t
  remove_from (suc fuel) granted start end none t = t
  remove_from (suc fuel) granted start end (some n) t =
      remove_from fuel granted (next_start n end) end (tree.next t n start end)
        (trimmed (granted start) start end n (tree.remove n t))

  pub remove_vmem_interval : ℕ → (ℕ → Bool) → ℕ → ℕ → T → T
  remove_vmem_interval fuel granted vaddr npages t =
      let end = (vaddr + npages * page_size + (2 ^ 64 - 1)) % 2 ^ 64 in
      remove_from fuel granted vaddr end (tree.first t vaddr end) t
