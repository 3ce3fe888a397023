-- ===== src/Bus/Lookup.antt =====
-- `tlkm_bus_get_device` of runtime/kernel/tlkm/tlkm_bus.c for indices in and out of range.
use tapasco.Base.{
  ℕ, zero, suc, ◌+◌, ◌%◌, ◌≤◌, ◌<◌, ◌≡◌, refl, false, List, [], some, ◌==◌, if◌then◌else◌, length,
  get_elem?, arith, ◌∙◌, get_elem?-lt, ap, sym, ◌≢◌,
}
use native.Mathlib.Decide.{ℕ_discrete}
use native.Mathlib.Nat.{mod-eq_of_lt, mod-eq-sub-mod, mod_self}
use tapasco.Bus.{
  Member, Bus, Node, head, entry, next, list_empty, walk, null, device, not_a_device, contained,
  tlkm_bus_get_device,
}

-- In a ring of one node or more, no node is its own successor.
linked : (n : ℕ) (node : Node) → 0 < n → list_empty n node ≡ false
linked n head h = ground arith
linked n (entry i) h = ground arith

-- From the device at `i` the walk goes round the `n` devices and the head.
abbrev pub node_at : ℕ → ℕ → Node
node_at n k = if k == n then head else entry k

next_wraps : (n : ℕ) → 0 < n → next n (node_at n n) ≡ node_at n 0
next_wraps n h = ground arith

next_inside : (n i : ℕ) → i < n → next n (node_at n i) ≡ node_at n (i + 1)
next_inside n i h = ground arith

walk_lem :
    (n i idx : ℕ) → 0 < n → i ≤ n → walk n (node_at n i) idx ≡ node_at n ((i + idx) % (n + 1))
unfolding walk
walk_lem n i zero h b =
    rw (mod-eq_of_lt {n = i + 0} {m = n + 1} (omega arith)) (ap (node_at n) (omega arith))
walk_lem n i (suc idx) h b = elim (ℕ_discrete i n) [
  | yes e ↦
      rw (linked n (node_at n i) h, e, next_wraps n h, walk_lem n 0 idx h (omega arith))
        (ap (node_at n) (
          sym (
            mod-eq-sub-mod {n = n + suc idx} {m = n + 1} (omega arith)
            ∙ ap (λ k. k % (n + 1)) (omega arith))))
  | no e ↦
      rw
        (
          linked n (node_at n i) h,
          next_inside n i (omega arith),
          walk_lem n (i + 1) idx h (omega arith),
        )
        (ap (λ k. node_at n (k % (n + 1))) (omega arith))
]

-- With a device on the bus, the lookup goes round the ring: index k gives what stands at position
-- k modulo the number of devices plus one, where the last residue is the list's head and no
-- device.
pub get_device_lem :
    (bus : Bus) (idx : ℕ)
    → 0 < length bus.devices
    → tlkm_bus_get_device bus idx
      ≡ contained bus.devices (node_at (length bus.devices) (idx % (length bus.devices + 1)))
unfolding tlkm_bus_get_device
get_device_lem bus idx h = rw (linked n (walk n (next n head) idx) h) (
    ap (contained bus.devices) (
      rw start
        (walk_lem n 0 idx h (omega arith) ∙ ap (λ k. node_at n (k % (n + 1))) (omega arith))))
  where
    n : ℕ
    n = length bus.devices

    start : next n head ≡ node_at n 0
    start = ground arith

-- An index in range gives the device at that position.
pub get_device_in_range :
    (bus : Bus) (idx : ℕ) {m : Member}
    → get_elem? bus.devices idx ≡ some m
    → tlkm_bus_get_device bus idx ≡ device m
get_device_in_range bus idx {m} e =
    let inside = get_elem?-lt bus.devices idx e in
    rw
      (
        get_device_lem bus idx (omega arith),
        mod-eq_of_lt {n = idx} {m = length bus.devices + 1} (omega arith),
      )
      (ground arith)

walk_alone : (idx : ℕ) → walk 0 head idx ≡ head
unfolding walk
walk_alone zero = refl
walk_alone (suc idx) = refl

-- An empty bus has no device at any index.
pub get_device_empty : (bus : Bus) (idx : ℕ) → bus.devices ≡ [] → tlkm_bus_get_device bus idx ≡ null
unfolding tlkm_bus_get_device walk
get_device_empty bus idx e = rw (e, walk_alone idx)

contained-ne-null : (ms : List Member) (node : Node) → contained ms node ≢ null
contained-ne-null ms head = λ e. cc
contained-ne-null ms (entry i) = λ e. ground arith

-- With a device on the bus, the lookup at the number of devices gives the list's head taken for a
-- device, the next index gives the first device again, and no index gives NULL.
pub get_device_out_of_range :
    (bus : Bus)
    → 0 < length bus.devices
    → (tlkm_bus_get_device bus (length bus.devices) ≡ not_a_device)
      × (tlkm_bus_get_device bus (length bus.devices + 1) ≡ tlkm_bus_get_device bus 0)
      × ((idx : ℕ) → tlkm_bus_get_device bus idx ≢ null)
get_device_out_of_range bus h = (
  rw (get_device_lem bus n h, mod-eq_of_lt {n = n} {m = n + 1} (omega arith)) (ground arith),
  rw (
    get_device_lem bus (n + 1) h,
    get_device_lem bus 0 h,
    mod_self,
    mod-eq_of_lt {n = 0} {m = n + 1} (omega arith),
  ),
  λ idx e. contained-ne-null bus.devices _ (rw (get_device_lem bus idx h) at e),
)
  where
    n : ℕ
    n = length bus.devices
