-- ===== src/Bus/Ids.antt =====
-- Device numbers in runtime/kernel/tlkm/tlkm_bus.c: a device is looked up by the position that
-- its `dev_id` was when it was added.
use tapasco.Base.{
  ℕ, zero, suc, ◌+◌, ◌^◌, ◌≤◌, ◌<◌, ◌≡◌, refl, List, [], ◌∷◌, ◌++◌, none, some, length, get_elem?,
  arith, Option-cases, inl, inr, ◌∙◌, get_elem?-lt, ap, sym, ◌≢◌, ok, err, Ret, Errno,
  length-append, ==_refl, ==_ne,
}
use native.Mathlib.Nat.{mod-eq_of_lt}
use tapasco.Bus.{
  Member, Bus, u32, zeroed, unlink, device, contained, tlkm_bus_del_device, tlkm_bus_new_device,
  tlkm_bus_delete_device, tlkm_bus_num_devices, tlkm_bus_get_device,
}
use tapasco.Bus.Lookup.{get_device_in_range, get_device_lem, node_at}

-- The numbers count up from `i`.
abbrev pub Numbered : ℕ → List Member → Type 0
Numbered i [] = Unit {0}
Numbered i (m ∷ ms) = (m.dev_id ≡ i) × Numbered (suc i) ms

-- No device of the list lies at `p`.
abbrev pub Fresh : ℕ → List Member → Type 0
Fresh p [] = Unit {0}
Fresh p (m ∷ ms) = (m.ptr ≢ p) × Fresh p ms

pub record IsValid (bus : Bus) : Type 0 where
  pub counted : bus.num_devs ≡ length bus.devices
  pub numbered : Numbered 0 bus.devices

Numbered-append :
    (i : ℕ) (ms : List Member) (m : Member)
    → Numbered i ms
    → m.dev_id ≡ i + length ms
    → Numbered i (ms ++ m ∷ [])
Numbered-append i [] m h e = omega arith
Numbered-append i (d ∷ ms) m (h, hs) e = (h, Numbered-append (suc i) ms m hs (omega arith))

unlink-append :
    (p : ℕ) (ms : List Member) (m : Member) → Fresh p ms → m.ptr ≡ p → unlink p (ms ++ m ∷ []) ≡ ms
unlink-append p [] m f e = ground arith
unlink-append p (d ∷ ms) m (f, fs) e =
    rw (==_ne d.ptr p f) (ap (λ r. d ∷ r) (unlink-append p ms m fs e))

Numbered-lookup :
    (k i : ℕ) (ms : List Member) {m : Member}
    → Numbered k ms
    → get_elem? ms i ≡ some m
    → m.dev_id ≡ k + i
Numbered-lookup k i [] v e = ground arith
Numbered-lookup k zero (d ∷ ms) v e = ground arith
Numbered-lookup k (suc i) (d ∷ ms) (v, vs) e = omega (arith, Numbered-lookup (suc k) i ms vs e)

get_elem?-append :
    (ms : List Member) (m : Member) (k : ℕ) → k ≡ length ms → get_elem? (ms ++ m ∷ []) k ≡ some m
get_elem?-append [] m zero e = refl
get_elem?-append [] m (suc k) e = absurd (omega arith)
get_elem?-append (d ∷ ms) m zero e = absurd (omega arith)
get_elem?-append (d ∷ ms) m (suc k) e = get_elem?-append ms m k (omega arith)

get_elem?-at :
    (ms : List Member) (i j : ℕ) {m : Member}
    → i ≡ j
    → get_elem? ms i ≡ some m
    → get_elem? ms j ≡ some m
get_elem?-at ms i j e h = rw (← e) h

-- A device that cannot be allocated, or that cannot be initialized and lies at no address of the
-- bus, leaves the bus as it was, if the device count is below 2^64.
pub new_device_fails :
    (bus : Bus) (p vendor product : ℕ) (e : Errno) (r : Ret)
    → bus.num_devs < 2 ^ 64
    → Fresh p bus.devices
    → (tlkm_bus_new_device none r vendor product bus ≡ (bus, none))
      × (tlkm_bus_new_device (some p) (err e) vendor product bus ≡ (bus, none))
unfolding tlkm_bus_new_device
new_device_fails bus p vendor product e r room fresh = (
  refl,
  rw
      (unlink-append p bus.devices (record (zeroed p vendor product) { dev_id = u32 bus.num_devs })
        fresh refl)
      (ground arith),
)

-- On a valid bus with room for one more 32-bit number, a device that is allocated and initialized
-- keeps the bus valid, is one more, and is found at its own number.
pub new_device_lem :
    (bus : Bus) (p vendor product : ℕ)
    → IsValid bus
    → length bus.devices + 1 < 2 ^ 32
    → let (bus', made) = tlkm_bus_new_device (some p) ok vendor product bus in
      IsValid bus'
      × (tlkm_bus_num_devices bus' ≡ tlkm_bus_num_devices bus + 1)
      × ((m : Member) × (made ≡ some m)
          × (m.ptr ≡ p)
          × (tlkm_bus_get_device bus' m.dev_id ≡ device m))
unfolding tlkm_bus_new_device tlkm_bus_num_devices
new_device_lem bus p vendor product v room = (
  record {
    counted = rw (length-append bus.devices (m ∷ [])) (omega (arith, v.counted));
    numbered = Numbered-append 0 bus.devices m v.numbered (omega (arith, v.counted));
  },
  omega (arith, v.counted),
  (m, refl, refl, get_device_in_range _ m.dev_id (get_elem?-append bus.devices m m.dev_id at_end)),
)
  where
    m : Member
    m = record (zeroed p vendor product) { dev_id = u32 bus.num_devs }

    at_end : m.dev_id ≡ length bus.devices
    at_end = omega (arith, v.counted)

-- A valid bus finds every device at its own number.
pub lookup_own :
    (bus : Bus) (i : ℕ) {m : Member}
    → IsValid bus
    → get_elem? bus.devices i ≡ some m
    → tlkm_bus_get_device bus m.dev_id ≡ device m
lookup_own bus i {m} v e = get_device_in_range bus m.dev_id (
    get_elem?-at bus.devices i m.dev_id
      (omega (arith, Numbered-lookup 0 i bus.devices v.numbered e)) e)

beyond :
    (rest : List Member) (i k : ℕ) {m : Member}
    → Numbered 1 rest
    → get_elem? rest i ≡ some m
    → k ≡ suc i
    → contained rest (node_at (length rest) k) ≢ device m
beyond rest i k {m} v g e = elim (Option-cases (get_elem? rest k)) [
  | inl missing ↦ ground arith
  | inr (d, there) ↦ ground (arith, Numbered-lookup 1 k rest v there, Numbered-lookup 1 i rest v g)
]

lookup_within :
    (bus : Bus) (ms : List Member) (k : ℕ)
    → bus.devices ≡ ms
    → 0 < k
    → k ≤ length ms
    → tlkm_bus_get_device bus k ≡ contained ms (node_at (length ms) k)
lookup_within bus ms k e h b = rw (← e) (
    get_device_lem bus k (omega (arith, ap length e))
    ∙ ap (λ r. contained bus.devices (node_at (length bus.devices) r))
        (mod-eq_of_lt (omega (arith, ap length e))))

-- After the first device of a valid bus is deleted, no device that is left is found at its own
-- number.
pub lookup_after_delete :
    (bus : Bus) (first : Member) (rest : List Member) (i : ℕ) {m : Member}
    → IsValid bus
    → bus.devices ≡ first ∷ rest
    → get_elem? rest i ≡ some m
    → tlkm_bus_get_device (tlkm_bus_delete_device (some first.ptr) bus) m.dev_id ≢ device m
unfolding tlkm_bus_delete_device tlkm_bus_del_device
lookup_after_delete bus first rest i {m} v e g h =
    beyond rest i m.dev_id numbered g own (
      sym (lookup_within _ rest m.dev_id left (omega (arith, own)) (omega (arith, inside, own)))
      ∙ h)
  where
    numbered : Numbered 1 rest
    numbered = (rw e at v.numbered).1

    inside : i < length rest
    inside = get_elem?-lt rest i g

    own : m.dev_id ≡ suc i
    own = omega (arith, Numbered-lookup 1 i rest numbered g)

    left : unlink first.ptr bus.devices ≡ rest
    left = rw (e, ==_refl first.ptr)
