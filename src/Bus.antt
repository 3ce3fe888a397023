-- ===== src/Bus.antt =====
-- The bus of devices, runtime/kernel/tlkm/tlkm_bus.c. A device is named by its address `ptr`;
-- `kzalloc` of a device is an argument, and so is the outcome of `tlkm_device_init`.
pub mod Lookup
pub mod Enumerate
pub mod Ids
mod Tests
use tapasco.Base.{
  ℕ, zero, suc, ◌+◌, ◌-◌, ◌%◌, ◌^◌, Bool, true, false, List, [], ◌∷◌, ◌++◌, Option, none, some, ltb,
  ◌==◌, if◌then◌else◌, length, get_elem?, Ret, ok, err,
}

-- What `struct tlkm_device` holds for the bus.
pub record Member : Type 0 where
  pub ptr : ℕ
  pub dev_id : ℕ
  pub vendor_id : ℕ
  pub product_id : ℕ

pub record Bus : Type 0 where
  pub devices : List Member
  pub num_devs : ℕ

-- `u32` and `size_t` values.
abbrev pub u32 : ℕ → ℕ
u32 n = n % 2 ^ 32

abbrev pub u64 : ℕ → ℕ
u64 n = n % 2 ^ 64

-- `list_add_tail`, then `pdev->dev_id = num_devs++`.
unfoldable pub tlkm_bus_add_device : Bus → Member → Bus × Member
tlkm_bus_add_device bus dev =
    let dev' = record dev { dev_id = u32 bus.num_devs } in
    (record { devices = bus.devices ++ dev' ∷ []; num_devs = u64 (bus.num_devs + 1) }, dev')

-- `list_del`.
abbrev pub unlink : ℕ → List Member → List Member
unlink p [] = []
unlink p (m ∷ ms) = if m.ptr == p then ms else m ∷ unlink p ms

unfoldable pub tlkm_bus_del_device : Bus → ℕ → Bus
tlkm_bus_del_device bus p = record {
  devices = unlink p bus.devices;
  num_devs = u64 (bus.num_devs + (2 ^ 64 - 1));
}

abbrev pub zeroed : ℕ → ℕ → ℕ → Member
zeroed p vendor product = record { ptr = p; dev_id = 0; vendor_id = vendor; product_id = product }

-- `initialized` is what `tlkm_device_init` returns.
unfoldable pub tlkm_bus_new_device : Option ℕ → Ret → ℕ → ℕ → Bus → Bus × Option Member
unfolding tlkm_bus_add_device tlkm_bus_del_device
tlkm_bus_new_device none initialized vendor product bus = (bus, none)
tlkm_bus_new_device (some p) ok vendor product bus =
    let (bus', dev') = tlkm_bus_add_device bus (zeroed p vendor product) in (bus', some dev')
tlkm_bus_new_device (some p) (err e) vendor product bus =
    let (bus', dev') = tlkm_bus_add_device bus (zeroed p vendor product) in
    (tlkm_bus_del_device bus' p, none)

-- `tlkm_bus_delete_device`; `tlkm_device_exit` changes nothing of the bus.
unfoldable pub tlkm_bus_delete_device : Option ℕ → Bus → Bus
tlkm_bus_delete_device none bus = bus
tlkm_bus_delete_device (some p) bus = tlkm_bus_del_device bus p

unfoldable pub tlkm_bus_num_devices : Bus → ℕ
tlkm_bus_num_devices bus = bus.num_devs

-- A node of the circular list: the head in `_tlkm_bus`, or the node of the device at an index.
pub data Node : Type 0 where
  head : Node
  entry : ℕ → Node

-- `lh->next` in the ring of the head and `n` devices.
abbrev pub next : ℕ → Node → Node
next n head = if n == 0 then head else entry 0
next n (entry i) = if ltb (i + 1) n then entry (i + 1) else head

abbrev pub same_node : Node → Node → Bool
same_node head head = true
same_node (entry i) (entry j) = i == j
same_node _ _ = false

-- `list_empty(lh)`: whether the node is its own successor.
abbrev pub list_empty : ℕ → Node → Bool
list_empty n node = same_node (next n node) node

-- The loop of `tlkm_bus_get_device`.
walk : ℕ → Node → ℕ → Node
walk n node zero = node
walk n node (suc idx) =
    let there = walk n (next n node) idx in if list_empty n node then node else there

-- What `tlkm_bus_get_device` returns: NULL, a device, or `container_of` the list's head, which is
-- no device.
pub data Found : Type 0 where
  null : Found
  device : Member → Found
  not_a_device : Found

abbrev pub contained : List Member → Node → Found
contained ms head = not_a_device
contained ms (entry i) = elim (get_elem? ms i) [ none ↦ not_a_device | some m ↦ device m ]

pub tlkm_bus_get_device : Bus → ℕ → Found
unfolding walk
tlkm_bus_get_device bus idx =
    let n = length bus.devices in
    let lh = walk n (next n head) idx in if list_empty n lh then null else contained bus.devices lh
