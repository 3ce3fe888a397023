-- ===== src/Bus/Tests.antt =====
-- The bus at concrete devices, and its theorems at inputs that meet their hypotheses.
use tapasco.Base.{ℕ, ◌≡◌, refl, [], ◌∷◌, arith}
use tapasco.Bus.{Member, Bus, device, not_a_device, tlkm_bus_get_device}
use tapasco.Bus.Ids.{IsValid}

abbrev member : ℕ → ℕ → Member
member p i = record { ptr = p; dev_id = i; vendor_id = 0x10EE; product_id = 0x7038 }

abbrev two : Bus
two = record { devices = member 100 0 ∷ member 200 1 ∷ []; num_devs = 2 }

second : tlkm_bus_get_device two 1 ≡ device (member 200 1)
unfolding tlkm_bus_get_device
second = refl

third : tlkm_bus_get_device two 2 ≡ not_a_device
unfolding tlkm_bus_get_device
third = refl

two-IsValid : IsValid two
two-IsValid = omega arith

abbrev eleven : Bus
eleven = record {
  devices =
      member 1 0
      ∷ member 2 1
      ∷ member 3 2
      ∷ member 4 3
      ∷ member 5 4
      ∷ member 6 5
      ∷ member 7 6
      ∷ member 8 7
      ∷ member 9 8
      ∷ member 10 9
      ∷ member 11 10
      ∷ [];
  num_devs = 11;
}
