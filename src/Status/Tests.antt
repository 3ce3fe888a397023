-- ===== src/Status/Tests.antt =====
-- A status core with two components.
use tapasco.Base.{ℕ, zero, suc, ◌≡◌, refl, true, List, [], ◌∷◌, some, ok, arith}
use tapasco.Status.{
  Component, Platform, tlkm_status_init, tlkm_status_get_component_base,
  tlkm_status_get_component_size,
}
use tapasco.Status.Lookup.{find_by, init-lookup, AllDecode}

abbrev repeated : ℕ → Component → List Component
repeated zero c = []
repeated (suc n) c = c ∷ repeated n c

abbrev stale : List Component
stale = repeated 16 (record { name = 65 ∷ []; offset = 7; size = 7 })

abbrev named : List ℕ → ℕ → Platform
named bs n = record { names = bs ∷ []; offset = n; size = 0x1000; decodes = true }

-- DMA0 and INTC0.
abbrev two : List Platform
two = named (68 ∷ 77 ∷ 65 ∷ 48 ∷ []) 0x10000 ∷ named (73 ∷ 78 ∷ 84 ∷ 67 ∷ 48 ∷ []) 0x20000 ∷ []

abbrev two_names : List (List ℕ)
two_names = (68 ∷ 77 ∷ 65 ∷ 48 ∷ []) ∷ (73 ∷ 78 ∷ 84 ∷ 67 ∷ 48 ∷ []) ∷ []

abbrev intc : List ℕ
intc = 73 ∷ 78 ∷ 84 ∷ 67 ∷ 48 ∷ []

init-lookup_example :
    (cs' : List Component) × (tlkm_status_init two true stale ≡ some (ok, cs'))
    × (tlkm_status_get_component_base intc cs' ≡ find_by (λ p. p.offset) intc two two_names)
    × (tlkm_status_get_component_size intc cs' ≡ find_by (λ p. p.size) intc two two_names)
init-lookup_example =
    init-lookup 73 (78 ∷ 84 ∷ 67 ∷ 48 ∷ []) (omega arith) (omega arith) two two_names stale
      ((refl, refl, omega arith, omega arith), ((refl, refl, omega arith, omega arith), tt)) refl
      (omega arith)

abbrev many : ℕ → List Platform
many zero = []
many (suc n) = named (68 ∷ []) n ∷ many n

many-AllDecode : (n : ℕ) → AllDecode (many n)
many-AllDecode zero = tt
many-AllDecode (suc n) = (refl, many-AllDecode n)
