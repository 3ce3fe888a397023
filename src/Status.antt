-- ===== src/Status.antt =====
-- The components that a bitstream's status core names: runtime/kernel/tlkm/tlkm_status.c. What the
-- decoder of protocol buffers (nanopb) reads is an argument: the entries in order, and how it ends.
mod Lookup
mod Tests
use tapasco.Base.{
  ℕ, zero, suc, ◌+◌, ◌-◌, ◌^◌, Bool, true, false, ◌&&◌, List, [], ◌∷◌, Option, none, some,
  get_elem?, set, ltb, ◌==◌, if◌then◌else◌, length, Ret, ok, err, enospc,
}

abbrev pub component_max : ℕ
component_max = 16

-- The value -1 of an address or a size of 64 bits.
abbrev pub no_value : ℕ
no_value = 2 ^ 64 - 1

pub record Component : Type 0 where
  pub name : List ℕ
  pub offset : ℕ
  pub size : ℕ

abbrev pub zeros : ℕ → List ℕ
zeros zero = []
zeros (suc n) = 0 ∷ zeros n

-- `n` bytes, the first ones from the list and 0 behind it.
abbrev pub padded : ℕ → List ℕ → List ℕ
padded zero bs = []
padded (suc n) [] = 0 ∷ padded n []
padded (suc n) (b ∷ bs) = b ∷ padded n bs

-- At most 31 bytes of the stream, in a field of 32 that was cleared.
abbrev pub read_bytes : ℕ → List ℕ → List ℕ
read_bytes zero bs = []
read_bytes (suc n) [] = []
read_bytes (suc n) (b ∷ bs) = b ∷ read_bytes n bs

unfoldable pub parse_string : List ℕ → List ℕ
parse_string bs = padded 32 (read_bytes 31 bs)

-- What the decoder finds in an entry: the strings of its name fields, each of which calls
-- parse_string, the offset and the size, and whether it decodes to its end.
pub record Platform : Type 0 where
  pub names : List (List ℕ)
  pub offset : ℕ
  pub size : ℕ
  pub decodes : Bool

abbrev pub parse_names : List (List ℕ) → List ℕ → List ℕ
unfolding parse_string
parse_names [] name = name
parse_names (bs ∷ names) name = parse_names names (parse_string bs)

-- `none`: the entry is written behind the array.
unfoldable pub add_component : Platform → ℕ → List Component → Option (List Component)
unfolding parse_names
add_component p cntr cs = elim (get_elem? cs cntr) [
  | none ↦ none
  | some c ↦
      some (
        set cs cntr
          (record { name = parse_names p.names c.name; offset = p.offset; size = p.size }))
]

-- The decoder calls add_component for each entry, until one fails; `rest` tells whether it then
-- reads the message to its end.
unfoldable pub decode_from :
    List Platform → Bool → ℕ → List Component → Option (Bool × List Component)
unfolding add_component
decode_from [] rest cntr cs = some (rest, cs)
decode_from (p ∷ ps) rest cntr cs = elim (add_component p cntr cs) [
  | none ↦ none
  | some cs' ↦ elim p.decodes [
    | false ↦ some (false, cs')
    | true ↦ decode_from ps rest (cntr + 1) cs'
  ]
]

abbrev pub cleared_component : Component → Component
cleared_component c = record c { name = zeros 32; offset = no_value }

abbrev pub clear_components : List Component → List Component
clear_components [] = []
clear_components (c ∷ cs) = cleared_component c ∷ clear_components cs

abbrev pub parsed : Option (Bool × List Component) → Option (Ret × List Component)
parsed none = none
parsed (some (false, cs)) = some (err enospc, cs)
parsed (some (true, cs)) = some (ok, cs)

unfoldable pub tlkm_status_init :
    List Platform → Bool → List Component → Option (Ret × List Component)
unfolding decode_from
tlkm_status_init ps rest cs = parsed (decode_from ps rest 0 (clear_components cs))

-- `strncmp(c, name, n) == 0`, for a text `c` without its end byte.
abbrev pub strncmp_eq : ℕ → List ℕ → List ℕ → Bool
strncmp_eq zero c name = true
strncmp_eq (suc n) c [] = false
strncmp_eq (suc n) [] (b ∷ bs) = b == 0
strncmp_eq (suc n) (a ∷ as') (b ∷ bs) = a == b && strncmp_eq n as' bs

unfoldable pub tlkm_status_get_component_base : List ℕ → List Component → ℕ
tlkm_status_get_component_base c [] = no_value
tlkm_status_get_component_base c (x ∷ xs) =
    if strncmp_eq 32 c x.name then x.offset else tlkm_status_get_component_base c xs

unfoldable pub tlkm_status_get_component_size : List ℕ → List Component → ℕ
tlkm_status_get_component_size c [] = no_value
tlkm_status_get_component_size c (x ∷ xs) =
    if strncmp_eq 32 c x.name then x.size else tlkm_status_get_component_size c xs
