-- ===== src/Status/Lookup.antt =====
-- What a lookup finds after the status core was read (runtime/kernel/tlkm/tlkm_status.c).
use tapasco.Base.{
  ℕ, zero, suc, ◌+◌, ◌≤◌, ◌<◌, ◌≡◌, ◌≢◌, refl, ap, Bool, Bool-cases, true, false, ◌&&◌, List, [],
  ◌∷◌, Option, none, some, get_elem?, set, ◌==◌, if◌then◌else◌, length, ok, arith, inl, inr,
  Option-cases, ==_ne,
}
use tapasco.Status.{
  component_max, no_value, Component, Platform, padded, read_bytes, parse_string, parse_names,
  add_component, decode_from, cleared_component, clear_components, tlkm_status_init, strncmp_eq,
  tlkm_status_get_component_base, tlkm_status_get_component_size,
}

-- A name in C: no byte is 0.
abbrev pub IsText : List ℕ → Type 0
IsText [] = Unit {0}
IsText (b ∷ bs) = (b ≢ 0) × IsText bs

abbrev pub same_text : List ℕ → List ℕ → Bool
same_text [] [] = true
same_text [] (b ∷ bs) = false
same_text (a ∷ as') [] = false
same_text (a ∷ as') (b ∷ bs) = a == b && same_text as' bs

-- A text shorter than the field compares equal to the padded bytes exactly if the texts are equal.
strncmp_eq-padded :
    (n : ℕ) (c bs : List ℕ)
    → length c < n
    → IsText c
    → IsText bs
    → strncmp_eq n c (padded n bs) ≡ same_text c bs
strncmp_eq-padded zero c bs lt tc tb = absurd (omega arith)
strncmp_eq-padded (suc n) [] [] lt tc tb = refl
strncmp_eq-padded (suc n) [] (b ∷ bs) lt tc tb = ground arith
strncmp_eq-padded (suc n) (a ∷ as') [] lt tc tb = ground arith
strncmp_eq-padded (suc n) (a ∷ as') (b ∷ bs) lt tc tb =
    rw (strncmp_eq-padded n as' bs (omega arith) tc.1 tb.1) refl

read_bytes-short : (n : ℕ) (bs : List ℕ) → length bs ≤ n → read_bytes n bs ≡ bs
read_bytes-short zero [] le = refl
read_bytes-short zero (b ∷ bs) le = absurd (omega arith)
read_bytes-short (suc n) [] le = refl
read_bytes-short (suc n) (b ∷ bs) le = ap (λ t. b ∷ t) (read_bytes-short n bs (omega arith))

-- An entry with one name, a text that fits, that decodes to its end.
abbrev pub IsNamed : Platform → List ℕ → Type 0
IsNamed p bs = (p.names ≡ bs ∷ []) × (p.decodes ≡ true) × IsText bs × (length bs ≤ 31)

-- The entries of the status core by their names.
abbrev pub AllNamed : List Platform → List (List ℕ) → Type 0
AllNamed [] [] = Unit {0}
AllNamed [] (bs ∷ bss) = ⊥
AllNamed (p ∷ ps) [] = ⊥
AllNamed (p ∷ ps) (bs ∷ bss) = IsNamed p bs × AllNamed ps bss

abbrev filled : Platform → Component → Component
filled p c = record { name = parse_names p.names c.name; offset = p.offset; size = p.size }

abbrev fill : List Platform → List Component → List Component
fill [] cs = cs
fill (p ∷ ps) [] = []
fill (p ∷ ps) (c ∷ cs) = filled p c ∷ fill ps cs

abbrev behind : Component → Option (Bool × List Component) → Option (Bool × List Component)
behind c none = none
behind c (some (b, cs)) = some (b, c ∷ cs)

-- The loop from the second component on is the loop over the rest.
decode_from-suc :
    (ps : List Platform) (rest : Bool) (k : ℕ) (c : Component) (cs : List Component)
    → decode_from ps rest (suc k) (c ∷ cs) ≡ behind c (decode_from ps rest k cs)
unfolding decode_from add_component
decode_from-suc [] rest k c cs = refl
decode_from-suc (p ∷ ps) rest k c cs =
    let e : suc k + 1 ≡ suc (k + 1) = omega arith in
    elim (Option-cases (get_elem? cs k)) [
      | inl outside ↦ rw (decode_from, add_component, outside) refl
      | inr (x, at) ↦ elim (Bool-cases p.decodes) [
        | inl d ↦
            rw (decode_from, add_component, at, d, e)
              (decode_from-suc ps rest (k + 1) c (set cs k (filled p x)))
        | inr f ↦ rw (decode_from, add_component, at, f) refl
      ]
    ]

abbrev pub AllDecode : List Platform → Type 0
AllDecode [] = Unit {0}
AllDecode (p ∷ ps) = (p.decodes ≡ true) × AllDecode ps

decode_from-fill :
    (ps : List Platform) (rest : Bool) (cs : List Component)
    → AllDecode ps
    → length ps ≤ length cs
    → decode_from ps rest 0 cs ≡ some (rest, fill ps cs)
unfolding decode_from add_component
decode_from-fill [] rest cs d le = refl
decode_from-fill (p ∷ ps) rest [] d le = absurd (omega arith)
decode_from-fill (p ∷ ps) rest (c ∷ cs) d le =
    let e : 0 + 1 ≡ suc 0 = omega arith in
    rw
      (
        d.0,
        e,
        decode_from-suc ps rest 0 (filled p c) cs,
        decode_from-fill ps rest cs d.1 (omega arith),
      )
      refl

decode_from-overflow :
    (ps : List Platform) (rest : Bool) (cs : List Component)
    → AllDecode ps
    → length cs < length ps
    → decode_from ps rest 0 cs ≡ none
unfolding decode_from add_component
decode_from-overflow [] rest cs d le = absurd (omega arith)
decode_from-overflow (p ∷ ps) rest [] d le = refl
decode_from-overflow (p ∷ ps) rest (c ∷ cs) d le =
    let e : 0 + 1 ≡ suc 0 = omega arith in
    rw
      (
        d.0,
        e,
        decode_from-suc ps rest 0 (filled p c) cs,
        decode_from-overflow ps rest cs d.1 (omega arith),
      )
      refl

AllNamed-AllDecode : (ps : List Platform) (bss : List (List ℕ)) → AllNamed ps bss → AllDecode ps
AllNamed-AllDecode [] bss n = tt
AllNamed-AllDecode (p ∷ ps) [] n = elim n [ ]
AllNamed-AllDecode (p ∷ ps) (bs ∷ bss) n = (n.0.1, AllNamed-AllDecode ps bss n.1)

length-clear : (cs : List Component) → length (clear_components cs) ≡ length cs
length-clear [] = refl
length-clear (c ∷ cs) = ap suc (length-clear cs)

-- A value of the first entry whose name is the text, or -1.
abbrev pub find_by : (Platform → ℕ) → List ℕ → List Platform → List (List ℕ) → ℕ
find_by value c [] bss = no_value
find_by value c (p ∷ ps) [] = no_value
find_by value c (p ∷ ps) (bs ∷ bss) = if same_text c bs then value p else find_by value c ps bss

module _ (a : ℕ) (as' : List ℕ) (text : IsText (a ∷ as')) (short : length (a ∷ as') ≤ 31) where
  filled_name :
      (p : Platform) (bs : List ℕ) (c : Component)
      → IsNamed p bs
      → strncmp_eq 32 (a ∷ as') (filled p c).name ≡ same_text (a ∷ as') bs
  unfolding parse_names parse_string
  filled_name p bs c n =
      rw (n.0, parse_names, parse_string, read_bytes-short 31 bs n.3)
        (strncmp_eq-padded 32 (a ∷ as') bs (omega arith) text n.2)

  base-clear :
      (cs : List Component)
      → tlkm_status_get_component_base (a ∷ as') (clear_components cs) ≡ no_value
  unfolding tlkm_status_get_component_base
  base-clear [] = refl
  base-clear (c ∷ cs) = rw (==_ne a 0 text.0) (base-clear cs)

  size-clear :
      (cs : List Component)
      → tlkm_status_get_component_size (a ∷ as') (clear_components cs) ≡ no_value
  unfolding tlkm_status_get_component_size
  size-clear [] = refl
  size-clear (c ∷ cs) = rw (==_ne a 0 text.0) (size-clear cs)

  base-fill :
      (ps : List Platform) (bss : List (List ℕ)) (cs : List Component)
      → AllNamed ps bss
      → length ps ≤ length cs
      → tlkm_status_get_component_base (a ∷ as') (fill ps (clear_components cs))
        ≡ find_by (λ p. p.offset) (a ∷ as') ps bss
  unfolding tlkm_status_get_component_base
  base-fill [] bss cs n le = base-clear cs
  base-fill (p ∷ ps) [] cs n le = elim n [ ]
  base-fill (p ∷ ps) (bs ∷ bss) [] n le = absurd (omega arith)
  base-fill (p ∷ ps) (bs ∷ bss) (c ∷ cs) n le =
      rw (filled_name p bs (cleared_component c) n.0, base-fill ps bss cs n.1 (omega arith)) refl

  size-fill :
      (ps : List Platform) (bss : List (List ℕ)) (cs : List Component)
      → AllNamed ps bss
      → length ps ≤ length cs
      → tlkm_status_get_component_size (a ∷ as') (fill ps (clear_components cs))
        ≡ find_by (λ p. p.size) (a ∷ as') ps bss
  unfolding tlkm_status_get_component_size
  size-fill [] bss cs n le = size-clear cs
  size-fill (p ∷ ps) [] cs n le = elim n [ ]
  size-fill (p ∷ ps) (bs ∷ bss) [] n le = absurd (omega arith)
  size-fill (p ∷ ps) (bs ∷ bss) (c ∷ cs) n le =
      rw (filled_name p bs (cleared_component c) n.0, size-fill ps bss cs n.1 (omega arith)) refl

  -- For a status core of at most 16 entries, each with one name, a text of at most 31 bytes, that
  -- decodes to its end, reading it succeeds, and a lookup of a nonempty text of at most 31 bytes
  -- gives the offset and the size of the first entry with that name, or -1 if there is none.
  pub init-lookup :
      (ps : List Platform) (bss : List (List ℕ)) (cs : List Component)
      → AllNamed ps bss
      → length cs ≡ component_max
      → length ps ≤ component_max
      → (cs' : List Component) × (tlkm_status_init ps true cs ≡ some (ok, cs'))
        × (tlkm_status_get_component_base (a ∷ as') cs' ≡ find_by (λ p. p.offset) (a ∷ as') ps bss)
        × (tlkm_status_get_component_size (a ∷ as') cs' ≡ find_by (λ p. p.size) (a ∷ as') ps bss)
  unfolding tlkm_status_init
  init-lookup ps bss cs n e le =
      let fits : length ps ≤ length (clear_components cs) = omega (arith, length-clear cs) in
      (
        fill ps (clear_components cs),
        rw (decode_from-fill ps true (clear_components cs) (AllNamed-AllDecode ps bss n) fits) refl,
        base-fill ps bss cs n (omega arith),
        size-fill ps bss cs n (omega arith),
      )

-- A status core of more than 16 entries, which all decode, is written behind the array of components.
pub init_overflow :
    (ps : List Platform) (rest : Bool) (cs : List Component)
    → AllDecode ps
    → length cs ≡ component_max
    → component_max < length ps
    → tlkm_status_init ps rest cs ≡ none
unfolding tlkm_status_init
init_overflow ps rest cs d e lt =
    rw (decode_from-overflow ps rest (clear_components cs) d (omega (arith, length-clear cs))) refl
