-- ===== src/Platform/Mapping/Places.antt =====
-- Which pages of a PCIe device's file can be mapped (runtime/kernel/device/tlkm_device_mmap.c).
use tapasco.Base.{
  ℕ, zero, suc, ◌+◌, ◌-◌, ◌*◌, ◌%◌, ◌^◌, ◌<◌, ◌≡◌, refl, ap, ◌∙◌, Bool, true, false, ◌||◌, List, [],
  ◌∷◌, Option, none, some, leb, ◌==◌, length, get_elem?, arith,
}
use tapasco.Platform.Mapping.{
  Ranges, virt_to_phys, buffer_requested, addr2map_off, map_at, tlkm_device_mmap,
}

abbrev pub is_outside : {A : Type 0} → Option A → Bool
is_outside none = true
is_outside (some x) = false

map_at-is_outside :
    (sim remaps : Bool) (off sz : ℕ) (o : Option ℕ)
    → is_outside (map_at sim remaps off sz o) ≡ is_outside o
map_at-is_outside sim remaps off sz none = refl
map_at-is_outside true remaps off sz (some kptr) = refl
map_at-is_outside false remaps off sz (some kptr) = refl

get_elem?-is_outside :
    (bs : List (Option ℕ)) (i : ℕ)
    → is_outside
        (elim (get_elem? bs i) as (λ _. Option ℕ) [ none ↦ none | some b ↦ some (virt_to_phys b) ])
      ≡ leb (length bs) i
get_elem?-is_outside [] i = ground arith
get_elem?-is_outside (b ∷ bs) zero = ground arith
get_elem?-is_outside (b ∷ bs) (suc i) = get_elem?-is_outside bs i ∙ ground arith

addr2map_off-is_outside :
    (d : Ranges) (bs : List (Option ℕ)) (p : ℕ)
    → d.dma_buffer ≡ some bs
    → length bs < 2 ^ 32
    → p < 2 ^ 52
    → is_outside (addr2map_off d (p * 2 ^ 12)) ≡ (p == 3 || leb (4 + length bs) p)
unfolding addr2map_off
addr2map_off-is_outside d bs zero e few lt = ground arith
addr2map_off-is_outside d bs (suc zero) e few lt = ground arith
addr2map_off-is_outside d bs (suc (suc zero)) e few lt = ground arith
addr2map_off-is_outside d bs (suc (suc (suc zero))) e few lt =
    rw e (get_elem?-is_outside bs (2 ^ 64 - 1) ∙ ground (arith, few))
addr2map_off-is_outside d bs (suc (suc (suc (suc q)))) e few lt =
    let a : ℕ = suc (suc (suc (suc q))) * 2 ^ 12 in
    let at : buffer_requested a ≡ q = omega arith in
    let no_status : (a == 0) ≡ false = ground arith in
    let no_arch : (a == 4096) ≡ false = ground arith in
    let no_plat : (a == 8192) ≡ false = ground arith in
    let behind : leb (length bs) q ≡ leb (4 + length bs) (suc (suc (suc (suc q)))) = ground arith in
    let other : (suc (suc (suc (suc q))) == 3) ≡ false = ground arith in
    rw (addr2map_off, no_status, no_arch, no_plat, e, other)
      (get_elem?-is_outside bs (buffer_requested a) ∙ ap (leb (length bs)) at ∙ behind)

-- For a PCIe device with fewer than 2^32 buffers and an offset of fewer than 2^52 pages, a
-- mapping of device memory reads outside the array of buffers exactly at page 3 and behind the
-- page of the last buffer.
pub tlkm_device_mmap_outside :
    (sim remaps : Bool) (d : Ranges) (bs : List (Option ℕ)) (pgoff sz : ℕ)
    → d.dma_buffer ≡ some bs
    → length bs < 2 ^ 32
    → pgoff < 2 ^ 52
    → is_outside (tlkm_device_mmap sim remaps d pgoff sz)
      ≡ (pgoff == 3 || leb (4 + length bs) pgoff)
unfolding tlkm_device_mmap
tlkm_device_mmap_outside sim remaps d bs pgoff sz e few lt =
    let off : (pgoff * 2 ^ 12) % 2 ^ 64 ≡ pgoff * 2 ^ 12 = omega arith in
    map_at-is_outside sim remaps ((pgoff * 2 ^ 12) % 2 ^ 64) sz
      (addr2map_off d ((pgoff * 2 ^ 12) % 2 ^ 64))
    ∙ rw off (addr2map_off-is_outside d bs pgoff e few lt)
