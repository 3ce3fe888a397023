-- ===== src/Zynq/Ioctl/Bulk.antt =====
-- The two combined calls of runtime/kernel/zynq/zynq_ioctl.c.
use tapasco.Base.{
  ℕ, zero, suc, ◌-◌, ◌^◌, ◌<◌, ◌≤◌, ◌≡◌, refl, sym, ap, ◌∙◌, false, Option, none, some, ltb, ◌==◌,
  ◌||◌, arith, inl, inr, ok,
}
use tapasco.Zynq.Pool.{pool_size}
use tapasco.Zynq.Buffers.{Zynq, zynq_dmamgmt_alloc, zynq_dmamgmt_get, hold, replace}
use tapasco.Zynq.Buffers.Valid.{IsValid, IsGrant, alloc_lem}
use tapasco.Zynq.Buffers.Run.{slot-Undone}
use tapasco.Zynq.Ioctl.{
  MmCmd, BulkCmd, no_addr, copy_from_user, copy_to_user, zynq_ioctl_alloc, zynq_ioctl_free,
  zynq_ioctl_alloc_copyto, zynq_ioctl_copyfrom_free,
}
use tapasco.Zynq.Ioctl.Copy.{written-IsValid, copyto_used, copyfrom_used, copy_there_and_back}

-- `z'` has memory of `len` bytes at `kv` and the DMA address `a` in the slot `id`, which `z` has not.
record HasSlot (z : Zynq) (z' : Zynq) (len kv a id : ℕ) : Type 0 where
  valid : IsValid z'
  kv_pos : 0 < kv
  fresh : z.live kv ≡ none
  small : id < pool_size
  blank : (z.elems id).kvirt_addr ≡ 0
  lives : z'.live ≡ hold z.live kv (some (len, a))
  slots : z'.elems ≡ replace z.elems id (record { len = len; kvirt_addr = kv; dma_addr = a })

alloc_granted :
    (kv a len j : ℕ) (z : Zynq)
    → IsValid z
    → IsGrant z (some (kv, a))
    → j < pool_size
    → (z.elems j).kvirt_addr ≡ 0
    → (z' : Zynq) × (id : ℕ) × (zynq_dmamgmt_alloc (some (kv, a)) len z ≡ (a, z'))
      × HasSlot z z' len kv a id
alloc_granted kv a len j z v g small blank = elim (alloc_lem (some (kv, a)) len z v g).1 [
  | inl (_, _, _, why) ↦ elim why [
    | inl refused ↦ absurd (ground (arith, refused))
    | inr full ↦ absurd (omega (arith, full j small, blank))
  ]
  | inr (kv', id, e, inside, null, _, lives, slots) ↦
      let at : a ≡ (zynq_dmamgmt_alloc (some (kv, a)) len z).0 = ground (arith, e) in
      let same : kv ≡ kv' = ground (arith, e) in
      (
        _,
        id,
        ap (λ x. (x, (zynq_dmamgmt_alloc (some (kv, a)) len z).1)) (sym at),
        record {
          valid = (alloc_lem (some (kv, a)) len z v g).0;
          kv_pos = g.0;
          fresh = g.2;
          small = inside;
          blank = null;
          lives =
              lives
              ∙ ap (λ k. hold z.live k (some (len, (zynq_dmamgmt_alloc (some (kv, a)) len z).0)))
                  (sym same)
              ∙ ap (λ d. hold z.live kv (some (len, d))) (sym at);
          slots =
              slots
              ∙ ap
                  (λ k. replace z.elems id (record {
                    len = len;
                    kvirt_addr = k;
                    dma_addr = (zynq_dmamgmt_alloc (some (kv, a)) len z).0;
                  }))
                  (sym same)
              ∙ ap (λ d. replace z.elems id (record { len = len; kvirt_addr = kv; dma_addr = d }))
                  (sym at);
        },
      )
]

ioctl_alloc_granted :
    (kv a j : ℕ) (cmd : MmCmd) (z : Zynq)
    → IsValid z
    → IsGrant z (some (kv, a))
    → j < pool_size
    → (z.elems j).kvirt_addr ≡ 0
    → 0 < cmd.sz
    → cmd.sz ≤ 2 ^ 27
    → zynq_dmamgmt_get cmd.dev_addr z ≡ none
    → (z' : Zynq) × (id : ℕ) × (zynq_ioctl_alloc (some (kv, a)) cmd z
        ≡ (ok, record cmd { dev_addr = a }, z'))
      × HasSlot z z' cmd.sz kv a id
unfolding zynq_ioctl_alloc
ioctl_alloc_granted kv zero j cmd z v g small blank pos most unused = absurd (omega (arith, g.1))
ioctl_alloc_granted kv (suc a) j cmd z v g small blank pos most unused =
    let sized : (cmd.sz == 0 || ltb (2 ^ 27) cmd.sz) ≡ false = ground arith in
    let (z', id, e, slot) = alloc_granted kv (suc a) cmd.sz j z v g small blank in
    (z', id, rw (sized, unused, e) refl, slot)

-- What the second call finds in a state with such a slot.
copyfrom_free_lem :
    (len kv a id : ℕ) (back : BulkCmd) (z z' : Zynq)
    → HasSlot z z' len kv a id
    → back.copy.dev_addr ≡ a
    → back.copy.length ≤ len
    → (u : Zynq) × (zynq_ioctl_copyfrom_free 0 back z'
        ≡ some (
          ok,
          record {
            mm = record back.mm { dev_addr = no_addr };
            copy = record back.copy {
              user = copy_to_user kv (back.copy.length - 0) z'.bytes back.copy.user;
            };
          },
          u,
        ))
      × ((q : ℕ) → u.live q ≡ z.live q)
      × ((i : ℕ) → (u.elems i).kvirt_addr ≡ (z.elems i).kvirt_addr)
unfolding zynq_ioctl_copyfrom_free zynq_ioctl_free
copyfrom_free_lem len kv a id back z z' h e fits =
    let slot : z'.elems id ≡ record { len = len; kvirt_addr = kv; dma_addr = a } =
      ap (λ f. f id) h.slots ∙ grind arith in
    let pos : 0 < (z'.elems id).kvirt_addr = rw slot h.kv_pos in
    let read =
      copyfrom_used 0 id back.copy z' h.small pos h.valid (e ∙ sym (ap (λ b. b.dma_addr) slot))
        (omega (arith, fits, ap (λ b. b.len) slot)) in
    let (u, done, lives, slots) =
      slot-Undone len kv a id z z' h.valid h.kv_pos h.fresh h.small h.blank h.lives h.slots in
    (u, rw (read, e, zynq_ioctl_free, done, ap (λ b. b.kvirt_addr) slot) refl, lives, slots)

-- With valid buffers, a free slot, a size of 1 to 2^27, no more bytes to copy than that, an
-- address that is no slot in use and fresh memory given, the call that allocates and copies,
-- followed by the call that copies back as many bytes from that address and frees, both succeed
-- when no byte is left uncopied, without leaving the buffer, give the user's bytes back, and
-- leave the memory held and the slots in use as they were.
pub bulk_round_trip :
    (c : Option (ℕ × ℕ)) (kv a j : ℕ) (cmd back : BulkCmd) (z : Zynq)
    → IsValid z
    → IsGrant z (some (kv, a))
    → j < pool_size
    → (z.elems j).kvirt_addr ≡ 0
    → 0 < cmd.mm.sz
    → cmd.mm.sz ≤ 2 ^ 27
    → cmd.copy.length ≤ cmd.mm.sz
    → zynq_dmamgmt_get cmd.mm.dev_addr z ≡ none
    → back.copy.dev_addr ≡ a
    → back.copy.length ≡ cmd.copy.length
    → (z' : Zynq) × (u : Zynq) × (user : ℕ → ℕ) × (zynq_ioctl_alloc_copyto (some (kv, a)) c 0 cmd z
        ≡ some (
          ok,
          record { mm = record cmd.mm { dev_addr = a }; copy = record cmd.copy { dev_addr = a } },
          z',
        ))
      × (zynq_ioctl_copyfrom_free 0 back z'
          ≡ some (
            ok,
            record {
              mm = record back.mm { dev_addr = no_addr };
              copy = record back.copy { user = user };
            },
            u,
          ))
      × ((o : ℕ) → o < cmd.copy.length → user o ≡ cmd.copy.user o)
      × ((q : ℕ) → u.live q ≡ z.live q)
      × ((i : ℕ) → (u.elems i).kvirt_addr ≡ (z.elems i).kvirt_addr)
unfolding zynq_ioctl_alloc_copyto
bulk_round_trip c kv a j cmd back z v g small blank pos most fits unused e l =
    let (z', id, done, h) = ioctl_alloc_granted kv a j cmd.mm z v g small blank pos most unused in
    let slot : z'.elems id ≡ record { len = cmd.mm.sz; kvirt_addr = kv; dma_addr = a } =
      ap (λ f. f id) h.slots ∙ grind arith in
    let at : (z'.elems id).kvirt_addr ≡ kv = ap (λ b. b.kvirt_addr) slot in
    let written = copy_from_user kv (cmd.copy.length - 0) cmd.copy.user z'.bytes in
    let w = record z' { bytes = written } in
    let copy =
      copyto_used c 0 id (record cmd.copy { dev_addr = a }) z' h.small (omega (arith, at, h.kv_pos))
        h.valid (sym (ap (λ b. b.dma_addr) slot)) (omega (arith, fits, ap (λ b. b.len) slot)) in
    let h' : HasSlot z w cmd.mm.sz kv a id = record {
      valid = written-IsValid z' written h.valid;
      kv_pos = h.kv_pos;
      fresh = h.fresh;
      small = h.small;
      blank = h.blank;
      lives = h.lives;
      slots = h.slots;
    } in
    let (u, read, lives, slots) =
      copyfrom_free_lem cmd.mm.sz kv a id back z w h' e (omega (arith, fits, l)) in
    (
      w,
      u,
      _,
      rw (done, copy, at) refl,
      read,
      λ o b. rw l (
          copy_there_and_back kv (cmd.copy.length - 0) o cmd.copy.user back.copy.user z'.bytes
            (omega arith)),
      lives,
      slots,
    )
