-- ===== src/Dma/Read/Ring.antt =====
-- The ring of buffers that tlkm_dma_copy_from reads through (runtime/kernel/dma/tlkm_dma.c): what holds
-- of its chunks between the rounds.
use tapasco.Base.{
  ℕ, zero, suc, ◌+◌, ◌-◌, ◌^◌, ◌<◌, ◌≤◌, ◌≡◌, refl, ap, ◌∙◌, true, false, ltb, leb, ◌==◌, ◌&&◌,
  add64, arith, Bool-cases, inl, inr, ◌⊎◌, List, [], ◌∷◌, none, some, get_elem?, get_elem?-snoc,
  get_elem?-before, get_elem?-last, length, length-append, ==_refl, lt→ltb, le→leb, leb→le,
}
use tapasco.Dma.{chunks}
use tapasco.Dma.Read.{
  Command, Reader, emptied, ends, next_ends, advance, wait_for, command_given, blue_dma_copy_from,
  reset,
}

module _ (device before : ℕ → ℕ) (usr dev : ℕ) where
  -- The bytes of a chunk are in its buffer, or its command has not ended.
  abbrev pub HasBytes : ℕ → ℕ → Reader → Type 0
  HasBytes i p s =
      (((s.chunk i).t_id ≤ s.rq_processed)
        × ((t : ℕ) → t < (s.chunk i).cpy_sz → s.buf i t ≡ device (dev + p + t)))
      ⊎ ((j : ℕ) × ((s.chunk i).t_id ≡ s.rq_processed + suc j)
          × (get_elem? s.pending j
              ≡ some (record { slot = i; dev_addr = dev + p; size = (s.chunk i).cpy_sz })))

  -- A chunk that waits is the piece of the read at `p`.
  abbrev pub IsPiece : ℕ → ℕ → Reader → Type 0
  IsPiece count i s =
      (p : ℕ) × ((s.chunk i).usr_addr ≡ usr + p) × (p + (s.chunk i).cpy_sz ≤ count) × HasBytes i p s

  -- The first `count` bytes are with the user or in a chunk that waits, and no other byte of the
  -- user has changed. Every command that has not ended is that of its buffer's chunk.
  pub record IsReading (count : ℕ) (s : Reader) : Type 0 where
    pub few : s.rq_enqueued ≤ count
    pub counted : s.rq_processed + length s.pending ≡ s.rq_enqueued
    pub numbered : (i : ℕ) → i < chunks → (s.chunk i).t_id ≤ s.rq_enqueued
    pub owned :
        (j : ℕ) (c : Command)
        → get_elem? s.pending j ≡ some c
        → (s.chunk c.slot).t_id ≡ s.rq_processed + suc j
    pub waiting : (i : ℕ) → i < chunks → 0 < (s.chunk i).usr_addr → IsPiece count i s
    pub there :
        (o : ℕ)
        → o < count
        → (s.user (usr + o) ≡ device (dev + o))
          ⊎ ((i : ℕ) × (i < chunks)
              × (0 < (s.chunk i).usr_addr)
              × ((s.chunk i).usr_addr ≤ usr + o)
              × (usr + o < (s.chunk i).usr_addr + (s.chunk i).cpy_sz))
    pub kept : (a : ℕ) → (a < usr) ⊎ (usr + count ≤ a) → s.user a ≡ before a

  -- The bytes of the first command come into its buffer.
  ends-HasBytes :
      (i p : ℕ) (c : Command) (cs : List Command) (s : Reader)
      → s.pending ≡ c ∷ cs
      → (s.chunk c.slot).t_id ≡ s.rq_processed + 1
      → add64 s.rq_processed 1 ≡ s.rq_processed + 1
      → HasBytes i p s
      → HasBytes i p (ends device c cs s)
  ends-HasBytes i p c cs s e own next (inl (old, bytes)) = elim (Bool-cases (c.slot == i)) [
    | inl same ↦
        let this : c.slot ≡ i = ground (arith, same) in absurd (omega (arith, rw this at own))
    | inr other ↦ inl (omega (arith, next, old), rw other bytes)
  ]
  ends-HasBytes i p c cs s e own next (inr (zero, number, is)) =
      let first : c ≡ record { slot = i; dev_addr = dev + p; size = (s.chunk i).cpy_sz } =
        ap (λ o. elim o [ none ↦ c | some x ↦ x ]) (rw e at is) in
      let here : (c.slot == i) ≡ true = rw (ap (λ d. d.slot) first) (==_refl i) in
      inl (
        omega (arith, next, number),
        λ t small.
            let inside : ltb t c.size ≡ true =
              rw (ap (λ d. d.size) first) (lt→ltb t (s.chunk i).cpy_sz small) in
            rw (here, inside) (ap (λ d. device (d.dev_addr + t)) first),
      )
  ends-HasBytes i p c cs s e own next (inr (suc j, number, is)) =
      inr (j, omega (arith, next, number), rw e at is)

  ends-IsReading :
      (count : ℕ) (c : Command) (cs : List Command) (s : Reader)
      → count < 2 ^ 64
      → s.pending ≡ c ∷ cs
      → IsReading count s
      → IsReading count (ends device c cs s)
  ends-IsReading count c cs s room e r =
      let own : (s.chunk c.slot).t_id ≡ s.rq_processed + 1 = r.owned 0 c (rw e refl) in
      let left : s.rq_processed + suc (length cs) ≡ s.rq_enqueued = rw e at r.counted in
      let next : add64 s.rq_processed 1 ≡ s.rq_processed + 1 = omega (arith, left, r.few) in
      record {
        few = r.few;
        counted = omega (arith, next, left);
        numbered = r.numbered;
        owned = λ j d g. omega (arith, next, r.owned (suc j) d (rw e g));
        waiting = λ i h pos.
            let (p, at, fits, bytes) = r.waiting i h pos in
            (p, at, fits, ends-HasBytes i p c cs s e own next bytes);
        there = r.there;
        kept = r.kept;
      }

  next_ends-IsReading :
      (count : ℕ) (cs : List Command) (s : Reader)
      → count < 2 ^ 64
      → s.pending ≡ cs
      → IsReading count s
      → IsReading count (next_ends device cs s) × ((next_ends device cs s).chunk ≡ s.chunk)
  next_ends-IsReading count [] s room e r = (r, refl)
  next_ends-IsReading count (c ∷ cs) s room e r = (ends-IsReading count c cs s room e r, refl)

  pub advance-IsReading :
      (count n : ℕ) (s : Reader)
      → count < 2 ^ 64
      → IsReading count s
      → IsReading count (advance device n s) × ((advance device n s).chunk ≡ s.chunk)
  advance-IsReading count zero s room r = (r, refl)
  advance-IsReading count (suc n) s room r =
      let (r', same) = next_ends-IsReading count s.pending s room refl r in
      let (r'', same') = advance-IsReading count n (next_ends device s.pending s) room r' in
      (r'', same' ∙ same)

  -- A wait for a number that was given out ends.
  pub wait_for-IsReading :
      (count t : ℕ) (cs : List Command) (s : Reader)
      → count < 2 ^ 64
      → s.pending ≡ cs
      → t ≤ s.rq_enqueued
      → IsReading count s
      → (s' : Reader) × (wait_for device t cs s ≡ some s')
        × IsReading count s'
        × (t ≤ s'.rq_processed)
        × (s'.chunk ≡ s.chunk)
  wait_for-IsReading count t [] s room e given r =
      let all : s.rq_processed + 0 ≡ s.rq_enqueued = rw e at r.counted in
      let past : t ≤ s.rq_processed = omega (arith, all, given) in
      (s, rw (le→leb t s.rq_processed past) refl, r, past, refl)
  wait_for-IsReading count t (c ∷ cs) s room e given r = elim (Bool-cases (leb t s.rq_processed)) [
    | inl past ↦ (s, rw (wait_for, past) refl, r, leb→le t s.rq_processed past, refl)
    | inr future ↦
        let (s', ended, r', past, same) =
          wait_for-IsReading count t cs (ends device c cs s) room refl given
            (ends-IsReading count c cs s room e r) in
        (s', rw (wait_for, future) ended, r', past, same)
  ]

  -- A byte of the chunk that goes to the user is the right one.
  right_byte :
      (count o i : ℕ) (s : Reader)
      → (s.chunk i).t_id ≤ s.rq_processed
      → IsPiece count i s
      → (s.chunk i).usr_addr ≤ usr + o
      → usr + o < (s.chunk i).usr_addr + (s.chunk i).cpy_sz
      → s.buf i (usr + o - (s.chunk i).usr_addr) ≡ device (dev + o)
  right_byte count o i s past (p, at, fits, inr (j, number, is)) above below =
      absurd (omega (arith, past, number))
  right_byte count o i s past (p, at, fits, inl (_, bytes)) above below =
      bytes (usr + o - (s.chunk i).usr_addr) (omega (arith, at)) ∙ ap device (omega (arith, at))

  emptied-HasBytes : (i j p : ℕ) (s : Reader) → HasBytes j p s → HasBytes j p (emptied i s)
  emptied-HasBytes i j p s b = elim (Bool-cases (i == j)) [
    | inl same ↦ let this : i ≡ j = ground (arith, same) in rw (same, this) b
    | inr other ↦ rw other b
  ]

  pub emptied-IsReading :
      (count i : ℕ) (s : Reader)
      → i < chunks
      → 0 < (s.chunk i).usr_addr
      → (s.chunk i).t_id ≤ s.rq_processed
      → IsReading count s
      → IsReading count (emptied i s)
  emptied-IsReading count i s small pos past r =
      let piece = r.waiting i small pos in
      record {
        few = r.few;
        counted = r.counted;
        numbered = λ j h. grind (arith, r.numbered j h);
        owned = λ j c g. grind (arith, r.owned j c g);
        waiting = λ j h p. elim (Bool-cases (i == j)) [
          | inl same ↦ absurd (ground arith)
          | inr other ↦ rw other (r.waiting j h (rw other at p))
        ];
        there = λ o h.
            elim (Bool-cases (
              leb (s.chunk i).usr_addr (usr + o)
              && ltb (usr + o) ((s.chunk i).usr_addr + (s.chunk i).cpy_sz))) [
                | inl inside ↦
                    inl
                      (rw inside (right_byte count o i s past piece (ground arith) (ground arith)))
                | inr outside ↦ elim (r.there o h) [
                  | inl before ↦ inl (rw outside before)
                  | inr (j, hj, pj, above, below) ↦ elim (Bool-cases (i == j)) [
                    | inl same ↦
                        let this : j ≡ i = ground arith in
                        absurd (ground (arith, outside, rw this at above, rw this at below))
                    | inr other ↦ inr (j, hj, rw other pj, rw other above, rw other below)
                  ]
                ]
              ];
        kept = λ a h.
            let (p, at, fits, _) = piece in
            let outside : (leb (s.chunk i).usr_addr a
                  && ltb a ((s.chunk i).usr_addr + (s.chunk i).cpy_sz))
                ≡ false =
              grind arith in
            rw outside (r.kept a h);
      }

  pub reset-IsReading :
      (s : Reader) → s.pending ≡ [] → ((a : ℕ) → s.user a ≡ before a) → IsReading 0 (reset s)
  reset-IsReading s idle same = record {
    few = omega arith;
    counted = rw idle refl;
    numbered = λ i h. omega arith;
    owned = λ j c g. absurd (ground (arith, rw idle at g));
    waiting = λ i h p. absurd (omega arith);
    there = λ o h. absurd (omega arith);
    kept = λ a h. same a;
  }

  -- A command for the next piece, into a buffer that is empty and whose command has ended.
  pub command_given-IsReading :
      (count i sz : ℕ) (s : Reader)
      → i < chunks
      → 0 < usr
      → 0 < sz
      → count + sz < 2 ^ 64
      → (s.chunk i).usr_addr ≡ 0
      → (s.chunk i).t_id ≤ s.rq_processed
      → IsReading count s
      → IsReading
          (count + sz)
          (command_given i (usr + count) sz (blue_dma_copy_from true i (dev + count) sz s))
  command_given-IsReading count i sz s small up pos room empty past r =
      let next : add64 s.rq_enqueued 1 ≡ s.rq_enqueued + 1 = omega (arith, r.few) in
      let c : Command = record { slot = i; dev_addr = dev + count; size = sz } in
      let self : (i == i) ≡ true = ==_refl i in
      record {
        few = rw next (omega (arith, r.few));
        counted = rw next (omega (arith, r.counted, length-append s.pending (c ∷ [])));
        numbered = λ j h. rw next (grind (arith, r.numbered j h));
        owned = λ j d g. elim (get_elem?-snoc s.pending c j g) [
          | inl old ↦ elim (Bool-cases (i == d.slot)) [
            | inl same ↦
                let this : d.slot ≡ i = ground (arith, same) in
                absurd (omega (arith, past, rw this at (r.owned j d old)))
            | inr other ↦ rw other (r.owned j d old)
          ]
          | inr (last, same) ↦
              let here : (i == d.slot) ≡ true = rw (← ap (λ x. x.slot) same) self in
              rw (here, next) (omega (arith, last, r.counted))
        ];
        waiting = λ j h p. elim (Bool-cases (i == j)) [
          | inl same ↦
              let this : j ≡ i = ground (arith, same) in
              rw (this, self)
                (
                  count,
                  refl,
                  omega arith,
                  inr (
                    length s.pending,
                    rw next (omega (arith, r.counted)),
                    get_elem?-last s.pending c,
                  ),
                )
          | inr other ↦ rw other (
              let (q, at, fits, bytes) = r.waiting j h (rw other at p) in
              (
                q,
                at,
                omega arith,
                elim bytes [
                  | inl done ↦ inl done
                  | inr (k, number, is) ↦ inr (k, number, get_elem?-before s.pending c k is)
                ],
              ))
        ];
        there = λ o h. elim (Bool-cases (ltb o count)) [
          | inl old ↦ elim (r.there o (ground arith)) [
            | inl done ↦ inl done
            | inr (j, hj, pj, above, below) ↦ elim (Bool-cases (i == j)) [
              | inl same ↦
                  let this : j ≡ i = ground arith in absurd (omega (arith, empty, rw this at pj))
              | inr other ↦ inr (j, hj, rw other pj, rw other above, rw other below)
            ]
          ]
          | inr new ↦
              inr (i, small, rw self (omega arith), rw self (ground arith), rw self (ground arith))
        ];
        kept = λ a h. r.kept a (elim h [ inl low ↦ inl low | inr high ↦ inr (omega arith) ]);
      }
