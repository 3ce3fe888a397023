-- ===== src/Dma/Read/Delivery.antt =====
-- What a read of the DMA engine delivers (runtime/kernel/dma/tlkm_dma.c).
use tapasco.Base.{
  [], ap, ◌∙◌, ℕ, zero, suc, ◌+◌, ◌-◌, ◌*◌, ◌%◌, ◌^◌, ◌<◌, ◌≤◌, ◌≡◌, refl, Bool, true, false, some,
  ◌==◌, ok, err, Errno, eagain, eacces, add64, arith, Bool-cases, inl, inr, ◌⊎◌,
}
use native.Mathlib.Nat.{add-zero}
use tapasco.Dma.{chunks, chunk_sz, cpy_sz}
use tapasco.Dma.Read.{
  Reader, Events, Ending, deliver, advance, drain, drain_from, read_from, reset, tlkm_dma_copy_from,
}
use tapasco.Dma.Read.Ring.{
  advance-IsReading, wait_for-IsReading, IsReading, emptied-IsReading, command_given-IsReading,
  reset-IsReading,
}

-- A wait was interrupted, or the user's memory did not take all bytes.
abbrev pub IsDisturbed : Events → Type 0
IsDisturbed e =
    (k : ℕ) × ((e.waits k ≡ false)
      ⊎ (e.copies k ≡ false)
      ⊎ (e.last_waits k ≡ false)
      ⊎ (e.last_copies k ≡ false))

-- A call that fails for a reason in `why`, or the state that a success reaches.
abbrev pub Ends : Type 0 → (Reader → Type 0) → Ending → Type 0
Ends why P o =
    ((s : Reader) × (o ≡ some (ok, s)) × P s)
    ⊎ ((er : Errno) × (s : Reader) × (o ≡ some (err er, s)) × why)

module _ (device before : ℕ → ℕ) (usr dev : ℕ) where
  -- The buffers before `i` are empty.
  abbrev IsEmpty : ℕ → Reader → Type 0
  IsEmpty i s = (j : ℕ) → j < i → (s.chunk j).usr_addr ≡ 0

  -- What holds behind a wait for the buffer `i`.
  abbrev IsDrained : ℕ → ℕ → Reader → Reader → Type 0
  IsDrained count i s s' =
      IsReading device before usr dev count s'
      × ((s'.chunk i).usr_addr ≡ 0)
      × ((s'.chunk i).t_id ≤ s'.rq_processed)
      × ((j : ℕ) → (s.chunk j).usr_addr ≡ 0 → (s'.chunk j).usr_addr ≡ 0)

  deliver_lem :
      (c : Bool) (count i : ℕ) (s s' : Reader)
      → i < chunks
      → IsReading device before usr dev count s'
      → (s'.chunk i).t_id ≤ s'.rq_processed
      → s'.chunk ≡ s.chunk
      → Ends (c ≡ false) (IsDrained count i s) (some (deliver c i s'))
  deliver_lem c count i s s' small r past same =
      let stays : (j : ℕ) → (s.chunk j).usr_addr ≡ 0 → (s'.chunk j).usr_addr ≡ 0 =
        λ j e. rw same e in
      elim (Bool-cases ((s'.chunk i).usr_addr == 0)) [
        | inl empty ↦ inl (s', rw empty refl, (r, ground arith, past, stays))
        | inr full ↦ elim (Bool-cases c) [
          | inl copied ↦ inl (
            _,
            rw (full, copied) refl,
            (
              emptied-IsReading device before usr dev count i s' small (ground arith) past r,
              grind arith,
              grind (arith, past),
              λ j e. grind (arith, stays j e),
            ),
          )
          | inr fault ↦ inr (eagain, s', rw (full, fault) refl, fault)
        ]
      ]

  drain_lem :
      (n : ℕ) (w c : Bool) (count i : ℕ) (s : Reader)
      → i < chunks
      → count < 2 ^ 64
      → IsReading device before usr dev count s
      → Ends ((w ≡ false) ⊎ (c ≡ false)) (IsDrained count i s) (drain device n w c i s)
  drain_lem n false c count i s small room r = inr (eacces, advance device n s, refl, inl refl)
  drain_lem n true c count i s small room r =
      let s' : Reader = advance device n s in
      let (r', same) = advance-IsReading device before usr dev count n s room r in
      let given : (s.chunk i).t_id ≤ s'.rq_enqueued =
        omega (arith, r'.numbered i small, ap (λ f. (f i).t_id) same) in
      let (s'', ended, r'', past, same') =
        wait_for-IsReading device before usr dev count (s.chunk i).t_id s'.pending s' room refl
          given r' in
      let kept : s''.chunk ≡ s.chunk = same' ∙ same in
      elim (deliver_lem c count i s s'' small r'' (rw kept past) kept) [
        | inl (z, e, q) ↦ inl (z, rw ended e, q)
        | inr (er, z, e, why) ↦ inr (er, z, rw ended e, inr why)
      ]

  drain_from_lem :
      (e : Events) (n i count : ℕ) (s : Reader)
      → i + n ≤ chunks
      → count < 2 ^ 64
      → IsReading device before usr dev count s
      → IsEmpty i s
      → Ends
          (IsDisturbed e)
          (λ s'. IsReading device before usr dev count s' × IsEmpty (i + n) s')
          (drain_from device e n i s)
  unfolding drain_from
  drain_from_lem e zero i count s h room r empty = inl (s, refl, (r, λ j b. empty j (omega arith)))
  drain_from_lem e (suc n) i count s h room r empty =
      elim (drain_lem (e.last_ended i) (e.last_waits i) (e.last_copies i) count i s (omega arith)
        room r) [
          | inr (er, s', fails, why) ↦ inr (
            er,
            s',
            rw fails refl,
            (i, elim why [ inl w ↦ inr (inr (inl w)) | inr c ↦ inr (inr (inr c)) ]),
          )
          | inl (s', goes, (r', this, _, others)) ↦
              let empty' : IsEmpty (suc i) s' = λ j b. elim (Bool-cases (i == j)) [
                | inl same ↦ ground arith
                | inr other ↦ others j (empty j (ground arith))
              ] in
              elim (drain_from_lem e n (suc i) count s' (omega arith) room r' empty') [
                | inr (er, s'', fails, why) ↦ inr (er, s'', rw goes fails, why)
                | inl (s'', ends, (r'', empty'')) ↦
                    inl (s'', rw goes ends, (r'', λ j b. empty'' j (omega arith)))
              ]
        ]

  read_from_lem :
      (e : Events) (fuel k i count len : ℕ) (s : Reader)
      → ((j : ℕ) → e.locks j ≡ true)
      → 0 < usr
      → i < chunks
      → len + chunk_sz ≤ chunk_sz * fuel
      → usr + count + len < 2 ^ 64
      → dev + count + len < 2 ^ 64
      → IsReading device before usr dev count s
      → Ends
          (IsDisturbed e)
          (λ s'. IsReading device before usr dev (count + len) s' × IsEmpty chunks s')
          (read_from device e fuel k i (usr + count) (dev + count) len s)
  unfolding read_from
  read_from_lem e zero k i count len s locks up small room fits fits' r = absurd (omega arith)
  read_from_lem e (suc fuel) k i count len s locks up small room fits fits' r =
      elim (Bool-cases (len == 0)) [
        | inl finished ↦
            let none_left : count ≡ count + len = ground arith in
            rw (finished, ← none_left)
              (drain_from_lem e chunks 0 count s (omega arith) (omega arith) r
                (λ j b. absurd (omega arith)))
        | inr more ↦
            elim (drain_lem (e.ended k) (e.waits k) (e.copies k) count i s small (omega arith) r) [
              | inr (er, s', fails, why) ↦ inr (
                er,
                s',
                rw (more, fails) refl,
                (k, elim why [ inl w ↦ inl w | inr c ↦ inr (inl c) ]),
              )
              | inl (s', goes, (r', this, past, _)) ↦
                  let sz = cpy_sz len in
                  let pos : 0 < sz = ground arith in
                  let most : sz ≤ len = ground arith in
                  let shrinks : len - sz + chunk_sz ≤ chunk_sz * fuel = ground arith in
                  let au : add64 (usr + count) sz ≡ usr + (count + sz) = omega arith in
                  let ad : add64 (dev + count) sz ≡ dev + (count + sz) = omega arith in
                  let left : count + sz + (len - sz) ≡ count + len = omega arith in
                  let r'' =
                    command_given-IsReading device before usr dev count i sz s' small up pos
                      (omega arith) this past r' in
                  rw (more, goes, locks k, au, ad, ← left)
                    (read_from_lem e fuel (suc k) ((i + 1) % chunks) (count + sz) (len - sz) _ locks
                      up (omega arith) shrinks (omega arith) (omega arith) r'')
            ]
      ]

-- The bytes are where they should be, and no other byte of the user has changed.
abbrev pub IsDelivered : (ℕ → ℕ) → ℕ → ℕ → ℕ → Reader → Reader → Type 0
IsDelivered device usr dev len s s' =
    ((o : ℕ) → o < len → s'.user (usr + o) ≡ device (dev + o))
    × ((a : ℕ) → (a < usr) ⊎ (usr + len ≤ a) → s'.user a ≡ s.user a)

-- An aligned read, to an address that is not 0, with no wrap-around of its addresses, fuel of one
-- unit more than its chunks, no command of an earlier read under way, and the engine's mutex got
-- for every chunk, returns, however many commands end before each wait, where the bytes of a
-- command come into its buffer when it ends: either it succeeds, every byte asked for is in the
-- user's memory at its place and no other byte of it has changed, or it fails, and a wait was
-- interrupted or the user's memory did not take all bytes.
pub copy_from-IsDelivered :
    (alignment : ℕ) (device : ℕ → ℕ) (e : Events) (fuel usr dev len : ℕ) (s : Reader)
    → dev % alignment ≡ 0
    → ((j : ℕ) → e.locks j ≡ true)
    → s.pending ≡ []
    → 0 < usr
    → usr + len < 2 ^ 64
    → dev + len < 2 ^ 64
    → len + chunk_sz ≤ chunk_sz * fuel
    → Ends
        (IsDisturbed e)
        (IsDelivered device usr dev len s)
        (tlkm_dma_copy_from alignment device e fuel usr dev len s)
unfolding tlkm_dma_copy_from
copy_from-IsDelivered alignment device e fuel usr dev len s aligned locks idle up fits fits' room =
    let start = reset-IsReading device s.user usr dev s idle (λ a. refl) in
    elim (read_from_lem device s.user usr dev e fuel 0 0 0 len (reset s) locks up (omega arith) room
      (omega arith) (omega arith) start) [
        | inr (er, s', fails, why) ↦
            inr (er, s', rw aligned (rw (add-zero usr, add-zero dev) at fails), why)
        | inl (s', ends, (r, empty)) ↦ inl (
          s',
          rw aligned (rw (add-zero usr, add-zero dev) at ends),
          (
            λ o h. elim (r.there o (omega arith)) [
              | inl right ↦ right
              | inr (i, hi, pos, _, _) ↦ absurd (omega (arith, empty i hi, pos))
            ],
            λ a h. r.kept a (elim h [ inl low ↦ inl low | inr high ↦ inr (omega arith) ]),
          ),
        )
      ]
