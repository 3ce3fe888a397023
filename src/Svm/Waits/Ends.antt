-- ===== src/Svm/Waits/Ends.antt =====
-- How the waits for the page DMA core end (runtime/kernel/pcie/pcie_svm.c).
use tapasco.Base.{
  ◌≤◌, ◌<◌, ◌≡◌, ◌⊎◌, refl, Bool-cases, true, false, ◌&&◌, inl, inr, List, [], ◌∷◌, some, leb, ltb,
  ok, err, efault, etime, arith,
}
use tapasco.Svm.Waits.{
  Sample, is_busy, has_error, timeout_msecs, Waited, judged, poll_status, Woken, wait_for_c2h_intr,
  wait_for_h2c_intr,
}

-- A read comes late, or finds the core idle.
abbrev pub IsLast : Sample → Type 0
IsLast s = (timeout_msecs ≤ s.millis_elapsed) ⊎ (is_busy s.rval ≡ false)

abbrev pub HasLast : List Sample → Type 0
HasLast [] = ⊥
HasLast (s ∷ ss) = IsLast s ⊎ HasLast ss

-- A read with the wait that it ends: idle, without an error and in time; with an error; late.
abbrev pub Ends : Waited → Sample → Type 0
Ends w s =
    ((w.result ≡ ok)
      × (is_busy s.rval ≡ false)
      × (has_error s.rval ≡ false)
      × (s.millis_elapsed < timeout_msecs))
    ⊎ ((w.result ≡ err efault) × (has_error s.rval ≡ true))
    ⊎ ((w.result ≡ err etime)
        × (w.timeout_error ≡ true)
        × (has_error s.rval ≡ false)
        × (timeout_msecs ≤ s.millis_elapsed))

abbrev pub EndsAt : Waited → List Sample → Type 0
EndsAt w [] = ⊥
EndsAt w (s ∷ ss) = Ends w s ⊎ EndsAt w ss

judged-Ends :
    (s : Sample)
    → (is_busy s.rval && ltb s.millis_elapsed timeout_msecs) ≡ false
    → Ends (judged s) s
judged-Ends s last = elim (Bool-cases (has_error s.rval)) [
  | inl bad ↦ rw bad (inr (inl (refl, refl)))
  | inr good ↦ elim (Bool-cases (leb timeout_msecs s.millis_elapsed)) [
    | inl late ↦ rw (good, late) (inr (inr (refl, refl, refl, ground (arith, late))))
    | inr early ↦
        let in_time : s.millis_elapsed < timeout_msecs = ground (arith, early) in
        rw (good, early) (inl (refl, ground (arith, last, in_time), refl, in_time))
  ]
]

poll_status_ends :
    (ss : List Sample) → HasLast ss → (w : Waited) × (poll_status ss ≡ some w) × EndsAt w ss
unfolding poll_status
poll_status_ends [] h = absurd h
poll_status_ends (s ∷ ss) h =
    elim (Bool-cases (is_busy s.rval && ltb s.millis_elapsed timeout_msecs)) [
      | inr last ↦ rw (poll_status, last) (judged s, refl, inl (judged-Ends s last))
      | inl again ↦
          let later : HasLast ss = elim h [
            | inl (inl late) ↦ absurd (ground (arith, late, again))
            | inl (inr idle) ↦ absurd (ground (arith, idle, again))
            | inr l ↦ l
          ] in
          let (w, e, at) = poll_status_ends ss later in rw (poll_status, again) (w, e, inr at)
    ]

-- A wait that polls, over reads of which one comes 1000 milliseconds after the start or later or
-- finds the core idle, ends, in either direction, with 0 and a read in time that found the core
-- idle and without an error, with EFAULT and a read that shows an error, or with ETIME, the error
-- state set and a late read.
pub wait_for_intr_ends :
    (ss : List Sample) (t : Woken)
    → HasLast ss
    → (w : Waited) × (wait_for_c2h_intr true ss t ≡ some w)
      × (wait_for_h2c_intr true ss t ≡ some w)
      × EndsAt w ss
unfolding wait_for_c2h_intr wait_for_h2c_intr
wait_for_intr_ends ss t h = let (w, e, at) = poll_status_ends ss h in (w, e, e, at)
