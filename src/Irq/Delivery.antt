-- ===== src/Irq/Delivery.antt =====
-- Which event files the handlers of the interrupt controllers signal
-- (runtime/kernel/pcie/pcie_irq_aws.c, runtime/kernel/zynq/zynq_irq.c).
use tapasco.Base.{
  ℕ, zero, suc, ◌+◌, ◌≤◌, ◌<◌, ◌≡◌, refl, ap, ◌∙◌, Bool-cases, Option-cases, true, false, inl, inr,
  List, [], ◌∷◌, Option, none, some, ltb, if◌then◌else◌, length, arith, sym,
}
use native.Mathlib.Nat.{add-zero}
use tapasco.Control.{Mapping}
use tapasco.Control.Interrupts.{Ascending, next}
use tapasco.Irq.{line_0}
use tapasco.Irq.First.{first_in, event_file, entries, first_in-none, first_in-at_line}
use tapasco.Irq.Handler.{
  Word, ffs, is_zero, flip, Position, walk_to, signal_at, serve, serve_all, irq_handler,
  aws_irq_handler,
}

abbrev push : Option ℕ → List ℕ → List ℕ
push none ss = ss
push (some fd) ss = fd ∷ ss

-- The event files of the lines whose bits are set, from the slot `i` on, in ascending order, put in
-- front of `ss` one by one.
abbrev pub raised : ℕ → Word → List Mapping → List ℕ → List ℕ
raised i [] ms ss = ss
raised i (b ∷ bs) ms ss =
    raised (i + 1) bs ms (if b then push (event_file (line_0 + i) ms) ss else ss)

event_file-below : (n k : ℕ) (ms : List Mapping) → Ascending k ms → n < k → event_file n ms ≡ none
event_file-below n k [] a lt = refl
event_file-below n k (m ∷ ms) (next _ _ _ le a) lt =
    ground (arith, event_file-below n (suc m.irq_no) ms a)

-- The walk passes no entry whose line is at or above the slot's.
event_file-walk_to :
    (slot n : ℕ) (m : Mapping) (ms : List Mapping)
    → line_0 + slot ≤ n
    → event_file n (entries (walk_to slot (m, ms))) ≡ event_file n (m ∷ ms)
event_file-walk_to slot n m [] le = refl
event_file-walk_to slot n m (e ∷ es) le = elim (Bool-cases (ltb m.irq_no (line_0 + slot))) [
  | inr at ↦ rw at refl
  | inl below ↦ rw below (ground (arith, event_file-walk_to slot n e es le))
]

walk_to-Ascending :
    (slot k : ℕ) (m : Mapping) (ms : List Mapping)
    → Ascending k (m ∷ ms)
    → Ascending k (entries (walk_to slot (m, ms)))
walk_to-Ascending slot k m [] a = a
walk_to-Ascending slot k m (e ∷ es) (next _ _ _ le (next _ _ _ le' a)) =
    elim (Bool-cases (ltb m.irq_no (line_0 + slot))) [
      | inr at ↦ rw at (next k m (e ∷ es) le (next _ e es le' a))
      | inl below ↦ rw below (walk_to-Ascending slot k e es (next k e es (omega arith) a))
    ]

-- Behind the walk, the entry signals exactly if the line has one.
signal_at-walk_to :
    (slot k : ℕ) (m : Mapping) (ms : List Mapping) (ss : List ℕ)
    → Ascending k (m ∷ ms)
    → signal_at slot (walk_to slot (m, ms)).0 ss ≡ push (event_file (line_0 + slot) (m ∷ ms)) ss
signal_at-walk_to slot k m [] ss a = ground arith
signal_at-walk_to slot k m (e ∷ es) ss (next _ _ _ le a) =
    elim (Bool-cases (ltb m.irq_no (line_0 + slot))) [
      | inr at ↦ rw at (ground (arith, event_file-below (line_0 + slot) (suc m.irq_no) (e ∷ es) a))
      | inl below ↦ rw below (signal_at-walk_to slot _ e es ss a ∙ ground arith)
    ]

abbrev ZerosBelow : ℕ → Word → Type 0
ZerosBelow zero w = Unit {0}
ZerosBelow (suc i) [] = Unit {0}
ZerosBelow (suc i) (b ∷ bs) = (b ≡ false) × ZerosBelow i bs

-- Only lines from the first set bit on matter.
raised-same :
    (i s : ℕ) (w : Word) (ms ns : List Mapping) (ss : List ℕ)
    → ZerosBelow i w
    → ((n : ℕ) → line_0 + (s + i) ≤ n → event_file n ms ≡ event_file n ns)
    → raised s w ms ss ≡ raised s w ns ss
raised-same i s [] ms ns ss z same = refl
raised-same zero s (b ∷ bs) ms ns ss z same =
    rw (same (line_0 + s) (omega arith))
      (raised-same zero (s + 1) bs ms ns _ tt (λ n le. same n (omega arith)))
raised-same (suc i) s (b ∷ bs) ms ns ss z same =
    rw z.0 (raised-same i (s + 1) bs ms ns ss z.1 (λ n le. same n (omega arith)))

-- Taking the lowest bit out of a word that is not 0.
raised-flip :
    (s : ℕ) (w : Word) (ms : List Mapping) (ss : List ℕ)
    → is_zero w ≡ false
    → (w' : Word) × (flip (ffs w) w ≡ some w')
      × ZerosBelow (suc (ffs w)) w'
      × (raised s w ms ss ≡ raised s w' ms (push (event_file (line_0 + (ffs w + s)) ms) ss))
raised-flip s [] ms ss nz = absurd (cc)
raised-flip s (true ∷ bs) ms ss nz =
    let e : line_0 + (0 + s) ≡ line_0 + s = omega arith in (false ∷ bs, refl, (refl, tt), rw e refl)
raised-flip s (false ∷ bs) ms ss nz =
    let (w', flips, z, same) = raised-flip (s + 1) bs ms ss nz in
    let e : line_0 + (suc (ffs bs) + s) ≡ line_0 + (ffs bs + (s + 1)) = omega arith in
    (false ∷ w', rw flips refl, (refl, z), rw e same)

raised-is_zero :
    (s : ℕ) (w : Word) (ms : List Mapping) (ss : List ℕ) → is_zero w ≡ true → raised s w ms ss ≡ ss
raised-is_zero s [] ms ss z = refl
raised-is_zero s (true ∷ bs) ms ss z = absurd (cc)
raised-is_zero s (false ∷ bs) ms ss z = raised-is_zero (s + 1) bs ms ss z

abbrev pub bits : Word → ℕ
bits [] = 0
bits (b ∷ bs) = (if b then 1 else 0) + bits bs

bits-flip : (w w' : Word) → is_zero w ≡ false → flip (ffs w) w ≡ some w' → bits w ≡ suc (bits w')
bits-flip [] w' nz e = absurd (cc)
bits-flip (true ∷ bs) w' nz e = ground arith
bits-flip (false ∷ bs) w' nz e = elim (Option-cases (flip (ffs bs) bs)) [
  | inl n ↦ absurd (ground (arith, n, e))
  | inr (v, s) ↦ ground (arith, e, s, bits-flip bs v nz s)
]

bits-pos : (w : Word) → is_zero w ≡ false → 0 < bits w
bits-pos [] nz = absurd (cc)
bits-pos (true ∷ bs) nz = omega arith
bits-pos (false ∷ bs) nz = omega (arith, bits-pos bs nz)

serve_lem :
    (fuel start k : ℕ) (w : Word) (p : Position) (ss : List ℕ)
    → is_zero w ≡ false
    → bits w ≤ fuel
    → Ascending k (entries p)
    → (p' : Position) × (serve fuel 0 start w p ss ≡ some (p', raised start w (entries p) ss))
unfolding serve
serve_lem zero start k w p ss nz enough a = absurd (omega (arith, bits-pos w nz))
serve_lem (suc fuel) start k w p ss nz enough a =
    let (w', flips, z, same) = raised-flip start w (entries p) ss nz in
    let p' : Position = walk_to (ffs w + start) p in
    let ss' : List ℕ = signal_at (ffs w + start) p'.0 ss in
    let signalled : ss' ≡ push (event_file (line_0 + (ffs w + start)) (entries p)) ss =
      signal_at-walk_to (ffs w + start) k p.0 p.1 ss a in
    let flips' : flip (ffs w + 0) w ≡ some w' = rw (add-zero) flips in
    elim (Bool-cases (is_zero w')) [
      | inl done ↦ (
        p',
        rw (serve, flips', done)
            (ap (λ r. some (p', r))
              (signalled ∙ sym (raised-is_zero start w' (entries p) _ done) ∙ sym same)),
      )
      | inr more ↦
          let (q, e) =
            serve_lem fuel start k w' p' ss' more (omega (arith, bits-flip w w' nz flips))
              (walk_to-Ascending (ffs w + start) k p.0 p.1 a) in
          let kept : raised start w' (entries p') ss' ≡ raised start w' (entries p) ss' =
            raised-same (suc (ffs w)) start w' (entries p') (entries p) ss' z
              (λ n le. event_file-walk_to (ffs w + start) n p.0 p.1 (omega arith)) in
          (
            q,
            rw (serve, flips', more)
                (e
                  ∙ ap (λ r. some (q, r))
                      (kept ∙ ap (raised start w' (entries p)) signalled ∙ sym same)),
          )
    ]

raised-none :
    (s : ℕ) (w : Word) (ms : List Mapping) (ss : List ℕ)
    → ((n : ℕ) → line_0 + s ≤ n → n < line_0 + s + length w → event_file n ms ≡ none)
    → raised s w ms ss ≡ ss
raised-none s [] ms ss no_file = refl
raised-none s (false ∷ bs) ms ss no_file =
    raised-none (s + 1) bs ms ss (λ n le lt. no_file n (omega arith) (omega arith))
raised-none s (true ∷ bs) ms ss no_file =
    rw (no_file (line_0 + s) (omega arith) (omega arith))
      (raised-none (s + 1) bs ms ss (λ n le lt. no_file n (omega arith) (omega arith)))

bits-le : (w : Word) → bits w ≤ length w
bits-le [] = omega arith
bits-le (b ∷ bs) = ground (arith, bits-le bs)

module _ (start : ℕ) (ms : List Mapping) (w : Word) (a : Ascending 0 ms)
    (short : length w ≤ 32) where
  abbrev first_line : Option ℕ
  first_line = first_in (line_0 + start) (line_0 + start + 32) ms

  -- A controller whose first registered line is the one that it points at: for a status word, the
  -- handler signals the event files of exactly the registered lines whose bits are set, each once,
  -- in ascending order.
  pub aws_irq_handler_lem :
      aws_irq_handler start first_line ms (w ∷ []) ≡ some (raised start w ms [])
  unfolding aws_irq_handler irq_handler serve_all
  aws_irq_handler_lem = elim (Option-cases first_line) [
    | inl no_line ↦ rw no_line (
        ap some (
          sym (
            raised-none start w ms []
              (λ n le lt. first_in-none _ _ n ms no_line le (omega arith)))))
    | inr (f, found) ↦
        let (p, at, first) = first_in-at_line _ _ 0 f ms a found in
        rw (found, irq_handler, at)
          (elim (Bool-cases (is_zero w)) [
            | inl z ↦ rw (serve_all, z) (ap some (sym (raised-is_zero start w ms [] z)))
            | inr nz ↦
                let (q, served) =
                  serve_lem 32 start first.from_line w p [] nz (omega (arith, bits-le w))
                    first.ascends in
                rw (serve_all, nz, served)
                  (ap some (
                    raised-same 0 start w (entries p) ms [] tt
                      (λ n le. first.same_files n (omega arith))))
          ])
  ]
