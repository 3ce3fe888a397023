-- ===== src/Ioctl/Run.antt =====
-- Any sequence of opens, closes and calls on the control file, runtime/kernel/tlkm/tlkm.c and
-- tlkm_ioctl.c.
use tapasco.Base.{
  ℕ, ◌+◌, ◌-◌, ◌%◌, ◌^◌, ◌<◌, ◌≡◌, refl, sym, ◌∙◌, Bool, true, false, List, [], ◌∷◌, some, length,
  get_elem?, remove_at, arith, Option-cases, inl, inr,
}
use mathlib.Core.Path.{subst}
use native.Mathlib.Nat.{add-zero}
use tapasco.Ioctl.{
  File, Kernel, Call, opens, closes, creates, destroys, tlkm_miscdev_open, tlkm_miscdev_release,
  step, run,
}
use tapasco.Ioctl.Count.{held_files, Counted, Counted-more, beside}
use tapasco.Ioctl.Invariant.{
  IsCounted, create-Post, destroy-Post, release_all_lem, after-IsCounted, held_files-append,
  AllKnown-append, held_files-remove_at, AllKnown-remove_at,
}

-- Opening, also when it fails, changes no count.
open-IsCounted :
    (n : ℕ) (k : Kernel) (granted : Bool)
    → IsCounted n k
    → IsCounted (n + 1) (tlkm_miscdev_open granted k).1
unfolding tlkm_miscdev_open
open-IsCounted n k true v = record {
  counted =
      Counted-more n (n + 1) k.refs (held_files k.files) _ (omega arith) (held_files-append k.files)
        v.counted;
  known = AllKnown-append k.files v.known;
}
open-IsCounted n k false v = record {
  counted =
      Counted-more n (n + 1) k.refs (held_files k.files) _ (omega arith) (λ q b. refl) v.counted;
  known = v.known;
}

pub close-IsCounted :
    (n : ℕ) (k : Kernel) (i : ℕ) (f : File)
    → n < 2 ^ 64
    → IsCounted n k
    → get_elem? k.files i ≡ some f
    → (k' : Kernel) × (tlkm_miscdev_release i f k ≡ some k')
      × IsCounted (n + 1) k'
      × (k'.bus ≡ k.bus)
unfolding tlkm_miscdev_release
close-IsCounted n k i f room v e =
    let (known, rest) = AllKnown-remove_at k.files i v.known e in
    let (refs, done, counts) =
      release_all_lem n (held_files (remove_at i k.files)) k.refs f room known (
        Counted-more n n k.refs (held_files k.files) _ (omega arith)
          (λ q b. sym (held_files-remove_at k.files i f q b e)) v.counted) in
    (
      record k {
        refs = refs;
        files = remove_at i k.files;
        opened_counter = (k.opened_counter + (2 ^ 32 - 1)) % 2 ^ 32;
      },
      rw (done, tlkm_miscdev_release) refl,
      record {
        counted =
            Counted-more n (n + 1) refs (held_files (remove_at i k.files)) _ (omega arith)
              (λ q b. refl) counts;
        known = rest;
      },
      refl,
    )

pub file-Counted :
    (n : ℕ) (k : Kernel) (i : ℕ) (f : File)
    → IsCounted n k
    → get_elem? k.files i ≡ some f
    → Counted n k.refs (beside f (held_files (remove_at i k.files)))
file-Counted n k i f v e =
    Counted-more n n k.refs (held_files k.files) _ (omega arith)
      (λ q b. sym (held_files-remove_at k.files i f q b e)) v.counted

same-IsCounted :
    (m : ℕ) (k : Kernel) {k' : Kernel} → some k ≡ some k' → IsCounted m k → IsCounted m k'
same-IsCounted m k {k'} e v = let same : k ≡ k' = ground arith in rw (← same) v

waits-IsCounted : (n : ℕ) (k : Kernel) → IsCounted n k → IsCounted (n + 1) k
waits-IsCounted n k v = record {
  counted =
      Counted-more n (n + 1) k.refs (held_files k.files) _ (omega arith) (λ q b. refl) v.counted;
  known = v.known;
}

pub step-IsCounted :
    (n : ℕ) (k : Kernel) (c : Call) {k' : Kernel}
    → n + 1 < 2 ^ 64
    → IsCounted n k
    → step k c ≡ some k'
    → IsCounted (n + 1) k'
unfolding step
step-IsCounted n k (opens granted) room v e =
    same-IsCounted (n + 1) _ e (open-IsCounted n k granted v)
step-IsCounted n k (closes i) room v e = elim (Option-cases (get_elem? k.files i)) [
  | inl closed ↦ same-IsCounted (n + 1) k (rw (closed, step) at e) (waits-IsCounted n k v)
  | inr (f, there) ↦
      let (k'', done, v', _) = close-IsCounted n k i f (omega arith) v there in
      same-IsCounted (n + 1) k'' (sym done ∙ (rw (there, step) at e)) v'
]
step-IsCounted n k (creates i copied granted dev_id access) room v e =
    elim (Option-cases (get_elem? k.files i)) [
      | inl closed ↦ same-IsCounted (n + 1) k (rw (closed, step) at e) (waits-IsCounted n k v)
      | inr (f, there) ↦
          after-IsCounted n k i f _ v there
            (create-Post n (held_files (remove_at i k.files)) k.refs f room
              (AllKnown-remove_at k.files i v.known there).0 (file-Counted n k i f v there) copied
              granted k.bus dev_id access)
            (rw (there, step) at e)
    ]
step-IsCounted n k (destroys i copied dev_id access) room v e =
    elim (Option-cases (get_elem? k.files i)) [
      | inl closed ↦ same-IsCounted (n + 1) k (rw (closed, step) at e) (waits-IsCounted n k v)
      | inr (f, there) ↦
          after-IsCounted n k i f _ v there
            (destroy-Post n (held_files (remove_at i k.files)) k.refs f room
              (AllKnown-remove_at k.files i v.known there).0 (file-Counted n k i f v there) copied
              k.bus dev_id access)
            (rw (there, step) at e)
    ]

-- Any sequence of calls, shorter than 2^64, that starts in a state satisfying the invariant and
-- reaches a state at all, with any arguments and with failing calls among them, reaches one in
-- which every reference count is the number of entries of that device and kind in open files, and
-- no exclusive user stands beside another exclusive or a shared one.
pub run-IsCounted :
    (n : ℕ) (k : Kernel) (cs : List Call) {k' : Kernel}
    → n + length cs < 2 ^ 64
    → IsCounted n k
    → run k cs ≡ some k'
    → IsCounted (n + length cs) k'
unfolding run
run-IsCounted n k [] room v e = same-IsCounted (n + 0) k e (rw (add-zero n) v)
run-IsCounted n k (c ∷ cs) {k'} room v e = elim (Option-cases (step k c)) [
  | inl fault ↦ absurd (ground (arith))
  | inr (k'', there) ↦
      let rest =
        run-IsCounted (n + 1) k'' cs (omega arith) (step-IsCounted n k c (omega arith) v there)
          (rw (there, run) at e) in
      subst (λ m. IsCounted m k') (omega arith) rest
]
