-- ===== src/Ioctl/Invariant.antt =====
-- The invariant of the control file, runtime/kernel/tlkm/tlkm.c and tlkm_ioctl.c: every reference
-- count is the number of entries that open files hold, and devices are shared by the rules.
use tapasco.Base.{
  ℕ, zero, suc, ◌+◌, ◌^◌, ◌<◌, ◌≡◌, refl, Bool, true, false, ◌&&◌, List, [], ◌∷◌, ◌++◌, Option,
  none, some, ◌==◌, get_elem?, set, remove_at, Ret, ok, err, enxio, eacces, enomem, enodev, arith,
  Option-cases, inl, inr, Bool-cases,
}
use tapasco.Bus.{Bus, Found, null, device, not_a_device, tlkm_bus_get_device}
use tapasco.Device.{RefCnt, access_types, tlkm_device_acquire}
use tapasco.Ioctl.{
  File, Refs, Result, Kernel, find_entry, release_all, acquired, acquire_found, destroy_entry,
  destroy_found, pointer, tlkm_ioctl_create_device, tlkm_ioctl_destroy_device, after,
}
use tapasco.Ioctl.Count.{
  hit, held, held_files, Known, AllKnown, Counted, Counted-more, beside, acquire-Counted,
  refuse-Counted, release-Counted,
}

pub held-remove_at :
    (p a i : ℕ) (f : File) (q b : ℕ)
    → find_entry p a f ≡ some i
    → held f q b ≡ hit p a q b + held (remove_at i f) q b
unfolding find_entry
held-remove_at p a i [] q b h = ground arith
held-remove_at p a i (e ∷ es) q b h = elim (Bool-cases (e.pdev == p && e.access == a)) [
  | inl same ↦ ground arith
  | inr other ↦ elim (Option-cases (find_entry p a es)) [
    | inl missing ↦ ground arith
    | inr (j, there) ↦
        let at : i ≡ suc j = ground arith in
        rw at (omega (arith, held-remove_at p a j es q b there))
  ]
]

pub Known-remove_at :
    (p a i : ℕ) (f : File)
    → find_entry p a f ≡ some i
    → Known f
    → (a < access_types) × Known (remove_at i f)
unfolding find_entry
Known-remove_at p a i [] h k = ground arith
Known-remove_at p a i (e ∷ es) h (k, ks) = elim (Bool-cases (e.pdev == p && e.access == a)) [
  | inl same ↦ let at : i ≡ 0 = ground arith in rw at (ground arith, ks)
  | inr other ↦ elim (Option-cases (find_entry p a es)) [
    | inl missing ↦ absurd (ground arith)
    | inr (j, there) ↦
        let at : i ≡ suc j = ground arith in
        let (kj, rest) = Known-remove_at p a j es there ks in rw at (kj, (k, rest))
  ]
]

-- What a call leaves behind in its file and in the reference counts, `c` being the entries of the
-- other files.
abbrev pub Post : ℕ → (ℕ → ℕ → ℕ) → Result → Type 0
Post n c none = Unit {0}
Post n c (some (x, refs, f)) = Counted (n + 1) refs (beside f c) × Known f

module _ (n : ℕ) (c : ℕ → ℕ → ℕ) (refs : Refs) (f : File) (room : n + 1 < 2 ^ 64) (known : Known f)
    (counted : Counted n refs (beside f c)) where
  unchanged : (x : Ret) → Post n c (some (x, refs, f))
  unchanged x = (
    Counted-more n (n + 1) refs (beside f c) (beside f c) (omega arith) (λ q b. refl) counted,
    known,
  )

  acquired-Post :
      (p a : ℕ) (o : Option (Ret × RefCnt))
      → tlkm_device_acquire (refs p) a ≡ o
      → Post n c (acquired p a refs f o)
  acquired-Post p a none e = tt
  acquired-Post p a (some (ok, r)) e =
      let (known_a, counts) =
        acquire-Counted n refs (beside f c) (beside (record { pdev = p; access = a } ∷ f) c) p a
          room e (λ q b. omega arith) counted in
      (counts, (known_a, known))
  acquired-Post p a (some (err x, r)) e =
      (refuse-Counted n refs (beside f c) (beside f c) p a e (λ k. cc) (λ q b. refl) counted, known)

  acquire_found-Post : (a : ℕ) (d : Found) → Post n c (acquire_found d a refs f)
  acquire_found-Post a null = unchanged (err enxio)
  acquire_found-Post a not_a_device = tt
  acquire_found-Post a (device m) = acquired-Post m.ptr a _ refl

  pub create-Post :
      (copied granted : Bool) (bus : Bus) (dev_id a : ℕ)
      → Post n c (tlkm_ioctl_create_device copied granted bus dev_id a refs f)
  unfolding tlkm_ioctl_create_device
  create-Post false granted bus dev_id a = unchanged (err eacces)
  create-Post true false bus dev_id a = unchanged (err enomem)
  create-Post true true bus dev_id a = acquire_found-Post a (tlkm_bus_get_device bus dev_id)

  destroy_entry-Post :
      (p a : ℕ) (o : Option ℕ) → find_entry p a f ≡ o → Post n c (destroy_entry p a refs f o)
  destroy_entry-Post p a none e = unchanged (err enodev)
  destroy_entry-Post p a (some i) e =
      let (known_a, known') = Known-remove_at p a i f e known in
      let (refs', done, counts) =
        release-Counted n refs (beside f c) (beside (remove_at i f) c) p a (omega arith) known_a
          (λ q b. omega (arith, held-remove_at p a i f q b e)) counted in
      rw done (
        Counted-more n (n + 1) refs' (beside (remove_at i f) c) (beside (remove_at i f) c)
            (omega arith) (λ q b. refl) counts,
        known',
      )

  destroy_found-Post : (a : ℕ) (o : Option ℕ) → Post n c (destroy_found o a refs f)
  destroy_found-Post a none = unchanged (err enodev)
  destroy_found-Post a (some p) = destroy_entry-Post p a _ refl

  pub destroy-Post :
      (copied : Bool) (bus : Bus) (dev_id a : ℕ)
      → Post n c (tlkm_ioctl_destroy_device copied bus dev_id a refs f)
  unfolding tlkm_ioctl_destroy_device
  destroy-Post false bus dev_id a = unchanged (err eacces)
  destroy-Post true bus dev_id a = destroy_found-Post a (pointer (tlkm_bus_get_device bus dev_id))

-- Closing a file gives back exactly what it holds.
pub release_all_lem :
    (n : ℕ) (c : ℕ → ℕ → ℕ) (refs : Refs) (f : File)
    → n < 2 ^ 64
    → Known f
    → Counted n refs (beside f c)
    → (refs' : Refs) × (release_all refs f ≡ some refs') × Counted n refs' c
unfolding release_all
release_all_lem n c refs [] room known counted =
    (refs, refl, Counted-more n n refs (beside [] c) c (omega arith) (λ q b. omega arith) counted)
release_all_lem n c refs (e ∷ es) room (k, ks) counted =
    let (refs', done, counts) =
      release-Counted n refs (beside (e ∷ es) c) (beside es c) e.pdev e.access room k
        (λ q b. omega arith) counted in
    let (refs'', all, counts') = release_all_lem n c refs' es room ks counts in
    (refs'', rw (done, release_all) all, counts')

-- Of the state: the counts are those of the entries of all open files, at most `n` for a device.
pub record IsCounted (n : ℕ) (k : Kernel) : Type 0 where
  pub counted : Counted n k.refs (held_files k.files)
  pub known : AllKnown k.files

held_files-set :
    (fs : List File) (i : ℕ) (f f' : File) (q b : ℕ)
    → get_elem? fs i ≡ some f
    → held_files (set fs i f') q b ≡ held f' q b + held_files (remove_at i fs) q b
held_files-set [] i f f' q b e = ground arith
held_files-set (g ∷ fs) zero f f' q b e = refl
held_files-set (g ∷ fs) (suc i) f f' q b e = omega (arith, held_files-set fs i f f' q b e)

pub held_files-remove_at :
    (fs : List File) (i : ℕ) (f : File) (q b : ℕ)
    → get_elem? fs i ≡ some f
    → held_files fs q b ≡ held f q b + held_files (remove_at i fs) q b
held_files-remove_at [] i f q b e = ground arith
held_files-remove_at (g ∷ fs) zero f q b e = let same : g ≡ f = ground arith in rw same
held_files-remove_at (g ∷ fs) (suc i) f q b e = omega (arith, held_files-remove_at fs i f q b e)

pub held_files-append :
    (fs : List File) (q b : ℕ) → held_files (fs ++ [] ∷ []) q b ≡ held_files fs q b
held_files-append [] q b = refl
held_files-append (g ∷ fs) q b = omega (arith, held_files-append fs q b)

pub AllKnown-append : (fs : List File) → AllKnown fs → AllKnown (fs ++ [] ∷ [])
AllKnown-append [] k = (tt, tt)
AllKnown-append (g ∷ fs) (k, ks) = (k, AllKnown-append fs ks)

AllKnown-set : (fs : List File) (i : ℕ) (f : File) → AllKnown fs → Known f → AllKnown (set fs i f)
AllKnown-set [] i f k kf = tt
AllKnown-set (g ∷ fs) zero f (k, ks) kf = (kf, ks)
AllKnown-set (g ∷ fs) (suc i) f (k, ks) kf = (k, AllKnown-set fs i f ks kf)

pub AllKnown-remove_at :
    (fs : List File) (i : ℕ) {f : File}
    → AllKnown fs
    → get_elem? fs i ≡ some f
    → Known f × AllKnown (remove_at i fs)
AllKnown-remove_at [] i k e = ground arith
AllKnown-remove_at (g ∷ fs) zero {f} (k, ks) e =
    let same : g ≡ f = ground arith in rw (← same) (k, ks)
AllKnown-remove_at (g ∷ fs) (suc i) (k, ks) e =
    let (kf, rest) = AllKnown-remove_at fs i ks e in (kf, (k, rest))

pub after-IsCounted :
    (n : ℕ) (k : Kernel) (i : ℕ) (f : File) (r : Result) {k' : Kernel}
    → IsCounted n k
    → get_elem? k.files i ≡ some f
    → Post n (held_files (remove_at i k.files)) r
    → after k i r ≡ some k'
    → IsCounted (n + 1) k'
after-IsCounted n k i f none v e post h = absurd (ground arith)
after-IsCounted n k i f (some (x, refs, f')) {k'} v e (counts, known) h =
    let same : record k { refs = refs; files = set k.files i f' } ≡ k' = ground arith in
    rw (← same) (record {
      counted =
          Counted-more (n + 1) (n + 1) refs (beside f' (held_files (remove_at i k.files))) _
            (omega arith) (λ q b. held_files-set k.files i f f' q b e) counts;
      known = AllKnown-set k.files i f' v.known known;
    })
