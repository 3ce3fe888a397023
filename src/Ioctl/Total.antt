-- ===== src/Ioctl/Total.antt =====
-- When the calls of runtime/kernel/tlkm/tlkm_ioctl.c stay inside the objects that they mean.
use mathlib.Core.Path.{subst}
use tapasco.Base.{
  ℕ, ◌+◌, ◌^◌, ◌<◌, ◌≡◌, refl, Bool, true, false, List, [], ◌∷◌, Option, none, some, length,
  get_elem?, remove_at, Ret, ok, err, arith, ◌⊎◌, ◌≢◌, Option-cases, inl, inr, get_elem?-length,
}
use tapasco.Bus.{Bus, Found, null, device, not_a_device, tlkm_bus_get_device}
use tapasco.Bus.Lookup.{get_device_in_range, get_device_empty}
use tapasco.Device.{RefCnt, access_types, tlkm_device_acquire}
use tapasco.Ioctl.{
  File, Refs, Result, Kernel, Call, opens, closes, creates, destroys, find_entry, acquired,
  acquire_found, destroy_entry, destroy_found, tlkm_ioctl_create_device, tlkm_ioctl_destroy_device,
  tlkm_miscdev_open, after, step, run,
}
use tapasco.Ioctl.Count.{held_files, Known, Counted, beside, release-Counted}
use tapasco.Ioctl.Invariant.{IsCounted, Known-remove_at, held-remove_at, AllKnown-remove_at}
use tapasco.Ioctl.Run.{step-IsCounted, close-IsCounted, file-Counted}

-- The calls of a client that asks for one of the three kinds of access, and for a device that is on
-- the bus unless the bus is empty.
abbrev pub Sane : Bus → Call → Type 0
Sane bus (creates i copied granted dev_id access) =
    (access < access_types) × ((dev_id < length bus.devices) ⊎ (bus.devices ≡ []))
Sane bus _ = Unit {0}

abbrev pub AllSane : Bus → List Call → Type 0
AllSane bus [] = Unit {0}
AllSane bus (c ∷ cs) = Sane bus c × AllSane bus cs

abbrev Returns {ℓ} : {A : Type ℓ} → Option A → Type ℓ
Returns {A} o = (a : A) × (o ≡ some a)

lookup_sane :
    (bus : Bus) (dev_id : ℕ)
    → (dev_id < length bus.devices) ⊎ (bus.devices ≡ [])
    → tlkm_bus_get_device bus dev_id ≢ not_a_device
lookup_sane bus dev_id (inl h) e =
    let (m, there) = get_elem?-length bus.devices dev_id h in
    ground (arith, get_device_in_range bus dev_id there)
lookup_sane bus dev_id (inr h) e = ground (arith, get_device_empty bus dev_id h)

acquire-ne-none : (r : RefCnt) (a : ℕ) → a < access_types → tlkm_device_acquire r a ≢ none
unfolding tlkm_device_acquire
acquire-ne-none r a h e = ground arith

acquired-Returns :
    (p a : ℕ) (refs : Refs) (f : File) (o : Option (Ret × RefCnt))
    → o ≢ none
    → Returns (acquired p a refs f o)
acquired-Returns p a refs f none h = absurd (h refl)
acquired-Returns p a refs f (some (ok, r)) h = (_, refl)
acquired-Returns p a refs f (some (err x, r)) h = (_, refl)

create_found-Returns :
    (a : ℕ) (refs : Refs) (f : File) (d : Found)
    → a < access_types
    → d ≢ not_a_device
    → Returns (acquire_found d a refs f)
create_found-Returns a refs f null h ne = (_, refl)
create_found-Returns a refs f not_a_device h ne = absurd (ne refl)
create_found-Returns a refs f (device m) h ne =
    acquired-Returns m.ptr a refs f _ (acquire-ne-none (refs m.ptr) a h)

create-Returns :
    (copied granted : Bool) (bus : Bus) (dev_id a : ℕ) (refs : Refs) (f : File)
    → a < access_types
    → tlkm_bus_get_device bus dev_id ≢ not_a_device
    → Returns (tlkm_ioctl_create_device copied granted bus dev_id a refs f)
unfolding tlkm_ioctl_create_device
create-Returns false granted bus dev_id a refs f h ne = (_, refl)
create-Returns true false bus dev_id a refs f h ne = (_, refl)
create-Returns true true bus dev_id a refs f h ne = create_found-Returns a refs f _ h ne

destroy_entry-Returns :
    (n : ℕ) (c : ℕ → ℕ → ℕ) (refs : Refs) (f : File) (p a : ℕ) (o : Option ℕ)
    → n < 2 ^ 64
    → Known f
    → Counted n refs (beside f c)
    → find_entry p a f ≡ o
    → Returns (destroy_entry p a refs f o)
destroy_entry-Returns n c refs f p a none room known counted e = (_, refl)
destroy_entry-Returns n c refs f p a (some i) room known counted e =
    let (known_a, known') = Known-remove_at p a i f e known in
    let (refs', done, counts) =
      release-Counted n refs (beside f c) (beside (remove_at i f) c) p a room known_a
        (λ q b. omega (arith, held-remove_at p a i f q b e)) counted in
    rw done (_, refl)

destroy_found-Returns :
    (n : ℕ) (c : ℕ → ℕ → ℕ) (refs : Refs) (f : File) (a : ℕ) (o : Option ℕ)
    → n < 2 ^ 64
    → Known f
    → Counted n refs (beside f c)
    → Returns (destroy_found o a refs f)
destroy_found-Returns n c refs f a none room known counted = (_, refl)
destroy_found-Returns n c refs f a (some p) room known counted =
    destroy_entry-Returns n c refs f p a _ room known counted refl

destroy-Returns :
    (n : ℕ) (c : ℕ → ℕ → ℕ) (copied : Bool) (bus : Bus) (dev_id a : ℕ) (refs : Refs) (f : File)
    → n < 2 ^ 64
    → Known f
    → Counted n refs (beside f c)
    → Returns (tlkm_ioctl_destroy_device copied bus dev_id a refs f)
unfolding tlkm_ioctl_destroy_device
destroy-Returns n c false bus dev_id a refs f room known counted = (_, refl)
destroy-Returns n c true bus dev_id a refs f room known counted =
    destroy_found-Returns n c refs f a _ room known counted

after-Returns :
    (k : Kernel) (i : ℕ) (r : Result)
    → Returns r
    → (k' : Kernel) × (after k i r ≡ some k') × (k'.bus ≡ k.bus)
after-Returns k i none (a, e) = absurd (ground arith)
after-Returns k i (some (x, refs, f)) e = (_, refl, refl)

pub step-Returns :
    (n : ℕ) (k : Kernel) (c : Call)
    → n < 2 ^ 64
    → IsCounted n k
    → Sane k.bus c
    → (k' : Kernel) × (step k c ≡ some k') × (k'.bus ≡ k.bus)
unfolding step tlkm_miscdev_open
step-Returns n k (opens true) room v s = (_, refl, refl)
step-Returns n k (opens false) room v s = (_, refl, refl)
step-Returns n k (closes i) room v s = elim (Option-cases (get_elem? k.files i)) [
  | inl closed ↦ (k, rw (closed, step) refl, refl)
  | inr (f, there) ↦
      let (k', done, v', same) = close-IsCounted n k i f room v there in
      (k', rw (there, step) done, same)
]
step-Returns n k (creates i copied granted dev_id access) room v s =
    elim (Option-cases (get_elem? k.files i)) [
      | inl closed ↦ (k, rw (closed, step) refl, refl)
      | inr (f, there) ↦
          rw (there, step)
            (after-Returns k i _ (
              create-Returns copied granted k.bus dev_id access k.refs f s.0
                (lookup_sane k.bus dev_id s.1)))
    ]
step-Returns n k (destroys i copied dev_id access) room v s =
    elim (Option-cases (get_elem? k.files i)) [
      | inl closed ↦ (k, rw (closed, step) refl, refl)
      | inr (f, there) ↦
          rw (there, step)
            (after-Returns k i _ (
              destroy-Returns n (held_files (remove_at i k.files)) copied k.bus dev_id access k.refs
                f room (AllKnown-remove_at k.files i v.known there).0
                (file-Counted n k i f v there)))
    ]

-- From a state that satisfies the invariant (every reference count is the number of entries in
-- open files, and devices are shared by the rules), any sequence of opens, closes, creates and
-- destroys, shorter than 2^64, in which each create asks for one of the three kinds of access and
-- for a device in range unless the bus is empty, runs without touching memory outside the objects
-- that it means, and ends in a state that satisfies the invariant.
pub run_total :
    (n : ℕ) (k : Kernel) (cs : List Call)
    → n + length cs < 2 ^ 64
    → IsCounted n k
    → AllSane k.bus cs
    → (k' : Kernel) × (run k cs ≡ some k') × IsCounted (n + length cs) k'
unfolding run
run_total n k [] room v s = (k, refl, subst (λ m. IsCounted m k) (omega arith) v)
run_total n k (c ∷ cs) room v (s, ss) =
    let (k', there, same) = step-Returns n k c (omega arith) v s in
    let (k'', done, v') =
      run_total (n + 1) k' cs (omega arith) (step-IsCounted n k c (omega arith) v there)
        (rw same ss) in
    (k'', rw (there, run) done, subst (λ m. IsCounted m k'') (omega arith) v')
