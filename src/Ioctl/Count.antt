-- ===== src/Ioctl/Count.antt =====
-- Counting the entries of open files, runtime/kernel/tlkm/tlkm.c and tlkm_ioctl.c, and what an
-- acquisition or a release does to counts that agree with them.
use tapasco.Base.{
  ℕ, ◌+◌, ◌^◌, ◌≤◌, ◌<◌, ◌≡◌, ◌&&◌, List, [], ◌∷◌, some, ◌==◌, if◌then◌else◌, Ret, ok, arith, ◌≢◌,
  Option-cases, inl, inr,
}
use tapasco.Device.{
  RefCnt, access_types, dec, tlkm_device_acquire, tlkm_device_release, write_count,
}
use tapasco.Device.Access.{IsShareable}
use tapasco.Ioctl.{File, Refs, update, release}

-- 1 for the entries of the device `p` and the kind `a`.
abbrev pub hit : ℕ → ℕ → ℕ → ℕ → ℕ
hit p a q b = if p == q && a == b then 1 else 0

-- How many entries of a file are of the device `q` and the kind `b`.
abbrev pub held : File → ℕ → ℕ → ℕ
held [] q b = 0
held (e ∷ es) q b = hit e.pdev e.access q b + held es q b

abbrev pub held_files : List File → ℕ → ℕ → ℕ
held_files [] q b = 0
held_files (f ∷ fs) q b = held f q b + held_files fs q b

-- Every entry is of one of the three kinds.
abbrev pub Known : File → Type 0
Known [] = Unit {0}
Known (e ∷ es) = (e.access < access_types) × Known es

abbrev pub AllKnown : List File → Type 0
AllKnown [] = Unit {0}
AllKnown (f ∷ fs) = Known f × AllKnown fs

-- The reference counts of every device are the numbers of `c`, at most `n` for each device, and
-- obey the rules of sharing.
abbrev pub Counted : ℕ → Refs → (ℕ → ℕ → ℕ) → Type 0
Counted n refs c =
    (q : ℕ)
    → ((refs q).exclusive ≡ c q 0)
      × ((refs q).monitor ≡ c q 1)
      × ((refs q).shared ≡ c q 2)
      × IsShareable (refs q)
      × (c q 0 + c q 1 + c q 2 ≤ n)

-- The counts of a file beside those of `c`.
abbrev pub beside : File → (ℕ → ℕ → ℕ) → ℕ → ℕ → ℕ
beside f c q b = held f q b + c q b

pub Counted-more :
    (n m : ℕ) (refs : Refs) (c c' : ℕ → ℕ → ℕ)
    → n ≤ m
    → ((q b : ℕ) → c' q b ≡ c q b)
    → Counted n refs c
    → Counted m refs c'
Counted-more n m refs c c' h e v q = omega (arith, v q, e q 0, e q 1, e q 2)

pub acquire-Counted :
    (n : ℕ) (refs : Refs) (c c' : ℕ → ℕ → ℕ) (p a : ℕ) {r : RefCnt}
    → n + 1 < 2 ^ 64
    → tlkm_device_acquire (refs p) a ≡ some (ok, r)
    → ((q b : ℕ) → c' q b ≡ hit p a q b + c q b)
    → Counted n refs c
    → (a < access_types) × Counted (n + 1) (update refs p r) c'
unfolding tlkm_device_acquire
acquire-Counted n refs c c' p a room e h v =
    (ground arith, λ q. ground (arith, v q, v p, h q 0, h q 1, h q 2))

pub refuse-Counted :
    (n : ℕ) (refs : Refs) (c c' : ℕ → ℕ → ℕ) (p a : ℕ) {x : Ret} {r : RefCnt}
    → tlkm_device_acquire (refs p) a ≡ some (x, r)
    → x ≢ ok
    → ((q b : ℕ) → c' q b ≡ c q b)
    → Counted n refs c
    → Counted (n + 1) (update refs p r) c'
unfolding tlkm_device_acquire
refuse-Counted n refs c c' p a e ne h v q = ground (arith, v q, v p, h q 0, h q 1, h q 2)

pub release-Counted :
    (n : ℕ) (refs : Refs) (c c' : ℕ → ℕ → ℕ) (p a : ℕ)
    → n < 2 ^ 64
    → a < access_types
    → ((q b : ℕ) → c q b ≡ hit p a q b + c' q b)
    → Counted n refs c
    → (refs' : Refs) × (release refs p a ≡ some refs') × Counted n refs' c'
unfolding tlkm_device_release
release-Counted n refs c c' p a room k h v = elim (Option-cases (write_count dec (refs p) a)) [
  | inl e ↦ absurd (ground arith)
  | inr (r, e) ↦ (
    update refs p r,
    ground (arith, v p, h p 0, h p 1, h p 2),
    λ q. ground (arith, v q, v p, h q 0, h q 1, h q 2, h p 0, h p 1, h p 2),
  )
]
