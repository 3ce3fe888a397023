-- ===== src/Base/Stages.antt =====
-- Bringing something up in stages: what is held, and the labels that give it back when a later stage
-- fails.
use Prim.Native.Nat.{ℕ}
use mathlib.Core.Path.{◌≡◌, refl}
use mathlib.Core.Logic.{◌≢◌}
use mathlib.Core.Option.{Option, none, some}
use mathlib.Core.List.{List, [], ◌∷◌, ◌++◌, append_assoc}
use native.Mathlib.Omega.{arith}
use tapasco.Base.Tests.{◌==◌, if◌then◌else◌}
use tapasco.Base.Results.{Ret, ok, err}

-- The resources held, each a number, the last one first. `none`: one was given back that was not
-- held.
abbrev pub Held : Type 0
Held = Option (List ℕ)

abbrev pub remove : ℕ → List ℕ → Held
remove r [] = none
remove r (x ∷ xs) =
    if r == x then some xs else elim (remove r xs) [ none ↦ none | some ys ↦ some (x ∷ ys) ]

abbrev pub acquire : ℕ → Held → Held
acquire r none = none
acquire r (some h) = some (r ∷ h)

abbrev pub release : ℕ → Held → Held
release r none = none
release r (some h) = remove r h

-- A call that acquires `r` unless it fails.
abbrev pub grab : Ret → ℕ → Held → Ret × Held
grab ok r h = (ok, acquire r h)
grab (err e) r h = (err e, h)

abbrev pub on_error : (Held → Held) → Ret × Held → Ret × Held
on_error label (ok, h) = (ok, h)
on_error label (err e, h) = (err e, label h)

abbrev pub after : (Held → Held) → (Held → Ret × Held) → Ret × Held → Ret × Held
after label rest (ok, h) = on_error label (rest h)
after label rest (err e, h) = (err e, h)

-- A call, the label that undoes it when what follows fails, and what follows.
unfoldable pub call : (Held → Ret × Held) → (Held → Held) → (Held → Ret × Held) → Held → Ret × Held
call f label rest h = after label rest (f h)

abbrev pub done : Held → Ret × Held
done h = (ok, h)

-- A failure gives everything back.
abbrev pub Restores : (Held → Ret × Held) → Type 0
Restores f = (h : List ℕ) → (f (some h)).0 ≢ ok → (f (some h)).1 ≡ some h

-- A success holds `rs` beside what was held.
abbrev pub Holds : List ℕ → (Held → Ret × Held) → Type 0
Holds rs f = (h : List ℕ) → (f (some h)).0 ≡ ok → (f (some h)).1 ≡ some (rs ++ h)

pub done-Restores : Restores done
done-Restores h f = absurd (f refl)

pub done-Holds : Holds [] done
done-Holds h f = refl

pub grab-Restores : (o : Ret) (r : ℕ) → Restores (grab o r)
grab-Restores ok r h f = absurd (f refl)
grab-Restores (err e) r h f = refl

pub grab-Holds : (o : Ret) (r : ℕ) → Holds (r ∷ []) (grab o r)
grab-Holds ok r h f = refl
grab-Holds (err e) r h f = ground arith

-- A label that gives back what the call before it acquired.
abbrev pub Undoes : (Held → Held) → List ℕ → Type 0
Undoes label rs = (h : List ℕ) → label (some (rs ++ h)) ≡ some h

pub release-Undoes : (r : ℕ) → Undoes (release r) (r ∷ [])
release-Undoes r h = ground arith

module _ (rs : List ℕ) (f : Held → Ret × Held) (label : Held → Held)
    (rest : Held → Ret × Held) where
  pub call-Restores :
      Restores f → Holds rs f → Undoes label rs → Restores rest → Restores (call f label rest)
  unfolding call
  call-Restores fails holds undoes back h e =
      ground (arith, fails h, holds h, undoes h, back (rs ++ h))

  pub call-Holds : (qs : List ℕ) → Holds rs f → Holds qs rest → Holds (qs ++ rs) (call f label rest)
  unfolding call
  call-Holds qs holds more h e = ground (arith, holds h, more (rs ++ h), append_assoc qs rs h)

-- A stage that acquires one resource, and the label that gives it back.
pub grabbed-Restores :
    (o : Ret) (r : ℕ) (rest : Held → Ret × Held)
    → Restores rest
    → Restores (call (grab o r) (release r) rest)
grabbed-Restores o r rest =
    call-Restores (r ∷ []) (grab o r) (release r) rest (grab-Restores o r) (grab-Holds o r)
      (release-Undoes r)

pub grabbed-Holds :
    (o : Ret) (r : ℕ) (qs : List ℕ) (rest : Held → Ret × Held)
    → Holds qs rest
    → Holds (qs ++ r ∷ []) (call (grab o r) (release r) rest)
grabbed-Holds o r qs rest = call-Holds (r ∷ []) (grab o r) (release r) rest qs (grab-Holds o r)
