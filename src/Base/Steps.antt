-- ===== src/Base/Steps.antt =====
-- Stages over a state that holds resources beside other things: what is held after a failure and
-- after a success.
use mathlib.Core.Path.{◌≡◌}
use mathlib.Core.Logic.{◌≢◌}
use mathlib.Core.Option.{Option, some}
use mathlib.Core.List.{List, ◌++◌, append_assoc}
use native.Mathlib.Omega.{arith}
use tapasco.Base.Results.{Ret, ok, err}

module _ {S : Type 0} where
  abbrev pub on_error : (S → S) → Ret × S → Ret × S
  on_error label (ok, s) = (ok, s)
  on_error label (err e, s) = (err e, label s)

  abbrev pub after : (S → S) → (S → Ret × S) → Ret × S → Ret × S
  after label rest (ok, s) = on_error label (rest s)
  after label rest (err e, s) = (err e, s)

  -- A stage, the label that undoes it when what follows fails, and what follows.
  unfoldable pub stage : (S → Ret × S) → (S → S) → (S → Ret × S) → S → Ret × S
  stage f label rest s = after label rest (f s)

-- What a stage does to the list that `held` reads of the state, whose last entry stands first.
module _ {S R : Type 0} (held : S → Option (List R)) where
  abbrev pub Restores : (S → Ret × S) → Type 0
  Restores f = (s : S) (h : List R) → held s ≡ some h → (f s).0 ≢ ok → held (f s).1 ≡ some h

  abbrev pub Holds : List R → (S → Ret × S) → Type 0
  Holds rs f = (s : S) (h : List R) → held s ≡ some h → (f s).0 ≡ ok → held (f s).1 ≡ some (rs ++ h)

  abbrev pub Undoes : (S → S) → List R → Type 0
  Undoes label rs = (s : S) (h : List R) → held s ≡ some (rs ++ h) → held (label s) ≡ some h

  module _ (rs : List R) (f : S → Ret × S) (label : S → S) (rest : S → Ret × S) where
    pub stage-Restores :
        Restores f → Holds rs f → Undoes label rs → Restores rest → Restores (stage f label rest)
    unfolding stage
    stage-Restores fails holds undoes back s h e bad =
        ground (arith, fails s h, holds s h, undoes (rest (f s).1).1 h, back (f s).1 (rs ++ h))

    pub stage-Holds :
        (qs : List R) → Holds rs f → Holds qs rest → Holds (qs ++ rs) (stage f label rest)
    unfolding stage
    stage-Holds qs holds more s h e good =
        ground (arith, holds s h, more (f s).1 (rs ++ h), append_assoc qs rs h)
