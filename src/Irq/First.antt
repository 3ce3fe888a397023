-- ===== src/Irq/First.antt =====
-- The first entry of the list of interrupts whose line lies in a range.
use tapasco.Base.{
  ℕ, suc, ◌≤◌, ◌<◌, ◌≡◌, refl, Bool-cases, ◌&&◌, inl, inr, List, [], ◌∷◌, Option, none, some, ltb,
  leb, ◌==◌, if◌then◌else◌, arith,
}
use tapasco.Control.{Mapping}
use tapasco.Control.Interrupts.{Ascending, next}
use tapasco.Irq.Handler.{Position, at_line}

-- The first line of the list from `lo` on and below `hi`.
abbrev pub first_in : ℕ → ℕ → List Mapping → Option ℕ
first_in lo hi [] = none
first_in lo hi (m ∷ ms) =
    if leb lo m.irq_no && ltb m.irq_no hi then some m.irq_no else first_in lo hi ms

-- The event file registered for a line.
abbrev pub event_file : ℕ → List Mapping → Option ℕ
event_file n [] = none
event_file n (m ∷ ms) = if m.irq_no == n then some m.eventfd else event_file n ms

abbrev pub entries : Position → List Mapping
entries p = p.0 ∷ p.1

pub first_in-le :
    (lo hi k f : ℕ) (ms : List Mapping) → Ascending k ms → first_in lo hi ms ≡ some f → k ≤ f
first_in-le lo hi k f [] a e = absurd (cc)
first_in-le lo hi k f (m ∷ ms) (next _ _ _ le a) e =
    ground (arith, first_in-le lo hi (suc m.irq_no) f ms a)

pub first_in_range :
    (lo hi f : ℕ) (ms : List Mapping) → first_in lo hi ms ≡ some f → (lo ≤ f) × (f < hi)
first_in_range lo hi f [] e = absurd (cc)
first_in_range lo hi f (m ∷ ms) e = ground (arith, first_in_range lo hi f ms)

pub first_in-none :
    (lo hi n : ℕ) (ms : List Mapping)
    → first_in lo hi ms ≡ none
    → lo ≤ n
    → n < hi
    → event_file n ms ≡ none
first_in-none lo hi n [] e le lt = refl
first_in-none lo hi n (m ∷ ms) e le lt = ground (arith, first_in-none lo hi n ms)

-- The entry of the first line in the range, and what stands behind it.
pub record IsFirst (lo : ℕ) (ms : List Mapping) (p : Position) : Type 0 where
  pub from_line : ℕ
  pub ascends : Ascending from_line (entries p)
  pub same_files : (n : ℕ) → lo ≤ n → event_file n (entries p) ≡ event_file n ms

pub first_in-at_line :
    (lo hi k f : ℕ) (ms : List Mapping)
    → Ascending k ms
    → first_in lo hi ms ≡ some f
    → (p : Position) × (at_line f ms ≡ some p) × IsFirst lo ms p
first_in-at_line lo hi k f [] a e = absurd (cc)
first_in-at_line lo hi k f (m ∷ ms) (next _ _ _ le a) e =
    elim (Bool-cases (leb lo m.irq_no && ltb m.irq_no hi)) [
      | inl found ↦ (
        (m, ms),
        ground (arith, found, e),
        record { from_line = k; ascends = next k m ms le a; same_files = λ n l. refl },
      )
      | inr other ↦
          let e' : first_in lo hi ms ≡ some f = ground (arith, other, e) in
          let (p, at, first) = first_in-at_line lo hi (suc m.irq_no) f ms a e' in
          let above : suc m.irq_no ≤ f = first_in-le lo hi (suc m.irq_no) f ms a e' in
          let range = first_in_range lo hi f ms e' in
          (
            p,
            ground (arith, above, at),
            record {
              from_line = first.from_line;
              ascends = first.ascends;
              same_files =
                  λ n l. ground (arith, other, above, range.0, range.1, first.same_files n l);
            },
          )
    ]
