-- ===== src/Svm/Pages/Tests.antt =====
-- Pages given back in two runs (runtime/kernel/pcie/pcie_svm.c).
use tapasco.Base.{ℕ, ◌≡◌, ◌||◌, true, List, [], ◌∷◌, arith}
use tapasco.Svm.Memory.{Block}
use tapasco.Svm.Memory.Invariant.{IsValid}
use tapasco.Svm.Memory.Cover.{is_free}
use tapasco.Svm.Pages.{handle_device_pages_free}
use tapasco.Svm.Pages.Free.{in_pages, AreHeld, pages_free-is_free}

abbrev blocks : List Block
blocks = record { base_addr = 65536; size = 4096 } ∷ []

abbrev frames : List ℕ
frames = 1004 ∷ 1005 ∷ 1001 ∷ []

frames-AreHeld : AreHeld (is_free blocks) 1000 frames
frames-AreHeld = (
  (omega arith, omega arith, omega arith),
  λ x i. ground arith,
  (
    (omega arith, omega arith, omega arith),
    λ x i. ground arith,
    ((omega arith, omega arith, omega arith), λ x i. ground arith, tt),
  ),
)

pages_free-is_free_example :
    IsValid (handle_device_pages_free 3 (λ p. true) 1000 frames blocks)
    × ((x : ℕ)
        → is_free (handle_device_pages_free 3 (λ p. true) 1000 frames blocks) x
          ≡ (is_free blocks x || in_pages 1000 frames x))
pages_free-is_free_example =
    pages_free-is_free 3 1000 frames blocks (omega arith) (omega arith) frames-AreHeld
