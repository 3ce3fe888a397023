-- ===== src/Svm/Pages.antt =====
-- Giving the pages of device memory back to the allocator: handle_device_pages_free of
-- runtime/kernel/pcie/pcie_svm.c. A `struct page` is the number of its frame, as in the array of all
-- pages that the frames number.
pub mod Free
mod Tests
use tapasco.Base.{ℕ, zero, suc, ◌+◌, ◌*◌, Bool, List, [], ◌∷◌, ◌==◌, if◌then◌else◌}
use tapasco.Svm.Memory.{Block, free_device_memory}
use tapasco.Svm.Commands.{pfn_to_dev_addr}
use tapasco.Svm.Faults.{page_size}

abbrev pub is_contiguous_page : ℕ → ℕ → Bool
is_contiguous_page page last = page == last + 1

-- How many pages behind `last` continue its run of frames.
abbrev pub contiguous_behind : ℕ → List ℕ → ℕ
contiguous_behind last [] = 0
contiguous_behind last (p ∷ ps) =
    if is_contiguous_page p last then suc (contiguous_behind p ps) else 0

abbrev pub skip : ℕ → List ℕ → List ℕ
skip zero ps = ps
skip (suc n) [] = []
skip (suc n) (p ∷ ps) = skip n ps

-- The loop, one run of pages a round; `granted` is whether a run gets its list entry, by its first page.
pub handle_device_pages_free : ℕ → (ℕ → Bool) → ℕ → List ℕ → List Block → List Block
handle_device_pages_free zero granted base_pfn pages blocks = blocks
handle_device_pages_free (suc fuel) granted base_pfn [] blocks = blocks
handle_device_pages_free (suc fuel) granted base_pfn (p ∷ ps) blocks =
    let n = contiguous_behind p ps in
    handle_device_pages_free fuel granted base_pfn (skip n ps)
      (free_device_memory (granted p) blocks (pfn_to_dev_addr base_pfn p) (suc n * page_size))
