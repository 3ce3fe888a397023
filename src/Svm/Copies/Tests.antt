-- ===== src/Svm/Copies/Tests.antt =====
-- Copies of five pages between devices.
use tapasco.Base.{ℕ, ◌≡◌, refl, true, false, List, [], ◌∷◌, length, some, ok, arith}
use tapasco.Svm.Copies.{
  c2h, h2c, wait_c2h, wait_h2c, buf_alloc, buf_map, buf_unmap, buf_free, Waits,
  copy_dev_to_dev_pcie_e2e, copy_dev_to_dev_network, copy_dev_to_dev_buffered, push_from, rounds,
  fill, empty_buffer,
}
use tapasco.Svm.Copies.Pages.{intended}
use tapasco.Svm.Copies.Direct.{Granted, pushed, copy_dev_to_dev_pcie_e2e_lem}
use tapasco.Svm.Copies.Passing.{settled, delivered}
use tapasco.Svm.Copies.Buffered.{matched, copy_dev_to_dev_buffered_lem}
use tapasco.Svm.Copies.Network.{streamed, prepared, sources, places, copy_dev_to_dev_network_lem}

-- The core never reports more than 3 commands, and no wait fails.
abbrev quick : Waits
quick = record { cmd_cnt = λ i. 3; when_full = λ i. ok; c2h_done = λ i. ok; h2c_done = λ i. ok }

quick-Granted : Granted quick
quick-Granted = record { when_full = λ i. refl; c2h_done = λ i. refl; h2c_done = λ i. refl }

-- Two runs and a single page, of a device whose first frame is 1000.
abbrev frames : List ℕ
frames = 1003 ∷ 1004 ∷ 1010 ∷ 1011 ∷ 1000 ∷ []

copy_dev_to_dev_pcie_e2e_lem_example :
    ((copy_dev_to_dev_pcie_e2e 6 quick 1000 0x800000 frames).0 ≡ ok)
    × (pushed (copy_dev_to_dev_pcie_e2e 6 quick 1000 0x800000 frames).1
        ≡ intended 1000 0x800000 0 frames)
copy_dev_to_dev_pcie_e2e_lem_example =
    copy_dev_to_dev_pcie_e2e_lem 6 quick 1000 0x800000 frames quick-Granted (omega arith)
      (omega arith)

three_commands :
    (copy_dev_to_dev_pcie_e2e 6 quick 1000 0x800000 frames).1
    ≡ c2h 0x800000 0x3000 2 false
      ∷ c2h 0x802000 0xA000 2 false
      ∷ c2h 0x804000 0 1 false
      ∷ wait_c2h
      ∷ []
unfolding copy_dev_to_dev_pcie_e2e push_from
three_commands = refl

copy_dev_to_dev_network_lem_example :
    ((copy_dev_to_dev_network 5 quick 1000 0x800000 frames).0 ≡ ok)
    × (streamed (copy_dev_to_dev_network 5 quick 1000 0x800000 frames).1 ≡ sources 1000 frames)
    × (prepared (copy_dev_to_dev_network 5 quick 1000 0x800000 frames).1
        ≡ places 0x800000 0 (length frames))
copy_dev_to_dev_network_lem_example =
    copy_dev_to_dev_network_lem 5 quick 1000 0x800000 frames quick-Granted (omega arith)
      (omega arith)

abbrev places_of_device : List ℕ
places_of_device = 2000 ∷ 2001 ∷ 2002 ∷ 2003 ∷ 2004 ∷ []

copy_dev_to_dev_buffered_lem_example :
    ((copy_dev_to_dev_buffered 6 quick true true 1000 2000 0x40000 frames places_of_device).0 ≡ ok)
    × (delivered 0x40000 settled []
          (copy_dev_to_dev_buffered 6 quick true true 1000 2000 0x40000 frames places_of_device).1
        ≡ some (matched 1000 2000 frames places_of_device))
copy_dev_to_dev_buffered_lem_example =
    copy_dev_to_dev_buffered_lem 6 quick 1000 2000 0x40000 frames places_of_device quick-Granted
      (omega arith) (omega arith) (refl, (refl, (refl, (refl, tt)))) refl (omega arith)

-- One round brings the five pages to consecutive addresses.
buffered_commands :
    (copy_dev_to_dev_buffered 6 quick true true 1000 2000 0x40000 frames places_of_device).1
    ≡ buf_alloc
      ∷ buf_map
      ∷ c2h 0x40000 0x3000 2 false
      ∷ c2h 0x42000 0xA000 2 false
      ∷ c2h 0x44000 0 1 false
      ∷ wait_c2h
      ∷ h2c 0x40000 0 5 false
      ∷ wait_h2c
      ∷ buf_unmap
      ∷ buf_free
      ∷ []
unfolding copy_dev_to_dev_buffered rounds fill empty_buffer
buffered_commands = refl
