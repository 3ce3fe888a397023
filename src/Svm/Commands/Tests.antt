-- ===== src/Svm/Commands/Tests.antt =====
-- Transfers of pages of runtime/kernel/pcie/pcie_svm.c at concrete sizes.
use tapasco.Base.{◌≡◌, false, [], ◌∷◌, arith}
use tapasco.Svm.Commands.{init_c2h_dma, init_h2c_dma}
use tapasco.Svm.Commands.Transfers.{pages, device_addrs, transfer_commands}

-- The three commands of 4096, 4096 and 1808 pages all write from the same address on.
transfer_commands_example :
    let h2c = init_h2c_dma 4 65536 8192 10000 false false in
    let c2h = init_c2h_dma 4 65536 8192 10000 false in
    (pages h2c ≡ 10000)
    × (pages c2h ≡ 10000)
    × (device_addrs h2c ≡ 8192 ∷ 8192 ∷ 8192 ∷ [])
    × (device_addrs c2h ≡ 8192 ∷ 8192 ∷ 8192 ∷ [])
transfer_commands_example = transfer_commands 3 65536 8192 10000 false false (omega arith)
