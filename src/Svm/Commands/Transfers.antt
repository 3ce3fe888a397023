-- ===== src/Svm/Commands/Transfers.antt =====
-- The commands of a transfer of pages, and the translation of addresses and page frames
-- (runtime/kernel/pcie/pcie_svm.c).
use tapasco.Base.{
  ℕ, zero, suc, ◌+◌, ◌-◌, ◌*◌, ◌/◌, ◌%◌, ◌^◌, ◌≤◌, ◌<◌, ◌≡◌, refl, Bool, List, [], ◌∷◌, arith,
}
use tapasco.Svm.Commands.{
  Register, c2h_src_addr, c2h_start_len, h2c_dst_addr, h2c_start_len, Write, dev_addr_to_pfn,
  pfn_to_dev_addr, npages_cmd, flag, init_h2c_dma, init_c2h_dma,
}

-- The number of pages of a write to a start register, and 0 for the others.
abbrev started : Register → ℕ → ℕ
started c2h_start_len v = v % 2 ^ 32
started h2c_start_len v = v % 2 ^ 32
started _ v = 0

abbrev pub pages : List Write → ℕ
pages [] = 0
pages (w ∷ ws) = started w.reg w.value + pages ws

-- The addresses in device memory that the commands name.
abbrev pub device_addrs : List Write → List ℕ
device_addrs [] = []
device_addrs (w ∷ ws) = elim w.reg [
  | c2h_src_addr ↦ w.value ∷ device_addrs ws
  | h2c_dst_addr ↦ w.value ∷ device_addrs ws
  | _ ↦ device_addrs ws
]

-- How many commands a transfer takes.
abbrev pub commands : ℕ → ℕ
commands npages = (npages + 4095) / 4096

abbrev pub copies : ℕ → ℕ → List ℕ
copies zero a = []
copies (suc n) a = a ∷ copies n a

cmd_pages :
    (n : ℕ) (a b : Bool)
    → (npages_cmd n + 2 ^ 63 + flag a (2 ^ 62) + flag b (2 ^ 60)) % 2 ^ 32 ≡ npages_cmd n
cmd_pages n a b = ground arith

h2c_pages :
    (f host_addr dev_addr npages : ℕ) (clear network : Bool)
    → npages ≤ f * 4096
    → pages (init_h2c_dma (suc f) host_addr dev_addr npages clear network) ≡ npages
unfolding init_h2c_dma
h2c_pages f host_addr dev_addr zero clear network h = refl
h2c_pages zero host_addr dev_addr (suc n) clear network h = absurd (omega arith)
h2c_pages (suc f) host_addr dev_addr (suc n) clear network h =
    let ih =
      h2c_pages f host_addr dev_addr (suc n - npages_cmd (suc n)) clear network (ground arith) in
    ground (arith, ih)

-- The address of a page below 2^64 survives the translation to a page frame and back, for any
-- first frame of 64 bits.
pub pfn-dev_addr :
    (base_pfn k : ℕ)
    → base_pfn < 2 ^ 64
    → k < 2 ^ 52
    → pfn_to_dev_addr base_pfn (dev_addr_to_pfn base_pfn (k * 2 ^ 12)) ≡ k * 2 ^ 12
pfn-dev_addr base_pfn k h l = omega arith

c2h_cmd_pages :
    (n : ℕ) (b : Bool) → (npages_cmd n + 2 ^ 63 + flag b (2 ^ 60)) % 2 ^ 32 ≡ npages_cmd n
c2h_cmd_pages n b = ground arith

c2h_pages :
    (f host_addr dev_addr npages : ℕ) (network : Bool)
    → npages ≤ f * 4096
    → pages (init_c2h_dma (suc f) host_addr dev_addr npages network) ≡ npages
unfolding init_c2h_dma
c2h_pages f host_addr dev_addr zero network h = refl
c2h_pages zero host_addr dev_addr (suc n) network h = absurd (omega arith)
c2h_pages (suc f) host_addr dev_addr (suc n) network h =
    let ih = c2h_pages f host_addr dev_addr (suc n - npages_cmd (suc n)) network (ground arith) in
    ground (arith, ih)

commands-suc : (n : ℕ) → commands (suc n) ≡ suc (commands (suc n - npages_cmd (suc n)))
commands-suc n = ground arith

h2c_device_addrs :
    (f host_addr dev_addr npages : ℕ) (clear network : Bool)
    → npages ≤ f * 4096
    → device_addrs (init_h2c_dma (suc f) host_addr dev_addr npages clear network)
      ≡ copies (commands npages) dev_addr
unfolding init_h2c_dma
h2c_device_addrs f host_addr dev_addr zero clear network h = refl
h2c_device_addrs zero host_addr dev_addr (suc n) clear network h = absurd (omega arith)
h2c_device_addrs (suc f) host_addr dev_addr (suc n) clear network h =
    let ih =
      h2c_device_addrs f host_addr dev_addr (suc n - npages_cmd (suc n)) clear network
        (ground arith) in
    ground (arith, ih, commands-suc n)

c2h_device_addrs :
    (f host_addr dev_addr npages : ℕ) (network : Bool)
    → npages ≤ f * 4096
    → device_addrs (init_c2h_dma (suc f) host_addr dev_addr npages network)
      ≡ copies (commands npages) dev_addr
unfolding init_c2h_dma
c2h_device_addrs f host_addr dev_addr zero network h = refl
c2h_device_addrs zero host_addr dev_addr (suc n) network h = absurd (omega arith)
c2h_device_addrs (suc f) host_addr dev_addr (suc n) network h =
    let ih =
      c2h_device_addrs f host_addr dev_addr (suc n - npages_cmd (suc n)) network (ground arith) in
    ground (arith, ih, commands-suc n)

-- With fuel for the commands, the lengths that a transfer in either direction starts add up to
-- the pages asked for, and all its commands, one for each 4096 pages begun, name the same address
-- in device memory.
pub transfer_commands :
    (f host_addr dev_addr npages : ℕ) (clear network : Bool)
    → npages ≤ f * 4096
    → let h2c = init_h2c_dma (suc f) host_addr dev_addr npages clear network in
      let c2h = init_c2h_dma (suc f) host_addr dev_addr npages network in
      (pages h2c ≡ npages)
      × (pages c2h ≡ npages)
      × (device_addrs h2c ≡ copies (commands npages) dev_addr)
      × (device_addrs c2h ≡ copies (commands npages) dev_addr)
transfer_commands f host_addr dev_addr npages clear network h = (
  h2c_pages f host_addr dev_addr npages clear network h,
  c2h_pages f host_addr dev_addr npages network h,
  h2c_device_addrs f host_addr dev_addr npages clear network h,
  c2h_device_addrs f host_addr dev_addr npages network h,
)
