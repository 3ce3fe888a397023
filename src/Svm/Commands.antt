-- ===== src/Svm/Commands.antt =====
-- The registers that runtime/kernel/pcie/pcie_svm.c writes for transfers of pages and for the TLB.
-- Command bits that do not overlap are added where the source has `|`.
pub mod Transfers
mod Tests
use tapasco.Base.{
  ℕ, zero, suc, ◌+◌, ◌-◌, ◌*◌, ◌/◌, ◌%◌, ◌^◌, Bool, true, false, not, ◌&&◌, List, [], ◌∷◌, ◌++◌,
  ltb, ◌==◌, if◌then◌else◌, add64,
}

-- The registers of the page DMA core and of the IOMMU that are written.
pub data Register : Type 0 where
  c2h_src_addr c2h_dst_addr c2h_start_len h2c_src_addr h2c_dst_addr h2c_start_len : Register
  vaddr paddr cmd : Register

-- `writeq(value, &reg)`.
pub record Write : Type 0 where
  pub reg : Register
  pub value : ℕ

abbrev pub writeq : ℕ → Register → Write
writeq v r = record { reg = r; value = v }

-- `dev_addr_to_pfn`, on words of 64 bits; a page has 2^12 bytes.
abbrev pub dev_addr_to_pfn : ℕ → ℕ → ℕ
dev_addr_to_pfn base_pfn dev_addr = add64 (dev_addr / 2 ^ 12) base_pfn

abbrev pub pfn_to_dev_addr : ℕ → ℕ → ℕ
pfn_to_dev_addr base_pfn pfn = (((pfn + (2 ^ 64 - base_pfn)) % 2 ^ 64) * 2 ^ 12) % 2 ^ 64

abbrev pub max_npages : ℕ
max_npages = 4096

abbrev pub flag : Bool → ℕ → ℕ
flag b n = if b then n else 0

abbrev pub npages_cmd : ℕ → ℕ
npages_cmd npages = if ltb max_npages npages then max_npages else npages

pub init_c2h_dma : ℕ → ℕ → ℕ → ℕ → Bool → List Write
init_c2h_dma zero host_addr dev_addr npages network = []
init_c2h_dma (suc fuel) host_addr dev_addr npages network =
    let rest = init_c2h_dma fuel host_addr dev_addr (npages - npages_cmd npages) network in
    if npages == 0
    then []
    else writeq dev_addr c2h_src_addr
      ∷ ((if network then [] else writeq host_addr c2h_dst_addr ∷ [])
          ++ writeq (npages_cmd npages + 2 ^ 63 + flag network (2 ^ 60)) c2h_start_len ∷ rest)

pub init_h2c_dma : ℕ → ℕ → ℕ → ℕ → Bool → Bool → List Write
init_h2c_dma zero host_addr dev_addr npages clear network = []
init_h2c_dma (suc fuel) host_addr dev_addr npages clear network =
    let rest = init_h2c_dma fuel host_addr dev_addr (npages - npages_cmd npages) clear network in
    if npages == 0
    then []
    else (if not network && not clear then writeq host_addr h2c_src_addr ∷ [] else [])
      ++ writeq dev_addr h2c_dst_addr
        ∷ writeq (npages_cmd npages + 2 ^ 63 + flag clear (2 ^ 62) + flag network (2 ^ 60))
            h2c_start_len
        ∷ rest

pub add_tlb_entry : ℕ → ℕ → List Write
add_tlb_entry va pa = writeq va vaddr ∷ writeq pa paddr ∷ writeq 4 cmd ∷ []

-- The number of pages of the flexible and of the invalidated range, an `int` that is not negative,
-- stands from bit 48 on.
pub add_al_tlb_entry : ℕ → ℕ → ℕ → List Write
add_al_tlb_entry va pa npages =
    writeq va vaddr ∷ writeq pa paddr ∷ writeq (6 + (npages * 2 ^ 48) % 2 ^ 64) cmd ∷ []

pub invalidate_tlb_entry : ℕ → List Write
invalidate_tlb_entry va = writeq va vaddr ∷ writeq 2 cmd ∷ []

pub invalidate_tlb_range : ℕ → ℕ → List Write
invalidate_tlb_range base npages =
    writeq base vaddr ∷ writeq (2 + (npages * 2 ^ 48) % 2 ^ 64) cmd ∷ []
