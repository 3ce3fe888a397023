-- ===== src/Svm/Copies.antt =====
-- Copies of pages from one device to another: runtime/kernel/pcie/pcie_svm.c. A `struct page` is the
-- number of its frame. What the waits and the reads of the page DMA core give is an argument, by the
-- number of the page that the copy has come to.
pub mod Pages
mod Direct
mod Network
mod Passing
mod Filling
mod Buffered
mod Tests
use tapasco.Base.{
  ℕ, zero, suc, ◌+◌, ◌-◌, ◌*◌, Bool, true, false, List, [], ◌∷◌, ◌++◌, ltb, leb, if◌then◌else◌,
  length, Ret, ok, err, enomem, eacces, add64,
}
use tapasco.Svm.Commands.{pfn_to_dev_addr, max_npages}
use tapasco.Svm.Faults.{page_size}
use tapasco.Svm.Pages.{is_contiguous_page, skip}

-- What a copy asks for: transfers of the page DMA core, waits for them, and a buffer in host memory.
pub data Order : Type 0 where
  -- init_c2h_dma on the source: host address, device address, pages, network
  c2h : ℕ → ℕ → ℕ → Bool → Order
  -- init_h2c_dma on the destination: host address, device address, pages, network
  h2c : ℕ → ℕ → ℕ → Bool → Order
  wait_c2h wait_h2c dst_mac : Order
  buf_alloc buf_map buf_unmap buf_free : Order

-- The frames behind `last` that continue its run, `room` at most.
abbrev pub run_pages : ℕ → ℕ → List ℕ → ℕ
run_pages room last [] = 0
run_pages zero last (p ∷ ps) = 0
run_pages (suc room) last (p ∷ ps) =
    if is_contiguous_page p last then suc (run_pages room p ps) else 0

pub record Waits : Type 0 where
  -- the number of commands that the core reports, and the result of the wait when it is full
  pub cmd_cnt : ℕ → ℕ
  pub when_full : ℕ → Ret
  -- the results of the waits for the transfers
  pub c2h_done : ℕ → Ret
  pub h2c_done : ℕ → Ret

abbrev pub max_commands : ℕ
max_commands = 64

-- Whether a command may follow, by the count kept so far: the result of the wait, the new count, and
-- what was asked for.
abbrev pub throttle : Waits → ℕ → ℕ → Ret × ℕ × List Order
throttle o i cnt =
    if leb max_commands cnt
    then (if leb max_commands (o.cmd_cnt i)
        then (o.when_full i, 0, wait_c2h ∷ [])
        else (ok, o.cmd_cnt i, []))
    else (ok, cnt, [])

abbrev pub lower : ℕ → ℕ → ℕ
lower a b = if ltb a b then a else b

-- The address of page `i` behind an address, on words of 64 bits.
abbrev pub page_at : ℕ → ℕ → ℕ
page_at base i = add64 base (i * page_size)

-- The commands that prepare the destination, for pages `i` to `i + n`; fuel, one unit a command.
unfoldable pub prepare : ℕ → ℕ → ℕ → ℕ → List Order
prepare zero dst_base i n = []
prepare (suc fuel) dst_base i n =
    let m = lower n max_npages in
    let rest = prepare fuel dst_base (i + m) (n - m) in
    if ltb 0 n then h2c 0 (page_at dst_base i) m true ∷ rest else []

-- The commands that send runs of source pages; fuel, one unit a run.
unfoldable pub send : ℕ → ℕ → List ℕ → List Order
send zero base_pfn ps = []
send (suc fuel) base_pfn [] = []
send (suc fuel) base_pfn (p ∷ ps) =
    let n = run_pages (max_npages - 1) p ps in
    c2h 0 (pfn_to_dev_addr base_pfn p) (suc n) true ∷ send fuel base_pfn (skip n ps)

-- `dst_base` is the address of the first destination page.
unfoldable pub copy_dev_to_dev_network : ℕ → Waits → ℕ → ℕ → List ℕ → Ret × List Order
unfolding prepare send
copy_dev_to_dev_network fuel o base_pfn dst_base ps = (
  o.h2c_done (length ps),
  dst_mac ∷ prepare fuel dst_base 0 (length ps) ++ send fuel base_pfn ps ++ wait_h2c ∷ [],
)

abbrev pub before : List Order → Ret × List Order → Ret × List Order
before os (r, os') = (r, os ++ os')

-- From page `i` on; fuel, one unit a run.
unfoldable pub push_from : ℕ → Waits → ℕ → ℕ → ℕ → ℕ → List ℕ → Ret × List Order
push_from zero o base_pfn dst_base cnt i ps = (ok, [])
push_from (suc fuel) o base_pfn dst_base cnt i [] = (o.c2h_done i, wait_c2h ∷ [])
push_from (suc fuel) o base_pfn dst_base cnt i (p ∷ ps) =
    let n = run_pages (max_npages - 1) p ps in
    let (r, cnt', os) = throttle o i cnt in
    let command = c2h (page_at dst_base i) (pfn_to_dev_addr base_pfn p) (suc n) false in
    elim r [
      | err e ↦ (err e, os)
      | ok ↦
          before (os ++ command ∷ [])
            (push_from fuel o base_pfn dst_base (cnt' + 1) (i + suc n) (skip n ps))
    ]

-- `dst_base` is the address in the destination's BAR of its first page.
unfoldable pub copy_dev_to_dev_pcie_e2e : ℕ → Waits → ℕ → ℕ → List ℕ → Ret × List Order
unfolding push_from
copy_dev_to_dev_pcie_e2e fuel o base_pfn dst_base ps = push_from fuel o base_pfn dst_base 0 0 ps

abbrev pub buffer_pages : ℕ
buffer_pages = 1024

-- What filling the buffer leaves: its result, what was asked for, the pages in it, and the pages
-- that are left.
pub record Filled : Type 0 where
  pub result : Ret
  pub orders : List Order
  pub move_cnt : ℕ
  pub left : List ℕ

abbrev pub filled_before : List Order → Filled → Filled
filled_before os f = record f { orders = os ++ f.orders }

-- Fuel, one unit a run.
unfoldable pub fill : ℕ → Waits → ℕ → ℕ → ℕ → ℕ → ℕ → List ℕ → Filled
fill zero o base_pfn buf_addr cnt copied move_cnt ps = record {
  result = ok;
  orders = [];
  move_cnt = move_cnt;
  left = ps;
}
fill (suc fuel) o base_pfn buf_addr cnt copied move_cnt [] = record {
  result = ok;
  orders = [];
  move_cnt = move_cnt;
  left = [];
}
fill (suc fuel) o base_pfn buf_addr cnt copied move_cnt (p ∷ ps) =
    let n = run_pages (lower (buffer_pages - move_cnt) max_npages - 1) p ps in
    let (r, cnt', os) = throttle o (copied + move_cnt) cnt in
    let command = c2h (page_at buf_addr move_cnt) (pfn_to_dev_addr base_pfn p) (suc n) false in
    let rest = fill fuel o base_pfn buf_addr (cnt' + 1) copied (move_cnt + suc n) (skip n ps) in
    if ltb move_cnt buffer_pages
    then elim r [
      | err e ↦ record { result = err e; orders = os; move_cnt = move_cnt; left = p ∷ ps }
      | ok ↦ filled_before (os ++ command ∷ []) rest
    ]
    else record { result = ok; orders = []; move_cnt = move_cnt; left = p ∷ ps }

abbrev pub dst_addr : ℕ → List ℕ → ℕ
dst_addr dst_pfn [] = 0
dst_addr dst_pfn (d ∷ ds) = pfn_to_dev_addr dst_pfn d

-- A round, by what filling the buffer left, and what the rounds behind it do.
unfoldable pub empty_buffer : Waits → ℕ → ℕ → ℕ → Filled → Ret × List Order → Ret × List Order
empty_buffer o buf_addr dst copied f rest =
    let moved = f.orders ++ wait_c2h ∷ h2c buf_addr dst f.move_cnt false ∷ wait_h2c ∷ [] in
    elim f.result [
      | err e ↦ (err e, f.orders)
      | ok ↦ elim (o.c2h_done copied) [
        | err e ↦ (err e, f.orders ++ wait_c2h ∷ [])
        | ok ↦ elim (o.h2c_done copied) [ err e ↦ (err e, moved) | ok ↦ before moved rest ]
      ]
    ]

-- The rounds over the buffer; fuel, one unit a round and a run.
unfoldable pub rounds : ℕ → Waits → ℕ → ℕ → ℕ → ℕ → List ℕ → List ℕ → Ret × List Order
rounds zero o base_pfn dst_pfn buf_addr copied ps ds = (ok, [])
rounds (suc fuel) o base_pfn dst_pfn buf_addr copied [] ds = (ok, [])
rounds (suc fuel) o base_pfn dst_pfn buf_addr copied (p ∷ ps) ds =
    let f = fill (suc fuel) o base_pfn buf_addr 0 copied 0 (p ∷ ps) in
    let rest =
      rounds fuel o base_pfn dst_pfn buf_addr (copied + f.move_cnt) f.left (skip f.move_cnt ds) in
    empty_buffer o buf_addr (dst_addr dst_pfn ds) copied f rest

abbrev pub then_free : Ret × List Order → Ret × List Order
then_free (r, os) = (r, buf_alloc ∷ buf_map ∷ os ++ buf_unmap ∷ buf_free ∷ [])

-- The label for a failed mapping unmaps the buffer too.
unfoldable pub copy_dev_to_dev_buffered :
    ℕ → Waits → Bool → Bool → ℕ → ℕ → ℕ → List ℕ → List ℕ → Ret × List Order
unfolding rounds
copy_dev_to_dev_buffered fuel o false maps base_pfn dst_pfn buf_addr ps ds = (err enomem, [])
copy_dev_to_dev_buffered fuel o true false base_pfn dst_pfn buf_addr ps ds =
    (err eacces, buf_alloc ∷ buf_unmap ∷ buf_free ∷ [])
copy_dev_to_dev_buffered fuel o true true base_pfn dst_pfn buf_addr ps ds =
    then_free (rounds fuel o base_pfn dst_pfn buf_addr 0 ps ds)
