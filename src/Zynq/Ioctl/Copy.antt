-- ===== src/Zynq/Ioctl/Copy.antt =====
-- Copies between the user and the memory of a Zynq device, runtime/kernel/zynq/zynq_ioctl.c.
use tapasco.Base.{
  ◌≤◌, leb, none, true, false, ℕ, ◌+◌, ◌-◌, ◌<◌, ◌≡◌, refl, ◌∙◌, Option, some, arith, ok,
}
use tapasco.Zynq.Pool.{pool_size}
use tapasco.Zynq.Buffers.{Zynq}
use tapasco.Zynq.Buffers.Valid.{IsValid}
use tapasco.Zynq.Buffers.Find.{get_id_used}
use tapasco.Zynq.Ioctl.{
  CopyCmd, buffer_of, copy_from_user, copy_to_user, address_of, copied, zynq_ioctl_copyto,
  zynq_ioctl_copyfrom,
}

-- The buffers stay as they are when bytes are written.
pub written-IsValid : (z : Zynq) (bytes : ℕ → ℕ) → IsValid z → IsValid (record z { bytes = bytes })
written-IsValid z bytes v = record {
  packed = v.packed;
  used = v.used;
  held = v.held;
  addressed = v.addressed;
  apart = v.apart;
  owned = v.owned;
}

pub address_of_used :
    (id : ℕ) (z : Zynq)
    → id < pool_size
    → 0 < (z.elems id).kvirt_addr
    → IsValid z
    → address_of (buffer_of (z.elems id).dma_addr z) z
      ≡ some ((z.elems id).kvirt_addr, (z.elems id).len)
address_of_used id z small pos v = rw (get_id_used id z small pos v) (ground arith)

pub copyto_used :
    (c : Option (ℕ × ℕ)) (left id : ℕ) (cmd : CopyCmd) (z : Zynq)
    → id < pool_size
    → 0 < (z.elems id).kvirt_addr
    → IsValid z
    → cmd.dev_addr ≡ (z.elems id).dma_addr
    → cmd.length - left ≤ (z.elems id).len
    → zynq_ioctl_copyto c left cmd z
      ≡ some (
        copied left,
        cmd,
        record z {
          bytes = copy_from_user (z.elems id).kvirt_addr (cmd.length - left) cmd.user z.bytes;
        },
      )
unfolding zynq_ioctl_copyto
copyto_used c left id cmd z small pos v e fits =
    let room : leb (cmd.length - left) (z.elems id).len ≡ true = ground (arith, fits) in
    rw (e, get_id_used id z small pos v) (rw (address_of_used id z small pos v, room) refl)

pub copyfrom_used :
    (left id : ℕ) (cmd : CopyCmd) (z : Zynq)
    → id < pool_size
    → 0 < (z.elems id).kvirt_addr
    → IsValid z
    → cmd.dev_addr ≡ (z.elems id).dma_addr
    → cmd.length - left ≤ (z.elems id).len
    → zynq_ioctl_copyfrom left cmd z
      ≡ some (
        copied left,
        record cmd {
          user = copy_to_user (z.elems id).kvirt_addr (cmd.length - left) z.bytes cmd.user;
        },
      )
unfolding zynq_ioctl_copyfrom
copyfrom_used left id cmd z small pos v e fits =
    let room : leb (cmd.length - left) (z.elems id).len ≡ true = ground (arith, fits) in
    rw (e, address_of_used id z small pos v, room) refl

-- A copy of more bytes than the buffer has goes behind its end, either way.
pub copy_overruns :
    (c : Option (ℕ × ℕ)) (id : ℕ) (cmd : CopyCmd) (z : Zynq)
    → id < pool_size
    → 0 < (z.elems id).kvirt_addr
    → IsValid z
    → cmd.dev_addr ≡ (z.elems id).dma_addr
    → (z.elems id).len < cmd.length
    → (zynq_ioctl_copyto c 0 cmd z ≡ none) × (zynq_ioctl_copyfrom 0 cmd z ≡ none)
unfolding zynq_ioctl_copyto zynq_ioctl_copyfrom
copy_overruns c id cmd z small pos v e over =
    let room : leb (cmd.length - 0) (z.elems id).len ≡ false = ground (arith, over) in
    (
      rw (e, get_id_used id z small pos v) (rw (address_of_used id z small pos v, room) refl),
      rw (e, address_of_used id z small pos v, room) refl,
    )

pub copy_there_and_back :
    (kv n o : ℕ) (user user' bytes : ℕ → ℕ)
    → o < n
    → copy_to_user kv n (copy_from_user kv n user bytes) user' o ≡ user o
copy_there_and_back kv n o user user' bytes h =
    let same : kv + o - kv ≡ o = omega arith in rw same (ground arith)

pub copyfrom-copyto :
    (c : Option (ℕ × ℕ)) (id : ℕ) (cmd back : CopyCmd) (z : Zynq)
    → id < pool_size
    → 0 < (z.elems id).kvirt_addr
    → IsValid z
    → cmd.dev_addr ≡ (z.elems id).dma_addr
    → cmd.length ≤ (z.elems id).len
    → back.dev_addr ≡ cmd.dev_addr
    → back.length ≡ cmd.length
    → (z' : Zynq) × (user : ℕ → ℕ) × (zynq_ioctl_copyto c 0 cmd z ≡ some (ok, cmd, z'))
      × (zynq_ioctl_copyfrom 0 back z' ≡ some (ok, record back { user = user }))
      × ((o : ℕ) → o < cmd.length → user o ≡ cmd.user o)
copyfrom-copyto c id cmd back z small pos v e fits e' l =
    let written = copy_from_user (z.elems id).kvirt_addr (cmd.length - 0) cmd.user z.bytes in
    (
      record z { bytes = written },
      _,
      copyto_used c 0 id cmd z small pos v e (omega (arith, fits)),
      copyfrom_used 0 id back (record z { bytes = written }) small pos (written-IsValid z written v)
          (e' ∙ e) (omega (arith, fits, l)),
      λ o h. rw l (
          copy_there_and_back (z.elems id).kvirt_addr (cmd.length - 0) o cmd.user back.user z.bytes
            (omega arith)),
    )
