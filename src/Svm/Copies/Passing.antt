-- ===== src/Svm/Copies/Passing.antt =====
-- The pages that go through the buffer of a copy between devices, by what is asked for
-- (runtime/kernel/pcie/pcie_svm.c).
use tapasco.Base.{
  ◌≢◌, leb, ◌⊎◌, ℕ, ◌≡◌, refl, ◌∙◌, Bool-cases, false, ◌&&◌, inl, inr, List, [], ◌∷◌, ◌++◌, Option,
  none, some, ◌==◌, if◌then◌else◌, length, ==_refl, add64, arith,
}
use mathlib.Core.List.{append_assoc}
use tapasco.Svm.Faults.{page_size}
use tapasco.Svm.Copies.{
  page_at, Order, c2h, h2c, wait_c2h, wait_h2c, dst_mac, buf_alloc, buf_map, buf_unmap, buf_free,
  Waits, throttle, max_commands,
}
use tapasco.Svm.Copies.Network.{addrs}

-- The buffer's pages to consecutive places.
abbrev pub put_at : List ℕ → ℕ → List (ℕ × ℕ)
put_at [] a = []
put_at (x ∷ xs) a = (x, a) ∷ put_at xs (add64 a page_size)

abbrev pub more : List (ℕ × ℕ) → Option (List (ℕ × ℕ)) → Option (List (ℕ × ℕ))
more xs none = none
more xs (some ys) = some (xs ++ ys)

-- What the buffer waits for: commands that fill it, none, or the command that empties it.
pub data Phase : Type 0 where
  filling settled emptying : Phase

-- The pages that go through the buffer at `buf`, which commands so far fill with the pages `c`: from the
-- source's address to the destination's. A command is done only behind a wait for it. `none`: a command
-- fills the buffer behind or before its first free page or before the wait for the command that empties
-- it; one empties it before the wait for the commands that fill it, or takes out another number of pages
-- than it holds; or the buffer is unmapped, freed or left behind before a wait for a command.
abbrev pub delivered : ℕ → Phase → List ℕ → List Order → Option (List (ℕ × ℕ))
delivered buf settled c [] = some []
delivered buf filling c [] = none
delivered buf emptying c [] = none
delivered buf emptying c (c2h host a n net ∷ os) = none
delivered buf settled c (c2h host a n net ∷ os) =
    if host == page_at buf (length c) then delivered buf filling (c ++ addrs n a) os else none
delivered buf filling c (c2h host a n net ∷ os) =
    if host == page_at buf (length c) then delivered buf filling (c ++ addrs n a) os else none
delivered buf emptying c (h2c host a n net ∷ os) = none
delivered buf filling c (h2c host a n net ∷ os) = none
delivered buf settled c (h2c host a n net ∷ os) =
    if host == buf && n == length c then more (put_at c a) (delivered buf emptying [] os) else none
delivered buf filling c (wait_c2h ∷ os) = delivered buf settled c os
delivered buf settled c (wait_c2h ∷ os) = delivered buf settled c os
delivered buf emptying c (wait_c2h ∷ os) = delivered buf emptying c os
delivered buf filling c (wait_h2c ∷ os) = delivered buf filling c os
delivered buf settled c (wait_h2c ∷ os) = delivered buf settled c os
delivered buf emptying c (wait_h2c ∷ os) = delivered buf settled c os
delivered buf w c (dst_mac ∷ os) = delivered buf w c os
delivered buf w c (buf_alloc ∷ os) = delivered buf w c os
delivered buf w c (buf_map ∷ os) = delivered buf w c os
delivered buf settled c (buf_unmap ∷ os) = delivered buf settled c os
delivered buf filling c (buf_unmap ∷ os) = none
delivered buf emptying c (buf_unmap ∷ os) = none
delivered buf settled c (buf_free ∷ os) = delivered buf settled c os
delivered buf filling c (buf_free ∷ os) = none
delivered buf emptying c (buf_free ∷ os) = none

-- No command that empties the buffer is under way.
abbrev pub CanFill : Phase → Type 0
CanFill w = w ≢ emptying

delivered-c2h :
    (buf m a n : ℕ) (w : Phase) (c : List ℕ) (os : List Order)
    → CanFill w
    → length c ≡ m
    → delivered buf w c (c2h (page_at buf m) a n false ∷ os)
      ≡ delivered buf filling (c ++ addrs n a) os
delivered-c2h buf m a n filling c os can len = rw (len, ==_refl (page_at buf m)) refl
delivered-c2h buf m a n settled c os can len = rw (len, ==_refl (page_at buf m)) refl
delivered-c2h buf m a n emptying c os can len = absurd (can refl)

-- A command behind what the throttle asks for.
orders-cases :
    (o : Waits) (i cnt : ℕ) → ((throttle o i cnt).2 ≡ []) ⊎ ((throttle o i cnt).2 ≡ wait_c2h ∷ [])
orders-cases o i cnt = elim (Bool-cases (leb max_commands cnt)) [
  | inr few ↦ rw few (inl refl)
  | inl many ↦ elim (Bool-cases (leb max_commands (o.cmd_cnt i))) [
    | inr few ↦ rw (many, few) (inl refl)
    | inl full ↦ rw (many, full) (inr refl)
  ]
]

pub throttle-delivered :
    (o : Waits) (i cnt buf m a n : ℕ) (w : Phase) (c : List ℕ) (os : List Order)
    → CanFill w
    → length c ≡ m
    → delivered buf w c ((throttle o i cnt).2 ++ c2h (page_at buf m) a n false ∷ os)
      ≡ delivered buf filling (c ++ addrs n a) os
throttle-delivered o i cnt buf m a n w c os can len = elim (orders-cases o i cnt) [
  | inl none_there ↦ rw none_there (delivered-c2h buf m a n w c os can len)
  | inr wait ↦ rw wait (waited w can)
]
  where
    waited :
        (w : Phase)
        → CanFill w
        → delivered buf w c (wait_c2h ∷ c2h (page_at buf m) a n false ∷ os)
          ≡ delivered buf filling (c ++ addrs n a) os
    waited filling can = delivered-c2h buf m a n settled c os (λ e. ground arith) len
    waited settled can = delivered-c2h buf m a n settled c os (λ e. ground arith) len
    waited emptying can = absurd (can refl)

pub behind :
    (ws : List Order) (q : Order) (vs os : List Order)
    → ((ws ++ q ∷ []) ++ vs) ++ os ≡ ws ++ q ∷ (vs ++ os)
behind ws q vs os = append_assoc (ws ++ q ∷ []) vs os ∙ append_assoc ws (q ∷ []) (vs ++ os)

pub wait_done :
    (buf : ℕ) (c : List ℕ) (w : Phase) (os : List Order)
    → CanFill w
    → delivered buf w c (wait_c2h ∷ os) ≡ delivered buf settled c os
wait_done buf c filling os can = refl
wait_done buf c settled os can = refl
wait_done buf c emptying os can = absurd (can refl)
