-- ===== src/Ledger/Book/Refund.antt =====
-- How the loop of a refund spreads its amount over the debits of the origin.
pub mod Window
use Prim.Native.Nat.{min}
use coin.Base.{
  ℕ, ◌+◌, ◌-◌, ◌^◌, ◌≤◌, ◌<◌, ◌≡◌, ◌≢◌, refl, ◌↔◌, Bool, true, false, Option, none, some, List, [],
  ◌∷◌, ◌++◌, arith, ◌=?◌, All, Bool-cases, inl, inr, ap,
}
use coin.Int.{ℤ, pos, pos_part, neg_part, leb_ℤ, eqb_ℤ, +ℤ_parts}
use coin.Int.Word.{sub64, neg64, add64, add64_parts, sub64_parts, neg64_parts}
use coin.Ledger.Schema.{BookChange}
use coin.Ledger.Book.{BookCreditPart, refund_use, refund_parts, refund_expire_at, add_part}
use coin.Ledger.Book.Take.{IsAmount}

-- A row of the change log that took from a book.
pub record IsDebit (c : BookChange) : Type 0 where
  pub negative : pos_part c.delta ≡ 0
  pub small : neg_part c.delta < 2 ^ 63

-- What the debits took in all.
abbrev pub taken : List BookChange → ℕ
taken [] = 0
taken (c ∷ debits) = neg_part c.delta + taken debits

abbrev pub IsAmountPart : BookCreditPart → Type 0
IsAmountPart p = IsAmount p.amount

abbrev pub sum_amounts : List BookCreditPart → ℕ
sum_amounts [] = 0
sum_amounts (p ∷ parts) = pos_part p.amount + sum_amounts parts

-- One round uses what the offset leaves of the debit, up to the rest of the refund.
pub refund_use_lem :
    (offset left : ℤ) (c : BookChange)
    → IsAmount offset
    → IsAmount left
    → IsDebit c
    → let (offset', use_amount) = refund_use offset left c in
      IsAmount offset'
      × IsAmount use_amount
      × (pos_part offset' ≡ pos_part offset - neg_part c.delta)
      × (pos_part use_amount ≡ min (neg_part c.delta - pos_part offset) (pos_part left))
unfolding refund_use
refund_use_lem offset left c ho hl hc = ground (
  arith,
  neg64_parts c.delta,
  sub64_parts (neg64 c.delta) offset,
  sub64_parts (neg64 c.delta) (neg64 c.delta),
  sub64_parts offset offset,
  sub64_parts offset (neg64 c.delta),
)

pub add_part_lem :
    (p : BookCreditPart) (parts : List BookCreditPart)
    → IsAmount p.amount
    → All IsAmountPart parts
    → sum_amounts parts + pos_part p.amount < 2 ^ 63
    → All IsAmountPart (add_part p parts)
      × (sum_amounts (add_part p parts) ≡ sum_amounts parts + pos_part p.amount)
unfolding add_part
add_part_lem p [] hp h small = ((hp, tt), omega arith)
add_part_lem p (q ∷ []) hp h small = ground (arith, add64_parts q.amount p.amount)
add_part_lem p (q ∷ r ∷ parts) hp h small =
    let rest = add_part_lem p (r ∷ parts) hp h.1 (omega arith) in
    ((h.0, rest.0), omega (arith, rest.1))
