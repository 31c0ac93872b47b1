-- ===== src/Ledger/Book/Refund/Window.antt =====
-- The loop of a refund against a closed form. Lay what the debits took end to end: a refund of R
-- behind earlier refunds of P gives back the window from P to P + R, each debit its overlap.
use Prim.Native.Nat.{min, max}
use coin.Base.{
  ℕ, ◌+◌, ◌-◌, ◌^◌, ◌≤◌, ◌<◌, ◌≡◌, refl, List, [], ◌∷◌, arith, ◌=?◌, if◌then◌else◌, All, Bool-cases,
  inl, inr,
}
use coin.Int.{ℤ, pos, pos_part, neg_part, leb_ℤ, eqb_ℤ}
use coin.Int.Word.{sub64, sub64_parts, add64_parts, sub64_one_sign}
use coin.Ledger.Schema.{BookChange}
use coin.Ledger.Book.{BookCreditPart, refund_use, refund_parts, refund_expire_at, add_part}
use coin.Ledger.Book.Take.{IsAmount}
use coin.Ledger.Book.Refund.{
  IsDebit, taken, IsAmountPart, sum_amounts, refund_use_lem, add_part_lem,
}

-- What the parts credit to the book of a date.
abbrev pub amount_at : ℕ → List BookCreditPart → ℕ
amount_at date [] = 0
amount_at date (p ∷ parts) =
    (if p.expire_at =? date then pos_part p.amount else 0) + amount_at date parts

amount_at-add_part :
    (date : ℕ) (p : BookCreditPart) (parts : List BookCreditPart)
    → IsAmount p.amount
    → All IsAmountPart parts
    → sum_amounts parts + pos_part p.amount < 2 ^ 63
    → amount_at date (add_part p parts)
      ≡ amount_at date parts + (if p.expire_at =? date then pos_part p.amount else 0)
unfolding add_part
amount_at-add_part date p [] hp h small = omega arith
amount_at-add_part date p (q ∷ []) hp h small = ground (arith, add64_parts q.amount p.amount)
amount_at-add_part date p (q ∷ r ∷ parts) hp h small =
    omega (arith, amount_at-add_part date p (r ∷ parts) hp h.1 (omega arith))

module _ (prior refund : ℕ) where
  -- The overlap of the window with the stretch of `length` behind `before`.
  abbrev pub overlap : ℕ → ℕ → ℕ
  overlap before length = min (prior + refund) (before + length) - max prior before

left_after :
    (left use_amount : ℤ)
    → IsAmount left
    → IsAmount use_amount
    → pos_part use_amount ≤ pos_part left
    → IsAmount (sub64 left use_amount)
      × (pos_part (sub64 left use_amount) ≡ pos_part left - pos_part use_amount)
left_after left use_amount hl hu le =
    let e = sub64_parts left use_amount (omega arith) (omega arith) in
    let s = sub64_one_sign left use_amount in
    (record { nonneg = omega (arith, e, s); small = omega (arith, e, s) }, omega (arith, e, s))

module _ (base prior refund date : ℕ) where
  -- What the window owes to the book of a date.
  abbrev pub owed : ℕ → List BookChange → ℕ
  owed before [] = 0
  owed before (c ∷ debits) =
      (if refund_expire_at base c =? date
        then overlap prior refund before (neg_part c.delta)
        else 0)
      + owed (before + neg_part c.delta) debits

  owed_past :
      (before : ℕ) (debits : List BookChange) → prior + refund ≤ before → owed before debits ≡ 0
  owed_past before [] h = refl
  owed_past before (c ∷ debits) h =
      ground (arith, owed_past (before + neg_part c.delta) debits (omega arith))

  -- What holds of the loop's result, from a state in which `before` has been passed.
  record Goal (before : ℕ) (left : ℤ) (debits : List BookChange) (parts : List BookCreditPart)
      (r : List BookCreditPart × ℤ) : Type 0 where
    is_amount : IsAmount r.1
    amounts : All IsAmountPart r.0
    total : sum_amounts r.0 + pos_part r.1 ≡ sum_amounts parts + pos_part left
    rest : pos_part r.1 ≡ (prior + refund) - max prior (before + taken debits)
    window : amount_at date r.0 ≡ amount_at date parts + owed before debits

  loop_Goal :
      (before : ℕ) (offset left : ℤ) (debits : List BookChange) (parts : List BookCreditPart)
      → IsAmount offset
      → IsAmount left
      → All IsDebit debits
      → All IsAmountPart parts
      → sum_amounts parts + pos_part left < 2 ^ 63
      → pos_part offset ≡ prior - before
      → pos_part left ≡ (prior + refund) - max prior before
      → Goal before left debits parts (refund_parts base offset left debits parts)
  unfolding refund_parts
  loop_Goal before offset left [] parts ho hl hd hp small eo el = record {
    is_amount = hl;
    amounts = hp;
    total = refl;
    rest = omega arith;
    window = omega arith;
  }
  loop_Goal before offset left (c ∷ debits) parts ho hl hd hp small eo el =
      let use_amount = (refund_use offset left c).1 in
      let offset' = (refund_use offset left c).0 in
      let left' = sub64 left use_amount in
      let part : BookCreditPart = record {
        expire_at = refund_expire_at base c;
        amount = use_amount;
      } in
      let facts = refund_use_lem offset left c ho hl hd.0 in
      let room : sum_amounts parts + pos_part use_amount < 2 ^ 63 = omega (arith, facts) in
      let after = left_after left use_amount hl facts.1 (omega (arith, facts)) in
      let added = add_part_lem part parts facts.1 hp room in
      let at = amount_at-add_part date part parts facts.1 hp room in
      let before' = before + neg_part c.delta in
      let eo' : pos_part offset' ≡ prior - before' = omega (arith, facts) in
      let share : overlap prior refund before (neg_part c.delta) ≡ pos_part use_amount =
        omega (arith, facts) in
      elim (Bool-cases (leb_ℤ use_amount (pos 0))) [
        | inl skip ↦
            let zero_use : pos_part use_amount ≡ 0 = ground (arith, facts) in
            let ih =
              loop_Goal before' offset' left debits parts facts.0 hl hd.1 hp small eo'
                (omega (arith, facts)) in
            rw skip (record {
              is_amount = ih.is_amount;
              amounts = ih.amounts;
              total = ih.total;
              rest = omega (arith, ih.rest);
              window = ground (arith, ih.window, share, zero_use);
            })
        | inr some_use ↦ elim (Bool-cases (eqb_ℤ left' (pos 0))) [
          | inl stop ↦
              let none_left : pos_part left' ≡ 0 = ground (arith, after) in
              let positive : 0 < pos_part use_amount = ground (arith, facts) in
              rw (some_use, stop)
                (record {
                  is_amount = after.0;
                  amounts = added.0;
                  total = omega (arith, added.1, after.1, facts);
                  rest = omega (arith, facts, after.1, none_left);
                  window = ground (
                    arith,
                    at,
                    share,
                    owed_past before' debits (omega (arith, facts, after.1, none_left)),
                  );
                })
          | inr more ↦
              let ih =
                loop_Goal before' offset' left' debits (add_part part parts) facts.0 after.0 hd.1
                  added.0 (omega (arith, added.1, after.1)) eo' (omega (arith, facts, after.1)) in
              rw (some_use, more)
                (record {
                  is_amount = ih.is_amount;
                  amounts = ih.amounts;
                  total = omega (arith, ih.total, added.1, after.1, facts);
                  rest = omega (arith, ih.rest);
                  window = ground (arith, ih.window, at, share);
                })
        ]
      ]

-- For int64 amounts of 0 or more, and debits that took an int64 amount each, a refund behind earlier
-- refunds of `prior` credits to the book of each date exactly the window's
-- overlaps with the debits that come back at that date; the parts sum up to the refund less what
-- is left, and something is left only if the refunds together pass what the origin took from books.
pub refund_parts_window :
    (base date : ℕ) (prior refund : ℤ) (debits : List BookChange)
    → IsAmount prior
    → IsAmount refund
    → All IsDebit debits
    → let (parts, left) = refund_parts base prior refund debits [] in
      (amount_at date parts ≡ owed base (pos_part prior) (pos_part refund) date 0 debits)
      × (sum_amounts parts + pos_part left ≡ pos_part refund)
      × (pos_part left ≡ pos_part refund - (taken debits - pos_part prior))
      × IsAmount left
refund_parts_window base date prior refund debits hp hr hd =
    let r =
      loop_Goal base (pos_part prior) (pos_part refund) date 0 prior refund debits [] hp hr hd tt
        (omega arith) (omega arith) (omega arith) in
    (omega (arith, r.window), omega (arith, r.total), omega (arith, r.rest), r.is_amount)
