-- ===== src/Ledger/Book.antt =====
-- repository.go: the loops over the books of an account, free of the database: what a debit takes
-- from each book, and the books that a transfer or a refund credits.
pub mod Take
pub mod Order
pub mod Refund
use coin.Base.{
  ℕ, ◌+◌, ◌-◌, ◌*◌, ◌/◌, ◌%◌, Bool, true, false, not, ◌&&◌, ◌||◌, Option, none, some, List, [], ◌∷◌,
  ltb, leb, ◌=?◌, if◌then◌else◌,
}
use coin.Int.{ℤ, pos, ltb_ℤ, leb_ℤ, eqb_ℤ}
use coin.Int.Word.{add64, sub64, neg64}
use coin.Domain.Error.{Error, account_resolve_failed, refund_origin_book_trace_missing}
use coin.Ledger.Schema.{BookRow, BookChange, Result, ok, err}
use coin.Ledger.Query.Books.{no_expire_book_date}

-- The local type `bookChange` of `applyAccountDebitTx`.
pub record PlannedChange : Type 0 where
  pub book_no : ℕ
  pub expire_at : ℕ
  pub delta : ℤ
  pub balance_before : ℤ
  pub balance_after : ℤ

abbrev pub cons_some {ℓ} : {A : Type ℓ} → Option A → List A → List A
cons_some none xs = xs
cons_some (some x) xs = x ∷ xs

-- One round of the loop of a debit: what is left then, and the change of the book.
unfoldable pub debit_book : ℤ → BookRow → ℤ × Option PlannedChange
debit_book left b =
    let is_no_expire = b.expire_at =? no_expire_book_date in
    let use_amount = if ltb_ℤ left b.balance then left else b.balance in
    if not is_no_expire && leb_ℤ b.balance (pos 0)
    then (left, none)
    else if is_no_expire
    then (
      pos 0,
      some (record {
        book_no = b.book_no;
        expire_at = b.expire_at;
        delta = neg64 left;
        balance_before = b.balance;
        balance_after = sub64 b.balance left;
      }),
    )
    else if leb_ℤ use_amount (pos 0)
    then (left, none)
    else (
      sub64 left use_amount,
      some (record {
        book_no = b.book_no;
        expire_at = b.expire_at;
        delta = neg64 use_amount;
        balance_before = b.balance;
        balance_after = sub64 b.balance use_amount;
      }),
    )

-- The loop, which stops when nothing is left.
unfoldable pub debit_books : ℤ → List BookRow → ℤ × List PlannedChange
unfolding debit_book
debit_books left [] = (left, [])
debit_books left (b ∷ books) =
    let (left', change) = debit_book left b in
    let rest = debit_books left' books in
    if eqb_ℤ left (pos 0) then (left, []) else (rest.0, cons_some change rest.1)

-- `bookCreditPart`
pub record BookCreditPart : Type 0 where
  pub expire_at : ℕ
  pub amount : ℤ

abbrev with_part :
    BookCreditPart → Option (List BookCreditPart × ℤ) → Option (List BookCreditPart × ℤ)
with_part part none = none
with_part part (some (parts, total)) = some (part ∷ parts, total)

-- The loop of `buildTransferBookCreditParts`: the parts and their sum. The date column is NOT NULL,
-- so day 0 alone is the zero time.
unfoldable pub transfer_parts : ℤ → List BookChange → Option (List BookCreditPart × ℤ)
transfer_parts sum [] = some ([], sum)
transfer_parts sum (c ∷ changes) =
    let part_amount = neg64 c.delta in
    let skipped = transfer_parts sum changes in
    let part : BookCreditPart = record { expire_at = c.expire_at; amount = part_amount } in
    let taken = with_part part (transfer_parts (add64 sum part_amount) changes) in
    if leb_ℤ part_amount (pos 0) then skipped else if c.expire_at =? 0 then none else taken

-- Nanoseconds of a day; an instant's date.
abbrev pub day_nanos : ℕ
day_nanos = 24 * 60 * 60 * 1000000000

abbrev pub date_of : ℕ → ℕ
date_of instant = instant / day_nanos

-- The largest time.Duration in days: `Sub` stops there.
abbrev pub max_duration_days : ℕ
max_duration_days = 106751

-- `diffDaysUTCDate` of two dates, for a later date at or behind the earlier one; the result of a
-- negative difference is not used but for its sign, and is 0 here.
unfoldable pub diff_days : ℕ → ℕ → ℕ
diff_days later earlier =
    let days = later - earlier in if ltb max_duration_days days then max_duration_days else days

abbrev pub min_int64 : ℤ → ℤ → ℤ
min_int64 a b = if ltb_ℤ a b then a else b

-- The expiry of a refunded part: as many days from the refund as the book had left when the origin
-- took from it, and one at least.
unfoldable pub refund_expire_at : ℕ → BookChange → ℕ
unfolding diff_days
refund_expire_at base c =
    let remaining = diff_days c.expire_at (date_of c.created_at) in
    base + (if remaining =? 0 then 1 else remaining)

-- `parts[n-1].Amount += use`, or one more part
unfoldable pub add_part : BookCreditPart → List BookCreditPart → List BookCreditPart
add_part p [] = p ∷ []
add_part p (q ∷ []) =
    if q.expire_at =? p.expire_at
    then record q { amount = add64 q.amount p.amount } ∷ []
    else q ∷ p ∷ []
add_part p (q ∷ r ∷ parts) = q ∷ add_part p (r ∷ parts)

-- One round of the loop of a refund, up to the part: what it leaves of the offset, and its use.
unfoldable pub refund_use : ℤ → ℤ → BookChange → ℤ × ℤ
refund_use left_offset left_refund c =
    let consumed = neg64 c.delta in
    let already = min_int64 left_offset consumed in
    let available = sub64 consumed already in
    if leb_ℤ consumed (pos 0)
    then (left_offset, pos 0)
    else if leb_ℤ available (pos 0)
    then (sub64 left_offset already, pos 0)
    else (sub64 left_offset already, min_int64 available left_refund)

-- The loop of `buildRefundBookCreditParts`, over the debits of the origin: the parts, and what is
-- left of the refund.
unfoldable pub refund_parts :
    ℕ → ℤ → ℤ → List BookChange → List BookCreditPart → List BookCreditPart × ℤ
unfolding refund_use refund_expire_at add_part
refund_parts base left_offset left_refund [] parts = (parts, left_refund)
refund_parts base left_offset left_refund (c ∷ debits) parts =
    let (offset', use_amount) = refund_use left_offset left_refund c in
    let left' = sub64 left_refund use_amount in
    let parts' =
      add_part (record { expire_at = refund_expire_at base c; amount = use_amount }) parts in
    let skipped = refund_parts base offset' left_refund debits parts in
    let taken = refund_parts base offset' left' debits parts' in
    if leb_ℤ use_amount (pos 0)
    then skipped
    else if eqb_ℤ left' (pos 0)
    then (parts', left')
    else taken
