-- ===== src/Ledger/Book/Order.antt =====
-- The order in which a debit's loop empties the books.
use coin.Base.{
  ℕ, ◌+◌, ◌-◌, ◌≡◌, ◌≢◌, refl, true, Option, none, some, List, [], ◌∷◌, ◌++◌, arith, All,
  Bool-cases, inl, inr, ap,
}
use coin.Int.{ℤ, pos, pos_part, eqb_ℤ}
use coin.Int.Word.{sub64_parts}
use coin.Ledger.Schema.{BookRow}
use coin.Ledger.Query.Books.{no_expire_book_date}
use coin.Ledger.Book.{PlannedChange, debit_book, debit_books, cons_some}
use coin.Ledger.Book.Take.{IsAmount, Fits, All-Fits_mono, debit_book_left, debit_book_le}

-- A book that expires.
abbrev pub IsDated : BookRow → Type 0
IsDated b = b.expire_at ≢ no_expire_book_date

-- What the books hold, where a balance is positive.
abbrev pub holdings : List BookRow → ℕ
holdings [] = 0
holdings (b ∷ books) = pos_part b.balance + holdings books

debit_book_dated :
    (left : ℤ) (b : BookRow)
    → IsAmount left
    → Fits left b
    → IsDated b
    → pos_part (debit_book left b).0 ≡ pos_part left - pos_part b.balance
unfolding debit_book
debit_book_dated left b h f d = ground (arith, sub64_parts left b.balance, sub64_parts left left)

amount_eq : (left : ℤ) (n : ℕ) → IsAmount left → pos_part left ≡ n → left ≡ pos n
amount_eq left n h e = ground arith

-- From books that expire the loop takes all that they hold, up to the amount.
pub debit_books_dated :
    (left : ℤ) (books : List BookRow)
    → IsAmount left
    → All (Fits left) books
    → All IsDated books
    → (debit_books left books).0 ≡ pos (pos_part left - holdings books)
unfolding debit_books
debit_books_dated left [] h f d = amount_eq left _ h (omega arith)
debit_books_dated left (b ∷ books) h f d = elim (Bool-cases (eqb_ℤ left (pos 0))) [
  | inl stop ↦ rw stop (amount_eq left _ h (ground arith))
  | inr more ↦
      let left' = (debit_book left b).0 in
      rw
        (
          more,
          debit_books_dated left' books (debit_book_left left b h f.0).0
              (All-Fits_mono left left' books (debit_book_le left b h f.0) f.1) d.1,
        )
        (ap pos (omega (arith, debit_book_dated left b h f.0 d.0)))
]

debit_books_stop :
    (left : ℤ) (books : List BookRow)
    → eqb_ℤ left (pos 0) ≡ true
    → debit_books left books ≡ (left, [])
unfolding debit_books
debit_books_stop left [] e = refl
debit_books_stop left (b ∷ books) e = rw e

cons_some-append :
    (o : Option PlannedChange) (xs ys : List PlannedChange)
    → cons_some o (xs ++ ys) ≡ cons_some o xs ++ ys
cons_some-append none xs ys = refl
cons_some-append (some p) xs ys = refl

debit_books-append :
    (left : ℤ) (us vs : List BookRow)
    → let (l, first) = debit_books left us in
      let (r, later) = debit_books l vs in debit_books left (us ++ vs) ≡ (r, first ++ later)
unfolding debit_books
debit_books-append left [] vs = refl
debit_books-append left (b ∷ us) vs = elim (Bool-cases (eqb_ℤ left (pos 0))) [
  | inl stop ↦ rw (stop, debit_books_stop left vs stop)
  | inr more ↦
      rw (more, debit_books-append (debit_book left b).0 us vs)
        (λ i. (
          (debit_books (debit_books (debit_book left b).0 us).0 vs).0,
          cons_some-append (debit_book left b).1 (debit_books (debit_book left b).0 us).1
              (debit_books (debit_books (debit_book left b).0 us).0 vs).1 i,
        ))
]

-- Earlier books first, for an int64 amount of 0 or more that overflows no balance: behind books that
-- expire the later books are debited with what the earlier ones could not cover, and not at all if
-- they could.
pub debit_books_fefo :
    (left : ℤ) (us vs : List BookRow)
    → IsAmount left
    → All (Fits left) us
    → All IsDated us
    → let (rest, later) = debit_books (pos (pos_part left - holdings us)) vs in
      debit_books left (us ++ vs) ≡ (rest, (debit_books left us).1 ++ later)
debit_books_fefo left us vs h f d =
    rw (← debit_books_dated left us h f d) (debit_books-append left us vs)
