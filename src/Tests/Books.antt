-- ===== src/Tests/Books.antt =====
-- The theorems on the loops over books, applied.
use coin.Base.{ℕ, ◌+◌, ◌-◌, ◌≤◌, ◌≡◌, inr, refl, List, [], ◌∷◌, ◌++◌, arith, All}
use coin.Int.{pos, negsuc, ◌+ℤ◌, pos_part}
use coin.Ledger.Schema.{BookRow, BookChange}
use coin.Ledger.Book.{debit_books, refund_parts}
use coin.Ledger.Debit.{writeoff_books}
use coin.Ledger.Debit.Writeoff.{Empty, writeoff_books_lem}
use coin.Ledger.Book.Take.{IsAmount, Fits, sum_deltas, AreChanges, debit_books_lem}
use coin.Ledger.Book.Order.{IsDated, holdings, debit_books_fefo}
use coin.Ledger.Book.Refund.{IsDebit, taken, sum_amounts}
use coin.Ledger.Book.Refund.Window.{amount_at, owed, refund_parts_window}

abbrev book : ℕ → ℕ → ℕ → BookRow
book book_no expire_at balance = record {
  book_no = book_no;
  account_no = "A";
  expire_at = expire_at;
  balance = pos balance;
}

abbrev first : List BookRow
first = book 1 100 20 ∷ []

abbrev second : List BookRow
second = book 2 200 50 ∷ []

IsAmount-30 : IsAmount (pos 30)
IsAmount-30 = record { nonneg = refl; small = omega arith }

Fits-30 : (book_no expire_at n : ℕ) → n ≤ 100 → Fits (pos 30) (book book_no expire_at n)
Fits-30 book_no expire_at n h = record {
  balance_above = omega arith;
  balance_below = omega arith;
  one_sign = inr refl;
  room = omega arith;
}

first-Fits : All (Fits (pos 30)) first
first-Fits = (Fits-30 1 100 20 (omega arith), tt)

both-Fits : All (Fits (pos 30)) (first ++ second)
both-Fits = (Fits-30 1 100 20 (omega arith), (Fits-30 2 200 50 (omega arith), tt))

first-IsDated : All IsDated first
first-IsDated = ((λ e. omega (arith, e)), tt)

debit_books_lem_example :
    let (rest, changes) = debit_books (pos 30) (first ++ second) in
    IsAmount rest × (rest ≡ pos 30 +ℤ sum_deltas changes) × AreChanges (first ++ second) changes
debit_books_lem_example = debit_books_lem (pos 30) (first ++ second) IsAmount-30 both-Fits

debit_books_fefo_example :
    let (rest, later) = debit_books (pos (30 - holdings first)) second in
    debit_books (pos 30) (first ++ second) ≡ (rest, (debit_books (pos 30) first).1 ++ later)
debit_books_fefo_example =
    debit_books_fefo (pos 30) first second IsAmount-30 first-Fits first-IsDated

abbrev debit_of : ℕ → ℕ → BookChange
debit_of expire_at n = record {
  txn_no = 5;
  account_no = "A";
  book_no = 1;
  delta = negsuc n;
  balance_before = pos (n + 1);
  balance_after = pos 0;
  expire_at = expire_at;
  created_at = 0;
}

-- The origin took 20 from one book and 10 from another.
abbrev debits : List BookChange
debits = debit_of 100 19 ∷ debit_of 200 9 ∷ []

debits-IsDebit : All IsDebit debits
debits-IsDebit = (
  record { negative = refl; small = omega arith },
  (record { negative = refl; small = omega arith }, tt),
)

IsAmount-5 : IsAmount (pos 5)
IsAmount-5 = record { nonneg = refl; small = omega arith }

-- A refund of 30 behind one of 5, of which the debits leave 25.
refund_parts_window_example :
    let (parts, left) = refund_parts 1000 (pos 5) (pos 30) debits [] in
    (amount_at 1100 parts ≡ owed 1000 5 30 1100 0 debits)
    × (sum_amounts parts + pos_part left ≡ 30)
    × (pos_part left ≡ 30 - (taken debits - 5))
    × IsAmount left
refund_parts_window_example =
    refund_parts_window 1000 1100 (pos 5) (pos 30) debits IsAmount-5 IsAmount-30 debits-IsDebit

writeoff_books_lem_example :
    let (total, planned) = writeoff_books (pos 3) (first ++ second) in
    (total ≡ pos (3 + holdings (first ++ second)))
    × (sum_deltas planned +ℤ total ≡ pos 3)
    × Empty (first ++ second) planned
writeoff_books_lem_example =
    writeoff_books_lem 3 (first ++ second) ((refl, omega arith), ((refl, omega arith), tt))
      (omega arith)
