-- ===== src/Ledger/Query/Books.antt =====
-- The statements on the tables account_book and account_book_change_log.
use coin.Base.{
  ℕ, String, Bool, true, false, not, ◌&&◌, ◌||◌, Option, none, some, List, [], ◌∷◌, ◌++◌, ltb, leb,
  ◌=?◌, ◌==◌, if◌then◌else◌,
}
use coin.Int.{ℤ, pos, ◌+ℤ◌, ltb_ℤ}
use coin.Domain.Error.{store_error}
use coin.Ledger.Schema.{BookRow, BookChange, Db, Tx, pure, gets, ◌>>=◌, ◌>>◌, fail_if, modify}
use coin.Ledger.Query.{find, select, update_where, any, is_bigint}

-- `noExpireBookDate`, 9999-12-31
abbrev pub no_expire_book_date : ℕ
no_expire_book_date = 3652058

-- ORDER BY expire_at, book_no, behind the flag of the book that never expires
abbrev comes_first : BookRow → BookRow → Bool
comes_first a b =
    let last = λ (r : BookRow). r.expire_at =? no_expire_book_date in
    if last a
    then last b && leb a.book_no b.book_no
    else last b
      || ltb a.expire_at b.expire_at
      || a.expire_at =? b.expire_at && leb a.book_no b.book_no

insert_row : BookRow → List BookRow → List BookRow
insert_row b [] = b ∷ []
insert_row b (c ∷ rest) = if comes_first b c then b ∷ c ∷ rest else c ∷ insert_row b rest

pub order_by_expiry : List BookRow → List BookRow
unfolding insert_row
order_by_expiry [] = []
order_by_expiry (b ∷ rest) = insert_row b (order_by_expiry rest)

abbrev pub is_available : String → ℕ → BookRow → Bool
is_available account_no now b =
    b.account_no == account_no
    && (ltb now b.expire_at && ltb_ℤ (pos 0) b.balance || b.expire_at =? no_expire_book_date)

-- `ListAvailableAccountBooksForUpdate`
unfoldable pub list_available_books : String → ℕ → Db → List BookRow
unfolding order_by_expiry
list_available_books account_no now db =
    order_by_expiry (select (is_available account_no now) db.books)

abbrev pub is_expired_positive : String → ℕ → BookRow → Bool
is_expired_positive account_no now b =
    b.account_no == account_no
    && leb b.expire_at now
    && not (b.expire_at =? no_expire_book_date)
    && ltb_ℤ (pos 0) b.balance

-- `ListExpiredPositiveAccountBooksForUpdate`; no row of it is the book that never expires
unfoldable pub list_expired_positive_books : String → ℕ → Db → List BookRow
unfolding order_by_expiry
list_expired_positive_books account_no now db =
    order_by_expiry (select (is_expired_positive account_no now) db.books)

abbrev pub of_book : String → ℕ → BookRow → Bool
of_book account_no expire_at b = b.account_no == account_no && b.expire_at =? expire_at

-- `GetAccountBookForUpdateByAccountExpire`
unfoldable pub get_book : String → ℕ → Db → Option BookRow
get_book account_no expire_at db = find (of_book account_no expire_at) db.books

abbrev add_to_book : ℤ → BookRow → BookRow
add_to_book delta b = record b { balance = b.balance +ℤ delta }

-- `UpsertAccountBookBalance`, with the balance that it returns. A new row whose book_no is taken
-- breaks the primary key.
unfoldable pub upsert_book_balance : ℕ → String → ℕ → ℤ → Tx ℤ
unfolding get_book is_bigint
upsert_book_balance book_no account_no expire_at delta = do
  found ← gets (get_book account_no expire_at)
  elim found [
    | none ↦ do
      taken ← gets (λ db. any (λ b. b.book_no =? book_no) db.books)
      fail_if taken store_error
      modify (λ db. record db {
        books =
            db.books
            ++ record {
              book_no = book_no;
              account_no = account_no;
              expire_at = expire_at;
              balance = delta;
            }
              ∷ [];
      })
      pure delta
    | some b ↦ do
      fail_if (not (is_bigint (b.balance +ℤ delta))) store_error
      modify (λ db. record db {
        books = update_where (of_book account_no expire_at) (add_to_book delta) db.books;
      })
      pure (b.balance +ℤ delta)
  ]

-- The delta that the payload of `BatchUpdateAccountBookBalances` has for a book.
abbrev payload_delta : ℕ → List (ℕ × ℤ) → Option ℤ
payload_delta book_no [] = none
payload_delta book_no ((n, delta) ∷ rest) =
    if n =? book_no then some delta else payload_delta book_no rest

abbrev updated_row : List (ℕ × ℤ) → BookRow → BookRow
updated_row payload b = elim (payload_delta b.book_no payload) [
  | none ↦ b
  | some delta ↦ add_to_book delta b
]

abbrev in_payload : List (ℕ × ℤ) → BookRow → Bool
in_payload payload b = elim (payload_delta b.book_no payload) [ none ↦ false | some _ ↦ true ]

abbrev map_rows {ℓ} : {A : Type ℓ} → (BookRow → A) → List BookRow → List A
map_rows f [] = []
map_rows f (b ∷ rest) = f b ∷ map_rows f rest

abbrev pub number_and_balance : BookRow → ℕ × ℤ
number_and_balance b = (b.book_no, b.balance)

-- `BatchUpdateAccountBookBalances`, with the rows that it returns
unfoldable pub batch_update_book_balances : List (ℕ × ℤ) → Tx (List (ℕ × ℤ))
unfolding is_bigint
batch_update_book_balances payload = do
  rows ← gets (λ db. map_rows (updated_row payload) (select (in_payload payload) db.books))
  fail_if (any (λ b. not (is_bigint b.balance)) rows) store_error
  modify (λ db. record db { books = map_rows (updated_row payload) db.books })
  pure (map_rows number_and_balance rows)

-- `InsertAccountBookChange`
unfoldable pub insert_book_change : BookChange → Db → Db
insert_book_change c db = record db { book_changes = db.book_changes ++ c ∷ [] }

-- `ListOriginDebitBookChanges`, in the order of their insertion
unfoldable pub list_origin_debit_book_changes : ℕ → String → Db → List BookChange
list_origin_debit_book_changes txn_no account_no db =
    select (λ c. c.txn_no =? txn_no && c.account_no == account_no && ltb_ℤ c.delta (pos 0))
      db.book_changes
