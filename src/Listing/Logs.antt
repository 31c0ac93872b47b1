-- ===== src/Listing/Logs.antt =====
-- What merchants read of accounts and books: ListAccountChangeLogs, ListActiveAccountBooks and
-- ListBookCreditChangeLogs of internal/db/repository.go, with their statements.
pub mod Own
use coin.Base.{
  ℕ, suc, ◌*◌, ◌≡◌, ◌≤◌, refl, ap, String, Bool, true, false, ◌&&◌, ◌||◌, Option, none, some, List,
  [], ◌∷◌, map, ltb, leb, ◌=?◌, ◌==◌, if◌then◌else◌, length, All, arith, Bool-cases, inl, inr,
}
use coin.Int.{ℤ, pos, pos_part, leb_ℤ, ltb_ℤ}
use coin.Domain.Account.{Account}
use coin.Ledger.Schema.{TxnRow, BookRow, AccountChange, BookChange, Db}
use coin.Ledger.Query.{select, any}
use coin.Ledger.Query.Txns.{get_txn}
use coin.Ledger.Book.{date_of, day_nanos}
use coin.Listing.{take}
use coin.Http.Services.{
  AccountChangeLog, AccountChangeLogListFilter, AccountBook, BookCreditChangeLog,
}

-- A row of account_change_log, with its key and the column that the other statements do not read.
pub record AccountChangeRow : Type 0 where
  pub change_id : ℕ
  pub change : AccountChange
  pub created_at : ℕ

-- A row of account_book_change_log, with its key.
pub record BookChangeRow : Type 0 where
  pub change_id : ℕ
  pub change : BookChange

-- JOIN account: the row's account, of the merchant, is the one that is asked for.
abbrev pub is_change_of : Db → AccountChangeLogListFilter → AccountChangeRow → Bool
is_change_of db f r =
    any (λ (a : Account). a.account_no == r.change.account_no && a.merchant_no == f.merchant_no)
      db.accounts
    && r.change.account_no == f.account_no

-- The row is behind the cursor.
abbrev pub is_earlier : Option (ℕ × ℕ) → AccountChangeRow → Bool
is_earlier none r = true
is_earlier (some (t, n)) r = ltb r.created_at t || r.created_at =? t && ltb r.change_id n

-- ORDER BY created_at DESC, change_id DESC
abbrev pub insert_latest : AccountChangeRow → List AccountChangeRow → List AccountChangeRow
insert_latest r [] = r ∷ []
insert_latest r (s ∷ rows) =
    let rest = insert_latest r rows in
    if ltb s.created_at r.created_at || s.created_at =? r.created_at && ltb s.change_id r.change_id
    then r ∷ s ∷ rows
    else s ∷ rest

abbrev pub latest_first : List AccountChangeRow → List AccountChangeRow
latest_first [] = []
latest_first (r ∷ rows) = insert_latest r (latest_first rows)

-- `ListAccountChangeLogs`, the statement
unfoldable pub list_account_change_logs_rows :
    Db
    → AccountChangeLogListFilter
    → Option (ℕ × ℕ)
    → ℕ
    → List AccountChangeRow
    → List AccountChangeRow
list_account_change_logs_rows db f cursor limit rows =
    take limit (latest_first (select (λ r. is_change_of db f r && is_earlier cursor r) rows))

abbrev title_of : Option TxnRow → String
title_of none = ""
title_of (some t) = t.title

abbrev remark_of : Option TxnRow → String
remark_of none = ""
remark_of (some t) = t.remark

abbrev pub page_limit : ℤ → ℕ
page_limit size =
    if leb_ℤ size (pos 0) then 20 else if ltb 200 (pos_part size) then 200 else pos_part size

abbrev last_log : List AccountChangeRow → Option (ℕ × ℕ)
last_log [] = none
last_log (r ∷ []) = some (r.created_at, r.change_id)
last_log (r ∷ s ∷ rows) = last_log (s ∷ rows)

-- ORDER BY expire_at ASC
abbrev insert_by_expiry : BookRow → List BookRow → List BookRow
insert_by_expiry b [] = b ∷ []
insert_by_expiry b (c ∷ books) =
    let rest = insert_by_expiry b books in
    if ltb c.expire_at b.expire_at then c ∷ rest else b ∷ c ∷ books

abbrev by_expiry : List BookRow → List BookRow
by_expiry [] = []
by_expiry (b ∷ books) = insert_by_expiry b (by_expiry books)

-- `ListActiveAccountBooks`, the statement
unfoldable pub list_active_account_books_rows : String → ℕ → Db → List BookRow
list_active_account_books_rows account_no today db = by_expiry (
    select
      (λ (b : BookRow).
        b.account_no == account_no && ltb_ℤ (pos 0) b.balance && leb today b.expire_at)
      db.books)

-- ORDER BY created_at ASC, change_id ASC
abbrev insert_oldest : BookChangeRow → List BookChangeRow → List BookChangeRow
insert_oldest r [] = r ∷ []
insert_oldest r (s ∷ rows) =
    let rest = insert_oldest r rows in
    if ltb s.change.created_at r.change.created_at
      || s.change.created_at =? r.change.created_at && ltb s.change_id r.change_id
    then s ∷ rest
    else r ∷ s ∷ rows

abbrev oldest_first : List BookChangeRow → List BookChangeRow
oldest_first [] = []
oldest_first (r ∷ rows) = insert_oldest r (oldest_first rows)

-- `ListBookCreditChangeLogs`, the statement
unfoldable pub list_book_credit_change_logs_rows : ℕ → List BookChangeRow → List BookChangeRow
list_book_credit_change_logs_rows book_no rows =
    oldest_first (select (λ r. r.change.book_no =? book_no && ltb_ℤ (pos 0) r.change.delta) rows)

-- The texts of the numbers of transactions and of books are those of UUIDs.
module _ (text : ℕ → String) where
  abbrev pub log_of : Db → AccountChangeRow → AccountChangeLog
  log_of db r = record {
    change_id = pos r.change_id;
    txn_no = text r.change.txn_no;
    account_no = r.change.account_no;
    delta = r.change.delta;
    balance_before = r.change.balance_before;
    balance_after = r.change.balance_after;
    title = title_of (get_txn r.change.txn_no db);
    remark = remark_of (get_txn r.change.txn_no db);
    created_at = r.created_at;
  }

  -- `ListAccountChangeLogs`: the page, and the cursor of the next one if there is more
  unfoldable pub list_account_change_logs :
      Db
      → AccountChangeLogListFilter
      → Option (ℕ × ℕ)
      → List AccountChangeRow
      → List AccountChangeLog × Option (ℕ × ℕ)
  list_account_change_logs db f cursor rows =
      let size = page_limit f.page_size in
      let items = list_account_change_logs_rows db f cursor (suc size) rows in
      if leb (length items) size
      then (map (log_of db) items, none)
      else (map (log_of db) (take size items), last_log (take size items))

  -- `ListActiveAccountBooks`; dates are days, of which an answer has the first instant
  unfoldable pub list_active_account_books : String → ℕ → Db → List AccountBook
  list_active_account_books account_no now db =
      map
        (λ (b : BookRow). record {
          book_no = text b.book_no;
          account_no = b.account_no;
          expire_at = b.expire_at * day_nanos;
          balance = b.balance;
        })
        (list_active_account_books_rows account_no (date_of now) db)

  -- `ListBookCreditChangeLogs`
  unfoldable pub list_book_credit_change_logs :
      ℕ → Db → List BookChangeRow → List BookCreditChangeLog
  list_book_credit_change_logs book_no db rows =
      map
        (λ (r : BookChangeRow). record {
          change_id = pos r.change_id;
          txn_no = text r.change.txn_no;
          delta = r.change.delta;
          title = title_of (get_txn r.change.txn_no db);
          created_at = r.change.created_at;
        })
        (list_book_credit_change_logs_rows book_no rows)
