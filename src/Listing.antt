-- ===== src/Listing.antt =====
-- `ListTransferTxns` of internal/db/repository.go with its statement: the transactions of a merchant,
-- the newest first, page by page. A page token is the last row's time and number.
pub mod Order
pub mod Pages
pub mod Token
pub mod Kept
pub mod Logs
pub mod Service
use coin.Base.{
  ℕ, zero, suc, ◌+◌, String, Bool, true, false, not, ◌&&◌, ◌||◌, Option, none, some, List, [], ◌∷◌,
  ltb, leb, ◌=?◌, ◌==◌, if◌then◌else◌, length,
}
use coin.Int.{ℤ, pos, pos_part, leb_ℤ}
use coin.Domain.{Customer}
use coin.Domain.Account.{Account}
use coin.Ledger.Schema.{TxnRow, Db}
use coin.Ledger.Query.{select, any}

-- A row of txn, with the column that the other statements do not read.
pub record ListRow : Type 0 where
  pub txn : TxnRow
  pub created_at : ℕ

-- A filter that is left empty is none.
pub record TxnListFilter : Type 0 where
  pub merchant_no : String
  pub out_user_id : String
  pub scene : String
  pub status : String
  pub start_time : Option ℕ
  pub end_time : Option ℕ
  pub page_size : ℤ

abbrev pub not_before : Option ℕ → ℕ → Bool
not_before none t = true
not_before (some s) t = leb s t

abbrev pub not_after : Option ℕ → ℕ → Bool
not_after none t = true
not_after (some e) t = leb t e

-- EXISTS: an account of the merchant's customer with the id is a party.
abbrev is_party : Db → String → TxnRow → Bool
is_party db out_user_id t =
    any
      (λ (a : Account).
        (a.account_no == t.debit_account_no || a.account_no == t.credit_account_no)
        && any
            (λ (c : Customer).
              c.customer_no == a.customer_no
              && c.merchant_no == t.merchant_no
              && c.out_user_id == out_user_id)
            db.customers)
      db.accounts

-- WHERE, but for the cursor
unfoldable pub is_listed : Db → TxnListFilter → ListRow → Bool
is_listed db f r =
    (f.merchant_no == "" || r.txn.merchant_no == f.merchant_no)
    && (f.out_user_id == "" || is_party db f.out_user_id r.txn)
    && (f.scene == "" || r.txn.transfer_scene == f.scene)
    && (f.status == "" || r.txn.status == f.status)
    && not_before f.start_time r.created_at
    && not_after f.end_time r.created_at

-- ORDER BY created_at DESC, txn_no DESC
abbrev pub is_above : ListRow → ListRow → Bool
is_above r s =
    ltb s.created_at r.created_at || s.created_at =? r.created_at && ltb s.txn.txn_no r.txn.txn_no

abbrev pub insert_row : ListRow → List ListRow → List ListRow
insert_row r [] = r ∷ []
insert_row r (s ∷ rows) =
    let rest = insert_row r rows in if is_above r s then r ∷ s ∷ rows else s ∷ rest

abbrev pub newest_first : List ListRow → List ListRow
newest_first [] = []
newest_first (r ∷ rows) = insert_row r (newest_first rows)

-- The row is behind the cursor.
abbrev pub is_behind : Option (ℕ × ℕ) → ListRow → Bool
is_behind none r = true
is_behind (some (t, n)) r = ltb r.created_at t || r.created_at =? t && ltb r.txn.txn_no n

abbrev pub take {ℓ} : {A : Type ℓ} → ℕ → List A → List A
take zero xs = []
take (suc n) [] = []
take (suc n) (x ∷ xs) = x ∷ take n xs

-- `ListTransferTxns`, the statement
unfoldable pub list_transfer_txns_rows :
    Db → TxnListFilter → Option (ℕ × ℕ) → ℕ → List ListRow → List ListRow
list_transfer_txns_rows db f cursor limit rows =
    take limit (newest_first (select (λ r. is_listed db f r && is_behind cursor r) rows))

abbrev pub page_size_of : TxnListFilter → ℕ
page_size_of f =
    if leb_ℤ f.page_size (pos 0)
    then 20
    else if ltb 200 (pos_part f.page_size)
    then 200
    else pos_part f.page_size

abbrev pub cursor_of : ListRow → ℕ × ℕ
cursor_of r = (r.created_at, r.txn.txn_no)

abbrev pub last_cursor : List ListRow → Option (ℕ × ℕ)
last_cursor [] = none
last_cursor (r ∷ []) = some (cursor_of r)
last_cursor (r ∷ s ∷ rows) = last_cursor (s ∷ rows)

-- `ListTransferTxns`: the page, and the cursor of the next one if there is more
unfoldable pub list_transfer_txns :
    Db → TxnListFilter → Option (ℕ × ℕ) → List ListRow → List ListRow × Option (ℕ × ℕ)
list_transfer_txns db f cursor rows =
    let size = page_size_of f in
    let items = list_transfer_txns_rows db f cursor (suc size) rows in
    if leb (length items) size
    then (items, none)
    else (take size items, last_cursor (take size items))
