-- ===== src/Ledger/Query/Accounts.antt =====
-- The statements on the tables account, account_change_log, customer and merchant.
use coin.Base.{String, Bool, not, ◌&&◌, Option, none, some, [], ◌∷◌, ◌++◌, ◌==◌}
use coin.Int.{ℤ, pos, ◌+ℤ◌}
use coin.Domain.{Merchant}
use coin.Domain.Error.{store_error, account_no_exists}
use coin.Domain.Account.{Account}
use coin.Ledger.Schema.{AccountChange, Db, Tx, pure, gets, ◌>>=◌, ◌>>◌, fail_if, modify}
use coin.Ledger.Query.{find, update_where, any, is_bigint}

abbrev pub of_account : String → Account → Bool
of_account account_no a = a.account_no == account_no

abbrev pub set_balance : ℤ → Account → Account
set_balance balance a = record a { balance = balance }

-- `GetAccountForUpdateByNo`, and the row as an `Account`
unfoldable pub get_account : String → Db → Option Account
get_account account_no db = find (of_account account_no) db.accounts

-- `UpdateAccountBalance`
unfoldable pub update_account_balance : ℤ → String → Db → Db
update_account_balance balance account_no db = record db {
  accounts = update_where (of_account account_no) (set_balance balance) db.accounts;
}

-- `InsertAccountChange`
unfoldable pub insert_account_change : AccountChange → Db → Db
insert_account_change c db = record db { account_changes = db.account_changes ++ c ∷ [] }

-- `TryCreditAccountBalanceNonBookRefund`: the new balance, `none` if no row fits
unfoldable pub try_credit_non_book_refund : String → ℤ → Tx (Option ℤ)
unfolding get_account update_account_balance is_bigint
try_credit_non_book_refund account_no amount = do
  found ← gets (λ db. find (λ a. a.account_no == account_no && not a.book_enabled) db.accounts)
  elim found [
    | none ↦ pure none
    | some a ↦ do
      fail_if (not (is_bigint (a.balance +ℤ amount))) store_error
      modify (update_account_balance (a.balance +ℤ amount) account_no)
      pure (some (a.balance +ℤ amount))
  ]

-- `CreateAccount`; the balance of a new row is 0
unfoldable pub insert_account : Account → Tx (Unit {0})
insert_account a = do
  taken ← gets (λ db. any (of_account a.account_no) db.accounts)
  fail_if taken account_no_exists
  modify (λ db. record db { accounts = db.accounts ++ record a { balance = pos 0 } ∷ [] })

-- `SetCustomerDefaultAccountIfEmpty`; an empty text is NULL
unfoldable pub set_customer_default_account_if_empty : String → String → String → Db → Db
set_customer_default_account_if_empty account_no merchant_no customer_no db = record db {
  customers =
      update_where
        (λ c.
          c.merchant_no == merchant_no
          && c.customer_no == customer_no
          && c.default_account_no == ""
          && any
              (λ a.
                a.account_no == account_no
                && a.merchant_no == c.merchant_no
                && a.customer_no == c.customer_no)
              db.accounts)
        (λ c. record c { default_account_no = account_no }) db.customers;
}

-- `GetMerchantForUpdateByNo`
unfoldable pub get_merchant : String → Db → Option Merchant
get_merchant merchant_no db = find (λ m. m.merchant_no == merchant_no) db.merchants

-- `UpdateMerchantWriteoffAccountNo`; the column is unique where it is not NULL
unfoldable pub update_merchant_writeoff_account_no : String → String → Tx (Unit {0})
update_merchant_writeoff_account_no merchant_no account_no = do
  taken ← gets (λ db.
      any (λ m. m.writeoff_account_no == account_no && not (m.merchant_no == merchant_no))
        db.merchants)
  fail_if taken store_error
  modify (λ db. record db {
    merchants =
        update_where (λ m. m.merchant_no == merchant_no)
          (λ m. record m { writeoff_account_no = account_no }) db.merchants;
  })
