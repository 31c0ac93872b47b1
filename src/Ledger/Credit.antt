-- ===== src/Ledger/Credit.antt =====
-- repository.go: what credits an account, and the book parts of a transfer and of a refund.
use coin.Base.{ℕ, String, not, ◌||◌, Option, none, some, ◌=?◌, ◌==◌, if◌then◌else◌}
use coin.Int.{ℤ, pos, leb_ℤ, eqb_ℤ}
use coin.Int.Word.{add64}
use coin.Text.{trim_space}
use coin.Domain.Error.{account_resolve_failed, id_error}
use coin.Domain.Account.{Account}
use coin.Ledger.Schema.{Db, Env, Tx, pure, gets, or_fail, ◌>>=◌, ◌>>◌, fail_if, modify}
use coin.Ledger.Query.Accounts.{get_account, update_account_balance, insert_account_change}
use coin.Ledger.Query.Books.{no_expire_book_date, get_book, upsert_book_balance, insert_book_change}
use coin.Ledger.Book.{PlannedChange}

-- The book that a credit goes to, and its balance: the account's book of that date, or a new one.
unfoldable pub find_or_new_book : Option ℕ → String → ℕ → Tx (ℕ × ℤ)
find_or_new_book fresh account_no expire_at = do
  found ← gets (get_book account_no expire_at)
  elim found [
    | some b ↦ pure (b.book_no, b.balance)
    | none ↦ do book_no ← or_fail fresh id_error; pure (book_no, pos 0)
  ]

abbrev pub record_book_change : Env → ℕ → String → PlannedChange → Db → Db
record_book_change env txn_no account_no p = insert_book_change (record {
  txn_no = txn_no;
  account_no = account_no;
  book_no = p.book_no;
  delta = p.delta;
  balance_before = p.balance_before;
  balance_after = p.balance_after;
  expire_at = p.expire_at;
  created_at = env.now_tx;
})

abbrev pub record_account_change : ℕ → String → ℤ → ℤ → ℤ → Db → Db
record_account_change txn_no account_no delta before after = insert_account_change (record {
  txn_no = txn_no;
  account_no = account_no;
  delta = delta;
  balance_before = before;
  balance_after = after;
})

-- The date of `creditExpireAt`, or the date of the book that never expires.
abbrev pub credit_date : Option ℕ → ℕ
credit_date none = no_expire_book_date
credit_date (some d) = if d =? 0 then no_expire_book_date else d

-- `applyAccountCreditWithAccountTx`; `first` is the first UUID that it may take
unfoldable pub apply_account_credit_with_account :
    Env → ℕ → ℕ → Account → ℤ → Option ℕ → Tx (Unit {0})
unfolding find_or_new_book
apply_account_credit_with_account env first txn_no credit amount credit_expire_at = do
  fail_if (trim_space credit.account_no == "" || leb_ℤ amount (pos 0)) account_resolve_failed
  let credit_after = add64 credit.balance amount
  if credit.book_enabled
      then (do
        let expire_date = credit_date credit_expire_at
        (book_no, before) ← find_or_new_book (env.uuid first) credit.account_no expire_date
        let after = add64 before amount
        modify (
            record_book_change env txn_no credit.account_no (record {
              book_no = book_no;
              expire_at = expire_date;
              delta = amount;
              balance_before = before;
              balance_after = after;
            }))
        modify (record_account_change txn_no credit.account_no amount credit.balance credit_after)
        balance ← upsert_book_balance book_no credit.account_no expire_date amount
        fail_if (not (eqb_ℤ balance after)) account_resolve_failed
        modify (update_account_balance credit_after credit.account_no))
      else (do
        modify (record_account_change txn_no credit.account_no amount credit.balance credit_after)
        modify (update_account_balance credit_after credit.account_no))

-- `applyAccountCreditTx`
unfoldable pub apply_account_credit : Env → ℕ → String → ℤ → Option ℕ → Tx (Unit {0})
unfolding apply_account_credit_with_account
apply_account_credit env txn_no credit_account_no amount credit_expire_at = do
  fail_if (credit_account_no == "" || leb_ℤ amount (pos 0)) account_resolve_failed
  credit ← or_fail (← gets (get_account credit_account_no)) account_resolve_failed
  apply_account_credit_with_account env 0 txn_no credit amount credit_expire_at
