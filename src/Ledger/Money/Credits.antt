-- ===== src/Ledger/Money/Credits.antt =====
-- What the credit of a transfer and of a refund leave of the accounts and the transactions.
use coin.Base.{ℕ, ◌≡◌, String, not, Option, none, some, List, arith, eq_iff}
use coin.Int.{ℤ, pos, ◌+ℤ◌}
use coin.Int.Word.{add64, IsInt64, add64_exact}
use coin.Domain.Error.{Error, account_resolve_failed}
use coin.Domain.Account.{Account}
use coin.Ledger.Schema.{Db, Env}
use coin.Ledger.Query.Accounts.{
  of_account, get_account, update_account_balance, insert_account_change,
  try_credit_non_book_refund,
}
use coin.Ledger.Book.{BookCreditPart}
use coin.Ledger.Parts.{
  apply_book_credit_parts, apply_transfer_credit, apply_refund_credit, credit_by_trace,
  refund_credit_locked, build_transfer_book_credit_parts, build_refund_book_credit_parts,
}
use coin.Ledger.Query.Txns.{get_refund_debit_stats}
use coin.Ledger.Money.{IsUnique, find_sound, find-narrower, find-narrower_none}
use coin.Ledger.Money.Frame.{
  SetsBalance, Ensures, credit-SetsBalance, record_book_changes-SameMoney, plan_parts-same,
  upsert_planned-SameMoney,
}

pub apply_book_credit_parts-SetsBalance :
    (env : Env) (txn_no : ℕ) (credit : Account) (amount : ℤ) (parts : List BookCreditPart)
    (e : Error) (db : Db)
    → Ensures
        (λ _ db'. SetsBalance (add64 credit.balance amount) credit.account_no db db')
        (apply_book_credit_parts env txn_no credit amount parts e db)
unfolding apply_book_credit_parts update_account_balance insert_account_change
apply_book_credit_parts-SetsBalance env txn_no credit amount parts e db =
    let plan = plan_parts-same env 0 credit.account_no e (pos 0) parts db in
    grind (arith, plan, record_book_changes-SameMoney, upsert_planned-SameMoney)

pub build_transfer_book_credit_parts-same :
    (txn_no : ℕ) (debit_no : String) (amount : ℤ) (db : Db)
    → (build_transfer_book_credit_parts txn_no debit_no amount db).1 ≡ db
unfolding build_transfer_book_credit_parts
build_transfer_book_credit_parts-same txn_no debit_no amount db = ground arith

pub build_refund_book_credit_parts-same :
    (env : Env) (refund_no origin_no : ℕ) (merchant_no : String) (amount : ℤ) (db : Db)
    → (build_refund_book_credit_parts env refund_no origin_no merchant_no amount db).1 ≡ db
unfolding build_refund_book_credit_parts get_refund_debit_stats
build_refund_book_credit_parts-same env refund_no origin_no merchant_no amount db = ground arith

pub credit_by_trace-SetsBalance :
    (env : Env) (txn_no : ℕ) (credit : Account) (amount : ℤ) (date : Option ℕ)
    (trace : Option (List BookCreditPart)) (db : Db)
    → Ensures
        (λ _ db'. SetsBalance (add64 credit.balance amount) credit.account_no db db')
        (credit_by_trace env txn_no credit amount date trace db)
unfolding credit_by_trace
credit_by_trace-SetsBalance env txn_no credit amount date none db =
    credit-SetsBalance env 0 txn_no credit amount date db
credit_by_trace-SetsBalance env txn_no credit amount date (some parts) db =
    apply_book_credit_parts-SetsBalance env txn_no credit amount parts account_resolve_failed db

pub refund_credit_locked-SetsBalance :
    (env : Env) (txn_no : ℕ) (credit : Account) (amount : ℤ) (origin_no : ℕ) (merchant_no : String)
    (db : Db)
    → Ensures
        (λ _ db'. SetsBalance (add64 credit.balance amount) credit.account_no db db')
        (refund_credit_locked env txn_no credit amount origin_no merchant_no db)
unfolding refund_credit_locked update_account_balance insert_account_change
refund_credit_locked-SetsBalance env txn_no credit amount origin_no merchant_no db =
    let same = build_refund_book_credit_parts-same env txn_no origin_no merchant_no amount db in
    grind (arith, same, apply_book_credit_parts-SetsBalance)

-- The account that is credited is the one row found under the number.
module _ (env : Env) (txn_no : ℕ) (credit_no : String) (amount : ℤ) (a : Account) (db : Db)
    (found : get_account credit_no db ≡ some a) where
  same_no : a.account_no ≡ credit_no
  unfolding get_account
  same_no =
      (eq_iff a.account_no credit_no).0 (find_sound (of_account credit_no) a db.accounts found)

  pub apply_transfer_credit-SetsBalance :
      (debit_no scene : String) (date : Option ℕ)
      → Ensures
          (λ _ db'. SetsBalance (add64 a.balance amount) credit_no db db')
          (apply_transfer_credit env txn_no debit_no credit_no scene amount date db)
  unfolding apply_transfer_credit
  apply_transfer_credit-SetsBalance debit_no scene date =
      let same = build_transfer_book_credit_parts-same txn_no debit_no amount db in
      grind (arith, found, same_no, same, credit_by_trace-SetsBalance)

  module _ (unique : IsUnique (of_account credit_no) db.accounts) where
    try_credit_non_book_refund-SetsBalance :
        Ensures
          (λ r db'. elim r [
            | none ↦ db' ≡ db
            | some v ↦ (v ≡ a.balance +ℤ amount) × SetsBalance v credit_no db db'
          ])
          (try_credit_non_book_refund credit_no amount db)
    unfolding try_credit_non_book_refund get_account update_account_balance
    try_credit_non_book_refund-SetsBalance =
        let row =
          find-narrower (of_account credit_no) (λ x. not x.book_enabled) a db.accounts unique
            found in
        ground (arith, row)

    pub apply_refund_credit-SetsBalance :
        (origin : Option ℕ) (merchant_no : String)
        → IsInt64 (a.balance +ℤ amount)
        → Ensures
            (λ _ db'. SetsBalance (add64 a.balance amount) credit_no db db')
            (apply_refund_credit env txn_no credit_no amount origin merchant_no db)
    unfolding apply_refund_credit insert_account_change
    apply_refund_credit-SetsBalance origin merchant_no fits =
        let exact = add64_exact a.balance amount fits in
        grind (
          arith, found, same_no, refund_credit_locked-SetsBalance,
          try_credit_non_book_refund-SetsBalance, exact,
        )

-- There is no credit without an account.
module _ (env : Env) (txn_no : ℕ) (credit_no : String) (amount : ℤ) (db : Db)
    (gone : get_account credit_no db ≡ none) where
  pub apply_transfer_credit-gone :
      (debit_no scene : String) (date : Option ℕ)
      → Ensures
          (λ _ _. ⊥)
          (apply_transfer_credit env txn_no debit_no credit_no scene amount date db)
  unfolding apply_transfer_credit
  apply_transfer_credit-gone debit_no scene date = grind (arith, gone)

  pub apply_refund_credit-gone :
      (origin : Option ℕ) (merchant_no : String)
      → Ensures (λ _ _. ⊥) (apply_refund_credit env txn_no credit_no amount origin merchant_no db)
  unfolding apply_refund_credit try_credit_non_book_refund get_account
  apply_refund_credit-gone origin merchant_no =
      let narrow =
        find-narrower_none (of_account credit_no) (λ x. not x.book_enabled) db.accounts gone in
      grind (arith, gone, narrow)
