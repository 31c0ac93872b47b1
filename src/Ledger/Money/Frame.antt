-- ===== src/Ledger/Money/Frame.antt =====
-- What the steps of a debit and a credit leave of the accounts and the transactions.
use coin.Base.{suc, ℕ, ◌≡◌, refl, String, Option, List, [], ◌∷◌, arith}
use coin.Int.{ℤ}
use coin.Int.Word.{add64, sub64}
use coin.Domain.Error.{Error}
use coin.Domain.Account.{Account}
use coin.Ledger.Schema.{Db, Env, Result, ok, err}
use coin.Ledger.Query.{update_where}
use coin.Ledger.Query.Accounts.{
  of_account, set_balance, update_account_balance, insert_account_change,
}
use coin.Ledger.Query.Books.{
  upsert_book_balance, batch_update_book_balances, insert_book_change, list_available_books,
}
use coin.Ledger.Book.{PlannedChange, BookCreditPart, debit_books, date_of}
use coin.Ledger.Debit.{debit_plain, debit_from_books}
use coin.Ledger.Credit.{find_or_new_book, apply_account_credit_with_account, record_book_change}
use coin.Ledger.Parts.{plan_parts, record_book_changes, upsert_planned}

-- The accounts and the transactions are the same.
abbrev pub SameMoney : Db → Db → Type 0
SameMoney db db' = (db'.accounts ≡ db.accounts) × (db'.txns ≡ db.txns)

-- The accounts differ in the balance of one, and the transactions are the same.
abbrev pub SetsBalance : ℤ → String → Db → Db → Type 0
SetsBalance v account_no db db' =
    (db'.accounts ≡ update_where (of_account account_no) (set_balance v) db.accounts)
    × (db'.txns ≡ db.txns)

-- What holds of a statement's value and database where it does not fail.
abbrev pub Ensures : {A : Type 0} → (A → Db → Type 0) → Result A × Db → Type 0
Ensures post (ok a, db) = post a db
Ensures post (err e, db) = Unit {0}

pub Ensures-weaken :
    {A : Type 0} (P Q : A → Db → Type 0) (r : Result A × Db)
    → ((a : A) (db : Db) → P a db → Q a db)
    → Ensures P r
    → Ensures Q r
Ensures-weaken P Q (ok a, db) f h = f a db h
Ensures-weaken P Q (err e, db) f h = tt

-- A credit that succeeds sets the account's balance to the sum.
pub credit-SetsBalance :
    (env : Env) (first txn_no : ℕ) (credit : Account) (amount : ℤ) (date : Option ℕ) (db : Db)
    → Ensures
        (λ _ db'. SetsBalance (add64 credit.balance amount) credit.account_no db db')
        (apply_account_credit_with_account env first txn_no credit amount date db)
unfolding apply_account_credit_with_account update_account_balance insert_account_change
    insert_book_change find_or_new_book upsert_book_balance
credit-SetsBalance env first txn_no credit amount date db = ground arith

pub debit_plain-SetsBalance :
    (txn_no : ℕ) (debit : Account) (amount : ℤ) (db : Db)
    → Ensures
        (λ _ db'. SetsBalance (sub64 debit.balance amount) debit.account_no db db')
        (debit_plain txn_no debit amount db)
unfolding debit_plain update_account_balance insert_account_change
debit_plain-SetsBalance txn_no debit amount db = ground arith

pub record_book_changes-SameMoney :
    (env : Env) (txn_no : ℕ) (account_no : String) (planned : List PlannedChange) (db : Db)
    → SameMoney db (record_book_changes env txn_no account_no planned db)
unfolding record_book_changes insert_book_change
record_book_changes-SameMoney env txn_no account_no [] db = (refl, refl)
record_book_changes-SameMoney env txn_no account_no (p ∷ planned) db =
    record_book_changes-SameMoney env txn_no account_no planned
      (record_book_change env txn_no account_no p db)

pub plan_parts-same :
    (env : Env) (index : ℕ) (account_no : String) (e : Error) (sum : ℤ)
    (parts : List BookCreditPart) (db : Db)
    → Ensures (λ _ db'. db' ≡ db) (plan_parts env index account_no e sum parts db)
unfolding plan_parts find_or_new_book
plan_parts-same env index account_no e sum [] db = refl
plan_parts-same env index account_no e sum (part ∷ parts) db =
    ground (arith, plan_parts-same env (suc index) account_no e (add64 sum part.amount) parts db)

pub upsert_planned-SameMoney :
    (account_no : String) (e : Error) (planned : List PlannedChange) (db : Db)
    → Ensures (λ _ db'. SameMoney db db') (upsert_planned account_no e planned db)
unfolding upsert_planned upsert_book_balance
upsert_planned-SameMoney account_no e [] db = (refl, refl)
upsert_planned-SameMoney account_no e (p ∷ planned) db =
    grind (arith, upsert_planned-SameMoney account_no e planned)

pub debit_from_books-SetsBalance :
    (env : Env) (txn_no : ℕ) (debit : Account) (amount : ℤ) (db : Db)
    → Ensures
        (λ _ db'. SetsBalance (sub64 debit.balance amount) debit.account_no db db')
        (debit_from_books env txn_no debit amount db)
unfolding debit_from_books update_account_balance insert_account_change batch_update_book_balances
debit_from_books-SetsBalance env txn_no debit amount db =
    let c =
      (debit_books amount (list_available_books debit.account_no (date_of env.now_list) db)).1 in
    ground (arith, record_book_changes-SameMoney env txn_no debit.account_no c db)
