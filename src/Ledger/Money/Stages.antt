-- ===== src/Ledger/Money/Stages.antt =====
-- No stage of a transaction changes the sum of the money, but for an account whose expired books
-- the debit would write off first.
use coin.Base.{ℕ, ◌≡◌, refl, String, Bool, false, some, List, [], ◌∷◌, arith, eq_iff, ◌⊎◌}
use coin.Int.{ℤ, pos, ◌+ℤ◌, ◌-ℤ◌, int_laws}
use coin.Int.Word.{add64, sub64, IsInt64}
use coin.Text.{trim_space}
use coin.Domain.Account.{Account}
use coin.Domain.StateMachine.{txn_status_pay_success, txn_status_recv_success}
use coin.Ledger.Schema.{Db, Env, TxnRow}
use coin.Ledger.Query.{update_where}
use coin.Ledger.Query.Accounts.{of_account, set_balance, get_account}
use coin.Ledger.Query.Books.{list_expired_positive_books}
use coin.Ledger.Query.Txns.{
  of_txn, set_status, spend, update_txn_status, is_refundable, decrease_origin_refundable,
  insert_outbox_event,
}
use coin.Ledger.Book.{date_of}
use coin.Ledger.Debit.{apply_account_debit, sweep_expired_books}
use coin.Text.Trim.{trim_space-trim_space}
use coin.Ledger.Stage.{take_refund_quota, init_stage, pay_success_stage, stage_result}
use coin.Ledger.Money.{IsUnique, find_sound, total, in_flight}
use coin.Ledger.Money.Frame.{
  SetsBalance, Ensures, debit_plain-SetsBalance, debit_from_books-SetsBalance,
}
use coin.Ledger.Money.Credits.{apply_transfer_credit-SetsBalance, apply_refund_credit-SetsBalance}

-- The account has no books, or none that the sweep writes off.
abbrev pub HasNoneExpired : Env → Db → Account → Type 0
HasNoneExpired env db a =
    (a.book_enabled ≡ false)
    ⊎ (list_expired_positive_books a.account_no (date_of env.now_sweep) db ≡ [])

pub apply_account_debit-SetsBalance :
    (env : Env) (txn_no : ℕ) (debit_no : String) (amount : ℤ) (a : Account) (db : Db)
    → get_account debit_no db ≡ some a
    → HasNoneExpired env db a
    → Ensures
        (λ _ db'. SetsBalance (sub64 a.balance amount) debit_no db db')
        (apply_account_debit env txn_no debit_no amount db)
unfolding apply_account_debit sweep_expired_books get_account
apply_account_debit-SetsBalance env txn_no debit_no amount a db found clean =
    let same_no =
      (eq_iff a.account_no debit_no).0 (find_sound (of_account debit_no) a db.accounts found) in
    let books = debit_from_books-SetsBalance env txn_no a amount db in
    let plain = debit_plain-SetsBalance txn_no a amount db in
    grind (arith, found, clean, same_no, books, plain)

pub landed :
    (t t' b f f' c c' amount : ℤ)
    → t' +ℤ b ≡ t +ℤ (b +ℤ amount)
    → f' +ℤ c ≡ f +ℤ c'
    → c ≡ amount
    → c' ≡ pos 0
    → t' +ℤ f' ≡ t +ℤ f
landed t t' b f f' c c' amount h k z w = grind (int_laws, h, k, z, w)

-- Taking the quota of an origin does not show in what transactions carry.
in_flight_spent :
    (n : ℕ) (s : String) (q : TxnRow → Bool) (amount : ℤ) (xs : List TxnRow)
    → in_flight (update_where (of_txn n) (set_status s) (update_where q (spend amount) xs))
      ≡ in_flight (update_where (of_txn n) (set_status s) xs)
in_flight_spent n s q amount [] = refl
in_flight_spent n s q amount (x ∷ xs) = ground (arith, in_flight_spent n s q amount xs)

pub moved :
    (t t' b f f' c c' amount : ℤ)
    → t' +ℤ b ≡ t +ℤ (b -ℤ amount)
    → f' +ℤ c ≡ f +ℤ c'
    → c ≡ pos 0
    → c' ≡ amount
    → t' +ℤ f' ≡ t +ℤ f
moved t t' b f f' c c' amount h k z w = grind (int_laws, h, k, z, w)

abbrev pub spent_db : ℕ → String → ℤ → Db → Db
spent_db origin merchant_no amount db = record db {
  txns = update_where (is_refundable origin merchant_no amount) (spend amount) db.txns;
}

-- Taking the quota changes the rows of transactions alone.
pub take_refund_quota-lem :
    (origin : ℕ) (merchant_no : String) (amount : ℤ) (db : Db)
    → Ensures
        (λ _ db'. db' ≡ spent_db origin merchant_no amount db)
        (take_refund_quota origin merchant_no amount db)
unfolding take_refund_quota decrease_origin_refundable
take_refund_quota-lem origin merchant_no amount db = ground arith

-- A stage sets the balance of one account, and the status of its transaction.
abbrev pub SetsBoth : String → ℤ → String → ℕ → Db → Db → Type 0
SetsBoth account_no balance status txn_no db db' =
    (total db'.accounts
      ≡ total (update_where (of_account account_no) (set_balance balance) db.accounts))
    × (in_flight db'.txns ≡ in_flight (update_where (of_txn txn_no) (set_status status) db.txns))

pub init_stage-SetsBoth :
    (env : Env) (stage : TxnRow) (a : Account) (db : Db)
    → get_account (trim_space stage.debit_account_no) db ≡ some a
    → HasNoneExpired env db a
    → Ensures
        (λ _ db'.
          SetsBoth
            (trim_space stage.debit_account_no)
            (sub64 a.balance stage.amount)
            txn_status_pay_success
            stage.txn_no
            db
            db')
        (init_stage env stage (stage_result stage) db)
unfolding init_stage update_txn_status get_account list_expired_positive_books
init_stage-SetsBoth env stage a db found clean =
    let account_no = trim_space stage.debit_account_no in
    let debit =
      apply_account_debit-SetsBalance env stage.txn_no account_no stage.amount a db found clean in
    let spent = λ (o : ℕ).
      apply_account_debit-SetsBalance env stage.txn_no account_no stage.amount a
        (spent_db o stage.merchant_no stage.amount db) found clean in
    let twice = trim_space-trim_space stage.debit_account_no in
    grind (arith, found, clean, twice, debit, spent, take_refund_quota-lem, in_flight_spent)

pub pay_success_stage-SetsBoth :
    (env : Env) (stage : TxnRow) (a : Account) (db : Db)
    → get_account (trim_space stage.credit_account_no) db ≡ some a
    → IsUnique (of_account (trim_space stage.credit_account_no)) db.accounts
    → IsInt64 (a.balance +ℤ stage.amount)
    → Ensures
        (λ _ db'.
          SetsBoth
            (trim_space stage.credit_account_no)
            (add64 a.balance stage.amount)
            txn_status_recv_success
            stage.txn_no
            db
            db')
        (pay_success_stage env stage (stage_result stage) db)
unfolding pay_success_stage update_txn_status insert_outbox_event
pay_success_stage-SetsBoth env stage a db found unique fits =
    let account_no = trim_space stage.credit_account_no in
    let transfer =
      apply_transfer_credit-SetsBalance env stage.txn_no account_no stage.amount a db found
        (trim_space stage.debit_account_no) stage.transfer_scene stage.credit_expire_at in
    let refund = λ (o : ℕ).
      apply_refund_credit-SetsBalance env stage.txn_no account_no stage.amount a db found unique
        (some o) stage.merchant_no fits in
    grind (arith, transfer, refund)
