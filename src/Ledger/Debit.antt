-- ===== src/Ledger/Debit.antt =====
-- repository.go: what debits an account, with the write-off of its expired books.
pub mod Writeoff
use Prim.Native.String.{◌++◌ as str_append}
use coin.Base.{
  ℕ, zero, suc, ◌/◌, ◌%◌, ◌^◌, String, Bool, true, false, not, ◌&&◌, ◌||◌, Option, none, some, List,
  [], ◌∷◌, ◌=?◌, ◌==◌, if◌then◌else◌, length,
}
use coin.Int.{ℤ, pos, leb_ℤ, ltb_ℤ, eqb_ℤ}
use coin.Int.Word.{add64, sub64, neg64}
use coin.Text.{trim_space}
use coin.Domain.{biz_type_transfer, scene_expire_writeoff, account_type_writeoff}
use coin.Domain.Error.{account_resolve_failed, insufficient_balance, invalid_merchant_no, id_error}
use coin.Domain.Account.{Account, validate_debit_balance_only}
use coin.Domain.StateMachine.{txn_status_recv_success}
use coin.Ledger.Schema.{
  Result, BookRow, TxnRow, Env, Tx, pure, gets, or_fail, ◌>>=◌, ◌>>◌, fail_if, check, modify,
}
use coin.Ledger.Query.{any}
use coin.Ledger.Query.Accounts.{
  get_account, update_account_balance, insert_account, set_customer_default_account_if_empty,
  get_merchant, update_merchant_writeoff_account_no,
}
use coin.Ledger.Query.Books.{
  no_expire_book_date, list_available_books, list_expired_positive_books, upsert_book_balance,
  batch_update_book_balances,
}
use coin.Ledger.Query.Txns.{create_transfer_txn}
use coin.Ledger.Book.{PlannedChange, debit_books, date_of}
use coin.Ledger.Credit.{record_account_change, apply_account_credit_with_account}
use coin.Ledger.Parts.{is_nil, record_book_changes}

-- `createAccount`
unfoldable pub create_account : Env → Account → Tx (Unit {0})
create_account env a = do
  let customer_no = trim_space a.customer_no
  insert_account (record a { customer_no = customer_no })
  if a.book_enabled
      then (do
        book_no ← or_fail (env.uuid 2) id_error
        upsert_book_balance book_no a.account_no no_expire_book_date (pos 0)
        pure tt)
      else pure tt
  if customer_no == ""
      then pure tt
      else modify (set_customer_default_account_if_empty a.account_no a.merchant_no customer_no)

-- The account that `ensureMerchantWriteoffAccountTx` creates.
abbrev new_writeoff_account : String → String → Account
new_writeoff_account account_no merchant_no = record {
  account_no = account_no;
  merchant_no = merchant_no;
  customer_no = "";
  account_type = account_type_writeoff;
  allow_overdraft = false;
  max_overdraft_limit = pos 0;
  allow_debit_out = false;
  allow_credit_in = true;
  allow_transfer = false;
  book_enabled = false;
  balance = pos 0;
}

abbrev lift_result : {A : Type 0} → Result A → Tx A
lift_result r db = (r, db)

-- `ensureMerchantWriteoffAccountTx`
unfoldable pub ensure_merchant_writeoff_account : Env → String → Tx Account
unfolding create_account
ensure_merchant_writeoff_account env merchant_no = do
  merchant ← or_fail (← gets (get_merchant merchant_no)) invalid_merchant_no
  let known = trim_space merchant.writeoff_account_no
  writeoff_no ←
      if known == ""
      then (do
        fresh ← lift_result (env.new_account_no merchant_no account_type_writeoff)
        create_account env (new_writeoff_account fresh merchant_no)
        update_merchant_writeoff_account_no merchant_no fresh
        pure fresh)
      else pure known
  or_fail (← gets (get_account writeoff_no)) account_resolve_failed

-- The loop of `sweepExpiredBooksTx`: the whole balance of each expired book.
unfoldable pub writeoff_books : ℤ → List BookRow → ℤ × List PlannedChange
writeoff_books total [] = (total, [])
writeoff_books total (b ∷ books) =
    let positive = ltb_ℤ (pos 0) b.balance in
    let rest = writeoff_books (if positive then add64 total b.balance else total) books in
    if positive
    then (
      rest.0,
      record {
        book_no = b.book_no;
        expire_at = b.expire_at;
        delta = neg64 b.balance;
        balance_before = b.balance;
        balance_after = pos 0;
      }
          ∷ rest.1,
    )
    else rest

abbrev decimal_digit : ℕ → String
decimal_digit d =
    if d =? 0
    then "0"
    else if d =? 1
    then "1"
    else if d =? 2
    then "2"
    else if d =? 3
    then "3"
    else if d =? 4
    then "4"
    else if d =? 5
    then "5"
    else if d =? 6
    then "6"
    else if d =? 7
    then "7"
    else if d =? 8
    then "8"
    else "9"

abbrev hex_digit : ℕ → String
hex_digit d =
    if d =? 10
    then "a"
    else if d =? 11
    then "b"
    else if d =? 12
    then "c"
    else if d =? 13
    then "d"
    else if d =? 14
    then "e"
    else if d =? 15
    then "f"
    else decimal_digit d

-- The last `w` hexadecimal digits of a number.
hex_digits : ℕ → ℕ → String
hex_digits zero n = ""
hex_digits (suc w) n = str_append (hex_digits w (n / 16)) (hex_digit (n % 16))

-- `buildExpireWriteoffOutTradeNo`: the first 8 digits of the UUID's text, which stand in front of
-- its first hyphen, are its 32 highest bits
unfoldable pub build_expire_writeoff_out_trade_no : String → ℕ → String
unfolding hex_digits
build_expire_writeoff_out_trade_no account_no txn_no =
    str_append "sys_expire_"
      (str_append (trim_space account_no) (str_append "_" (hex_digits 8 (txn_no / 2 ^ 96))))

-- The row of the write-off's transaction.
abbrev writeoff_txn : ℕ → Account → String → ℤ → TxnRow
writeoff_txn txn_no debit writeoff_no total = record {
  txn_no = txn_no;
  merchant_no = debit.merchant_no;
  out_trade_no = build_expire_writeoff_out_trade_no debit.account_no txn_no;
  title = "expire writeoff";
  remark = "system expiry writeoff";
  biz_type = biz_type_transfer;
  transfer_scene = scene_expire_writeoff;
  debit_account_no = debit.account_no;
  credit_account_no = writeoff_no;
  credit_expire_at = none;
  amount = total;
  refund_of_txn_no = none;
  refundable_amount = pos 0;
  status = txn_status_recv_success;
  error_code = "";
  error_msg = "";
}

abbrev pub payload_of : List PlannedChange → List (ℕ × ℤ)
payload_of [] = []
payload_of (p ∷ planned) = (p.book_no, p.delta) ∷ payload_of planned

abbrev row_balance : ℕ → List (ℕ × ℤ) → Option ℤ
row_balance book_no [] = none
row_balance book_no ((n, balance) ∷ rows) =
    if n =? book_no then some balance else row_balance book_no rows

-- Every changed book has come back with its planned balance.
abbrev as_planned : List (ℕ × ℤ) → List PlannedChange → Bool
as_planned rows [] = true
as_planned rows (p ∷ planned) = elim (row_balance p.book_no rows) [
  | none ↦ false
  | some balance ↦ eqb_ℤ balance p.balance_after && as_planned rows planned
]

-- `sweepExpiredBooksTx`
unfoldable pub sweep_expired_books : Env → Account → ℕ → Tx (Unit {0})
sweep_expired_books env debit now = if not debit.book_enabled then pure tt else (do
  expired ← gets (list_expired_positive_books debit.account_no (date_of now))
  if is_nil expired then pure tt else (do
    writeoff ← ensure_merchant_writeoff_account env debit.merchant_no
    txn_no ← or_fail (env.uuid 0) id_error
    let (total, planned) = writeoff_books (pos 0) expired
    modify (record_book_changes env txn_no debit.account_no planned)
    if leb_ℤ total (pos 0) then pure tt else (do
      create_transfer_txn (writeoff_txn txn_no debit writeoff.account_no total)
      let debit_after = sub64 debit.balance total
      modify (record_account_change txn_no debit.account_no (neg64 total) debit.balance debit_after)
      rows ← batch_update_book_balances (payload_of planned)
      fail_if (not (length rows =? length planned)) account_resolve_failed
      fail_if (any (λ (r : ℕ × ℤ). not (eqb_ℤ r.1 (pos 0))) rows) account_resolve_failed
      modify (update_account_balance debit_after debit.account_no)
      apply_account_credit_with_account env 1 txn_no writeoff total none)))

-- The branch of `applyAccountDebitTx` for an account with books, behind the sweep.
unfoldable pub debit_from_books : Env → ℕ → Account → ℤ → Tx (Unit {0})
unfolding validate_debit_balance_only
debit_from_books env txn_no debit amount = do
  check (validate_debit_balance_only debit amount)
  books ← gets (list_available_books debit.account_no (date_of env.now_list))
  let (left, changes) = debit_books amount books
  fail_if (ltb_ℤ (pos 0) left) insufficient_balance
  let debit_after = sub64 debit.balance amount
  modify (record_book_changes env txn_no debit.account_no changes)
  modify (record_account_change txn_no debit.account_no (neg64 amount) debit.balance debit_after)
  rows ← batch_update_book_balances (payload_of changes)
  fail_if (not (length rows =? length changes)) insufficient_balance
  fail_if (not (as_planned rows changes)) insufficient_balance
  modify (update_account_balance debit_after debit.account_no)

-- The branch for an account without books.
unfoldable pub debit_plain : ℕ → Account → ℤ → Tx (Unit {0})
unfolding validate_debit_balance_only
debit_plain txn_no debit amount = do
  check (validate_debit_balance_only debit amount)
  let debit_after = sub64 debit.balance amount
  modify (record_account_change txn_no debit.account_no (neg64 amount) debit.balance debit_after)
  modify (update_account_balance debit_after debit.account_no)

-- `applyAccountDebitTx`
unfoldable pub apply_account_debit : Env → ℕ → String → ℤ → Tx (Unit {0})
apply_account_debit env txn_no debit_no amount = do
  fail_if (debit_no == "" || leb_ℤ amount (pos 0)) account_resolve_failed
  debit ← or_fail (← gets (get_account debit_no)) account_resolve_failed
  if debit.book_enabled
      then (do
        sweep_expired_books env debit env.now_sweep
        swept ← or_fail (← gets (get_account debit_no)) account_resolve_failed
        debit_from_books env txn_no swept amount)
      else debit_plain txn_no debit amount
