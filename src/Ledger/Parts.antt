-- ===== src/Ledger/Parts.antt =====
-- repository.go: the credits that go to several books, by the books that were debited: those of a
-- transfer between users and those of a refund.
use coin.Base.{
  ℕ, suc, String, Bool, true, false, not, ◌&&◌, ◌||◌, Option, none, some, List, [], ◌∷◌, ◌=?◌, ◌==◌,
  if◌then◌else◌,
}
use coin.Int.{ℤ, pos, leb_ℤ, ltb_ℤ, eqb_ℤ}
use coin.Int.Word.{add64, sub64}
use coin.Text.{trim_space}
use coin.Domain.{scene_p2p}
use coin.Domain.Error.{
  Error, account_resolve_failed, txn_status_invalid, txn_not_found,
  refund_origin_book_trace_missing,
}
use coin.Domain.Account.{Account}
use coin.Ledger.Schema.{Db, Env, Tx, pure, gets, or_fail, ◌>>=◌, ◌>>◌, fail_if, modify}
use coin.Ledger.Query.Accounts.{get_account, update_account_balance, try_credit_non_book_refund}
use coin.Ledger.Query.Books.{upsert_book_balance, list_origin_debit_book_changes}
use coin.Ledger.Query.Txns.{get_txn, get_refund_debit_stats}
use coin.Ledger.Book.{BookCreditPart, PlannedChange, transfer_parts, refund_parts, date_of}
use coin.Ledger.Credit.{
  find_or_new_book, record_book_change, record_account_change, apply_account_credit_with_account,
}

abbrev pub is_nil {ℓ} : {A : Type ℓ} → List A → Bool
is_nil [] = true
is_nil (_ ∷ _) = false

-- `buildTransferBookCreditParts`: `none` where the debit left no book trace
unfoldable pub build_transfer_book_credit_parts : ℕ → String → ℤ → Tx (Option (List BookCreditPart))
build_transfer_book_credit_parts txn_no debit_account_no amount = do
  fail_if (trim_space debit_account_no == "" || leb_ℤ amount (pos 0)) account_resolve_failed
  changes ← gets (list_origin_debit_book_changes txn_no debit_account_no)
  if is_nil changes then pure none else (do
    (parts, sum) ← or_fail (transfer_parts (pos 0) changes) account_resolve_failed
    fail_if (is_nil parts || not (eqb_ℤ sum amount)) account_resolve_failed
    pure (some parts))

-- `buildRefundBookCreditParts`
unfoldable pub build_refund_book_credit_parts : Env → ℕ → ℕ → String → ℤ → Tx (List BookCreditPart)
build_refund_book_credit_parts env refund_no origin_no merchant_no refund_amount = do
  fail_if (leb_ℤ refund_amount (pos 0)) account_resolve_failed
  origin ← or_fail (← gets (get_txn origin_no)) txn_not_found
  fail_if (not (origin.merchant_no == merchant_no)) txn_not_found
  let origin_debit = trim_space origin.debit_account_no
  let origin_credit = trim_space origin.credit_account_no
  fail_if (origin_debit == "" || origin_credit == "") account_resolve_failed
  debits ← gets (list_origin_debit_book_changes origin_no origin_debit)
  fail_if (is_nil debits) refund_origin_book_trace_missing
  (total, current) ← get_refund_debit_stats refund_no merchant_no origin_no origin_credit
  fail_if (leb_ℤ current (pos 0)) refund_origin_book_trace_missing
  let prior = sub64 total current
  fail_if (ltb_ℤ prior (pos 0)) refund_origin_book_trace_missing
  let (parts, left) = refund_parts (date_of env.now_refund) prior refund_amount debits []
  fail_if (not (eqb_ℤ left (pos 0))) refund_origin_book_trace_missing
  pure parts

-- The first loop of `applyBookCreditPartsTx`: the planned rows and the sum of the parts.
unfoldable pub plan_parts :
    Env → ℕ → String → Error → ℤ → List BookCreditPart → Tx (List PlannedChange × ℤ)
unfolding find_or_new_book
plan_parts env index account_no trace_err sum [] = pure ([], sum)
plan_parts env index account_no trace_err sum (part ∷ parts) = do
  fail_if (leb_ℤ part.amount (pos 0) || part.expire_at =? 0) trace_err
  (book_no, before) ← find_or_new_book (env.uuid index) account_no part.expire_at
  (planned, total) ← plan_parts env (suc index) account_no trace_err (add64 sum part.amount) parts
  pure (
    record {
      book_no = book_no;
      expire_at = part.expire_at;
      delta = part.amount;
      balance_before = before;
      balance_after = add64 before part.amount;
    }
        ∷ planned,
    total,
  )

-- The second loop: the rows of the change log.
unfoldable pub record_book_changes : Env → ℕ → String → List PlannedChange → Db → Db
record_book_changes env txn_no account_no [] db = db
record_book_changes env txn_no account_no (p ∷ planned) db =
    record_book_changes env txn_no account_no planned
      (record_book_change env txn_no account_no p db)

-- The third loop: the balances of the books, each checked against its plan.
unfoldable pub upsert_planned : String → Error → List PlannedChange → Tx (Unit {0})
upsert_planned account_no trace_err [] = pure tt
upsert_planned account_no trace_err (p ∷ planned) = do
  balance ← upsert_book_balance p.book_no account_no p.expire_at p.delta
  fail_if (not (eqb_ℤ balance p.balance_after)) trace_err
  upsert_planned account_no trace_err planned

-- `applyBookCreditPartsTx`
unfoldable pub apply_book_credit_parts :
    Env → ℕ → Account → ℤ → List BookCreditPart → Error → Tx (Unit {0})
unfolding plan_parts record_book_changes upsert_planned
apply_book_credit_parts env txn_no credit amount parts trace_err = do
  fail_if (leb_ℤ amount (pos 0) || trim_space credit.account_no == "") account_resolve_failed
  fail_if (not credit.book_enabled || is_nil parts) trace_err
  (planned, sum) ← plan_parts env 0 credit.account_no trace_err (pos 0) parts
  fail_if (not (eqb_ℤ sum amount)) trace_err
  let credit_after = add64 credit.balance amount
  modify (record_book_changes env txn_no credit.account_no planned)
  modify (record_account_change txn_no credit.account_no amount credit.balance credit_after)
  upsert_planned credit.account_no trace_err planned
  modify (update_account_balance credit_after credit.account_no)

-- The end of `applyTransferCreditTx` for the trace of a debit from books, or none.
unfoldable pub credit_by_trace :
    Env → ℕ → Account → ℤ → Option ℕ → Option (List BookCreditPart) → Tx (Unit {0})
credit_by_trace env txn_no credit amount credit_expire_at none =
    apply_account_credit_with_account env 0 txn_no credit amount credit_expire_at
credit_by_trace env txn_no credit amount credit_expire_at (some parts) =
    apply_book_credit_parts env txn_no credit amount parts account_resolve_failed

-- `applyTransferCreditTx`
unfoldable pub apply_transfer_credit :
    Env → ℕ → String → String → String → ℤ → Option ℕ → Tx (Unit {0})
apply_transfer_credit env txn_no debit_no credit_no scene amount credit_expire_at = do
  fail_if (trim_space credit_no == "" || leb_ℤ amount (pos 0)) account_resolve_failed
  credit ← or_fail (← gets (get_account credit_no)) account_resolve_failed
  if trim_space scene == scene_p2p && credit.book_enabled
      then (do
        trace ← build_transfer_book_credit_parts txn_no debit_no amount
        credit_by_trace env txn_no credit amount credit_expire_at trace)
      else credit_by_trace env txn_no credit amount credit_expire_at none

-- The branch of `applyRefundCreditTx` for an account that the first statement did not credit.
unfoldable pub refund_credit_locked : Env → ℕ → Account → ℤ → ℕ → String → Tx (Unit {0})
refund_credit_locked env txn_no credit amount origin_no merchant_no =
    if not credit.book_enabled
    then (do
      let credit_after = add64 credit.balance amount
      modify (record_account_change txn_no credit.account_no amount credit.balance credit_after)
      modify (update_account_balance credit_after credit.account_no))
    else (do
      parts ← build_refund_book_credit_parts env txn_no origin_no merchant_no amount
      apply_book_credit_parts env txn_no credit amount parts refund_origin_book_trace_missing)

-- `applyRefundCreditTx`; a NULL origin is `none`
unfoldable pub apply_refund_credit : Env → ℕ → String → ℤ → Option ℕ → String → Tx (Unit {0})
apply_refund_credit env txn_no credit_no amount origin merchant_no = do
  fail_if (trim_space credit_no == "" || leb_ℤ amount (pos 0)) account_resolve_failed
  origin_no ← or_fail origin txn_status_invalid
  credited ← try_credit_non_book_refund credit_no amount
  elim credited [
    | some credit_after ↦
        modify
          (record_account_change txn_no credit_no amount (sub64 credit_after amount) credit_after)
    | none ↦ do
      credit ← or_fail (← gets (get_account credit_no)) account_resolve_failed
      refund_credit_locked env txn_no credit amount origin_no merchant_no
  ]
