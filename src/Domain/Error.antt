-- ===== src/Domain/Error.antt =====
-- errors.go, with the other errors that a caller can tell apart. A function that returns an
-- `error` alone returns an `Option Error`, `none` for nil.

pub data Error : Type 0 where
  merchant_no_exists customer_exists account_no_exists : Error
  invalid_merchant_no invalid_customer_no invalid_account_no code_allocator_unavailable : Error
  duplicate_out_trade_no account_resolve_failed account_resolve_conflict : Error
  out_user_id_not_allowed_for_system_account : Error
  account_forbid_debit account_forbid_credit account_forbid_transfer insufficient_balance : Error
  txn_status_invalid txn_not_found : Error
  refund_amount_exceeded refund_origin_book_trace_missing : Error
  book_disabled expire_at_required : Error
  -- an error of the database, of the generator of ids or of the code generator
  store_error id_error code_error : Error
