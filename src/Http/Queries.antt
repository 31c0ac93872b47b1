-- ===== src/Http/Queries.antt =====
-- internal/api/business.go: the handlers that read, and that of the webhook's configuration. Times are
-- answered as instants; their text is left out, and that of a time in a query is read by `parse_time`.
use coin.Base.{
  ℕ, String, Bool, false, not, Option, none, some, List, [], map, ltb, ◌==◌, if◌then◌else◌,
}
use coin.Int.{ℤ, pos, ltb_ℤ, leb_ℤ}
use coin.Text.{trim_space}
use coin.Text.Case.{to_lower, has_prefix}
use coin.Text.Hash.{bytes}
use coin.Domain.Error.{Error, account_resolve_conflict}
use coin.Domain.Account.{Account}
use coin.Ledger.Schema.{Result, ok, err}
use coin.Listing.Token.{parse_int}
use coin.Http.{
  Outcome, passed, refused, Reply, write_success, internal_error, invalid_param, found_or, ◌>>=◌,
  ◌>>◌, refuse_if, authenticated,
}
use coin.Http.Services.{
  QueryTxn, AccountChangeLog, AccountBook, BookCreditChangeLog, WebhookConfig, Services,
}
use coin.Http.Transactions.{normalized}

pub record TxnResponse : Type 0 where
  pub txn_no : String
  pub out_trade_no : String
  pub title : String
  pub remark : String
  pub transfer_scene : String
  pub status : String
  pub amount : ℤ
  pub refundable_amount : ℤ
  pub debit_account_no : String
  pub credit_account_no : String
  pub error_code : String
  pub error_msg : String
  pub created_at : ℕ

-- `toTxnResponse`
unfoldable pub to_txn_response : QueryTxn → TxnResponse
to_txn_response item = record {
  txn_no = item.txn_no;
  out_trade_no = item.out_trade_no;
  title = item.title;
  remark = item.remark;
  transfer_scene = item.scene;
  status = item.status;
  amount = item.amount;
  refundable_amount = item.refundable_amount;
  debit_account_no = item.debit_account_no;
  credit_account_no = item.credit_account_no;
  error_code = item.error_code;
  error_msg = item.error_msg;
  created_at = item.created_at;
}

-- The parameters of a list in the query of a request.
pub record ListQuery : Type 0 where
  pub page_size : String
  pub start_time : String
  pub end_time : String
  pub out_user_id : String
  pub transfer_scene : String
  pub status : String
  pub page_token : String

-- The items of a page and the token of the next one.
pub record Page (A : Type 0) : Type 0 where
  pub items : List A
  pub next_page_token : String

pub record Balance : Type 0 where
  pub out_user_id : String
  pub account_no : String
  pub balance : ℤ
  pub available_balance : ℤ
  pub book_enabled : Bool

-- The retry policy that is answered beside it is the same for all.
pub record WebhookAnswer : Type 0 where
  pub url : String
  pub enabled : Bool

pub record WebhookConfigRequest : Type 0 where
  pub url : String
  pub enabled : Bool

abbrev capped : Option ℤ → Outcome ℤ
capped none = invalid_param "invalid page_size"
capped (some v) =
    if leb_ℤ v (pos 0)
    then invalid_param "invalid page_size"
    else if ltb_ℤ (pos 200) v
    then passed (pos 200)
    else passed v

-- The size of a page, by strconv.Atoi.
unfoldable pub page_size_param : String → Outcome ℤ
page_size_param raw =
    let raw = trim_space raw in
    if raw == "" then passed (pos 20) else capped (parse_int (bytes raw))

abbrev required : Option ℕ → String → Outcome (Option ℕ)
required none message = invalid_param message
required (some t) message = passed (some t)

unfoldable pub time_param : (String → Option ℕ) → String → String → Outcome (Option ℕ)
time_param parse_time message raw =
    let raw = trim_space raw in if raw == "" then passed none else required (parse_time raw) message

abbrev after : Option ℕ → Option ℕ → Bool
after (some a) (some b) = ltb b a
after _ _ = false

abbrev pub owned_by : String → QueryTxn → Outcome QueryTxn
owned_by merchant_no item =
    if item.merchant_no == merchant_no
    then passed item
    else refused 404 "TXN_NOT_FOUND" "txn not found"

abbrev pub owned_account : String → Account → Outcome Account
owned_account merchant_no a =
    if a.merchant_no == merchant_no
    then passed a
    else refused 404 "ACCOUNT_NOT_FOUND" "account not found"

abbrev pub ok_or : {A : Type 0} → Result A → String → Outcome A
ok_or (ok a) message = passed a
ok_or (err _) message = internal_error message

module _ {S : Type 0} (svc : Services S) where
  -- `handleGetByTxnNo`
  unfoldable pub handle_get_by_txn_no : Option String → String → S → Outcome (Reply TxnResponse)
  handle_get_by_txn_no context txn_no s = do
    merchant_no ← authenticated context
    let txn_no = trim_space txn_no
    refuse_if (txn_no == "") (invalid_param "txn_no is required")
    found ← found_or (svc.get_by_txn_no txn_no s) (refused 404 "TXN_NOT_FOUND" "txn not found")
    item ← owned_by merchant_no found
    write_success (to_txn_response item)

  -- `handleGetByOutTradeNo`
  unfoldable pub handle_get_by_out_trade_no :
      Option String → String → S → Outcome (Reply TxnResponse)
  handle_get_by_out_trade_no context out_trade_no s = do
    merchant_no ← authenticated context
    let out_trade_no = trim_space out_trade_no
    refuse_if (out_trade_no == "") (invalid_param "out_trade_no is required")
    item ←
        found_or (svc.get_by_out_trade_no merchant_no out_trade_no s)
          (refused 404 "TXN_NOT_FOUND" "txn not found")
    write_success (to_txn_response item)

  -- `handleListTransactions`
  unfoldable pub handle_list_transactions :
      (String → Option ℕ) → Option String → ListQuery → S → Outcome (Reply (Page TxnResponse))
  handle_list_transactions parse_time context q s = do
    merchant_no ← authenticated context
    page_size ← page_size_param q.page_size
    start_time ← time_param parse_time "invalid start_time" q.start_time
    end_time ← time_param parse_time "invalid end_time" q.end_time
    refuse_if (after start_time end_time) (invalid_param "start_time must be <= end_time")
    let page =
        svc.list
          (record {
            merchant_no = merchant_no;
            out_user_id = trim_space q.out_user_id;
            scene = normalized q.transfer_scene;
            status = normalized q.status;
            start_time = start_time;
            end_time = end_time;
            page_size = page_size;
            page_token = trim_space q.page_token;
          })
          s
    write_success (record { items = map to_txn_response page.0; next_page_token = page.1 })

  -- `handleListAccountChangeLogs`
  unfoldable pub handle_list_account_change_logs :
      Option String → String → ListQuery → S → Outcome (Reply (Page AccountChangeLog))
  handle_list_account_change_logs context account_no q s = do
    merchant_no ← authenticated context
    let account_no = trim_space account_no
    refuse_if (account_no == "") (invalid_param "account_no is required")
    found ←
        found_or (svc.get_account account_no s)
          (refused 404 "ACCOUNT_NOT_FOUND" "account not found")
    _ ← owned_account merchant_no found
    page_size ← page_size_param q.page_size
    let page =
        svc.list_account_change_logs
          (record {
            merchant_no = merchant_no;
            account_no = account_no;
            page_size = page_size;
            page_token = trim_space q.page_token;
          })
          s
    write_success (record { items = page.0; next_page_token = page.1 })

  abbrev pub webhook_answer : Option WebhookConfig → WebhookAnswer
  webhook_answer none = record { url = ""; enabled = false }
  webhook_answer (some c) = record { url = c.url; enabled = c.enabled }

  -- `handleGetWebhookConfig`
  unfoldable pub handle_get_webhook_config : Option String → S → Outcome (Reply WebhookAnswer)
  handle_get_webhook_config context s = do
    merchant_no ← authenticated context
    config ← ok_or (svc.get_webhook_config merchant_no s) "load webhook config failed"
    write_success (webhook_answer config)

  -- The merchant and the configuration that may be saved.
  unfoldable pub webhook_update :
      Option String → Option WebhookConfigRequest → Outcome (String × WebhookConfigRequest)
  webhook_update context body = do
    merchant_no ← authenticated context
    req ← found_or body (invalid_param "invalid request body")
    let url = trim_space req.url
    refuse_if (not (has_prefix (to_lower url) "https://")) (invalid_param "url must be https")
    passed (merchant_no, record req { url = url })

  abbrev saved : WebhookConfigRequest → Option Error × S → Outcome (Reply WebhookAnswer) × S
  saved req (none, s) = (write_success (record { url = req.url; enabled = req.enabled }), s)
  saved req (some _, s) = (internal_error "save webhook config failed", s)

  abbrev save_passed :
      Outcome (String × WebhookConfigRequest) → S → Outcome (Reply WebhookAnswer) × S
  save_passed (refused status code message) s = (refused status code message, s)
  save_passed (passed (merchant_no, req)) s =
      saved req (svc.upsert_webhook_config merchant_no req.url req.enabled s)

  -- `handlePutWebhookConfig`
  unfoldable pub handle_put_webhook_config :
      Option String → Option WebhookConfigRequest → S → Outcome (Reply WebhookAnswer) × S
  handle_put_webhook_config context body s = save_passed (webhook_update context body) s

  abbrev found_account : Result String → Outcome String
  found_account (ok account_no) =
      if account_no == ""
      then refused 404 "CUSTOMER_NOT_FOUND" "customer not found"
      else passed account_no
  found_account (err account_resolve_conflict) =
      refused 409 "ACCOUNT_RESOLVE_CONFLICT" "account resolve conflict"
  found_account (err _) = internal_error "resolve customer account failed"

  -- `handleGetCustomerBalance`
  unfoldable pub handle_get_customer_balance : Option String → String → S → Outcome (Reply Balance)
  handle_get_customer_balance context out_user_id s = do
    merchant_no ← authenticated context
    let out_user_id = trim_space out_user_id
    refuse_if (out_user_id == "") (invalid_param "out_user_id is required")
    account_no ← found_account (svc.resolve_customer_account merchant_no "" out_user_id s)
    account ←
        found_or (svc.get_account account_no s)
          (refused 404 "ACCOUNT_NOT_FOUND" "account not found")
    loaded ← ok_or (svc.get_available_balance account_no s) "load available balance failed"
    available ← found_or loaded (refused 404 "ACCOUNT_NOT_FOUND" "account not found")
    write_success (record {
      out_user_id = out_user_id;
      account_no = account.account_no;
      balance = account.balance;
      available_balance = available;
      book_enabled = account.book_enabled;
    })

  abbrev books_of : String → S → Outcome (List AccountBook)
  books_of account_no s =
      if account_no == ""
      then passed []
      else ok_or (svc.list_active_account_books account_no (svc.now s) s) "list books failed"

  -- `handleListCustomerBooks`
  unfoldable pub handle_list_customer_books :
      Option String → String → S → Outcome (Reply (List AccountBook))
  handle_list_customer_books context out_user_id s = do
    merchant_no ← authenticated context
    let out_user_id = trim_space out_user_id
    refuse_if (out_user_id == "") (invalid_param "out_user_id is required")
    account_no ←
        ok_or (svc.resolve_customer_account merchant_no "" out_user_id s)
          "resolve customer account failed"
    books ← books_of account_no s
    write_success books

  -- `handleListBookCreditChangeLogs`, which does not ask whose book it is
  unfoldable pub handle_list_book_credit_change_logs :
      String → S → Outcome (Reply (List BookCreditChangeLog))
  handle_list_book_credit_change_logs book_no s = do
    let book_no = trim_space book_no
    refuse_if (book_no == "") (invalid_param "book_no is required")
    logs ← ok_or (svc.list_book_credit_change_logs book_no s) "list book change logs failed"
    write_success logs
