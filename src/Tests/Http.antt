-- ===== src/Tests/Http.antt =====
-- The theorems on the HTTP handlers, applied to services that keep what was submitted in a list.
use coin.Base.{
  ℕ, ◌+◌, ◌≡◌, refl, ◌↔◌, String, true, none, some, List, [], ◌∷◌, ◌==◌, if◌then◌else◌, arith,
}
use coin.Int.{pos}
use coin.Text.{trim_space, trim_left, trim_right, is_space}
use coin.Text.Case.{to_upper}
use coin.Text.Hash.{bytes}
use coin.Domain.{TransferTxn, Merchant}
use coin.Ledger.Schema.{ok}
use coin.Transfer.{new_txn}
use coin.Http.{
  passed, refused, authenticated, merchant_no_from_context, refuse_if, found_or, ◌>>=◌, ◌>>◌,
}
use coin.Http.Services.{by_txn, Services}
use coin.Http.Transactions.{
  CreditRequest, DebitRequest, P2PRequest, RefundRequest, check_copy, is_valid_out_trade_no,
  is_valid_txn_copy, known_merchant, party_account, routed_parties, enqueue_txn,
  calc_expire_at_by_days, normalize_expiry_day_utc,
}
use coin.Http.Transactions.Handlers.{
  handle_credit, handle_debit, debit_submission, handle_transfer, handle_refund,
  transfer_submission, credit_fields, credit_account, credit_submission,
}
use coin.Http.Transactions.Submitted.{IsHandled}
use coin.Http.Transactions.Handled.{
  IsDebit, handle_debit-IsHandled, IsTransfer, handle_transfer-IsHandled,
}
use coin.Http.Transactions.Issued.{IsCreditHandled, handle_credit-IsHandled}
use coin.Http.Transactions.Refunded.{IsRefund, handle_refund-IsHandled}
use coin.Http.Auth.{Request, SecretAnswer, secret, no_secret, authenticate}
use coin.Http.Auth.Signing.{IsAuthentic, authenticate_iff, HasNoNewline, signing_string_injective}
use coin.Http.Admin.{
  AdminTokenManager, invalid, invalid_type, TokenPair, issue_token_pair, parse_and_validate,
}
use coin.Http.Admin.Tokens.{worth, issue_token_pair-parse_and_validate}
use coin.Tests.Data.{alice, bob}
use coin.Tests.Codec.{spelled, spelled-IsCodec}

abbrev pub shop : Merchant
shop = record {
  merchant_id = "";
  merchant_no = "M";
  name = "";
  budget_account_no = "A";
  receivable_account_no = "B";
  writeoff_account_no = "";
}

abbrev pub services : Services (List TransferTxn)
services = record {
  get_merchant_by_no = λ m s. if m == "M" then some shop else none;
  resolve = λ r s. ok (record { debit_account_no = "A"; credit_account_no = "B" });
  resolve_customer_account = λ m a u s. ok "";
  ensure_customer_account_for_credit = λ m u s. (ok "B", s);
  get_account = λ n s. if n == "A" then some alice else some (record bob { book_enabled = true });
  get_available_balance = λ n s. ok none;
  submit = λ req s. (ok (new_txn "7" req), new_txn "7" req ∷ s);
  dispatcher = by_txn (λ t s. (true, s));
  get_by_txn_no = λ n s. none;
  get_by_out_trade_no = λ m n s. none;
  list = λ f s. ([], "");
  list_account_change_logs = λ f s. ([], "");
  list_active_account_books = λ a t s. ok [];
  list_book_credit_change_logs = λ b s. ok [];
  upsert_webhook_config = λ m u e s. (none, s);
  get_webhook_config = λ m s. ok none;
  now = λ s. 63000000000000000000;
}

abbrev pub credit : CreditRequest
credit = record {
  out_trade_no = " T-1 ";
  title = "gift";
  remark = "";
  debit_account_no = "";
  credit_account_no = "";
  user_id = "u1";
  expire_in_days = pos 30;
  amount = pos 20;
}

handle_credit-IsHandled_example :
    IsCreditHandled services
      (some "M")
      (some credit)
      []
      (handle_credit services (some "M") (some credit) [])
handle_credit-IsHandled_example = handle_credit-IsHandled services (some "M") (some credit) []

-- This credit is created, and one for a missing merchant is refused.
credit_created :
    (handle_credit services (some "M") (some credit) []).0
    ≡ passed (record { status = 201; body = record { txn_no = "7"; status = "INIT" } })
unfolding handle_credit credit_fields ◌>>=◌ known_merchant authenticated merchant_no_from_context
    trim_space trim_right trim_left is_space ◌>>◌ refuse_if check_copy is_valid_out_trade_no bytes
    is_valid_txn_copy credit_account credit_submission calc_expire_at_by_days enqueue_txn
    normalize_expiry_day_utc routed_parties found_or
credit_created = refl

credit_refused :
    handle_credit services (some "N") (some credit) []
    ≡ (refused 404 "MERCHANT_NOT_FOUND" "merchant not found", [])
unfolding handle_credit credit_fields ◌>>=◌ known_merchant authenticated merchant_no_from_context
    trim_space trim_right trim_left is_space
credit_refused = refl

abbrev debit : DebitRequest
debit = record {
  out_trade_no = "T-4";
  title = " coffee";
  remark = "";
  biz_type = "";
  transfer_scene = "consume";
  debit_account_no = "A";
  debit_out_user_id = "";
  credit_account_no = "";
  credit_out_user_id = "";
  amount = pos 5;
}

-- Services with which the credited account has no books.
abbrev no_books : Services (List TransferTxn)
no_books = record services { get_account = λ n s. if n == "A" then some alice else some bob }

handle_debit-IsHandled_example :
    IsHandled no_books
      (IsDebit no_books (some "M") (some debit) [])
      []
      (handle_debit no_books (some "M") (some debit) [])
handle_debit-IsHandled_example = handle_debit-IsHandled no_books (some "M") (some debit) []

debit_created :
    (handle_debit no_books (some "M") (some debit) []).0
    ≡ passed (record { status = 201; body = record { txn_no = "7"; status = "INIT" } })
unfolding handle_debit debit_submission ◌>>=◌ known_merchant authenticated merchant_no_from_context
    trim_space trim_right trim_left is_space ◌>>◌ refuse_if check_copy is_valid_out_trade_no bytes
    is_valid_txn_copy to_upper party_account enqueue_txn routed_parties found_or
debit_created = refl

abbrev pub p2p : P2PRequest
p2p = record {
  out_trade_no = "T-2";
  title = "";
  remark = "";
  biz_type = "transfer";
  transfer_scene = "";
  from_account_no = "A";
  from_out_user_id = "";
  to_account_no = "B";
  to_out_user_id = "";
  to_expire_in_days = pos 7;
  amount = pos 5;
}

handle_transfer-IsHandled_example :
    IsHandled services
      (IsTransfer services (some "M") (some p2p) [])
      []
      (handle_transfer services (some "M") (some p2p) [])
handle_transfer-IsHandled_example = handle_transfer-IsHandled services (some "M") (some p2p) []

transfer_created :
    (handle_transfer services (some "M") (some p2p) []).0
    ≡ passed (record { status = 201; body = record { txn_no = "7"; status = "INIT" } })
unfolding handle_transfer transfer_submission ◌>>=◌ known_merchant authenticated
    merchant_no_from_context trim_space trim_right trim_left is_space ◌>>◌ refuse_if check_copy
    is_valid_out_trade_no bytes is_valid_txn_copy to_upper party_account calc_expire_at_by_days
    enqueue_txn normalize_expiry_day_utc routed_parties found_or
transfer_created = refl

abbrev pub refund_body : RefundRequest
refund_body = record {
  out_trade_no = "T-3";
  title = "";
  remark = "";
  biz_type = "";
  refund_of_txn_no = "5";
  amount = pos 5;
}

handle_refund-IsHandled_example :
    IsHandled services
      (IsRefund services (λ n. n == "5") (some "M") (some refund_body) [])
      []
      (handle_refund services (λ n. n == "5") (some "M") (some refund_body) [])
handle_refund-IsHandled_example =
    handle_refund-IsHandled services (λ n. n == "5") (some "M") (some refund_body) []

abbrev request : Request
request = record {
  method = "GET";
  path = "/api/v1/transactions";
  merchant_no = "M";
  timestamp = "0";
  nonce = "n";
  signature = "AB";
  body = some [];
}

abbrev secrets : String → SecretAnswer
secrets m = if m == "M" then secret "k" else no_secret

authenticate_iff_example :
    (authenticate
        (λ v. v)
        (λ k v. 97 ∷ 98 ∷ [])
        (λ _. none)
        secrets
        (pos 0)
        62135596800000000000
        request
      ≡ passed "M")
    ↔ IsAuthentic
        (λ v. v)
        (λ k v. 97 ∷ 98 ∷ [])
        (λ _. none)
        secrets
        (pos 0)
        62135596800000000000
        request
        "M"
authenticate_iff_example =
    authenticate_iff (λ v. v) (λ k v. 97 ∷ 98 ∷ []) (λ _. none) secrets (pos 0) 62135596800000000000
      request "M"

abbrev digest : List ℕ
digest = 97 ∷ []

no_newline : HasNoNewline "GET" "M" "0" "n" digest
unfolding bytes
no_newline = record {
  in_method = omega arith;
  in_merchant = omega arith;
  in_time = omega arith;
  in_nonce = omega arith;
  in_hash = omega arith;
}

signing_string_injective_example :
    (bytes "GET" ≡ bytes "GET")
    × (bytes "/a" ≡ bytes "/a")
    × (bytes "M" ≡ bytes "M")
    × (bytes "0" ≡ bytes "0")
    × (bytes "n" ≡ bytes "n")
    × (digest ≡ digest)
signing_string_injective_example =
    signing_string_injective "GET" "GET" "/a" "/a" "M" "M" "0" "0" "n" "n" digest digest no_newline
      no_newline refl

abbrev manager : AdminTokenManager
manager = record { key = "k"; access_ttl = 1800000000000; refresh_ttl = 604800000000000 }

abbrev noon : ℕ
noon = 63000000000000000000

issue_token_pair-parse_and_validate_example :
    (pair : TokenPair) × (issue_token_pair spelled manager noon " root" ≡ some pair)
    × (parse_and_validate spelled manager noon pair.access_token "access"
        ≡ worth spelled spelled-IsCodec manager noon " root" "access"
            (noon + manager.access_ttl)
            "access"
            noon)
    × (parse_and_validate spelled manager noon pair.access_token "refresh" ≡ invalid invalid_type)
    × (parse_and_validate spelled manager noon pair.refresh_token "refresh"
        ≡ worth spelled spelled-IsCodec manager noon " root" "refresh"
            (noon + manager.refresh_ttl)
            "refresh"
            noon)
    × (parse_and_validate spelled manager noon pair.refresh_token "access" ≡ invalid invalid_type)
unfolding trim_space trim_right trim_left is_space
issue_token_pair-parse_and_validate_example =
    issue_token_pair-parse_and_validate spelled spelled-IsCodec manager noon noon " root" refl
