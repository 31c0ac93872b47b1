-- ===== src/Tests/Delivery.antt =====
-- The theorems on webhooks and listings, applied.
use coin.Base.{
  ℕ, String, ◌=?◌, ◌&&◌, if◌then◌else◌, ◌≤◌, ◌≡◌, refl, true, false, not, ◌||◌, map, none, some,
  List, [], ◌∷◌, All, arith, length,
}
use coin.Int.{pos}
use coin.Webhook.{WebhookWorker, new_webhook_worker, config_found, read_error, usable, get_cached}
use coin.Ledger.Query.{select}
use coin.Ledger.Query.Events.{
  EventRow, is_among, is_due, picked, claimed, claim_due_outbox_events,
  claim_due_outbox_events_by_txn_no, mark_outbox_event_retry,
}
use coin.Webhook.Claim.{
  all_due, of_txn, claim, retry, Call, claim_at, after, is_marked, claim_due_outbox_events-disjoint,
}
use coin.Webhook.Retry.{HasFailed, fail_all, fail_all_lem}
use coin.Webhook.Cache
use coin.Webhook.Cache.{cache_after, was_read, get_cached-was_read}
use coin.Listing.{ListRow, TxnListFilter, is_listed}
use coin.Listing.Order.{HasUniqueNumbers}
use coin.Listing.Pages.{listed, all_pages, all_pages_lem}
use coin.Listing.Token.{
  encode_page_token, decode_page_token, format_int, parse_int, decode_page_token-encode_page_token,
}
use coin.Listing.Logs.{
  AccountChangeRow, is_change_of, is_earlier, page_limit, list_account_change_logs,
  list_account_change_logs_rows,
}
use coin.Listing.Logs.Own.{IsOf, lesser, list_account_change_logs-IsOf}
use coin.Http.Services.{AccountChangeLogListFilter}
use coin.Codes.Provider.{padded}
use coin.Text.{trim_space, trim_left, trim_right, is_space}
use coin.Tests.Data.{transfer, settled, refund, before}

abbrev event : EventRow
event = record {
  id = 1;
  event_id = 2007;
  txn_no = 7;
  merchant_no = "M";
  status = "PENDING";
  retry_count = 0;
  next_retry_at = none;
  created_at = 5;
  updated_at = 5;
}

abbrev events : List EventRow
events = event ∷ record event { id = 2; event_id = 2008; txn_no = 8 } ∷ []

-- In between the event of the transaction 7 is to be tried again, at 160.
abbrev meanwhile : List Call
meanwhile =
    record { now_db = 120; step = claim (of_txn 8 (pos 10) 120) }
    ∷ record { now_db = 150; step = retry 2007 1 (pos 160) false }
    ∷ []

claim_due_outbox_events-disjoint_example :
    let (taken, rows') = claim_at (all_due (pos 10) 100) 100 events in
    All
      (λ e. (not (is_among taken e) || is_marked meanwhile e.event_id) ≡ true)
      (claim_at (all_due (pos 10) 200) 200 (after meanwhile rows')).0
claim_due_outbox_events-disjoint_example =
    claim_due_outbox_events-disjoint 100 (all_due (pos 10) 100) (all_due (pos 10) 200) meanwhile 200
      events (omega arith, (omega arith, tt)) (omega arith)

-- That event is taken again and the other is not.
retaken :
    map
      (λ (e : EventRow). e.event_id)
      (claim_at
        (all_due (pos 10) 200)
        200
        (after meanwhile (claim_at (all_due (pos 10) 100) 100 events).1)).0
    ≡ 2007 ∷ []
unfolding claim_due_outbox_events claim_due_outbox_events_by_txn_no mark_outbox_event_retry picked
    claimed is_due
retaken = refl

abbrev worker : WebhookWorker
worker = new_webhook_worker (pos 2) (pos 100) [] (pos 0) (pos 0)

fail_all_lem_example :
    HasFailed worker 2007 2 (fail_all worker 2007 ((10, 10) ∷ (20, 20) ∷ []) events)
fail_all_lem_example = fail_all_lem worker 2007 (10, 10) ((20, 20) ∷ []) events event refl

abbrev first_call : Cache.Call
first_call = record { now = 100; key = "M"; asked = config_found "https://m.example" true }

abbrev second_call : Cache.Call
second_call = record { now = 110; key = "M"; asked = read_error }

-- The second look-up fails outside and is answered by the cache.
second_answer :
    (get_cached 110 20 "M" read_error (cache_after 20 (first_call ∷ []))).0
    ≡ usable "https://m.example"
unfolding get_cached trim_space trim_left trim_right is_space
second_answer = refl

get_cached-was_read_example :
    was_read 20 110 "M" "https://m.example" (second_call ∷ first_call ∷ []) ≡ true
get_cached-was_read_example =
    get_cached-was_read 20 (first_call ∷ []) second_call "https://m.example" second_answer

abbrev rows : List ListRow
rows =
    record { txn = transfer; created_at = 30 }
    ∷ record { txn = settled; created_at = 10 }
    ∷ record { txn = refund; created_at = 30 }
    ∷ []

abbrev filter : TxnListFilter
filter = record {
  merchant_no = "M";
  out_user_id = "";
  scene = "";
  status = "";
  start_time = none;
  end_time = none;
  page_size = pos 2;
}

rows_unique : HasUniqueNumbers rows
rows_unique = ((refl, (refl, tt)), ((refl, tt), (tt, tt)))

rows_few : length (listed before filter rows) ≤ 3
unfolding listed is_listed
rows_few = omega arith

all_pages_lem_example : all_pages before filter rows 3 none ≡ listed before filter rows
all_pages_lem_example = all_pages_lem before filter rows 3 rows_unique rows_few

-- 1970-01-01T00:00:00.000000042Z and "a|b"
decode_page_token-encode_page_token_example :
    decode_page_token (encode_page_token (pos 42) (97 ∷ 124 ∷ 98 ∷ []))
    ≡ some (pos 42, 97 ∷ 124 ∷ 98 ∷ [])
decode_page_token-encode_page_token_example =
    decode_page_token-encode_page_token (pos 42) (97 ∷ 124 ∷ 98 ∷ [])
      (record { above = omega arith; below = omega arith })

-- The token of the example, and one without a bar, which is refused.
token_text : encode_page_token (pos 42) (97 ∷ []) ≡ 52 ∷ 50 ∷ 124 ∷ 97 ∷ []
unfolding encode_page_token format_int padded
token_text = refl

no_bar : decode_page_token (52 ∷ 50 ∷ []) ≡ none
unfolding decode_page_token parse_int
no_bar = refl

abbrev spelled_no : ℕ → String
spelled_no n = if n =? 5 then "5" else "7"

abbrev change : ℕ → String → AccountChangeRow
change id account_no = record {
  change_id = id;
  change = record {
    txn_no = 5;
    account_no = account_no;
    delta = pos 1;
    balance_before = pos 0;
    balance_after = pos 1;
  };
  created_at = id;
}

abbrev own_logs : AccountChangeLogListFilter
own_logs = record { merchant_no = "M"; account_no = "A"; page_size = pos 1; page_token = "" }

abbrev changes : List AccountChangeRow
changes = change 1 "A" ∷ change 2 "B" ∷ change 3 "A" ∷ []

list_account_change_logs-IsOf_example :
    All
      (IsOf spelled_no before own_logs)
      (list_account_change_logs spelled_no before own_logs none changes).0
    × (length (list_account_change_logs spelled_no before own_logs none changes).0
        ≡ lesser
            (length (select (λ r. is_change_of before own_logs r && is_earlier none r) changes))
            (page_limit own_logs.page_size))
list_account_change_logs-IsOf_example =
    list_account_change_logs-IsOf spelled_no before own_logs none changes

-- The page has one log, the last, and the other merchant sees none.
one_log : length (list_account_change_logs spelled_no before own_logs none changes).0 ≡ 1
unfolding list_account_change_logs list_account_change_logs_rows
one_log = refl

no_log :
    length
      (list_account_change_logs spelled_no before
        (record own_logs { merchant_no = "N" })
        none
        changes).0
    ≡ 0
unfolding list_account_change_logs list_account_change_logs_rows
no_log = refl
