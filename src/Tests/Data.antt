-- ===== src/Tests/Data.antt =====
-- Two accounts of a merchant, a transfer from one to the other, and a refund of a settled transfer.
use coin.Base.{◌+◌, true, false, none, some, [], ◌∷◌}
use coin.Int.{pos}
use coin.Domain.{biz_type_transfer, biz_type_refund, scene_consume}
use coin.Domain.Account.{Account}
use coin.Domain.StateMachine.{txn_status_init, txn_status_recv_success}
use coin.Ledger.Schema.{TxnRow, Db, Env, ok}

abbrev pub alice : Account
alice = record {
  account_no = "A";
  merchant_no = "M";
  customer_no = "";
  account_type = "CUSTOMER";
  allow_overdraft = false;
  max_overdraft_limit = pos 0;
  allow_debit_out = true;
  allow_credit_in = true;
  allow_transfer = true;
  book_enabled = false;
  balance = pos 100;
}

abbrev pub bob : Account
bob = record alice { account_no = "B"; balance = pos 5 }

abbrev pub transfer : TxnRow
transfer = record {
  txn_no = 7;
  merchant_no = "M";
  out_trade_no = "T7";
  title = "";
  remark = "";
  biz_type = biz_type_transfer;
  transfer_scene = scene_consume;
  debit_account_no = "A";
  credit_account_no = "B";
  credit_expire_at = none;
  amount = pos 30;
  refund_of_txn_no = none;
  refundable_amount = pos 30;
  status = txn_status_init;
  error_code = "";
  error_msg = "";
}

abbrev pub settled : TxnRow
settled = record transfer {
  txn_no = 5;
  out_trade_no = "T5";
  status = txn_status_recv_success;
  refundable_amount = pos 20;
}

abbrev pub refund : TxnRow
refund = record transfer {
  txn_no = 9;
  out_trade_no = "T9";
  biz_type = biz_type_refund;
  debit_account_no = "B";
  credit_account_no = "A";
  amount = pos 3;
  refund_of_txn_no = some 5;
  refundable_amount = pos 0;
}

abbrev pub before : Db
before = record {
  merchants = [];
  customers = [];
  accounts = alice ∷ bob ∷ [];
  books = [];
  txns = transfer ∷ settled ∷ refund ∷ [];
  account_changes = [];
  book_changes = [];
  outbox = [];
  webhooks = [];
}

abbrev pub env : Env
env = record {
  now_sweep = 0;
  now_list = 0;
  now_refund = 0;
  now_tx = 0;
  uuid = λ n. some (1000 + n);
  event_id = λ n. 2000 + n;
  new_account_no = λ _ _. ok "W";
}
