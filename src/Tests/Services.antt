-- ===== src/Tests/Services.antt =====
-- The theorems on submitting and routing, over a store that is the list of what was created.
use coin.Base.{
  ◌≡◌, ap, sym, refl, String, false, ◌==◌, ◌&&◌, Option, none, some, List, [], ◌∷◌, if◌then◌else◌,
}
use coin.Int.{pos}
use coin.Text.{trim_space, trim_left, trim_right, is_space}
use coin.Domain.{TransferTxn, Merchant}
use coin.Domain.Account.{Account, can_debit_out, can_credit, can_transfer}
use coin.Ledger.Schema.{ok}
use coin.Transfer.{
  Repository, TransferRequest, new_txn, refund_txn, transfer_txn, submit,
  validate_submit_transfer_accounts, validate_submit_refund_accounts,
}
use coin.Transfer.Checks.{ArePartiesOf, submit-transfer}
use coin.Transfer.Routing.{
  TransferRoutingRequest, TransferRoutingResult, check_parties, resolve, resolve-accepted,
}
use coin.Tests.Data.{alice, bob}

abbrev pay : TransferRequest
pay = record {
  merchant_no = "M";
  out_trade_no = "T5";
  title = "";
  remark = "";
  biz_type = "TRANSFER";
  transfer_scene = "CONSUME";
  debit_account_no = "A";
  credit_account_no = "B";
  credit_expire_at = none;
  refund_of_txn_no = "";
  amount = pos 20;
  refundable_amount = pos 0;
  status = "";
}

abbrev give_back : TransferRequest
give_back = record pay {
  out_trade_no = "T9";
  biz_type = "REFUND";
  transfer_scene = "";
  debit_account_no = "";
  credit_account_no = "";
  refund_of_txn_no = "5";
  amount = pos 3;
}

abbrev paid : TransferTxn
paid = record (new_txn "5" pay) { status = "RECV_SUCCESS" }

abbrev shop : Merchant
shop = record {
  merchant_id = "";
  merchant_no = "M";
  name = "";
  budget_account_no = "";
  receivable_account_no = "B";
  writeoff_account_no = "";
}

abbrev pub account_of : String → List TransferTxn → Option Account
account_of number s = if number == "A" then some alice else if number == "B" then some bob else none

abbrev pub memory : Repository (List TransferTxn)
memory = record {
  get_transfer_txn = λ number s. if number == "5" then some paid else none;
  get_account = account_of;
  get_merchant_by_no = λ number s. if number == "M" then some shop else none;
  get_account_by_out_user_id = λ merchant user s. none;
  create_transfer_txn = λ t s. (none, t ∷ s);
}

abbrev refund_row : TransferTxn
refund_row = record (new_txn "9" give_back) { debit_account_no = "B"; credit_account_no = "A" }

refund_runs : submit memory (ok "9") give_back [] ≡ (ok refund_row, refund_row ∷ [])
unfolding submit refund_txn validate_submit_refund_accounts can_debit_out trim_space trim_left
    trim_right is_space
refund_runs = refl

pay_runs : submit memory (ok "5") pay [] ≡ (ok (new_txn "5" pay), new_txn "5" pay ∷ [])
unfolding submit transfer_txn validate_submit_transfer_accounts can_debit_out can_credit
    can_transfer trim_space trim_left trim_right is_space
pay_runs = refl

pay_named : (trim_space "A" == "" && trim_space "B" == "") ≡ false
unfolding trim_space trim_left trim_right is_space
pay_named = refl

submit-transfer_example :
    (memory.create_transfer_txn (new_txn "5" pay) [] ≡ (none, new_txn "5" pay ∷ []))
    × (new_txn "5" pay ≡ new_txn "5" pay)
    × ((debit : Account) × (credit : Account) × ArePartiesOf memory [] "M" "CONSUME" "A" "B" debit
          credit)
submit-transfer_example =
    submit-transfer memory [] "5" pay (new_txn "5" pay) (new_txn "5" pay ∷ []) refl pay_named
      pay_runs

abbrev to_shop : TransferRoutingRequest
to_shop = record {
  merchant_no = "M";
  scene = "CONSUME";
  debit_account_no = "A";
  credit_account_no = "";
}

abbrev a_to_b : TransferRoutingResult
a_to_b = record { debit_account_no = "A"; credit_account_no = "B" }

routes : resolve memory to_shop [] ≡ ok a_to_b
unfolding resolve check_parties can_debit_out can_credit can_transfer
routes = refl

trimmed_a : trim_space "A" ≡ "A"
unfolding trim_space trim_left trim_right is_space
trimmed_a = refl

trimmed_b : trim_space "B" ≡ "B"
unfolding trim_space trim_left trim_right is_space
trimmed_b = refl

abbrev number_of : Option Merchant → String
number_of none = "M"
number_of (some m) = m.merchant_no

same_merchant : (m : Merchant) → memory.get_merchant_by_no "M" [] ≡ some m → m.merchant_no ≡ "M"
same_merchant m found = sym (ap number_of found)

resolve-accepted_example : validate_submit_transfer_accounts memory "M" "CONSUME" "A" "B" [] ≡ none
resolve-accepted_example =
    resolve-accepted memory to_shop a_to_b [] same_merchant trimmed_a trimmed_b routes
