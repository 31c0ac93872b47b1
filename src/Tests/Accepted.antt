-- ===== src/Tests/Accepted.antt =====
-- Which requests a body gives, applied to the bodies of the other tests.
use coin.Base.{◌+◌, ◌*◌, ◌≡◌, ◌↔◌, none, some, [], ◌==◌}
use coin.Int.{pos}
use coin.Domain.{biz_type_refund, scene_p2p}
use coin.Transfer.{TransferRequest}
use coin.Transfer.Routing.{TransferRoutingResult}
use coin.Http.{passed}
use coin.Http.Transactions.{transfer_request, day, normalize_expiry_day_utc}
use coin.Http.Transactions.Handlers.{transfer_submission, refund_submission}
use coin.Http.Transactions.Handled.{IsTransfer}
use coin.Http.Transactions.Refunded.{IsRefund}
use coin.Http.Transactions.Accepted.{transfer_submission_iff, refund_submission_iff}
use coin.Tests.Http.{services, p2p, refund_body}

abbrev pair : TransferRoutingResult
pair = record { debit_account_no = "A"; credit_account_no = "B" }

abbrev transferred : TransferRequest
transferred =
    transfer_request "M" "T-2" "" "" scene_p2p pair
      (some (normalize_expiry_day_utc (63000000000000000000 + 7 * day))) (pos 5)

transfer_submission_iff_example :
    (transfer_submission services (some "M") (some p2p) [] ≡ passed transferred)
    ↔ IsTransfer services (some "M") (some p2p) [] transferred
transfer_submission_iff_example =
    transfer_submission_iff services (some "M") (some p2p) [] transferred

abbrev refunded : TransferRequest
refunded = record {
  merchant_no = "M";
  out_trade_no = "T-3";
  title = "";
  remark = "";
  biz_type = biz_type_refund;
  transfer_scene = "";
  debit_account_no = "";
  credit_account_no = "";
  credit_expire_at = none;
  refund_of_txn_no = "5";
  amount = pos 5;
  refundable_amount = pos 0;
  status = "INIT";
}

refund_submission_iff_example :
    (refund_submission services (λ n. n == "5") (some "M") (some refund_body) [] ≡ passed refunded)
    ↔ IsRefund services (λ n. n == "5") (some "M") (some refund_body) [] refunded
refund_submission_iff_example =
    refund_submission_iff services (λ n. n == "5") (some "M") (some refund_body) [] refunded
