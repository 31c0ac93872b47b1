-- ===== src/Http/Transactions/Bodies.antt =====
-- What the handlers ask of a request's body by itself, and what they take over from it.
use coin.Base.{String, Bool, ◌≡◌, true, false, ◌&&◌, ◌==◌}
use coin.Int.{ℤ, pos, ltb_ℤ}
use coin.Text.{trim_space}
use coin.Domain.{biz_type_transfer, biz_type_refund, scene_consume, scene_p2p}
use coin.Transfer.{TransferRequest}
use coin.Http.Transactions.{
  CreditRequest, DebitRequest, P2PRequest, RefundRequest, is_other, normalized,
}

-- A request has the number, the texts and the amount of its body, the texts trimmed.
pub record IsCopied (out_trade_no title remark : String) (amount : ℤ) (req : TransferRequest)
    : Type 0 where
  pub number : req.out_trade_no ≡ trim_space out_trade_no
  pub title_kept : req.title ≡ trim_space title
  pub remark_kept : req.remark ≡ trim_space remark
  pub amount_kept : req.amount ≡ amount

-- `handleCredit`: a party is named, and the days are not negative.
pub record IsCreditBody (b : CreditRequest) : Type 0 where
  pub to_named : (trim_space b.credit_account_no == "" && trim_space b.user_id == "") ≡ false
  pub days : ltb_ℤ b.expire_in_days (pos 0) ≡ false

-- `handleDebit`: the debited party is named, and the kind and the scene are left out or right.
pub record IsDebitBody (b : DebitRequest) : Type 0 where
  pub from_named :
      (trim_space b.debit_account_no == "" && trim_space b.debit_out_user_id == "") ≡ false
  pub kind : is_other (normalized b.biz_type) biz_type_transfer ≡ false
  pub scene : is_other (normalized b.transfer_scene) scene_consume ≡ false

-- `handleTransfer`: both parties are named, the kind and the scene are left out or right, and the days
-- are not negative.
pub record IsTransferBody (b : P2PRequest) : Type 0 where
  pub from_named :
      (trim_space b.from_account_no == "" && trim_space b.from_out_user_id == "") ≡ false
  pub to_named : (trim_space b.to_account_no == "" && trim_space b.to_out_user_id == "") ≡ false
  pub kind : is_other (normalized b.biz_type) biz_type_transfer ≡ false
  pub scene : is_other (normalized b.transfer_scene) scene_p2p ≡ false
  pub days : ltb_ℤ b.to_expire_in_days (pos 0) ≡ false

-- `handleRefund`: the origin is named by a UUID, and the kind is left out or right.
pub record IsRefundBody (is_valid_uuid : String → Bool) (b : RefundRequest) : Type 0 where
  pub origin_named : (trim_space b.refund_of_txn_no == "") ≡ false
  pub origin : is_valid_uuid (trim_space b.refund_of_txn_no) ≡ true
  pub kind : is_other (normalized b.biz_type) biz_type_refund ≡ false

-- The body of a credit with its texts trimmed.
abbrev pub trimmed : CreditRequest → CreditRequest
trimmed b = record {
  out_trade_no = trim_space b.out_trade_no;
  title = trim_space b.title;
  remark = trim_space b.remark;
  debit_account_no = trim_space b.debit_account_no;
  credit_account_no = trim_space b.credit_account_no;
  user_id = trim_space b.user_id;
  expire_in_days = b.expire_in_days;
  amount = b.amount;
}
