-- ===== src/Transfer.antt =====
-- internal/service/transfer_service.go: what submitting a transfer or a refund checks before the
-- transaction's row is written.
pub mod Checks
pub mod Routing
use coin.Base.{
  ℕ, String, Bool, true, false, not, ◌||◌, ◌&&◌, Option, none, some, if◌then◌else◌, ◌==◌,
}
use coin.Int.{ℤ, pos, ltb_ℤ, eqb_ℤ}
use coin.Text.{trim_space}
use coin.Domain.{
  TransferTxn, Merchant, biz_type_transfer, biz_type_refund, scene_adjust, scene_expire_writeoff,
  scene_p2p,
}
use coin.Domain.Error.{
  Error, account_resolve_failed, txn_status_invalid, txn_not_found, refund_amount_exceeded,
}
use coin.Domain.Account.{Account, can_debit_out, can_credit, can_transfer}
use coin.Domain.StateMachine.{txn_status_init, txn_status_recv_success}
use coin.Ledger.Schema.{Result, ok, err}

-- The part of `service.Repository` that the services below ask, over a store of any kind.
pub record Repository (S : Type 0) : Type 0 where
  pub get_transfer_txn : String → S → Option TransferTxn
  pub get_account : String → S → Option Account
  pub get_merchant_by_no : String → S → Option Merchant
  pub get_account_by_out_user_id : String → String → S → Option Account
  pub create_transfer_txn : TransferTxn → S → Option Error × S

pub record TransferRequest : Type 0 where
  pub merchant_no : String
  pub out_trade_no : String
  pub title : String
  pub remark : String
  pub biz_type : String
  pub transfer_scene : String
  pub debit_account_no : String
  pub credit_account_no : String
  pub credit_expire_at : Option ℕ
  pub refund_of_txn_no : String
  pub amount : ℤ
  pub refundable_amount : ℤ
  pub status : String

-- The first error of two checks.
infixr 4 ◌&>◌
abbrev pub ◌&>◌ : Option Error → Option Error → Option Error
none &> e = e
(some x) &> e = some x

abbrev pub error_if : Bool → Error → Option Error
error_if c e = if c then some e else none

abbrev pub or_default : String → String → String
or_default given default = if given == "" then default else given

-- `RefundableAmount` of a new transaction
abbrev pub refundable_of : String → TransferRequest → ℤ
refundable_of biz_type req =
    let given = if ltb_ℤ req.refundable_amount (pos 0) then pos 0 else req.refundable_amount in
    if biz_type == biz_type_transfer && eqb_ℤ given (pos 0) then req.amount else given

-- The transaction that `Submit` fills in from the request.
abbrev pub new_txn : String → TransferRequest → TransferTxn
new_txn txn_no req =
    let biz_type = or_default req.biz_type biz_type_transfer in
    record {
      txn_no = txn_no;
      merchant_no = req.merchant_no;
      out_trade_no = req.out_trade_no;
      title = req.title;
      remark = req.remark;
      biz_type = biz_type;
      transfer_scene =
          if biz_type == biz_type_transfer && req.transfer_scene == ""
          then scene_adjust
          else req.transfer_scene;
      debit_account_no = req.debit_account_no;
      credit_account_no = req.credit_account_no;
      credit_expire_at = elim req.credit_expire_at [ none ↦ 0 | some t ↦ t ];
      amount = req.amount;
      refund_of_txn_no = req.refund_of_txn_no;
      refundable_amount = refundable_of biz_type req;
      status = or_default req.status txn_status_init;
      error_code = "";
      error_msg = "";
      created_at = 0;
    }

module _ {S : Type 0} (repo : Repository S) where
  -- The two accounts of a transaction, both of the merchant.
  abbrev pub parties : String → String → String → S → Result (Account × Account)
  parties merchant_no debit_account_no credit_account_no s =
      let debit_no = trim_space debit_account_no in
      let credit_no = trim_space credit_account_no in
      if debit_no == "" || credit_no == ""
      then err account_resolve_failed
      else elim (repo.get_account debit_no s) [
        | none ↦ err account_resolve_failed
        | some debit ↦ elim (repo.get_account credit_no s) [
          | none ↦ err account_resolve_failed
          | some credit ↦
              if not (trim_space debit.merchant_no == trim_space merchant_no)
                || not (trim_space credit.merchant_no == trim_space merchant_no)
              then err account_resolve_failed
              else ok (debit, credit)
        ]
      ]

  -- `validateSubmitTransferAccounts`
  unfoldable pub validate_submit_transfer_accounts :
      String → String → String → String → S → Option Error
  validate_submit_transfer_accounts merchant_no scene debit_account_no credit_account_no s =
      elim (parties merchant_no debit_account_no credit_account_no s) [
        | err e ↦ some e
        | ok (debit, credit) ↦
            can_debit_out debit
            &> can_credit credit
            &> (if scene == scene_p2p then can_transfer debit else none)
      ]

  -- `validateSubmitRefundAccounts`
  unfoldable pub validate_submit_refund_accounts : String → String → String → S → Option Error
  validate_submit_refund_accounts merchant_no debit_account_no credit_account_no s =
      elim (parties merchant_no debit_account_no credit_account_no s) [
        | err e ↦ some e
        | ok (debit, credit) ↦ can_debit_out debit
      ]

  -- The branch of `Submit` for a refund: the accounts of the origin, the other way round.
  unfoldable pub refund_txn : TransferRequest → TransferTxn → S → Result TransferTxn
  refund_txn req txn s = elim (repo.get_transfer_txn (trim_space req.refund_of_txn_no) s) [
    | none ↦ err txn_not_found
    | some origin ↦
        let debit = trim_space origin.credit_account_no in
        let credit = trim_space origin.debit_account_no in
        let refused =
          error_if (not (trim_space origin.merchant_no == trim_space req.merchant_no)) txn_not_found
          &> error_if
              (not (trim_space origin.biz_type == biz_type_transfer)
                || not (trim_space origin.status == txn_status_recv_success))
              txn_status_invalid
          &> error_if (trim_space origin.transfer_scene == scene_expire_writeoff) txn_status_invalid
          &> error_if (ltb_ℤ origin.refundable_amount req.amount) refund_amount_exceeded
          &> error_if (debit == "" || credit == "") account_resolve_failed
          &> validate_submit_refund_accounts req.merchant_no debit credit s in
        elim refused [
          | some e ↦ err e
          | none ↦ ok (record txn { debit_account_no = debit; credit_account_no = credit })
        ]
  ]

  -- The branch for any other kind.
  unfoldable pub transfer_txn : TransferRequest → TransferTxn → S → Result TransferTxn
  transfer_txn req txn s =
      let named =
        not (trim_space txn.debit_account_no == "")
        || not (trim_space txn.credit_account_no == "") in
      let refused =
        if named
        then validate_submit_transfer_accounts req.merchant_no txn.transfer_scene
            txn.debit_account_no txn.credit_account_no s
        else none in
      elim refused [ some e ↦ err e | none ↦ ok txn ]

  -- `Submit`, with the id that the generator returns
  unfoldable pub submit : Result String → TransferRequest → S → Result TransferTxn × S
  submit (err e) req s = (err e, s)
  submit (ok txn_no) req s =
      let txn = new_txn txn_no req in
      let checked =
        if txn.biz_type == biz_type_refund then refund_txn req txn s else transfer_txn req txn s in
      elim checked [
        | err e ↦ (err e, s)
        | ok final ↦
            let (error, s') = repo.create_transfer_txn final s in
            elim error [ some e ↦ (err e, s') | none ↦ (ok final, s') ]
      ]
