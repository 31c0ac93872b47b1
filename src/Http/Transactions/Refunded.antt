-- ===== src/Http/Transactions/Refunded.antt =====
-- `handleRefund`: what it submits, and what it answers.
use coin.Base.{◌≡◌, refl, String, Bool, Option, none, some, arith}
use coin.Int.{pos}
use coin.Text.{trim_space}
use coin.Domain.{biz_type_refund}
use coin.Domain.Error.{
  Error, duplicate_out_trade_no, txn_not_found, txn_status_invalid, account_resolve_failed,
  account_forbid_debit, account_forbid_credit, account_forbid_transfer, refund_amount_exceeded,
}
use coin.Transfer.{TransferRequest}
use coin.Http.{Ensures, bind-Ensures, then-Ensures, refuse_if-Ensures, found_or-Ensures}
use coin.Http.Services.{Services}
use coin.Http.Transactions.{RefundRequest, refund_error}
use coin.Http.Transactions.Handlers.{refund_submission, handle_refund}
use coin.Http.Transactions.Bodies.{IsCopied, IsRefundBody}
use coin.Http.Transactions.Submitted.{
  IsChecked, IsHandled, check_copy-Ensures, known_merchant-Ensures, submit_passed-IsHandled,
}

module _ {S : Type 0} (svc : Services S) where
  -- What passes as a refund of the origin that the body names: no party is named.
  pub record IsRefund (is_valid_uuid : String → Bool) (context : Option String)
      (body : Option RefundRequest) (s : S) (req : TransferRequest) : Type 0 where
    pub checked : IsChecked svc context s req
    pub given : RefundRequest
    pub bound : body ≡ some given
    pub asked : IsRefundBody is_valid_uuid given
    pub copied : IsCopied given.out_trade_no given.title given.remark given.amount req
    pub origin : req.refund_of_txn_no ≡ trim_space given.refund_of_txn_no
    pub kind : req.biz_type ≡ biz_type_refund
    pub of_no_scene : req.transfer_scene ≡ ""
    pub of_no_debit : req.debit_account_no ≡ ""
    pub of_no_credit : req.credit_account_no ≡ ""
    pub undated : req.credit_expire_at ≡ none
    pub refundable : req.refundable_amount ≡ pos 0

  refund_error-refuses : (e : Error) → Ensures (λ _. ⊥) (refund_error e)
  refund_error-refuses duplicate_out_trade_no = tt
  refund_error-refuses txn_not_found = tt
  refund_error-refuses txn_status_invalid = tt
  refund_error-refuses account_resolve_failed = tt
  refund_error-refuses account_forbid_debit = tt
  refund_error-refuses account_forbid_credit = tt
  refund_error-refuses account_forbid_transfer = tt
  refund_error-refuses refund_amount_exceeded = tt
  refund_error-refuses _ = tt

  pub refund_submission-IsRefund :
      (is_valid_uuid : String → Bool) (context : Option String) (body : Option RefundRequest)
      (s : S)
      → Ensures
          (IsRefund is_valid_uuid context body s)
          (refund_submission svc is_valid_uuid context body s)
  unfolding refund_submission
  refund_submission-IsRefund is_valid_uuid context body s =
      let Q = IsRefund is_valid_uuid context body s in
      bind-Ensures _ Q _ _ (known_merchant-Ensures svc context s) (λ merchant_no who.
        found_or-Ensures Q body _ _ _ _ (λ b given_body. refuse_if-Ensures Q _ _ _ _ _ (λ given.
          then-Ensures _ Q _ _
            (check_copy-Ensures svc (trim_space b.out_trade_no) (trim_space b.title)
              (trim_space b.remark))
            (λ fits. refuse_if-Ensures Q _ _ _ _ _ (λ uuid. refuse_if-Ensures Q _ _ _ _ _ (λ kind.
              record {
                checked = record {
                  merchant = who.0;
                  known = who.1;
                  positive = ground (arith, given);
                  numbered = fits.0;
                  title_fits = fits.1;
                  remark_fits = fits.2;
                  starts = refl;
                };
                given = b;
                bound = given_body;
                asked = record {
                  origin_named = ground (arith, given);
                  origin = ground (arith, uuid);
                  kind = kind;
                };
                copied = record {
                  number = refl;
                  title_kept = refl;
                  remark_kept = refl;
                  amount_kept = refl;
                };
                origin = refl;
                kind = refl;
                of_no_scene = refl;
                of_no_debit = refl;
                of_no_credit = refl;
                undated = refl;
                refundable = refl;
              }))))))

  -- handleRefund submits at most one request, which is of the authenticated and known merchant, for
  -- the positive amount of the body, with its number and texts, valid and trimmed, names no party and
  -- names as its origin the valid UUID of the body. It answers 201 with the number of what Submit has accepted, which it has told the
  -- dispatcher; otherwise it refuses, and nothing is done unless Submit has been asked and failed.
  pub handle_refund-IsHandled :
      (is_valid_uuid : String → Bool) (context : Option String) (body : Option RefundRequest)
      (s : S)
      → IsHandled svc
          (IsRefund is_valid_uuid context body s)
          s
          (handle_refund svc is_valid_uuid context body s)
  unfolding handle_refund
  handle_refund-IsHandled is_valid_uuid context body s =
      submit_passed-IsHandled svc (IsRefund is_valid_uuid context body s) refund_error _ s
        refund_error-refuses (refund_submission-IsRefund is_valid_uuid context body s)
