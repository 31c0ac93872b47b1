-- ===== src/Http/Transactions/Accepted.antt =====
-- `handleTransfer` and `handleRefund`: exactly which requests they submit.
use coin.Base.{
  String, ℕ, ◌+◌, ◌*◌, ◌/◌, ◌^◌, ◌-◌, ◌≡◌, ◌↔◌, refl, sym, ap, subst, ◌∙◌, Bool, true, false, ◌==◌,
  ltb, eq_iff, Option, arith, Bool-cases, inl, inr,
}
use coin.Int.{ℤ, pos, pos_part, leb_ℤ}
use coin.Text.{trim_space}
use coin.Text.Hash.{bytes}
use coin.Domain.Account.{Account}
use coin.Transfer.{TransferRequest}
use coin.Http.{Outcome, passed, authenticated, found_or, refuse_if, Ensures, ◌>>=◌, ◌>>◌}
use coin.Http.Services.{Services}
use coin.Http.Transactions.{
  P2PRequest, RefundRequest, is_valid_out_trade_no, is_valid_txn_copy, max_txn_title_len,
  max_txn_remark_len, check_copy, calc_expire_at_by_days, normalize_expiry_day_utc, day,
  known_merchant, party_account, routed_parties,
}
use coin.Http.Transactions.Handlers.{transfer_expiry, transfer_submission, refund_submission}
use coin.Http.Transactions.Submitted.{IsParty}
use coin.Http.Transactions.Handled.{HasExpiry, IsTransfer, transfer_submission-IsTransfer}
use coin.Http.Transactions.Refunded.{IsRefund, refund_submission-IsRefund}

no_empty_number : is_valid_out_trade_no "" ≡ false
unfolding is_valid_out_trade_no bytes
no_empty_number = refl

-- A valid number is not blank.
valid_named : (v : String) → is_valid_out_trade_no v ≡ true → (v == "") ≡ false
valid_named v h = elim (Bool-cases (v == "")) [
  | inr e ↦ e
  | inl e ↦
      let bad = subst (λ w. is_valid_out_trade_no w ≡ true) ((eq_iff v "").0 e) h in
      ground (arith, bad, no_empty_number)
]

-- What is passed on has what is ensured.
Ensures-passed :
    {A : Type 0} (P : A → Type 0) (m : Outcome A) (a : A) → Ensures P m → m ≡ passed a → P a
Ensures-passed P m a h e = subst (Ensures P) e h

module _ {S : Type 0} (svc : Services S) where
  party_account-eq-passed :
      (merchant_no account_no out_user_id missing failed found : String) (s : S)
      → IsParty svc merchant_no account_no out_user_id s found
      → party_account svc merchant_no
          (trim_space account_no)
          (trim_space out_user_id)
          missing
          failed
          s
        ≡ passed found
  unfolding party_account
  party_account-eq-passed m account_no out_user_id missing failed found s (inl (e, same)) =
      rw e (ap passed (sym same))
  party_account-eq-passed m account_no out_user_id missing failed found s (inr (e, given, r)) =
      rw (e, r, given) refl

  transfer_expiry-eq-passed :
      (from to : Account) (days : ℤ) (s : S) (expire_at : Option ℕ)
      → HasExpiry svc from to days s expire_at
      → transfer_expiry svc from to days s ≡ passed expire_at
  unfolding calc_expire_at_by_days normalize_expiry_day_utc
  transfer_expiry-eq-passed from to days s expire_at (inl (b, same)) = rw b (ap passed (sym same))
  transfer_expiry-eq-passed from to days s expire_at (inr (b, (t, same, x))) =
      let given : leb_ℤ days (pos 0) ≡ false = ground (arith, x.ahead) in
      let fits : ltb ((2 ^ 63 - 1) / day) (pos_part days) ≡ false = ground (arith, x.in_range) in
      let now = svc.now s in
      let midnight : (now + pos_part days * day) / day * day ≡ t =
        omega (arith, x.midnight, x.from_now, x.no_earlier) in
      rw (b, given, fits, midnight) (ap passed (sym same))

  transfer_submission-eq-passed :
      (context : Option String) (body : Option P2PRequest) (s : S) (req : TransferRequest)
      → IsTransfer svc context body s req
      → transfer_submission svc context body s ≡ passed req
  unfolding transfer_submission known_merchant authenticated found_or refuse_if ◌>>=◌ ◌>>◌
      check_copy routed_parties
  transfer_submission-eq-passed context body s req h =
      let b = h.given in
      let number = h.copied.number in
      let valid : is_valid_out_trade_no (trim_space b.out_trade_no) ≡ true =
        subst (λ v. is_valid_out_trade_no v ≡ true) number h.checked.numbered in
      let title =
        subst (λ v. is_valid_txn_copy v max_txn_title_len ≡ true) h.copied.title_kept
          h.checked.title_fits in
      let remark =
        subst (λ v. is_valid_txn_copy v max_txn_remark_len ≡ true) h.copied.remark_kept
          h.checked.remark_fits in
      let positive : leb_ℤ b.amount (pos 0) ≡ false =
        rw (sym h.copied.amount_kept) (ground (arith, h.checked.positive)) in
      let from_party =
        party_account-eq-passed req.merchant_no b.from_account_no b.from_out_user_id
          "account not found by from_out_user_id" "resolve from account failed" h.debit s
          h.from_party in
      let to_party =
        party_account-eq-passed req.merchant_no b.to_account_no b.to_out_user_id
          "account not found by to_out_user_id" "resolve to account failed" h.credit s h.to_party in
      let dated =
        transfer_expiry-eq-passed h.from h.to b.to_expire_in_days s req.credit_expire_at h.dated in
      rw
        (
          h.bound,
          h.checked.merchant,
          h.checked.known.1,
          valid_named _ valid,
          positive,
          valid,
          title,
          remark,
          h.asked.from_named,
          h.asked.to_named,
          h.asked.kind,
          h.asked.scene,
          h.asked.days,
          from_party,
          to_party,
          h.between.routing,
          h.from_found,
          h.to_found,
          dated,
        )
        (ap passed (λ i. record {
          merchant_no = req.merchant_no;
          out_trade_no = sym number i;
          title = sym h.copied.title_kept i;
          remark = sym h.copied.remark_kept i;
          biz_type = sym h.between.kind i;
          transfer_scene = sym h.between.of_scene i;
          debit_account_no = req.debit_account_no;
          credit_account_no = req.credit_account_no;
          credit_expire_at = req.credit_expire_at;
          refund_of_txn_no = sym h.between.of_no_origin i;
          amount = sym h.copied.amount_kept i;
          refundable_amount = sym (h.between.refundable ∙ h.copied.amount_kept) i;
          status = sym h.checked.starts i;
        }))

  -- handleTransfer calls Submit with a request exactly if the request is a checked one of the
  -- authenticated and known merchant, with the texts, the number and the amount of a body that has all
  -- it asks for, between the accounts that the routing of P2P finds for the payer and the payee of the
  -- body, and expires at the midnight of the body's days exactly where credit goes from an account
  -- without books to one with books.
  pub transfer_submission_iff :
      (context : Option String) (body : Option P2PRequest) (s : S) (req : TransferRequest)
      → (transfer_submission svc context body s ≡ passed req) ↔ IsTransfer svc context body s req
  transfer_submission_iff context body s req = (
    Ensures-passed (IsTransfer svc context body s) _ req
        (transfer_submission-IsTransfer svc context body s),
    transfer_submission-eq-passed context body s req,
  )

  refund_submission-eq-passed :
      (is_valid_uuid : String → Bool) (context : Option String) (body : Option RefundRequest)
      (s : S) (req : TransferRequest)
      → IsRefund svc is_valid_uuid context body s req
      → refund_submission svc is_valid_uuid context body s ≡ passed req
  unfolding refund_submission known_merchant authenticated found_or refuse_if ◌>>=◌ ◌>>◌ check_copy
  refund_submission-eq-passed is_valid_uuid context body s req h =
      let b = h.given in
      let number = h.copied.number in
      let valid : is_valid_out_trade_no (trim_space b.out_trade_no) ≡ true =
        subst (λ v. is_valid_out_trade_no v ≡ true) number h.checked.numbered in
      let title =
        subst (λ v. is_valid_txn_copy v max_txn_title_len ≡ true) h.copied.title_kept
          h.checked.title_fits in
      let remark =
        subst (λ v. is_valid_txn_copy v max_txn_remark_len ≡ true) h.copied.remark_kept
          h.checked.remark_fits in
      let positive : leb_ℤ b.amount (pos 0) ≡ false =
        rw (sym h.copied.amount_kept) (ground (arith, h.checked.positive)) in
      rw
        (
          h.bound,
          h.checked.merchant,
          h.checked.known.1,
          valid_named _ valid,
          h.asked.origin_named,
          positive,
          valid,
          title,
          remark,
          h.asked.origin,
          h.asked.kind,
        )
        (ap passed (λ i. record {
          merchant_no = req.merchant_no;
          out_trade_no = sym number i;
          title = sym h.copied.title_kept i;
          remark = sym h.copied.remark_kept i;
          biz_type = sym h.kind i;
          transfer_scene = sym h.of_no_scene i;
          debit_account_no = sym h.of_no_debit i;
          credit_account_no = sym h.of_no_credit i;
          credit_expire_at = sym h.undated i;
          refund_of_txn_no = sym h.origin i;
          amount = sym h.copied.amount_kept i;
          refundable_amount = sym h.refundable i;
          status = sym h.checked.starts i;
        }))

  -- handleRefund calls Submit with a request exactly if the request is a checked one of the
  -- authenticated and known merchant, with the texts, the number and the amount of a body that has all
  -- it asks for, without parties, without a date, and with the origin that the body names.
  pub refund_submission_iff :
      (is_valid_uuid : String → Bool) (context : Option String) (body : Option RefundRequest)
      (s : S) (req : TransferRequest)
      → (refund_submission svc is_valid_uuid context body s ≡ passed req)
        ↔ IsRefund svc is_valid_uuid context body s req
  refund_submission_iff is_valid_uuid context body s req = (
    Ensures-passed (IsRefund svc is_valid_uuid context body s) _ req
        (refund_submission-IsRefund svc is_valid_uuid context body s),
    refund_submission-eq-passed is_valid_uuid context body s req,
  )
