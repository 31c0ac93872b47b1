-- ===== src/Http/Transactions/Submitted.antt =====
-- What a handler may submit, and what follows an answer of `Submit`.
use coin.Base.{
  ℕ, ◌≡◌, refl, ◌⊎◌, inl, inr, String, true, false, ◌||◌, Option, some, ◌==◌, arith, Option-cases,
  Bool-cases,
}
use coin.Int.{ℤ, pos, leb_ℤ, ◌<ℤ◌}
use coin.Text.{trim_space}
use coin.Domain.{TransferTxn, Merchant, biz_type_transfer}
use coin.Domain.Error.{
  Error, account_resolve_failed, account_forbid_debit, account_forbid_credit,
  account_forbid_transfer, insufficient_balance, duplicate_out_trade_no, account_resolve_conflict,
}
use coin.Domain.StateMachine.{txn_status_init}
use coin.Ledger.Schema.{Result, ok, err}
use coin.Transfer.{TransferRequest}
use coin.Transfer.Routing.{TransferRoutingResult}
use coin.Http.{
  write_transfer_error, Outcome, passed, refused, Reply, found_or, merchant_no_from_context,
  authenticated, ◌>>=◌, ◌>>◌, refuse_if, Ensures, weaken-Ensures,
}
use coin.Http.Services.{Services}
use coin.Http.Transactions.{
  Created, is_valid_out_trade_no, is_valid_txn_copy, max_txn_title_len, max_txn_remark_len,
  check_copy, known_merchant, routed_parties, routed_or, resolved_or, party_account,
  transfer_request, submit_error, submit_passed, answer_submitted, enqueue_txn,
}

write_transfer_error-Ensures :
    {A : Type 0} (P : A → Type 0) (e : Error) → Ensures P (write_transfer_error e)
unfolding write_transfer_error
write_transfer_error-Ensures P account_resolve_failed = tt
write_transfer_error-Ensures P account_forbid_debit = tt
write_transfer_error-Ensures P account_forbid_credit = tt
write_transfer_error-Ensures P account_forbid_transfer = tt
write_transfer_error-Ensures P insufficient_balance = tt
write_transfer_error-Ensures P _ = tt

module _ {S : Type 0} (svc : Services S) where
  -- The request is of the merchant who is authenticated and exists, for a positive amount, under a
  -- valid number, with texts that fit, and starts in INIT.
  pub record IsChecked (context : Option String) (s : S) (req : TransferRequest) : Type 0 where
    pub merchant : merchant_no_from_context context ≡ some req.merchant_no
    pub known : (m : Merchant) × (svc.get_merchant_by_no req.merchant_no s ≡ some m)
    pub positive : pos 0 <ℤ req.amount
    pub numbered : is_valid_out_trade_no req.out_trade_no ≡ true
    pub title_fits : is_valid_txn_copy req.title max_txn_title_len ≡ true
    pub remark_fits : is_valid_txn_copy req.remark max_txn_remark_len ≡ true
    pub starts : req.status ≡ txn_status_init

  -- The routing of the scene, asked with the two given parties, has found the request's, and all of it
  -- can be refunded.
  pub record IsRouted (scene debit credit : String) (s : S) (req : TransferRequest) : Type 0 where
    pub kind : req.biz_type ≡ biz_type_transfer
    pub of_scene : req.transfer_scene ≡ scene
    pub routing :
        svc.resolve
          (record {
            merchant_no = req.merchant_no;
            scene = scene;
            debit_account_no = debit;
            credit_account_no = credit;
          })
          s
        ≡ ok (record {
          debit_account_no = req.debit_account_no;
          credit_account_no = req.credit_account_no;
        })
    pub refundable : req.refundable_amount ≡ req.amount
    pub of_no_origin : req.refund_of_txn_no ≡ ""

  -- The account of a party: the trimmed number where no user is named, and otherwise what the
  -- resolution of both has found.
  abbrev pub IsParty : String → String → String → S → String → Type 0
  IsParty merchant_no account_no out_user_id s found =
      (((trim_space out_user_id == "") ≡ true) × (found ≡ trim_space account_no))
      ⊎ (((trim_space out_user_id == "") ≡ false)
          × ((found == "") ≡ false)
          × (svc.resolve_customer_account merchant_no (trim_space account_no)
                (trim_space out_user_id) s
              ≡ ok found))

  resolved_or-Ensures :
      (message failed : String) (r : Result String)
      → Ensures
          (λ found. ((found == "") ≡ false) × (r ≡ ok found))
          (resolved_or svc (refused 404 "OUT_USER_ID_NOT_FOUND" message) failed r)
  resolved_or-Ensures message failed (ok account_no) = elim (Bool-cases (account_no == "")) [
    | inl e ↦ rw e tt
    | inr e ↦ rw e (e, refl)
  ]
  resolved_or-Ensures message failed (err account_resolve_conflict) = tt
  resolved_or-Ensures message failed (err _) = tt

  pub party_account-Ensures :
      (merchant_no account_no out_user_id missing failed : String) (s : S)
      → Ensures (IsParty merchant_no account_no out_user_id s) (
          party_account svc merchant_no
            (trim_space account_no)
            (trim_space out_user_id)
            missing
            failed
            s)
  unfolding party_account
  party_account-Ensures merchant_no account_no out_user_id missing failed s =
      elim (Bool-cases (trim_space out_user_id == "")) [
        | inl e ↦ rw e (inl (e, refl))
        | inr e ↦ rw e (
            let r =
              svc.resolve_customer_account merchant_no (trim_space account_no)
                (trim_space out_user_id) s in
            weaken-Ensures (λ found. ((found == "") ≡ false) × (r ≡ ok found))
              (IsParty merchant_no account_no out_user_id s) _
              (resolved_or-Ensures missing failed r) (λ found h. inr (e, h.0, h.1)))
      ]

  -- A handler behind a check of its own: it has answered 201 with the number of what `Submit` has
  -- accepted, which it has told the dispatcher; or it refuses, and either nothing is done or
  -- `Submit` has been asked and failed.
  abbrev pub IsHandled : (TransferRequest → Type 0) → S → Outcome (Reply Created) × S → Type 0
  IsHandled P s (passed reply, s') =
      (req : TransferRequest) × (txn : TransferTxn) × (t : S) × P req
      × (svc.submit req s ≡ (ok txn, t))
      × (s' ≡ enqueue_txn svc txn t)
      × (reply ≡ record {
        status = 201;
        body = record { txn_no = txn.txn_no; status = txn_status_init };
      })
  IsHandled P s (refused _ _ _, s') =
      (s' ≡ s) ⊎ ((req : TransferRequest) × (e : Error) × P req × (svc.submit req s ≡ (err e, s')))

  pub check_copy-Ensures :
      (out_trade_no title remark : String)
      → Ensures
          (λ _.
            (is_valid_out_trade_no out_trade_no ≡ true)
            × (is_valid_txn_copy title max_txn_title_len ≡ true)
            × (is_valid_txn_copy remark max_txn_remark_len ≡ true))
          (check_copy out_trade_no title remark)
  unfolding check_copy refuse_if ◌>>◌
  check_copy-Ensures out_trade_no title remark = ground arith

  pub known_merchant-Ensures :
      (context : Option String) (s : S)
      → Ensures
          (λ merchant_no.
            (merchant_no_from_context context ≡ some merchant_no)
            × ((m : Merchant) × (svc.get_merchant_by_no merchant_no s ≡ some m)))
          (known_merchant svc context s)
  unfolding known_merchant authenticated found_or ◌>>=◌
  known_merchant-Ensures context s = elim (Option-cases (merchant_no_from_context context)) [
    | inl missing ↦ rw missing tt
    | inr (merchant_no, e) ↦ rw e (elim (Option-cases (svc.get_merchant_by_no merchant_no s)) [
      | inl gone ↦ rw gone tt
      | inr (m, found) ↦ rw found (refl, (m, found))
    ])
  ]

  routed_or-Ensures :
      (r : Result TransferRoutingResult) → Ensures (λ parties. r ≡ ok parties) (routed_or svc r)
  routed_or-Ensures (ok parties) = refl
  routed_or-Ensures (err e) = write_transfer_error-Ensures _ e

  pub routed_parties-Ensures :
      (merchant_no scene debit credit : String) (s : S)
      → Ensures
          (λ parties.
            svc.resolve
              (record {
                merchant_no = merchant_no;
                scene = scene;
                debit_account_no = debit;
                credit_account_no = credit;
              })
              s
            ≡ ok parties)
          (routed_parties svc merchant_no scene debit credit s)
  unfolding routed_parties
  routed_parties-Ensures merchant_no scene debit credit s = routed_or-Ensures (svc.resolve _ s)

  -- What a request has passed makes a checked one of it.
  pub transfer_request-IsChecked :
      (context : Option String) (merchant_no out_trade_no title remark scene : String)
      (parties : TransferRoutingResult) (expire_at : Option ℕ) (amount : ℤ) (s : S)
      → (merchant_no_from_context context ≡ some merchant_no)
        × ((m : Merchant) × (svc.get_merchant_by_no merchant_no s ≡ some m))
      → (out_trade_no == "" || leb_ℤ amount (pos 0)) ≡ false
      → (is_valid_out_trade_no out_trade_no ≡ true)
        × (is_valid_txn_copy title max_txn_title_len ≡ true)
        × (is_valid_txn_copy remark max_txn_remark_len ≡ true)
      → IsChecked context s
          (transfer_request merchant_no out_trade_no title remark scene parties expire_at amount)
  transfer_request-IsChecked context merchant_no out title remark scene parties e amount s who given
        fits =
      record {
        merchant = who.0;
        known = who.1;
        positive = ground (arith, given);
        numbered = fits.0;
        title_fits = fits.1;
        remark_fits = fits.2;
        starts = refl;
      }

  pub transfer_request-IsRouted :
      (merchant_no out_trade_no title remark scene debit credit : String)
      (parties : TransferRoutingResult) (expire_at : Option ℕ) (amount : ℤ) (s : S)
      → svc.resolve
          (record {
            merchant_no = merchant_no;
            scene = scene;
            debit_account_no = debit;
            credit_account_no = credit;
          })
          s
        ≡ ok parties
      → IsRouted scene debit credit s
          (transfer_request merchant_no out_trade_no title remark scene parties expire_at amount)
  transfer_request-IsRouted merchant_no out title remark scene debit credit parties e amount s
        found =
      record {
        kind = refl;
        of_scene = refl;
        routing = found;
        refundable = refl;
        of_no_origin = refl;
      }

  pub submit_passed-IsHandled :
      (P : TransferRequest → Type 0) (on_error : Error → Outcome (Reply Created))
      (m : Outcome TransferRequest) (s : S)
      → ((e : Error) → Ensures (λ _. ⊥) (on_error e))
      → Ensures P m
      → IsHandled P s (submit_passed svc on_error m s)
  submit_passed-IsHandled P on_error (refused _ _ _) s r h = inl refl
  submit_passed-IsHandled P on_error (passed req) s r h = answered (svc.submit req s) refl
    where
      failed :
          (e : Error) (t : S) (o : Outcome (Reply Created))
          → svc.submit req s ≡ (err e, t)
          → Ensures (λ _. ⊥) o
          → IsHandled P s (o, t)
      failed e t (passed reply) eq bad = absurd bad
      failed e t (refused _ _ _) eq _ = inr (req, e, h, eq)

      answered :
          (x : Result TransferTxn × S)
          → svc.submit req s ≡ x
          → IsHandled P s (answer_submitted svc on_error x)
      answered (err e, t) eq = failed e t (on_error e) eq (r e)
      answered (ok txn, t) eq = (req, txn, t, h, eq, refl, refl)

  pub submit_error-refuses : (e : Error) → Ensures (λ _. ⊥) (submit_error e)
  submit_error-refuses duplicate_out_trade_no = tt
  submit_error-refuses _ = tt
