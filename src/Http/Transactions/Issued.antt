-- ===== src/Http/Transactions/Issued.antt =====
-- `handleCredit`: what it submits, and what it answers.
use coin.Base.{
  ℕ, ◌≡◌, refl, sym, subst, ◌⊎◌, inl, inr, String, true, false, ◌&&◌, ◌||◌, Option, none, some,
  ◌==◌, Bool-cases,
}
use coin.Int.{ℤ, pos, ltb_ℤ, leb_ℤ}
use coin.Text.{trim_space}
use coin.Domain.{Merchant, scene_issue}
use coin.Domain.Account.{Account}
use coin.Transfer.{TransferRequest}
use coin.Http.{
  Outcome, passed, refused, Reply, merchant_no_from_context, Ensures, bind-Ensures, then-Ensures,
  weaken-Ensures, refuse_if-Ensures, found_or-Ensures,
}
use coin.Http.Services.{Services}
use coin.Http.Transactions.{
  CreditRequest, Created, is_valid_out_trade_no, is_valid_txn_copy, max_txn_title_len,
  max_txn_remark_len, submit_error,
}
use coin.Http.Transactions.Handlers.{
  credit_fields, credit_account, credit_expiry, credit_submission, handle_credit, submit_credit,
  credit_passed,
}
use coin.Http.Transactions.CreditAccount.{
  IsCreditAccount, IsPrepared, IsFoundFor, credit_account-IsFoundFor, IsCreditAccount-IsPrepared,
}
use coin.Http.Transactions.Bodies.{IsCopied, IsCreditBody, trimmed}
use coin.Http.Transactions.Submitted.{
  IsChecked, IsRouted, IsHandled, check_copy-Ensures, known_merchant-Ensures,
  routed_parties-Ensures, transfer_request-IsChecked, transfer_request-IsRouted,
  submit_passed-IsHandled, submit_error-refuses,
}
use coin.Http.Transactions.Handled.{IsExpiryIn, some_expiry-IsExpiryIn}

module _ {S : Type 0} (svc : Services S) where
  -- The merchant and the fields that a credit goes on with: those of the body, trimmed.
  abbrev IsFields : Option String → Option CreditRequest → S → String × CreditRequest → Type 0
  IsFields context body s (merchant_no, req) =
      ((merchant_no_from_context context ≡ some merchant_no)
        × ((m : Merchant) × (svc.get_merchant_by_no merchant_no s ≡ some m)))
      × ((req.out_trade_no == "" || leb_ℤ req.amount (pos 0)) ≡ false)
      × ((is_valid_out_trade_no req.out_trade_no ≡ true)
          × (is_valid_txn_copy req.title max_txn_title_len ≡ true)
          × (is_valid_txn_copy req.remark max_txn_remark_len ≡ true))
      × ((b : CreditRequest) × (body ≡ some b) × (req ≡ trimmed b) × IsCreditBody b)

  credit_fields-IsFields :
      (context : Option String) (body : Option CreditRequest) (s : S)
      → Ensures (IsFields context body s) (credit_fields svc context body s)
  unfolding credit_fields
  credit_fields-IsFields context body s =
      let Q = IsFields context body s in
      bind-Ensures _ Q _ _ (known_merchant-Ensures svc context s) (λ merchant_no who.
        found_or-Ensures Q body _ _ _ _ (λ req given_body. refuse_if-Ensures Q _ _ _ _ _ (λ given.
          then-Ensures _ Q _ _
            (check_copy-Ensures svc (trim_space req.out_trade_no) (trim_space req.title)
              (trim_space req.remark))
            (λ fits. refuse_if-Ensures Q _ _ _ _ _ (λ named. refuse_if-Ensures Q _ _ _ _ _ (λ days.
              (
                who,
                given,
                fits,
                (req, given_body, refl, record { to_named = named; days = days }),
              )))))))

  -- Credit to an account with books expires where days are given, and no other does.
  abbrev pub HasCreditExpiry : Account → ℤ → S → Option ℕ → Type 0
  HasCreditExpiry to days s expire_at =
      (((to.book_enabled && ltb_ℤ (pos 0) days) ≡ false) × (expire_at ≡ none))
      ⊎ (((to.book_enabled && ltb_ℤ (pos 0) days) ≡ true)
          × ((t : ℕ) × (expire_at ≡ some t) × IsExpiryIn (svc.now s) days t))

  credit_expiry-HasCreditExpiry :
      (to : Account) (days : ℤ) (s : S)
      → Ensures (HasCreditExpiry to days s) (credit_expiry svc to days s)
  credit_expiry-HasCreditExpiry to days s =
      elim (Bool-cases (to.book_enabled && ltb_ℤ (pos 0) days)) [
        | inr e ↦ rw e (inl (e, refl))
        | inl e ↦ rw e (
            weaken-Ensures
              (λ (o : Option ℕ). (t : ℕ) × (o ≡ some t) × IsExpiryIn (svc.now s) days t) _ _
              (some_expiry-IsExpiryIn svc "invalid expire_in_days" (svc.now s) days)
              (λ o x. inr (e, x)))
      ]

  -- What passes as a credit to the account of the body, in the state `t` in which it is there.
  pub record IsCredit (context : Option String) (body : Option CreditRequest) (s t : S)
      (req : TransferRequest) : Type 0 where
    pub checked : IsChecked svc context s req
    pub given : CreditRequest
    pub bound : body ≡ some given
    pub asked : IsCreditBody given
    pub copied : IsCopied given.out_trade_no given.title given.remark given.amount req
    pub credit : String
    pub account : IsCreditAccount svc req.merchant_no given s credit t
    pub between : IsRouted svc scene_issue (trim_space given.debit_account_no) credit t req
    pub to : Account
    pub to_found : svc.get_account req.credit_account_no t ≡ some to
    pub dated : HasCreditExpiry to given.expire_in_days t req.credit_expire_at

  credit_submission-IsCredit :
      (context : Option String) (body : Option CreditRequest) (merchant_no : String)
      (b : CreditRequest) (credit : String) (s t : S)
      → (merchant_no_from_context context ≡ some merchant_no)
        × ((m : Merchant) × (svc.get_merchant_by_no merchant_no s ≡ some m))
      → (trim_space b.out_trade_no == "" || leb_ℤ b.amount (pos 0)) ≡ false
      → (is_valid_out_trade_no (trim_space b.out_trade_no) ≡ true)
        × (is_valid_txn_copy (trim_space b.title) max_txn_title_len ≡ true)
        × (is_valid_txn_copy (trim_space b.remark) max_txn_remark_len ≡ true)
      → body ≡ some b
      → IsCreditBody b
      → IsCreditAccount svc merchant_no b s credit t
      → Ensures (IsCredit context body s t) (credit_submission svc merchant_no (trimmed b) credit t)
  unfolding credit_submission
  credit_submission-IsCredit context body merchant_no b credit s t who given fits bound asked
        account =
      let Q = IsCredit context body s t in
      bind-Ensures _ Q _ _
        (routed_parties-Ensures svc merchant_no scene_issue (trim_space b.debit_account_no) credit
          t)
        (λ parties found. found_or-Ensures Q _ _ _ _ _ (λ to to_found.
          bind-Ensures _ Q _ _ (credit_expiry-HasCreditExpiry to b.expire_in_days t)
            (λ expire_at dated. record {
              checked = transfer_request-IsChecked svc context _ _ _ _ _ _ _ _ s who given fits;
              given = b;
              bound = bound;
              asked = asked;
              copied = record {
                number = refl;
                title_kept = refl;
                remark_kept = refl;
                amount_kept = refl;
              };
              credit = credit;
              account = account;
              between =
                  transfer_request-IsRouted svc _ _ _ _ _ (trim_space b.debit_account_no) credit _ _
                    _ t found;
              to = to;
              to_found = to_found;
              dated = dated;
            })))

  abbrev pub IsCreditHandled :
      Option String → Option CreditRequest → S → Outcome (Reply Created) × S → Type 0
  IsCreditHandled context body s x =
      (t : S) × IsPrepared svc context body s t × IsHandled svc (IsCredit context body s t) t x

  submit_credit-IsCreditHandled :
      (context : Option String) (body : Option CreditRequest) (merchant_no : String)
      (b : CreditRequest) (s : S) (x : Outcome String × S)
      → IsFields context body s (merchant_no, trimmed b)
      → body ≡ some b
      → IsCreditBody b
      → IsFoundFor svc merchant_no b s x
      → IsCreditHandled context body s (submit_credit svc (merchant_no, trimmed b) x)
  submit_credit-IsCreditHandled context body m b s (refused _ _ _, t) f bound asked (inl same) =
      (t, inl same, inl refl)
  submit_credit-IsCreditHandled context body m b s (refused _ _ _, t) f bound asked
        (inr (r, none_found, ensured)) =
      (t, inr (m, b, r, f.0.0, bound, none_found, ensured), inl refl)
  submit_credit-IsCreditHandled context body m b s (passed found, t) f bound asked account = (
    t,
    IsCreditAccount-IsPrepared svc context body m b found s t f.0.0 bound account,
    submit_passed-IsHandled svc (IsCredit context body s t) submit_error _ t
        (submit_error-refuses svc)
        (credit_submission-IsCredit context body m b found s t f.0 f.1 f.2 bound asked account),
  )

  credit_passed-IsCreditHandled :
      (context : Option String) (body : Option CreditRequest) (x : Outcome (String × CreditRequest))
      (s : S)
      → Ensures (IsFields context body s) x
      → IsCreditHandled context body s (credit_passed svc x s)
  credit_passed-IsCreditHandled context body (refused _ _ _) s f = (s, inl refl, inl refl)
  credit_passed-IsCreditHandled context body (passed (m, req)) s f =
      let (b, bound, same, asked) = f.3 in
      subst
        (λ (x : CreditRequest).
          IsCreditHandled context body s (credit_passed svc (passed (m, x)) s))
        (sym same)
        (submit_credit-IsCreditHandled context body m b s (credit_account svc m (trimmed b) s)
          (subst (λ (x : CreditRequest). IsFields context body s (m, x)) same f) bound asked
          (credit_account-IsFoundFor svc m b s))

  -- handleCredit submits at most one request, which is of the authenticated and known merchant, for
  -- the positive amount of the body, with its number and texts, valid and trimmed. The parties are
  -- those that the routing of ISSUE finds for the debited account of the body and for the credited
  -- one: the number of the body where it names no user, otherwise the account that is found for both
  -- or, where none is found and no number is given, the one that the user is given. It expires at the
  -- midnight of the days of the body where these are positive and the account has books, and does not
  -- otherwise, also where the account has books. The handler answers 201 with the number of what
  -- Submit has accepted, which it has told the dispatcher, and refuses otherwise; before that at most
  -- the account for the user is asked for.
  pub handle_credit-IsHandled :
      (context : Option String) (body : Option CreditRequest) (s : S)
      → IsCreditHandled context body s (handle_credit svc context body s)
  unfolding handle_credit
  handle_credit-IsHandled context body s =
      credit_passed-IsCreditHandled context body (credit_fields svc context body s) s
        (credit_fields-IsFields context body s)
