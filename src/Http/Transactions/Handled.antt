-- ===== src/Http/Transactions/Handled.antt =====
-- `handleDebit` and `handleTransfer`: what they submit, and what they answer.
use coin.Base.{
  String, ℕ, ◌+◌, ◌*◌, ◌%◌, ◌≤◌, ◌<◌, ◌-◌, ◌/◌, ◌^◌, ◌||◌, ltb, ◌≡◌, refl, ◌⊎◌, inl, inr, true,
  false, not, ◌&&◌, Option, none, some, arith, Bool-cases,
}
use coin.Int.{ℤ, pos, pos_part, leb_ℤ}
use coin.Text.{trim_space}
use coin.Domain.{scene_consume, scene_p2p}
use coin.Domain.Account.{Account}
use coin.Transfer.{TransferRequest}
use coin.Http.{
  Ensures, bind-Ensures, then-Ensures, weaken-Ensures, refuse_if-Ensures, found_or-Ensures,
}
use coin.Http.Services.{Services}
use coin.Http.Transactions.{
  DebitRequest, P2PRequest, submit_error, day, calc_expire_at_by_days, normalize_expiry_day_utc,
}
use coin.Http.Transactions.Handlers.{
  debit_submission, handle_debit, transfer_submission, handle_transfer, transfer_expiry,
  some_expiry,
}
use coin.Http.Transactions.Bodies.{IsCopied, IsDebitBody, IsTransferBody}
use coin.Http.Transactions.Submitted.{
  IsChecked, IsRouted, IsHandled, check_copy-Ensures, known_merchant-Ensures, IsParty,
  party_account-Ensures, routed_parties-Ensures, transfer_request-IsChecked,
  transfer_request-IsRouted, submit_passed-IsHandled, submit_error-refuses,
}

-- The midnight at or before the instant so many days from now.
pub record IsExpiryIn (now : ℕ) (days : ℤ) (t : ℕ) : Type 0 where
  pub midnight : t % day ≡ 0
  pub from_now : t ≤ now + pos_part days * day
  pub no_earlier : now + pos_part days * day < t + day
  pub ahead : 0 < pos_part days
  pub in_range : pos_part days ≤ (2 ^ 63 - 1) / day

module _ {S : Type 0} (svc : Services S) where
  -- What passes as a debit: its parties are those of the body, nothing expires, and the account that is
  -- credited has no books.
  pub record IsDebit (context : Option String) (body : Option DebitRequest) (s : S)
      (req : TransferRequest) : Type 0 where
    pub checked : IsChecked svc context s req
    pub given : DebitRequest
    pub bound : body ≡ some given
    pub asked : IsDebitBody given
    pub copied : IsCopied given.out_trade_no given.title given.remark given.amount req
    pub debit : String
    pub credit : String
    pub from_party :
        IsParty svc req.merchant_no given.debit_account_no given.debit_out_user_id s debit
    pub to_party :
        IsParty svc req.merchant_no given.credit_account_no given.credit_out_user_id s credit
    pub between : IsRouted svc scene_consume debit credit s req
    pub to : Account
    pub to_found : svc.get_account req.credit_account_no s ≡ some to
    pub plain : to.book_enabled ≡ false
    pub undated : req.credit_expire_at ≡ none

  debit_submission-IsDebit :
      (context : Option String) (body : Option DebitRequest) (s : S)
      → Ensures (IsDebit context body s) (debit_submission svc context body s)
  unfolding debit_submission
  debit_submission-IsDebit context body s =
      let Q = IsDebit context body s in
      bind-Ensures _ Q _ _ (known_merchant-Ensures svc context s) (λ merchant_no who.
        found_or-Ensures Q body _ _ _ _ (λ b given_body. refuse_if-Ensures Q _ _ _ _ _ (λ given.
          then-Ensures _ Q _ _
            (check_copy-Ensures svc (trim_space b.out_trade_no) (trim_space b.title)
              (trim_space b.remark))
            (λ fits. refuse_if-Ensures Q _ _ _ _ _ (λ named. refuse_if-Ensures Q _ _ _ _ _ (λ kind.
              refuse_if-Ensures Q _ _ _ _ _ (λ scene.
                bind-Ensures _ Q _ _
                  (party_account-Ensures svc merchant_no b.debit_account_no b.debit_out_user_id _ _
                    s)
                  (λ debit from_party.
                    bind-Ensures _ Q _ _
                      (party_account-Ensures svc merchant_no b.credit_account_no
                        b.credit_out_user_id _ _ s)
                      (λ credit to_party.
                        bind-Ensures _ Q _ _
                          (routed_parties-Ensures svc merchant_no scene_consume debit credit s)
                          (λ parties found. found_or-Ensures Q _ _ _ _ _ (λ to to_found.
                            refuse_if-Ensures Q _ _ _ _ _ (λ plain. record {
                              checked =
                                  transfer_request-IsChecked svc context _ _ _ _ _ _ _ _ s who given
                                    fits;
                              given = b;
                              bound = given_body;
                              asked = record { from_named = named; kind = kind; scene = scene };
                              copied = record {
                                number = refl;
                                title_kept = refl;
                                remark_kept = refl;
                                amount_kept = refl;
                              };
                              debit = debit;
                              credit = credit;
                              from_party = from_party;
                              to_party = to_party;
                              between =
                                  transfer_request-IsRouted svc _ _ _ _ _ debit credit _ _ _ s
                                    found;
                              to = to;
                              to_found = to_found;
                              plain = plain;
                              undated = refl;
                            }))))))))))))

  -- handleDebit submits at most one request, which is of the authenticated and known merchant, for the
  -- positive amount of the body, with its number and texts, valid and trimmed. It goes between the
  -- parties that the routing of CONSUME finds for the debited and the credited account of the body,
  -- each by number or by user; the credited one has no books, and nothing expires. The handler answers
  -- 201 with the number of what Submit has accepted, which it has told the dispatcher; otherwise it
  -- refuses, and nothing is done unless Submit has been asked and failed.
  pub handle_debit-IsHandled :
      (context : Option String) (body : Option DebitRequest) (s : S)
      → IsHandled svc (IsDebit context body s) s (handle_debit svc context body s)
  unfolding handle_debit
  handle_debit-IsHandled context body s =
      submit_passed-IsHandled svc (IsDebit context body s) submit_error _ s
        (submit_error-refuses svc) (debit_submission-IsDebit context body s)

  pub some_expiry-IsExpiryIn :
      (message : String) (now : ℕ) (days : ℤ)
      → Ensures
          (λ o. (t : ℕ) × (o ≡ some t) × IsExpiryIn now days t)
          (some_expiry svc message (calc_expire_at_by_days now days))
  unfolding calc_expire_at_by_days normalize_expiry_day_utc
  some_expiry-IsExpiryIn message now days =
      elim (Bool-cases (leb_ℤ days (pos 0) || ltb ((2 ^ 63 - 1) / day) (pos_part days))) [
        | inl e ↦ rw e tt
        | inr e ↦ rw e (
          (now + pos_part days * day) / day * day,
          refl,
          record {
            midnight = omega arith;
            from_now = omega arith;
            no_earlier = omega arith;
            ahead = ground (arith, e);
            in_range = ground (arith, e);
          },
        )
      ]

  -- Credit to an account with books from one without expires at a midnight, and no other does.
  abbrev pub HasExpiry : Account → Account → ℤ → S → Option ℕ → Type 0
  HasExpiry from to days s expire_at =
      (((to.book_enabled && not from.book_enabled) ≡ false) × (expire_at ≡ none))
      ⊎ (((to.book_enabled && not from.book_enabled) ≡ true)
          × ((t : ℕ) × (expire_at ≡ some t) × IsExpiryIn (svc.now s) days t))

  transfer_expiry-HasExpiry :
      (from to : Account) (days : ℤ) (s : S)
      → Ensures (HasExpiry from to days s) (transfer_expiry svc from to days s)
  transfer_expiry-HasExpiry from to days s =
      elim (Bool-cases (to.book_enabled && not from.book_enabled)) [
        | inr e ↦ rw e (inl (e, refl))
        | inl e ↦ rw e (elim (Bool-cases (leb_ℤ days (pos 0))) [
          | inl b ↦ rw b tt
          | inr b ↦ rw b (
              weaken-Ensures
                (λ (o : Option ℕ). (t : ℕ) × (o ≡ some t) × IsExpiryIn (svc.now s) days t) _ _
                (some_expiry-IsExpiryIn "invalid to_expire_in_days" (svc.now s) days)
                (λ o x. inr (e, x)))
        ])
      ]

  -- What passes as a transfer between the two parties of the body.
  pub record IsTransfer (context : Option String) (body : Option P2PRequest) (s : S)
      (req : TransferRequest) : Type 0 where
    pub checked : IsChecked svc context s req
    pub given : P2PRequest
    pub bound : body ≡ some given
    pub asked : IsTransferBody given
    pub copied : IsCopied given.out_trade_no given.title given.remark given.amount req
    pub debit : String
    pub credit : String
    pub from_party :
        IsParty svc req.merchant_no given.from_account_no given.from_out_user_id s debit
    pub to_party : IsParty svc req.merchant_no given.to_account_no given.to_out_user_id s credit
    pub between : IsRouted svc scene_p2p debit credit s req
    pub from : Account
    pub to : Account
    pub from_found : svc.get_account req.debit_account_no s ≡ some from
    pub to_found : svc.get_account req.credit_account_no s ≡ some to
    pub dated : HasExpiry from to given.to_expire_in_days s req.credit_expire_at

  pub transfer_submission-IsTransfer :
      (context : Option String) (body : Option P2PRequest) (s : S)
      → Ensures (IsTransfer context body s) (transfer_submission svc context body s)
  unfolding transfer_submission
  transfer_submission-IsTransfer context body s =
      let Q = IsTransfer context body s in
      bind-Ensures _ Q _ _ (known_merchant-Ensures svc context s) (λ merchant_no who.
        found_or-Ensures Q body _ _ _ _ (λ b given_body. refuse_if-Ensures Q _ _ _ _ _ (λ given.
          then-Ensures _ Q _ _
            (check_copy-Ensures svc (trim_space b.out_trade_no) (trim_space b.title)
              (trim_space b.remark))
            (λ fits. refuse_if-Ensures Q _ _ _ _ _ (λ from_named.
              refuse_if-Ensures Q _ _ _ _ _ (λ to_named. refuse_if-Ensures Q _ _ _ _ _ (λ kind.
                refuse_if-Ensures Q _ _ _ _ _ (λ scene. refuse_if-Ensures Q _ _ _ _ _ (λ days.
                  bind-Ensures _ Q _ _
                    (party_account-Ensures svc merchant_no b.from_account_no b.from_out_user_id _ _
                      s)
                    (λ debit from_party.
                      bind-Ensures _ Q _ _
                        (party_account-Ensures svc merchant_no b.to_account_no b.to_out_user_id _ _
                          s)
                        (λ credit to_party.
                          bind-Ensures _ Q _ _
                            (routed_parties-Ensures svc merchant_no scene_p2p debit credit s)
                            (λ parties found. found_or-Ensures Q _ _ _ _ _ (λ from from_found.
                              found_or-Ensures Q _ _ _ _ _ (λ to to_found.
                                bind-Ensures _ Q _ _
                                  (transfer_expiry-HasExpiry from to b.to_expire_in_days s)
                                  (λ expire_at dated. record {
                                    checked =
                                        transfer_request-IsChecked svc context _ _ _ _ _ _ _ _ s who
                                          given fits;
                                    given = b;
                                    bound = given_body;
                                    asked = record {
                                      from_named = from_named;
                                      to_named = to_named;
                                      kind = kind;
                                      scene = scene;
                                      days = days;
                                    };
                                    copied = record {
                                      number = refl;
                                      title_kept = refl;
                                      remark_kept = refl;
                                      amount_kept = refl;
                                    };
                                    debit = debit;
                                    credit = credit;
                                    from_party = from_party;
                                    to_party = to_party;
                                    between =
                                        transfer_request-IsRouted svc _ _ _ _ _ debit credit _ _ _ s
                                          found;
                                    from = from;
                                    to = to;
                                    from_found = from_found;
                                    to_found = to_found;
                                    dated = dated;
                                  })))))))))))))))

  -- handleTransfer submits at most one request, which is of the authenticated and known merchant, for
  -- the positive amount of the body, with its number and texts, valid and trimmed. It goes between the
  -- parties that the routing of P2P finds for the payer and the payee of the body, each by number or
  -- by user, and expires at the midnight of the days of the body exactly where credit goes from an
  -- account without books to one with books: where both have books, it does not. The handler answers 201 with the number of what Submit has accepted, which it
  -- has told the dispatcher; otherwise it refuses, and nothing is done unless Submit has been asked
  -- and failed.
  pub handle_transfer-IsHandled :
      (context : Option String) (body : Option P2PRequest) (s : S)
      → IsHandled svc (IsTransfer context body s) s (handle_transfer svc context body s)
  unfolding handle_transfer
  handle_transfer-IsHandled context body s =
      submit_passed-IsHandled svc (IsTransfer context body s) submit_error _ s
        (submit_error-refuses svc) (transfer_submission-IsTransfer context body s)
