-- ===== src/Http/Transactions/CreditAccount.antt =====
-- `handleCredit`: the account that is credited, found by its number or its user, or created.
use coin.Base.{
  ◌≡◌, refl, ap, ◌∙◌, subst, eq_iff, ◌⊎◌, inl, inr, String, true, false, Option, some, ◌==◌,
  Bool-cases,
}
use coin.Text.{trim_space}
use coin.Domain.Error.{account_resolve_conflict}
use coin.Ledger.Schema.{Result, ok, err}
use coin.Http.{Outcome, passed, refused, merchant_no_from_context}
use coin.Http.Services.{Services}
use coin.Http.Transactions.{CreditRequest}
use coin.Http.Transactions.Handlers.{credit_account, resolved_account, created_account}
use coin.Http.Transactions.Bodies.{trimmed}

module _ {S : Type 0} (svc : Services S) where
  -- The account that a credit of a merchant goes to, and the state behind its resolution: the trimmed
  -- number where no user is named; otherwise what the resolution of both has found, or, where it has
  -- found nothing and no number is given, the account that the user is given.
  abbrev pub IsCreditAccount : String → CreditRequest → S → String → S → Type 0
  IsCreditAccount merchant_no b s found t =
      (((trim_space b.user_id == "") ≡ true) × (found ≡ trim_space b.credit_account_no) × (t ≡ s))
      ⊎ (((trim_space b.user_id == "") ≡ false)
          × ((found == "") ≡ false)
          × (svc.resolve_customer_account merchant_no (trim_space b.credit_account_no)
                (trim_space b.user_id) s
              ≡ ok found)
          × (t ≡ s))
      ⊎ (((trim_space b.user_id == "") ≡ false)
          × ((trim_space b.credit_account_no == "") ≡ true)
          × (svc.resolve_customer_account merchant_no (trim_space b.credit_account_no)
                (trim_space b.user_id) s
              ≡ ok "")
          × ((given : String) × (svc.ensure_customer_account_for_credit merchant_no
                  (trim_space b.user_id) s
                ≡ (ok given, t))
              × (found ≡ trim_space given)
              × ((found == "") ≡ false)))

  -- Nothing has changed before the submission, but that the user of the body was given an account where
  -- none was found.
  abbrev pub IsPrepared : Option String → Option CreditRequest → S → S → Type 0
  IsPrepared context body s t =
      (t ≡ s)
      ⊎ ((merchant_no : String) × (b : CreditRequest) × (r : Result String)
          × (merchant_no_from_context context ≡ some merchant_no)
          × (body ≡ some b)
          × (svc.resolve_customer_account merchant_no "" (trim_space b.user_id) s ≡ ok "")
          × (svc.ensure_customer_account_for_credit merchant_no (trim_space b.user_id) s ≡ (r, t)))

  -- What an account that was found, or not, was found by.
  abbrev pub IsFoundFor : String → CreditRequest → S → Outcome String × S → Type 0
  IsFoundFor merchant_no b s (passed found, t) = IsCreditAccount merchant_no b s found t
  IsFoundFor merchant_no b s (refused _ _ _, t) =
      (t ≡ s)
      ⊎ ((r : Result String) × (svc.resolve_customer_account merchant_no "" (trim_space b.user_id) s
            ≡ ok "")
          × (svc.ensure_customer_account_for_credit merchant_no (trim_space b.user_id) s ≡ (r, t)))

  created_account-IsFoundFor :
      (merchant_no : String) (b : CreditRequest) (s : S) (x : Result String × S)
      → (trim_space b.user_id == "") ≡ false
      → (trim_space b.credit_account_no == "") ≡ true
      → svc.resolve_customer_account merchant_no
          (trim_space b.credit_account_no)
          (trim_space b.user_id)
          s
        ≡ ok ""
      → svc.ensure_customer_account_for_credit merchant_no (trim_space b.user_id) s ≡ x
      → IsFoundFor merchant_no b s (created_account svc x)
  created_account-IsFoundFor merchant_no b s (ok given, t) user number none_found asked =
      let unnumbered =
        subst (λ n. svc.resolve_customer_account merchant_no n (trim_space b.user_id) s ≡ ok "")
          ((eq_iff (trim_space b.credit_account_no) "").0 number) none_found in
      elim (Bool-cases (trim_space given == "")) [
        | inl e ↦ rw e (inr (ok given, unnumbered, asked))
        | inr e ↦ rw e (inr (inr (user, number, none_found, (given, asked, refl, e))))
      ]
  created_account-IsFoundFor merchant_no b s (err e, t) user number none_found asked = inr (
    err e,
    subst (λ n. svc.resolve_customer_account merchant_no n (trim_space b.user_id) s ≡ ok "")
        ((eq_iff (trim_space b.credit_account_no) "").0 number) none_found,
    asked,
  )

  resolved_account-IsFoundFor :
      (merchant_no : String) (b : CreditRequest) (s : S) (x : Result String)
      → (trim_space b.user_id == "") ≡ false
      → svc.resolve_customer_account merchant_no
          (trim_space b.credit_account_no)
          (trim_space b.user_id)
          s
        ≡ x
      → IsFoundFor merchant_no b s (resolved_account svc merchant_no (trimmed b) x s)
  resolved_account-IsFoundFor merchant_no b s (ok found) user asked =
      elim (Bool-cases (found == "")) [
        | inr e ↦ rw e (inr (inl (user, e, asked, refl)))
        | inl e ↦ rw e (elim (Bool-cases (trim_space b.credit_account_no == "")) [
          | inl c ↦ rw c (
              created_account-IsFoundFor merchant_no b s _ user c
                (asked ∙ ap ok ((eq_iff found "").0 e)) refl)
          | inr c ↦ rw c (inl refl)
        ])
      ]
  resolved_account-IsFoundFor merchant_no b s (err account_resolve_conflict) user asked = inl refl
  resolved_account-IsFoundFor merchant_no b s (err _) user asked = inl refl

  pub credit_account-IsFoundFor :
      (merchant_no : String) (b : CreditRequest) (s : S)
      → IsFoundFor merchant_no b s (credit_account svc merchant_no (trimmed b) s)
  unfolding credit_account
  credit_account-IsFoundFor merchant_no b s = elim (Bool-cases (trim_space b.user_id == "")) [
    | inl e ↦ rw e (inl (e, refl, refl))
    | inr e ↦ rw e (resolved_account-IsFoundFor merchant_no b s _ e refl)
  ]

  pub IsCreditAccount-IsPrepared :
      (context : Option String) (body : Option CreditRequest) (merchant_no : String)
      (b : CreditRequest) (found : String) (s t : S)
      → merchant_no_from_context context ≡ some merchant_no
      → body ≡ some b
      → IsCreditAccount merchant_no b s found t
      → IsPrepared context body s t
  IsCreditAccount-IsPrepared context body m b found s t who bound (inl h) = inl h.2
  IsCreditAccount-IsPrepared context body m b found s t who bound (inr (inl h)) = inl h.3
  IsCreditAccount-IsPrepared context body m b found s t who bound
        (inr (inr (user, number, none_found, (given, asked, _, _)))) =
      inr (
        m,
        b,
        ok given,
        who,
        bound,
        subst (λ n. svc.resolve_customer_account m n (trim_space b.user_id) s ≡ ok "")
            ((eq_iff (trim_space b.credit_account_no) "").0 number) none_found,
        asked,
      )
