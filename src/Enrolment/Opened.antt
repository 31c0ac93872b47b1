-- ===== src/Enrolment/Opened.antt =====
-- Which accounts the services open.
use coin.Base.{
  ℕ, zero, suc, ◌≡◌, refl, String, Bool, true, false, not, ◌&&◌, ◌||◌, Option, none, some, ◌⊎◌, inl,
  inr, arith, ◌==◌, Bool-cases,
}
use coin.Text.Hash.{bytes}
use coin.Domain.{Merchant}
use coin.Domain.Account.{Account}
use coin.Domain.Error.{Error}
use coin.Ledger.Schema.{Result, ok, err}
use coin.Codes.Luhn.{is_valid_account_no}
use coin.Enrolment.{
  Op, pure, fail, ◌>>=◌, ◌>>◌, fail_if, Registry, merchant_of, customer_account, merchant_accounts,
  retry_taken, open_account, opened_or, ensure_default_customer_account, create_merchant, numbered,
  is_account_no_exists,
}

-- A result that is no error has the property.
abbrev pub Ensures : {S A : Type 0} → (A → S → Type 0) → Result A × S → Type 0
Ensures post (ok a, s) = post a s
Ensures post (err _, s) = Unit

module _ {S : Type 0} where
  bind-Ensures :
      {A B : Type 0} (post : B → S → Type 0) (m : Op S A) (k : A → Op S B) (s : S)
      → ((a : A) (s' : S) → Ensures post (k a s'))
      → Ensures post ((m >>= k) s)
  unfolding ◌>>=◌
  bind-Ensures post m k s h = from (m s)
    where
      from : (r : Result _ × S) → Ensures post (elim r.0 [ ok a ↦ k a r.1 | err e ↦ fail e r.1 ])
      from (ok a, s') = h a s'
      from (err e, s') = tt

  check-Ensures :
      {A : Type 0} (post : A → S → Type 0) (c : Bool) (e : Error) (k : Op S A) (s : S)
      → (c ≡ false → Ensures post (k s))
      → Ensures post ((fail_if c e >> k) s)
  unfolding ◌>>◌ fail_if
  check-Ensures post true e k s h = tt
  check-Ensures post false e k s h = h refl

  done-Ensures :
      {A : Type 0} (post : A → S → Type 0) (m : Op S (Unit {0})) (a : A) (s : S)
      → ((s' : S) → m s ≡ (ok tt, s') → post a s')
      → Ensures post ((m >> pure a) s)
  unfolding ◌>>◌
  done-Ensures post m a s h = from (m s) refl
    where
      from :
          (r : Result (Unit {0}) × S)
          → m s ≡ r
          → Ensures post (elim r.0 [ ok _ ↦ (ok a, r.1) | err e ↦ fail e r.1 ])
      from (ok _, s') e = h s' e
      from (err e, s') _ = tt

module _ {S : Type 0} (r : Registry S) where
  -- The account numbers of a merchant differ and are valid, and the merchant was created with its
  -- three accounts in one step, the last.
  abbrev pub IsEnrolled : Merchant → S → Type 0
  IsEnrolled m s' =
      (s : S) × (r.create_merchant_with_accounts m (merchant_accounts m) s ≡ (ok tt, s'))
      × ((m.budget_account_no == m.receivable_account_no
            || m.budget_account_no == m.writeoff_account_no
            || m.receivable_account_no == m.writeoff_account_no)
          ≡ false)
      × ((is_valid_account_no (bytes m.budget_account_no)
            && is_valid_account_no (bytes m.receivable_account_no)
            && is_valid_account_no (bytes m.writeoff_account_no))
          ≡ true)

  -- A merchant that CreateMerchant returns has three valid account numbers that differ, and was
  -- created together with its accounts by the call's last step. Any other call is an error.
  pub create_merchant-IsEnrolled :
      (merchant_no name : String) (s : S)
      → Ensures IsEnrolled (create_merchant r merchant_no name s)
  unfolding create_merchant
  create_merchant-IsEnrolled merchant_no name s = bind-Ensures IsEnrolled _ _ s (λ merchant_id s₁.
      check-Ensures IsEnrolled _ _ _ s₁ (λ _. bind-Ensures IsEnrolled _ _ s₁ (λ resolved s₂.
        bind-Ensures IsEnrolled _ _ s₂ (λ budget s₃. bind-Ensures IsEnrolled _ _ s₃ (λ recv s₄.
          bind-Ensures IsEnrolled _ _ s₄ (λ writeoff s₅.
            check-Ensures IsEnrolled _ _ _ s₅ (λ distinct.
              check-Ensures IsEnrolled
                (not (is_valid_account_no (bytes budget))
                  || not (is_valid_account_no (bytes recv))
                  || not (is_valid_account_no (bytes writeoff)))
                _ _ s₅
                (λ valid.
                  done-Ensures IsEnrolled _
                    (merchant_of merchant_id resolved name budget recv writeoff) s₅
                    (λ s' e. (s₅, e, distinct, ground (arith, valid)))))))))))

  -- The customer has no account that can be used: there is none, or it has no number.
  abbrev pub HasNone : String → String → S → Type 0
  HasNone merchant_no customer_no s =
      (r.get_account_by_customer_no merchant_no customer_no s ≡ none)
      ⊎ ((a : Account) × (r.get_account_by_customer_no merchant_no customer_no s ≡ some a)
          × ((a.account_no == "") ≡ true))

  -- The account is the one that the customer had, or, if there was none, a new one, which the last
  -- step created: empty, with books, without an overdraft and of a valid number.
  abbrev pub IsOpened : String → String → S → String → S → Type 0
  IsOpened merchant_no customer_no s account_no s' =
      ((a : Account) × (r.get_account_by_customer_no merchant_no customer_no s ≡ some a)
        × ((a.account_no == "") ≡ false)
        × (a.account_no ≡ account_no)
        × (s' ≡ s))
      ⊎ ((t : S) × HasNone merchant_no customer_no s
          × (r.create_account (customer_account merchant_no customer_no account_no) t ≡ (ok tt, s'))
          × (is_valid_account_no (bytes account_no) ≡ true))

  open_account-IsOpened :
      (n : ℕ) (merchant_no customer_no : String) (s t : S)
      → HasNone merchant_no customer_no s
      → Ensures (IsOpened merchant_no customer_no s) (open_account r n merchant_no customer_no t)
  unfolding open_account
  open_account-IsOpened zero merchant_no customer_no s t free = tt
  open_account-IsOpened (suc n) merchant_no customer_no s t free =
      bind-Ensures (IsOpened merchant_no customer_no s) _ _ t (λ account_no t₁.
        check-Ensures (IsOpened merchant_no customer_no s)
          (not (is_valid_account_no (bytes account_no))) _ _ t₁
          (λ valid.
            created account_no t₁
              (r.create_account (customer_account merchant_no customer_no account_no) t₁) refl
              (ground (arith, valid))
              (λ s'. open_account-IsOpened n merchant_no customer_no s s' free)))
    where
      created :
          (account_no : String) (u : S) (x : Result (Unit {0}) × S)
          → r.create_account (customer_account merchant_no customer_no account_no) u ≡ x
          → is_valid_account_no (bytes account_no) ≡ true
          → ((s' : S)
              → Ensures
                  (IsOpened merchant_no customer_no s)
                  (open_account r n merchant_no customer_no s'))
          → Ensures
              (IsOpened merchant_no customer_no s)
              (retry_taken r account_no x (open_account r n merchant_no customer_no))
      created account_no u (ok _, s') e v again = inr (u, free, e, v)
      created account_no u (err x, s') e v again = elim (Bool-cases (is_account_no_exists x)) [
        | inl b ↦ rw b (again s')
        | inr b ↦ rw b tt
      ]

  -- An account number that ensureDefaultCustomerAccount returns is that of the account which the
  -- customer has already, with nothing changed, or, only where the customer has none with a number,
  -- of a new one that its last step created: empty, with books, without an overdraft and of a valid
  -- number. Any other call is an error.
  pub ensure_default_customer_account-IsOpened :
      (merchant_no customer_no : String) (s : S)
      → Ensures
          (IsOpened merchant_no customer_no s)
          (ensure_default_customer_account r merchant_no customer_no s)
  unfolding ensure_default_customer_account ◌>>=◌
  ensure_default_customer_account-IsOpened merchant_no customer_no s =
      from (r.get_account_by_customer_no merchant_no customer_no s) refl
    where
      opened : Op S String
      opened = open_account r 3 merchant_no customer_no

      from :
          (found : Option Account)
          → r.get_account_by_customer_no merchant_no customer_no s ≡ found
          → Ensures (IsOpened merchant_no customer_no s) (opened_or r (numbered r found) opened s)
      from none e = open_account-IsOpened 3 merchant_no customer_no s s (inl e)
      from (some a) e = elim (Bool-cases (a.account_no == "")) [
        | inl b ↦ rw b (open_account-IsOpened 3 merchant_no customer_no s s (inr (a, e, b)))
        | inr b ↦ rw b (inl (a, e, b, refl, refl))
      ]
