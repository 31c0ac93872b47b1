-- ===== src/Ledger/Money.antt =====
-- The money that the ledger holds: the balances of all accounts, and what transactions carry
-- between their debit and their credit. The modules below prove that no stage changes the sum.
pub mod Frame
pub mod Credits
pub mod Stages
pub mod Conservation
use coin.Base.{
  ◌⊎◌, ◌&&◌, ℕ, ◌≡◌, refl, String, Bool, true, false, none, some, List, [], ◌∷◌, ◌++◌, arith, ◌==◌,
  eq_iff, ◌=?◌, if◌then◌else◌, Bool-cases, inl, inr, subst, ap, ◌∙◌, sym,
}
use coin.Int.{ℤ, pos, ◌+ℤ◌, int_laws, +ℤ_shift, +ℤ_assoc}
use coin.Text.{trim_space}
use coin.Domain.Account.{Account}
use coin.Domain.StateMachine.{txn_status_pay_success}
use coin.Ledger.Schema.{TxnRow, Db}
use coin.Ledger.Query.{find, update_where}
use coin.Ledger.Query.Accounts.{of_account, set_balance}
use coin.Ledger.Query.Txns.{of_txn, set_status}

module _ {A : Type 0} where
  abbrev pub sum_of : (A → ℤ) → List A → ℤ
  sum_of weight [] = pos 0
  sum_of weight (x ∷ xs) = weight x +ℤ sum_of weight xs

  -- At most one row satisfies the test.
  abbrev pub IsUnique : (A → Bool) → List A → Type 0
  IsUnique p [] = Unit {0}
  IsUnique p (x ∷ xs) = (p x ≡ true → find p xs ≡ none) × IsUnique p xs

  pub update_where-none :
      (p : A → Bool) (f : A → A) (xs : List A) → find p xs ≡ none → update_where p f xs ≡ xs
  update_where-none p f [] h = refl
  update_where-none p f (x ∷ xs) h = ground (arith, update_where-none p f xs)

  pub find_sound : (p : A → Bool) (a : A) (xs : List A) → find p xs ≡ some a → p a ≡ true
  find_sound p a [] h = cc
  find_sound p a (x ∷ xs) h = elim (Bool-cases (p x)) [
    | inl same ↦ let e : some x ≡ some a = rw same at h in ground (arith, same, e)
    | inr other ↦ find_sound p a xs (rw other at h)
  ]

  find-narrower_none :
      (p q : A → Bool) (xs : List A) → find p xs ≡ none → find (λ x. p x && q x) xs ≡ none
  find-narrower_none p q [] h = refl
  find-narrower_none p q (x ∷ xs) h = ground (arith, find-narrower_none p q xs)

  -- A narrower test finds the one row or none.
  pub find-narrower :
      (p q : A → Bool) (a : A) (xs : List A)
      → IsUnique p xs
      → find p xs ≡ some a
      → (find (λ x. p x && q x) xs ≡ none) ⊎ (find (λ x. p x && q x) xs ≡ some a)
  find-narrower p q a [] d h = inl refl
  find-narrower p q a (x ∷ xs) d h = elim (Bool-cases (p x)) [
    | inl same ↦ let gone = find-narrower_none p q xs (d.0 same) in ground (arith, same, h, gone)
    | inr other ↦
        let rest = find-narrower p q a xs d.1 (rw other at h) in ground (arith, other, rest)
  ]

  -- An update of one row changes the sum by the difference of its weights.
  pub sum_of-update :
      (weight : A → ℤ) (p : A → Bool) (f : A → A) (a : A) (xs : List A)
      → IsUnique p xs
      → find p xs ≡ some a
      → sum_of weight (update_where p f xs) +ℤ weight a ≡ sum_of weight xs +ℤ weight (f a)
  sum_of-update weight p f a [] d h = cc
  sum_of-update weight p f a (x ∷ xs) d h = elim (Bool-cases (p x)) [
    | inl same ↦
        let kept = update_where-none p f xs (d.0 same) in
        let e : some x ≡ some a = rw same at h in rw (same, kept) (grind (int_laws, e))
    | inr other ↦ rw other (
        +ℤ_shift (weight x) (sum_of weight (update_where p f xs)) (weight a) (sum_of weight xs)
          (weight (f a)) (sum_of-update weight p f a xs d.1 (rw other at h)))
  ]

  pub sum_of-append :
      (weight : A → ℤ) (xs : List A) (y : A)
      → sum_of weight (xs ++ y ∷ []) ≡ sum_of weight xs +ℤ weight y
  sum_of-append weight [] y = omega int_laws
  sum_of-append weight (x ∷ xs) y =
      ap (λ (z : ℤ). weight x +ℤ z) (sum_of-append weight xs y)
      ∙ sym (+ℤ_assoc (weight x) (sum_of weight xs) (weight y))

abbrev pub total : List Account → ℤ
total = sum_of (λ a. a.balance)

-- What a row carries between its debit and its credit.
abbrev pub carried : TxnRow → ℤ
carried t = if trim_space t.status == txn_status_pay_success then t.amount else pos 0

abbrev pub in_flight : List TxnRow → ℤ
in_flight = sum_of carried

abbrev pub money : Db → ℤ
money db = total db.accounts +ℤ in_flight db.txns

-- The primary keys of the two tables.
abbrev pub HasUniqueKeys : Db → Type 0
HasUniqueKeys db =
    ((account_no : String) → IsUnique (of_account account_no) db.accounts)
    × ((txn_no : ℕ) → IsUnique (of_txn txn_no) db.txns)
