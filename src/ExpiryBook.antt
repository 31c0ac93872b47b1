-- ===== src/ExpiryBook.antt =====
-- internal/service/expiry_book.go: the books of accounts as a process holds them in memory.
use coin.Base.{
  ℕ, ◌<◌, String, Bool, false, not, ◌||◌, Option, none, some, List, [], ◌∷◌, ltb, ◌=?◌, ◌==◌,
  if◌then◌else◌, All, arith, Bool-cases, inl, inr,
}
use coin.Int.{ℤ, pos, leb_ℤ, ltb_ℤ, eqb_ℤ}
use coin.Int.Word.{add64, sub64}
use coin.Domain.Error.{Error, account_resolve_failed, book_disabled, expire_at_required}
use coin.Domain.Account.{Account}
use coin.Ledger.Schema.{Result, ok, err}

-- `accountBook`
pub record AccountBook : Type 0 where
  pub expire_at : ℕ
  pub balance : ℤ

-- `BookPart`
pub record BookPart : Type 0 where
  pub expire_at : ℕ
  pub amount : ℤ

-- What the service asks of the repository: an account, and what a call of CreateAccount leaves, of
-- which it drops the error.
pub record Accounts (S : Type 0) : Type 0 where
  pub get_account : String → S → Option Account
  pub create_account : Account → S → S

-- The books by account, and what the repository holds.
pub record ExpiryBookService (S : Type 0) : Type 0 where
  pub books : String → List AccountBook
  pub store : S

-- The loop of `Credit`: the book of the date, or a new one behind all.
unfoldable pub credit_book : ℕ → ℤ → List AccountBook → List AccountBook
credit_book expire_at amount [] = record { expire_at = expire_at; balance = amount } ∷ []
credit_book expire_at amount (b ∷ books) =
    let rest = credit_book expire_at amount books in
    if b.expire_at =? expire_at
    then record b { balance = add64 b.balance amount } ∷ books
    else b ∷ rest

abbrev insert_earlier : AccountBook → List AccountBook → List AccountBook
insert_earlier b [] = b ∷ []
insert_earlier b (c ∷ books) =
    let rest = insert_earlier b books in
    if ltb c.expire_at b.expire_at then c ∷ rest else b ∷ c ∷ books

-- `sort.Slice` by the date
abbrev by_date : List AccountBook → List AccountBook
by_date [] = []
by_date (b ∷ books) = insert_earlier b (by_date books)

abbrev behind :
    AccountBook → List AccountBook × List BookPart × ℤ → List AccountBook × List BookPart × ℤ
behind b (books, parts, left) = (b ∷ books, parts, left)

abbrev part_before :
    BookPart → List AccountBook × List BookPart × ℤ → List AccountBook × List BookPart × ℤ
part_before p (books, parts, left) = (books, p ∷ parts, left)

-- The loop of `Debit`: the books and the parts, with what is left of the amount.
unfoldable pub consume : ℕ → ℤ → List AccountBook → List AccountBook × List BookPart × ℤ
consume now left [] = ([], [], left)
consume now left (b ∷ books) =
    let passed_over = not (ltb now b.expire_at) || leb_ℤ b.balance (pos 0) in
    let use_amount = if ltb_ℤ left b.balance then left else b.balance in
    let rest = consume now (if passed_over then left else sub64 left use_amount) books in
    if eqb_ℤ left (pos 0)
    then (b ∷ books, [], left)
    else if passed_over
    then behind b rest
    else part_before (record { expire_at = b.expire_at; amount = use_amount })
        (behind (record b { balance = sub64 b.balance use_amount }) rest)

abbrev total : ℤ → List AccountBook → ℤ
total sum [] = sum
total sum (b ∷ books) = total (add64 sum b.balance) books

module _ {S : Type 0} (repo : Accounts S) where
  abbrev with_books :
      String → List AccountBook → (String → List AccountBook) → String → List AccountBook
  with_books account_no books all n = if n == account_no then books else all n

  -- An account with books.
  abbrev book_account : String → S → Result Account
  book_account account_no s = elim (repo.get_account account_no s) [
    | none ↦ err account_resolve_failed
    | some a ↦ if a.book_enabled then ok a else err book_disabled
  ]

  abbrev credited : Account → String → ℤ → ℕ → ExpiryBookService S → ExpiryBookService S
  credited a account_no amount expire_at svc = record {
    books = with_books account_no (credit_book expire_at amount (svc.books account_no)) svc.books;
    store = repo.create_account (record a { balance = add64 a.balance amount }) svc.store;
  }

  -- `Credit`; `none` is the zero time
  unfoldable pub credit :
      String → ℤ → Option ℕ → ExpiryBookService S → Option Error × ExpiryBookService S
  credit account_no amount expire_at svc = elim (book_account account_no (svc.store)) [
    | err e ↦ (some e, svc)
    | ok a ↦ elim expire_at [
      | none ↦ (some expire_at_required, svc)
      | some t ↦ (none, credited a account_no amount t svc)
    ]
  ]

  abbrev debited :
      Account
      → String
      → ℤ
      → List AccountBook × List BookPart × ℤ
      → ExpiryBookService S
      → List BookPart × ExpiryBookService S
  debited a account_no amount (books, parts, left) svc = (
    parts,
    record {
      books = with_books account_no books svc.books;
      store =
          repo.create_account (record a { balance = sub64 a.balance (sub64 amount left) })
            svc.store;
    },
  )

  -- `Debit`: an error, or the parts
  unfoldable pub debit :
      ℕ → String → ℤ → ExpiryBookService S → Option Error × List BookPart × ExpiryBookService S
  debit now account_no amount svc = elim (book_account account_no (svc.store)) [
    | err e ↦ (some e, [], svc)
    | ok a ↦
        let (parts, svc') =
          debited a account_no amount (consume now amount (by_date (svc.books account_no))) svc in
        (none, parts, svc')
  ]

  -- `VerifyAccountBookBalance`
  unfoldable pub verify_account_book_balance : String → ExpiryBookService S → Bool
  verify_account_book_balance account_no svc = elim (repo.get_account account_no svc.store) [
    | none ↦ false
    | some a ↦ eqb_ℤ a.balance (total (pos 0) (svc.books account_no))
  ]

-- No part is taken from a book that has expired.
consume-ahead :
    (now : ℕ) (left : ℤ) (books : List AccountBook)
    → All (λ (p : BookPart). now < p.expire_at) (consume now left books).1
unfolding consume
consume-ahead now left [] = tt
consume-ahead now left (b ∷ books) = elim (Bool-cases (eqb_ℤ left (pos 0))) [
  | inl e ↦ rw e tt
  | inr e ↦ elim (Bool-cases (not (ltb now b.expire_at) || leb_ℤ b.balance (pos 0))) [
    | inl k ↦ rw (e, k) (consume-ahead now left books)
    | inr k ↦
        rw (e, k)
          (
            ground (arith, k),
            consume-ahead now (sub64 left (if ltb_ℤ left b.balance then left else b.balance)) books,
          )
  ]
]
