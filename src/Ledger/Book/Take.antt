-- ===== src/Ledger/Book/Take.antt =====
-- What one round of a debit's loop takes from a book, and what the loop takes from all of them.
use coin.Base.{
  ◌+◌, ◌^◌, ◌≤◌, ◌<◌, ◌≡◌, ◌≢◌, refl, ◌⊎◌, inl, inr, Option, none, some, List, [], ◌∷◌, arith, All,
  Bool-cases, ap, sym, ◌∙◌,
}
use coin.Int.{ℤ, pos, pos_part, neg_part, ◌+ℤ◌, ◌≤ℤ◌, eqb_ℤ, +ℤ_parts, int_laws, +ℤ_assoc}
use coin.Int.Word.{neg64, sub64_parts, neg64_parts}
use coin.Ledger.Schema.{BookRow}
use coin.Ledger.Query.Books.{no_expire_book_date}
use coin.Ledger.Book.{PlannedChange, debit_book, debit_books, cons_some}

-- An amount that is at least zero and fits an int64.
pub record IsAmount (left : ℤ) : Type 0 where
  pub nonneg : neg_part left ≡ 0
  pub small : pos_part left < 2 ^ 63

-- A debit of `left` cannot overflow the book's balance.
pub record Fits (left : ℤ) (b : BookRow) : Type 0 where
  pub balance_above : neg_part b.balance ≤ 2 ^ 63
  pub balance_below : pos_part b.balance < 2 ^ 63
  pub one_sign : (pos_part b.balance ≡ 0) ⊎ (neg_part b.balance ≡ 0)
  pub room : neg_part b.balance + pos_part left ≤ pos_part b.balance + 2 ^ 63

abbrev pub delta_of : Option PlannedChange → ℤ
delta_of none = pos 0
delta_of (some p) = p.delta

-- What a change records of its book, and that a book with a date never goes below zero.
pub record IsChangeOf (b : BookRow) (p : PlannedChange) : Type 0 where
  pub number : p.book_no ≡ b.book_no
  pub expiry : p.expire_at ≡ b.expire_at
  pub before : p.balance_before ≡ b.balance
  pub after : p.balance_after ≡ p.balance_before +ℤ p.delta
  pub taken : p.delta ≤ℤ pos 0
  pub covered : b.expire_at ≢ no_expire_book_date → pos 0 ≤ℤ p.balance_after

abbrev pub IsChange : BookRow → Option PlannedChange → Type 0
IsChange b none = Unit {0}
IsChange b (some p) = IsChangeOf b p

pub debit_book_left :
    (left : ℤ) (b : BookRow)
    → IsAmount left
    → Fits left b
    → IsAmount (debit_book left b).0
      × ((debit_book left b).0 ≡ left +ℤ delta_of (debit_book left b).1)
unfolding debit_book
debit_book_left left b h f = ground (
  arith,
  sub64_parts left b.balance,
  sub64_parts left left,
  neg64_parts left,
  neg64_parts b.balance,
  +ℤ_parts left (neg64 left),
  +ℤ_parts left (pos 0),
  +ℤ_parts left (neg64 b.balance),
)

pub debit_book_le :
    (left : ℤ) (b : BookRow)
    → IsAmount left
    → Fits left b
    → pos_part (debit_book left b).0 ≤ pos_part left
unfolding debit_book
debit_book_le left b h f = ground (arith, sub64_parts left b.balance, sub64_parts left left)

debit_book-IsChange :
    (left : ℤ) (b : BookRow) → IsAmount left → Fits left b → IsChange b (debit_book left b).1
unfolding debit_book
debit_book-IsChange left b h f = ground (
  arith,
  sub64_parts b.balance left,
  sub64_parts b.balance b.balance,
  neg64_parts left,
  neg64_parts b.balance,
  +ℤ_parts b.balance (neg64 left),
  +ℤ_parts b.balance (neg64 b.balance),
)

-- A book that holds for `left` holds for less.
Fits-mono :
    (left less : ℤ) (b : BookRow) → pos_part less ≤ pos_part left → Fits left b → Fits less b
Fits-mono left less b h f = omega arith

abbrev pub sum_deltas : List PlannedChange → ℤ
sum_deltas [] = pos 0
sum_deltas (p ∷ changes) = p.delta +ℤ sum_deltas changes

-- Each change belongs to a book of the list, in the list's order.
abbrev pub AreChanges : List BookRow → List PlannedChange → Type 0
AreChanges books [] = Unit {0}
AreChanges [] (p ∷ changes) = ⊥
AreChanges (b ∷ books) (p ∷ changes) =
    IsChangeOf b p × AreChanges books changes ⊎ AreChanges books (p ∷ changes)

AreChanges-nil : (books : List BookRow) → AreChanges books []
AreChanges-nil [] = tt
AreChanges-nil (b ∷ books) = tt

AreChanges-cons_some :
    (b : BookRow) (books : List BookRow) (o : Option PlannedChange) (changes : List PlannedChange)
    → IsChange b o
    → AreChanges books changes
    → AreChanges (b ∷ books) (cons_some o changes)
AreChanges-cons_some b books none [] i a = tt
AreChanges-cons_some b books none (p ∷ changes) i a = inr a
AreChanges-cons_some b books (some p) changes i a = inl (i, a)

pub All-Fits_mono :
    (left less : ℤ) (books : List BookRow)
    → pos_part less ≤ pos_part left
    → All (Fits left) books
    → All (Fits less) books
All-Fits_mono left less [] h f = tt
All-Fits_mono left less (b ∷ books) h f =
    (Fits-mono left less b h f.0, All-Fits_mono left less books h f.1)

sum_deltas-cons_some :
    (o : Option PlannedChange) (changes : List PlannedChange)
    → sum_deltas (cons_some o changes) ≡ delta_of o +ℤ sum_deltas changes
sum_deltas-cons_some none changes = omega int_laws
sum_deltas-cons_some (some p) changes = refl

-- For an int64 amount of 0 or more that overflows no book's balance, the loop takes from the amount
-- exactly what it takes from the books, never more than the amount; every change states its book's
-- balance before and after, and leaves a dated book at or above 0.
pub debit_books_lem :
    (left : ℤ) (books : List BookRow)
    → IsAmount left
    → All (Fits left) books
    → let (rest, changes) = debit_books left books in
      IsAmount rest × (rest ≡ left +ℤ sum_deltas changes) × AreChanges books changes
unfolding debit_books
debit_books_lem left [] h f = (h, omega int_laws, tt)
debit_books_lem left (b ∷ books) h f = elim (Bool-cases (eqb_ℤ left (pos 0))) [
  | inl stop ↦ rw stop (h, omega int_laws, tt)
  | inr more ↦
      let step = debit_book_left left b h f.0 in
      let (left', change) = debit_book left b in
      let shrink = debit_book_le left b h f.0 in
      let rest = debit_books_lem left' books step.0 (All-Fits_mono left left' books shrink f.1) in
      rw more (
        rest.0,
        rest.1
            ∙ ap (λ (z : ℤ). z +ℤ sum_deltas (debit_books left' books).1) step.1
            ∙ +ℤ_assoc left (delta_of change) (sum_deltas (debit_books left' books).1)
            ∙ ap (λ (z : ℤ). left +ℤ z)
                (sym (sum_deltas-cons_some change (debit_books left' books).1)),
        AreChanges-cons_some b books change (debit_books left' books).1
            (debit_book-IsChange left b h f.0) rest.2,
      )
]
