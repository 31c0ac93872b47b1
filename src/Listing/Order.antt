-- ===== src/Listing/Order.antt =====
-- The order of a listing is strict, and a filter commutes with the sort.
use coin.Base.{
  ◌≡◌, refl, sym, ap, ◌∙◌, Bool, true, false, List, [], ◌∷◌, arith, All, ◌=?◌, if◌then◌else◌,
  Bool-cases, inl, inr,
}
use coin.Ledger.Query.{select}
use coin.Listing.{ListRow, is_above, insert_row, newest_first}

abbrev pub Below : ListRow → List ListRow → Type 0
Below r = All (λ s. is_above r s ≡ true)

abbrev pub IsSorted : List ListRow → Type 0
IsSorted [] = Unit
IsSorted (r ∷ rows) = Below r rows × IsSorted rows

-- The primary key of txn.
abbrev pub HasUniqueNumbers : List ListRow → Type 0
HasUniqueNumbers [] = Unit
HasUniqueNumbers (r ∷ rows) =
    All (λ s. (s.txn.txn_no =? r.txn.txn_no) ≡ false) rows × HasUniqueNumbers rows

pub Below-trans :
    (r s : ListRow) (rows : List ListRow) → is_above r s ≡ true → Below s rows → Below r rows
Below-trans r s [] h k = tt
Below-trans r s (t ∷ rows) h k = (ground (arith, h, k.0), Below-trans r s rows h k.1)

insert_row-Below :
    (r s : ListRow) (rows : List ListRow)
    → is_above s r ≡ true
    → Below s rows
    → Below s (insert_row r rows)
insert_row-Below r s [] h k = (h, tt)
insert_row-Below r s (t ∷ rows) h k = elim (Bool-cases (is_above r t)) [
  | inl b ↦ rw b (h, k)
  | inr b ↦ rw b (k.0, insert_row-Below r s rows h k.1)
]

abbrev Apart : ListRow → List ListRow → Type 0
Apart r = All (λ s. (s.txn.txn_no =? r.txn.txn_no) ≡ false)

insert_row-Apart :
    (r s : ListRow) (rows : List ListRow)
    → (r.txn.txn_no =? s.txn.txn_no) ≡ false
    → Apart s rows
    → Apart s (insert_row r rows)
insert_row-Apart r s [] h k = (h, tt)
insert_row-Apart r s (t ∷ rows) h k = elim (Bool-cases (is_above r t)) [
  | inl b ↦ rw b (h, k)
  | inr b ↦ rw b (k.0, insert_row-Apart r s rows h k.1)
]

insert_row-IsSorted :
    (r : ListRow) (rows : List ListRow)
    → Apart r rows
    → IsSorted rows
    → IsSorted (insert_row r rows)
insert_row-IsSorted r [] a h = (tt, tt)
insert_row-IsSorted r (s ∷ rows) a h = elim (Bool-cases (is_above r s)) [
  | inl b ↦ rw b ((b, Below-trans r s rows b h.0), h)
  | inr b ↦
      rw b
        (insert_row-Below r s rows (ground (arith, b, a.0)) h.0, insert_row-IsSorted r rows a.1 h.1)
]

newest_first-Apart :
    (r : ListRow) (rows : List ListRow) → Apart r rows → Apart r (newest_first rows)
newest_first-Apart r [] a = tt
newest_first-Apart r (s ∷ rows) a =
    insert_row-Apart s r (newest_first rows) a.0 (newest_first-Apart r rows a.1)

pub newest_first-IsSorted :
    (rows : List ListRow) → HasUniqueNumbers rows → IsSorted (newest_first rows)
newest_first-IsSorted [] u = tt
newest_first-IsSorted (r ∷ rows) u =
    insert_row-IsSorted r (newest_first rows) (newest_first-Apart r rows u.0)
      (newest_first-IsSorted rows u.1)

insert_row_first : (r : ListRow) (rows : List ListRow) → Below r rows → insert_row r rows ≡ r ∷ rows
insert_row_first r [] h = refl
insert_row_first r (s ∷ rows) h = rw h.0 refl

module _ (p : ListRow → Bool) where
  pub select-Below : (r : ListRow) (rows : List ListRow) → Below r rows → Below r (select p rows)
  select-Below r [] h = tt
  select-Below r (s ∷ rows) h = elim (Bool-cases (p s)) [
    | inl b ↦ rw b (h.0, select-Below r rows h.1)
    | inr b ↦ rw b (select-Below r rows h.1)
  ]

  select-Apart : (r : ListRow) (rows : List ListRow) → Apart r rows → Apart r (select p rows)
  select-Apart r [] h = tt
  select-Apart r (s ∷ rows) h = elim (Bool-cases (p s)) [
    | inl b ↦ rw b (h.0, select-Apart r rows h.1)
    | inr b ↦ rw b (select-Apart r rows h.1)
  ]

  pub select-HasUniqueNumbers :
      (rows : List ListRow) → HasUniqueNumbers rows → HasUniqueNumbers (select p rows)
  select-HasUniqueNumbers [] u = tt
  select-HasUniqueNumbers (r ∷ rows) u = elim (Bool-cases (p r)) [
    | inl b ↦ rw b (select-Apart r rows u.0, select-HasUniqueNumbers rows u.1)
    | inr b ↦ rw b (select-HasUniqueNumbers rows u.1)
  ]

  pub select-IsSorted : (rows : List ListRow) → IsSorted rows → IsSorted (select p rows)
  select-IsSorted [] h = tt
  select-IsSorted (r ∷ rows) h = elim (Bool-cases (p r)) [
    | inl b ↦ rw b (select-Below r rows h.0, select-IsSorted rows h.1)
    | inr b ↦ rw b (select-IsSorted rows h.1)
  ]

  select-insert_row :
      (r : ListRow) (rows : List ListRow)
      → IsSorted rows
      → select p (insert_row r rows) ≡ (if p r then insert_row r (select p rows) else select p rows)
  select-insert_row r [] h = refl
  select-insert_row r (s ∷ rows) h = elim (Bool-cases (is_above r s)) [
    | inl b ↦
        let below = select-Below r (s ∷ rows) (b, Below-trans r s rows b h.0) in
        rw b (rw (insert_row_first r (select p (s ∷ rows)) below) refl)
    | inr b ↦
        let rest = select-insert_row r rows h.1 in
        elim (Bool-cases (p s)) [
          | inl c ↦ elim (Bool-cases (p r)) [
            | inl d ↦ rw b (rw c (rw rest (rw d (rw b refl))))
            | inr d ↦ rw b (rw c (rw rest (rw d refl)))
          ]
          | inr c ↦ rw b (rw c rest)
        ]
  ]

  -- A filter may as well be applied to the sorted rows.
  pub select-newest_first :
      (rows : List ListRow)
      → HasUniqueNumbers rows
      → newest_first (select p rows) ≡ select p (newest_first rows)
  select-newest_first [] u = refl
  select-newest_first (r ∷ rows) u =
      let sorted = newest_first-IsSorted rows u.1 in
      let rest = select-newest_first rows u.1 in
      let step = select-insert_row r (newest_first rows) sorted in
      elim (Bool-cases (p r)) [
        | inl c ↦ rw c (ap (insert_row r) rest ∙ sym (step ∙ rw c refl))
        | inr c ↦ rw c (rest ∙ sym (step ∙ rw c refl))
      ]
