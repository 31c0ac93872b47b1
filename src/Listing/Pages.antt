-- ===== src/Listing/Pages.antt =====
-- Page by page, a merchant sees every listed transaction once, in one order.
use coin.Base.{
  ℕ, zero, suc, ◌-◌, ◌≤◌, ◌<◌, ◌≡◌, refl, sym, ap, ◌∙◌, subst, Bool, true, false, ◌&&◌, Option,
  none, some, List, [], ◌∷◌, ◌++◌, arith, All, leb, if◌then◌else◌, length, Bool-cases, inl, inr,
}
use coin.Ledger.Schema.{Db}
use coin.Ledger.Query.{select}
use coin.Listing.{
  ListRow, TxnListFilter, is_listed, newest_first, is_behind, take, list_transfer_txns_rows,
  list_transfer_txns, page_size_of, cursor_of, last_cursor,
}
use coin.Listing.Order.{
  Below, IsSorted, HasUniqueNumbers, newest_first-IsSorted, select-newest_first,
  select-HasUniqueNumbers,
}

abbrev drop : ℕ → List ListRow → List ListRow
drop zero rows = rows
drop (suc n) [] = []
drop (suc n) (r ∷ rows) = drop n rows

take-drop : (n : ℕ) (rows : List ListRow) → take n rows ++ drop n rows ≡ rows
take-drop zero rows = refl
take-drop (suc n) [] = refl
take-drop (suc n) (r ∷ rows) = ap (λ (x : List ListRow). r ∷ x) (take-drop n rows)

drop-IsSorted : (n : ℕ) (rows : List ListRow) → IsSorted rows → IsSorted (drop n rows)
drop-IsSorted zero rows h = h
drop-IsSorted (suc n) [] h = tt
drop-IsSorted (suc n) (r ∷ rows) h = drop-IsSorted n rows h.1

select_all : (rows : List ListRow) → select (is_behind none) rows ≡ rows
select_all [] = refl
select_all (r ∷ rows) = ap (λ (x : List ListRow). r ∷ x) (select_all rows)

take_more : (n : ℕ) (rows : List ListRow) → take n (take (suc n) rows) ≡ take n rows
take_more zero rows = refl
take_more (suc n) [] = refl
take_more (suc n) (r ∷ rows) = ap (λ (x : List ListRow). r ∷ x) (take_more n rows)

length-take_more :
    (n : ℕ) (rows : List ListRow) → leb (length (take (suc n) rows)) n ≡ leb (length rows) n
length-take_more n [] = refl
length-take_more zero (r ∷ rows) = ground arith
length-take_more (suc n) (r ∷ rows) = ground (arith, length-take_more n rows)

take_all : (n : ℕ) (rows : List ListRow) → length rows ≤ n → take n rows ≡ rows
take_all zero [] h = refl
take_all zero (r ∷ rows) h = ground (arith, h)
take_all (suc n) [] h = refl
take_all (suc n) (r ∷ rows) h = ap (λ (x : List ListRow). r ∷ x) (take_all n rows (omega arith))

length-drop : (n : ℕ) (rows : List ListRow) → length (drop n rows) ≤ length rows
length-drop zero rows = omega arith
length-drop (suc n) [] = omega arith
length-drop (suc n) (r ∷ rows) = omega (arith, length-drop n rows)

take-Below : (n : ℕ) (r : ListRow) (rows : List ListRow) → Below r rows → Below r (take n rows)
take-Below zero r rows h = tt
take-Below (suc n) r [] h = tt
take-Below (suc n) r (s ∷ rows) h = (h.0, take-Below n r rows h.1)

behind_all :
    (r : ListRow) (rows : List ListRow)
    → Below r rows
    → select (is_behind (some (cursor_of r))) rows ≡ rows
behind_all r [] h = refl
behind_all r (s ∷ rows) h = rw h.0 (ap (λ (x : List ListRow). s ∷ x) (behind_all r rows h.1))

not_behind_last :
    (r s : ListRow) (rows : List ListRow)
    → Below r (s ∷ rows)
    → is_behind (last_cursor (s ∷ rows)) r ≡ false
not_behind_last r s [] h = ground (arith, h)
not_behind_last r s (t ∷ rows) h = not_behind_last r t rows h.1

not_behind_itself : (r : ListRow) → is_behind (some (cursor_of r)) r ≡ false
not_behind_itself r = ground arith

-- Behind the last row of a page stand the rows that follow it.
select-behind :
    (n : ℕ) (r : ListRow) (rows : List ListRow)
    → IsSorted (r ∷ rows)
    → n < length (r ∷ rows)
    → select (is_behind (last_cursor (take (suc n) (r ∷ rows)))) (r ∷ rows) ≡ drop n rows
select-behind zero r rows h l = rw (not_behind_itself r) (behind_all r rows h.0)
select-behind (suc n) r [] h l = ground (arith, l)
select-behind (suc n) r (s ∷ rows) h l =
    rw (not_behind_last r s (take n rows) (take-Below (suc n) r (s ∷ rows) h.0))
      (select-behind n s rows h.1 (omega arith))

-- The rows of a listing in their order.
unfoldable pub listed : Db → TxnListFilter → List ListRow → List ListRow
listed db f rows = newest_first (select (is_listed db f) rows)

listed-IsSorted :
    (db : Db) (f : TxnListFilter) (rows : List ListRow)
    → HasUniqueNumbers rows
    → IsSorted (listed db f rows)
unfolding listed
listed-IsSorted db f rows u =
    newest_first-IsSorted (select (is_listed db f) rows)
      (select-HasUniqueNumbers (is_listed db f) rows u)

select-select :
    (p q : ListRow → Bool) (rows : List ListRow)
    → select (λ r. p r && q r) rows ≡ select q (select p rows)
select-select p q [] = refl
select-select p q (r ∷ rows) = elim (Bool-cases (p r)) [
  | inl b ↦ elim (Bool-cases (q r)) [
    | inl c ↦ rw b (rw c (ap (λ (x : List ListRow). r ∷ x) (select-select p q rows)))
    | inr c ↦ rw b (rw c (select-select p q rows))
  ]
  | inr b ↦ rw b (select-select p q rows)
]

-- The statement reads the listing behind the cursor.
list_transfer_txns_rows-listed :
    (db : Db) (f : TxnListFilter) (cursor : Option (ℕ × ℕ)) (limit : ℕ) (rows : List ListRow)
    → HasUniqueNumbers rows
    → list_transfer_txns_rows db f cursor limit rows
      ≡ take limit (select (is_behind cursor) (listed db f rows))
unfolding list_transfer_txns_rows listed
list_transfer_txns_rows-listed db f cursor limit rows u = ap (take limit) (
    ap newest_first (select-select (is_listed db f) (is_behind cursor) rows)
    ∙ select-newest_first (is_behind cursor) (select (is_listed db f) rows)
        (select-HasUniqueNumbers (is_listed db f) rows u))

selected : (p : ListRow → Bool) (rows : List ListRow) → All (λ r. p r ≡ true) (select p rows)
selected p [] = tt
selected p (r ∷ rows) = elim (Bool-cases (p r)) [
  | inl b ↦ rw b (b, selected p rows)
  | inr b ↦ rw b (selected p rows)
]

take_selected :
    (p : ListRow → Bool) (n : ℕ) (rows : List ListRow)
    → All (λ r. p r ≡ true) rows
    → All (λ r. p r ≡ true) (take n rows)
take_selected p zero rows h = tt
take_selected p (suc n) [] h = tt
take_selected p (suc n) (r ∷ rows) h = (h.0, take_selected p n rows h.1)

-- The last row of a page, which is behind the page's cursor.
last_row :
    (p : ListRow → Bool) (r : ListRow) (rows : List ListRow)
    → All (λ s. p s ≡ true) (r ∷ rows)
    → (w : ListRow) × (last_cursor (r ∷ rows) ≡ some (cursor_of w)) × (p w ≡ true)
last_row p r [] h = (r, refl, h.0)
last_row p r (s ∷ rows) h = last_row p s rows h.1

behind_trans :
    (c : Option (ℕ × ℕ)) (w r : ListRow)
    → is_behind c w ≡ true
    → is_behind (some (cursor_of w)) r ≡ true
    → is_behind c r ≡ true
behind_trans none w r h k = refl
behind_trans (some (t, n)) w r h k = ground (arith, h, k)

select-narrower :
    (p q : ListRow → Bool) (rows : List ListRow)
    → ((r : ListRow) → q r ≡ true → p r ≡ true)
    → select q (select p rows) ≡ select q rows
select-narrower p q [] h = refl
select-narrower p q (r ∷ rows) h = elim (Bool-cases (q r)) [
  | inl b ↦ rw (h r b) (rw b (ap (λ (x : List ListRow). r ∷ x) (select-narrower p q rows h)))
  | inr b ↦ elim (Bool-cases (p r)) [
    | inl c ↦ rw c (rw b (select-narrower p q rows h))
    | inr c ↦ rw c (rw b (select-narrower p q rows h))
  ]
]

append_nil : (rows : List ListRow) → rows ++ [] ≡ rows
append_nil [] = refl
append_nil (r ∷ rows) = ap (λ (x : List ListRow). r ∷ x) (append_nil rows)

-- The next page's rows, for a cursor behind which the rows `r ∷ rest` are listed.
next_rows :
    (cursor : Option (ℕ × ℕ)) (all rest : List ListRow) (r : ListRow) (k : ℕ)
    → select (is_behind cursor) all ≡ r ∷ rest
    → IsSorted (r ∷ rest)
    → k < length (r ∷ rest)
    → (w : ListRow) × (last_cursor (take (suc k) (r ∷ rest)) ≡ some (cursor_of w))
      × (select (is_behind (some (cursor_of w))) all ≡ drop k rest)
next_rows cursor all rest r k e h l =
    let mine =
      subst (λ (rows : List ListRow). All (λ s. is_behind cursor s ≡ true) rows) e
        (selected (is_behind cursor) all) in
    let (w, last, p) =
      last_row (is_behind cursor) r (take k rest)
        (take_selected (is_behind cursor) (suc k) (r ∷ rest) mine) in
    (
      w,
      last,
      sym (
            select-narrower (is_behind cursor) (is_behind (some (cursor_of w))) all
              (λ s. behind_trans cursor w s p))
          ∙ ap (select (is_behind (some (cursor_of w)))) e
          ∙ subst (λ (c : Option (ℕ × ℕ)). select (is_behind c) (r ∷ rest) ≡ drop k rest) last
              (select-behind k r rest h l),
    )

-- What follows a page, by the function that lists from a cursor on.
abbrev pub follow : Option (ℕ × ℕ) → (Option (ℕ × ℕ) → List ListRow) → List ListRow
follow none k = []
follow (some c) k = k (some c)

-- The pages one after the other, each from the cursor that the last one gave.
pub all_pages : Db → TxnListFilter → List ListRow → ℕ → Option (ℕ × ℕ) → List ListRow
all_pages db f rows zero cursor = []
all_pages db f rows (suc fuel) cursor =
    let rest = all_pages db f rows fuel in
    let (page, next) = list_transfer_txns db f cursor rows in page ++ follow next rest

page_size_positive : (f : TxnListFilter) → (k : ℕ) × (page_size_of f ≡ suc k)
page_size_positive f = (page_size_of f - 1, ground arith)

-- A page of what is listed behind its cursor.
list_transfer_txns-page :
    (db : Db) (f : TxnListFilter) (rows : List ListRow) (k : ℕ) (cursor : Option (ℕ × ℕ))
    → (rest : List ListRow) → HasUniqueNumbers rows
    → page_size_of f ≡ suc k
    → select (is_behind cursor) (listed db f rows) ≡ rest
    → list_transfer_txns db f cursor rows ≡ (
        if leb (length rest) (suc k)
        then (rest, none)
        else (take (suc k) rest, last_cursor (take (suc k) rest)))
unfolding list_transfer_txns
list_transfer_txns-page db f rows k cursor rest u size e =
    let items =
      list_transfer_txns_rows-listed db f cursor (suc (suc k)) rows u ∙ ap (take (suc (suc k))) e in
    rw size (
      rw items (
        rw (length-take_more (suc k) rest) (elim (Bool-cases (leb (length rest) (suc k))) [
          | inl b ↦ rw b (rw (take_all (suc (suc k)) rest (ground (arith, b))) refl)
          | inr b ↦ rw b (rw (take_more (suc k) rest) refl)
        ])))

leb_zero : (n : ℕ) → leb 0 n ≡ true
leb_zero n = ground arith

walk :
    (db : Db) (f : TxnListFilter) (rows : List ListRow) (k : ℕ)
    → HasUniqueNumbers rows
    → page_size_of f ≡ suc k
    → (fuel : ℕ) (cursor : Option (ℕ × ℕ)) (rest : List ListRow)
    → select (is_behind cursor) (listed db f rows) ≡ rest
    → IsSorted rest
    → length rest ≤ fuel
    → all_pages db f rows fuel cursor ≡ rest
unfolding all_pages
walk db f rows k u size zero cursor [] e h l = refl
walk db f rows k u size zero cursor (r ∷ rest) e h l = ground (arith, l)
walk db f rows k u size (suc fuel) cursor [] e h l =
    rw (list_transfer_txns-page db f rows k cursor [] u size e) (rw (leb_zero (suc k)) refl)
walk db f rows k u size (suc fuel) cursor (r ∷ rest) e h l =
    rw (list_transfer_txns-page db f rows k cursor (r ∷ rest) u size e)
      (elim (Bool-cases (leb (length (r ∷ rest)) (suc k))) [
        | inl b ↦ rw b (append_nil (r ∷ rest))
        | inr b ↦
            let (w, last, next) =
              next_rows cursor (listed db f rows) rest r k e h (ground (arith, b)) in
            let tail =
              walk db f rows k u size fuel (some (cursor_of w)) (drop k rest) next
                (drop-IsSorted k rest h.1) (omega (arith, length-drop k rest, l)) in
            rw b (rw last (rw tail (ap (λ (x : List ListRow). r ∷ x) (take-drop k rest))))
      ])

-- The pages that a client gets who follows the tokens from the first page on, with as many calls as
-- there are rows, are together the listed transactions in their order, each once.
pub all_pages_lem :
    (db : Db) (f : TxnListFilter) (rows : List ListRow) (fuel : ℕ)
    → HasUniqueNumbers rows
    → length (listed db f rows) ≤ fuel
    → all_pages db f rows fuel none ≡ listed db f rows
all_pages_lem db f rows fuel u l =
    let (k, size) = page_size_positive f in
    walk db f rows k u size fuel none (listed db f rows) (select_all (listed db f rows))
      (listed-IsSorted db f rows u) l
