-- ===== src/Listing/Logs/Own.antt =====
-- What a page of change logs holds, and no other account's.
use coin.Base.{
  ℕ, zero, suc, ◌≡◌, ◌∙◌, refl, ap, if◌then◌else◌, true, ◌&&◌, ◌||◌, Option, List, [], ◌∷◌, map,
  ltb, leb, ◌=?◌, ◌==◌, length, All, arith, eq_iff, Bool-cases, inl, inr, String,
}
use coin.Ledger.Schema.{Db}
use coin.Domain.Account.{Account}
use coin.Ledger.Query.{any, select}
use coin.Listing.{take}
use coin.Http.Services.{AccountChangeLog, AccountChangeLogListFilter}
use coin.Listing.Kept.{take-All, select-All, length-map}
use coin.Listing.Logs.{
  AccountChangeRow, is_change_of, is_earlier, insert_latest, latest_first,
  list_account_change_logs_rows, page_limit, log_of, list_account_change_logs,
}

module _ (P : AccountChangeRow → Type 0) where
  insert_latest-All :
      (r : AccountChangeRow) (rows : List AccountChangeRow)
      → P r
      → All P rows
      → All P (insert_latest r rows)
  insert_latest-All r [] h k = (h, tt)
  insert_latest-All r (s ∷ rows) h k =
      elim (Bool-cases (
        ltb s.created_at r.created_at
        || s.created_at =? r.created_at && ltb s.change_id r.change_id)) [
          | inl b ↦ rw b (h, k)
          | inr b ↦ rw b (k.0, insert_latest-All r rows h k.1)
        ]

  latest_first-All : (rows : List AccountChangeRow) → All P rows → All P (latest_first rows)
  latest_first-All [] h = tt
  latest_first-All (r ∷ rows) h =
      insert_latest-All r (latest_first rows) h.0 (latest_first-All rows h.1)

abbrev pub lesser : ℕ → ℕ → ℕ
lesser m n = if leb m n then m else n

length-take-lesser : {A : Type 0} (n : ℕ) (xs : List A) → length (take n xs) ≡ lesser (length xs) n
length-take-lesser zero [] = refl
length-take-lesser zero (x ∷ xs) = ground arith
length-take-lesser (suc n) [] = ground arith
length-take-lesser (suc n) (x ∷ xs) = ground (arith, length-take-lesser n xs)

length-insert_latest :
    (r : AccountChangeRow) (rows : List AccountChangeRow)
    → length (insert_latest r rows) ≡ suc (length rows)
length-insert_latest r [] = refl
length-insert_latest r (s ∷ rows) = ground (arith, length-insert_latest r rows)

length-latest_first : (rows : List AccountChangeRow) → length (latest_first rows) ≡ length rows
length-latest_first [] = refl
length-latest_first (r ∷ rows) =
    omega (arith, length-insert_latest r (latest_first rows), length-latest_first rows)

length-rows :
    (db : Db) (f : AccountChangeLogListFilter) (cursor : Option (ℕ × ℕ)) (limit : ℕ)
    (rows : List AccountChangeRow)
    → length (list_account_change_logs_rows db f cursor limit rows)
      ≡ lesser (length (select (λ r. is_change_of db f r && is_earlier cursor r) rows)) limit
unfolding list_account_change_logs_rows
length-rows db f cursor limit rows =
    let own = select (λ r. is_change_of db f r && is_earlier cursor r) rows in
    length-take-lesser limit (latest_first own) ∙ ap (λ n. lesser n limit) (length-latest_first own)

abbrev IsOwn : Db → AccountChangeLogListFilter → AccountChangeRow → Type 0
IsOwn db f r = is_change_of db f r ≡ true

rows-IsOwn :
    (db : Db) (f : AccountChangeLogListFilter) (cursor : Option (ℕ × ℕ)) (limit : ℕ)
    (rows : List AccountChangeRow)
    → All (IsOwn db f) (list_account_change_logs_rows db f cursor limit rows)
unfolding list_account_change_logs_rows
rows-IsOwn db f cursor limit rows = take-All (IsOwn db f) limit _ (
    latest_first-All (IsOwn db f) _ (
      select-All (IsOwn db f) (λ r. is_change_of db f r && is_earlier cursor r)
        (λ r h. ground (arith, h)) rows))

module _ (text : ℕ → String) where
  -- What a log says of its account.
  abbrev pub IsOf : Db → AccountChangeLogListFilter → AccountChangeLog → Type 0
  IsOf db f l =
      (l.account_no ≡ f.account_no)
      × (any (λ (a : Account). a.account_no == l.account_no && a.merchant_no == f.merchant_no)
            db.accounts
          ≡ true)

  map-IsOf :
      (db : Db) (f : AccountChangeLogListFilter) (rows : List AccountChangeRow)
      → All (IsOwn db f) rows
      → All (IsOf db f) (map (log_of text db) rows)
  map-IsOf db f [] h = tt
  map-IsOf db f (r ∷ rows) h =
      let asked : (r.change.account_no == f.account_no) ≡ true = ground (arith, h.0) in
      (
        ((eq_iff r.change.account_no f.account_no).0 asked, ground (arith, h.0)),
        map-IsOf db f rows h.1,
      )

  -- The logs of a page are all of the account that is asked for, which is an account of the merchant,
  -- and they are as many as there are of it behind the cursor, or as a page may hold if these are
  -- more.
  pub list_account_change_logs-IsOf :
      (db : Db) (f : AccountChangeLogListFilter) (cursor : Option (ℕ × ℕ))
      (rows : List AccountChangeRow)
      → let page = (list_account_change_logs text db f cursor rows).0 in
        All (IsOf db f) page
        × (length page
            ≡ lesser
                (length (select (λ r. is_change_of db f r && is_earlier cursor r) rows))
                (page_limit f.page_size))
  unfolding list_account_change_logs
  list_account_change_logs-IsOf db f cursor rows =
      let size = page_limit f.page_size in
      let items = list_account_change_logs_rows db f cursor (suc size) rows in
      let own = rows-IsOwn db f cursor (suc size) rows in
      let sized = length-rows db f cursor (suc size) rows in
      elim (Bool-cases (leb (length items) size)) [
        | inl b ↦
            rw b
              (map-IsOf db f items own, ground (arith, length-map (log_of text db) items, sized, b))
        | inr b ↦ rw b (
          map-IsOf db f (take size items) (take-All (IsOwn db f) size items own),
          ground (
            arith,
            length-map (log_of text db) (take size items),
            length-take-lesser size items,
            sized,
            b,
          ),
        )
      ]
