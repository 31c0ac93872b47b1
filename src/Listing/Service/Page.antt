-- ===== src/Listing/Service/Page.antt =====
-- What a page of the transactions in memory holds.
use coin.Base.{
  ℕ, ◌≡◌, ◌≤◌, true, ◌&&◌, ◌||◌, Option, none, some, List, [], ◌∷◌, ltb, leb, ◌=?◌, ◌==◌, length,
  All, arith, Bool-cases, inl, inr, String,
}
use coin.Int.{ℤ}
use coin.Text.Hash.{bytes}
use coin.Ledger.Query.{select}
use coin.Listing.Kept.{take-All, select-All, select_keeps, length-take}
use coin.Listing.Token.{decode_page_token}
use coin.Http.Services.{QueryTxn, QueryFilter}
use coin.Listing.Service.{
  is_less, fits, insert_newest, sorted, is_past, past_cursor, past_token, size_or_default,
  list_in_memory,
}

module _ (P : QueryTxn → Type 0) where
  insert_newest-All :
      (x : QueryTxn) (xs : List QueryTxn) → P x → All P xs → All P (insert_newest x xs)
  insert_newest-All x [] h k = (h, tt)
  insert_newest-All x (y ∷ ys) h k =
      elim (Bool-cases (
        ltb y.created_at x.created_at
        || y.created_at =? x.created_at && is_less (bytes y.txn_no) (bytes x.txn_no))) [
          | inl b ↦ rw b (h, k)
          | inr b ↦ rw b (k.0, insert_newest-All x ys h k.1)
        ]

  sorted-All : (xs : List QueryTxn) → All P xs → All P (sorted xs)
  sorted-All [] h = tt
  sorted-All (x ∷ xs) h = insert_newest-All x (sorted xs) h.0 (sorted-All xs h.1)

  past_cursor-All :
      (c : Option (ℤ × List ℕ)) (xs : List QueryTxn) → All P xs → All P (past_cursor c xs)
  past_cursor-All none xs h = h
  past_cursor-All (some c) xs h = select_keeps P (is_past c) xs h

  past_token-All : (token : String) (xs : List QueryTxn) → All P xs → All P (past_token token xs)
  past_token-All token xs h = elim (Bool-cases (token == "")) [
    | inl b ↦ rw b h
    | inr b ↦ rw b (past_cursor-All (decode_page_token (bytes token)) xs h)
  ]

-- A page in memory holds at most as many transactions as it may, and all of them fit the filter.
pub list_in_memory-fits :
    (f : QueryFilter) (txns : List QueryTxn)
    → let page = (list_in_memory f txns).0 in
      All (λ x. fits f x ≡ true) page × (length page ≤ size_or_default f.page_size)
unfolding list_in_memory
list_in_memory-fits f txns =
    let Fits : QueryTxn → Type 0 = λ x. fits f x ≡ true in
    let size = size_or_default f.page_size in
    let filtered = past_token f.page_token (sorted (select (fits f) txns)) in
    let all =
      past_token-All Fits f.page_token _
        (sorted-All Fits _ (select-All Fits (fits f) (λ x h. h) txns)) in
    elim (Bool-cases (leb (length filtered) size)) [
      | inl b ↦ rw b (all, ground (arith, b))
      | inr b ↦ rw b (take-All Fits size filtered all, length-take size filtered)
    ]
