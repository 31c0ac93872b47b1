-- ===== src/Ledger/Stage/Quota.antt =====
-- What a refund takes from its origin: `DecreaseOriginTxnRefundableIfValid` with the classification
-- of its misses, against the verdict that the origin's row calls for.
use coin.Base.{
  ℕ, ◌≡◌, refl, String, Bool, true, false, not, ◌||◌, ◌&&◌, Option, none, some, Option-cases, List,
  [], ◌∷◌, arith, if◌then◌else◌, ◌==◌, Bool-cases, inl, inr,
}
use coin.Int.{ℤ, leb_ℤ, ltb_ℤ}
use coin.Domain.{biz_type_transfer}
use coin.Domain.Error.{Error, txn_status_invalid, txn_not_found, refund_amount_exceeded}
use coin.Domain.StateMachine.{txn_status_recv_success}
use coin.Ledger.Schema.{Db, ok, err, TxnRow}
use coin.Ledger.Query.{find, update_where, any}
use coin.Ledger.Query.Txns.{of_txn, spend, get_txn, decrease_origin_refundable}
use coin.Ledger.Stage.{take_refund_quota, classify_origin_refund_decrease_miss}
use coin.Ledger.Money.{IsUnique, update_where-none}

-- An update where two tests hold, of which the first holds of one row at most.
module _ {A : Type 0} (p q : A → Bool) (f : A → A) where
  no_row :
      (xs : List A)
      → find p xs ≡ none
      → (any (λ x. p x && q x) xs ≡ false) × (update_where (λ x. p x && q x) f xs ≡ xs)
  no_row [] h = (refl, refl)
  no_row (x ∷ xs) h = ground (arith, no_row xs)

  refused_row :
      (a : A) (xs : List A)
      → IsUnique p xs
      → find p xs ≡ some a
      → q a ≡ false
      → (any (λ x. p x && q x) xs ≡ false) × (update_where (λ x. p x && q x) f xs ≡ xs)
  refused_row a [] d h e = (refl, refl)
  refused_row a (x ∷ xs) d h e = elim (Bool-cases (p x)) [
    | inl same ↦ let rest = no_row xs (d.0 same) in ground (arith, same, h, rest, e)
    | inr other ↦ let rest = refused_row a xs d.1 (rw other at h) e in ground (arith, other, rest)
  ]

  taken_row :
      (a : A) (xs : List A)
      → IsUnique p xs
      → find p xs ≡ some a
      → q a ≡ true
      → (any (λ x. p x && q x) xs ≡ true)
        × (update_where (λ x. p x && q x) f xs ≡ update_where p f xs)
  taken_row a [] d h e = ground arith
  taken_row a (x ∷ xs) d h e = elim (Bool-cases (p x)) [
    | inl same ↦
        let rest = no_row xs (d.0 same) in
        let kept = update_where-none p f xs (d.0 same) in ground (arith, same, h, rest, kept, e)
    | inr other ↦ let rest = taken_row a xs d.1 (rw other at h) e in ground (arith, other, rest)
  ]

-- Why a refund of the amount is refused, or that it is not.
abbrev pub verdict : String → ℤ → Option TxnRow → Option Error
verdict merchant_no amount none = some txn_not_found
verdict merchant_no amount (some t) =
    if not (t.merchant_no == merchant_no)
    then some txn_not_found
    else if not (t.biz_type == biz_type_transfer) || not (t.status == txn_status_recv_success)
    then some txn_status_invalid
    else if ltb_ℤ t.refundable_amount amount
    then some refund_amount_exceeded
    else none

-- The part of `is_refundable` behind the test of the number.
abbrev allows : String → ℤ → TxnRow → Bool
allows merchant_no amount t =
    t.merchant_no == merchant_no
    && t.biz_type == biz_type_transfer
    && t.status == txn_status_recv_success
    && leb_ℤ amount t.refundable_amount

-- For a merchant with a number, and an origin's number that is unique, a refund that the origin's
-- row allows takes exactly its amount from that row; any other fails with the error that the row
-- calls for, and writes nothing.
pub take_refund_quota_lem :
    (origin_no : ℕ) (merchant_no : String) (amount : ℤ) (db : Db)
    → (merchant_no == "") ≡ false
    → IsUnique (of_txn origin_no) db.txns
    → take_refund_quota origin_no merchant_no amount db
      ≡ elim (verdict merchant_no amount (get_txn origin_no db)) [
        | none ↦
            (ok tt, record db { txns = update_where (of_txn origin_no) (spend amount) db.txns })
        | some e ↦ (err e, db)
      ]
unfolding take_refund_quota classify_origin_refund_decrease_miss decrease_origin_refundable get_txn
take_refund_quota_lem origin_no merchant_no amount db named unique =
    let p = of_txn origin_no in
    let q = allows merchant_no amount in
    elim (Option-cases (get_txn origin_no db)) [
      | inl gone ↦
          let none_fits = no_row p q (spend amount) db.txns gone in grind (arith, gone, none_fits)
      | inr (t, row) ↦ elim (Bool-cases (q t)) [
        | inl yes_q ↦
            let fits = taken_row p q (spend amount) t db.txns unique row yes_q in
            grind (arith, row, fits, yes_q)
        | inr no_q ↦
            let fits = refused_row p q (spend amount) t db.txns unique row no_q in
            grind (arith, row, fits, no_q, named)
      ]
    ]
