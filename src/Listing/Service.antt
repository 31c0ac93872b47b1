-- ===== src/Listing/Service.antt =====
-- internal/service/txn_query_service.go: the reads of transactions, of a repository or, without one,
-- of what has been added to the service. A page token is its bytes.
pub mod Page
use coin.Base.{
  ℕ, suc, ◌≡◌, refl, String, Bool, true, false, not, ◌&&◌, ◌||◌, Option, none, some, List, [], ◌∷◌,
  ◌++◌, map, ltb, leb, ◌=?◌, ◌==◌, if◌then◌else◌, length, All, arith, eq_iff, Bool-cases, inl, inr,
}
use coin.Int.{ℤ, pos, pos_part, ◌-ℤ◌, leb_ℤ, ltb_ℤ, eqb_ℤ}
use coin.Text.Hash.{bytes}
use coin.Domain.{TransferTxn}
use coin.Ledger.Query.{find, select}
use coin.Listing.{take, not_before, not_after}
use coin.Listing.Token.{encode_page_token, decode_page_token}
use coin.Http.Auth.{unix_epoch}
use coin.Http.Services.{QueryTxn, QueryFilter}

-- The part of the repository that the service asks; `TxnListFilter` has the fields of `QueryFilter`.
pub record QueryRepository (S : Type 0) : Type 0 where
  pub get_transfer_txn : String → S → Option TransferTxn
  pub get_transfer_txn_by_out_trade_no : String → String → S → Option TransferTxn
  pub list_transfer_txns : QueryFilter → S → List TransferTxn × List ℕ

pub record TxnQueryService (S : Type 0) : Type 0 where
  pub repo : Option (QueryRepository S)
  pub txns : List QueryTxn

-- `queryTxnFromTransferTxn`
unfoldable pub query_txn_from_transfer_txn : TransferTxn → QueryTxn
query_txn_from_transfer_txn t = record {
  txn_no = t.txn_no;
  merchant_no = t.merchant_no;
  out_trade_no = t.out_trade_no;
  out_user_id = "";
  title = t.title;
  remark = t.remark;
  scene = t.transfer_scene;
  status = t.status;
  amount = t.amount;
  refundable_amount = t.refundable_amount;
  debit_account_no = t.debit_account_no;
  credit_account_no = t.credit_account_no;
  error_code = t.error_code;
  error_msg = t.error_msg;
  created_at = t.created_at;
}

-- The order of texts is that of their bytes.
abbrev pub is_less : List ℕ → List ℕ → Bool
is_less v [] = false
is_less [] (c ∷ w) = true
is_less (b ∷ v) (c ∷ w) = let rest = is_less v w in ltb b c || b =? c && rest

-- `UnixNano` of an instant for which it fits an int64
abbrev unix_nano : ℕ → ℤ
unix_nano t = pos t -ℤ pos unix_epoch

-- What the loop over the transactions keeps.
unfoldable pub fits : QueryFilter → QueryTxn → Bool
fits f x =
    (f.merchant_no == "" || x.merchant_no == f.merchant_no)
    && (f.out_user_id == "" || x.out_user_id == f.out_user_id)
    && (f.scene == "" || x.scene == f.scene)
    && (f.status == "" || x.status == f.status)
    && not_before f.start_time x.created_at
    && not_after f.end_time x.created_at

-- The newest first, and of one instant the largest number.
abbrev pub insert_newest : QueryTxn → List QueryTxn → List QueryTxn
insert_newest x [] = x ∷ []
insert_newest x (y ∷ ys) =
    let rest = insert_newest x ys in
    if ltb y.created_at x.created_at
      || y.created_at =? x.created_at && is_less (bytes y.txn_no) (bytes x.txn_no)
    then x ∷ y ∷ ys
    else y ∷ rest

abbrev pub sorted : List QueryTxn → List QueryTxn
sorted [] = []
sorted (x ∷ xs) = insert_newest x (sorted xs)

abbrev pub is_past : ℤ × List ℕ → QueryTxn → Bool
is_past (t, n) x =
    ltb_ℤ (unix_nano x.created_at) t
    || eqb_ℤ (unix_nano x.created_at) t && is_less (bytes x.txn_no) n

abbrev pub past_cursor : Option (ℤ × List ℕ) → List QueryTxn → List QueryTxn
past_cursor none xs = xs
past_cursor (some c) xs = select (is_past c) xs

-- What is behind the page token, where there is one that can be read.
abbrev pub past_token : String → List QueryTxn → List QueryTxn
past_token token xs = if token == "" then xs else past_cursor (decode_page_token (bytes token)) xs

abbrev last_token : List QueryTxn → List ℕ
last_token [] = []
last_token (x ∷ []) = encode_page_token (unix_nano x.created_at) (bytes x.txn_no)
last_token (x ∷ y ∷ ys) = last_token (y ∷ ys)

abbrev pub size_or_default : ℤ → ℕ
size_or_default size = if leb_ℤ size (pos 0) then 20 else pos_part size

-- The page of the transactions in memory, with its token.
unfoldable pub list_in_memory : QueryFilter → List QueryTxn → List QueryTxn × List ℕ
list_in_memory f txns =
    let filtered = past_token f.page_token (sorted (select (fits f) txns)) in
    let size = size_or_default f.page_size in
    if leb (length filtered) size
    then (filtered, [])
    else (take size filtered, last_token (take size filtered))

abbrev found : Option TransferTxn → Option QueryTxn
found none = none
found (some t) = some (query_txn_from_transfer_txn t)

module _ {S : Type 0} where
  -- `AddTxn`
  unfoldable pub add_txn : QueryTxn → TxnQueryService S → TxnQueryService S
  add_txn x svc = elim svc.repo [ some _ ↦ svc | none ↦ record svc { txns = svc.txns ++ x ∷ [] } ]

  -- `GetByTxnNo`
  unfoldable pub get_by_txn_no : TxnQueryService S → String → S → Option QueryTxn
  get_by_txn_no svc txn_no s = elim svc.repo [
    | some repo ↦ found (repo.get_transfer_txn txn_no s)
    | none ↦ find (λ (x : QueryTxn). x.txn_no == txn_no) svc.txns
  ]

  -- `GetByOutTradeNo`
  unfoldable pub get_by_out_trade_no : TxnQueryService S → String → String → S → Option QueryTxn
  get_by_out_trade_no svc merchant_no out_trade_no s = elim svc.repo [
    | some repo ↦ found (repo.get_transfer_txn_by_out_trade_no merchant_no out_trade_no s)
    | none ↦
        find (λ (x : QueryTxn). x.merchant_no == merchant_no && x.out_trade_no == out_trade_no)
          svc.txns
  ]

  -- `List`
  unfoldable pub list : TxnQueryService S → QueryFilter → S → List QueryTxn × List ℕ
  list svc f s = elim svc.repo [
    | some repo ↦
        let (txns, next) = repo.list_transfer_txns f s in
        (map query_txn_from_transfer_txn txns, next)
    | none ↦ list_in_memory f svc.txns
  ]
