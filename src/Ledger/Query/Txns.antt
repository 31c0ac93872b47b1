-- ===== src/Ledger/Query/Txns.antt =====
-- The statements on the tables txn, outbox_event and webhook_config.
use Prim.Native.Char.{code}
use coin.Base.{
  ℕ, String, Bool, true, false, not, ◌&&◌, ◌||◌, Option, none, some, List, [], ◌∷◌, ◌++◌, ◌=?◌,
  ◌==◌, if◌then◌else◌,
}
use coin.Int.{ℤ, pos, ◌+ℤ◌, ◌-ℤ◌, ltb_ℤ, leb_ℤ}
use coin.Domain.{biz_type_transfer, biz_type_refund}
use coin.Domain.Error.{store_error}
use coin.Domain.StateMachine.{txn_status_recv_success}
use coin.Ledger.Schema.{
  TxnRow, AccountChange, OutboxRow, Db, Tx, pure, gets, ◌>>=◌, ◌>>◌, fail_if, modify,
}
use coin.Ledger.Query.{find, update_where, any, is_bigint}

abbrev pub of_txn : ℕ → TxnRow → Bool
of_txn txn_no t = t.txn_no =? txn_no

-- `GetTransferTxnStageForUpdate` and `GetTransferTxnByNo`
unfoldable pub get_txn : ℕ → Db → Option TxnRow
get_txn txn_no db = find (of_txn txn_no) db.txns

-- `CreateTransferTxn`; the number is the primary key, and the out_trade_no is unique to a merchant
unfoldable pub create_transfer_txn : TxnRow → Tx (Unit {0})
create_transfer_txn t = do
  taken ← gets (λ db.
      any
        (λ u.
          u.txn_no =? t.txn_no
          || u.merchant_no == t.merchant_no && u.out_trade_no == t.out_trade_no)
        db.txns)
  fail_if taken store_error
  modify (λ db. record db { txns = db.txns ++ t ∷ [] })

abbrev pub set_status : String → TxnRow → TxnRow
set_status status t = record t { status = status; error_code = ""; error_msg = "" }

-- `UpdateTransferTxnStatus` with no error, as the stages call it
unfoldable pub update_txn_status : String → ℕ → Db → Db
update_txn_status status txn_no db = record db {
  txns = update_where (of_txn txn_no) (set_status status) db.txns;
}

-- `UpdateTransferTxnStatusFrom`, with the test whether a row was changed
unfoldable pub update_txn_status_from : String → String → String → ℕ → String → Db → Db × Bool
update_txn_status_from next error_code error_msg txn_no from db =
    let fits = λ (t : TxnRow). of_txn txn_no t && t.status == from in
    (
      record db {
        txns =
            update_where fits
              (λ t. record t { status = next; error_code = error_code; error_msg = error_msg })
              db.txns;
      },
      any fits db.txns,
    )

abbrev pub spend : ℤ → TxnRow → TxnRow
spend amount t = record t { refundable_amount = t.refundable_amount -ℤ amount }

-- `TryDecreaseTxnRefundable`
unfoldable pub try_decrease_refundable : ℕ → ℤ → Db → Db × Option ℤ
try_decrease_refundable txn_no amount db =
    let fits = λ (t : TxnRow). of_txn txn_no t && leb_ℤ amount t.refundable_amount in
    elim (find fits db.txns) [
      | none ↦ (db, none)
      | some t ↦ (
        record db { txns = update_where fits (spend amount) db.txns },
        some (t.refundable_amount -ℤ amount),
      )
    ]

-- The WHERE clause of `DecreaseOriginTxnRefundableIfValid`.
abbrev pub is_refundable : ℕ → String → ℤ → TxnRow → Bool
is_refundable origin_no merchant_no amount t =
    t.txn_no =? origin_no
    && t.merchant_no == merchant_no
    && t.biz_type == biz_type_transfer
    && t.status == txn_status_recv_success
    && leb_ℤ amount t.refundable_amount

-- `DecreaseOriginTxnRefundableIfValid`, with the test whether a row was changed
unfoldable pub decrease_origin_refundable : ℕ → String → ℤ → Tx Bool
decrease_origin_refundable origin_no merchant_no amount db =
    let fits = is_refundable origin_no merchant_no amount in
    pure (any fits db.txns) (record db { txns = update_where fits (spend amount) db.txns })

abbrev debits_of : ℕ → String → List AccountChange → ℤ → ℤ
debits_of txn_no account_no [] amount = pos 0
debits_of txn_no account_no (c ∷ rest) amount =
    let sum = debits_of txn_no account_no rest amount in
    if c.txn_no =? txn_no && c.account_no == account_no && ltb_ℤ c.delta (pos 0)
    then amount +ℤ sum
    else sum

abbrev refund_debits : (TxnRow → Bool) → String → ℕ → String → List AccountChange → List TxnRow → ℤ
refund_debits p merchant_no origin_no account_no changes [] = pos 0
refund_debits p merchant_no origin_no account_no changes (t ∷ rest) =
    let sum = refund_debits p merchant_no origin_no account_no changes rest in
    if p t
      && t.merchant_no == merchant_no
      && elim t.refund_of_txn_no [ none ↦ false | some o ↦ o =? origin_no ]
      && t.biz_type == biz_type_refund
    then debits_of t.txn_no account_no changes t.amount +ℤ sum
    else sum

-- `GetRefundDebitStatsByOrigin`: what all refunds of the origin have debited, and the refund's part
unfoldable pub get_refund_debit_stats : ℕ → String → ℕ → String → Tx (ℤ × ℤ)
unfolding is_bigint
get_refund_debit_stats refund_no merchant_no origin_no account_no = do
  total ←
      gets (λ db.
        refund_debits (λ _. true) merchant_no origin_no account_no db.account_changes db.txns)
  current ← gets (λ db.
      refund_debits (of_txn refund_no) merchant_no origin_no account_no db.account_changes db.txns)
  fail_if (not (is_bigint total) || not (is_bigint current)) store_error
  pure (total, current)

-- BTRIM(url) <> ''
abbrev pub is_blank : String → Bool
is_blank String.[] = true
is_blank (String.◌∷◌ c s) = code c =? 32 && is_blank s

-- `InsertOutboxEvent`: only for a merchant with a webhook, and nothing if the event is there
unfoldable pub insert_outbox_event : OutboxRow → Db → Db
insert_outbox_event e db =
    let listens =
      any (λ w. w.merchant_no == e.merchant_no && w.enabled && not (is_blank w.url)) db.webhooks in
    let there = any (λ o. o.event_id =? e.event_id) db.outbox in
    if listens && not there then record db { outbox = db.outbox ++ e ∷ [] } else db
