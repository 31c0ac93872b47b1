-- ===== src/Transfer/Checks.antt =====
-- What a submitted transaction can be relied on to satisfy.
use coin.Base.{
  ◌≡◌, ◌≢◌, ◌⊎◌, ◌∙◌, ap, refl, sym, String, true, false, ◌&&◌, none, some, Option-cases, ◌==◌,
  arith, eq_iff, inl, inr, Bool-cases,
}
use coin.Int.{◌≤ℤ◌}
use coin.Text.{trim_space}
use coin.Domain.{TransferTxn, biz_type_transfer, biz_type_refund, scene_p2p, scene_expire_writeoff}
use coin.Domain.Error.{Error}
use coin.Domain.Account.{Account, can_debit_out, can_credit, can_transfer}
use coin.Domain.StateMachine.{txn_status_recv_success}
use coin.Ledger.Schema.{Result, ok, err}
use coin.Transfer.{
  Repository, TransferRequest, new_txn, or_default, validate_submit_transfer_accounts,
  validate_submit_refund_accounts, refund_txn, transfer_txn, submit,
}

Result-cases : {A : Type 0} (r : Result A) → ((e : Error) × (r ≡ err e)) ⊎ ((a : A) × (r ≡ ok a))
Result-cases (err e) = inl (e, refl)
Result-cases (ok a) = inr (a, refl)

module _ {S : Type 0} (repo : Repository S) (s : S) where
  -- The accounts of a transfer: both there, of the merchant, and allowed their side of it.
  abbrev pub ArePartiesOf : String → String → String → String → Account → Account → Type 0
  ArePartiesOf merchant_no scene debit_no credit_no debit credit =
      (repo.get_account (trim_space debit_no) s ≡ some debit)
      × (repo.get_account (trim_space credit_no) s ≡ some credit)
      × (trim_space debit.merchant_no ≡ trim_space merchant_no)
      × (trim_space credit.merchant_no ≡ trim_space merchant_no)
      × (debit.allow_debit_out ≡ true)
      × (credit.allow_credit_in ≡ true)
      × ((scene ≢ scene_p2p) ⊎ (debit.allow_transfer ≡ true))

  pub validate_submit_transfer_accounts_lem :
      (merchant_no scene debit_no credit_no : String)
      → validate_submit_transfer_accounts repo merchant_no scene debit_no credit_no s ≡ none
      → (debit : Account) × (credit : Account) × ArePartiesOf merchant_no scene debit_no credit_no
          debit credit
  unfolding validate_submit_transfer_accounts can_debit_out can_credit can_transfer
  validate_submit_transfer_accounts_lem merchant_no scene debit_no credit_no accepted =
      elim (Option-cases (repo.get_account (trim_space debit_no) s)) [
        | inl gone ↦ grind (arith, gone, accepted)
        | inr (debit, found) ↦ elim (Option-cases (repo.get_account (trim_space credit_no) s)) [
          | inl gone ↦ grind (arith, gone, found, accepted)
          | inr (credit, found') ↦
              let d = (eq_iff (trim_space debit.merchant_no) (trim_space merchant_no)).0 in
              let c = (eq_iff (trim_space credit.merchant_no) (trim_space merchant_no)).0 in
              let at_p2p : scene == scene_p2p ≡ true → debit.allow_transfer ≡ true =
                λ b. grind (arith, found, found', accepted, b) in
              let transfers : (scene ≢ scene_p2p) ⊎ (debit.allow_transfer ≡ true) =
                elim (Bool-cases (scene == scene_p2p)) [
                  | inl is_p2p ↦ inr (at_p2p is_p2p)
                  | inr other ↦ inl (λ e. ground (arith, (eq_iff scene scene_p2p).1 e, other))
                ] in
              (
                debit,
                credit,
                (
                  found,
                  found',
                  grind (arith, found, found', accepted, d),
                  grind (arith, found, found', accepted, c),
                  grind (arith, found, found', accepted),
                  grind (arith, found, found', accepted),
                  transfers,
                ),
              )
        ]
      ]

  -- The row of a refund is that of the request, but for its accounts.
  abbrev pub IsRowOf : TransferTxn → TransferTxn → Type 0
  IsRowOf txn t = t ≡ record txn {
    debit_account_no = t.debit_account_no;
    credit_account_no = t.credit_account_no;
  }

  -- The origin of a refund: a settled transfer of the merchant, with enough left to refund, whose
  -- accounts the refund takes the other way round.
  abbrev pub IsOriginOf : TransferRequest → TransferTxn → TransferTxn → Type 0
  IsOriginOf req origin t =
      (repo.get_transfer_txn (trim_space req.refund_of_txn_no) s ≡ some origin)
      × (trim_space origin.merchant_no ≡ trim_space req.merchant_no)
      × (trim_space origin.biz_type ≡ biz_type_transfer)
      × (trim_space origin.status ≡ txn_status_recv_success)
      × (trim_space origin.transfer_scene ≢ scene_expire_writeoff)
      × (req.amount ≤ℤ origin.refundable_amount)
      × (t.debit_account_no ≡ trim_space origin.credit_account_no)
      × (t.credit_account_no ≡ trim_space origin.debit_account_no)
      × (validate_submit_refund_accounts repo req.merchant_no t.debit_account_no t.credit_account_no
            s
          ≡ none)

  pub refund_txn_lem :
      (req : TransferRequest) (txn t : TransferTxn)
      → refund_txn repo req txn s ≡ ok t
      → IsRowOf txn t × ((origin : TransferTxn) × IsOriginOf req origin t)
  unfolding refund_txn
  refund_txn_lem req txn t accepted =
      elim (Option-cases (repo.get_transfer_txn (trim_space req.refund_of_txn_no) s)) [
        | inl gone ↦ grind (arith, gone, accepted)
        | inr (origin, found) ↦
            let m = (eq_iff (trim_space origin.merchant_no) (trim_space req.merchant_no)).0 in
            let b = (eq_iff (trim_space origin.biz_type) biz_type_transfer).0 in
            let st = (eq_iff (trim_space origin.status) txn_status_recv_success).0 in
            let sc = (eq_iff (trim_space origin.transfer_scene) scene_expire_writeoff).1 in
            let debit : t.debit_account_no ≡ trim_space origin.credit_account_no =
              grind (arith, found, accepted) in
            let credit : t.credit_account_no ≡ trim_space origin.debit_account_no =
              grind (arith, found, accepted) in
            let row : t ≡ record txn {
              debit_account_no = trim_space origin.credit_account_no;
              credit_account_no = trim_space origin.debit_account_no;
            } =
              grind (arith, found, accepted) in
            (
              row ∙ (λ i. record txn {
                debit_account_no = sym debit i;
                credit_account_no = sym credit i;
              }),
              (
                origin,
                (
                  found,
                  grind (arith, found, accepted, m),
                  grind (arith, found, accepted, b),
                  grind (arith, found, accepted, st),
                  λ e. grind (arith, found, accepted, sc e),
                  grind (arith, found, accepted),
                  debit,
                  credit,
                  grind (arith, found, accepted),
                ),
              ),
            )
      ]

  -- A refund that `Submit` returns without an error is the row that was created, with all but the
  -- accounts as the request has it. Its origin is a
  -- settled transfer of the same merchant, no write-off, with at least the amount left to refund,
  -- and its accounts are the origin's the other way round.
  pub submit-refund :
      (txn_no : String) (req : TransferRequest) (t : TransferTxn) (s' : S)
      → req.biz_type ≡ biz_type_refund
      → submit repo (ok txn_no) req s ≡ (ok t, s')
      → (repo.create_transfer_txn t s ≡ (none, s'))
        × IsRowOf (new_txn txn_no req) t
        × ((origin : TransferTxn) × IsOriginOf req origin t)
  unfolding submit
  submit-refund txn_no req t s' kind done =
      let txn = new_txn txn_no req in
      let is_refund : txn.biz_type == biz_type_refund ≡ true = rw kind refl in
      elim (Result-cases (refund_txn repo req txn s)) [
        | inl (e, refused) ↦ grind (arith, is_refund, refused, done)
        | inr (t', accepted) ↦
            let same : t' ≡ t = grind (arith, is_refund, accepted, done) in
            let (row, origin) = refund_txn_lem req txn t (accepted ∙ ap ok same) in
            (grind (arith, is_refund, accepted, done), row, origin)
      ]

  -- A transaction of another kind than REFUND with a party, which `Submit` returns without an error,
  -- is the row that was created, as the request has it. Both accounts are there, of the merchant,
  -- and allowed their side of it; in the scene P2P the debited one may transfer.
  pub submit-transfer :
      (txn_no : String) (req : TransferRequest) (t : TransferTxn) (s' : S)
      → (or_default req.biz_type biz_type_transfer == biz_type_refund) ≡ false
      → (trim_space req.debit_account_no == "" && trim_space req.credit_account_no == "") ≡ false
      → submit repo (ok txn_no) req s ≡ (ok t, s')
      → (repo.create_transfer_txn t s ≡ (none, s'))
        × (t ≡ new_txn txn_no req)
        × ((debit : Account) × (credit : Account) × ArePartiesOf req.merchant_no t.transfer_scene
              req.debit_account_no req.credit_account_no debit credit)
  unfolding submit transfer_txn
  submit-transfer txn_no req t s' kind named done =
      let txn = new_txn txn_no req in
      elim (Option-cases (
        validate_submit_transfer_accounts repo req.merchant_no txn.transfer_scene
          req.debit_account_no req.credit_account_no s)) [
            | inr (e, refused) ↦ grind (arith, kind, named, refused, done)
            | inl accepted ↦
                let same : t ≡ txn = grind (arith, kind, named, accepted, done) in
                (
                  grind (arith, kind, named, accepted, done),
                  same,
                  rw same (
                      validate_submit_transfer_accounts_lem req.merchant_no txn.transfer_scene
                        req.debit_account_no req.credit_account_no accepted),
                )
          ]
