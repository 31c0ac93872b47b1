-- ===== src/Transfer/Routing.antt =====
-- internal/service/transfer_routing.go and account_resolver.go: which accounts a transfer goes
-- between, and that `Submit` accepts them.
use coin.Base.{
  ◌≡◌, refl, String, true, not, ◌||◌, ◌&&◌, Option, none, some, Option-cases, if◌then◌else◌, ◌==◌,
  arith, eq_iff, inl, inr, subst,
}
use coin.Text.{trim_space}
use coin.Domain.{
  Merchant, scene_issue, scene_consume, scene_p2p, account_type_budget, account_type_receivable,
}
use coin.Domain.Error.{
  Error, account_resolve_failed, account_resolve_conflict,
  out_user_id_not_allowed_for_system_account,
}
use coin.Domain.Account.{Account, can_debit_out, can_credit, can_transfer}
use coin.Ledger.Schema.{Result, ok, err}
use coin.Transfer.{Repository, ◌&>◌, validate_submit_transfer_accounts}

pub record TransferRoutingRequest : Type 0 where
  pub merchant_no : String
  pub scene : String
  pub debit_account_no : String
  pub credit_account_no : String

pub record TransferRoutingResult : Type 0 where
  pub debit_account_no : String
  pub credit_account_no : String

-- The parties of a request, with the merchant's own account where the scene has one.
abbrev pub routed : Merchant → TransferRoutingRequest → TransferRoutingResult
routed m req = record {
  debit_account_no =
      if req.scene == scene_issue && req.debit_account_no == ""
      then m.budget_account_no
      else req.debit_account_no;
  credit_account_no =
      if req.scene == scene_consume && req.credit_account_no == ""
      then m.receivable_account_no
      else req.credit_account_no;
}

-- Equal texts are equal when trimmed.
trims_same : (x y : String) → x == y ≡ true → trim_space x == trim_space y ≡ true
trims_same x y e = rw ((eq_iff x y).0 e) ((eq_iff (trim_space y) (trim_space y)).1 refl)

module _ {S : Type 0} (repo : Repository S) where
  -- The tests of `Resolve` on the parties that it has settled on.
  unfoldable pub check_parties : Merchant → String → TransferRoutingResult → S → Option Error
  check_parties m scene r s =
      if r.debit_account_no == "" || r.credit_account_no == ""
      then some account_resolve_failed
      else elim (repo.get_account r.debit_account_no s) [
        | none ↦ some account_resolve_failed
        | some da ↦ elim (repo.get_account r.credit_account_no s) [
          | none ↦ some account_resolve_failed
          | some ca ↦
              if not (da.merchant_no == m.merchant_no) || not (ca.merchant_no == m.merchant_no)
              then some account_resolve_failed
              else can_debit_out da
                &> can_credit ca
                &> (if scene == scene_p2p then can_transfer da else none)
        ]
      ]

  -- `TransferRoutingService.Resolve`; the scene P2P has no account to fill in, so its own test of the
  -- parties is the one behind the switch
  unfoldable pub resolve : TransferRoutingRequest → S → Result TransferRoutingResult
  resolve req s = elim (repo.get_merchant_by_no req.merchant_no s) [
    | none ↦ err account_resolve_failed
    | some m ↦
        let r = routed m req in
        elim (check_parties m req.scene r s) [ some e ↦ err e | none ↦ ok r ]
  ]

  -- `ResolveCustomerAccount`; "" where nothing is resolved
  unfoldable pub resolve_customer_account : String → String → String → S → Result String
  resolve_customer_account merchant_no account_no out_user_id s =
      elim (repo.get_merchant_by_no merchant_no s) [
        | none ↦ ok ""
        | some m ↦
            let from_account =
              if account_no == "" then "" else elim (repo.get_account account_no s) [
                | none ↦ ""
                | some a ↦ if a.merchant_no == m.merchant_no then a.account_no else ""
              ] in
            let from_out_user =
              if out_user_id == ""
              then ""
              else elim (repo.get_account_by_out_user_id merchant_no out_user_id s) [
                | none ↦ ""
                | some a ↦ a.account_no
              ] in
            if not (from_account == "")
              && not (from_out_user == "")
              && not (from_account == from_out_user)
            then err account_resolve_conflict
            else if not (from_account == "")
            then ok from_account
            else ok from_out_user
      ]

  -- `ResolveMerchantSystemAccount`
  unfoldable pub resolve_merchant_system_account :
      String → String → String → String → S → Result String
  resolve_merchant_system_account merchant_no account_no out_user_id account_type s =
      if not (out_user_id == "")
      then err out_user_id_not_allowed_for_system_account
      else elim (repo.get_merchant_by_no merchant_no s) [
        | none ↦ ok ""
        | some m ↦
            if not (account_no == "")
            then elim (repo.get_account account_no s) [
              | none ↦ ok ""
              | some a ↦ if a.merchant_no == m.merchant_no then ok a.account_no else ok ""
            ]
            else if account_type == account_type_budget
            then ok m.budget_account_no
            else if account_type == account_type_receivable
            then ok m.receivable_account_no
            else ok ""
      ]

  check_parties-accepted :
      (m : Merchant) (scene : String) (r : TransferRoutingResult) (s : S)
      → trim_space r.debit_account_no ≡ r.debit_account_no
      → trim_space r.credit_account_no ≡ r.credit_account_no
      → check_parties m scene r s ≡ none
      → validate_submit_transfer_accounts repo m.merchant_no scene r.debit_account_no
          r.credit_account_no s
        ≡ none
  unfolding check_parties validate_submit_transfer_accounts
  check_parties-accepted m scene r s td tc passed =
      elim (Option-cases (repo.get_account r.debit_account_no s)) [
        | inl gone ↦ grind (arith, gone, passed)
        | inr (da, fd) ↦ elim (Option-cases (repo.get_account r.credit_account_no s)) [
          | inl gone ↦ grind (arith, fd, gone, passed)
          | inr (ca, fc) ↦
              let same = λ (a : Account). trims_same a.merchant_no m.merchant_no in
              let d = same da in let c = same ca in grind (arith, fd, fc, td, tc, passed, d, c)
        ]
      ]

  -- What the routing finds, a submission of the same scene and merchant accepts, where the store
  -- answers with the merchant that it was asked for and the numbers have no white space around.
  pub resolve-accepted :
      (req : TransferRoutingRequest) (r : TransferRoutingResult) (s : S)
      → ((m : Merchant)
          → repo.get_merchant_by_no req.merchant_no s ≡ some m
          → m.merchant_no ≡ req.merchant_no)
      → trim_space r.debit_account_no ≡ r.debit_account_no
      → trim_space r.credit_account_no ≡ r.credit_account_no
      → resolve req s ≡ ok r
      → validate_submit_transfer_accounts repo req.merchant_no req.scene r.debit_account_no
          r.credit_account_no s
        ≡ none
  unfolding resolve
  resolve-accepted req r s named td tc found =
      elim (Option-cases (repo.get_merchant_by_no req.merchant_no s)) [
        | inl gone ↦ grind (arith, gone, found)
        | inr (m, fm) ↦
            let same : routed m req ≡ r = grind (arith, fm, found) in
            let passed : check_parties m req.scene r s ≡ none =
              subst (λ (x : TransferRoutingResult). check_parties m req.scene x s ≡ none) same
                (grind (arith, fm, found)) in
            rw (← named m fm) (check_parties-accepted m req.scene r s td tc passed)
      ]
