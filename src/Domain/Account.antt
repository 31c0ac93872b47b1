-- ===== src/Domain/Account.antt =====
-- internal/domain/account.go: an account and what its capabilities allow.
pub mod Debit
use coin.Base.{String, Bool, true, false, not, Option, none, some, if◌then◌else◌}
use coin.Int.{ℤ, pos, ltb_ℤ, leb_ℤ, eqb_ℤ}
use coin.Int.Word.{add64}
use coin.Domain.Error.{
  Error, account_forbid_debit, account_forbid_credit, account_forbid_transfer, insufficient_balance,
}

pub record Account : Type 0 where
  pub account_no : String
  pub merchant_no : String
  pub customer_no : String
  pub account_type : String
  pub allow_overdraft : Bool
  pub max_overdraft_limit : ℤ
  pub allow_debit_out : Bool
  pub allow_credit_in : Bool
  pub allow_transfer : Bool
  pub book_enabled : Bool
  pub balance : ℤ

unfoldable pub can_debit_out : Account → Option Error
can_debit_out a = if not a.allow_debit_out then some account_forbid_debit else none

-- The tests of `CanDebit` behind its capability, which internal/db/repository.go repeats as
-- `validateDebitBalanceOnly`.
unfoldable pub validate_debit_balance_only : Account → ℤ → Option Error
validate_debit_balance_only a amount =
    if leb_ℤ amount (pos 0)
    then some insufficient_balance
    else if not a.allow_overdraft
    then (if ltb_ℤ a.balance amount then some insufficient_balance else none)
    else if eqb_ℤ a.max_overdraft_limit (pos 0)
    then none
    else if ltb_ℤ (add64 a.balance a.max_overdraft_limit) amount
    then some insufficient_balance
    else none

unfoldable pub can_debit : Account → ℤ → Option Error
unfolding can_debit_out
can_debit a amount = elim (can_debit_out a) [
  | some err ↦ some err
  | none ↦
      if leb_ℤ amount (pos 0)
      then some insufficient_balance
      else if not a.allow_overdraft
      then (if ltb_ℤ a.balance amount then some insufficient_balance else none)
      else if eqb_ℤ a.max_overdraft_limit (pos 0)
      then none
      else if ltb_ℤ (add64 a.balance a.max_overdraft_limit) amount
      then some insufficient_balance
      else none
]

unfoldable pub can_credit : Account → Option Error
can_credit a = if not a.allow_credit_in then some account_forbid_credit else none

unfoldable pub can_transfer : Account → Option Error
can_transfer a = if not a.allow_transfer then some account_forbid_transfer else none
