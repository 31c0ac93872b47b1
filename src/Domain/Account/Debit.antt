-- ===== src/Domain/Account/Debit.antt =====
-- When account.go lets an amount be debited.
use coin.Base.{◌^◌, ◌≤◌, ◌≡◌, ◌≢◌, ◌↔◌, true, false, none, some, arith}
use coin.Int.{ℤ, pos, pos_part, ◌+ℤ◌, ◌≤ℤ◌, ◌<ℤ◌, +ℤ_parts, +ℤ_one_sign}
use coin.Int.Word.{IsInt64, add64_exact, add64_above}
use coin.Domain.Error.{insufficient_balance}
use coin.Domain.Account.{Account, can_debit, validate_debit_balance_only}

-- The overdraft rule of an account, over the integers: without overdraft the balance stays at or
-- above zero, with a limit it stays at or above minus the limit, and a limit of zero is no limit.
pub record MayDebit (a : Account) (amount : ℤ) : Type 0 where
  pub positive : pos 0 <ℤ amount
  pub covered : a.allow_overdraft ≡ false → amount ≤ℤ a.balance
  pub within :
      a.allow_overdraft ≡ true
      → a.max_overdraft_limit ≢ pos 0
      → amount ≤ℤ (a.balance +ℤ a.max_overdraft_limit)

-- While balance + limit fits an int64, the balance test passes exactly when the rule allows it.
pub validate_debit_balance_only_iff :
    (a : Account) (amount : ℤ)
    → IsInt64 (a.balance +ℤ a.max_overdraft_limit)
    → (validate_debit_balance_only a amount ≡ none) ↔ MayDebit a amount
unfolding validate_debit_balance_only
validate_debit_balance_only_iff a amount h = (
  λ e. ground (arith, add64_exact a.balance a.max_overdraft_limit h),
  λ m. ground (arith, add64_exact a.balance a.max_overdraft_limit h, m.covered, m.within),
)

-- `CanDebit` is the capability and then the balance test.
pub can_debit_lem :
    (a : Account) (amount : ℤ)
    → (can_debit a amount ≡ none)
      ↔ ((a.allow_debit_out ≡ true) × (validate_debit_balance_only a amount ≡ none))
unfolding can_debit validate_debit_balance_only
can_debit_lem a amount = (λ e. ground arith, λ (p, q). ground arith)

-- While balance + limit fits an int64, an account can be debited exactly when it may be debited at
-- all and the overdraft rule allows the amount.
pub can_debit_iff :
    (a : Account) (amount : ℤ)
    → IsInt64 (a.balance +ℤ a.max_overdraft_limit)
    → (can_debit a amount ≡ none) ↔ ((a.allow_debit_out ≡ true) × MayDebit a amount)
can_debit_iff a amount h =
    let rule = validate_debit_balance_only_iff a amount h in
    let parts = can_debit_lem a amount in
    (λ e. ((parts.0 e).0, rule.0 ((parts.0 e).1)), λ (p, m). parts.1 (p, rule.1 m))

-- Where overdraft is allowed, and the balance and the limit are int64 whose sum passes the largest
-- int64, every amount is refused for want of balance.
pub can_debit_overflow :
    (a : Account) (amount : ℤ)
    → a.allow_overdraft ≡ true
    → IsInt64 a.balance
    → IsInt64 a.max_overdraft_limit
    → 2 ^ 63 ≤ pos_part (a.balance +ℤ a.max_overdraft_limit)
    → validate_debit_balance_only a amount ≡ some insufficient_balance
unfolding validate_debit_balance_only
can_debit_overflow a amount o hb hl big =
    let sum = +ℤ_parts a.balance a.max_overdraft_limit in
    let above = +ℤ_one_sign a.balance a.max_overdraft_limit in
    let wrapped = add64_above a.balance a.max_overdraft_limit big (omega (arith, sum, above)) in
    ground (arith, wrapped, sum, above)
