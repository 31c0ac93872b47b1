-- ===== src/Tests/Codes.antt =====
-- The theorems on codes, accounts and the state machine, applied.
use coin.Base.{
  ℕ, ◌≤◌, ◌^◌, ◌≡◌, ◌≢◌, ◌↔◌, refl, String, true, false, none, some, List, [], ◌∷◌, ◌++◌, arith,
  eq_iff,
}
use coin.Int.{pos, ◌+ℤ◌, pos_part}
use coin.Int.Word.{IsInt64}
use coin.Domain.Error.{insufficient_balance}
use coin.Domain.Account.{Account, can_debit, validate_debit_balance_only}
use coin.Domain.Account.Debit.{MayDebit, can_debit_iff, can_debit_overflow}
use coin.Domain.StateMachine.{new_txn_state_machine, transit}
use coin.Domain.StateMachine.Paths.{run}
use coin.Codes.Luhn.{
  only_digits, luhn_sum, luhn_digit, compute_luhn_check_digit, append_luhn, is_valid_luhn,
}
use coin.Codes.Luhn.Sums.{IsDigit}
use coin.Codes.Luhn.Detection.{single_digit_error, transposition_error}
use coin.Tests.Data.{alice}

abbrev body : List ℕ
body = 49 ∷ 56 ∷ []

-- 182 is a valid code.
body_valid : is_valid_luhn (body ++ 50 ∷ []) ≡ true
unfolding is_valid_luhn only_digits luhn_sum luhn_digit
body_valid = refl

body_digits : only_digits body ≡ true
unfolding only_digits
body_digits = refl

body_extended : append_luhn body ≡ some (body ++ 50 ∷ [])
unfolding append_luhn compute_luhn_check_digit only_digits luhn_sum luhn_digit
body_extended = refl

IsDigit-50 : IsDigit 50
IsDigit-50 = (omega arith, omega arith)

IsDigit-55 : IsDigit 55
IsDigit-55 = (omega arith, omega arith)

alice_small : IsInt64 (alice.balance +ℤ alice.max_overdraft_limit)
unfolding ◌+ℤ◌
alice_small = record { above = omega arith; below = omega arith }

single_digit_error_example : is_valid_luhn ((49 ∷ []) ++ 55 ∷ 50 ∷ []) ≡ false
single_digit_error_example =
    single_digit_error (49 ∷ []) (50 ∷ []) 56 55 body_valid IsDigit-55 (λ e. omega (arith, e))

transposition_error_example : is_valid_luhn ([] ++ 56 ∷ 49 ∷ 50 ∷ []) ≡ false
transposition_error_example =
    transposition_error [] (50 ∷ []) 49 56 body_valid (λ e. omega (arith, e))
      (λ e. omega (arith, e.1)) (λ e. omega (arith, e.0))

abbrev happy_path : List String
happy_path = "PAY_SUCCESS" ∷ "RECV_SUCCESS" ∷ []

init_ne_recv : ◌≢◌ {A = String} "INIT" "RECV_SUCCESS"
init_ne_recv = ground (arith, eq_iff "INIT" "RECV_SUCCESS")

happy_path_ends : (run (new_txn_state_machine "INIT") happy_path).0.status ≡ "RECV_SUCCESS"
unfolding run transit
happy_path_ends = refl

can_debit_iff_example :
    (can_debit alice (pos 30) ≡ none) ↔ ((alice.allow_debit_out ≡ true) × MayDebit alice (pos 30))
can_debit_iff_example = can_debit_iff alice (pos 30) alice_small

abbrev rich : Account
rich = record alice {
  allow_overdraft = true;
  max_overdraft_limit = pos (2 ^ 62);
  balance = pos (2 ^ 62);
}

rich_small : IsInt64 (pos (2 ^ 62))
rich_small = record { above = omega arith; below = omega arith }

rich_wraps : 2 ^ 63 ≤ pos_part (rich.balance +ℤ rich.max_overdraft_limit)
unfolding ◌+ℤ◌
rich_wraps = omega arith

can_debit_overflow_example : validate_debit_balance_only rich (pos 30) ≡ some insufficient_balance
can_debit_overflow_example = can_debit_overflow rich (pos 30) refl rich_small rich_small rich_wraps
