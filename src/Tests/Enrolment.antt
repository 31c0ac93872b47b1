-- ===== src/Tests/Enrolment.antt =====
-- The theorems on new merchants and customers, applied to a registry that keeps its accounts in a list.
use coin.Base.{◌≡◌, refl, String, some, none, List, [], ◌∷◌, ◌++◌, ◌==◌, if◌then◌else◌}
use coin.Domain.Account.{Account}
use coin.Text.{trim_space, trim_left, trim_right}
use coin.Text.Hash.{bytes}
use coin.Codes.Luhn.{is_valid_account_no}
use coin.Ledger.Schema.{ok}
use coin.Enrolment.{
  merchant_of, customer_account, open_account, ◌>>=◌, ◌>>◌, fail_if, Registry, create_merchant,
  ensure_default_customer_account,
}
use coin.Enrolment.Opened.{
  Ensures, IsEnrolled, create_merchant-IsEnrolled, IsOpened,
  ensure_default_customer_account-IsOpened,
}

abbrev account_no_of : String → String
account_no_of t =
    if t == "BUDGET"
    then "6217700001010000011"
    else if t == "RECEIVABLE"
    then "6217700001020000019"
    else if t == "CUSTOMER"
    then "6217700001100000012"
    else "6217700001110000010"

abbrev registry : Registry (List Account)
registry = record {
  get_merchant_by_no = λ _ _. none;
  get_customer_by_out_user_id = λ _ _ _. none;
  get_account_by_customer_no = λ _ _ _. none;
  get_merchant_feature_config = λ _ s. (ok none, s);
  create_customer = λ _ s. (ok tt, s);
  create_account = λ a s. (ok tt, a ∷ s);
  create_merchant_with_accounts = λ _ accounts s. (ok tt, accounts ++ s);
  new_uuid = λ s. (ok "1", s);
  new_merchant_no = λ s. (ok "1000100000000428", s);
  new_customer_no = λ s. (ok "2", s);
  new_account_no = λ _ t s. (ok (account_no_of t), s);
}

create_merchant-IsEnrolled_example :
    Ensures (IsEnrolled registry) (create_merchant registry "" "Acme" [])
create_merchant-IsEnrolled_example = create_merchant-IsEnrolled registry "" "Acme" []

-- The customer C has an account, another has none.
abbrev with_account : Registry (List Account)
with_account = record registry {
  get_account_by_customer_no =
      λ _ c _. if c == "C" then some (customer_account "M" c "9") else none;
}

ensure_default_customer_account-IsOpened_example :
    Ensures
      (IsOpened with_account "M" "C" [])
      (ensure_default_customer_account with_account "M" "C" [])
ensure_default_customer_account-IsOpened_example =
    ensure_default_customer_account-IsOpened with_account "M" "C" []

-- It is found, and another customer is given one.
account_found : ensure_default_customer_account with_account "M" "C" [] ≡ (ok "9", [])
unfolding ensure_default_customer_account ◌>>=◌
account_found = refl

account_opened :
    ensure_default_customer_account with_account "M" "D" []
    ≡ (ok "6217700001100000012", customer_account "M" "D" "6217700001100000012" ∷ [])
unfolding ensure_default_customer_account open_account ◌>>=◌ ◌>>◌ fail_if is_valid_account_no bytes
account_opened = refl

-- The theorem holds of a merchant that is made.
merchant_made :
    (create_merchant registry "" "Acme" []).0
    ≡ ok (
        merchant_of "1" "1000100000000428" "Acme" "6217700001010000011" "6217700001020000019"
          "6217700001110000010")
unfolding create_merchant ◌>>=◌ ◌>>◌ fail_if trim_space trim_left trim_right is_valid_account_no
    bytes
merchant_made = refl
