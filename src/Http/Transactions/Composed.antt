-- ===== src/Http/Transactions/Composed.antt =====
-- `handleRefund` and `handleTransfer` over the routing and the submission of internal/service.
use coin.Base.{String}
use coin.Domain.Account.{Account}
use coin.Ledger.Schema.{ok}
use coin.Transfer.{Repository, submit}
use coin.Transfer.Routing
use coin.Transfer.Routing.{resolve, resolve_customer_account}
use coin.Http.Services.{Services}

module _ {S : Type 0} (repo : Repository S) (txn_no : String) (others : Services S) where
  -- The services that are modelled over the repository, with the id that `Submit` is given, beside
  -- the others.
  unfoldable pub composed : Services S
  composed = record others {
    get_merchant_by_no = repo.get_merchant_by_no;
    resolve = resolve repo;
    resolve_customer_account = resolve_customer_account repo;
    get_account = repo.get_account;
    submit = submit repo (ok txn_no);
  }
