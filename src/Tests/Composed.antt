-- ===== src/Tests/Composed.antt =====
-- The handlers over the modelled services, run against the store of the tests of these.
use coin.Base.{List}
use coin.Domain.{TransferTxn}
use coin.Domain.Account.{Account}
use coin.Http.{Reply}
use coin.Http.Services.{Services}
use coin.Http.Transactions.{Created}
use coin.Http.Transactions.Composed.{composed}
use coin.Tests.Services.{memory}
use coin.Tests.Http.{services}

abbrev both : Services (List TransferTxn)
both = composed memory "7" services

abbrev reply : Reply Created
reply = record { status = 201; body = record { txn_no = "7"; status = "INIT" } }
