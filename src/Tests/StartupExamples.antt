-- ===== src/Tests/StartupExamples.antt =====
-- The theorem about the start, with an account that is configured twice and with no account.
use mert_blob_storage.Base.{◌≡◌, none, some, List, [], ◌∷◌}
use mert_blob_storage.Base.Text.{codes}
use mert_blob_storage.Storage.Exec.{ok}
use mert_blob_storage.Storage.MetadataDb.Accounts.{account_keys}
use mert_blob_storage.Storage.Proofs.Calm.{calm}
use mert_blob_storage.Server.Config.{AccountConfig}
use mert_blob_storage.Server.Startup.{ensure_accounts}
use mert_blob_storage.Server.Proofs.{ensure_accounts_keys}
use mert_blob_storage.Tests.Sample.{sample, start}
use mert_blob_storage.Tests.Runs.{runs_base}

abbrev accounts : List AccountConfig
accounts =
    record { name = codes "acct"; key1 = codes "old"; key2 = none }
    ∷ record { name = codes "acct"; key1 = codes "new"; key2 = some (codes "n2") }
    ∷ []

configured_start :
    (account_keys
      (codes "acct")
      (ensure_accounts sample (codes "generated") accounts (calm start.db [] 0)).1).0
    ≡ ok (some (codes "new", some (codes "n2")))
unfolding runs_base
configured_start =
    ensure_accounts_keys sample (codes "generated") accounts (codes "acct") start.db [] 0

ensure_accounts_keys_example :
    (account_keys
      (codes "devstoreaccount1")
      (ensure_accounts sample (codes "generated") [] (calm start.db [] 0)).1).0
    ≡ ok (some (codes "generated", none))
unfolding runs_base
ensure_accounts_keys_example =
    ensure_accounts_keys sample (codes "generated") [] (codes "devstoreaccount1") start.db [] 0
