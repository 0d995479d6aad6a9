-- ===== src/Server/Startup.antt =====
-- `main` of crates/blobstore-server/src/main.rs, from the open backend to the state of the handlers. The
-- sockets, TLS and the log are not modelled; the generated key and the validation over a new cache of
-- keys are parameters.
use mert_blob_storage.Base.{none, some, List, [], ◌∷◌, ◌++◌, ltb, if◌then◌else◌}
use mert_blob_storage.Base.Text.{Text, codes}
use mert_blob_storage.Core.Error.{AzureError}
use mert_blob_storage.Storage.Externals.{Externals}
use mert_blob_storage.Storage.Exec.{Exec, ◌>>◌, pure}
use mert_blob_storage.Storage.Backend.{fs_backend}
use mert_blob_storage.Storage.MetadataDb.Accounts.{ensure_account}
use mert_blob_storage.Auth.Types.{AuthError}
use mert_blob_storage.Auth.Bearer
use mert_blob_storage.Auth.Bearer.{Claims}
use mert_blob_storage.Api.State.{AppState}
use mert_blob_storage.Server.Config.{Config, AccountConfig, OidcConfig}

module _ (x : Externals) where
  -- the loop over `cfg.accounts`
  unfoldable pub ensure_all : List AccountConfig → Exec AzureError (Unit {0})
  ensure_all [] = pure tt
  ensure_all (acc ∷ accounts) = do ensure_account x acc.name acc.key1 acc.key2; ensure_all accounts

  -- with no account, one for development, under the key that was generated
  unfoldable pub ensure_accounts : Text → List AccountConfig → Exec AzureError (Unit {0})
  unfolding ensure_all
  ensure_accounts key [] = ensure_account x (codes "devstoreaccount1") key none
  ensure_accounts key (acc ∷ accounts) = ensure_all (acc ∷ accounts)

-- `jwks_cache_ttl_seconds.max(60)`
unfoldable pub cache_config : OidcConfig → Bearer.OidcConfig
cache_config cfg = record {
  issuer = cfg.issuer;
  audience = cfg.audience;
  jwks_uri = cfg.jwks_uri;
  cache_ttl = if ltb cfg.jwks_cache_ttl_seconds 60 then 60 else cfg.jwks_cache_ttl_seconds;
}

unfoldable pub service_endpoint : Config → Text
service_endpoint cfg =
    (if cfg.server.tls_enabled then codes "https" else codes "http")
    ++ (codes "://" ++ (cfg.server.listen_addr ++ codes "/"))

-- `validate` stands for the validation over `JwksCache::new`
unfoldable pub app_state :
    Externals → (Bearer.OidcConfig → Text → Exec AuthError Claims) → Config → AppState
unfolding cache_config service_endpoint
app_state x validate cfg = record {
  backend = fs_backend x cfg.storage.root_path;
  oidc = if cfg.oidc.enabled then some (validate (cache_config cfg.oidc)) else none;
  service_version = cfg.service_version;
  service_endpoint = service_endpoint cfg;
  default_account = cfg.server.default_account;
}
