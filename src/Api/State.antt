-- ===== src/Api/State.antt =====
-- crates/blobstore-api/src/state.rs: what the handlers share, and the libraries that they call.
use mert_blob_storage.Base.{Option}
use mert_blob_storage.Base.Text.{Text}
use mert_blob_storage.Storage.Externals.{Externals}
use mert_blob_storage.Storage.Exec.{Exec}
use mert_blob_storage.Storage.Backend.{StorageBackend}
use mert_blob_storage.Auth.Types.{AuthError}
use mert_blob_storage.Auth.Externals.{Crypto, Unicode}
use mert_blob_storage.Auth.Bearer.{Claims}
use mert_blob_storage.Xml.BlockList.{XmlReader}
use mert_blob_storage.Api.Http.{HttpLibrary}

pub record AppState : Type 0 where
  pub backend : StorageBackend
  -- `bearer::validate_token` over the cache of keys, if it is configured
  pub oidc : Option (Text → Exec AuthError Claims)
  pub service_version : Text
  pub service_endpoint : Text
  pub default_account : Option Text

pub record Libraries : Type 0 where
  pub externals : Externals
  pub crypto : Crypto
  pub unicode : Unicode
  pub http : HttpLibrary
  pub xml : XmlReader
