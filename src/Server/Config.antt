-- ===== src/Server/Config.antt =====
-- crates/blobstore-server/src/config.rs: the configuration and its defaults. The layers of the figment
-- crate that fill it are not modelled. Paths are texts.
use mert_blob_storage.Base.{ℕ, Bool, false, Option, none, List, []}
use mert_blob_storage.Base.Text.{Text, codes}

pub record ServerConfig : Type 0 where
  pub listen_addr : Text
  pub tls_enabled : Bool
  pub tls_cert_path : Option Text
  pub tls_key_path : Option Text
  pub default_account : Option Text

pub record StorageConfig : Type 0 where
  pub root_path : Text
  pub metadata_db_path : Text

pub record AccountConfig : Type 0 where
  pub name : Text
  pub key1 : Text
  pub key2 : Option Text

pub record OidcConfig : Type 0 where
  pub enabled : Bool
  pub issuer : Text
  pub audience : Text
  pub jwks_uri : Text
  pub jwks_cache_ttl_seconds : ℕ

pub record LoggingConfig : Type 0 where
  pub format : Text
  pub level : Text

pub record Config : Type 0 where
  pub server : ServerConfig
  pub storage : StorageConfig
  pub accounts : List AccountConfig
  pub oidc : OidcConfig
  pub logging : LoggingConfig
  pub service_version : Text

abbrev pub default_server : ServerConfig
default_server = record {
  listen_addr = codes "0.0.0.0:8443";
  tls_enabled = false;
  tls_cert_path = none;
  tls_key_path = none;
  default_account = none;
}

abbrev pub default_storage : StorageConfig
default_storage = record {
  root_path = codes "./data";
  metadata_db_path = codes "./data/metadata.sqlite3";
}

-- the derived default
abbrev pub default_oidc : OidcConfig
default_oidc = record {
  enabled = false;
  issuer = [];
  audience = [];
  jwks_uri = [];
  jwks_cache_ttl_seconds = 0;
}

abbrev pub default_logging : LoggingConfig
default_logging = record { format = codes "pretty"; level = codes "info" }

abbrev pub default_service_version : Text
default_service_version = codes "2021-08-06"

abbrev pub default_config : Config
default_config = record {
  server = default_server;
  storage = default_storage;
  accounts = [];
  oidc = default_oidc;
  logging = default_logging;
  service_version = default_service_version;
}
