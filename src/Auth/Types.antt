-- ===== src/Auth/Types.antt =====
-- crates/blobstore-auth/src/lib.rs: the errors and the outcome of authentication.
use mert_blob_storage.Base.{ℕ, Option}
use mert_blob_storage.Base.Text.{Text}

pub data AuthError : Type 0 where
  no_credentials malformed_credential signature_mismatch unknown_signing_key jwks_unavailable
        expired not_yet_valid permission_denied resource_scope_mismatch clock_skew_too_large
        unknown_account :
      AuthError

pub data AuthMethod : Type 0 where
  shared_key sas anonymous : AuthMethod
  bearer : Option Text → AuthMethod

pub record AuthContext : Type 0 where
  pub account : Text
  pub method : AuthMethod

pub data Permission : Type 0 where
  read write delete list add create : Permission

unfoldable pub sas_char : Permission → ℕ
sas_char read = b'r'
sas_char write = b'w'
sas_char delete = b'd'
sas_char list = b'l'
sas_char add = b'a'
sas_char create = b'c'
