-- ===== src/Api/Auth.antt =====
-- crates/blobstore-api/src/auth.rs: the middleware that authenticates and authorises a request.
use mert_blob_storage.Base.{Bool, true, false, not, Option, none, some, [], ◌∷◌, eqb, if◌then◌else◌}
use mert_blob_storage.Base.Text.{Text, codes, ◌==◌, is_empty, split_once}
use mert_blob_storage.Core.Error.{
  AzureError, azure_error, authentication_failed, authorization_failure,
  authorization_permission_mismatch, authorization_resource_type_mismatch, container_not_found,
}
use mert_blob_storage.Core.Model.{PublicAccessLevel, allows_blob_read, allows_container_listing}
use mert_blob_storage.Storage.Exec.{Exec, Result, ok, err, ◌>>=◌, lift, raise, map_err}
use mert_blob_storage.Storage.Backend.{StorageBackend}
use mert_blob_storage.Auth.Types.{
  AuthError, permission_denied, resource_scope_mismatch, AuthContext, sas, anonymous, Permission,
  read, write, delete, list,
}
use mert_blob_storage.Auth.Externals.{Crypto}
use mert_blob_storage.Auth.Sas.{
  SasParams, verify_signature, check_validity_window, resource_scope_matches, has_permission,
}
use mert_blob_storage.Api.Http.{Method, get, head, put, delete_method, other_method}

unfoldable pub trim_start_slashes : Text → Text
trim_start_slashes [] = []
trim_start_slashes (c ∷ s) = let rest = trim_start_slashes s in if eqb c b'/' then rest else c ∷ s

-- `.filter(|s| !s.is_empty())`
abbrev pub non_empty : Option Text → Option Text
non_empty none = none
non_empty (some []) = none
non_empty (some (c ∷ s)) = some (c ∷ s)

abbrev pub after_container :
    Text → Option (Text × Text) → Text → Option Text × Option Text × Option Text
after_container account none rest = (some account, non_empty (some rest), none)
after_container account (some (container, blob)) rest =
    (some account, non_empty (some container), non_empty (some blob))

abbrev pub after_account : Option (Text × Text) → Text → Option Text × Option Text × Option Text
after_account none rest = (some rest, none, none)
after_account (some (account, rest)) _ = after_container account (split_once b'/' rest) rest

-- `splitn(3, '/')` is two splits at the first slash
unfoldable pub split_path : Text → Option Text × Option Text × Option Text
split_path path =
    let trimmed = trim_start_slashes path in
    if is_empty trimmed then (none, none, none) else after_account (split_once b'/' trimmed) trimmed

abbrev pub is_list : Option Text → Bool
is_list none = false
is_list (some comp) = comp == codes "list"

abbrev pub method_permission : Method → Permission
method_permission get = read
method_permission head = read
method_permission delete_method = delete
method_permission put = write
method_permission (other_method name) = write

unfoldable pub required_permission : Method → Option Text → Permission
required_permission method comp = if is_list comp then list else method_permission method

unfoldable pub map_auth_error : AuthError → AzureError
map_auth_error permission_denied = azure_error authorization_permission_mismatch
map_auth_error resource_scope_mismatch = azure_error authorization_resource_type_mismatch
map_auth_error _ = azure_error authentication_failed

unfoldable pub signed_blob : SasParams → Option Text → Option Text
signed_blob params blob = if params.sr == codes "c" then none else blob

module _ (x : Crypto) (account key1 : Text) (key2 : Option Text) (params : SasParams) where
  abbrev pub granted : Bool → Permission → Result AzureError AuthContext
  granted is_blob_scope permission =
      if not (resource_scope_matches params is_blob_scope)
      then err (azure_error authorization_resource_type_mismatch)
      else if not (has_permission params permission)
      then err (azure_error authorization_permission_mismatch)
      else ok (record { account = account; method = sas })

  unfoldable pub verify_sas :
      Option Text → Option Text → Bool → Permission → Result AzureError AuthContext
  verify_sas none blob is_blob_scope permission = err (azure_error authorization_failure)
  verify_sas (some container) blob is_blob_scope permission =
      elim (verify_signature x account container (signed_blob params blob) params key1 key2) [
        | err e ↦ err (map_auth_error e)
        | ok _ ↦ elim (check_validity_window x params) [
          | err e ↦ err (map_auth_error e)
          | ok _ ↦ granted is_blob_scope permission
        ]
      ]

abbrev pub is_read : Method → Bool
is_read get = true
is_read head = true
is_read _ = false

-- the two functions of crates/blobstore-auth/src/anonymous.rs pass the call on
unfoldable pub anonymous_allowed : Method → Bool → PublicAccessLevel → Bool
anonymous_allowed method is_blob_scope level =
    if not (is_read method)
    then false
    else if is_blob_scope
    then allows_blob_read level
    else allows_container_listing level

module _ (backend : StorageBackend) where
  abbrev pub decide : Text → Bool → Result AzureError AuthContext
  decide account allowed =
      if allowed
      then ok (record { account = account; method = anonymous })
      else err (azure_error container_not_found)

  unfoldable pub verify_anonymous : Text → Option Text → Bool → Method → Exec AzureError AuthContext
  verify_anonymous account none is_blob_scope method = raise (azure_error authentication_failed)
  verify_anonymous account (some container) is_blob_scope method = do
    props ←
        map_err (λ e. azure_error container_not_found)
          (backend.get_container_properties account container)
    lift (decide account (anonymous_allowed method is_blob_scope props.public_access))
