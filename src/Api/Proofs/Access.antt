-- ===== src/Api/Proofs/Access.antt =====
-- Who gets access: shared access signatures, anonymous readers, and the parts of a path.
use mert_blob_storage.Base.{
  ℕ, ◌≡◌, ◌↔◌, ◌⊎◌, inl, inr, refl, Bool, true, false, Option, none, some, [], ◌∷◌, ◌++◌, arith,
  Option-cases, Bool-cases, if◌then◌else◌, eqb,
}
use mert_blob_storage.Base.Text.{Text, codes, ◌==◌, contains, split_once, is_empty}
use mert_blob_storage.Core.Model.{PublicAccessLevel, allows_blob_read, allows_container_listing}
use mert_blob_storage.Storage.Exec.{World, Result, ok, err, ◌>>=◌, map_err}
use mert_blob_storage.Storage.Types.{ContainerProps}
use mert_blob_storage.Storage.Backend.{StorageBackend}
use mert_blob_storage.Auth.Types.{AuthContext, sas, anonymous, Permission, sas_char}
use mert_blob_storage.Auth.Externals.{Crypto}
use mert_blob_storage.Auth.Sas.{SasParams, string_to_sign, has_permission}
use mert_blob_storage.Auth.Proofs.SharedKey.{KeySigns}
use mert_blob_storage.Auth.Proofs.Sas.{
  verify_signature_exact, Unexpired, Begun, check_validity_window_exact, resource_scope_exact,
}
use mert_blob_storage.Api.Http.{Method, get, head, put, delete_method, other_method}
use mert_blob_storage.Api.Auth.{
  decide, non_empty, after_container, trim_start_slashes, split_path, signed_blob, verify_sas,
  anonymous_allowed, verify_anonymous,
}

-- A shared access signature is accepted exactly when it is the HMAC, under the first key of the account
-- or under the second if there is one, of its parameters for the container, if its resource is "c", or
-- for the blob of the request, if it is any other, it is not expired and
-- has begun, its resource is the container, or is a blob and the request names a blob, and its
-- permissions hold the character of the one that is required.
pub verify_sas_exact :
    (x : Crypto) (account key1 : Text) (key2 : Option Text) (params : SasParams) (container : Text)
    (blob : Option Text) (is_blob_scope : Bool) (permission : Permission)
    → (verify_sas x account key1 key2 params (some container) blob is_blob_scope permission
        ≡ ok (record { account = account; method = sas }))
      ↔ (KeySigns x key1 key2
            (string_to_sign account container
              (if params.sr == codes "c" then none else blob)
              params)
            params.sig
          × (Unexpired x params.se × Begun x params.st)
          × ((params.sr ≡ codes "c") ⊎ ((params.sr ≡ codes "b") × (is_blob_scope ≡ true)))
          × (contains (sas_char permission) params.sp ≡ true))
unfolding verify_sas has_permission signed_blob
verify_sas_exact x account key1 key2 params container blob is_blob_scope permission = ground (
  arith,
  verify_signature_exact x account container (signed_blob params blob) params key1 key2,
  check_validity_window_exact x params,
  resource_scope_exact params is_blob_scope,
)

module _ {E A : Type 0} where
  Result-cases : (r : Result E A) → ((a : A) × (r ≡ ok a)) ⊎ ((e : E) × (r ≡ err e))
  Result-cases (ok a) = inl (a, refl)
  Result-cases (err e) = inr (e, refl)

decide_lem :
    (backend : StorageBackend) (account : Text) (is_blob_scope : Bool) (level : PublicAccessLevel)
    (method : Method) (ctx : AuthContext)
    → decide backend account (anonymous_allowed method is_blob_scope level) ≡ ok ctx
    → (ctx ≡ record { account = account; method = anonymous })
      × ((method ≡ get) ⊎ (method ≡ head))
      × ((if is_blob_scope then allows_blob_read level else allows_container_listing level) ≡ true)
unfolding anonymous_allowed
decide_lem backend account is_blob_scope level get ctx h = ground arith
decide_lem backend account is_blob_scope level head ctx h = ground arith
decide_lem backend account is_blob_scope level put ctx h = ground arith
decide_lem backend account is_blob_scope level delete_method ctx h = ground arith
decide_lem backend account is_blob_scope level (other_method name) ctx h = ground arith

-- Over any storage backend, a request without credentials is let in only to GET or HEAD, in a
-- container whose properties the backend returns, and the container's access level allows it: reading
-- blobs for a request that names a blob, listing for one that does not. Any other request is refused.
pub verify_anonymous_reads :
    (backend : StorageBackend) (account : Text) (container : Option Text) (is_blob_scope : Bool)
    (method : Method) (w : World) (ctx : AuthContext)
    → (verify_anonymous backend account container is_blob_scope method w).0 ≡ ok ctx
    → (ctx ≡ record { account = account; method = anonymous })
      × ((method ≡ get) ⊎ (method ≡ head))
      × ((name : Text) × (props : ContainerProps) × (container ≡ some name)
          × ((backend.get_container_properties account name w).0 ≡ ok props)
          × ((if is_blob_scope
                then allows_blob_read props.public_access
                else allows_container_listing props.public_access)
              ≡ true))
unfolding verify_anonymous anonymous_allowed ◌>>=◌ map_err
verify_anonymous_reads backend account none is_blob_scope method w ctx h = ground arith
verify_anonymous_reads backend account (some name) is_blob_scope method w ctx h =
    elim (Result-cases (backend.get_container_properties account name w).0) [
      | inr (e, q) ↦ ground arith
      | inl (props, q) ↦
          let verdict : decide backend account
                (anonymous_allowed method is_blob_scope props.public_access)
              ≡ ok ctx =
            cc (q, h) in
          let (a, b, c) =
            decide_lem backend account is_blob_scope props.public_access method ctx verdict in
          (a, b, (name, props, refl, q, c))
    ]

split_once-left : (sep : ℕ) (s l r : Text) → split_once sep s ≡ some (l, r) → contains sep l ≡ false
unfolding split_once contains
split_once-left sep [] l r h = ground arith
split_once-left sep (c ∷ s) l r h = elim (Option-cases (split_once sep s)) [
  | inl e ↦ ground arith
  | inr ((p, q), e) ↦ ground (arith, split_once-left sep s p q)
]

pub split_once-append :
    (sep : ℕ) (l r : Text) → contains sep l ≡ false → split_once sep (l ++ sep ∷ r) ≡ some (l, r)
unfolding split_once contains
split_once-append sep [] r h = ground arith
split_once-append sep (c ∷ l) r h = ground (arith, split_once-append sep l r)

split_once_slash : (sep : ℕ) (s : Text) → split_once sep s ≡ none → contains sep s ≡ false
unfolding split_once contains
split_once_slash sep [] h = refl
split_once_slash sep (c ∷ s) h = elim (Option-cases (split_once sep s)) [
  | inl e ↦ ground (arith, split_once_slash sep s)
  | inr ((p, q), e) ↦ ground arith
]

-- The middleware finds in a path that names an account, a container and a blob just these three, the
-- slashes of the blob's name included, where the first two are not empty and hold no slash, and the
-- blob's name is not empty.
pub split_path_parts :
    (a c b : Text) (d e f : ℕ)
    → contains b'/' (d ∷ a) ≡ false
    → contains b'/' (e ∷ c) ≡ false
    → split_path (b'/' ∷ d ∷ a ++ (b'/' ∷ e ∷ c ++ (b'/' ∷ f ∷ b)))
      ≡ (some (d ∷ a), some (e ∷ c), some (f ∷ b))
unfolding split_path trim_start_slashes is_empty contains
split_path_parts a c b d e f h k =
    let first = split_once-append b'/' (d ∷ a) ((e ∷ c) ++ b'/' ∷ f ∷ b) h in
    let second = split_once-append b'/' (e ∷ c) (f ∷ b) k in
    let plain : eqb d b'/' ≡ false = ground arith in rw plain (rw first (rw second))

abbrev Named : Option Text → Type 0
Named none = Unit {0}
Named (some s) = contains b'/' s ≡ false

Named-non_empty : (s : Text) → contains b'/' s ≡ false → Named (non_empty (some s))
Named-non_empty [] h = tt
Named-non_empty (c ∷ s) h = h

-- the account and the container that are found in a path hold no slash
abbrev AreNames : Option Text × Option Text × Option Text → Type 0
AreNames (account, container, blob) = Named account × Named container

after_container-AreNames :
    (account rest : Text)
    → contains b'/' account ≡ false
    → AreNames (after_container account (split_once b'/' rest) rest)
after_container-AreNames account rest h = elim (Option-cases (split_once b'/' rest)) [
  | inl e ↦ rw e (h, Named-non_empty rest (split_once_slash b'/' rest e))
  | inr ((p, q), e) ↦ rw e (h, Named-non_empty p (split_once-left b'/' rest p q e))
]

pub split_path-AreNames : (path : Text) → AreNames (split_path path)
unfolding split_path
split_path-AreNames path =
    let trimmed = trim_start_slashes path in
    elim (Bool-cases (is_empty trimmed)) [
      | inl e ↦ rw e (tt, tt)
      | inr e ↦ elim (Option-cases (split_once b'/' trimmed)) [
        | inl q ↦ rw (e, q) (split_once_slash b'/' trimmed q, tt)
        | inr ((account, rest), q) ↦
            rw (e, q)
              (after_container-AreNames account rest (split_once-left b'/' trimmed account rest q))
      ]
    ]
