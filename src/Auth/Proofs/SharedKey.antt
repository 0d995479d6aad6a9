-- ===== src/Auth/Proofs/SharedKey.antt =====
-- When a Shared Key signature is accepted.
use mert_blob_storage.Base.{◌≡◌, ◌↔◌, ◌⊎◌, inl, inr, refl, true, Option, none, some, arith}
use mert_blob_storage.Base.Text.{Text}
use mert_blob_storage.Storage.Exec.{ok}
use mert_blob_storage.Auth.Externals.{Crypto, Unicode}
use mert_blob_storage.Auth.Sas.{hmac_sign}
use mert_blob_storage.Auth.SharedKey.{
  SharedKeyRequest, string_to_sign, provides, provides_too, verify,
}
use mert_blob_storage.Auth.Proofs.Compare.{constant_time_eq_exact}
use mert_blob_storage.Auth.Proofs.Bearer.{Result-cases}

module _ (x : Crypto) where
  -- the signature of a message under a key of the account
  abbrev pub KeySigns : Text → Option Text → Text → Text → Type 0
  KeySigns key1 key2 message sig =
      (hmac_sign x key1 message ≡ ok sig)
      ⊎ ((key : Text) × (key2 ≡ some key) × (hmac_sign x key message ≡ ok sig))

  provides_exact :
      (sig key message : Text)
      → (provides x sig key message ≡ true) ↔ (hmac_sign x key message ≡ ok sig)
  unfolding provides
  provides_exact sig key message = elim (Result-cases (hmac_sign x key message)) [
    | inl (s, e) ↦ ground (arith, constant_time_eq_exact s sig)
    | inr (f, e) ↦ ground arith
  ]

  provides_too_exact :
      (sig : Text) (key2 : Option Text) (message : Text)
      → (provides_too x sig key2 message ≡ true)
        ↔ ((key : Text) × (key2 ≡ some key) × (hmac_sign x key message ≡ ok sig))
  unfolding provides_too
  provides_too_exact sig none message = (λ h. cc, λ h. let (key, e, s) = h in cc)
  provides_too_exact sig (some key2) message = (
    λ h. (key2, refl, (provides_exact sig key2 message).0 h),
    λ h. let (key, e, s) = h in (provides_exact sig key2 message).1 (ground arith),
  )

  -- Shared Key accepts a request exactly when the signature that it carries is the HMAC of the
  -- request's string to sign under the first key of the account, or under the second if there is one.
  pub verify_exact :
      (u : Unicode) (account : Text) (req : SharedKeyRequest) (sig key1 : Text) (key2 : Option Text)
      → (verify x u account req sig key1 key2 ≡ ok tt)
        ↔ KeySigns key1 key2 (string_to_sign u account req) sig
  unfolding verify
  verify_exact u account req sig key1 key2 =
      let sts = string_to_sign u account req in
      ground (arith, provides_exact sig key1 sts, provides_too_exact sig key2 sts)
