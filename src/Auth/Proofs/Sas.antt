-- ===== src/Auth/Proofs/Sas.antt =====
-- When the checks of a shared access signature pass.
use mert_blob_storage.Base.{
  ℕ, ◌≤◌, ◌≡◌, ◌↔◌, ◌⊎◌, inl, inr, refl, Bool, true, Option, none, some, [], ◌∷◌, arith,
  Option-cases,
}
use mert_blob_storage.Base.Text.{Text, codes, is_empty, eq_iff}
use mert_blob_storage.Storage.Exec.{ok}
use mert_blob_storage.Auth.Externals.{Crypto}
use mert_blob_storage.Auth.Proofs.Bearer.{Result-cases}
use mert_blob_storage.Auth.Proofs.SharedKey.{KeySigns}
use mert_blob_storage.Auth.Sas.{
  SasParams, string_to_sign, hmac_sign, signs, signs_too, verify_signature, check_expiry,
  check_start, check_validity_window, resource_scope_matches,
}

pub is_empty_iff : (s : Text) → (is_empty s ≡ true) ↔ (s ≡ [])
unfolding is_empty
is_empty_iff [] = (λ h. refl, λ h. refl)
is_empty_iff (c ∷ s) = ground arith

module _ (x : Crypto) where
  signs_exact :
      (sig key message : Text)
      → (signs x sig key message ≡ true) ↔ (hmac_sign x key message ≡ ok sig)
  unfolding signs
  signs_exact sig key message = elim (Result-cases (hmac_sign x key message)) [
    | inl (s, e) ↦ ground (arith, eq_iff s sig)
    | inr (f, e) ↦ ground arith
  ]

  signs_too_exact :
      (sig : Text) (key2 : Option Text) (message : Text)
      → (signs_too x sig key2 message ≡ true)
        ↔ ((key : Text) × (key2 ≡ some key) × (hmac_sign x key message ≡ ok sig))
  unfolding signs_too
  signs_too_exact sig none message = (λ h. cc, λ h. let (key, e, s) = h in cc)
  signs_too_exact sig (some key2) message = (
    λ h. (key2, refl, (signs_exact sig key2 message).0 h),
    λ h. let (key, e, s) = h in (signs_exact sig key2 message).1 (ground arith),
  )

  pub verify_signature_exact :
      (account container : Text) (blob : Option Text) (p : SasParams) (key1 : Text)
      (key2 : Option Text)
      → (verify_signature x account container blob p key1 key2 ≡ ok tt)
        ↔ KeySigns x key1 key2 (string_to_sign account container blob p) p.sig
  unfolding verify_signature
  verify_signature_exact account container blob p key1 key2 =
      let sts = string_to_sign account container blob p in
      ground (arith, signs_exact p.sig key1 sts, signs_too_exact p.sig key2 sts)

  -- an expiry that is absent, or not before the clock
  abbrev pub Unexpired : Text → Type 0
  Unexpired se =
      (se ≡ []) ⊎ ((expiry : ℕ) × (x.parse_rfc3339 se ≡ some expiry) × (x.now_utc ≤ expiry))

  -- a start that is absent, or not after the clock
  abbrev pub Begun : Text → Type 0
  Begun st = (st ≡ []) ⊎ ((begin : ℕ) × (x.parse_rfc3339 st ≡ some begin) × (begin ≤ x.now_utc))

  check_expiry_exact : (se : Text) → (check_expiry x se ≡ ok tt) ↔ Unexpired se
  unfolding check_expiry
  check_expiry_exact se = elim (Option-cases (x.parse_rfc3339 se)) [
    | inl e ↦ ground (arith, is_empty_iff se)
    | inr (n, e) ↦ ground (arith, is_empty_iff se)
  ]

  check_start_exact : (st : Text) → (check_start x st ≡ ok tt) ↔ Begun st
  unfolding check_start
  check_start_exact st = elim (Option-cases (x.parse_rfc3339 st)) [
    | inl e ↦ ground (arith, is_empty_iff st)
    | inr (n, e) ↦ ground (arith, is_empty_iff st)
  ]

  pub check_validity_window_exact :
      (p : SasParams) → (check_validity_window x p ≡ ok tt) ↔ (Unexpired p.se × Begun p.st)
  unfolding check_validity_window
  check_validity_window_exact p = ground (arith, check_expiry_exact p.se, check_start_exact p.st)

pub resource_scope_exact :
    (p : SasParams) (scope : Bool)
    → (resource_scope_matches p scope ≡ true)
      ↔ ((p.sr ≡ codes "c") ⊎ ((p.sr ≡ codes "b") × (scope ≡ true)))
unfolding resource_scope_matches
resource_scope_exact p scope = ground (arith, eq_iff p.sr (codes "c"), eq_iff p.sr (codes "b"))
