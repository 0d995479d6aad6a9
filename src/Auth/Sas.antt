-- ===== src/Auth/Sas.antt =====
-- crates/blobstore-auth/src/sas.rs: Service SAS.
use mathlib.Core.Option
use mert_blob_storage.Base.{
  Bool, true, false, Option, none, some, List, [], ◌∷◌, ◌++◌, ltb, if◌then◌else◌,
}
use mert_blob_storage.Base.Lists.{find}
use mert_blob_storage.Base.Text.{Text, codes, ◌==◌, is_empty, contains, eq_ignore_ascii_case}
use mert_blob_storage.Storage.Exec.{Result, ok, err}
use mert_blob_storage.Auth.Types.{
  AuthError, malformed_credential, signature_mismatch, expired, not_yet_valid, Permission, sas_char,
}
use mert_blob_storage.Auth.Externals.{Crypto}

pub record SasParams : Type 0 where
  pub sp : Text
  pub st : Text
  pub se : Text
  pub sr : Text
  pub sip : Text
  pub spr : Text
  pub sv : Text
  pub si : Text
  pub sig : Text
  pub rscc : Text
  pub rscd : Text
  pub rsce : Text
  pub rscl : Text
  pub rsct : Text

-- a decoded query string
abbrev pub Query : Type 0
Query = List (Text × Text)

abbrev pub second : Text × Text → Text
second (k, v) = v

abbrev pub named : Text → Text × Text → Bool
unfolding eq_ignore_ascii_case
named name (k, v) = eq_ignore_ascii_case k name

unfoldable pub get : Query → Text → Text
get query name = Option.get_or (Option.map second (find (named name) query)) []

unfoldable pub parse_sas_query : Query → Option SasParams
parse_sas_query query =
    if is_empty (get query (codes "sig"))
    then none
    else some (record {
      sp = get query (codes "sp");
      st = get query (codes "st");
      se = get query (codes "se");
      sr = get query (codes "sr");
      sip = get query (codes "sip");
      spr = get query (codes "spr");
      sv = get query (codes "sv");
      si = get query (codes "si");
      sig = get query (codes "sig");
      rscc = get query (codes "rscc");
      rscd = get query (codes "rscd");
      rsce = get query (codes "rsce");
      rscl = get query (codes "rscl");
      rsct = get query (codes "rsct");
    })

unfoldable pub canonicalized_resource : Text → Text → Option Text → Text
canonicalized_resource account container none = codes "/blob/" ++ (account ++ (b'/' ∷ container))
canonicalized_resource account container (some b) =
    codes "/blob/" ++ (account ++ (b'/' ∷ (container ++ (b'/' ∷ b))))

-- `.join("\n")`
unfoldable pub join_lines : List Text → Text
join_lines [] = []
join_lines (s ∷ []) = s
join_lines (s ∷ t ∷ ts) = s ++ b'\n' ∷ join_lines (t ∷ ts)

-- the array literal of `string_to_sign`
unfoldable pub lines_to_sign : Text → SasParams → List Text
lines_to_sign resource p =
    p.sp ∷ p.st ∷ p.se ∷ resource ∷ p.si ∷ p.sip ∷ p.spr ∷ p.sv ∷ p.sr ∷ [] ∷ [] ∷ p.rscc ∷ p.rscd
    ∷ p.rsce ∷ p.rscl ∷ p.rsct ∷ []

unfoldable pub string_to_sign : Text → Text → Option Text → SasParams → Text
string_to_sign account container blob p =
    join_lines (lines_to_sign (canonicalized_resource account container blob) p)

module _ (x : Crypto) where
  abbrev pub signed : Text → Option Text → Result AuthError Text
  signed message none = err malformed_credential
  signed message (some key_bytes) = elim (x.hmac_sha256 key_bytes message) [
    | none ↦ err malformed_credential
    | some code ↦ ok (x.base64_encode code)
  ]

  unfoldable pub hmac_sign : Text → Text → Result AuthError Text
  hmac_sign key_base64 message = signed message (x.base64_decode key_base64)

  -- `if let Ok(sig) = … { if sig == p.sig`
  unfoldable pub signs : Text → Text → Text → Bool
  signs sig key_base64 message = elim (hmac_sign key_base64 message) [
    | ok s ↦ s == sig
    | err _ ↦ false
  ]

  -- `if let Some(key2) = key2_base64`
  unfoldable pub signs_too : Text → Option Text → Text → Bool
  signs_too sig none message = false
  signs_too sig (some key2) message = signs sig key2 message

  unfoldable pub verify_signature :
      Text → Text → Option Text → SasParams → Text → Option Text → Result AuthError (Unit {0})
  verify_signature account container blob p key1_base64 key2_base64 =
      let sts = string_to_sign account container blob p in
      if signs p.sig key1_base64 sts
      then ok tt
      else if signs_too p.sig key2_base64 sts
      then ok tt
      else err signature_mismatch

  unfoldable pub check_expiry : Text → Result AuthError (Unit {0})
  check_expiry se = if is_empty se then ok tt else elim (x.parse_rfc3339 se) [
    | none ↦ err malformed_credential
    | some expiry ↦ if ltb expiry x.now_utc then err expired else ok tt
  ]

  unfoldable pub check_start : Text → Result AuthError (Unit {0})
  check_start st = if is_empty st then ok tt else elim (x.parse_rfc3339 st) [
    | none ↦ err malformed_credential
    | some begin ↦ if ltb x.now_utc begin then err not_yet_valid else ok tt
  ]

  unfoldable pub check_validity_window : SasParams → Result AuthError (Unit {0})
  check_validity_window p = elim (check_expiry p.se) [ err e ↦ err e | ok _ ↦ check_start p.st ]

unfoldable pub has_permission : SasParams → Permission → Bool
has_permission p required = contains (sas_char required) p.sp

unfoldable pub resource_scope_matches : SasParams → Bool → Bool
resource_scope_matches p requesting_blob =
    if p.sr == codes "c" then true else if p.sr == codes "b" then requesting_blob else false
