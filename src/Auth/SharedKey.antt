-- ===== src/Auth/SharedKey.antt =====
-- crates/blobstore-auth/src/shared_key.rs: Shared Key. `hmac_sign` is the one of sas.rs, word for word.
use Prim.Native.Nat.{bit_or, bit_xor}
use mert_blob_storage.Base.{
  ℕ, Bool, false, not, Option, none, some, List, [], ◌∷◌, ◌++◌, map, eqb, if◌then◌else◌,
}
use mert_blob_storage.Base.Lists.{length, sort_by}
use mert_blob_storage.Base.Text.{Text, codes, ◌==◌, lt}
use mert_blob_storage.Storage.Exec.{Result, ok, err}
use mert_blob_storage.Auth.Types.{AuthError, signature_mismatch}
use mert_blob_storage.Auth.Externals.{Crypto, Unicode}
use mert_blob_storage.Auth.Sas.{hmac_sign, join_lines}

pub record SharedKeyRequest : Type 0 where
  pub verb : Text
  pub content_encoding : Text
  pub content_language : Text
  pub content_length : Text
  pub content_md5 : Text
  pub content_type : Text
  pub date : Text
  pub if_modified_since : Text
  pub if_match : Text
  pub if_none_match : Text
  pub if_unmodified_since : Text
  pub range : Text
  pub x_ms_headers : List (Text × Text)
  pub canonical_path : Text
  pub query_params : List (Text × Text)

-- `a.0.cmp(&b.0)`
abbrev pub by_name : Text × Text → Text × Text → Bool
unfolding lt
by_name (k, v) (l, w) = lt k l

-- the loop that writes `k:v` and a line break
unfoldable pub header_lines : List (Text × Text) → Text
header_lines [] = []
header_lines ((k, v) ∷ headers) = k ++ (b':' ∷ (v ++ (b'\n' ∷ header_lines headers)))

-- `.join(",")`
unfoldable pub join_commas : List Text → Text
join_commas [] = []
join_commas (v ∷ []) = v
join_commas (v ∷ w ∷ ws) = v ++ (b',' ∷ join_commas (w ∷ ws))

-- `grouped.entry(k).or_default().push(v)`: the map as its entries in the order of their keys
unfoldable pub push_entry : Text → Text → List (Text × List Text) → List (Text × List Text)
push_entry k v [] = (k, v ∷ []) ∷ []
push_entry k v ((l, vs) ∷ grouped) =
    if k == l
    then (l, vs ++ v ∷ []) ∷ grouped
    else if lt k l
    then (k, v ∷ []) ∷ (l, vs) ∷ grouped
    else (l, vs) ∷ push_entry k v grouped

-- the loop over `grouped`
unfoldable pub group_lines : List (Text × List Text) → Text
group_lines [] = []
group_lines ((k, values) ∷ grouped) =
    b'\n' ∷ (k ++ (b':' ∷ (join_commas (sort_by lt values) ++ group_lines grouped)))

module _ (u : Unicode) where
  abbrev pub canonical_header : Text × Text → Text × Text
  canonical_header (k, v) = (u.to_lowercase k, u.trim v)

  unfoldable pub canonicalized_headers : List (Text × Text) → Text
  unfolding header_lines
  canonicalized_headers x_ms_headers =
      header_lines (sort_by by_name (map canonical_header x_ms_headers))

  -- the loop over the query parameters
  unfoldable pub group_params :
      List (Text × Text) → List (Text × List Text) → List (Text × List Text)
  unfolding push_entry
  group_params [] grouped = grouped
  group_params ((k, v) ∷ params) grouped =
      group_params params (push_entry (u.to_lowercase k) v grouped)

  unfoldable pub canonicalized_resource : Text → Text → List (Text × Text) → Text
  unfolding group_params group_lines
  canonicalized_resource account canonical_path query_params =
      b'/' ∷ (account ++ (canonical_path ++ group_lines (group_params query_params [])))

  -- the array literal `parts`
  unfoldable pub parts : SharedKeyRequest → List Text
  parts req =
      req.verb
      ∷ req.content_encoding
      ∷ req.content_language
      ∷ (if req.content_length == codes "0" then [] else req.content_length)
      ∷ req.content_md5
      ∷ req.content_type
      ∷ req.date
      ∷ req.if_modified_since
      ∷ req.if_match
      ∷ req.if_none_match
      ∷ req.if_unmodified_since
      ∷ req.range
      ∷ []

  unfoldable pub string_to_sign : Text → SharedKeyRequest → Text
  string_to_sign account req =
      join_lines (parts req)
      ++ (b'\n'
          ∷ (canonicalized_headers req.x_ms_headers
              ++ canonicalized_resource account req.canonical_path req.query_params))

-- the loop over the two texts, to the end of the shorter
unfoldable pub differences : ℕ → Text → Text → ℕ
differences diff [] _ = diff
differences diff (x ∷ a) [] = diff
differences diff (x ∷ a) (y ∷ b) = differences (bit_or diff (bit_xor x y)) a b

unfoldable pub constant_time_eq : Text → Text → Bool
unfolding differences
constant_time_eq a b = if not (eqb (length a) (length b)) then false else eqb (differences 0 a b) 0

module _ (x : Crypto) where
  -- `if let Ok(sig) = … { if constant_time_eq(&sig, provided_signature)`
  unfoldable pub provides : Text → Text → Text → Bool
  provides provided key_base64 message = elim (hmac_sign x key_base64 message) [
    | ok sig ↦ constant_time_eq sig provided
    | err _ ↦ false
  ]

  unfoldable pub provides_too : Text → Option Text → Text → Bool
  provides_too provided none message = false
  provides_too provided (some key2) message = provides provided key2 message

  unfoldable pub verify :
      Unicode → Text → SharedKeyRequest → Text → Text → Option Text → Result AuthError (Unit {0})
  verify u account req provided_signature key1_base64 key2_base64 =
      let sts = string_to_sign u account req in
      if provides provided_signature key1_base64 sts
      then ok tt
      else if provides_too provided_signature key2_base64 sts
      then ok tt
      else err signature_mismatch
