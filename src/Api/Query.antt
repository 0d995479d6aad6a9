-- ===== src/Api/Query.antt =====
-- crates/blobstore-api/src/query.rs: query strings.
use mathlib.Core.Option
use mert_blob_storage.Base.{ℕ, Option, none, some, List, [], ◌∷◌, eqb, if◌then◌else◌}
use mert_blob_storage.Base.Lists.{find}
use mert_blob_storage.Base.Text.{Text, split_once}
use mert_blob_storage.Auth.Sas.{Query, named, second}
use mert_blob_storage.Api.Http.{HttpLibrary}

-- a byte in front of the first part
abbrev pub extend_first : ℕ → List Text → List Text
extend_first c [] = (c ∷ []) ∷ []
extend_first c (part ∷ parts) = (c ∷ part) ∷ parts

-- str::split at one byte
unfoldable pub split : ℕ → Text → List Text
split sep [] = [] ∷ []
split sep (c ∷ s) =
    let parts = split sep s in if eqb c sep then [] ∷ parts else extend_first c parts

module _ (l : HttpLibrary) where
  -- `urlencoding::decode(s).map(…).unwrap_or_else(|_| s.to_string())`
  unfoldable pub decode_or_same : Text → Text
  decode_or_same s = Option.get_or (l.url_decode s) s

  -- the two parts of `splitn(2, '=')`; without an equals sign the value is empty
  abbrev pub decode_pair : Text → Option (Text × Text) → Text × Text
  decode_pair pair none = (decode_or_same pair, decode_or_same [])
  decode_pair pair (some (k, v)) = (decode_or_same k, decode_or_same v)

  -- `.filter(|p| !p.is_empty()).map(…)`
  unfoldable pub decode_pairs : List Text → Query
  unfolding split_once
  decode_pairs [] = []
  decode_pairs ([] ∷ pairs) = decode_pairs pairs
  decode_pairs ((c ∷ p) ∷ pairs) =
      decode_pair (c ∷ p) (split_once b'=' (c ∷ p)) ∷ decode_pairs pairs

  unfoldable pub parse_query : Text → Query
  unfolding decode_pairs split
  parse_query [] = []
  parse_query (c ∷ raw) = decode_pairs (split b'&' (c ∷ raw))

unfoldable pub get_param : Query → Text → Option Text
get_param params name = Option.map second (find (named name) params)
