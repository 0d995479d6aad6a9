-- ===== src/Api/AccountResolve.antt =====
-- crates/blobstore-api/src/account_resolve.rs: which account a request is for, and the path that the
-- router sees. The parse of a URI, and that a host is an IP address, are parameters.
use mert_blob_storage.Base.{
  ℕ, Bool, true, false, ◌&&◌, ◌||◌, Option, none, some, [], ◌∷◌, ◌++◌, leb, eqb, if◌then◌else◌,
}
use mert_blob_storage.Base.Text.{Text, codes, ◌==◌, split_once}
use mert_blob_storage.Storage.Exec.{World, Exec}
use mert_blob_storage.Storage.Backend.{StorageBackend}
use mert_blob_storage.Api.Auth.{trim_start_slashes, non_empty}
use mert_blob_storage.Api.Http.{HttpLibrary, Request, Response, Panic, get_header}
use mert_blob_storage.Api.State.{AppState, Libraries}
use mert_blob_storage.Api.Middleware.{or_else, found_keys}

unfoldable pub resolve : Option Text → Bool → Bool → Option Text → Option Text
resolve host_label first_segment_known host_label_known default_account =
    if first_segment_known then none else if host_label_known then host_label else default_account

abbrev pub first_part : Option (Text × Text) → Text → Text
first_part none s = s
first_part (some (part, rest)) s = part

unfoldable pub first_segment : Text → Option Text
first_segment path =
    let trimmed = trim_start_slashes path in
    non_empty (some (first_part (split_once b'/' trimmed) trimmed))

-- str::rsplit_once at one byte
unfoldable pub rsplit_once : ℕ → Text → Option (Text × Text)
rsplit_once sep [] = none
rsplit_once sep (c ∷ s) = elim (rsplit_once sep s) [
  | some (l, r) ↦ some (c ∷ l, r)
  | none ↦ if eqb c sep then some ([], s) else none
]

-- `port.chars().all(|c| c.is_ascii_digit())`
unfoldable pub all_digits : Text → Bool
all_digits [] = true
all_digits (c ∷ s) = (leb b'0' c && leb c b'9') && all_digits s

unfoldable pub without_port : Text → Text
unfolding rsplit_once all_digits
without_port host = elim (rsplit_once b':' host) [
  | none ↦ host
  | some (h, port) ↦ if all_digits port then h else host
]

-- `host.starts_with('[')`
abbrev pub is_bracketed : Text → Bool
is_bracketed [] = false
is_bracketed (c ∷ s) = eqb c b'['

abbrev pub left_part : Option (Text × Text) → Option Text
left_part none = none
left_part (some (label, rest)) = some label

unfoldable pub host_label : HttpLibrary → Text → Option Text
unfolding without_port
host_label l host =
    let bare = without_port host in
    if l.is_ip_addr bare || is_bracketed bare
    then none
    else non_empty (left_part (split_once b'.' bare))

-- `format!("/{account}{rest}")`
unfoldable pub rewritten_path : Text → Text → Text
rewritten_path account path = b'/' ∷ (account ++ (if path == codes "/" then codes "" else path))

-- `new_path_and_query`
unfoldable pub new_path_and_query : Text → Request → Text
unfolding rewritten_path
new_path_and_query account req = elim req.query [
  | none ↦ rewritten_path account req.path
  | some q ↦ rewritten_path account req.path ++ b'?' ∷ q
]

-- `.and_then`
abbrev pub label_of : HttpLibrary → Option Text → Option Text
label_of l none = none
label_of l (some host) = host_label l host

abbrev pub readable : HttpLibrary → Option Text → Option Text
readable l none = none
readable l (some value) = l.to_str value

-- the `Host` header, or the host of the URI
unfoldable pub host_of : HttpLibrary → Request → Option Text
host_of l req = or_else (readable l (get_header (codes "host") req.headers)) req.uri_host

-- `is_some`
abbrev pub has_keys : Option (Text × Option Text) × World → Bool × World
has_keys (none, w) = (false, w)
has_keys (some keys, w) = (true, w)

unfoldable pub is_known : StorageBackend → Option Text → World → Bool × World
is_known backend none w = (false, w)
is_known backend (some name) w = has_keys (found_keys (backend.account_keys name) w)

-- `if let Ok(pq) = … { … if let Ok(uri) = Uri::from_parts(parts) { … } }`
unfoldable pub with_target : HttpLibrary → Request → Option (Text × Option Text) → Request
with_target l req none = req
with_target l req (some (path, query)) =
    if l.from_parts req (path, query)
    then record req { path = path; query = query; signed_path = some req.path }
    else req

-- `if let Some(account) = resolve(…) { … }`
unfoldable pub rewritten : HttpLibrary → Option Text → Request → Request
unfolding new_path_and_query with_target
rewritten l none req = req
rewritten l (some account) req =
    with_target l req (l.path_and_query (new_path_and_query account req))

module _ (env : Libraries) (state : AppState) where
  -- the request that the router sees
  unfoldable pub resolved_request : Request → World → Request × World
  unfolding is_known rewritten host_of host_label
  resolved_request req w =
      let (first_segment_known, w1) = is_known state.backend (first_segment req.path) w in
      let label = label_of env.http (host_of env.http req) in
      let (host_label_known, w2) =
        is_known state.backend (if first_segment_known then none else label) w1 in
      (
        rewritten env.http
            (resolve label first_segment_known host_label_known state.default_account) req,
        w2,
      )

  unfoldable pub account_resolve_middleware :
      (Request → Exec Panic Response) → Request → Exec Panic Response
  unfolding resolved_request
  account_resolve_middleware next req w = let (req', w') = resolved_request req w in next req' w'
