-- ===== src/Api/Proofs/Accounts.antt =====
-- The account that a rewritten path names.
use mathlib.Core.List.{append-nil}
use mert_blob_storage.Base.{
  ◌++◌, ◌⊎◌, inl, inr, true, Option-cases, if◌then◌else◌, ℕ, ◌≡◌, refl, false, Option, none, some,
  [], ◌∷◌, arith, eqb,
}
use mert_blob_storage.Base.Text.{Text, codes, ◌==◌, contains, split_once, is_empty}
use mert_blob_storage.Api.Auth.{trim_start_slashes, after_container, split_path}
use mert_blob_storage.Api.Http.{HttpLibrary, Request}
use mert_blob_storage.Api.AccountResolve.{
  rewritten_path, new_path_and_query, with_target, rewritten,
}
use mert_blob_storage.Api.Proofs.Access.{split_once-append}

pub split_once-none : (sep : ℕ) (s : Text) → contains sep s ≡ false → split_once sep s ≡ none
unfolding split_once contains
split_once-none sep [] h = refl
split_once-none sep (c ∷ s) h = ground (arith, split_once-none sep s)

after_container-account :
    (account rest : Text) (o : Option (Text × Text))
    → (after_container account o rest).0 ≡ some account
after_container-account account rest none = refl
after_container-account account rest (some (p, q)) = refl

rewritten_path_account :
    (d : ℕ) (a path : Text)
    → contains b'/' (d ∷ a) ≡ false
    → (split_path (rewritten_path (d ∷ a) (b'/' ∷ path))).0 ≡ some (d ∷ a)
unfolding split_path rewritten_path trim_start_slashes is_empty contains ◌==◌
rewritten_path_account d a [] h =
    let plain : eqb d b'/' ≡ false = ground arith in
    rw plain (rw (append-nil (d ∷ a)) (rw (split_once-none b'/' (d ∷ a) h)))
rewritten_path_account d a (c ∷ path) h =
    let plain : eqb d b'/' ≡ false = ground arith in
    rw plain (
      rw (split_once-append b'/' (d ∷ a) (c ∷ path) h)
        (after_container-account (d ∷ a) (c ∷ path) (split_once b'/' (c ∷ path))))

contains-append :
    (sep : ℕ) (s t : Text)
    → contains sep s ≡ false
    → contains sep t ≡ false
    → contains sep (s ++ t) ≡ false
unfolding contains
contains-append sep [] t h k = k
contains-append sep (c ∷ s) t h k = ground (arith, contains-append sep s t)

-- what a path and query in a URI may hold before the query
abbrev pub IsPlain : Text → Type 0
IsPlain s = (contains b'?' s ≡ false) × (contains b'#' s ≡ false)

-- A text that is a plain path, with or without a query, is read back as this path if it parses.
abbrev pub ReadsPath : HttpLibrary → Type 0
ReadsPath l =
    (path rest p : Text) (q : Option Text)
    → IsPlain path
    → (rest ≡ []) ⊎ ((query : Text) × (rest ≡ b'?' ∷ query))
    → l.path_and_query (b'/' ∷ path ++ rest) ≡ some (p, q)
    → p ≡ b'/' ∷ path

-- the path of the new target behind its first slash
abbrev tail_path : Text → Text → Text
tail_path account path = account ++ (if (b'/' ∷ path) == codes "/" then codes "" else b'/' ∷ path)

tail_path-IsPlain :
    (account path : Text) → IsPlain account → IsPlain path → IsPlain (tail_path account path)
unfolding contains ◌==◌
tail_path-IsPlain account [] h k =
    (contains-append b'?' account [] h.0 refl, contains-append b'#' account [] h.1 refl)
tail_path-IsPlain account (c ∷ path) h k = (
  contains-append b'?' account (b'/' ∷ c ∷ path) h.0 k.0,
  contains-append b'#' account (b'/' ∷ c ∷ path) h.1 k.1,
)

read_back :
    (l : HttpLibrary) (account path p : Text) (q : Option Text) (req : Request)
    → ReadsPath l
    → IsPlain account
    → IsPlain path
    → req.path ≡ b'/' ∷ path
    → l.path_and_query (new_path_and_query account req) ≡ some (p, q)
    → p ≡ rewritten_path account (b'/' ∷ path)
unfolding new_path_and_query rewritten_path
read_back l account path p q req reads h k e parsed =
    let plain = tail_path-IsPlain account path h k in
    elim (Option-cases req.query) [
      | inl n ↦
          reads (tail_path account path) [] p q plain (inl refl)
            (rw (append-nil (tail_path account path)) (rw (e, n) at parsed))
      | inr (query, n) ↦
          reads (tail_path account path) (b'?' ∷ query) p q plain (inr (query, refl))
            (rw (e, n) at parsed)
    ]

-- When the account resolution rewrites a request for an account, whose name is not empty and holds no
-- slash, question mark or number sign, and the new target parses and makes a URI, the middleware behind
-- it authenticates the request against this account, and the path of the request is kept as the one that
-- the client signed. The path has none of the two marks, and the library reads such a path back.
pub rewritten_account :
    (l : HttpLibrary) (d : ℕ) (a path p : Text) (q : Option Text) (req : Request)
    → ReadsPath l
    → contains b'/' (d ∷ a) ≡ false
    → IsPlain (d ∷ a)
    → IsPlain path
    → req.path ≡ b'/' ∷ path
    → l.path_and_query (new_path_and_query (d ∷ a) req) ≡ some (p, q)
    → l.from_parts req (p, q) ≡ true
    → ((split_path (rewritten l (some (d ∷ a)) req).path).0 ≡ some (d ∷ a))
      × ((rewritten l (some (d ∷ a)) req).signed_path ≡ some req.path)
unfolding rewritten with_target
rewritten_account l d a path p q req reads h plain k e parsed made =
    let same = read_back l (d ∷ a) path p q req reads plain k e parsed in
    rw (parsed, made) (rw same (rewritten_path_account d a path h), refl)
