-- ===== src/Server/Proofs.antt =====
-- The accounts of the configuration after the start.
use mathlib.Core.Option
use mert_blob_storage.Base.{
  ℕ, ◌+◌, ◌≡◌, refl, sym, true, false, Option, none, some, List, [], ◌∷◌, ◌++◌, inl, inr, arith,
  Bool-cases, if◌then◌else◌,
}
use mert_blob_storage.Base.Lists.{find, exists, update, upsert}
use mert_blob_storage.Base.Text.{Text, codes, ◌==◌, eq_iff}
use mert_blob_storage.Storage.Externals.{Externals}
use mert_blob_storage.Storage.Db.{Db, AccountsRow, is_account}
use mert_blob_storage.Storage.Exec.{
  ok, ◌>>=◌, call, fetch, execute, try_execute, ignore, or_default,
}
use mert_blob_storage.Storage.FsIo.{Files}
use mert_blob_storage.Storage.MetadataDb.Rows.{now_iso}
use mert_blob_storage.Storage.MetadataDb.Statements.{rekey, upsert_account}
use mert_blob_storage.Storage.MetadataDb.Accounts.{keys_of, account_keys, ensure_account}
use mert_blob_storage.Storage.Proofs.Calm.{calm}
use mert_blob_storage.Server.Config.{AccountConfig}
use mert_blob_storage.Server.Startup.{ensure_all, ensure_accounts}

abbrev keys_in : Text → List AccountsRow → Option (Text × Option Text)
keys_in name rows = Option.map keys_of (find (is_account name) rows)

update-keys_apart :
    (m n : Text) (new : AccountsRow) (rows : List AccountsRow)
    → (m == n) ≡ false
    → keys_in n (update (is_account m) (rekey new) rows) ≡ keys_in n rows
unfolding find update is_account rekey
update-keys_apart m n new [] h = refl
update-keys_apart m n new (r ∷ rows) h = ground (
  arith,
  update-keys_apart m n new rows h,
  eq_iff r.account_name m,
  eq_iff r.account_name n,
  eq_iff m n,
)

update-keys :
    (m : Text) (new : AccountsRow) (rows : List AccountsRow)
    → exists (is_account m) rows ≡ true
    → keys_in m (update (is_account m) (rekey new) rows) ≡ some (keys_of new)
unfolding find update exists is_account rekey
update-keys m new [] h = ground arith
update-keys m new (r ∷ rows) h = elim (Bool-cases (r.account_name == m)) [
  | inl e ↦ ground arith
  | inr e ↦ ground (arith, update-keys m new rows (ground arith))
]

append-keys :
    (n : Text) (new : AccountsRow) (rows : List AccountsRow)
    → exists (is_account new.account_name) rows ≡ false
    → keys_in n (rows ++ new ∷ [])
      ≡ (if new.account_name == n then some (keys_of new) else keys_in n rows)
unfolding find exists is_account
append-keys n new [] h = ground arith
append-keys n new (r ∷ rows) h = ground (
  arith,
  append-keys n new rows (ground arith),
  eq_iff r.account_name new.account_name,
  eq_iff r.account_name n,
  eq_iff new.account_name n,
)

upsert-keys :
    (n : Text) (new : AccountsRow) (rows : List AccountsRow)
    → keys_in n (upsert (is_account new.account_name) new (rekey new) rows)
      ≡ (if new.account_name == n then some (keys_of new) else keys_in n rows)
unfolding upsert
upsert-keys n new rows = elim (Bool-cases (exists (is_account new.account_name) rows)) [
  | inr e ↦ rw e (append-keys n new rows e)
  | inl e ↦ elim (Bool-cases (new.account_name == n)) [
    | inr d ↦ rw (e, d) (update-keys_apart new.account_name n new rows d)
    | inl d ↦
        let same = (eq_iff new.account_name n).0 d in
        let found = update-keys new.account_name new rows e in rw (e, d) (rw (sym same) found)
  ]
]

-- the keys of an account after the accounts of a list: those of its last entry, or those that it had
abbrev pub configured :
    Text → List AccountConfig → Option (Text × Option Text) → Option (Text × Option Text)
configured name [] old = old
configured name (acc ∷ accounts) old =
    configured name accounts (if acc.name == name then some (acc.key1, acc.key2) else old)

ensure_all_keys :
    (x : Externals) (accounts : List AccountConfig) (name : Text) (db : Db) (fs : Files) (t : ℕ)
    → (account_keys name (ensure_all x accounts (calm db fs t)).1).0
      ≡ ok (configured name accounts (keys_in name db.accounts))
unfolding ensure_all account_keys ensure_account now_iso upsert_account ◌>>=◌ ignore execute
    try_execute call fetch or_default
ensure_all_keys x [] name db fs t = refl
ensure_all_keys x (acc ∷ accounts) name db fs t =
    let row : AccountsRow = record {
      account_name = acc.name;
      key1_base64 = acc.key1;
      key2_base64 = acc.key2;
      created_at = Option.get_or (x.rfc3339 (x.clock t)) [];
    } in
    let later = ensure_all_keys x accounts name (upsert_account row db) fs (t + 1) in
    rw (upsert-keys name row db.accounts) at later

-- the accounts of the configuration, or one for development under the generated key if it has none
abbrev pub given : Text → List AccountConfig → List AccountConfig
given key [] = record { name = codes "devstoreaccount1"; key1 = key; key2 = none } ∷ []
given key (acc ∷ accounts) = acc ∷ accounts

-- After the start, where no call of SQLite fails, the backend answers for every name with the keys of
-- its last entry in the configuration, or, for a configuration without accounts, for devstoreaccount1
-- with the generated key, and for every other name with what the database had for it before.
pub ensure_accounts_keys :
    (x : Externals) (key : Text) (accounts : List AccountConfig) (name : Text) (db : Db)
    (fs : Files) (t : ℕ)
    → (account_keys name (ensure_accounts x key accounts (calm db fs t)).1).0
      ≡ ok (configured name (given key accounts) (keys_in name db.accounts))
unfolding ensure_accounts ensure_all ensure_account ◌>>=◌ now_iso ignore
ensure_accounts_keys x key [] name db fs t = ensure_all_keys x (given key []) name db fs t
ensure_accounts_keys x key (acc ∷ accounts) name db fs t =
    ensure_all_keys x (acc ∷ accounts) name db fs t
