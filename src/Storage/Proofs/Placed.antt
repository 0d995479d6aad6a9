-- ===== src/Storage/Proofs/Placed.antt =====
-- The tables of blocks have no foreign key: that every block lies in a container that exists is kept by
-- the order of the statements alone.
use mathlib.Core.Path.{subst}
use mert_blob_storage.Base.{
  ◌≡◌, ◌∙◌, ◌++◌, Bool, true, false, List, [], ◌∷◌, All, arith, inl, inr, Bool-cases, ◌&&◌,
}
use mert_blob_storage.Base.Lists.{exists, remove}
use mert_blob_storage.Base.Tables.{All-append, All-remove, All-upsert, All-map, All-both}
use mert_blob_storage.Base.Rows.{exists-append, exists-update, exists-remove_apart, All-of_remove}
use mert_blob_storage.Base.Text.{Text, ◌==◌, eq_iff}
use mert_blob_storage.Storage.Db.{
  Db, AccountsRow, ContainersRow, BlobsRow, StagedBlocksRow, CommittedBlocksRow, is_container,
  is_staged_in, is_staged_of, is_staged, is_committed_in, is_committed_of,
}
use mert_blob_storage.Storage.Exec.{Result, ok, IoError}
use mert_blob_storage.Storage.MetadataDb.Statements.{
  upsert_account, insert_container, update_container, upsert_blob, update_blob, delete_blob_row,
  delete_committed_of, delete_staged_of, restage, upsert_staged, has_account, has_container,
  is_committed_at, insert_committed,
}
use mert_blob_storage.Storage.Proofs.Deletion.{swept}
use mert_blob_storage.Storage.Proofs.Rows.{with_blob}

abbrev pub has_row : Text → Text → List ContainersRow → Bool
has_row a c containers = exists (is_container a c) containers

-- Every block that is staged, and every block that is committed, lies in a container that exists.
pub record IsPlaced (db : Db) : Type 0 where
  pub staged :
      All (λ r. has_row r.account_name r.container_name db.containers ≡ true) db.staged_blocks
  pub committed :
      All (λ r. has_row r.account_name r.container_name db.containers ≡ true) db.committed_blocks

-- The blocks are placed, and this container is there.
abbrev pub Here : Text → Text → Db → Type 0
Here a c db = IsPlaced db × (has_row a c db.containers ≡ true)

ok-injective : {a b : Db} → ◌≡◌ {A = Result IoError Db} (ok a) (ok b) → a ≡ b
ok-injective e = cc

-- what the statements with constraints leave where they go through
insert_container_result :
    (n : ContainersRow) (db db' : Db)
    → insert_container n db ≡ ok db'
    → record db { containers = db.containers ++ n ∷ [] } ≡ db'
unfolding insert_container
insert_container_result n db db' h =
    elim (Bool-cases (has_container n.account_name n.container_name db)) [
      | inl e ↦ ground arith
      | inr e ↦ elim (Bool-cases (has_account n.account_name db)) [
        | inl f ↦ ok-injective (rw (e, f) at h)
        | inr f ↦ ground arith
      ]
    ]

upsert_blob_result : (n : BlobsRow) (db db' : Db) → upsert_blob n db ≡ ok db' → with_blob n db ≡ db'
unfolding upsert_blob
upsert_blob_result n db db' h =
    elim (Bool-cases (has_container n.account_name n.container_name db)) [
      | inl e ↦ ok-injective (rw e at h)
      | inr e ↦ ground arith
    ]

insert_committed_result :
    (n : CommittedBlocksRow) (db db' : Db)
    → insert_committed n db ≡ ok db'
    → record db { committed_blocks = db.committed_blocks ++ n ∷ [] } ≡ db'
unfolding insert_committed
insert_committed_result n db db' h =
    elim (Bool-cases (exists (is_committed_at n) db.committed_blocks)) [
      | inl e ↦ ground arith
      | inr e ↦ ok-injective (rw e at h)
    ]

is_container-kept :
    (f : ContainersRow → ContainersRow)
    → ((r : ContainersRow) → (f r).account_name ≡ r.account_name)
    → ((r : ContainersRow) → (f r).container_name ≡ r.container_name)
    → (a c : Text) (s : ContainersRow) → is_container a c (f s) ≡ is_container a c s
unfolding is_container
is_container-kept f ka kc a c s = rw (ka s, kc s)

-- a container of a row that is not in `a`, `c` is not the one of that name
apart :
    (a c b d : Text)
    → is_container a c (record {
      account_name = b;
      container_name = d;
      public_access_level = [];
      metadata_json = [];
      etag = [];
      last_modified = [];
      created_at = [];
    })
      ≡ false
    → (s : ContainersRow) → is_container b d s ≡ true
    → is_container a c s ≡ false
unfolding is_container
apart a c b d e s k = ground (
  arith,
  eq_iff s.account_name b,
  eq_iff s.container_name d,
  eq_iff b a,
  eq_iff d c,
  eq_iff s.account_name a,
  eq_iff s.container_name c,
)

module _ (db : Db) (h : IsPlaced db) where
  pub upsert_account-IsPlaced : (n : AccountsRow) → IsPlaced (upsert_account n db)
  unfolding upsert_account
  upsert_account-IsPlaced n = record { staged = h.staged; committed = h.committed }

  pub insert_container-IsPlaced :
      (n : ContainersRow) (db' : Db) → insert_container n db ≡ ok db' → IsPlaced db'
  insert_container-IsPlaced n db' e = subst IsPlaced (insert_container_result n db db' e) (record {
    staged = All-map (λ r k. exists-append _ db.containers (n ∷ []) k) db.staged_blocks h.staged;
    committed =
        All-map (λ r k. exists-append _ db.containers (n ∷ []) k) db.committed_blocks h.committed;
  })

  -- an update that leaves the key alone
  pub update_container-IsPlaced :
      (a c : Text) (f : ContainersRow → ContainersRow)
      → ((r : ContainersRow) → (f r).account_name ≡ r.account_name)
      → ((r : ContainersRow) → (f r).container_name ≡ r.container_name)
      → IsPlaced (update_container a c f db)
  unfolding update_container
  update_container-IsPlaced a c f ka kc =
      let same = λ (b d : Text).
        exists-update (is_container a c) (is_container b d) f (is_container-kept f ka kc b d)
          db.containers in
      record {
        staged =
            All-map (λ r k. same r.account_name r.container_name ∙ k) db.staged_blocks h.staged;
        committed =
            All-map (λ r k. same r.account_name r.container_name ∙ k) db.committed_blocks
              h.committed;
      }

  -- The sweep of a container takes its blocks with it.
  pub swept-IsPlaced : (a c : Text) → IsPlaced (swept a c db)
  unfolding is_staged_in is_committed_in is_container
  swept-IsPlaced a c =
      let kept = λ (b d : Text) (e : (((b == a) && (d == c)) ≡ false)).
        exists-remove_apart (is_container a c) (is_container b d) (apart a c b d e) db.containers in
      record {
        staged =
            All-both (λ r k e. kept r.account_name r.container_name k ∙ e)
              (remove (is_staged_in a c) db.staged_blocks)
              (All-of_remove (is_staged_in a c) db.staged_blocks)
              (All-remove _ (is_staged_in a c) db.staged_blocks h.staged);
        committed =
            All-both (λ r k e. kept r.account_name r.container_name k ∙ e)
              (remove (is_committed_in a c) db.committed_blocks)
              (All-of_remove (is_committed_in a c) db.committed_blocks)
              (All-remove _ (is_committed_in a c) db.committed_blocks h.committed);
      }

  pub upsert_blob-IsPlaced : (n : BlobsRow) (db' : Db) → upsert_blob n db ≡ ok db' → IsPlaced db'
  upsert_blob-IsPlaced n db' e =
      subst IsPlaced (upsert_blob_result n db db' e)
        (record { staged = h.staged; committed = h.committed })

  pub update_blob-IsPlaced :
      (a c b : Text) (f : BlobsRow → BlobsRow) → IsPlaced (update_blob a c b f db)
  unfolding update_blob
  update_blob-IsPlaced a c b f = record { staged = h.staged; committed = h.committed }

  pub delete_blob_row-IsPlaced : (a c b : Text) → IsPlaced (delete_blob_row a c b db)
  unfolding delete_blob_row
  delete_blob_row-IsPlaced a c b = record { staged = h.staged; committed = h.committed }

  pub delete_committed_of-IsPlaced : (a c b : Text) → IsPlaced (delete_committed_of a c b db)
  unfolding delete_committed_of
  delete_committed_of-IsPlaced a c b = record {
    staged = h.staged;
    committed = All-remove _ (is_committed_of a c b) db.committed_blocks h.committed;
  }

  pub delete_staged_of-IsPlaced : (a c b : Text) → IsPlaced (delete_staged_of a c b db)
  unfolding delete_staged_of
  delete_staged_of-IsPlaced a c b = record {
    staged = All-remove _ (is_staged_of a c b) db.staged_blocks h.staged;
    committed = h.committed;
  }

-- The statements that add blocks keep the blocks placed where the container of the block is there, and
-- they and the statements on blobs leave it there.
module _ (a c : Text) (db : Db) (h : Here a c db) where
  pub delete_committed_of-Here : (b : Text) → Here a c (delete_committed_of a c b db)
  unfolding delete_committed_of
  delete_committed_of-Here b = (delete_committed_of-IsPlaced db h.0 a c b, h.1)

  pub delete_staged_of-Here : (b : Text) → Here a c (delete_staged_of a c b db)
  unfolding delete_staged_of
  delete_staged_of-Here b = (delete_staged_of-IsPlaced db h.0 a c b, h.1)

  pub upsert_blob-Here : (n : BlobsRow) (db' : Db) → upsert_blob n db ≡ ok db' → Here a c db'
  upsert_blob-Here n db' e =
      subst (Here a c) (upsert_blob_result n db db' e)
        (record { staged = h.0.staged; committed = h.0.committed }, h.1)

  pub upsert_staged-Here :
      (n : StagedBlocksRow)
      → n.account_name ≡ a
      → n.container_name ≡ c
      → Here a c (upsert_staged n db)
  unfolding upsert_staged restage
  upsert_staged-Here n ka kc = (
    record {
      staged =
          All-upsert _ (is_staged n.account_name n.container_name n.blob_name n.block_id) n
            (restage n) (λ r _ k. k) (rw (ka, kc) h.1) db.staged_blocks h.0.staged;
      committed = h.0.committed;
    },
    h.1,
  )

  pub insert_committed-Here :
      (n : CommittedBlocksRow)
      → n.account_name ≡ a
      → n.container_name ≡ c
      → (db' : Db) → insert_committed n db ≡ ok db'
      → Here a c db'
  insert_committed-Here n ka kc db' e = subst (Here a c) (insert_committed_result n db db' e) (
    record {
      staged = h.0.staged;
      committed = All-append _ db.committed_blocks (n ∷ []) h.0.committed (rw (ka, kc) h.1, tt);
    },
    h.1,
  )
