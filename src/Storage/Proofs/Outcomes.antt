-- ===== src/Storage/Proofs/Outcomes.antt =====
-- What holds of the database after an action, apart for a result and for an error, whatever faults
-- come.
use mathlib.Core.Path.{subst}
use mert_blob_storage.Base.{◌≡◌, refl, ap, Option, none, some}
use mert_blob_storage.Base.Text.{Text}
use mert_blob_storage.Storage.Db.{Db}
use mert_blob_storage.Storage.Exec.{
  World, Exec, Result, ok, err, IoError, pure, lift, ◌>>=◌, map_err, ignore, call, fetch,
  try_execute, execute, transaction, next_fault, later_faults, attempt, settle, commit,
}
use mert_blob_storage.Storage.Proofs.Keeps.{Keeps}

ok-injective : {a b : Db} → ◌≡◌ {A = Result IoError Db} (ok a) (ok b) → a ≡ b
ok-injective e = cc

module _ {E A : Type 0} where
  abbrev pub Post : (A → Db → Type 0) → (Db → Type 0) → Result E A → Db → Type 0
  Post Q X (ok a) db = Q a db
  Post Q X (err e) db = X db

  -- from a database with `P`, a result `a` leaves one with `Q a`, and an error one with `X`
  pub record Ends (P : Db → Type 0) (m : Exec E A) (Q : A → Db → Type 0) (X : Db → Type 0)
      : Type 0 where
    pub at : (w : World) → P w.db → Post Q X (m w).0 (m w).1.db

module _ {E A : Type 0} (P : Db → Type 0) where
  kept-Post : (r : Result E A) (db : Db) → P db → Post (λ _. P) P r db
  kept-Post (ok a) db h = h
  kept-Post (err e) db h = h

  any-Post : (r : Result E A) (db : Db) → P db → Post (λ _. P) (λ _. Unit {0}) r db
  any-Post (ok a) db h = h
  any-Post (err e) db h = tt

module _ {E A : Type 0} {P : Db → Type 0} where
  pub Ends-Keeps : (m : Exec E A) → Keeps P m → Ends P m (λ _. P) P
  Ends-Keeps m k = record { at = λ w h. kept-Post P (m w).0 (m w).1.db (k.at w h) }

  pub Ends-Keeps_any : (m : Exec E A) → Keeps P m → Ends P m (λ _. P) (λ _. Unit {0})
  Ends-Keeps_any m k = record { at = λ w h. any-Post P (m w).0 (m w).1.db (k.at w h) }

module _ {E A B : Type 0} (Q : A → Db → Type 0) (S : B → Db → Type 0) (X : Db → Type 0) where
  continue-Post :
      (r : Result E A) (f : A → Exec E B) (w : World)
      → ((a : A) → Ends (Q a) (f a) S X)
      → Post Q X r w.db
      → Post S X ((lift r >>= f) w).0 ((lift r >>= f) w).1.db
  unfolding ◌>>=◌
  continue-Post (ok a) f w k h = (k a).at w h
  continue-Post (err e) f w k h = h

module _ {E A B : Type 0} {P : Db → Type 0} {X : Db → Type 0} {Q : A → Db → Type 0}
    {S : B → Db → Type 0} where
  pub Ends-bind :
      (m : Exec E A) (f : A → Exec E B)
      → Ends P m Q X
      → ((a : A) → Ends (Q a) (f a) S X)
      → Ends P (m >>= f) S X
  unfolding ◌>>=◌
  Ends-bind m f km kf = record { at = λ w h. continue-Post Q S X (m w).0 f (m w).1 kf (km.at w h) }

module _ {E F A : Type 0} (Q : A → Db → Type 0) (X : Db → Type 0) where
  convert-Post :
      (f : E → F) (r : Result E A) (w : World)
      → Post Q X r w.db
      → Post Q X (map_err f (lift r) w).0 w.db
  unfolding map_err ◌>>=◌
  convert-Post f (ok a) w h = h
  convert-Post f (err e) w h = h

module _ {E F A : Type 0} {P : Db → Type 0} {Q : A → Db → Type 0} {X : Db → Type 0} where
  pub Ends-map_err : (f : E → F) (m : Exec E A) → Ends P m Q X → Ends P (map_err f m) Q X
  unfolding map_err ◌>>=◌
  Ends-map_err f m k = record { at = λ w h. convert-Post Q X f (m w).0 (m w).1 (k.at w h) }

-- What is ignored never fails.
module _ (F : Type 0) {E A : Type 0} (P : Db → Type 0) (X : Db → Type 0) where
  discard-Post :
      (r : Result E A) (w : World) → P w.db → Post (λ _. P) X (ignore {F = F} (lift r) w).0 w.db
  unfolding ignore ◌>>=◌
  discard-Post (ok a) w h = h
  discard-Post (err e) w h = h

module _ {E F A : Type 0} {P : Db → Type 0} {X : Db → Type 0} where
  pub Ends-ignore : (m : Exec E A) → Keeps P m → Ends P (ignore {F = F} m) (λ _. P) X
  unfolding ignore ◌>>=◌
  Ends-ignore m k = record { at = λ w h. discard-Post F P X (m w).0 (m w).1 (k.at w h) }

module _ {E A : Type 0} {Q : A → Db → Type 0} where
  pub Ends-pure : (a : A) {X : Db → Type 0} → Ends (Q a) (pure {E = E} a) Q X
  unfolding ◌>>=◌
  Ends-pure a = record { at = λ w h. h }

module _ {E A : Type 0} (Q : A → Db → Type 0) where
  settle-Post :
      (before start : Db) (r : Result E A) (w : World)
      → start ≡ before
      → Post Q (λ _. Unit {0}) r w.db
      → Post Q (λ db. db ≡ before) r (settle start r w).db
  settle-Post before start (ok a) w e h = h
  settle-Post before start (err x) w e h = e

module _ {E A : Type 0} {Q : A → Db → Type 0} where
  -- a transaction that fails restores the database
  pub Ends-transaction :
      (m : Exec E A) (before : Db)
      → Ends (λ db. db ≡ before) m Q (λ _. Unit {0})
      → Ends (λ db. db ≡ before) (transaction m) Q (λ db. db ≡ before)
  unfolding transaction
  Ends-transaction m before k = record {
    at = λ w h. settle-Post Q before w.db (m w).0 (m w).1 h (k.at w h);
  }

module _ (Q : Db → Type 0) (X : Db → Type 0) where
  commit-Post :
      (r : Result IoError Db) (w : World)
      → ((db : Db) → r ≡ ok db → Q db)
      → X w.db
      → Post (λ _. Q) X (commit r w).0 (commit r w).1.db
  commit-Post (ok db) w k h = k db refl
  commit-Post (err e) w k h = h

  attempt-Post :
      (s : Db → Result IoError Db) (f : Option Text) (w : World)
      → ((db : Db) → s w.db ≡ ok db → Q db)
      → X w.db
      → Post
          (λ _. Q)
          X
          (attempt f (λ u. commit (s u.db) u) w).0
          (attempt f (λ u. commit (s u.db) u) w).1.db
  attempt-Post s (some m) w k h = h
  attempt-Post s none w k h = commit-Post (s w.db) w k h

module _ {P : Db → Type 0} {Q : Db → Type 0} {X : Db → Type 0} where
  -- A statement has its effect, or the call fails and it has none.
  pub Ends-try_execute :
      (s : Db → Result IoError Db)
      → ((db db' : Db) → P db → s db ≡ ok db' → Q db')
      → ((db : Db) → P db → X db)
      → Ends P (try_execute s) (λ _. Q) X
  unfolding try_execute call
  Ends-try_execute s k x = record {
    at = λ w h.
        attempt-Post Q X s (next_fault w.faults) (record w { faults = later_faults w.faults })
          (λ db e. k w.db db h e) (x w.db h);
  }

  pub Ends-execute :
      (s : Db → Db)
      → ((db : Db) → P db → Q (s db))
      → ((db : Db) → P db → X db)
      → Ends P (execute s) (λ _. Q) X
  unfolding execute
  Ends-execute s k x =
      Ends-try_execute (λ db. ok (s db)) (λ db db' h e. subst Q (ok-injective e) (k db h)) x

module _ {A : Type 0} where
  fetch-Post :
      (X : Db → Type 0) (q : Db → A) (before : Db) (f : Option Text) (w : World)
      → w.db ≡ before
      → X before
      → Post
          (λ a db. a ≡ q before)
          X
          (attempt f (λ u. (ok (q u.db), u)) w).0
          (attempt f (λ u. (ok (q u.db), u)) w).1.db
  fetch-Post X q before none w e h = ap q e
  fetch-Post X q before (some m) w e h = rw e h

  -- a query answers from the database that is there
  pub Ends-fetch :
      {X : Db → Type 0} (q : Db → A) (before : Db)
      → X before
      → Ends (λ db. db ≡ before) (fetch q) (λ a db. a ≡ q before) X
  unfolding fetch call
  Ends-fetch {X} q before h = record {
    at = λ w e.
        fetch-Post X q before (next_fault w.faults) (record w { faults = later_faults w.faults }) e
          h;
  }
