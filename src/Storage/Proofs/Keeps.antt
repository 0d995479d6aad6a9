-- ===== src/Storage/Proofs/Keeps.antt =====
-- Invariants of the database under actions, whatever faults come, one rule for each way to build an
-- action.
use mert_blob_storage.Base.{◌≡◌, refl, Bool, true, false, Option, none, some, if◌then◌else◌}
use mert_blob_storage.Base.Text.{Text}
use mert_blob_storage.Storage.Db.{Db}
use mert_blob_storage.Storage.Exec.{
  World, Exec, Result, ok, err, IoError, pure, raise, lift, ok_or, ◌>>=◌, map_err, ignore,
  or_default, call, fetch, try_execute, execute, transaction, next_fault, later_faults, attempt,
  settle, commit,
}

-- `m` keeps `P`, whether it returns or fails.
pub record Keeps {E A : Type 0} (P : Db → Type 0) (m : Exec E A) : Type 0 where
  pub at : (w : World) → P w.db → P (m w).1.db

module _ {E A : Type 0} (P : Db → Type 0) where
  settle-keeps :
      (before : Db) (r : Result E A) (w : World) → P before → P w.db → P (settle before r w).db
  settle-keeps before (ok a) w h k = k
  settle-keeps before (err e) w h k = h

module _ {E A : Type 0} {P : Db → Type 0} where
  pub Keeps-pure : (a : A) → Keeps P (pure {E = E} a)
  unfolding ◌>>=◌
  Keeps-pure a = record { at = λ w h. h }

  pub Keeps-raise : (e : E) → Keeps P (raise {A = A} e)
  unfolding ◌>>=◌
  Keeps-raise e = record { at = λ w h. h }

  pub Keeps-lift : (r : Result E A) → Keeps P (lift r)
  unfolding ◌>>=◌
  Keeps-lift r = record { at = λ w h. h }

  pub Keeps-ok_or : (e : E) (o : Option A) → Keeps P (ok_or e o)
  unfolding ◌>>=◌
  Keeps-ok_or e none = record { at = λ w h. h }
  Keeps-ok_or e (some a) = record { at = λ w h. h }

  pub Keeps-if : (b : Bool) (m n : Exec E A) → Keeps P m → Keeps P n → Keeps P (if b then m else n)
  Keeps-if true m n km kn = km
  Keeps-if false m n km kn = kn

  pub Keeps-transaction : (m : Exec E A) → Keeps P m → Keeps P (transaction m)
  unfolding transaction
  Keeps-transaction m k = record {
    at = λ w h. let (r, w') = m w in settle-keeps P w.db r w' h (k.at w h);
  }

module _ {E A B : Type 0} {P : Db → Type 0} where
  continue-keeps :
      (r : Result E A) (f : A → Exec E B) (w : World)
      → ((a : A) → Keeps P (f a))
      → P w.db
      → P ((lift r >>= f) w).1.db
  unfolding ◌>>=◌
  continue-keeps (ok a) f w kf h = (kf a).at w h
  continue-keeps (err e) f w kf h = h

  pub Keeps-bind :
      (m : Exec E A) (f : A → Exec E B) → Keeps P m → ((a : A) → Keeps P (f a)) → Keeps P (m >>= f)
  unfolding ◌>>=◌
  Keeps-bind m f km kf = record {
    at = λ w h. let (r, w') = m w in continue-keeps r f w' kf (km.at w h);
  }

module _ {E F A : Type 0} {P : Db → Type 0} where
  pub Keeps-map_err : (f : E → F) (m : Exec E A) → Keeps P m → Keeps P (map_err f m)
  unfolding map_err
  Keeps-map_err f m k = record { at = λ w h. k.at w h }

  pub Keeps-ignore : (m : Exec E A) → Keeps P m → Keeps P (ignore {F = F} m)
  unfolding ignore
  Keeps-ignore m k = record { at = λ w h. k.at w h }

  pub Keeps-or_default : (d : A) (m : Exec E A) → Keeps P m → Keeps P (or_default {F = F} d m)
  unfolding or_default
  Keeps-or_default d m k = record { at = λ w h. k.at w h }

module _ {A : Type 0} {P : Db → Type 0} where
  attempt-keeps :
      (f : Option Text) (m : Exec IoError A) (w : World)
      → Keeps P m
      → P w.db
      → P (attempt f m w).1.db
  attempt-keeps none m w k h = k.at w h
  attempt-keeps (some message) m w k h = h

  pub Keeps-call : (m : Exec IoError A) → Keeps P m → Keeps P (call m)
  unfolding call
  Keeps-call m k = record {
    at = λ w h.
        attempt-keeps (next_fault w.faults) m (record w { faults = later_faults w.faults }) k h;
  }

  pub Keeps-fetch : (q : Db → A) → Keeps P (fetch q)
  unfolding fetch
  Keeps-fetch q = Keeps-call _ (record { at = λ w h. h })

module _ {P : Db → Type 0} where
  commit-keeps :
      (r : Result IoError Db) (w : World)
      → ((db : Db) → r ≡ ok db → P db)
      → P w.db
      → P (commit r w).1.db
  commit-keeps (ok db) w k h = k db refl
  commit-keeps (err e) w k h = h

  -- A statement with constraints keeps what it keeps where it goes through.
  pub Keeps-try_execute :
      (s : Db → Result IoError Db)
      → ((db db' : Db) → P db → s db ≡ ok db' → P db')
      → Keeps P (try_execute s)
  unfolding try_execute
  Keeps-try_execute s k =
      Keeps-call _ (record { at = λ w h. commit-keeps (s w.db) w (λ db e. k w.db db h e) h })

  pub Keeps-execute : (s : Db → Db) → ((db : Db) → P db → P (s db)) → Keeps P (execute s)
  unfolding execute try_execute
  Keeps-execute s k = Keeps-call _ (record { at = λ w h. k w.db h })

pub ruleset keeps_rules = (
  Keeps-pure, Keeps-raise, Keeps-lift, Keeps-ok_or, Keeps-if, Keeps-bind, Keeps-transaction,
  Keeps-map_err, Keeps-ignore, Keeps-or_default, Keeps-fetch,
)
