-- ===== src/Storage/Exec.antt =====
-- Actions on the world of one server process: the database, the files, the clock, and the faults
-- that the environment will inject. An action that fails keeps what was written before.
use mert_blob_storage.Base.{ℕ, Option, none, some, List, [], ◌∷◌}
use mert_blob_storage.Base.Text.{Text}
use mert_blob_storage.Storage.Db.{Db}

pub data Result (E A : Type 0) : Type 0 where
  ok : A → Result E A
  err : E → Result E A

-- An error of SQLite or of the file system.
pub data IoError : Type 0 where
  unique_violation constraint_violation not_found : IoError
  other : Text → IoError

pub record World : Type 0 where
  pub db : Db
  -- the file at each path
  pub files : List (Text × Text)
  -- the readings of the clock so far
  pub ticks : ℕ
  -- for each coming call of SQLite or of the file system, the message that it fails with, if it
  -- fails; no call fails after the end of the list
  pub faults : List (Option Text)

abbrev pub Exec : Type 0 → Type 0 → Type 0
Exec E A = World → Result E A × World

module _ {E A : Type 0} where
  pub pure : A → Exec E A
  pure a w = (ok a, w)

  pub raise : E → Exec E A
  raise e w = (err e, w)

  pub lift : Result E A → Exec E A
  lift r w = (r, w)

  pub ok_or : E → Option A → Exec E A
  ok_or e none w = (err e, w)
  ok_or e (some a) w = (ok a, w)

module _ {E A B : Type 0} where
  abbrev continue : Result E A → (A → Exec E B) → Exec E B
  continue (ok a) f w = f a w
  continue (err e) f w = (err e, w)

  infixl 5 ◌>>=◌ ◌>>◌
  -- opening this opens `pure`, `raise`, `lift` and `ok_or` too
  unfoldable pub ◌>>=◌ : Exec E A → (A → Exec E B) → Exec E B
  unfolding pure raise lift ok_or
  ◌>>=◌ m f w = let (r, w') = m w in continue r f w'

  abbrev pub ◌>>◌ : Exec E A → Exec E B → Exec E B
  m >> n = m >>= λ _. n

module _ {E F A : Type 0} where
  abbrev convert : (E → F) → Result E A → Result F A
  convert f (ok a) = ok a
  convert f (err e) = err (f e)

  -- `.map_err(f)`
  unfoldable pub map_err : (E → F) → Exec E A → Exec F A
  map_err f m w = let (r, w') = m w in (convert f r, w')

  abbrev discard : Result E A → Result F (Unit {0})
  discard r = ok tt

  -- `let _ = m`
  unfoldable pub ignore : Exec E A → Exec F (Unit {0})
  ignore m w = let (r, w') = m w in (discard r, w')

module _ {E F A : Type 0} where
  abbrev default_to : A → Result E A → Result F A
  default_to d (ok a) = ok a
  default_to d (err e) = ok d

  -- `.ok()`, `.unwrap_or_default()`: a failed call yields the default
  unfoldable pub or_default : A → Exec E A → Exec F A
  or_default d m w = let (r, w') = m w in (default_to d r, w')

-- The fault of the next call.
abbrev pub next_fault : List (Option Text) → Option Text
next_fault [] = none
next_fault (f ∷ fs) = f

abbrev pub later_faults : List (Option Text) → List (Option Text)
later_faults [] = []
later_faults (f ∷ fs) = fs

-- One call of SQLite or of the file system: it fails as a whole, or it has its effect.
module _ {A : Type 0} where
  abbrev pub attempt : Option Text → Exec IoError A → Exec IoError A
  attempt none m w = m w
  attempt (some message) m w = (err (other message), w)

  unfoldable pub call : Exec IoError A → Exec IoError A
  call m w = attempt (next_fault w.faults) m (record w { faults = later_faults w.faults })

-- a query, and a statement that may violate a constraint
module _ {A : Type 0} where
  unfoldable pub fetch : (Db → A) → Exec IoError A
  unfolding call
  fetch q = call (λ w. (ok (q w.db), w))

abbrev pub commit : Result IoError Db → Exec IoError (Unit {0})
commit (ok db) w = (ok tt, record w { db = db })
commit (err e) w = (err e, w)

unfoldable pub try_execute : (Db → Result IoError Db) → Exec IoError (Unit {0})
unfolding call
try_execute s = call (λ w. commit (s w.db) w)

unfoldable pub execute : (Db → Db) → Exec IoError (Unit {0})
unfolding try_execute
execute s = try_execute (λ db. ok (s db))

-- A transaction that does not reach its end leaves the database as it was.
module _ {E A : Type 0} where
  abbrev pub settle : Db → Result E A → World → World
  settle before (ok a) w = w
  settle before (err e) w = record w { db = before }

  unfoldable pub transaction : Exec E A → Exec E A
  transaction m w = let (r, w') = m w in (r, settle w.db r w')
