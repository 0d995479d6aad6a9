-- ===== src/Storage/Proofs/Disk.antt =====
-- What holds of the files after an action, apart for a result and for an error, whatever faults come.
use mert_blob_storage.Base.{ℕ, ◌≡◌, refl, Option, none, some}
use mert_blob_storage.Base.Text.{Text}
use mert_blob_storage.Storage.Exec.{
  World, Exec, Result, ok, err, IoError, pure, lift, ◌>>=◌, call, next_fault, later_faults, attempt,
}
use mert_blob_storage.Storage.FsIo.{Files, sys}

-- of the files and the readings of the clock
abbrev pub Assertion : Type 1
Assertion = Files → ℕ → Type 0

module _ {E A : Type 0} where
  abbrev pub Either : (A → Assertion) → Assertion → Result E A → World → Type 0
  Either Q X (ok a) w = Q a w.files w.ticks
  Either Q X (err e) w = X w.files w.ticks

  -- from a disk with `P`, a result `a` leaves one with `Q a`, and an error one with `X`
  pub record Leads (P : Assertion) (m : Exec E A) (Q : A → Assertion) (X : Assertion) : Type 0 where
    pub at : (w : World) → P w.files w.ticks → Either Q X (m w).0 (m w).1

module _ {E A B : Type 0} (Q : A → Assertion) (S : B → Assertion) (X : Assertion) where
  continue-Either :
      (r : Result E A) (f : A → Exec E B) (w : World)
      → ((a : A) → Leads (Q a) (f a) S X)
      → Either Q X r w
      → Either S X ((lift r >>= f) w).0 ((lift r >>= f) w).1
  unfolding ◌>>=◌
  continue-Either (ok a) f w k h = (k a).at w h
  continue-Either (err e) f w k h = h

module _ {E A B : Type 0} {P X : Assertion} {Q : A → Assertion} {S : B → Assertion} where
  pub Leads-bind :
      (m : Exec E A) (f : A → Exec E B)
      → Leads P m Q X
      → ((a : A) → Leads (Q a) (f a) S X)
      → Leads P (m >>= f) S X
  unfolding ◌>>=◌
  Leads-bind m f km kf = record {
    at = λ w h. continue-Either Q S X (m w).0 f (m w).1 kf (km.at w h);
  }

module _ {E A : Type 0} (X : Assertion) (Q : A → Assertion) where
  lifted :
      (r : Result E A) (w : World)
      → ((a : A) → r ≡ ok a → Q a w.files w.ticks)
      → X w.files w.ticks
      → Either Q X r w
  lifted (ok a) w k x = k a refl
  lifted (err e) w k x = x

  weaker :
      (R : A → Assertion) (r : Result E A) (w : World)
      → ((a : A) (fs : Files) (t : ℕ) → Q a fs t → R a fs t)
      → Either Q X r w
      → Either R X r w
  weaker R (ok a) w k h = k a w.files w.ticks h
  weaker R (err e) w k h = h

module _ {E A : Type 0} {P X : Assertion} {Q : A → Assertion} where
  pub Leads-weaken :
      {R : A → Assertion} (m : Exec E A)
      → ((a : A) (fs : Files) (t : ℕ) → Q a fs t → R a fs t)
      → Leads P m Q X
      → Leads P m R X
  Leads-weaken {R} m k l = record { at = λ w h. weaker X Q R (m w).0 (m w).1 k (l.at w h) }

  pub Leads-pure :
      (a : A) → ((fs : Files) (t : ℕ) → P fs t → Q a fs t) → Leads P (pure {E = E} a) Q X
  unfolding ◌>>=◌
  Leads-pure a k = record { at = λ w h. k w.files w.ticks h }

  pub Leads-lift :
      (r : Result E A)
      → ((fs : Files) (t : ℕ) → P fs t → X fs t)
      → ((a : A) → r ≡ ok a → (fs : Files) (t : ℕ) → P fs t → Q a fs t)
      → Leads P (lift r) Q X
  unfolding ◌>>=◌
  Leads-lift r x k = record {
    at = λ w h. lifted X Q r w (λ a e. k a e w.files w.ticks h) (x w.files w.ticks h);
  }

module _ {A : Type 0} {P X : Assertion} {Q : A → Assertion} where
  attempt-Either :
      (f : Option Text) (m : Exec IoError A) (w : World)
      → Leads P m Q X
      → ((fs : Files) (t : ℕ) → P fs t → X fs t)
      → P w.files w.ticks
      → Either Q X (attempt f m w).0 (attempt f m w).1
  attempt-Either none m w k x h = k.at w h
  attempt-Either (some message) m w k x h = x w.files w.ticks h

  -- a call that fails has had no effect
  pub Leads-call :
      (m : Exec IoError A)
      → ((fs : Files) (t : ℕ) → P fs t → X fs t)
      → Leads P m Q X
      → Leads P (call m) Q X
  unfolding call
  Leads-call m x k = record {
    at = λ w h.
        attempt-Either (next_fault w.faults) m (record w { faults = later_faults w.faults }) k x h;
  }

module _ {P X : Assertion} where
  pub Leads-sys : ((fs : Files) (t : ℕ) → P fs t → X fs t) → Leads P sys (λ _. P) X
  unfolding sys
  Leads-sys x = Leads-call _ x (record { at = λ w h. h })
