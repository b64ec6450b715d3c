-- ===== src/Exec/Keeps.antt =====
-- Methods that end and keep an invariant of the state, whether they return or raise.
use pypowervm.Prelude.{◌≢◌, Bool, true, false, if◌then◌else◌, arith}
use pypowervm.Exec.{Result, ok, err, hang, Exec, pure, raise, handle, catch, continue, ◌>>=◌}

module _ {S E : Type 0} (I : S → Type 0) where
  -- Whatever state with the invariant it starts from, it ends, and in one with the invariant.
  abbrev pub Keeps : {A : Type 0} → Exec S E A → Type 0
  Keeps m = (s : S) → I s → ((m s).0 ≢ hang) × I (m s).1

  pub pure-Keeps : {A : Type 0} (a : A) → Keeps (pure a)
  pure-Keeps a s h = (λ e. cc, h)

  pub raise-Keeps : {A : Type 0} (e : E) → Keeps {A = A} (raise e)
  raise-Keeps e s h = (λ e. cc, h)

  continue-Keeps :
      {A B : Type 0} (r : Result E A) (f : A → Exec S E B)
      → r ≢ hang
      → ((a : A) → Keeps (f a))
      → Keeps (continue r f)
  continue-Keeps (ok a) f ends k s h = k a s h
  continue-Keeps (err e) f ends k s h = (λ e. cc, h)
  continue-Keeps hang f ends k s h = absurd (ground (arith, ends))

  pub >>=-Keeps :
      {A B : Type 0} (m : Exec S E A) (f : A → Exec S E B)
      → Keeps m
      → ((a : A) → Keeps (f a))
      → Keeps (m >>= f)
  >>=-Keeps m f k l s h = continue-Keeps (m s).0 f (k s h).0 l (m s).1 (k s h).1

  handle-Keeps :
      {A : Type 0} (r : Result E A) (f : E → Exec S E A)
      → r ≢ hang
      → ((e : E) → Keeps (f e))
      → Keeps (handle r f)
  handle-Keeps (ok a) f ends k s h = (λ e. cc, h)
  handle-Keeps (err e) f ends k s h = k e s h
  handle-Keeps hang f ends k s h = absurd (ground (arith, ends))

  pub catch-Keeps :
      {A : Type 0} (m : Exec S E A) (f : E → Exec S E A)
      → Keeps m
      → ((e : E) → Keeps (f e))
      → Keeps (catch m f)
  catch-Keeps m f k l s h = handle-Keeps (m s).0 f (k s h).0 l (m s).1 (k s h).1

  pub if-Keeps :
      {A : Type 0} (b : Bool) (m n : Exec S E A) → Keeps m → Keeps n → Keeps (if b then m else n)
  if-Keeps true m n k l = k
  if-Keeps false m n k l = l
