-- ===== src/Exec/Returns.antt =====
-- What a sequence that returned has done.
use pypowervm.Prelude.{◌≡◌, refl, sym, arith}
use pypowervm.Exec.{Result, ok, err, hang, Exec, continue, ◌>>=◌}

module _ {S E A B : Type 0} where
  continue_returns :
      (r : Result E A) (t : S) (f : A → Exec S E B) (b : B) (u : S)
      → continue r f t ≡ (ok b, u)
      → (a : A) × (r ≡ ok a) × (f a t ≡ (ok b, u))
  continue_returns (ok a) t f b u h = (a, refl, h)
  continue_returns (err e) t f b u h = absurd (ground arith)
  continue_returns hang t f b u h = absurd (ground arith)

  -- Where the sequence returned, its first part did, and the second returned from there.
  pub >>=-returns :
      (m : Exec S E A) (f : A → Exec S E B) (s : S) (b : B) (u : S)
      → (m >>= f) s ≡ (ok b, u)
      → (a : A) × ((m s).0 ≡ ok a) × (f a (m s).1 ≡ (ok b, u))
  >>=-returns m f s b u h = continue_returns (m s).0 (m s).1 f b u h

-- What a run that returned is, with the state it left.
pub returned_pair : {A S E : Type 0} {m : Result E A × S} {a : A} → m.0 ≡ ok a → m ≡ (ok a, m.1)
returned_pair h = rw (sym h) refl
