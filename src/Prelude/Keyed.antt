-- ===== src/Prelude/Keyed.antt =====
-- Python's dictionaries over any keys with a Boolean equality, in insertion order.
use Prim.Native.Nat.{ℕ}
use Prim.Native.String.{String}
use mathlib.Core.Path.{◌≡◌, refl}
use mathlib.Core.Logic.{◌↔◌}
use mathlib.Core.Bool.{Bool, true, false}
use mathlib.Core.Option.{Option, none, some}
use mathlib.Core.List.{List, [], ◌∷◌}
use native.Mathlib.Omega.{arith}
use pypowervm.Prelude.Tests.{text_eq, text_eq_iff, ◌==◌, if◌then◌else◌}

pub record KeyEq (K : Type 0) : Type 0 where
  pub beq : K → K → Bool
  pub beq_iff : (a b : K) → (beq a b ≡ true) ↔ (a ≡ b)

pub nat_beq_iff : (a b : ℕ) → ((a == b) ≡ true) ↔ (a ≡ b)
nat_beq_iff a b = (λ h. ground arith, λ h. ground arith)

instance abbrev pub nat_key : KeyEq ℕ
nat_key = record { beq = ◌==◌; beq_iff = nat_beq_iff }

instance abbrev pub text_key : KeyEq String
text_key = record { beq = text_eq; beq_iff = text_eq_iff }

module _ {K V : Type 0} ⦃e : KeyEq K⦄ where
  -- d.get(k)
  unfoldable pub get : K → List (K × V) → Option V
  get k [] = none
  get k ((j, v) ∷ d) = if e.beq j k then some v else get k d

  -- k in d
  unfoldable pub has_key : K → List (K × V) → Bool
  has_key k [] = false
  has_key k ((j, v) ∷ d) = if e.beq j k then true else has_key k d

  -- d[k] = v: a key that is there keeps its place.
  unfoldable pub put : K → V → List (K × V) → List (K × V)
  put k v [] = (k, v) ∷ []
  put k v ((j, w) ∷ d) = if e.beq j k then (j, v) ∷ d else (j, w) ∷ put k v d

  -- del d[k], where the key may be missing.
  unfoldable pub del : K → List (K × V) → List (K × V)
  del k [] = []
  del k ((j, v) ∷ d) = let rest = del k d in if e.beq j k then rest else (j, v) ∷ rest

  -- No key comes twice.
  abbrev pub IsDistinct : List (K × V) → Type 0
  IsDistinct [] = Unit
  IsDistinct ((k, v) ∷ d) = (has_key k d ≡ false) × IsDistinct d

  pub get-put :
      (k j : K) (v : V) (d : List (K × V))
      → get j (put k v d) ≡ (if e.beq k j then some v else get j d)
  unfolding get put
  get-put k j v [] = refl
  get-put k j v ((i, w) ∷ d) =
      ground (arith, e.beq_iff k j, e.beq_iff i k, e.beq_iff i j, get-put k j v d)

  pub get-del :
      (k j : K) (d : List (K × V)) → get j (del k d) ≡ (if e.beq k j then none else get j d)
  unfolding get del
  get-del k j [] = ground arith
  get-del k j ((i, w) ∷ d) =
      ground (arith, e.beq_iff k j, e.beq_iff i k, e.beq_iff i j, get-del k j d)

  pub has_key-get :
      (k : K) (d : List (K × V)) → has_key k d ≡ (elim (get k d) [ none ↦ false | some v ↦ true ])
  unfolding get has_key
  has_key-get k [] = refl
  has_key-get k ((j, v) ∷ d) = ground (arith, has_key-get k d)

  pub del_absent : (k : K) (d : List (K × V)) → has_key k d ≡ false → del k d ≡ d
  unfolding has_key del
  del_absent k [] h = refl
  del_absent k ((j, v) ∷ d) h = ground (arith, del_absent k d)

  pub del-put_fresh :
      (k : K) (v : V) (d : List (K × V)) → has_key k d ≡ false → del k (put k v d) ≡ d
  unfolding has_key put del
  del-put_fresh k v [] h = ground (arith, e.beq_iff k k)
  del-put_fresh k v ((j, w) ∷ d) h = ground (arith, del-put_fresh k v d, del_absent k d)

  pub put-put : (k : K) (v w : V) (d : List (K × V)) → put k w (put k v d) ≡ put k w d
  unfolding put
  put-put k v w [] = ground (arith, e.beq_iff k k)
  put-put k v w ((j, x) ∷ d) = ground (arith, put-put k v w d, e.beq_iff j k)

  pub put-get : (k : K) (v : V) (d : List (K × V)) → get k d ≡ some v → put k v d ≡ d
  unfolding get put
  put-get k v [] h = cc
  put-get k v ((j, w) ∷ d) h = ground (arith, put-get k v d)

  pub has_key-put :
      (k j : K) (v : V) (d : List (K × V))
      → has_key j (put k v d) ≡ (if e.beq k j then true else has_key j d)
  unfolding has_key put
  has_key-put k j v [] = refl
  has_key-put k j v ((i, w) ∷ d) =
      ground (arith, e.beq_iff k j, e.beq_iff i k, e.beq_iff i j, has_key-put k j v d)

  pub has_key-del :
      (k j : K) (d : List (K × V))
      → has_key j (del k d) ≡ (if e.beq k j then false else has_key j d)
  unfolding has_key del
  has_key-del k j [] = ground arith
  has_key-del k j ((i, w) ∷ d) =
      ground (arith, e.beq_iff k j, e.beq_iff i k, e.beq_iff i j, has_key-del k j d)

  pub put-IsDistinct : (k : K) (v : V) (d : List (K × V)) → IsDistinct d → IsDistinct (put k v d)
  unfolding put
  put-IsDistinct k v [] h = (unfold has_key in refl, tt)
  put-IsDistinct k v ((j, w) ∷ d) h =
      ground (arith, put-IsDistinct k v d h.1, has_key-put k j v d, e.beq_iff k j, e.beq_iff j k)

  pub del-IsDistinct : (k : K) (d : List (K × V)) → IsDistinct d → IsDistinct (del k d)
  unfolding del
  del-IsDistinct k [] h = tt
  del-IsDistinct k ((j, w) ∷ d) h = ground (arith, del-IsDistinct k d h.1, has_key-del k j d)
