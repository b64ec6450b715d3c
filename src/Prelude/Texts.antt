-- ===== src/Prelude/Texts.antt =====
-- Lists of texts, and membership in them.
use mathlib.Core.Path.{◌≡◌, refl}
use mathlib.Core.Bool.{false, ◌||◌}
use mathlib.Core.List.{List, [], ◌∷◌, ◌++◌}
use Prim.Native.String.{String}
use native.Mathlib.Omega.{arith}
use pypowervm.Prelude.Tests.{is_in, text_eq, text_eq_iff}

pub is_in-append_one :
    (v u : String) (xs : List String) → is_in v (xs ++ u ∷ []) ≡ (text_eq v u || is_in v xs)
unfolding is_in
is_in-append_one v u [] = refl
is_in-append_one v u (x ∷ xs) = ground (arith, is_in-append_one v u xs)

-- No text comes twice.
abbrev pub AreUnique : List String → Type 0
AreUnique [] = Unit
AreUnique (x ∷ xs) = (is_in x xs ≡ false) × AreUnique xs

pub AreUnique-append_one :
    (u : String) (xs : List String) → AreUnique xs → is_in u xs ≡ false → AreUnique (xs ++ u ∷ [])
unfolding is_in
AreUnique-append_one u [] d h = (refl, tt)
AreUnique-append_one u (x ∷ xs) d h = ground (
  arith,
  is_in-append_one x u xs,
  AreUnique-append_one u xs d.1,
  text_eq_iff x u,
  text_eq_iff u x,
)
