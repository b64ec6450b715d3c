-- ===== src/LparFields/Examples.antt =====
-- Memory from 128 up (pypowervm/utils/lpar_builder.py).
use pypowervm.Prelude.{ℕ, ◌==◌, not, true, false, some, none, inr, ltb, ◌≡◌, refl}
use pypowervm.LparFields.{Numbers, min_desired_max}
use pypowervm.LparFields.Bounds.{min_desired_max_lem}

abbrev whole : Numbers ℕ ℕ
whole = record { convert = λ n. inr n; lt = ltb; is_truthy = λ n. not (n == 0) }

min_desired_max_lem_example :
    min_desired_max whole (some 128) true false (some 256) (some 512) (some 1024) ≡ none
min_desired_max_lem_example =
    (min_desired_max_lem whole 128 256 512 1024 128 256 512 1024 true false refl refl refl refl).1
      (refl, refl, refl)
