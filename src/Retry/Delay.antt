-- ===== src/Retry/Delay.antt =====
-- The delay functions of pypowervm/utils/retry.py: how long STEPPED_DELAY and
-- STEPPED_RANDOM_DELAY sleep. Times are in quarters of a second, in which every constant of the
-- source is a whole number (30 seconds are 120). `random.random()` is a fraction `k / unit` below 1.
use Prim.Native.Nat.{min}
use native.Mathlib.Nat.{pow-le-pow_right, div-le_of_le-mul, div-lt_iff_lt-mul}
use pypowervm.Prelude.{
  ℕ, zero, suc, ◌+◌, ◌-◌, ◌*◌, ◌/◌, ◌^◌, ◌≤◌, ◌<◌, ◌≡◌, refl, Option, none, some, List, [], ◌∷◌,
  arith, ltb, lt→ltb, ◌==◌, false, if◌then◌else◌, get_elem?,
}

-- `min(0.25 * 3 ** (attempt - 1) - 0.25, 30)`
unfoldable pub stepped_delay : ℕ → ℕ
stepped_delay attempt = min (3 ^ (attempt - 1) - 1) 120

-- gen_random_delay's bounds, as the keyword arguments give them
pub record Span : Type 0 where
  pub min_s : ℕ
  pub max_s : ℕ

abbrev span : ℕ → ℕ → Span
span lo hi = record { min_s = lo; max_s = hi }

abbrev pub random_delay_steps : List Span
random_delay_steps = span 0 0 ∷ span 0 4 ∷ span 2 16 ∷ span 8 52 ∷ span 26 120 ∷ span 0 240 ∷ []

-- `unit` times the sleep of gen_random_delay's function, where random.random() is `k / unit`
unfoldable pub random_delay : Span → ℕ → ℕ → ℕ
random_delay s unit k = s.min_s * unit + k * (s.max_s - s.min_s)

-- the index into RANDOM_DELAY_STEPS
unfoldable pub step_position : ℕ → ℕ → ℕ
step_position attempt max_attempts =
    let pos = ((attempt - 1) * 6) / max_attempts in if ltb pos 6 then pos else 6 - 1

-- None stands for what is raised: a ZeroDivisionError, or an IndexError for a position that is out
-- of range.
unfoldable pub stepped_random_delay : ℕ → ℕ → ℕ → ℕ → Option ℕ
unfolding random_delay step_position
stepped_random_delay attempt max_attempts unit k =
    if max_attempts == 0
    then none
    else elim (get_elem? random_delay_steps (step_position attempt max_attempts)) [
      | none ↦ none
      | some s ↦ some (random_delay s unit k)
    ]

-- STEPPED_DELAY never shortens from one attempt to a later one, never exceeds 30 seconds, and is
-- 30 seconds six attempts later, whatever attempt one counts from.
stepped_delay_lem :
    (a b : ℕ)
    → a ≤ b
    → (stepped_delay a ≤ stepped_delay b) × (stepped_delay b ≤ 120) × (stepped_delay (b + 6) ≡ 120)
unfolding stepped_delay
stepped_delay_lem a b h =
    let below : 3 ^ (a - 1) ≤ 3 ^ (b - 1) = pow-le-pow_right (omega arith) (omega arith) in
    let big : 3 ^ 5 ≤ 3 ^ (b + 6 - 1) =
      pow-le-pow_right {n = 3} (omega arith) {i = 5} (omega arith) in
    (omega arith, omega arith, omega arith)

step_position-lt : (attempt max_attempts : ℕ) → step_position attempt max_attempts < 6
unfolding step_position
step_position-lt attempt max_attempts = ground arith

-- Bounds of a delay between the two ends of its span.
Within : Span → ℕ → ℕ → Type 0
Within s unit t = (s.min_s * unit ≤ t) × (t ≤ s.max_s * unit)

random_delay-Within :
    (s : Span) (unit k : ℕ) → s.min_s ≤ s.max_s → k < unit → Within s unit (random_delay s unit k)
unfolding random_delay Within
random_delay-Within s unit k h below = (omega arith, grind arith)

IsStep : ℕ → Span → Type 0
IsStep position s =
    (get_elem? random_delay_steps position ≡ some s) × (s.min_s ≤ s.max_s) × (s.max_s ≤ 240)

IsStep-at : (position : ℕ) → position < 6 → (s : Span) × IsStep position s
unfolding IsStep
IsStep-at zero h = (span 0 0, (refl, omega arith, omega arith))
IsStep-at (suc zero) h = (span 0 4, (refl, omega arith, omega arith))
IsStep-at (suc (suc zero)) h = (span 2 16, (refl, omega arith, omega arith))
IsStep-at (suc (suc (suc zero))) h = (span 8 52, (refl, omega arith, omega arith))
IsStep-at (suc (suc (suc (suc zero)))) h = (span 26 120, (refl, omega arith, omega arith))
IsStep-at (suc (suc (suc (suc (suc zero))))) h = (span 0 240, (refl, omega arith, omega arith))
IsStep-at (suc (suc (suc (suc (suc (suc position)))))) h = absurd (omega arith)

position-lt :
    (attempt max_attempts : ℕ)
    → zero < attempt
    → attempt ≤ max_attempts
    → (attempt - 1) * 6 / max_attempts < 6
position-lt attempt max_attempts h k = grind (arith, div-le_of_le-mul, div-lt_iff_lt-mul)

stepped_random_delay_at :
    (attempt max_attempts unit k : ℕ) (s : Span)
    → zero < max_attempts
    → (attempt - 1) * 6 / max_attempts < 6
    → get_elem? random_delay_steps ((attempt - 1) * 6 / max_attempts) ≡ some s
    → stepped_random_delay attempt max_attempts unit k ≡ some (random_delay s unit k)
unfolding stepped_random_delay
stepped_random_delay_at attempt max_attempts unit k s h lt at =
    let nonzero : (max_attempts == 0) ≡ false = ground arith in rw (nonzero, lt→ltb _ _ lt, at)

-- Within the tries that there are, STEPPED_RANDOM_DELAY raises nothing, and sleeps for a time
-- between the ends of the step that its documentation gives: the one at the attempt's share of all
-- attempts, with no clamping. No sleep is above 60 seconds.
stepped_random_delay_lem :
    (attempt max_attempts unit k : ℕ)
    → zero < attempt
    → attempt ≤ max_attempts
    → k < unit
    → (s : Span) × (t : ℕ) × (get_elem? random_delay_steps ((attempt - 1) * 6 / max_attempts)
        ≡ some s)
      × (stepped_random_delay attempt max_attempts unit k ≡ some t)
      × (s.min_s * unit ≤ t)
      × (t ≤ s.max_s * unit)
      × (t ≤ 240 * unit)
unfolding stepped_random_delay IsStep Within
stepped_random_delay_lem attempt max_attempts unit k h below frac =
    let lt = position-lt attempt max_attempts h below in
    let (s, at) = IsStep-at ((attempt - 1) * 6 / max_attempts) lt in
    let w = random_delay-Within s unit k at.1 frac in
    (
      s,
      random_delay s unit k,
      at.0,
      stepped_random_delay_at attempt max_attempts unit k s (omega arith) lt at.0,
      w.0,
      w.1,
      grind arith,
    )
