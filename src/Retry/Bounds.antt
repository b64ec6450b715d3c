-- ===== src/Retry/Bounds.antt =====
-- How often the retry decorator of pypowervm/utils/retry.py calls the method that it wraps.
use pypowervm.Prelude.{ℕ, zero, suc, ◌+◌, ◌≤◌, ◌<◌, ◌≡◌, arith}
use pypowervm.Exec.{Exec}
use pypowervm.Retry.{Exn, Options, test, check, test_retry, on_exception, attempt, loop, retry}

-- `calls` counts the calls of the method: it goes up by one with each, and the hooks leave it.
pub record Counts {W Args R E : Type 0} (o : Options W Args R E) (func : Args → Exec W (Exn E) R)
    (calls : W → ℕ) : Type 0 where
  pub by_func : (a : Args) (w : W) → calls (func a w).1 ≡ calls w + 1
  pub by_test : (e : Exn E) (t : ℕ) (a : Args) (w : W) → calls (test o e t a w).1 ≡ calls w
  pub by_check : (r : R) (t : ℕ) (a : Args) (w : W) → calls (check o r t a w).1 ≡ calls w
  pub by_delay : (t : ℕ) (a : Args) (w : W) → calls (o.delay_func t o.tries a w).1 ≡ calls w
  pub by_argmod : (t : ℕ) (a : Args) (w : W) → calls (o.argmod_func t o.tries a w).1 ≡ calls w

module _ {W Args R E : Type 0} (o : Options W Args R E) (func : Args → Exec W (Exn E) R)
    (calls : W → ℕ) (c : Counts o func calls) where
  calls-test_retry :
      (e : Exn E) (t : ℕ) (a : Args) (w : W) → calls (test_retry o e t a w).1 ≡ calls w
  unfolding test_retry
  calls-test_retry e t a w = ground (arith, c.by_test e t a w)

  calls-on_exception :
      (t : ℕ) (a : Args) (e : Exn E) (w : W) → calls (on_exception o t a e w).1 ≡ calls w
  unfolding on_exception
  calls-on_exception t a e w = ground (arith, calls-test_retry e t a w)

  calls-attempt : (t : ℕ) (a : Args) (w : W) → calls (attempt o func t a w).1 ≡ calls w + 1
  unfolding attempt
  calls-attempt t a w = grind (arith, c.by_func, c.by_check, calls-on_exception)

  calls-loop :
      (left t : ℕ) (a : Args) (w : W)
      → (calls w ≤ calls (loop o func left t a w).1)
        × (calls (loop o func left t a w).1 ≤ calls w + left)
  unfolding loop
  calls-loop zero t a w = omega arith
  calls-loop (suc left) t a w =
      grind (arith, calls-attempt t a w, c.by_delay, c.by_argmod, calls-loop left (suc t))

  calls-loop_some :
      (left t : ℕ) (a : Args) (w : W) → zero < left → calls w < calls (loop o func left t a w).1
  unfolding loop
  calls-loop_some zero t a w h = absurd (omega arith)
  calls-loop_some (suc left) t a w h =
      grind (arith, calls-attempt t a w, c.by_delay, c.by_argmod, calls-loop left (suc t))

  -- Where `tries` is not zero the method is called at least once and at most `tries` times,
  -- whatever it and the hooks answer, so long as the hooks do not call it themselves.
  calls-retry :
      (a : Args) (w : W)
      → zero < o.tries
      → (calls w < calls (retry o func a w).1) × (calls (retry o func a w).1 ≤ calls w + o.tries)
  calls-retry a w h =
      unfold retry in (calls-loop_some o.tries 1 a w h, (calls-loop o.tries 1 a w).1)
