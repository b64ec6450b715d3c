-- ===== src/Retry/Outcome.antt =====
-- What the retry decorator of pypowervm/utils/retry.py returns or raises.
use pypowervm.Prelude.{
  ℕ, zero, suc, ◌+◌, ◌≤◌, ◌<◌, ◌≡◌, true, ◌==◌, Option, none, some, arith, if◌then◌else◌,
}
use pypowervm.Exec.{Exec, ok, err}
use pypowervm.Retry.{
  Exn, http, other, Options, again, test, check, on_exception, attempt, loop, retry, to_raise,
  in_codes, is_retry_except,
}

-- An exception that the loop tries again after, where no test_func is given.
abbrev pub IsRetryable : {W Args R E : Type 0} → Options W Args R E → Exn E → Type 0
IsRetryable o (http status _) = in_codes o.http_codes status ≡ true
IsRetryable o (other e) = is_retry_except o.retry_except e ≡ true

-- Delays and changes of arguments that do not raise, and do not call the method.
pub record Quiet {W Args R E : Type 0} (o : Options W Args R E) (calls : W → ℕ) : Type 0 where
  pub delay_ok : (t : ℕ) (a : Args) (w : W) → (o.delay_func t o.tries a w).0 ≡ ok tt
  pub delay_calls : (t : ℕ) (a : Args) (w : W) → calls (o.delay_func t o.tries a w).1 ≡ calls w
  pub next : ℕ → Args → W → Args
  pub argmod_ok : (t : ℕ) (a : Args) (w : W) → (o.argmod_func t o.tries a w).0 ≡ ok (next t a w)
  pub argmod_calls : (t : ℕ) (a : Args) (w : W) → calls (o.argmod_func t o.tries a w).1 ≡ calls w

module _ {W Args R E : Type 0} (o : Options W Args R E) (func : Args → Exec W (Exn E) R)
    (untested : o.test_func ≡ none) where
  on_exception-retryable :
      (e : Exn E) (t : ℕ) (a : Args) (w : W)
      → IsRetryable o e
      → on_exception o t a e w
        ≡ (if t == o.tries then (err (to_raise o.limit_except e), w) else (ok again, w))
  unfolding on_exception test
  on_exception-retryable (http status e) t a w h = ground arith
  on_exception-retryable (other e) t a w h = ground arith

  pub attempt-retryable :
      (e : Exn E) (t : ℕ) (a : Args) (w : W)
      → IsRetryable o e
      → (func a w).0 ≡ err e
      → attempt o func t a w ≡ (
          if t == o.tries
          then (err (to_raise o.limit_except e), (func a w).1)
          else (ok again, (func a w).1))
  unfolding attempt
  attempt-retryable e t a w h f = rw (f) (on_exception-retryable e t a (func a w).1 h)

module _ {W Args R E : Type 0} (o : Options W Args R E) (func : Args → Exec W (Exn E) R)
    (calls : W → ℕ) (untested : o.test_func ≡ none) (q : Quiet o calls)
    (counted : (a : Args) (w : W) → calls (func a w).1 ≡ calls w + 1) where
  module _ (e : Exn E) (retryable : IsRetryable o e)
      (fails : (a : Args) (w : W) → (func a w).0 ≡ err e) where
    loop_exhausted :
        (left t : ℕ) (a : Args) (w : W)
        → zero < left
        → left + t ≡ o.tries + 1
        → ((loop o func left t a w).0 ≡ err (to_raise o.limit_except e))
          × (calls (loop o func left t a w).1 ≡ calls w + left)
    unfolding loop
    loop_exhausted zero t a w h k = absurd (omega arith)
    loop_exhausted (suc left) t a w h k = ground (
      arith,
      attempt-retryable o func untested e t a w retryable (fails a w),
      counted a w,
      q.delay_ok t a (func a w).1,
      q.delay_calls t a (func a w).1,
      q.argmod_ok t a (o.delay_func t o.tries a (func a w).1).1,
      q.argmod_calls t a (o.delay_func t o.tries a (func a w).1).1,
      loop_exhausted left (suc t) (q.next t a (o.delay_func t o.tries a (func a w).1).1)
          (o.argmod_func t o.tries a (o.delay_func t o.tries a (func a w).1).1).1,
    )

    -- A method that fails on every call with an exception that is tried again after is called
    -- `tries` times, and then limit_except is raised, or the exception itself where none is given.
    pub retry_exhausted :
        (a : Args) (w : W)
        → zero < o.tries
        → ((retry o func a w).0 ≡ err (to_raise o.limit_except e))
          × (calls (retry o func a w).1 ≡ calls w + o.tries)
    retry_exhausted a w h = unfold retry in loop_exhausted o.tries 1 a w h (omega arith)

  module _ (r : R) (returns : (a : Args) (w : W) → (func a w).0 ≡ ok r)
      (wants_more : (r : R) (t : ℕ) (a : Args) (w : W) → (check o r t a w).0 ≡ ok true)
      (check_calls : (r : R) (t : ℕ) (a : Args) (w : W) → calls (check o r t a w).1 ≡ calls w) where
    loop_unsatisfied :
        (left t : ℕ) (a : Args) (w : W)
        → zero < left
        → left + t ≡ o.tries + 1
        → ((loop o func left t a w).0 ≡ ok (some r))
          × (calls (loop o func left t a w).1 ≡ calls w + left)
    unfolding loop attempt
    loop_unsatisfied zero t a w h k = absurd (omega arith)
    loop_unsatisfied (suc left) t a w h k =
        let w1 = (check o r t a (func a w).1).1 in
        ground (
          arith,
          returns a w,
          wants_more r t a (func a w).1,
          counted a w,
          check_calls r t a (func a w).1,
          q.delay_ok t a w1,
          q.delay_calls t a w1,
          q.argmod_ok t a (o.delay_func t o.tries a w1).1,
          q.argmod_calls t a (o.delay_func t o.tries a w1).1,
          loop_unsatisfied left (suc t) (q.next t a (o.delay_func t o.tries a w1).1)
              (o.argmod_func t o.tries a (o.delay_func t o.tries a w1).1).1,
        )

    -- A method that always returns a response with which the checker is not content is called
    -- `tries` times, and its last response is returned.
    retry_unsatisfied :
        (a : Args) (w : W)
        → zero < o.tries
        → ((retry o func a w).0 ≡ ok (some r)) × (calls (retry o func a w).1 ≡ calls w + o.tries)
    retry_unsatisfied a w h = unfold retry in loop_unsatisfied o.tries 1 a w h (omega arith)

  module _ (unchecked : o.resp_checker ≡ none) (e : Exn E) (retryable : IsRetryable o e) (r : R)
      (k : ℕ) (fails : (a : Args) (w : W) → calls w < k → (func a w).0 ≡ err e)
      (succeeds : (a : Args) (w : W) → k ≤ calls w → (func a w).0 ≡ ok r) where
    loop_recovers :
        (left t : ℕ) (a : Args) (w : W)
        → left + t ≡ o.tries + 1
        → calls w + 1 ≡ t
        → calls w ≤ k
        → k < o.tries
        → ((loop o func left t a w).0 ≡ ok (some r)) × (calls (loop o func left t a w).1 ≡ k + 1)
    unfolding loop attempt check
    loop_recovers zero t a w h n below room = absurd (omega arith)
    loop_recovers (suc left) t a w h n below room = ground (
      arith,
      on_exception-retryable o func untested e t a (func a w).1 retryable,
      fails a w,
      succeeds a w,
      counted a w,
      q.delay_ok t a (func a w).1,
      q.delay_calls t a (func a w).1,
      q.argmod_ok t a (o.delay_func t o.tries a (func a w).1).1,
      q.argmod_calls t a (o.delay_func t o.tries a (func a w).1).1,
      loop_recovers left (suc t) (q.next t a (o.delay_func t o.tries a (func a w).1).1)
          (o.argmod_func t o.tries a (o.delay_func t o.tries a (func a w).1).1).1,
    )

    -- Where there is neither a resp_checker nor a test_func, and delay_func and argmod_func raise
    -- nothing and do not call the method, a method that fails `k` times, fewer than `tries`, with an
    -- exception that is tried again after, and succeeds from then on, is called `k + 1` times, and
    -- its response is returned.
    pub retry_recovers :
        (a : Args) (w : W)
        → calls w ≡ zero
        → k < o.tries
        → ((retry o func a w).0 ≡ ok (some r)) × (calls (retry o func a w).1 ≡ k + 1)
    retry_recovers a w h room =
        unfold retry in loop_recovers o.tries 1 a w (omega arith) (omega arith) (omega arith) room

-- What an exception that is not tried again after comes out as, given limit_except.
abbrev pub surfaced : {E : Type 0} → Option (Exn E) → Exn E → Exn E
surfaced limit (http status e) = to_raise limit (http status e)
surfaced limit (other e) = other e

module _ {W Args R E : Type 0} (o : Options W Args R E) (func : Args → Exec W (Exn E) R) where
  loop_not_retried :
      (left t : ℕ) (a : Args) (w : W) (e : Exn E)
      → zero < left
      → o.test_func ≡ none
      → (func a w).0 ≡ err e
      → ¬ IsRetryable o e
      → loop o func left t a w ≡ (err (surfaced o.limit_except e), (func a w).1)
  unfolding loop attempt on_exception
  loop_not_retried zero t a w e h n f not_retryable = absurd (omega arith)
  loop_not_retried (suc left) t a w (http status e) h n f not_retryable = ground arith
  loop_not_retried (suc left) t a w (other e) h n f not_retryable = ground arith

  -- The exception of a first call that is not one to try again after ends the loop at once. An
  -- HttpError, where no test_func is given, is replaced by limit_except where there is one; any
  -- other exception comes out as it is.
  pub retry_not_retried :
      (a : Args) (w : W) (e : Exn E)
      → zero < o.tries
      → o.test_func ≡ none
      → (func a w).0 ≡ err e
      → ¬ IsRetryable o e
      → retry o func a w ≡ (err (surfaced o.limit_except e), (func a w).1)
  retry_not_retried a w e = unfold retry in loop_not_retried o.tries 1 a w e
