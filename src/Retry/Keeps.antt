-- ===== src/Retry/Keeps.antt =====
-- A retried method ends and keeps what each of its callables keeps (pypowervm/utils/retry.py).
use pypowervm.Prelude.{ℕ, zero, suc, ◌≡◌, none, some, not, ◌||◌, ◌==◌, is_some}
use pypowervm.Exec.{Exec}
use pypowervm.Exec.Keeps.{Keeps, pure-Keeps, raise-Keeps, >>=-Keeps, catch-Keeps, if-Keeps}
use pypowervm.Retry.{
  Exn, http, other, Options, give, again, test, check, raise_exc, test_retry, on_exception, attempt,
  loop, retry, in_codes, is_retry_except,
}

module _ {W Args R E : Type 0} (I : W → Type 0) (o : Options W Args R E)
    (untested : o.test_func ≡ none) where
  test-Keeps : (e : Exn E) (t : ℕ) (a : Args) → Keeps I (test o e t a)
  unfolding test
  test-Keeps e t a = rw (untested) (pure-Keeps I _)

  test_retry-Keeps : (e : Exn E) (t : ℕ) (a : Args) → Keeps I (test_retry o e t a)
  unfolding test_retry raise_exc
  test_retry-Keeps e t a =
      >>=-Keeps I (test o e t a) _ (test-Keeps e t a)
        λ passed. if-Keeps I (not passed || (t == o.tries)) _ _ (raise-Keeps I _) (pure-Keeps I _)

  pub on_exception-Keeps : (t : ℕ) (a : Args) (e : Exn E) → Keeps I (on_exception o t a e)
  unfolding on_exception raise_exc
  on_exception-Keeps t a (http status e) =
      if-Keeps I (is_some o.test_func || in_codes o.http_codes status) _ _
        (test_retry-Keeps (http status e) t a) (raise-Keeps I _)
  on_exception-Keeps t a (other e) =
      if-Keeps I (is_retry_except o.retry_except e) _ _ (test_retry-Keeps (other e) t a)
        (raise-Keeps I _)

module _ {W Args R E : Type 0} (I : W → Type 0) (o : Options W Args R E)
    (func : Args → Exec W (Exn E) R) (untested : o.test_func ≡ none)
    (unchecked : o.resp_checker ≡ none)
    (delay_keeps : (t n : ℕ) (a : Args) → Keeps I (o.delay_func t n a))
    (argmod_keeps : (t n : ℕ) (a : Args) → Keeps I (o.argmod_func t n a))
    (func_keeps : (a : Args) → Keeps I (func a)) where
  check-Keeps : (r : R) (t : ℕ) (a : Args) → Keeps I (check o r t a)
  unfolding check
  check-Keeps r t a = rw (unchecked) (pure-Keeps I _)

  attempt-Keeps : (t : ℕ) (a : Args) → Keeps I (attempt o func t a)
  unfolding attempt
  attempt-Keeps t a =
      catch-Keeps I _ (on_exception o t a)
        (>>=-Keeps I (func a) _ (func_keeps a)
          λ r. >>=-Keeps I (check o r t a) _ (check-Keeps r t a) λ more. pure-Keeps I _)
        (on_exception-Keeps I o untested t a)

  loop-Keeps : (left t : ℕ) (a : Args) → Keeps I (loop o func left t a)
  unfolding loop
  loop-Keeps zero t a = pure-Keeps I none
  loop-Keeps (suc left) t a = >>=-Keeps I (attempt o func t a) _ (attempt-Keeps t a) elim [
    | give r ↦ pure-Keeps I (some r)
    | again ↦ >>=-Keeps I (o.delay_func t o.tries a) _ (delay_keeps t o.tries a) λ _.
        >>=-Keeps I (o.argmod_func t o.tries a) _ (argmod_keeps t o.tries a)
          λ a'. loop-Keeps left (suc t) a'
  ]

  pub retry-Keeps : (a : Args) → Keeps I (retry o func a)
  unfolding retry
  retry-Keeps a = loop-Keeps o.tries 1 a
