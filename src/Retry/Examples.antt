-- ===== src/Retry/Examples.antt =====
-- Runs of the retry decorator (pypowervm/utils/retry.py) on a state that counts the calls.
use pypowervm.Prelude.{ℕ, ◌+◌, ◌≡◌, refl, String, true, none, some, arith, ltb, if◌then◌else◌}
use pypowervm.Exec.{Exec, ok, err, pure}
use pypowervm.Retry.{Exn, http, other, Options, dft_retry_codes, retry, test, check}
use pypowervm.Retry.Bounds.{Counts}
use pypowervm.Retry.Outcome.{Quiet, retry_exhausted, retry_recovers}
use pypowervm.Retry.Delay.{stepped_delay}

-- An etag mismatch is tried again after, with the argument one higher; limit_except is set.
abbrev options : Options ℕ ℕ String String
options = record {
  tries = 3;
  delay_func = λ t n a. pure tt;
  retry_except = none;
  http_codes = some dft_retry_codes;
  test_func = none;
  resp_checker = none;
  limit_except = some (other "limit");
  argmod_func = λ t n a. pure (a + 1);
}

abbrev picky : Options ℕ ℕ String String
picky = record options { resp_checker = some (λ r t n a. pure true) }

-- fails twice with an etag mismatch, and then answers
abbrev flaky : ℕ → Exec ℕ (Exn String) String
flaky a w = (if ltb w 2 then err (http 412 "etag") else ok "done", w + 1)

abbrev failing : ℕ → Exec ℕ (Exn String) String
failing a w = (err (http 412 "etag"), w + 1)

abbrev broken : ℕ → Exec ℕ (Exn String) String
broken a w = (err (http 500 "internal"), w + 1)

abbrev answering : ℕ → Exec ℕ (Exn String) String
answering a w = (ok "again", w + 1)

quiet : Quiet options (λ w. w)
quiet = record {
  delay_ok = λ t a w. refl;
  delay_calls = λ t a w. refl;
  next = λ t a w. a + 1;
  argmod_ok = λ t a w. refl;
  argmod_calls = λ t a w. refl;
}

picky-Quiet : Quiet picky (λ w. w)
picky-Quiet = record {
  delay_ok = λ t a w. refl;
  delay_calls = λ t a w. refl;
  next = λ t a w. a + 1;
  argmod_ok = λ t a w. refl;
  argmod_calls = λ t a w. refl;
}

flaky-Counts : Counts options flaky (λ w. w)
unfolding test check
flaky-Counts = record {
  by_func = λ a w. refl;
  by_test = λ e t a w. refl;
  by_check = λ r t a w. refl;
  by_delay = λ t a w. refl;
  by_argmod = λ t a w. refl;
}

flaky_run : retry options flaky 7 0 ≡ (ok (some "done"), 3)
unfolding retry
flaky_run = refl

failing_run : retry options failing 7 0 ≡ (err (other "limit"), 3)
unfolding retry
failing_run = refl

retry_exhausted_example :
    ((retry options failing 7 0).0 ≡ err (other "limit")) × ((retry options failing 7 0).1 ≡ 3)
unfolding retry
retry_exhausted_example =
    retry_exhausted options failing (λ w. w) refl quiet (λ a w. refl) (http 412 "etag") refl
      (λ a w. refl) 7 0 (omega arith)

retry_recovers_example :
    ((retry options flaky 7 0).0 ≡ ok (some "done")) × ((retry options flaky 7 0).1 ≡ 3)
unfolding retry
retry_recovers_example =
    retry_recovers options flaky (λ w. w) refl quiet (λ a w. refl) refl (http 412 "etag") refl
      "done" 2 (λ a w h. ground arith) (λ a w h. ground arith) 7 0 refl (omega arith)

stepped_delay_table : stepped_delay 5 ≡ 80
unfolding stepped_delay
stepped_delay_table = refl
