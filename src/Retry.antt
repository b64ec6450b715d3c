-- ===== src/Retry.antt =====
-- The retry decorator of pypowervm/utils/retry.py: `retry` and what its inner functions do.
-- The callables that the caller supplies (the decorated method, delay_func, test_func,
-- resp_checker, argmod_func) are actions on a state `W`, which may change it and may raise.
-- Positional and keyword arguments are one value of a type `Args`. Log lines are left out.

pub mod Bounds
mod Examples
pub mod Delay
pub mod Outcome
pub mod Keeps
use pypowervm.Prelude.{
  ℕ, zero, suc, Bool, true, false, not, ◌||◌, Option, none, some, List, [], ◌∷◌, ◌==◌, nat_in,
  is_some, if◌then◌else◌,
}
use pypowervm.Exec.{Exec, pure, raise, catch, ◌>>=◌, ◌>>◌}

-- An exception as the `except` clauses see it: an HttpError with its status, or any other.
pub data Exn (E : Type 0) : Type 0 where
  http : ℕ → E → Exn E
  other : E → Exn E

-- Of one pass of the loop: a response to return, or another try.
pub data Step (R : Type 0) : Type 0 where
  give : R → Step R
  again : Step R

-- The decorator's parameters. `retry_except` tells the instances of the class or tuple given.
pub record Options (W Args R E : Type 0) : Type 0 where
  pub tries : ℕ
  pub delay_func : ℕ → ℕ → Args → Exec W (Exn E) (Unit {0})
  pub retry_except : Option (E → Bool)
  pub http_codes : Option (List ℕ)
  pub test_func : Option (Exn E → ℕ → ℕ → Args → Exec W (Exn E) Bool)
  pub resp_checker : Option (R → ℕ → ℕ → Args → Exec W (Exn E) Bool)
  pub limit_except : Option (Exn E)
  pub argmod_func : ℕ → ℕ → Args → Exec W (Exn E) Args

-- const.HTTPStatus.ETAG_MISMATCH
abbrev pub etag_mismatch : ℕ
etag_mismatch = 412

abbrev pub dft_retry_codes : List ℕ
dft_retry_codes = etag_mismatch ∷ []

-- What `_raise_exc` raises while `e` is handled.
abbrev pub to_raise : {E : Type 0} → Option (Exn E) → Exn E → Exn E
to_raise none e = e
to_raise (some limit) e = limit

-- `status in _http_codes`, where None stands for ()
abbrev pub in_codes : Option (List ℕ) → ℕ → Bool
in_codes none status = false
in_codes (some codes) status = nat_in status codes

-- whether `except _retry_except` catches it, where None stands for ()
abbrev pub is_retry_except : {E : Type 0} → Option (E → Bool) → E → Bool
is_retry_except none e = false
is_retry_except (some p) e = p e

module _ {W Args R E : Type 0} (o : Options W Args R E) where
  unfoldable pub raise_exc : {A : Type 0} → Exn E → Exec W (Exn E) A
  raise_exc e = raise (to_raise o.limit_except e)

  -- `_test_func`, with NO_TEST for None
  unfoldable pub test : Exn E → ℕ → Args → Exec W (Exn E) Bool
  test e try args = elim o.test_func [ none ↦ pure true | some f ↦ f e try o.tries args ]

  -- `_resp_checker`, with NO_CHECKER for None
  unfoldable pub check : R → ℕ → Args → Exec W (Exn E) Bool
  check resp try args = elim o.resp_checker [ none ↦ pure false | some f ↦ f resp try o.tries args ]

  unfoldable pub test_retry : Exn E → ℕ → Args → Exec W (Exn E) (Step R)
  unfolding raise_exc test
  test_retry e try args = do
    passed ← test e try args
    if not passed || (try == o.tries) then raise_exc e else pure again

  -- the two `except` clauses
  unfoldable pub on_exception : ℕ → Args → Exn E → Exec W (Exn E) (Step R)
  unfolding test_retry raise_exc nat_in
  on_exception try args (http status e) =
      if is_some o.test_func || in_codes o.http_codes status
      then test_retry (http status e) try args
      else raise_exc (http status e)
  on_exception try args (other e) =
      if is_retry_except o.retry_except e then test_retry (other e) try args else raise (other e)

  module _ (func : Args → Exec W (Exn E) R) where
    -- the `try` statement of one pass
    unfoldable pub attempt : ℕ → Args → Exec W (Exn E) (Step R)
    unfolding on_exception check
    attempt try args =
        catch
          (do
            resp ← func args
            more ← check resp try args
            pure (if not more || (try == o.tries) then give resp else again))
          (on_exception try args)

    -- the passes that are left, of which the next has the number `try`
    unfoldable pub loop : ℕ → ℕ → Args → Exec W (Exn E) (Option R)
    loop zero try args = pure none
    loop (suc left) try args = attempt try args >>= elim [
      | give resp ↦ pure (some resp)
      | again ↦ do
        o.delay_func try o.tries args
        args' ← o.argmod_func try o.tries args
        loop left (suc try) args'
    ]

    -- The decorated method. Where no pass is made it returns None, and so does the model.
    unfoldable pub retry : Args → Exec W (Exn E) (Option R)
    unfolding loop attempt
    retry args = loop o.tries 1 args
