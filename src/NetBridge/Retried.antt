-- ===== src/NetBridge/Retried.antt =====
-- What comes of a try of the synchronised methods under their retry decorator
-- (pypowervm/tasks/network_bridger.py).
use pypowervm.Prelude.{ℕ, suc, false, none, some, ◌==◌, ◌≡◌, refl, ◌∙◌, ap, arith}
use pypowervm.Exec.{ok, err, Exec}
use pypowervm.Retry.{Exn, http, other, Options, etag_mismatch, loop, retry}
use pypowervm.Retry.Outcome.{IsRetryable, attempt-retryable, retry_not_retried}
use pypowervm.Transaction.Success.{loop_first_ok, retry_first_ok}
use pypowervm.NetBridge.Bridger.{BridgeError, Host, Bridger, Act, on_world}
use pypowervm.NetBridge.Synch.{retry_options, retried}

-- A method whose first call fails and whose second succeeds.
loop_second_ok :
    {W Args R E : Type 0} (o : Options W Args R E) (func : Args → Exec W (Exn E) R) (left t : ℕ)
    (a : Args) (w w1 w2 : W) (e : Exn E) (r : R)
    → o.test_func ≡ none
    → o.resp_checker ≡ none
    → IsRetryable o e
    → func a w ≡ (err e, w1)
    → (t == o.tries) ≡ false
    → o.delay_func t o.tries a w1 ≡ (ok tt, w2)
    → o.argmod_func t o.tries a w2 ≡ (ok a, w2)
    → (func a w2).0 ≡ ok r
    → loop o func (suc (suc left)) t a w ≡ (ok (some r), (func a w2).1)
unfolding loop
loop_second_ok o func left t a w w1 w2 e r untested unchecked retryable h n d m f = ground (
  arith,
  attempt-retryable o func untested e t a w retryable,
  loop_first_ok o func (suc left) (suc t) a w2 r (omega arith) unchecked f,
)

module _ {S : Type 0} (host : Host S) (func : Act S (Unit {0})) (b : Bridger S) where
  returns_first : (func b).0 ≡ ok tt → retried host func b ≡ (ok tt, (func b).1)
  unfolding retried
  returns_first h =
      rw
        (retry_first_ok (retry_options host) (λ _. func) tt b tt
          (unfold retry_options in omega arith) (unfold retry_options in refl) h)
        refl

  raises_first :
      (e : BridgeError)
      → (func b).0 ≡ err (other e)
      → retried host func b ≡ (err (other e), (func b).1)
  unfolding retried
  raises_first e h =
      rw
        (retry_not_retried (retry_options host) (λ _. func) tt b (other e)
          (unfold retry_options in omega arith) (unfold retry_options in refl) h
          (unfold retry_options in λ r. ground arith))
        (unfold retry_options in refl)

  pub retried_ok : (c : Bridger S) → func b ≡ (ok tt, c) → retried host func b ≡ (ok tt, c)
  retried_ok c h = returns_first (ap (λ x. x.0) h) ∙ ap (λ x. (ok tt, x.1)) h

  pub retried_raises :
      (e : BridgeError) (c : Bridger S)
      → func b ≡ (err (other e), c)
      → retried host func b ≡ (err (other e), c)
  retried_raises e c h = raises_first e (ap (λ x. x.0) h) ∙ ap (λ x. (err (other e), x.1)) h

  slept :
      (b1 : Bridger S) (w : S)
      → host.sleep 1 60 b1.world ≡ (ok tt, w)
      → on_world (host.sleep 1 60) b1 ≡ (ok tt, record b1 { world = w })
  slept b1 w h = rw h refl

  -- A second try after an etag mismatch.
  pub retried_again :
      (e : BridgeError) (b1 : Bridger S) (w : S) (c : Bridger S)
      → func b ≡ (err (http etag_mismatch e), b1)
      → host.sleep 1 60 b1.world ≡ (ok tt, w)
      → func (record b1 { world = w }) ≡ (ok tt, c)
      → retried host func b ≡ (ok tt, c)
  unfolding retried
  retried_again e b1 w c h s f =
      let second : retry (retry_options host) (λ _. func) tt b
          ≡ (ok (some tt), (func (record b1 { world = w })).1) =
        unfold retry retry_options in
        loop_second_ok (retry_options host) (λ _. func) 58 1 tt b b1 (record b1 { world = w })
          (http etag_mismatch e) tt refl refl refl h refl (slept b1 w s) refl (ap (λ x. x.0) f) in
      rw second (ap (λ x. (ok tt, x.1)) f)
