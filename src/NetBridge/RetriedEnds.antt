-- ===== src/NetBridge/RetriedEnds.antt =====
-- A method that ends does so under the retry of the bridger (pypowervm/tasks/network_bridger.py).
use mathlib.Core.Path.{subst}
use pypowervm.Prelude.{ℕ, zero, suc, Option, inl, inr, ◌≡◌, ◌≢◌, refl, sym, ap, arith}
use pypowervm.Exec.{Exec, Result, ok, err, hang, pure, continue}
use pypowervm.Retry.{Exn, Options, Step, give, again, retry, loop, attempt, on_exception}
use pypowervm.Retry.Keeps.{on_exception-Keeps}
use pypowervm.Transaction.Success.{loop_first_ok}
use pypowervm.NetBridge.{find_wrapper}
use pypowervm.Prelude.Keyed.{nat_key}
use pypowervm.NetBridge.Bridger.{BridgeError, Bridger, Act, on_world}
use pypowervm.NetBridge.Synch.{retry_options, retried}
use pypowervm.NetBridge.Reads.{Result-cases, AtMost}
use pypowervm.NetBridge.After.{Stored, After, IsEnded, not_hung, Asked}

module _ {S : Type 0} (q : Asked S) where
  open q use {host, feed, st, nb_uuid, ids}

  attempt_failed :
      {W Args R E : Type 0} (o : Options W Args R E) (func : Args → Exec W (Exn E) R) (t : ℕ)
      (a : Args) (w w1 : W) (e : Exn E)
      → func a w ≡ (err e, w1)
      → attempt o func t a w ≡ on_exception o t a e w1
  unfolding attempt
  attempt_failed o func t a w w1 e h = rw h refl

  module _ (n : ℕ) (func : Act S (Unit {0}))
      (ends : (b : Bridger S) → Stored q n b → IsEnded q n (func b)) where
    abbrev options : Options (Bridger S) (Unit {0}) (Unit {0}) BridgeError
    options = retry_options host

    LoopEnded : Result (Exn BridgeError) (Option (Unit {0})) × Bridger S → Type 0
    LoopEnded r = After q n (λ _ c. Unit {0}) r

    sleep_after :
        (r : Result (Exn BridgeError) (Unit {0})) (c : Bridger S)
        (f : Unit {0} → Act S (Option (Unit {0})))
        → r ≢ hang
        → Stored q n c
        → LoopEnded (f tt c)
        → LoopEnded (continue r f c)
    unfolding LoopEnded
    sleep_after (ok a) c f e h k = k
    sleep_after (err x) c f e h k = h
    sleep_after hang c f e h k = absurd (e refl)

    step_after :
        (r : Result (Exn BridgeError) (Step (Unit {0}))) (c : Bridger S)
        (f : Step (Unit {0}) → Act S (Option (Unit {0})))
        → r ≢ hang
        → Stored q n c
        → ((x : Unit {0}) → LoopEnded (f (give x) c))
        → LoopEnded (f again c)
        → LoopEnded (continue r f c)
    unfolding LoopEnded
    step_after (ok (give x)) c f e h k l = k x
    step_after (ok again) c f e h k l = l
    step_after (err x) c f e h k l = h
    step_after hang c f e h k l = absurd (e refl)

    slept-Stored :
        (t : ℕ) (c : Bridger S) → Stored q n c → Stored q n (on_world (host.sleep t 60) c).1
    slept-Stored t c h =
        subst (λ nbs. AtMost ids n (find_wrapper nb_uuid nbs)) (sym (st.sleep_keep t 60 c.world)) h

    err-Stored :
        (r : Result (Exn BridgeError) (Unit {0})) (c : Bridger S) (x : Exn BridgeError)
        → IsEnded q n (r, c)
        → r ≡ err x
        → Stored q n c
    err-Stored (ok a) c x h e = absurd (ground arith)
    err-Stored (err y) c x h e = h
    err-Stored hang c x h e = absurd (ground arith)

    loop_ended :
        (left t : ℕ) (b : Bridger S)
        → Stored q n b
        → LoopEnded (loop options (λ _. func) left t tt b)
    unfolding loop LoopEnded retry_options
    loop_ended zero t b h = tt
    loop_ended (suc left) t b h = elim (Result-cases (func b).0) [
      | inl (a, e) ↦
          subst LoopEnded
            (sym (loop_first_ok options (λ _. func) (suc left) t tt b a (omega arith) refl e)) tt
      | inr (inl (x, e)) ↦
          (let stored = err-Stored (func b).0 (func b).1 x (ends b h) e in
            let failed : attempt options (λ _. func) t tt b
                ≡ on_exception options t tt x (func b).1 =
              attempt_failed options (λ _. func) t tt b (func b).1 x
                (ap (λ r. (r, (func b).1)) e) in
            let kept = on_exception-Keeps (Stored q n) options refl t tt x (func b).1 stored in
            let here = attempt options (λ _. func) t tt b in
            let stored_here : Stored q n here.1 = subst (λ r. Stored q n r.1) (sym failed) kept.1 in
            step_after here.0 here.1 _ (subst (λ r. r.0 ≢ hang) (sym failed) kept.0) stored_here
              (λ y. tt)
              (sleep_after (on_world (host.sleep t 60) here.1).0
                (on_world (host.sleep t 60) here.1).1 _ (st.sleep_end t 60 here.1.world)
                (slept-Stored t here.1 stored_here)
                (loop_ended left (suc t) (on_world (host.sleep t 60) here.1).1
                  (slept-Stored t here.1 stored_here))))
      | inr (inr e) ↦ absurd (not_hung q n (func b).0 (func b).1 (ends b h) e)
    ]

    done_after :
        (r : Result (Exn BridgeError) (Option (Unit {0}))) (c : Bridger S)
        → LoopEnded (r, c)
        → IsEnded q n (continue r (λ _. pure tt) c)
    unfolding LoopEnded
    done_after (ok a) c h = tt
    done_after (err x) c h = h
    done_after hang c h = h

    pub retried-IsEnded : (b : Bridger S) → Stored q n b → IsEnded q n (retried host func b)
    unfolding retried retry LoopEnded retry_options
    retried-IsEnded b h =
        let run = loop options (λ _. func) 60 1 tt b in done_after run.0 run.1 (loop_ended 60 1 b h)
