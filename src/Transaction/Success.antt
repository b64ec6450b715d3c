-- ===== src/Transaction/Success.antt =====
-- A decorated method whose work succeeds (pypowervm/utils/transaction.py).
use pypowervm.Prelude.{
  ℕ, zero, suc, ◌<◌, ◌≡◌, refl, ◌∙◌, String, none, some, [], ◌∷◌, ◌++◌, is_in, Bool-cases, inl, inr,
  arith,
}
use pypowervm.Exec.{ok, Exec}
use pypowervm.Retry.{Exn, Options, check, attempt, loop, retry}
use pypowervm.Transaction.{
  Fault, Service, Thread, Source, remove, source_uuid, retry_options, wrapper_of, unlock,
  resolve_wrapper, while_locked, entry_transaction,
}
use pypowervm.Transaction.Locks.{remove_last}

module _ {W Args R E : Type 0} (o : Options W Args R E) (func : Args → Exec W (Exn E) R) where
  pub loop_first_ok :
      (left t : ℕ) (a : Args) (w : W) (r : R)
      → zero < left
      → o.resp_checker ≡ none
      → (func a w).0 ≡ ok r
      → loop o func left t a w ≡ (ok (some r), (func a w).1)
  unfolding loop attempt check
  loop_first_ok zero t a w r h n f = absurd (omega arith)
  loop_first_ok (suc left) t a w r h n f = ground arith

  -- A response of the first call is returned.
  pub retry_first_ok :
      (a : Args) (w : W) (r : R)
      → zero < o.tries
      → o.resp_checker ≡ none
      → (func a w).0 ≡ ok r
      → retry o func a w ≡ (ok (some r), (func a w).1)
  retry_first_ok a w r = unfold retry in loop_first_ok o.tries 1 a w r

-- From each state with `Pre` the action returns `r`, with `Post` of the state and the thread's list
-- of locks as it was.
abbrev pub Succeeds :
    {R E A : Type 0} → (R → Type 0) → A → (R → Type 0) → Exec (Thread R) E A → Type 0
Succeeds {R} Pre r Post m =
    (th : Thread R)
    → Pre th.rest
    → ((m th).0 ≡ ok r) × Post (m th).1.rest × ((m th).1.locks ≡ th.locks)

module _ {R X Wr A : Type 0} (svc : Service R X Wr) (func : Wr → Exec (Thread R) (Exn (Fault X)) A)
    (Pre Post : R → Type 0) (src : Source Wr) (w : Wr) (r : A)
    (fetched : Succeeds Pre w Pre (wrapper_of svc src)) where
  -- First of all the work done on the wrapper.
  pub resolve_first_ok :
      Succeeds Pre r Post (func w) → Succeeds Pre (some r) Post (resolve_wrapper svc func src)
  unfolding resolve_wrapper retry_options
  resolve_first_ok runs th h =
      let (e, pre, same) = fetched th h in
      let (done, post, kept) = runs (wrapper_of svc src th).1 pre in
      let first =
        retry_first_ok (retry_options svc) func w (wrapper_of svc src th).1 r (omega arith) refl
          done in
      rw (e, first) (refl, post, kept ∙ same)

module _ {R X Wr A : Type 0} (svc : Service R X Wr) (func : Wr → Exec (Thread R) (Exn (Fault X)) A)
    (Pre Post : R → Type 0) (src : Source Wr) (r : A)
    (acquires : (u : String) (s : R)
      → Pre s
      → ((svc.acquire u s).0 ≡ ok tt) × Pre (svc.acquire u s).1)
    (releases : (u : String) (s : R) → Post s → Post (svc.release u s)) where
  -- The locks make no difference to a method that succeeds.
  pub entry_transaction_ok :
      Succeeds Pre (some r) Post (resolve_wrapper svc func src)
      → Succeeds Pre (some r) Post (entry_transaction svc func src)
  unfolding entry_transaction while_locked
  entry_transaction_ok runs th h = elim (Bool-cases (is_in (source_uuid svc src) th.locks)) [
    | inl mine ↦ rw (mine) (runs th h)
    | inr free ↦
        let u = source_uuid svc src in
        let (got, pre) = acquires u th.rest h in
        let th' : Thread R = record {
          locks = th.locks ++ u ∷ [];
          rest = (svc.acquire u th.rest).1;
        } in
        let (done, post, kept) = runs th' pre in
        let gone : remove u (resolve_wrapper svc func src th').1.locks ≡ some th.locks =
          rw (kept) (remove_last u th.locks free) in
        rw (free, got, gone, unlock)
          (done, releases u (resolve_wrapper svc func src th').1.rest post, refl)
  ]
