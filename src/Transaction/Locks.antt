-- ===== src/Transaction/Locks.antt =====
-- The locks that a thread holds through a transaction (pypowervm/utils/transaction.py).
use pypowervm.Prelude.{
  ℕ, ◌≡◌, ◌≢◌, refl, sym, ap, ◌∙◌, String, false, not, ◌&&◌, ◌||◌, Option, some, List, [], ◌∷◌,
  ◌++◌, is_in, is_in-append_one, text_eq, text_eq_iff, Bool-cases, inl, inr, arith,
}
use pypowervm.Exec.{Result, ok, hang, Exec}
use pypowervm.Exec.Keeps.{Keeps, pure-Keeps, >>=-Keeps}
use pypowervm.Retry.{Exn}
use pypowervm.Retry.Keeps.{retry-Keeps}
use pypowervm.Transaction.{
  Fault, Service, Thread, Source, given, getter, outside, remove, source_uuid, retry_options,
  wrapper_of, unlock, resolve_wrapper, while_locked, entry_transaction,
}

pub remove_last :
    (u : String) (xs : List String) → is_in u xs ≡ false → remove u (xs ++ u ∷ []) ≡ some xs
unfolding remove is_in
remove_last u [] h = ground (arith, text_eq_iff u u)
remove_last u (x ∷ xs) h = ground (arith, remove_last u xs, text_eq_iff x u, text_eq_iff u x)

module _ {R X Wr : Type 0} (svc : Service R X Wr) (held : R → List String) where
  -- What lock.synchronized promises of the locks that this thread holds: to acquire one that it does
  -- not hold ends, and gives it that lock; to release one takes it away. Nothing is said of acquiring
  -- a lock that the thread itself holds, which waits for ever. The requests and the sleep end, and
  -- neither take nor give locks.
  pub record IsLockService : Type 0 where
    pub acquire_ok : (u : String) (r : R) → is_in u (held r) ≡ false → (svc.acquire u r).0 ≡ ok tt
    pub acquire_held :
        (u v : String) (r : R)
        → is_in u (held r) ≡ false
        → is_in v (held (svc.acquire u r).1) ≡ (text_eq v u || is_in v (held r))
    pub release_held :
        (u v : String) (r : R)
        → is_in v (held (svc.release u r)) ≡ (not (text_eq v u) && is_in v (held r))
    pub get_quiet :
        (u : String) (r : R) → ((svc.get u r).0 ≢ hang) × (held (svc.get u r).1 ≡ held r)
    pub refresh_quiet :
        (w : Wr) (r : R) → ((svc.refresh w r).0 ≢ hang) × (held (svc.refresh w r).1 ≡ held r)
    pub sleep_quiet :
        (t n : ℕ) (r : R) → ((svc.sleep t n r).0 ≢ hang) × (held (svc.sleep t n r).1 ≡ held r)

  -- The thread's list is `ls`, and has exactly the locks that the thread holds.
  abbrev pub Holds : List String → Thread R → Type 0
  Holds ls th = (th.locks ≡ ls) × ((v : String) → is_in v (held th.rest) ≡ is_in v ls)

  module _ (service : IsLockService) where
    outside-Keeps :
        {A : Type 0} (ls : List String) (m : Exec R (Exn (Fault X)) A)
        → ((r : R) → ((m r).0 ≢ hang) × (held (m r).1 ≡ held r))
        → Keeps (Holds ls) (outside m)
    outside-Keeps ls m quiet th h =
        ((quiet th.rest).0, (h.0, λ v. ap (λ xs. is_in v xs) (quiet th.rest).1 ∙ h.1 v))

    wrapper_of-Keeps : (ls : List String) (src : Source Wr) → Keeps (Holds ls) (wrapper_of svc src)
    wrapper_of-Keeps ls (given w) = pure-Keeps (Holds ls) w
    wrapper_of-Keeps ls (getter u) = outside-Keeps ls (svc.get u) (service.get_quiet u)

    module _ {A : Type 0} (func : Wr → Exec (Thread R) (Exn (Fault X)) A)
        (func_keeps : (ls : List String) (w : Wr) → Keeps (Holds ls) (func w)) where
      resolve_wrapper-Keeps :
          (ls : List String) (src : Source Wr) → Keeps (Holds ls) (resolve_wrapper svc func src)
      unfolding resolve_wrapper retry_options
      resolve_wrapper-Keeps ls src =
          >>=-Keeps (Holds ls) (wrapper_of svc src) _ (wrapper_of-Keeps ls src) (
            retry-Keeps (Holds ls) (retry_options svc) func refl refl
              (λ t n w. outside-Keeps ls (svc.sleep t n) (service.sleep_quiet t n))
              (λ t n w. outside-Keeps ls (svc.refresh w) (service.refresh_quiet w)) (func_keeps ls))

      unlock_lem :
          (u : String) (ls : List String) (r : Result (Exn (Fault X)) (Option A)) (th : Thread R)
          → is_in u ls ≡ false
          → r ≢ hang
          → Holds (ls ++ u ∷ []) th
          → ((unlock svc u (r, th)).0 ≢ hang) × Holds ls (unlock svc u (r, th)).1
      unlock_lem u ls r th fresh ends h =
          let e : remove u th.locks ≡ some ls = rw (h.0) (remove_last u ls fresh) in
          rw (e, unlock)
            (
              ends,
              (
                refl,
                λ v. ground (
                  arith,
                  service.release_held u v th.rest,
                  h.1 v,
                  is_in-append_one v u ls,
                  text_eq_iff v u,
                ),
              ),
            )

      while_locked-Keeps :
          (u : String) (src : Source Wr) (ls : List String) (th : Thread R)
          → is_in u ls ≡ false
          → th.locks ≡ ls
          → ((v : String) → is_in v (held th.rest) ≡ (text_eq v u || is_in v ls))
          → ((while_locked svc func u src th).0 ≢ hang)
            × Holds ls (while_locked svc func u src th).1
      unfolding while_locked
      while_locked-Keeps u src ls th fresh same h =
          let th' = record th { locks = th.locks ++ u ∷ [] } in
          let kept =
            resolve_wrapper-Keeps (ls ++ u ∷ []) src th'
              (ap (λ xs. xs ++ u ∷ []) same, λ v. h v ∙ sym (is_in-append_one v u ls)) in
          unlock_lem u ls (resolve_wrapper svc func src th').0 (resolve_wrapper svc func src th').1
            fresh kept.0 kept.1

      -- A decorated method, whose function may call further decorated methods, ends, with the locks
      -- that the thread had and with the thread's list as it was, whether it returns or raises. So it
      -- never acquires a lock that its own thread holds, for which it would wait for ever. The
      -- function itself ends and gives back what it takes.
      pub entry_transaction-Keeps :
          (ls : List String) (src : Source Wr) → Keeps (Holds ls) (entry_transaction svc func src)
      unfolding entry_transaction
      entry_transaction-Keeps ls src th h =
          let u = source_uuid svc src in
          elim (Bool-cases (is_in u th.locks)) [
            | inl mine ↦ rw (mine) (resolve_wrapper-Keeps ls src th h)
            | inr free ↦
                let fresh : is_in u ls ≡ false = rw (sym h.0) free in
                let not_held = h.1 u ∙ fresh in
                rw (free, service.acquire_ok u th.rest not_held)
                  (while_locked-Keeps u src ls (record th { rest = (svc.acquire u th.rest).1 })
                    fresh h.0
                    (λ v. ground (arith, service.acquire_held u v th.rest not_held, h.1 v)))
          ]
