-- ===== src/Transaction/Task/Redrive.antt =====
-- A WrapperTask whose update fails on a changed etag is driven again (pypowervm/utils/transaction.py).
use mathlib.Core.List.{append_assoc}
use pypowervm.Prelude.{
  ℕ, zero, suc, ◌+◌, ◌≤◌, ◌<◌, ◌≡◌, refl, ap, ◌∙◌, nat_in, String, Bool, true, false, ◌&&◌, ◌||◌,
  ◌==◌, Option, some, List, [], ◌∷◌, ◌++◌, All, arith,
}
use pypowervm.Prelude.Dict.{Dict}
use pypowervm.Exec.{ok, err, Exec}
use pypowervm.Retry.{Exn, http, Options, loop, retry, etag_mismatch}
use pypowervm.Retry.Outcome.{attempt-retryable}
use pypowervm.Transaction.{
  Fault, Service, Thread, Source, given, getter, outside, wrapper_of, entry_transaction,
  retry_options, resolve_wrapper,
}
use pypowervm.Transaction.Success.{Succeeds, loop_first_ok, entry_transaction_ok}
use pypowervm.Transaction.Task.{
  Subtask, WrapperTask, Work, work_service, no_tasks, run_subtasks, run_and_update, execute,
}
use pypowervm.Transaction.Task.Run.{
  with_return, provided_after, is_flagged, runs, AreCalm, run_subtasks_cons, run_subtasks_at,
  finish_lem,
}

module _ {R X Wr Val Entry : Type 0} (truthy : Val → Bool)
    (returns : Subtask R X Wr Val → Dict Val → Val) (updates : R → ℕ) (log : R → List Entry)
    (ran : Subtask R X Wr Val → Dict Val → Wr → Entry) (sent reread : Wr → Entry)
    (svc : Service R X Wr) (k : ℕ) (fault : Fault X) (refreshed updated : Wr → Wr) where
  -- The first k updates are refused because the etag has changed, and each later one gives the
  -- wrapper `updated w`. Updates are counted and logged, refreshes are logged, and nothing else is;
  -- the other requests end well.
  pub record IsContended : Type 0 where
    pub fetched : String → Wr
    pub get_ok : (u : String) (r : R) → (svc.get u r).0 ≡ ok (fetched u)
    pub get_updates : (u : String) (r : R) → updates (svc.get u r).1 ≡ updates r
    pub get_log : (u : String) (r : R) → log (svc.get u r).1 ≡ log r
    pub refresh_ok : (w : Wr) (r : R) → (svc.refresh w r).0 ≡ ok (refreshed w)
    pub refresh_updates : (w : Wr) (r : R) → updates (svc.refresh w r).1 ≡ updates r
    pub refresh_log : (w : Wr) (r : R) → log (svc.refresh w r).1 ≡ log r ++ reread w ∷ []
    pub sleep_ok : (t n : ℕ) (r : R) → (svc.sleep t n r).0 ≡ ok tt
    pub sleep_updates : (t n : ℕ) (r : R) → updates (svc.sleep t n r).1 ≡ updates r
    pub sleep_log : (t n : ℕ) (r : R) → log (svc.sleep t n r).1 ≡ log r
    pub update_refused :
        (n : Option ℕ) (w : Wr) (r : R)
        → updates r < k
        → (svc.update n w r).0 ≡ err (http etag_mismatch fault)
    pub update_ok :
        (n : Option ℕ) (w : Wr) (r : R) → k ≤ updates r → (svc.update n w r).0 ≡ ok (updated w)
    pub update_updates :
        (n : Option ℕ) (w : Wr) (r : R) → updates (svc.update n w r).1 ≡ updates r + 1
    pub update_log :
        (n : Option ℕ) (w : Wr) (r : R) → log (svc.update n w r).1 ≡ log r ++ sent w ∷ []
    pub acquire_ok : (u : String) (r : R) → (svc.acquire u r).0 ≡ ok tt
    pub acquire_updates : (u : String) (r : R) → updates (svc.acquire u r).1 ≡ updates r
    pub acquire_log : (u : String) (r : R) → log (svc.acquire u r).1 ≡ log r
    pub release_updates : (u : String) (r : R) → updates (svc.release u r) ≡ updates r
    pub release_log : (u : String) (r : R) → log (svc.release u r) ≡ log r

  -- Subtasks that leave the count of updates as it was.
  abbrev pub AreApart : List (Subtask R X Wr Val) → Type 0
  AreApart tasks =
      All
        (λ (task : Subtask R X Wr Val).
          (p : Dict Val) (w : Wr) (th : Thread R)
          → updates (task.execute p w th).1.rest ≡ updates th.rest)
        tasks

  run_subtasks_updates :
      (tasks : List (Subtask R X Wr Val)) (needed : Bool) (w : Wr) (th : Thread (Work R Val))
      → AreCalm truthy returns log ran sent tasks
      → AreApart tasks
      → updates (run_subtasks truthy tasks needed w th).1.rest.0 ≡ updates th.rest.0
  run_subtasks_updates [] needed w th calm apart = unfold run_subtasks in refl
  run_subtasks_updates (task ∷ tasks) needed w th calm apart =
      let p = th.rest.1 in
      let th0 : Thread R = record { locks = th.locks; rest = th.rest.0 } in
      let after = (task.execute p w th0).1 in
      let th2 : Thread (Work R Val) = record {
        locks = after.locks;
        rest = (after.rest, with_return truthy returns task p);
      } in
      rw (run_subtasks_cons truthy returns log ran sent task tasks needed w th (calm.0 p w th0).0) (
        run_subtasks_updates tasks (needed || (task.flag_update && truthy (returns task p))) w th2
          calm.1 apart.1
        ∙ apart.0 p w th0)

  module _ (contended : IsContended) (t : WrapperTask R X Wr Val)
      (calm : AreCalm truthy returns log ran sent t.tasks) (apart : AreApart t.tasks)
      (flags : (p : Dict Val) → is_flagged truthy returns t.tasks p ≡ true) where
    -- What n executions that are driven again, and a last one, leave in the log: each runs all the
    -- subtasks and sends the update, and the wrapper is refreshed between them.
    abbrev pub redriven : ℕ → Wr → Dict Val → List Entry
    redriven zero w p = runs truthy returns log ran sent t.tasks p w ++ sent w ∷ []
    redriven (suc n) w p =
        (runs truthy returns log ran sent t.tasks p w ++ sent w ∷ [])
        ++ (reread w ∷ redriven n (refreshed w) (provided_after truthy returns t.tasks p))

    abbrev pub provided_through : ℕ → Dict Val → Dict Val
    provided_through zero p = provided_after truthy returns t.tasks p
    provided_through (suc n) p = provided_through n (provided_after truthy returns t.tasks p)

    -- The wrapper after n refreshes.
    abbrev pub refreshed_by : ℕ → Wr → Wr
    refreshed_by zero w = w
    refreshed_by (suc n) w = refreshed_by n (refreshed w)

    abbrev func : Wr → Exec (Thread (Work R Val)) (Exn (Fault X)) Wr
    func = run_and_update truthy svc t

    abbrev calls : Thread (Work R Val) → ℕ
    calls th = updates th.rest.0

    -- The state after a first execution has been made: of the log, the dictionary and the locks.
    abbrev After : List Entry → Dict Val → ℕ → List String → Thread (Work R Val) → Type 0
    After l p n ls th = (log th.rest.0 ≡ l) × (th.rest.1 ≡ p) × (calls th ≡ n) × (th.locks ≡ ls)

    abbrev subtasks_done : Wr → Thread (Work R Val) → Thread (Work R Val)
    subtasks_done w th = (run_subtasks truthy t.tasks false w th).1

    func_lem :
        (w : Wr) (th : Thread (Work R Val))
        → (func w th ≡ outside ((work_service svc).update t.update_timeout w) (subtasks_done w th))
          × After
              (log th.rest.0 ++ runs truthy returns log ran sent t.tasks th.rest.1 w)
              (provided_after truthy returns t.tasks th.rest.1)
              (calls th)
              th.locks
              (subtasks_done w th)
    unfolding run_and_update
    func_lem w th =
        let (run, same, after, kept) =
          run_subtasks_at truthy returns log ran sent t.tasks false w th calm in
        (
          rw (run, flags th.rest.1) refl,
          (same, after, run_subtasks_updates t.tasks false w th calm apart, kept),
        )

    func_after :
        (w : Wr) (th : Thread (Work R Val))
        → After
            (log th.rest.0 ++ (runs truthy returns log ran sent t.tasks th.rest.1 w ++ sent w ∷ []))
            (provided_after truthy returns t.tasks th.rest.1)
            (calls th + 1)
            th.locks
            (func w th).1
    unfolding work_service
    func_after w th =
        let (e, (same, after, count, kept)) = func_lem w th in
        let done = subtasks_done w th in
        rw (e) (
          contended.update_log t.update_timeout w done.rest.0
              ∙ ap (λ l. l ++ sent w ∷ []) same
              ∙ append_assoc (log th.rest.0) (runs truthy returns log ran sent t.tasks th.rest.1 w)
                  (sent w ∷ []),
          after,
          contended.update_updates t.update_timeout w done.rest.0 ∙ ap (λ n. n + 1) count,
          kept,
        )

    func_fails :
        (w : Wr) (th : Thread (Work R Val))
        → calls th < k
        → (func w th).0 ≡ err (http etag_mismatch fault)
    unfolding work_service
    func_fails w th h =
        let (e, (same, after, count, kept)) = func_lem w th in
        rw (e) (
          contended.update_refused t.update_timeout w (subtasks_done w th).rest.0
            (omega (arith, count)))

    func_succeeds :
        (w : Wr) (th : Thread (Work R Val)) → k ≤ calls th → (func w th).0 ≡ ok (updated w)
    unfolding work_service
    func_succeeds w th h =
        let (e, (same, after, count, kept)) = func_lem w th in
        rw (e) (
          contended.update_ok t.update_timeout w (subtasks_done w th).rest.0 (omega (arith, count)))

    abbrev options : Options (Thread (Work R Val)) Wr Wr (Fault X)
    options = retry_options (work_service svc)

    abbrev rested : ℕ → Thread (Work R Val) → Thread (Work R Val)
    rested n th = (outside ((work_service svc).sleep n 60) th).1

    abbrev next_try : ℕ → Wr → Thread (Work R Val) → Thread (Work R Val)
    next_try n w th = (outside ((work_service svc).refresh w) (rested n th)).1

    next_after :
        (n : ℕ) (w : Wr) (th : Thread (Work R Val))
        → After (log th.rest.0 ++ reread w ∷ []) th.rest.1 (calls th) th.locks (next_try n w th)
    unfolding work_service
    next_after n w th = (
      contended.refresh_log w (rested n th).rest.0
          ∙ ap (λ l. l ++ reread w ∷ []) (contended.sleep_log n 60 th.rest.0),
      refl,
      contended.refresh_updates w (rested n th).rest.0 ∙ contended.sleep_updates n 60 th.rest.0,
      refl,
    )

    -- A pass whose update is refused, but for the last, goes on with the wrapper refreshed.
    loop_refused :
        (left n : ℕ) (w : Wr) (th : Thread (Work R Val))
        → calls th < k
        → n < 60
        → loop options func (suc left) n w th
          ≡ loop options func left (suc n) (refreshed w) (next_try n w (func w th).1)
    unfolding loop retry_options work_service
    loop_refused left n w th h early =
        let attempted =
          attempt-retryable options func refl (http etag_mismatch fault) n w th
            (unfold nat_in in refl) (func_fails w th h) in
        let not_last : (n == 60) ≡ false = ground arith in
        rw
          (
            attempted,
            not_last,
            contended.sleep_ok n 60 (func w th).1.rest.0,
            contended.refresh_ok w (rested n (func w th).1).rest.0,
          )
          refl

    -- The passes of the loop until the update is accepted, n passes from here.
    loop-redriven :
        (n left i : ℕ) (w : Wr) (th : Thread (Work R Val))
        → n < left
        → left + i ≡ 61
        → calls th + n ≡ k
        → ((loop options func left i w th).0 ≡ ok (some (updated (refreshed_by n w))))
          × After
              (log th.rest.0 ++ redriven n w th.rest.1)
              (provided_through n th.rest.1)
              (k + 1)
              th.locks
              (loop options func left i w th).1
    loop-redriven zero left i w th room tries last =
        let first =
          loop_first_ok options func left i w th (updated w) (omega arith)
            (unfold retry_options in refl) (func_succeeds w th (omega arith)) in
        let (l, p, c, ls) = func_after w th in rw (first) (refl, (l, p, omega (arith, c), ls))
    loop-redriven (suc n) zero i w th room tries last = absurd (omega arith)
    loop-redriven (suc n) (suc left) i w th room tries last =
        let th' = next_try i w (func w th).1 in
        let p = provided_after truthy returns t.tasks th.rest.1 in
        let sent_once = runs truthy returns log ran sent t.tasks th.rest.1 w ++ sent w ∷ [] in
        let rest = redriven n (refreshed w) p in
        let (l1, p1, c1, s1) = func_after w th in
        let (l2, p2, c2, s2) = next_after i w (func w th).1 in
        let (done, (l3, p3, c3, s3)) =
          loop-redriven n left (suc i) (refreshed w) th' (omega arith) (omega arith)
            (omega (arith, c1, c2)) in
        rw (loop_refused left i w th (omega arith) (omega arith)) (
          done,
          (
            l3
                ∙ ap (λ d. log th'.rest.0 ++ redriven n (refreshed w) d) (p2 ∙ p1)
                ∙ ap (λ m. m ++ rest) (l2 ∙ ap (λ m. m ++ reread w ∷ []) l1)
                ∙ append_assoc (log th.rest.0 ++ sent_once) (reread w ∷ []) rest
                ∙ append_assoc (log th.rest.0) sent_once (reread w ∷ rest),
            p3 ∙ ap (λ d. provided_through n d) (p2 ∙ p1),
            c3,
            s3 ∙ s2 ∙ s1,
          ),
        )

    abbrev pub first_wrapper : Source Wr → Wr
    first_wrapper (given w) = w
    first_wrapper (getter u) = contended.fetched u

    abbrev Start : List Entry → Dict Val → Work R Val → Type 0
    Start l p s = (updates s.0 ≡ 0) × (log s.0 ≡ l) × (s.1 ≡ p)

    abbrev End : List Entry → Dict Val → Work R Val → Type 0
    End l p s = (updates s.0 ≡ k + 1) × (log s.0 ≡ l) × (s.1 ≡ p)

    wrapper_at_first :
        (src : Source Wr) (l : List Entry) (p : Dict Val)
        → Succeeds (Start l p) (first_wrapper src) (Start l p) (wrapper_of (work_service svc) src)
    unfolding work_service
    wrapper_at_first (given w) l p th h = (refl, h, refl)
    wrapper_at_first (getter u) l p th (c, e, d) = (
      contended.get_ok u th.rest.0,
      (contended.get_updates u th.rest.0 ∙ c, contended.get_log u th.rest.0 ∙ e, d),
      refl,
    )

    resolve_redriven :
        (src : Source Wr) (l : List Entry) (p : Dict Val)
        → k < 60
        → Succeeds
            (Start l p)
            (some (updated (refreshed_by k (first_wrapper src))))
            (End (l ++ redriven k (first_wrapper src) p) (provided_through k p))
            (resolve_wrapper (work_service svc) func src)
    unfolding resolve_wrapper retry retry_options
    resolve_redriven src l p room th h =
        let w = first_wrapper src in
        let th1 = (wrapper_of (work_service svc) src th).1 in
        let (e, (c, same, d), locks) = wrapper_at_first src l p th h in
        let (done, (logged, provided, count, kept)) =
          loop-redriven k 60 1 w th1 room (omega arith) (omega (arith, c)) in
        rw (e) (
          done,
          (
            count,
            logged ∙ ap (λ m. m ++ redriven k w th1.rest.1) same ∙ ap (λ x. l ++ redriven k w x) d,
            provided ∙ ap (λ x. provided_through k x) d,
          ),
          kept ∙ locks,
        )

    -- A WrapperTask of which some subtask always asks for an update, and whose first k updates are
    -- refused because the etag has changed, k below 60, is driven k + 1 times: each time it runs all
    -- its subtasks, in their order, with what was provided up to there, and sends the update, and
    -- before each further time the wrapper is refreshed and the next attempt works on what came back.
    -- It ends with what the last update gave and with what the last attempt has provided, keeps both,
    -- and leaves the thread's locks as they were. No subtask raises.
    pub execute_redriven :
        (th : Thread R)
        → k < 60
        → updates th.rest ≡ 0
        → no_tasks t.tasks ≡ false
        → let w = first_wrapper t.source in
          let p = provided_through k t.provided in
          ((execute truthy svc t th).0 ≡ ok (some (some (updated (refreshed_by k w)), p)))
          × ((execute truthy svc t th).1.0
              ≡ record t { source = given (updated (refreshed_by k w)); provided = p })
          × (updates (execute truthy svc t th).1.1.rest ≡ k + 1)
          × (log (execute truthy svc t th).1.1.rest ≡ log th.rest ++ redriven k w t.provided)
          × ((execute truthy svc t th).1.1.locks ≡ th.locks)
    unfolding execute
    execute_redriven th room zero_updates some_task =
        let svc' : Service (Work R Val) X Wr = work_service svc in
        let th0 : Thread (Work R Val) = record { locks = th.locks; rest = (th.rest, t.provided) } in
        let w = first_wrapper t.source in
        let final = updated (refreshed_by k w) in
        let l = log th.rest in
        let (done, (count, logged, provided), kept) =
          entry_transaction_ok svc' func (Start l t.provided)
            (End (l ++ redriven k w t.provided) (provided_through k t.provided)) t.source final
            (λ u s h.
              unfold work_service in
              (
                contended.acquire_ok u s.0,
                (contended.acquire_updates u s.0 ∙ h.0, contended.acquire_log u s.0 ∙ h.1, h.2),
              ))
            (λ u s h.
              unfold work_service in
              (contended.release_updates u s.0 ∙ h.0, contended.release_log u s.0 ∙ h.1, h.2))
            (resolve_redriven t.source l t.provided room) th0 (zero_updates, refl, refl) in
        let (r, th') = entry_transaction svc' func t.source th0 in
        rw (some_task, finish_lem t r th' final (provided_through k t.provided) done provided)
          (refl, refl, count, logged, kept)
