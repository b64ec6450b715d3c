-- ===== src/Transaction/Task/Run.antt =====
-- What the execution of a WrapperTask does (pypowervm/utils/transaction.py), where nothing is raised.
use mathlib.Core.List.{append-nil, append_assoc}
use pypowervm.Prelude.{
  ℕ, ◌≡◌, ◌++◌, refl, sym, ap, ◌∙◌, String, Bool, true, false, ◌&&◌, ◌||◌, Option, none, some, List,
  [], ◌∷◌, Bool-cases, inl, inr, if◌then◌else◌, arith, All,
}
use pypowervm.Prelude.Dict.{Dict, insert}
use pypowervm.Exec.{Result, ok}
use pypowervm.Retry.{Exn}
use pypowervm.Transaction.{
  Fault, Service, Thread, Source, given, getter, wrapper_of, entry_transaction,
}
use pypowervm.Transaction.Success.{Succeeds, resolve_first_ok, entry_transaction_ok}
use pypowervm.Transaction.Task.{
  Subtask, WrapperTask, Work, work_service, provide, finish, run_subtasks, run_and_update, execute,
  no_tasks,
}

-- What the dictionary holds once a value has been provided.
abbrev pub with_value : {Val : Type 0} → Option String → Val → Dict Val → Dict Val
with_value none v provided = provided
with_value (some key) v provided = insert key v provided

provide_lem :
    {R E Val : Type 0} (key : Option String) (v : Val) (th : Thread (Work R Val))
    → provide {E = E} key v th
      ≡ (ok tt, record th { rest = (th.rest.0, with_value key v th.rest.1) })
provide_lem none v th = refl
provide_lem (some key) v th = refl

pub finish_lem :
    {R X Wr Val : Type 0} (t : WrapperTask R X Wr Val) (r : Result (Exn (Fault X)) (Option Wr))
    (th : Thread (Work R Val)) (w : Wr) (p : Dict Val)
    → r ≡ ok (some w)
    → th.rest.1 ≡ p
    → finish t (r, th) ≡ (
      ok (some (some w, p)),
      (record t { source = given w; provided = p }, record { locks = th.locks; rest = th.rest.0 }),
    )
finish_lem t r th w p h k = rw (h, k) refl

module _ {R X Wr Val : Type 0} (truthy : Val → Bool)
    (returns : Subtask R X Wr Val → Dict Val → Val) where
  -- The same after a subtask, and after several in their order.
  abbrev pub with_return : Subtask R X Wr Val → Dict Val → Dict Val
  with_return task provided = with_value task.provides (returns task provided) provided

  abbrev pub provided_after : List (Subtask R X Wr Val) → Dict Val → Dict Val
  provided_after [] provided = provided
  provided_after (task ∷ tasks) provided = provided_after tasks (with_return task provided)

  -- Whether some subtask that may flag an update returns something true.
  abbrev pub is_flagged : List (Subtask R X Wr Val) → Dict Val → Bool
  is_flagged [] provided = false
  is_flagged (task ∷ tasks) provided =
      (task.flag_update && truthy (returns task provided))
      || is_flagged tasks (with_return task provided)

  -- The log that a world keeps: `ran` is the entry for a subtask that was executed with the dictionary
  -- and the wrapper, and `sent` the one for a wrapper whose update was sent.
  module _ {Entry : Type 0} (log : R → List Entry)
      (ran : Subtask R X Wr Val → Dict Val → Wr → Entry) (sent : Wr → Entry) where
    -- The entries of subtasks that are executed in their order, and of an update.
    abbrev pub runs : List (Subtask R X Wr Val) → Dict Val → Wr → List Entry
    runs [] provided w = []
    runs (task ∷ tasks) provided w = ran task provided w ∷ runs tasks (with_return task provided) w

    abbrev pub sends : Bool → Wr → List Entry
    sends flagged w = if flagged then sent w ∷ [] else []

    abbrev pub trace : List (Subtask R X Wr Val) → Dict Val → Wr → List Entry
    trace tasks provided w = runs tasks provided w ++ sends (is_flagged tasks provided) w

    -- Subtasks that return what `returns` says, are logged once when they are executed, and leave
    -- updating the wrapper to the task.
    abbrev pub AreCalm : List (Subtask R X Wr Val) → Type 0
    AreCalm tasks =
        All
          (λ (task : Subtask R X Wr Val).
            (p : Dict Val) (w : Wr) (th : Thread R)
            → ((task.execute p w th).0 ≡ ok (returns task p))
              × (log (task.execute p w th).1.rest ≡ log th.rest ++ ran task p w ∷ [])
              × ((task.execute p w th).1.locks ≡ th.locks))
          tasks

    -- The log and the dictionary are these.
    abbrev pub At : List Entry → Dict Val → Work R Val → Type 0
    At n provided (r, d) = (log r ≡ n) × (d ≡ provided)

    or_assoc : (a b c : Bool) → ((a || b) || c) ≡ (a || (b || c))
    or_assoc true b c = refl
    or_assoc false b c = refl

    pub run_subtasks_cons :
        (task : Subtask R X Wr Val) (tasks : List (Subtask R X Wr Val)) (needed : Bool) (w : Wr)
        (th : Thread (Work R Val))
        → (task.execute th.rest.1 w (record { locks = th.locks; rest = th.rest.0 })).0
          ≡ ok (returns task th.rest.1)
        → run_subtasks truthy (task ∷ tasks) needed w th
          ≡ run_subtasks truthy tasks
              (needed || (task.flag_update && truthy (returns task th.rest.1)))
              w
              (record {
                locks =
                    (task.execute th.rest.1 w
                      (record { locks = th.locks; rest = th.rest.0 })).1.locks;
                rest = (
                  (task.execute th.rest.1 w (record { locks = th.locks; rest = th.rest.0 })).1.rest,
                  with_return task th.rest.1,
                );
              })
    unfolding run_subtasks
    run_subtasks_cons task tasks needed w th done =
        rw (done, provide_lem task.provides (returns task th.rest.1)) refl

    pub run_subtasks_at :
        (tasks : List (Subtask R X Wr Val)) (needed : Bool) (w : Wr) (th : Thread (Work R Val))
        → AreCalm tasks
        → ((run_subtasks truthy tasks needed w th).0 ≡ ok (needed || is_flagged tasks th.rest.1))
          × (log (run_subtasks truthy tasks needed w th).1.rest.0
              ≡ log th.rest.0 ++ runs tasks th.rest.1 w)
          × ((run_subtasks truthy tasks needed w th).1.rest.1 ≡ provided_after tasks th.rest.1)
          × ((run_subtasks truthy tasks needed w th).1.locks ≡ th.locks)
    run_subtasks_at [] needed w th calm =
        unfold run_subtasks in (ground arith, sym (append-nil (log th.rest.0)), refl, refl)
    run_subtasks_at (task ∷ tasks) needed w th calm =
        let p = th.rest.1 in
        let th0 : Thread R = record { locks = th.locks; rest = th.rest.0 } in
        let after = (task.execute p w th0).1 in
        let (done, same, kept) = calm.0 p w th0 in
        let needed' = needed || (task.flag_update && truthy (returns task p)) in
        let re =
          or_assoc needed (task.flag_update && truthy (returns task p))
            (is_flagged tasks (with_return task p)) in
        let th2 : Thread (Work R Val) = record {
          locks = after.locks;
          rest = (after.rest, with_return task p);
        } in
        let (flagged, more, provided, locks) = run_subtasks_at tasks needed' w th2 calm.1 in
        rw (run_subtasks_cons task tasks needed w th done) (
          flagged ∙ ap ok re,
          more
              ∙ ap (λ l. l ++ runs tasks (with_return task p) w) same
              ∙ append_assoc (log th.rest.0) (ran task p w ∷ [])
                  (runs tasks (with_return task p) w),
          provided,
          locks ∙ kept,
        )

    -- Requests and locks that work: each request ends well, an update is logged and gives the wrapper
    -- `updated w`, and no other request is logged.
    pub record IsOrderly (svc : Service R X Wr) (fetched : String → Wr) (updated : Wr → Wr)
        : Type 0 where
      pub get_ok : (u : String) (r : R) → (svc.get u r).0 ≡ ok (fetched u)
      pub get_log : (u : String) (r : R) → log (svc.get u r).1 ≡ log r
      pub update_ok : (n : Option ℕ) (w : Wr) (r : R) → (svc.update n w r).0 ≡ ok (updated w)
      pub update_log :
          (n : Option ℕ) (w : Wr) (r : R) → log (svc.update n w r).1 ≡ log r ++ sent w ∷ []
      pub acquire_ok : (u : String) (r : R) → (svc.acquire u r).0 ≡ ok tt
      pub acquire_log : (u : String) (r : R) → log (svc.acquire u r).1 ≡ log r
      pub release_log : (u : String) (r : R) → log (svc.release u r) ≡ log r

    module _ (svc : Service R X Wr) (fetched : String → Wr) (updated : Wr → Wr)
        (orderly : IsOrderly svc fetched updated) where
      -- The wrapper that the subtasks work on, and the one that comes back.
      abbrev pub the_wrapper : Source Wr → Wr
      the_wrapper (given w) = w
      the_wrapper (getter u) = fetched u

      abbrev pub result_of : Bool → Wr → Wr
      result_of flagged w = if flagged then updated w else w

      wrapper_of_ok :
          (src : Source Wr) (n : List Entry) (p : Dict Val)
          → Succeeds (At n p) (the_wrapper src) (At n p) (wrapper_of (work_service svc) src)
      unfolding work_service
      wrapper_of_ok (given w) n p th h = (refl, h, refl)
      wrapper_of_ok (getter u) n p th h =
          (orderly.get_ok u th.rest.0, (orderly.get_log u th.rest.0 ∙ h.0, h.1), refl)

      run_and_update_ok :
          (t : WrapperTask R X Wr Val) (w : Wr) (n : List Entry) (p : Dict Val)
          → AreCalm t.tasks
          → Succeeds
              (At n p)
              (result_of (is_flagged t.tasks p) w)
              (At (n ++ trace t.tasks p w) (provided_after t.tasks p))
              (run_and_update truthy svc t w)
      unfolding run_and_update work_service
      run_and_update_ok t w n p calm th h =
          let (run, same, after, kept) = run_subtasks_at t.tasks false w th calm in
          let flagged = run ∙ ap (λ d. ok (is_flagged t.tasks d)) h.1 in
          let provided = after ∙ ap (λ d. provided_after t.tasks d) h.1 in
          let th' = (run_subtasks truthy t.tasks false w th).1 in
          let ran_all : log th'.rest.0 ≡ n ++ runs t.tasks p w =
            same
            ∙ ap (λ m. m ++ runs t.tasks th.rest.1 w) h.0
            ∙ ap (λ d. n ++ runs t.tasks d w) h.1 in
          elim (Bool-cases (is_flagged t.tasks p)) [
            | inl yes' ↦
                rw (flagged, yes')
                  (
                    orderly.update_ok t.update_timeout w th'.rest.0,
                    (
                      orderly.update_log t.update_timeout w th'.rest.0
                          ∙ ap (λ m. m ++ sent w ∷ []) ran_all
                          ∙ append_assoc n (runs t.tasks p w) (sent w ∷ []),
                      provided,
                    ),
                    kept,
                  )
            | inr no' ↦
                rw (flagged, no')
                  (
                    refl,
                    (ran_all ∙ ap (λ m. n ++ m) (sym (append-nil (runs t.tasks p w))), provided),
                    kept,
                  )
          ]

      acquire_At :
          {n : List Entry} {p : Dict Val} (u : String) (s : Work R Val)
          → At n p s
          → (((work_service {Val = Val} svc).acquire u s).0 ≡ ok tt)
            × At n p ((work_service svc).acquire u s).1
      unfolding work_service
      acquire_At u s h = (orderly.acquire_ok u s.0, (orderly.acquire_log u s.0 ∙ h.0, h.1))

      release_At :
          {n : List Entry} {p : Dict Val} (u : String) (s : Work R Val)
          → At n p s
          → At n p ((work_service svc).release u s)
      unfolding work_service
      release_At u s h = (orderly.release_log u s.0 ∙ h.0, h.1)

      -- A WrapperTask with subtasks, none of which raises, runs each of them once and in their order,
      -- each on the task's wrapper and with what the ones before it have provided, and then updates
      -- that wrapper exactly once if some subtask that may flag an update has returned something true,
      -- and otherwise not at all: this is what the log shows, where each execution of a subtask and
      -- each update leaves one entry. It returns the wrapper and the dictionary, keeps both, and
      -- leaves the thread's locks as they were.
      pub execute_lem :
          (t : WrapperTask R X Wr Val) (th : Thread R)
          → AreCalm t.tasks
          → no_tasks t.tasks ≡ false
          → ((execute truthy svc t th).0
              ≡ ok (
                  some (
                    some (result_of (is_flagged t.tasks t.provided) (the_wrapper t.source)),
                    provided_after t.tasks t.provided,
                  )))
            × ((execute truthy svc t th).1.0 ≡ record t {
              source = given (result_of (is_flagged t.tasks t.provided) (the_wrapper t.source));
              provided = provided_after t.tasks t.provided;
            })
            × (log (execute truthy svc t th).1.1.rest
                ≡ log th.rest ++ trace t.tasks t.provided (the_wrapper t.source))
            × ((execute truthy svc t th).1.1.locks ≡ th.locks)
      unfolding execute
      execute_lem t th calm some_task =
          let svc' : Service (Work R Val) X Wr = work_service svc in
          let flagged = is_flagged t.tasks t.provided in
          let n = log th.rest in
          let p = provided_after t.tasks t.provided in
          let w = the_wrapper t.source in
          let th0 : Thread (Work R Val) = record {
            locks = th.locks;
            rest = (th.rest, t.provided);
          } in
          let resolves =
            resolve_first_ok svc' (run_and_update truthy svc t) (At n t.provided)
              (At (n ++ trace t.tasks t.provided w) p) t.source w (result_of flagged w)
              (wrapper_of_ok t.source n t.provided) (run_and_update_ok t w n t.provided calm) in
          let (done, (counted, provided), kept) =
            entry_transaction_ok svc' (run_and_update truthy svc t) (At n t.provided)
              (At (n ++ trace t.tasks t.provided w) p) t.source (result_of flagged w) acquire_At
              release_At resolves th0 (refl, refl) in
          let (r, th') = entry_transaction svc' (run_and_update truthy svc t) t.source th0 in
          rw (some_task, finish_lem t r th' (result_of flagged w) p done provided)
            (refl, refl, counted, kept)
