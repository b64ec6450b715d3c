-- ===== src/Transaction/Task.antt =====
-- Subtask and WrapperTask of pypowervm/utils/transaction.py. A subtask's `execute` is an action on
-- the thread, which is given the dictionary of what was provided so far and the wrapper; that it
-- may take no `provided` argument is up to it. `Val` is the type of what subtasks return, and `truthy`
-- says which of these are true.
pub mod Names
pub mod Run
pub mod Redrive
use pypowervm.Prelude.{
  ℕ, String, Bool, true, false, ◌&&◌, ◌||◌, Option, none, some, List, [], ◌∷◌, ◌++◌, is_in,
  if◌then◌else◌,
}
use pypowervm.Prelude.Dict.{Dict, insert}
use pypowervm.Exec.{Result, ok, err, hang, Exec, pure, ◌>>=◌, ◌>>◌}
use pypowervm.Retry.{Exn, other}
use pypowervm.Transaction.{
  Fault, wrapper_task_no_subtasks, duplicate_provides, Service, Thread, Source, given, getter,
  outside, entry_transaction,
}

pub record Subtask (R X Wr Val : Type 0) : Type 0 where
  pub provides : Option String
  pub flag_update : Bool
  pub execute : Dict Val → Wr → Exec (Thread R) (Exn (Fault X)) Val

abbrev pub is_empty : {Val : Type 0} → Dict Val → Bool
is_empty [] = true
is_empty (x ∷ d) = false

-- _FunctorSubtask.execute: an empty dictionary is not handed on.
unfoldable pub functor_execute :
    {R X Wr Val : Type 0}
    → (Option (Dict Val) → Wr → Exec (Thread R) (Exn (Fault X)) Val)
    → Dict Val
    → Wr
    → Exec (Thread R) (Exn (Fault X)) Val
functor_execute func provided w = func (if is_empty provided then none else some provided) w

-- `source` is `_wrapper or _getter`.
pub record WrapperTask (R X Wr Val : Type 0) : Type 0 where
  pub name : String
  pub source : Source Wr
  pub tasks : List (Subtask R X Wr Val)
  pub allow_empty : Bool
  pub update_timeout : Option ℕ
  pub provided : Dict Val
  pub provided_keys : List String

-- __init__, whose subtasks are [] for None
unfoldable pub new :
    {R X Wr Val : Type 0}
    → String
    → Source Wr
    → List (Subtask R X Wr Val)
    → Bool
    → Option ℕ
    → WrapperTask R X Wr Val
new name source subtasks allow_empty update_timeout = record {
  name = name;
  source = source;
  tasks = subtasks;
  allow_empty = allow_empty;
  update_timeout = update_timeout;
  provided = [];
  provided_keys = [];
}

-- What one execution works on: the rest of the world, and the dictionary `self.provided`, which
-- outlives an attempt that is driven again.
abbrev pub Work : Type 0 → Type 0 → Type 0
Work R Val = R × Dict Val

abbrev pub beside : {R E Val A : Type 0} → Exec R E A → Exec (Work R Val) E A
beside m (r, provided) = let (a, r') = m r in (a, (r', provided))

unfoldable pub work_service : {R X Wr Val : Type 0} → Service R X Wr → Service (Work R Val) X Wr
work_service svc = record {
  uuid = svc.uuid;
  get = λ u. beside (svc.get u);
  refresh = λ w. beside (svc.refresh w);
  update = λ n w. beside (svc.update n w);
  sleep = λ t n. beside (svc.sleep t n);
  acquire = λ u. beside (svc.acquire u);
  release = λ u r. (svc.release u r.0, r.1);
}

abbrev pub provide :
    {R E Val : Type 0} → Option String → Val → Exec (Thread (Work R Val)) E (Unit {0})
provide none ret th = (ok tt, th)
provide (some key) ret th = (ok tt, record th { rest = (th.rest.0, insert key ret th.rest.1) })

-- What `execute` gives: None for an empty task, or the wrapper and what was provided.
abbrev pub Done : Type 0 → Type 0 → Type 0
Done Wr Val = Option (Option Wr × Dict Val)

module _ {R X Wr Val : Type 0} where
  -- The names are a set.
  unfoldable pub add_subtask :
      Subtask R X Wr Val → WrapperTask R X Wr Val → Result (Fault X) (WrapperTask R X Wr Val)
  unfolding is_in
  add_subtask task t = elim task.provides [
    | none ↦ ok (record t { tasks = t.tasks ++ task ∷ [] })
    | some key ↦
        if is_in key t.provided_keys
        then err (duplicate_provides key)
        else ok (record t { tasks = t.tasks ++ task ∷ []; provided_keys = key ∷ t.provided_keys })
  ]

  -- A subtask's execution, on the thread that also has the dictionary.
  abbrev pub run_subtask : Subtask R X Wr Val → Wr → Exec (Thread (Work R Val)) (Exn (Fault X)) Val
  run_subtask task w th =
      let provided = th.rest.1 in
      let (ret, th') = task.execute provided w (record { locks = th.locks; rest = th.rest.0 }) in
      (ret, record { locks = th'.locks; rest = (th'.rest, provided) })

  abbrev pub no_tasks : List (Subtask R X Wr Val) → Bool
  no_tasks [] = true
  no_tasks (task ∷ tasks) = false

  -- the last two statements of `execute`, once _execute has ended
  abbrev pub finish :
      WrapperTask R X Wr Val
      → Result (Exn (Fault X)) (Option Wr) × Thread (Work R Val)
      → Result (Exn (Fault X)) (Done Wr Val) × (WrapperTask R X Wr Val × Thread R)
  finish t (r, th) =
      let th' : Thread R = record { locks = th.locks; rest = th.rest.0 } in
      let t' = record t { provided = th.rest.1 } in
      elim r [
        | ok none ↦ (ok (some (none, th.rest.1)), (t', th'))
        | ok (some w) ↦ (ok (some (some w, th.rest.1)), (record t' { source = given w }, th'))
        | err e ↦ (err e, (t', th'))
        | hang ↦ (hang, (t', th'))
      ]

  module _ (truthy : Val → Bool) where
    -- the loop of _execute, with the value of update_needed so far
    unfoldable pub run_subtasks :
        List (Subtask R X Wr Val) → Bool → Wr → Exec (Thread (Work R Val)) (Exn (Fault X)) Bool
    unfolding insert
    run_subtasks [] update_needed w = pure update_needed
    run_subtasks (task ∷ tasks) update_needed w = do
      ret ← run_subtask task w
      provide task.provides ret
      run_subtasks tasks (update_needed || (task.flag_update && truthy ret)) w

    module _ (svc : Service R X Wr) where
      -- _execute
      unfoldable pub run_and_update :
          WrapperTask R X Wr Val → Wr → Exec (Thread (Work R Val)) (Exn (Fault X)) Wr
      unfolding run_subtasks
      run_and_update t w = do
        update_needed ← run_subtasks t.tasks false w
        if update_needed then outside ((work_service svc).update t.update_timeout w) else pure w

      unfoldable pub execute :
          WrapperTask R X Wr Val
          → Thread R
          → Result (Exn (Fault X)) (Done Wr Val) × (WrapperTask R X Wr Val × Thread R)
      unfolding entry_transaction work_service run_and_update
      execute t th =
          if no_tasks t.tasks
          then (if t.allow_empty
              then (ok none, (t, th))
              else (err (other (wrapper_task_no_subtasks t.name)), (t, th)))
          else finish t (
              entry_transaction (work_service svc) (run_and_update t) t.source
                (record { locks = th.locks; rest = (th.rest, t.provided) }))
