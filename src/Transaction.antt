-- ===== src/Transaction.antt =====
-- pypowervm/utils/transaction.py: the decorator entry_transaction. The REST server, the lock service
-- (oslo's lockutils) and the clock are a parameter, `Service`, of actions on a state `R`. A wrapper is
-- a reference: what changes it changes the state. Log lines are left out.
pub mod Locks
pub mod Success
pub mod Task
pub mod Feed
mod Examples
use pypowervm.Prelude.{
  ℕ, String, Bool, true, false, Option, none, some, List, [], ◌∷◌, ◌++◌, is_in, text_eq,
  if◌then◌else◌,
}
use pypowervm.Exec.{Result, ok, err, Exec, pure, ◌>>=◌}
use pypowervm.Retry.{Exn, other, Options, dft_retry_codes, retry}

-- What the module raises itself, and whatever else is no HttpError.
pub data Fault (X : Type 0) : Type 0 where
  wrapper_task_no_subtasks : String → Fault X
  feed_task_empty_feed : Fault X
  duplicate_provides : String → Fault X
  not_in_list : Fault X
  key_error : Fault X
  foreign : X → Fault X

pub record Service (R X Wr : Type 0) : Type 0 where
  pub uuid : Wr → String
  -- EntryWrapperGetter.get, which caches what it has fetched
  pub get : String → Exec R (Exn (Fault X)) Wr
  -- wrapper.refresh(use_etag=False)
  pub refresh : Wr → Exec R (Exn (Fault X)) Wr
  -- wrapper.update(timeout=..), where none is -1
  pub update : Option ℕ → Wr → Exec R (Exn (Fault X)) Wr
  -- STEPPED_RANDOM_DELAY
  pub sleep : ℕ → ℕ → Exec R (Exn (Fault X)) (Unit {0})
  -- what lock.synchronized does before and after the call
  pub acquire : String → Exec R (Exn (Fault X)) (Unit {0})
  pub release : String → R → R

-- A thread: its list of UUIDs in `_local.entry_transaction`, and the rest of the world.
pub record Thread (R : Type 0) : Type 0 where
  pub locks : List String
  pub rest : R

-- An action on the rest of the world.
abbrev pub outside : {R E A : Type 0} → Exec R E A → Exec (Thread R) E A
outside m th = let (r, rest) = m th.rest in (r, record th { rest = rest })

-- The first argument of a decorated method: an EntryWrapper, or an EntryWrapperGetter of a UUID.
pub data Source (Wr : Type 0) : Type 0 where
  given : Wr → Source Wr
  getter : String → Source Wr

-- xs.remove(u)
unfoldable pub remove : String → List String → Option (List String)
remove u [] = none
remove u (x ∷ xs) =
    let rest = remove u xs in
    if text_eq x u then some xs else (elim rest [ none ↦ none | some ys ↦ some (x ∷ ys) ])

module _ {R X Wr : Type 0} (svc : Service R X Wr) where
  abbrev pub source_uuid : Source Wr → String
  source_uuid (given w) = svc.uuid w
  source_uuid (getter u) = u

  -- the arguments of the retry decorator, with refresh_wrapper
  unfoldable pub retry_options : {A : Type 0} → Options (Thread R) Wr A (Fault X)
  retry_options = record {
    tries = 60;
    delay_func = λ t n w. outside (svc.sleep t n);
    retry_except = none;
    http_codes = some dft_retry_codes;
    test_func = none;
    resp_checker = none;
    limit_except = none;
    argmod_func = λ t n w. outside (svc.refresh w);
  }

  abbrev pub wrapper_of : Source Wr → Exec (Thread R) (Exn (Fault X)) Wr
  wrapper_of (given w) = pure w
  wrapper_of (getter u) = outside (svc.get u)

  -- `finally: _get_locks().remove(uuid)`, and the end of lock.synchronized
  abbrev pub unlock :
      {A : Type 0}
      → String
      → Result (Exn (Fault X)) A × Thread R
      → Result (Exn (Fault X)) A × Thread R
  unlock u (r, th) =
      let free = svc.release u th.rest in
      elim (remove u th.locks) [
        | none ↦ (err (other not_in_list), record th { rest = free })
        | some locks ↦ (r, record { locks = locks; rest = free })
      ]

  module _ {A : Type 0} (func : Wr → Exec (Thread R) (Exn (Fault X)) A) where
    unfoldable pub resolve_wrapper : Source Wr → Exec (Thread R) (Exn (Fault X)) (Option A)
    unfolding retry retry_options
    resolve_wrapper src = wrapper_of src >>= retry retry_options func

    -- the body of _locked_resolve_wrapper, once the lock has been acquired
    unfoldable pub while_locked : String → Source Wr → Exec (Thread R) (Exn (Fault X)) (Option A)
    unfolding resolve_wrapper remove
    while_locked u src th =
        unlock u (resolve_wrapper src (record th { locks = th.locks ++ u ∷ [] }))

    -- The decorated method. Where the retry decorator makes no pass it returns None, so the result
    -- is optional.
    unfoldable pub entry_transaction : Source Wr → Exec (Thread R) (Exn (Fault X)) (Option A)
    unfolding resolve_wrapper while_locked is_in
    entry_transaction src th =
        let u = source_uuid src in
        if is_in u th.locks
        then resolve_wrapper src th
        else (outside (svc.acquire u) >>= λ _. while_locked u src) th
