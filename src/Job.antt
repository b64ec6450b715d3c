-- ===== src/Job.antt =====
-- Jobs on the REST server: pypowervm/wrappers/job.py. The server and the clock are a parameter, a
-- `Server` with a state of its own; the requests of pypowervm/adapter.py are its operations, each
-- of which gives a reply or raises. Times are in microseconds. Log lines and the `sensitive` flag,
-- which only masks them, are left out.

pub mod Poll
pub mod Timeout
pub mod Raised
pub mod Run
pub mod Examples
use pypowervm.Prelude.{
  ℕ, zero, suc, ◌-◌, ◌*◌, String, Bool, true, false, not, ◌&&◌, Option, none, some, List, [], ◌∷◌,
  ◌++◌, ◌<>◌, ◌==◌, ltb, is_in, text_eq, if◌then◌else◌,
}
use pypowervm.Prelude.Dict.{Dict, insert}
use pypowervm.Exec.{Exec, Result, ok, err, hang, pure, raise, catch, ◌>>=◌, ◌>>◌}
use pypowervm.Exn.{
  Exn, api_error, job_request_failed, job_request_timed_out, foreign, is_error,
  is_job_request_failed, text_of,
}

-- JobStatus
abbrev pub not_active : String
not_active = "NOT_STARTED"

abbrev pub running : String
running = "RUNNING"

abbrev pub completed_ok : String
completed_ok = "COMPLETED_OK"

-- What the wrapper reads of a Job's XML: the requested operation, the parameters, and of a response
-- its id, status, result parameters and exception message.
pub record Entry : Type 0 where
  pub group_name : String
  pub operation_name : String
  pub job_parms : List (String × String)
  pub job_id : String
  pub status : String
  pub parm_names : List String
  pub parm_values : List String
  pub exception_message : Option String

-- The wrapper: `wrap` keeps the operation name, and the entry is replaced by each response.
pub record Job : Type 0 where
  pub op : String
  pub entry : Entry

unfoldable pub wrap : Entry → Job
wrap e = record { op = e.operation_name; entry = e }

-- The REST server, and time. `read_template` reads the Job of an operation on a resource.
pub record Server : Type 1 where
  pub World : Type 0
  pub now : World → ℕ
  pub sleep : World → World
  pub read_template : String → String → String → Exec World Exn Entry
  pub create_job : Entry → String → String → Exec World Exn Entry
  pub read_job : String → Exec World Exn Entry
  pub cancel : String → Exec World Exn (Unit {0})
  pub delete : String → Exec World Exn (Unit {0})

-- The threads that a Job starts, each with the Job as it was then.
pub data Thread : Type 0 where
  poll_and_delete : Job → Thread
  cancel_job : Job → Thread

abbrev pub microseconds : ℕ
microseconds = 1000000

-- The first value whose name is `result`. An index past the values is an IndexError.
unfoldable pub results_message : List String → List String → String → Result Exn String
results_message [] values default = ok default
results_message (n ∷ names) (v ∷ values) default =
    let rest = results_message names values default in if text_eq n "result" then ok v else rest
results_message (n ∷ names) [] default =
    let rest = results_message names [] default in
    if text_eq n "result" then err (foreign "list index out of range") else rest

unfoldable pub results_dict : List String → List String → Dict String → Result Exn (Dict String)
unfolding insert
results_dict [] values d = ok d
results_dict (n ∷ names) (v ∷ values) d = results_dict names values (insert n v d)
results_dict (n ∷ names) [] d = err (foreign "list index out of range")

abbrev pub or_default : Option String → String → String
or_default none default = default
or_default (some m) default = m

-- get_job_message: the results' message, or the exception's where that is empty.
unfoldable pub job_message : Entry → String → Result Exn String
unfolding results_message
job_message e default = elim (results_message e.parm_names e.parm_values default) [
  | ok m ↦ ok (if text_eq m "" then or_default e.exception_message default else m)
  | err x ↦ err x
  | hang ↦ hang
]

unfoldable pub add_job_parameters : List (String × String) → Entry → Entry
add_job_parameters parms e = record e { job_parms = e.job_parms ++ parms }

module _ (S : Server) where
  pub record State : Type 0 where
    pub job : Job
    pub world : S.World
    pub threads : List Thread

  abbrev pub JobM : Type 0 → Type 0
  JobM A = Exec State Exn A

  -- a request, on the server's state alone
  abbrev pub request : {A : Type 0} → Exec S.World Exn A → JobM A
  request m s = let (r, w) = m s.world in (r, record s { world = w })

  abbrev pub get_job : JobM Job
  get_job s = (ok s.job, s)

  abbrev pub set_entry : Entry → JobM (Unit {0})
  set_entry e s = (ok tt, record s { job = record s.job { entry = e } })

  abbrev pub start : Thread → JobM (Unit {0})
  start t s = (ok tt, record s { threads = s.threads ++ t ∷ [] })

  -- time.sleep(1), and the Job's new entry
  unfoldable pub refresh : JobM (Unit {0})
  refresh s =
      (do e ← request (S.read_job s.job.entry.job_id); set_entry e)
        (record s { world = S.sleep s.world })

  -- the loop of poll_while_status, which began at the time `began`
  unfoldable pub poll_loop : ℕ → List String → ℕ → ℕ → JobM Bool
  unfolding refresh is_in
  poll_loop zero statuses timeout began s = (hang, s)
  poll_loop (suc fuel) statuses timeout began s =
      let rest = (refresh >>= λ _. poll_loop fuel statuses timeout began) s in
      if not (is_in s.job.entry.status statuses)
      then (ok false, s)
      else if not (timeout == 0) && ltb (timeout * microseconds) (S.now s.world - began)
      then (ok true, s)
      else rest

  unfoldable pub poll_while_status : ℕ → List String → ℕ → JobM Bool
  unfolding poll_loop
  poll_while_status fuel statuses timeout s = poll_loop fuel statuses timeout (S.now s.world) s

  unfoldable pub monitor_job : ℕ → ℕ → Bool → JobM Bool
  unfolding poll_while_status
  monitor_job fuel timeout true = poll_while_status fuel (running ∷ not_active ∷ []) timeout
  monitor_job fuel timeout false = do
    timed_out ← poll_while_status fuel (not_active ∷ []) timeout
    if timed_out then pure true else (do j ← get_job; start (poll_and_delete j); pure false)

  -- `except Error: LOG.exception(exc)`
  abbrev pub swallow_error : Exn → JobM (Unit {0})
  swallow_error e = if is_error e then pure tt else raise e

  unfoldable pub delete_job : JobM (Unit {0})
  delete_job = do
    j ← get_job
    if text_eq j.entry.status running
        then raise
            (api_error ("Job " <> j.entry.job_id <> " not deleted. Job is in running state."))
        else catch (request (S.delete j.entry.job_id)) swallow_error

  unfoldable pub cancel : JobM (Unit {0})
  cancel = do
    j ← get_job
    catch (request (S.cancel j.entry.job_id)) swallow_error
    start (cancel_job j)

  -- What the two threads run.
  unfoldable pub run_thread : ℕ → Thread → JobM (Unit {0})
  unfolding delete_job monitor_job
  run_thread fuel (poll_and_delete j) = do poll_while_status fuel (running ∷ []) 0; delete_job
  run_thread fuel (cancel_job j) = do monitor_job fuel 0 true; delete_job

  -- The failure of create_job is a JobRequestFailed with the text of what was raised.
  unfoldable pub create : String → List (String × String) → JobM (Unit {0})
  unfolding add_job_parameters text_of
  create uuid parms = do
    j ← get_job
    set_entry (add_job_parameters parms j.entry)
    e ←
        catch (request (S.create_job (add_job_parameters parms j.entry) j.entry.group_name uuid))
          (λ x. if is_error x then raise (job_request_failed j.op (text_of x)) else raise x)
    set_entry e

  -- the end of run_job, after a Job that has timed out
  unfoldable pub give_up : ℕ → JobM (Unit {0})
  unfolding cancel
  give_up timeout = do
    j ← get_job
    catch cancel (λ x. if is_job_request_failed x then pure tt else raise x)
    raise (job_request_timed_out j.op timeout)

  -- and after one that is no longer running
  unfoldable pub conclude : JobM (Unit {0})
  unfolding delete_job job_message
  conclude = do
    delete_job
    j ← get_job
    if text_eq j.entry.status completed_ok
        then pure tt
        else (do m ← (λ s. (job_message j.entry "", s)); raise (job_request_failed j.op m))

  unfoldable pub run_job : ℕ → String → List (String × String) → ℕ → Bool → JobM (Unit {0})
  unfolding create monitor_job give_up conclude
  run_job fuel uuid parms timeout synchronous = do
    create uuid parms
    timed_out ← monitor_job fuel timeout synchronous
    if timed_out then give_up timeout else if synchronous then conclude else pure tt
