-- ===== src/Job/Timeout.antt =====
-- The timeout of run_job (pypowervm/wrappers/job.py), where the server's own failures are told
-- from those that run_job raises.
use pypowervm.Prelude.{
  ℕ, zero, suc, ◌≡◌, ◌≢◌, String, Bool, true, false, List, [], ◌∷◌, ◌++◌, ◌*◌, ◌-◌, ◌<◌, is_in,
  arith,
}
use pypowervm.Exec.{err}
use pypowervm.Exn.{Exn, api_error, foreign, job_request_timed_out}
use pypowervm.Job.{
  Entry, Server, cancel_job, State, create, monitor_job, conclude, give_up, run_job, poll_loop,
  refresh, poll_while_status, running, not_active, cancel, results_message, job_message,
  microseconds,
}
use pypowervm.Job.Run.{create_frame}
use pypowervm.Job.Poll.{poll_while_status-Found, poll_while_status_op}

-- The server's own failures: an Error of a failed request, or no Error at all.
abbrev pub raw : Exn → Bool
raw (api_error _) = true
raw (foreign _) = true
raw _ = false

-- Requests raise nothing but such failures.
pub record RaisesRaw (S : Server) : Type 0 where
  pub create_raw :
      (e : Entry) (group uuid : String) (w : S.World) (x : Exn)
      → (S.create_job e group uuid w).0 ≡ err x
      → raw x ≡ true
  pub read_raw : (id : String) (w : S.World) (x : Exn) → (S.read_job id w).0 ≡ err x → raw x ≡ true
  pub cancel_raw : (id : String) (w : S.World) (x : Exn) → (S.cancel id w).0 ≡ err x → raw x ≡ true
  pub delete_raw : (id : String) (w : S.World) (x : Exn) → (S.delete id w).0 ≡ err x → raw x ≡ true

results_message-ne :
    (names values : List String) (default op : String) (seconds : ℕ)
    → results_message names values default ≢ err (job_request_timed_out op seconds)
unfolding results_message
results_message-ne [] values default op seconds h = cc
results_message-ne (n ∷ names) [] default op seconds h =
    ground (arith, results_message-ne names [] default op seconds)
results_message-ne (n ∷ names) (v ∷ values) default op seconds h =
    ground (arith, results_message-ne names values default op seconds)

job_message-ne :
    (e : Entry) (default op : String) (seconds : ℕ)
    → job_message e default ≢ err (job_request_timed_out op seconds)
unfolding job_message
job_message-ne e default op seconds h =
    ground (arith, results_message-ne e.parm_names e.parm_values default op seconds)

-- The statuses in which a run waits for its Job.
abbrev pub waiting : Bool → List String
waiting true = running ∷ not_active ∷ []
waiting false = not_active ∷ []

module _ (S : Server) (raws : RaisesRaw S) where
  poll_loop-raw :
      (fuel : ℕ) (statuses : List String) (timeout began : ℕ) (s : State S) (x : Exn)
      → (poll_loop S fuel statuses timeout began s).0 ≡ err x
      → raw x ≡ true
  unfolding poll_loop
  poll_loop-raw zero statuses timeout began s x h = cc
  poll_loop-raw (suc fuel) statuses timeout began s x h = ground (
    arith,
    raws.read_raw s.job.entry.job_id (S.sleep s.world) x,
    poll_loop-raw fuel statuses timeout began (refresh S s).1 x,
  )

  pub poll_while_status-raw :
      (fuel : ℕ) (statuses : List String) (timeout : ℕ) (s : State S) (x : Exn)
      → (poll_while_status S fuel statuses timeout s).0 ≡ err x
      → raw x ≡ true
  unfolding poll_while_status
  poll_while_status-raw fuel statuses timeout s =
      poll_loop-raw fuel statuses timeout (S.now s.world) s

  create_raised :
      (uuid : String) (parms : List (String × String)) (s : State S) (op : String) (seconds : ℕ)
      → (create S uuid parms s).0 ≢ err (job_request_timed_out op seconds)
  unfolding create
  create_raised uuid parms s op seconds h =
      let e = record s.job.entry { job_parms = s.job.entry.job_parms ++ parms } in
      ground (
        arith,
        raws.create_raw e s.job.entry.group_name uuid s.world (job_request_timed_out op seconds),
      )

  conclude_raised :
      (s : State S) (op : String) (seconds : ℕ)
      → (conclude S s).0 ≢ err (job_request_timed_out op seconds)
  unfolding conclude
  conclude_raised s op seconds h = ground (
    arith,
    raws.delete_raw s.job.entry.job_id s.world (job_request_timed_out op seconds),
    job_message-ne s.job.entry "" op seconds,
  )

  -- Giving up sends the cancel request, and starts the thread that waits for the end of the Job.
  give_up_threads :
      (timeout : ℕ) (s : State S) (op : String) (seconds : ℕ)
      → (give_up S timeout s).0 ≡ err (job_request_timed_out op seconds)
      → (op ≡ s.job.op)
        × (seconds ≡ timeout)
        × ((give_up S timeout s).1.threads ≡ s.threads ++ cancel_job s.job ∷ [])
        × ((give_up S timeout s).1.job ≡ s.job)
  unfolding give_up cancel
  give_up_threads timeout s op seconds h =
      ground (arith, raws.cancel_raw s.job.entry.job_id s.world (job_request_timed_out op seconds))

  module _ (fuel : ℕ) (uuid : String) (parms : List (String × String)) (timeout : ℕ) (s : State S)
      (op : String) (seconds : ℕ) where
    -- A run raises JobRequestTimedOut only for its own operation and timeout, which is not zero,
    -- once more than that many seconds have passed since the Job was created, with the Job still in
    -- a status that the run waits for, and with a thread started that polls that Job until it is
    -- deleted.
    pub run_job_timed_out :
        (synchronous : Bool)
        → (run_job S fuel uuid parms timeout synchronous s).0
          ≡ err (job_request_timed_out op seconds)
        → let t = (run_job S fuel uuid parms timeout synchronous s).1 in
          let created = (create S uuid parms s).1 in
          let polled = (poll_while_status S fuel (waiting synchronous) timeout created).1 in
          (op ≡ s.job.op)
          × (seconds ≡ timeout)
          × (timeout ≢ 0)
          × (timeout * microseconds < S.now polled.world - S.now created.world)
          × (is_in t.job.entry.status (waiting synchronous) ≡ true)
          × (t.threads ≡ s.threads ++ cancel_job t.job ∷ [])
    unfolding run_job monitor_job
    run_job_timed_out true h =
        let c = (create S uuid parms s).1 in
        let m = (poll_while_status S fuel (waiting true) timeout c).1 in
        let found = poll_while_status-Found S fuel (waiting true) timeout c in
        ground (
          arith,
          create_raised uuid parms s op seconds,
          create_frame S uuid parms s,
          poll_while_status_op S fuel (waiting true) timeout c,
          poll_while_status-raw fuel (waiting true) timeout c (job_request_timed_out op seconds),
          found.0,
          found.1,
          give_up_threads timeout m op seconds,
          conclude_raised m op seconds,
        )
    run_job_timed_out false h =
        let c = (create S uuid parms s).1 in
        let m = (poll_while_status S fuel (waiting false) timeout c).1 in
        let found = poll_while_status-Found S fuel (waiting false) timeout c in
        ground (
          arith,
          create_raised uuid parms s op seconds,
          create_frame S uuid parms s,
          poll_while_status_op S fuel (waiting false) timeout c,
          poll_while_status-raw fuel (waiting false) timeout c (job_request_timed_out op seconds),
          found.0,
          found.1,
          give_up_threads timeout m op seconds,
          conclude_raised m op seconds,
        )
