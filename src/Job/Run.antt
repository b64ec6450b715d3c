-- ===== src/Job/Run.antt =====
-- run_job of pypowervm/wrappers/job.py: what holds when it returns, and when it raises.
use pypowervm.Prelude.{
  ℕ, ◌+◌, ◌≤◌, ◌≡◌, ◌≢◌, String, Bool, true, false, List, [], ◌∷◌, ◌++◌, is_in, text_eq_iff, arith,
}
use pypowervm.Exec.{ok, err, hang}
use pypowervm.Exn.{Exn, job_request_failed, text_of, is_error}
use pypowervm.Job.{
  Entry, Server, poll_and_delete, State, create, monitor_job, conclude, give_up, run_job,
  delete_job, poll_while_status, running, not_active, completed_ok, results_message, job_message,
}
use pypowervm.Job.Poll.{Ticks, poll_while_status-Found, poll_while_status_ends}

results_message_ends :
    (names values : List String) (default : String) → results_message names values default ≢ hang
unfolding results_message
results_message_ends [] values default h = cc
results_message_ends (n ∷ names) [] default h =
    ground (arith, results_message_ends names [] default)
results_message_ends (n ∷ names) (v ∷ values) default h =
    ground (arith, results_message_ends names values default)

job_message_ends : (e : Entry) (default : String) → job_message e default ≢ hang
unfolding job_message
job_message_ends e default h =
    ground (arith, results_message_ends e.parm_names e.parm_values default)

module _ (S : Server) where
  pub create_frame :
      (uuid : String) (parms : List (String × String)) (s : State S)
      → ((create S uuid parms s).1.threads ≡ s.threads)
        × ((create S uuid parms s).1.job.op ≡ s.job.op)
  unfolding create
  create_frame uuid parms s = ground arith

  delete_job_frame :
      (s : State S) → ((delete_job S s).1.threads ≡ s.threads) × ((delete_job S s).1.job ≡ s.job)
  unfolding delete_job
  delete_job_frame s = ground arith

  conclude_frame :
      (s : State S) → ((conclude S s).1.threads ≡ s.threads) × ((conclude S s).1.job ≡ s.job)
  unfolding conclude
  conclude_frame s = ground (arith, delete_job_frame s)

  conclude-ok : (s : State S) → (conclude S s).0 ≡ ok tt → s.job.entry.status ≡ completed_ok
  unfolding conclude
  conclude-ok s h = ground (
    arith,
    delete_job_frame s,
    text_eq_iff s.job.entry.status completed_ok,
    text_eq_iff (delete_job S s).1.job.entry.status completed_ok,
  )

  give_up-ne-ok : (timeout : ℕ) (s : State S) → (give_up S timeout s).0 ≢ ok tt
  unfolding give_up
  give_up-ne-ok timeout s = ground arith

  monitor_job_frame :
      (fuel timeout : ℕ) (s : State S) → ((monitor_job S fuel timeout true s).1.threads ≡ s.threads)
  unfolding monitor_job
  monitor_job_frame fuel timeout s =
      (poll_while_status-Found S fuel (running ∷ not_active ∷ []) timeout s).1

  -- A synchronous run that returns has left the Job COMPLETED_OK, and no thread is started.
  run_job-sync_ok :
      (fuel : ℕ) (uuid : String) (parms : List (String × String)) (timeout : ℕ) (s : State S)
      → (run_job S fuel uuid parms timeout true s).0 ≡ ok tt
      → ((run_job S fuel uuid parms timeout true s).1.job.entry.status ≡ completed_ok)
        × ((run_job S fuel uuid parms timeout true s).1.threads ≡ s.threads)
  unfolding run_job
  run_job-sync_ok fuel uuid parms timeout s h =
      let c = (create S uuid parms s).1 in
      let m = (monitor_job S fuel timeout true c).1 in
      ground (
        arith,
        create_frame uuid parms s,
        monitor_job_frame fuel timeout c,
        conclude-ok m,
        conclude_frame m,
        give_up-ne-ok timeout m,
      )

  -- An asynchronous run that returns has seen the Job in a status other than NOT_STARTED, and has
  -- started one thread, which polls that Job and deletes it.
  run_job-async_ok :
      (fuel : ℕ) (uuid : String) (parms : List (String × String)) (timeout : ℕ) (s : State S)
      → (run_job S fuel uuid parms timeout false s).0 ≡ ok tt
      → let t = (run_job S fuel uuid parms timeout false s).1 in
        (is_in t.job.entry.status (not_active ∷ []) ≡ false)
        × (t.threads ≡ s.threads ++ poll_and_delete t.job ∷ [])
  unfolding run_job monitor_job
  run_job-async_ok fuel uuid parms timeout s h =
      let c = (create S uuid parms s).1 in
      let found = poll_while_status-Found S fuel (not_active ∷ []) timeout c in
      ground (
        arith,
        create_frame uuid parms s,
        found.0,
        found.1,
        give_up-ne-ok timeout (poll_while_status S fuel (not_active ∷ []) timeout c).1,
      )

  -- Where create_job raises an Error, run_job raises JobRequestFailed with that error's text, and
  -- asks the server for nothing more.
  run_job-create_failed :
      (fuel : ℕ) (uuid : String) (parms : List (String × String)) (timeout : ℕ) (synchronous : Bool)
      (s : State S) (e : Exn)
      → let sent = record s.job.entry { job_parms = s.job.entry.job_parms ++ parms } in
        (S.create_job sent s.job.entry.group_name uuid s.world).0 ≡ err e
        → is_error e ≡ true
        → run_job S fuel uuid parms timeout synchronous s ≡ (
          err (job_request_failed s.job.op (text_of e)),
          record s {
            job = record s.job { entry = sent };
            world = (S.create_job sent s.job.entry.group_name uuid s.world).1;
          },
        )
  unfolding run_job create
  run_job-create_failed fuel uuid parms timeout synchronous s e h k = ground arith

-- Every request comes to an end.
pub record Ends (S : Server) : Type 0 where
  pub create_ends :
      (e : Entry) (group uuid : String) (w : S.World) → (S.create_job e group uuid w).0 ≢ hang
  pub cancel_ends : (id : String) (w : S.World) → (S.cancel id w).0 ≢ hang
  pub delete_ends : (id : String) (w : S.World) → (S.delete id w).0 ≢ hang

module _ (S : Server) where
  -- Where a synchronous wait, or the wait of a thread that is to delete the Job, has ended without
  -- timing out, delete_job does not refuse: it sends the request to delete the Job.
  delete_job-monitor_job :
      (fuel timeout : ℕ) (s : State S)
      → (monitor_job S fuel timeout true s).0 ≡ ok false
      → let t = (monitor_job S fuel timeout true s).1 in
        (delete_job S t).1.world ≡ (S.delete t.job.entry.job_id t.world).1
  unfolding delete_job monitor_job is_in
  delete_job-monitor_job fuel timeout s h =
      let found = poll_while_status-Found S fuel (running ∷ not_active ∷ []) timeout s in
      ground (arith, found.0)

module _ (S : Server) (ticks : Ticks S) (ends : Ends S) where
  create_ends :
      (uuid : String) (parms : List (String × String)) (s : State S)
      → (create S uuid parms s).0 ≢ hang
  unfolding create
  create_ends uuid parms s h =
      let e = record s.job.entry { job_parms = s.job.entry.job_parms ++ parms } in
      ground (arith, ends.create_ends e s.job.entry.group_name uuid s.world)

  conclude_ends : (s : State S) → (conclude S s).0 ≢ hang
  unfolding conclude
  conclude_ends s h =
      ground (arith, ends.delete_ends s.job.entry.job_id s.world, job_message_ends s.job.entry "")

  give_up_ends : (timeout : ℕ) (s : State S) → (give_up S timeout s).0 ≢ hang
  unfolding give_up
  give_up_ends timeout s h = ground (arith, ends.cancel_ends s.job.entry.job_id s.world)

  -- With a timeout, a clock that goes on and requests that end, a run ends: `timeout + 2` rounds of
  -- polling are enough.
  pub run_job_ends :
      (fuel : ℕ) (uuid : String) (parms : List (String × String)) (timeout : ℕ) (synchronous : Bool)
      (s : State S)
      → timeout ≢ 0
      → timeout + 2 ≤ fuel
      → (run_job S fuel uuid parms timeout synchronous s).0 ≢ hang
  unfolding run_job monitor_job
  run_job_ends fuel uuid parms timeout true s positive enough h =
      let c = (create S uuid parms s).1 in
      let m = (poll_while_status S fuel (running ∷ not_active ∷ []) timeout c).1 in
      ground (
        arith,
        create_ends uuid parms s,
        poll_while_status_ends S ticks fuel (running ∷ not_active ∷ []) timeout c positive enough,
        conclude_ends m,
        give_up_ends timeout m,
      )
  run_job_ends fuel uuid parms timeout false s positive enough h =
      let c = (create S uuid parms s).1 in
      let m = (poll_while_status S fuel (not_active ∷ []) timeout c).1 in
      ground (
        arith,
        create_ends uuid parms s,
        poll_while_status_ends S ticks fuel (not_active ∷ []) timeout c positive enough,
        give_up_ends timeout m,
      )
