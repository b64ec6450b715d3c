-- ===== src/Job/Raised.antt =====
-- Which exceptions run_job (pypowervm/wrappers/job.py) raises at all.
use pypowervm.Prelude.{ℕ, ◌≡◌, String, Bool, true, false, ◌||◌, List, [], ◌∷◌, ◌++◌, arith}
use pypowervm.Exec.{err}
use pypowervm.Exn.{Exn, is_job_request_failed}
use pypowervm.Job.{
  Server, State, create, poll_while_status, monitor_job, conclude, give_up, run_job,
  results_message,
}
use pypowervm.Job.Timeout.{raw, RaisesRaw, poll_while_status-raw, waiting}

-- The server's failures, and JobRequestFailed with its subclass.
abbrev pub expected : Exn → Bool
expected x = raw x || is_job_request_failed x

results_message_raised :
    (names values : List String) (default : String) (x : Exn)
    → results_message names values default ≡ err x
    → raw x ≡ true
unfolding results_message
results_message_raised [] values default x h = cc
results_message_raised (n ∷ names) [] default x h =
    ground (arith, results_message_raised names [] default x)
results_message_raised (n ∷ names) (v ∷ values) default x h =
    ground (arith, results_message_raised names values default x)

module _ (S : Server) (raws : RaisesRaw S) where
  create-expected :
      (uuid : String) (parms : List (String × String)) (s : State S) (x : Exn)
      → (create S uuid parms s).0 ≡ err x
      → expected x ≡ true
  unfolding create
  create-expected uuid parms s x h =
      let e = record s.job.entry { job_parms = s.job.entry.job_parms ++ parms } in
      ground (arith, raws.create_raw e s.job.entry.group_name uuid s.world x)

  conclude-expected : (s : State S) (x : Exn) → (conclude S s).0 ≡ err x → expected x ≡ true
  unfolding conclude
  conclude-expected s x h =
      let e = s.job.entry in
      ground (
        arith,
        raws.delete_raw e.job_id s.world x,
        results_message_raised e.parm_names e.parm_values "" x,
      )

  give_up-expected :
      (timeout : ℕ) (s : State S) (x : Exn) → (give_up S timeout s).0 ≡ err x → expected x ≡ true
  unfolding give_up
  give_up-expected timeout s x h = ground (arith, raws.cancel_raw s.job.entry.job_id s.world x)

  -- Whatever a run raises is a failure of the server itself, or a JobRequestFailed or its subclass
  -- JobRequestTimedOut, provided that requests raise only the server's failures.
  pub run_job_raised :
      (fuel : ℕ) (uuid : String) (parms : List (String × String)) (timeout : ℕ) (synchronous : Bool)
      (s : State S) (x : Exn)
      → (run_job S fuel uuid parms timeout synchronous s).0 ≡ err x
      → expected x ≡ true
  unfolding run_job monitor_job
  run_job_raised fuel uuid parms timeout true s x h =
      let c = (create S uuid parms s).1 in
      let m = (poll_while_status S fuel (waiting true) timeout c).1 in
      ground (
        arith,
        create-expected uuid parms s x,
        poll_while_status-raw S raws fuel (waiting true) timeout c x,
        give_up-expected timeout m x,
        conclude-expected m x,
      )
  run_job_raised fuel uuid parms timeout false s x h =
      let c = (create S uuid parms s).1 in
      let m = (poll_while_status S fuel (waiting false) timeout c).1 in
      ground (
        arith,
        create-expected uuid parms s x,
        poll_while_status-raw S raws fuel (waiting false) timeout c x,
        give_up-expected timeout m x,
      )
