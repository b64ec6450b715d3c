-- ===== src/Job/Examples.antt =====
-- Runs of a Job (pypowervm/wrappers/job.py) on a server whose Jobs finish at a given second.
use pypowervm.Prelude.{
  ℕ, ◌+◌, ◌*◌, ◌≡◌, ◌≢◌, ◌<◌, ◌-◌, refl, true, false, none, [], ◌∷◌, ◌++◌, arith, ltb,
  if◌then◌else◌, is_in,
}
use pypowervm.Exec.{ok, err, hang, pure, raise}
use pypowervm.Exn.{api_error, job_request_timed_out}
use pypowervm.Job.{
  Entry, Server, State, create, wrap, cancel_job, poll_while_status, monitor_job, run_job,
  microseconds, running, completed_ok,
}
use pypowervm.Job.Poll.{Ticks, poll_while_status_ends}
use pypowervm.Job.Run.{Ends, run_job_ends}
use pypowervm.Job.Timeout.{RaisesRaw, waiting, run_job_timed_out}

abbrev pub template : Entry
template = record {
  group_name = "LogicalPartition";
  operation_name = "PowerOff";
  job_parms = [];
  job_id = "1";
  status = "";
  parm_names = [];
  parm_values = [];
  exception_message = none;
}

-- The world is the time; the Job is COMPLETED_OK from the third second on.
abbrev pub answer : Entry → ℕ → Entry
answer e w = record e { status = if ltb w (3 * microseconds) then running else completed_ok }

abbrev pub server : Server
server = record {
  World = ℕ;
  now = λ w. w;
  sleep = λ w. w + microseconds;
  read_template = λ t u s. pure template;
  create_job = λ e g u w. (ok (answer e w), w);
  read_job = λ i w. (ok (answer template w), w);
  cancel = λ i. pure tt;
  delete = λ i. pure tt;
}

-- the same, with a server that refuses new Jobs
abbrev refusing : Server
refusing = record server { create_job = λ e g u. raise (api_error "busy") }

abbrev start : State server
start = record { job = wrap template; world = 0; threads = [] }

abbrev refused : State refusing
refused = record { job = wrap template; world = 0; threads = [] }

pub ticks : Ticks server
ticks = record {
  sleep_second = λ w. omega arith;
  read_forward = λ i w. omega arith;
  read_ends = λ i w h. cc;
}

pub ends : Ends server
ends = record {
  create_ends = λ e g u w h. cc;
  cancel_ends = λ i w h. cc;
  delete_ends = λ i w h. cc;
}

pub raws : RaisesRaw server
raws = record {
  create_raw = λ e g u w x h. cc;
  read_raw = λ i w x h. cc;
  cancel_raw = λ i w x h. cc;
  delete_raw = λ i w x h. cc;
}

sync_run : (run_job server 12 "u" [] 10 true start).0 ≡ ok tt
unfolding run_job wrap
sync_run = refl

-- An asynchronous run returns as soon as the Job has started.
async_run : (run_job server 12 "u" [] 10 false start).0 ≡ ok tt
unfolding run_job wrap
async_run = refl

timed_out_run : (run_job server 12 "u" [] 1 true start).0 ≡ err (job_request_timed_out "PowerOff" 1)
unfolding run_job wrap
timed_out_run = refl

monitor_run : (monitor_job server 12 10 true start).0 ≡ ok false
unfolding monitor_job wrap
monitor_run = refl

poll_while_status_ends_example : (poll_while_status server 12 (running ∷ []) 10 start).0 ≢ hang
poll_while_status_ends_example =
    poll_while_status_ends server ticks 12 (running ∷ []) 10 start (omega arith) (omega arith)

run_job_ends_example : (run_job server 12 "u" [] 10 true start).0 ≢ hang
run_job_ends_example =
    run_job_ends server ticks ends 12 "u" [] 10 true start (omega arith) (omega arith)

run_job_timed_out_example :
    let t = (run_job server 12 "u" [] 1 true start).1 in
    let created = (create server "u" [] start).1 in
    let polled = (poll_while_status server 12 (waiting true) 1 created).1 in
    ("PowerOff" ≡ start.job.op)
    × (◌≡◌ {A = ℕ} 1 1)
    × (◌≢◌ {A = ℕ} 1 0)
    × (1 * microseconds < server.now polled.world - server.now created.world)
    × (is_in t.job.entry.status (waiting true) ≡ true)
    × (t.threads ≡ [] ++ cancel_job t.job ∷ [])
run_job_timed_out_example =
    run_job_timed_out server raws 12 "u" [] 1 start "PowerOff" 1 true timed_out_run
