-- ===== src/Power/Op.antt =====
-- PowerOp of pypowervm/tasks/power.py: one PowerOn or PowerOff Job, never tried again. The state is
-- the server's, with the threads that Jobs have started. Log lines are left out.
pub mod Outcome
pub mod Errors
use pypowervm.Prelude.{
  ℕ, String, Bool, true, false, not, ◌&&◌, ◌||◌, Option, none, some, List, [], ◌∷◌, is_part,
  if◌then◌else◌,
}
use pypowervm.Exec.{Exec, Result, ok, err, hang, pure, raise, lift, catch, handle, ◌>>=◌, ◌>>◌}
use pypowervm.Exn.{
  Exn, job_request_failed, job_request_timed_out, os_shutdown_no_rmc, vm_power_off_failure,
  vm_power_off_timeout, vm_power_on_failure, vm_power_on_timeout, text_of,
}
use pypowervm.Job.{Entry, Server, State, Thread, wrap, run_job}
use pypowervm.Power.Opts.{Opts, Kind, power_on, power_off, job_suffix, new, bld_jparms}
use pypowervm.Power.Opts.Modes.{Part, can_os_shutdown, is_os, is_restart, soft_detect}

abbrev pub lpar_already_powered_off : ℕ
lpar_already_powered_off = 2

abbrev pub already_powered_off_errs : List String
already_powered_off_errs = "HSCL1558" ∷ "PVME04000005" ∷ "PVME01050901" ∷ []

abbrev pub already_powered_on_errs : List String
already_powered_on_errs = "HSCL3681" ∷ "PVME01042026" ∷ []

-- `any(err_prefix in emsg for err_prefix in errs)`
unfoldable pub any_part : List String → String → Bool
any_part [] emsg = false
any_part (e ∷ es) emsg = is_part e emsg || any_part es emsg

-- the options of `start` and of `stop`, with their defaults
abbrev pub or_default : Option Opts → Opts
or_default none = new power_on none
or_default (some o) = o

unfoldable pub or_soft_detect : Part → Option Opts → Result Exn Opts
unfolding soft_detect new
or_soft_detect part none = soft_detect part none (new power_off none)
or_soft_detect part (some o) = ok o

module _ (S : Server) where
  pub record Host : Type 0 where
    pub world : S.World
    pub threads : List Thread

  abbrev pub PowerM : Type 0 → Type 0
  PowerM A = Exec Host Exn A

  -- a Job's run, on the host that the Job is run against
  abbrev pub on_job : Entry → Exec (State S) Exn (Unit {0}) → PowerM (Unit {0})
  on_job e m h =
      let (r, s) = m (record { job = wrap e; world = h.world; threads = h.threads }) in
      (r, record { world = s.world; threads = s.threads })

  abbrev pub read_template : Part → Opts → PowerM Entry
  read_template part o h =
      let (r, w) = S.read_template part.schema_type part.uuid (job_suffix o.kind) h.world in
      (r, record h { world = w })

  -- `fuel` bounds the rounds of each of the Job's polls.
  unfoldable pub run : ℕ → Part → Opts → ℕ → Bool → PowerM (Unit {0})
  unfolding wrap bld_jparms
  run fuel part o timeout synchronous = do
    e ← read_template part o
    on_job e (run_job S fuel part.uuid (bld_jparms o.parm_map) timeout synchronous)

  -- the `except` clauses of `start`
  unfoldable pub start_failed : Part → ℕ → Exn → PowerM (Unit {0})
  unfolding any_part text_of
  start_failed part timeout (job_request_timed_out op seconds) =
      raise (vm_power_on_timeout part.name timeout)
  start_failed part timeout (job_request_failed op error) =
      let emsg = text_of (job_request_failed op error) in
      if any_part already_powered_on_errs emsg
      then pure tt
      else raise (vm_power_on_failure part.name emsg)
  start_failed part timeout x = raise x

  unfoldable pub start : ℕ → Part → Option Opts → ℕ → Bool → PowerM (Unit {0})
  unfolding start_failed new
  start fuel part o timeout synchronous =
      catch (run fuel part (or_default o) timeout synchronous) (start_failed part timeout)

  -- the `except` clauses of `stop`
  unfoldable pub stop_failed : Part → Opts → ℕ → Exn → PowerM (Option ℕ)
  unfolding any_part text_of
  stop_failed part o timeout (job_request_timed_out op seconds) =
      raise (vm_power_off_timeout part.name timeout)
  stop_failed part o timeout (job_request_failed op error) =
      let emsg = text_of (job_request_failed op error) in
      if any_part already_powered_off_errs emsg && not (is_restart o)
      then pure (some lpar_already_powered_off)
      else raise (vm_power_off_failure part.name emsg)
  stop_failed part o timeout x = raise x

  -- what `stop` does once it has its options
  unfoldable pub stop_with : ℕ → Part → Opts → ℕ → Bool → PowerM (Option ℕ)
  unfolding stop_failed can_os_shutdown
  stop_with fuel part o timeout synchronous =
      if is_os o && not (can_os_shutdown part)
      then raise (os_shutdown_no_rmc part.name)
      else catch (do run fuel part o timeout synchronous; pure none) (stop_failed part o timeout)

  unfoldable pub stop : ℕ → Part → Option Opts → ℕ → Bool → PowerM (Option ℕ)
  unfolding or_soft_detect
  stop fuel part o timeout synchronous = do
    opts ← lift (or_soft_detect part o)
    stop_with fuel part opts timeout synchronous
