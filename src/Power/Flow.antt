-- ===== src/Power/Flow.antt =====
-- The retry flows of pypowervm/tasks/power.py: power_on, power_off and power_off_progressive.
pub mod Plan
pub mod Ladder
pub mod Legacy
pub mod Ends
use pypowervm.Prelude.{ℕ, String, Bool, true, false, Option, none, some, text_eq, if◌then◌else◌}
use pypowervm.Prelude.Dict.{Dict}
use pypowervm.Exec.{Exec, Result, ok, err, hang, pure, raise, lift, catch, ◌>>=◌, ◌>>◌}
use pypowervm.Exn.{Exn, is_vm_power_off_failure, vm_power_off_timeout, os_shutdown_no_rmc}
use pypowervm.Job.{Server}
use pypowervm.Power.Opts.{
  Value, text, flag, Opts, Kind, power_on, power_off, new, is_param_set, power_off_operation,
}
use pypowervm.Power.Opts.Modes.{
  Part, os400, restart, is_immediate, soft_detect, os_normal, os_immediate, vsp_normal, vsp_hard,
}
use pypowervm.Power.Op.{Host, PowerM, start, stop}

-- `force_immediate`
pub data Force : Type 0 where
  always on_failure no_retry : Force

-- `add_parms`: None, a legacy dict, or options of the class that the function expects.
pub data AddParms : Type 0 where
  no_parms : AddParms
  legacy_parms : Dict Value → AddParms
  typed_parms : Dict Value → AddParms

-- The options, and whether add_parms is in the legacy form.
unfoldable pub legacy_power_opts : Kind → AddParms → Opts × Bool
unfolding new
legacy_power_opts kind no_parms = (new kind none, true)
legacy_power_opts kind (legacy_parms d) = (new kind (some d), true)
legacy_power_opts kind (typed_parms d) = (record { kind = kind; parm_map = d }, false)

-- How the first step of the standard flow goes on: it has returned, has given up, or goes on to
-- VSP normal with a timeout.
pub data Next : Type 0 where
  returned : Bool → Next
  vsp_next : ℕ → Next

-- `opts.is_immediate or None`
abbrev pub or_none : Bool → Option Value
or_none true = some (flag true)
or_none false = none

-- `fuel` bounds the rounds of each poll; `dft` is pypowervm_job_request_timeout.
module _ (S : Server) (fuel dft : ℕ) where
  unfoldable pub power_on_partition : Part → AddParms → Bool → PowerM S (Unit {0})
  unfolding legacy_power_opts
  power_on_partition part add_parms synchronous =
      start S fuel part (some (legacy_power_opts power_on add_parms).0) dft synchronous

  -- `try: PowerOp.stop(..); return True  except VMPowerOffFailure:`, where false is the fall through
  unfoldable pub try_stop : Part → Opts → ℕ → PowerM S Bool
  try_stop part o timeout =
      catch (do stop S fuel part (some o) timeout true; pure true)
        (λ e. if is_vm_power_off_failure e then pure false else raise e)

  -- from the OS immediate shutdown on
  unfoldable pub ibmi_from_immediate : Part → Opts → ℕ → PowerM S Bool
  unfolding os_immediate vsp_normal
  ibmi_from_immediate part o timeout = do
    o1 ← lift (os_immediate o)
    done ← try_stop part o1 timeout
    if done then pure true else (do o2 ← lift (vsp_normal o1); try_stop part o2 timeout)

  unfoldable pub pwroff_soft_ibmi_flow : Part → Bool → Bool → ℕ → PowerM S Bool
  unfolding ibmi_from_immediate new restart os_normal
  pwroff_soft_ibmi_flow part again true timeout =
      ibmi_from_immediate part (restart (flag again) (new power_off none)) timeout
  pwroff_soft_ibmi_flow part again false timeout = do
    o1 ← lift (os_normal (restart (flag again) (new power_off none)))
    done ← try_stop part o1 timeout
    if done then pure true else ibmi_from_immediate part o1 dft

  -- the `except` clauses of the OS immediate shutdown, in their order
  abbrev pub standard_failed : ℕ → Exn → PowerM S Next
  standard_failed timeout (vm_power_off_timeout nm seconds) = pure (returned false)
  standard_failed timeout (os_shutdown_no_rmc nm) = pure (vsp_next timeout)
  standard_failed timeout e = if is_vm_power_off_failure e then pure (vsp_next dft) else raise e

  abbrev pub standard_then : Part → Opts → Next → PowerM S Bool
  standard_then part o (returned b) = pure b
  standard_then part o (vsp_next timeout) = do o2 ← lift (vsp_normal o); try_stop part o2 timeout

  unfoldable pub pwroff_soft_standard_flow : Part → Bool → ℕ → PowerM S Bool
  unfolding new restart os_immediate vsp_normal
  pwroff_soft_standard_flow part again timeout = do
    o1 ← lift (os_immediate (restart (flag again) (new power_off none)))
    next ←
        catch (do stop S fuel part (some o1) timeout true; pure (returned true))
          (standard_failed timeout)
    standard_then part o1 next

  unfoldable pub last_resort : Part → Bool → PowerM S (Unit {0})
  unfolding new restart vsp_hard
  last_resort part again = do
    o ← lift (vsp_hard (new power_off none))
    stop S fuel part (some (restart (flag again) o)) dft true
    pure tt

  unfoldable pub power_off_progressive : Part → Bool → Bool → ℕ → PowerM S (Unit {0})
  unfolding pwroff_soft_ibmi_flow pwroff_soft_standard_flow last_resort
  power_off_progressive part again ibmi_immed timeout = do
    done ←
        (if text_eq part.env os400
          then pwroff_soft_ibmi_flow part again ibmi_immed timeout
          else pwroff_soft_standard_flow part again timeout)
    if done then pure tt else last_resort part again

  unfoldable pub power_off_single : Part → Opts → Force → ℕ → PowerM S (Unit {0})
  unfolding vsp_hard
  power_off_single part o always timeout = do
    o1 ← lift (vsp_hard o)
    stop S fuel part (some o1) timeout true
    pure tt
  power_off_single part o no_retry timeout = do stop S fuel part (some o) timeout true; pure tt
  power_off_single part o on_failure timeout = pure tt

  abbrev pub by_force : Part → Opts → Force → Bool → ℕ → PowerM S (Unit {0})
  by_force part o on_failure again timeout =
      power_off_progressive part again (is_immediate o) timeout
  by_force part o always again timeout = power_off_single part o always timeout
  by_force part o no_retry again timeout = power_off_single part o no_retry timeout

  abbrev pub dispatch : Part → Force → Bool → ℕ → Opts × Bool → PowerM S (Unit {0})
  dispatch part force_immediate again timeout (o, true) = do
    o1 ← lift (soft_detect part (or_none (is_immediate o)) o)
    by_force part (restart (flag again) o1) force_immediate again timeout
  dispatch part force_immediate again timeout (o, false) =
      by_force part o (if is_param_set power_off_operation.key o then no_retry else force_immediate)
        again timeout

  unfoldable pub power_off_partition : Part → Force → Bool → ℕ → AddParms → PowerM S (Unit {0})
  unfolding legacy_power_opts soft_detect restart is_param_set power_off_single
  power_off_partition part force_immediate again timeout add_parms =
      dispatch part force_immediate again timeout (legacy_power_opts power_off add_parms)
