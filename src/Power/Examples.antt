-- ===== src/Power/Examples.antt =====
-- Runs of power operations (pypowervm/tasks/power.py, pypowervm/tasks/power_opts.py).
use pypowervm.Prelude.{◌≡◌, ◌≢◌, refl, true, false, none, some, [], ◌∷◌, arith, text_eq_iff}
use pypowervm.Prelude.Dict.{has}
use pypowervm.Exec.{err, hang}
use pypowervm.Exn.{vm_power_off_timeout, vm_power_on_timeout}
use pypowervm.Job.{run_job}
use pypowervm.Job.Examples.{server, ticks, ends, raws}
use pypowervm.Power.Opts.{text, Opts, power_off}
use pypowervm.Power.Opts.Modes.{Part, can_os_shutdown, is_immediate, is_text}
use pypowervm.Power.Opts.Contents.{by_os_immediate}
use pypowervm.Power.Op.{Host, run, start, stop, stop_with}
use pypowervm.Power.Op.Errors.{RaisesRawReads, StopRaises, stop-StopRaises}
use pypowervm.Power.Flow.{
  on_failure, typed_parms, legacy_power_opts, power_off_progressive, power_off_partition,
}
use pypowervm.Power.Flow.Plan.{soft, hard, climb, ibmi_rungs, standard_climb}
use pypowervm.Power.Flow.Ladder.{progressive_ibmi, progressive_standard}
use pypowervm.Power.Flow.Legacy.{power_off-on_failure}
use pypowervm.Power.Flow.Ends.{Lively, progressive_ends}

abbrev ibmi : Part
ibmi = record {
  name = "vm1";
  uuid = "u";
  schema_type = "LogicalPartition";
  env = "OS400";
  rmc_state = "inactive";
}

abbrev linux : Part
linux = record ibmi { env = "AIX/Linux"; rmc_state = "active" }

abbrev dark : Part
dark = record linux { rmc_state = "inactive" }

abbrev host : Host server
host = record { world = 0; threads = [] }

lively : Lively server
lively = record { ticks = ticks; ends = ends; template_ends = λ t u s w h. cc }

raws_reads : RaisesRawReads server
raws_reads = record { jobs_raw = raws; template_raw = λ t u s w x h. cc }

abbrev some_opts : Opts
some_opts = record {
  kind = power_off;
  parm_map = ("operation", text "dumprestart") ∷ ("immediate", text "true") ∷ [];
}

start_run : (start server 12 ibmi none 1 true host).0 ≡ err (vm_power_on_timeout "vm1" 1)
unfolding start run run_job
start_run = refl

stop_run : (stop server 12 ibmi none 1 true host).0 ≡ err (vm_power_off_timeout "vm1" 1)
unfolding stop stop_with is_text run run_job
stop_run = refl

stop-StopRaises_example : StopRaises ibmi none 1 (vm_power_off_timeout "vm1" 1)
stop-StopRaises_example =
    stop-StopRaises server raws_reads 12 ibmi none 1 true host (vm_power_off_timeout "vm1" 1)
      stop_run

progressive_ibmi_example :
    power_off_progressive server 12 10 ibmi true false 1 host
    ≡ climb server 12 ibmi (ibmi_rungs 10 true false 1) (hard true, 10) host
progressive_ibmi_example = progressive_ibmi server 12 10 ibmi true false 1 host refl

linux_not_ibmi : linux.env ≢ "OS400"
linux_not_ibmi h = ground (arith, text_eq_iff linux.env "OS400")

progressive_standard_example : power_off_progressive server 12 10 linux true false 1 host ≡ (
    let (q, t) = stop server 12 linux (some (soft by_os_immediate true)) 1 true host in
    standard_climb server 12 10 linux true 1 q t)
progressive_standard_example =
    progressive_standard server 12 10 linux true false 1 host linux_not_ibmi

dark_cannot : can_os_shutdown dark ≡ false
unfolding can_os_shutdown
dark_cannot = refl

progressive_ends_example : (power_off_progressive server 12 10 ibmi true false 1 host).0 ≢ hang
progressive_ends_example =
    progressive_ends server lively 12 10 ibmi true 1 (omega arith) (omega arith) false host

-- The restart in the options is lost.
power_off-on_failure_example :
    power_off_partition server 12 10 ibmi on_failure false 1
      (typed_parms (("restart", text "true") ∷ []))
      host
    ≡ power_off_progressive server 12 10 ibmi false
        (is_immediate (record { kind = power_off; parm_map = ("restart", text "true") ∷ [] }))
        1
        host
unfolding has legacy_power_opts
power_off-on_failure_example =
    power_off-on_failure server 12 10 ibmi 1 host false
      (typed_parms (("restart", text "true") ∷ [])) refl
