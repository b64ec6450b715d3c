-- ===== src/Power/Flow/Plan.antt =====
-- The plan of power_off_progressive (pypowervm/tasks/power.py), as its documentation draws it: which
-- shutdowns to try, with which Job parameters and timeouts, and what follows which failure.
use pypowervm.Prelude.{
  ℕ, String, Bool, true, false, Option, none, some, List, [], ◌∷◌, if◌then◌else◌,
}
use pypowervm.Prelude.Dict.{Dict}
use pypowervm.Exec.{Result, ok, err, hang}
use pypowervm.Exn.{
  Exn, is_vm_power_off_failure, os_shutdown_no_rmc, vm_power_off_timeout, vm_power_off_failure,
}
use pypowervm.Job.{Server}
use pypowervm.Power.Opts.{Value, text, Opts, power_off, vsp}
use pypowervm.Power.Opts.Modes.{Part}
use pypowervm.Power.Opts.Contents.{
  Mode, by_os_normal, by_os_immediate, by_vsp_normal, mode_operation, is_hard,
}
use pypowervm.Power.Op.{PowerM, stop}

-- The Job parameters of a shutdown: the restart is set first, but for the last resort.
abbrev pub true_parm : String → Bool → Dict Value
true_parm key true = (key, text "true") ∷ []
true_parm key false = []

infixr 65 ◌+++◌
abbrev pub ◌+++◌ : Dict Value → Dict Value → Dict Value
[] +++ d = d
((k, v) ∷ c) +++ d = (k, v) ∷ (c +++ d)

abbrev pub soft : Mode → Bool → Opts
soft m again = record {
  kind = power_off;
  parm_map =
      true_parm "restart" again
      +++ ("operation", text (mode_operation m)) ∷ true_parm "immediate" (is_hard m);
}

abbrev pub hard : Bool → Opts
hard again = record {
  kind = power_off;
  parm_map = ("operation", text vsp) ∷ ("immediate", text "true") ∷ true_parm "restart" again;
}

-- The shutdowns of an IBMi partition before the last resort. Only a failed normal OS shutdown
-- brings the default timeout in.
abbrev pub ibmi_rungs : ℕ → Bool → Bool → ℕ → List (Opts × ℕ)
ibmi_rungs dft again true timeout =
    (soft by_os_immediate again, timeout) ∷ (soft by_vsp_normal again, timeout) ∷ []
ibmi_rungs dft again false timeout =
    (soft by_os_normal again, timeout)
    ∷ (soft by_os_immediate again, dft)
    ∷ (soft by_vsp_normal again, dft)
    ∷ []

-- What follows a failed immediate OS shutdown of any other partition, before the last resort;
-- none where the exception comes out.
abbrev pub standard_rungs : ℕ → Bool → ℕ → Exn → Option (List (Opts × ℕ))
standard_rungs dft again timeout (vm_power_off_timeout nm seconds) = some []
standard_rungs dft again timeout (vm_power_off_failure nm reason) =
    some ((soft by_vsp_normal again, dft) ∷ [])
standard_rungs dft again timeout (os_shutdown_no_rmc nm) =
    some ((soft by_vsp_normal again, timeout) ∷ [])
standard_rungs dft again timeout _ = none

module _ (S : Server) where
  abbrev pub finish : Result Exn (Option ℕ) → PowerM S (Unit {0})
  finish (ok a) h = (ok tt, h)
  finish (err e) h = (err e, h)
  finish hang h = (hang, h)

  abbrev pub or_next : PowerM S (Unit {0}) → Result Exn (Option ℕ) → PowerM S (Unit {0})
  or_next next (ok a) h = (ok tt, h)
  or_next next (err e) h = if is_vm_power_off_failure e then next h else (err e, h)
  or_next next hang h = (hang, h)

  -- Each shutdown of the list in turn, with its timeout, until one succeeds. After a
  -- VMPowerOffFailure, or its subclass VMPowerOffTimeout, comes the next one, and after the list the
  -- last one, whose exception comes out, as does any other exception on the way.
  abbrev pub climb : ℕ → Part → List (Opts × ℕ) → Opts × ℕ → PowerM S (Unit {0})
  climb fuel part [] (o, t) h = let (r, h') = stop S fuel part (some o) t true h in finish r h'
  climb fuel part ((o, t) ∷ rungs) last h =
      let (r, h') = stop S fuel part (some o) t true h in or_next (climb fuel part rungs last) r h'

  abbrev pub by_plan : ℕ → ℕ → Part → Bool → Exn → Option (List (Opts × ℕ)) → PowerM S (Unit {0})
  by_plan fuel dft part again e none h = (err e, h)
  by_plan fuel dft part again e (some rungs) h = climb fuel part rungs (hard again, dft) h

  -- The immediate OS shutdown of such a partition, and what follows.
  abbrev pub standard_climb : ℕ → ℕ → Part → Bool → ℕ → Result Exn (Option ℕ) → PowerM S (Unit {0})
  standard_climb fuel dft part again timeout (ok a) h = (ok tt, h)
  standard_climb fuel dft part again timeout (err e) h =
      by_plan fuel dft part again e (standard_rungs dft again timeout e) h
  standard_climb fuel dft part again timeout hang h = (hang, h)
