-- ===== src/Power/Flow/Ladder.antt =====
-- The progressions of power_off_progressive (pypowervm/tasks/power.py), against
-- its plan.
use pypowervm.Prelude.{
  ℕ, ◌≡◌, ◌≢◌, refl, ap, ◌∙◌, String, Bool, true, false, Bool-cases, inl, inr, Option, some, List,
  [], ◌∷◌, arith, text_eq, text_eq_iff, if◌then◌else◌,
}
use pypowervm.Exec.{Result, ok, err, hang, pure, catch, ◌>>=◌, ◌>>◌}
use pypowervm.Exn.{Exn, os_shutdown_no_rmc, vm_power_off_timeout, vm_power_off_failure}
use pypowervm.Job.{Server}
use pypowervm.Power.Opts.{Opts}
use pypowervm.Power.Opts.Modes.{Part, os400, can_os_shutdown, vsp_normal, is_os, is_text}
use pypowervm.Power.Opts.Contents.{by_os_normal, by_os_immediate, by_vsp_normal}
use pypowervm.Power.Op.{Host, PowerM, stop}
use pypowervm.Power.Op.Outcome.{stop_no_rmc}
use pypowervm.Power.Flow.{
  try_stop, last_resort, power_off_progressive, standard_failed, standard_then, returned,
}
use pypowervm.Power.Flow.Plan.{
  soft, hard, climb, ibmi_rungs, standard_rungs, by_plan, standard_climb,
}

text_ne : (s t : String) → s ≢ t → text_eq s t ≡ false
text_ne s t h = elim (Bool-cases (text_eq s t)) [
  | inl same ↦ absurd (h ((text_eq_iff s t).0 same))
  | inr other ↦ other
]

soft-is_os : (again : Bool) → is_os (soft by_os_immediate again) ≡ true
unfolding is_text
soft-is_os true = refl
soft-is_os false = refl

not_os400 : (part : Part) → can_os_shutdown part ≡ false → part.env ≢ os400
unfolding can_os_shutdown
not_os400 part cannot e = ground (arith, text_eq_iff part.env os400)

module _ (S : Server) where
  module _ (fuel dft : ℕ) (part : Part) where
    last_resort-climb :
        (again : Bool) (h : Host S)
        → last_resort S fuel dft part again h ≡ climb S fuel part [] (hard again, dft) h
    unfolding last_resort
    last_resort-climb true h = ground arith
    last_resort-climb false h = ground arith

    -- The rest of a flow, after which the last resort comes where it gives up.
    abbrev or_last : Bool → PowerM S Bool → PowerM S (Unit {0})
    or_last again m = do done ← m; if done then pure tt else last_resort S fuel dft part again

    try-climb :
        (again : Bool) (o : Opts) (t : ℕ) (h : Host S)
        → or_last again (try_stop S fuel dft part o t) h
          ≡ climb S fuel part ((o, t) ∷ []) (hard again, dft) h
    unfolding try_stop
    try-climb again o t h =
        let h' = (stop S fuel part (some o) t true h).1 in
        ground (arith, last_resort-climb again h')

    try_then-climb :
        (again : Bool) (o : Opts) (t : ℕ) (rest : PowerM S Bool) (rungs : List (Opts × ℕ))
        → ((h : Host S) → or_last again rest h ≡ climb S fuel part rungs (hard again, dft) h)
        → (h : Host S)
        → or_last again (do done ← try_stop S fuel dft part o t; if done then pure true else rest) h
          ≡ climb S fuel part ((o, t) ∷ rungs) (hard again, dft) h
    unfolding try_stop
    try_then-climb again o t rest rungs eq h =
        let h' = (stop S fuel part (some o) t true h).1 in ground (arith, eq h')

    immediate-climb :
        (again : Bool) (t : ℕ) (h : Host S)
        → or_last again
            (do
              done ← try_stop S fuel dft part (soft by_os_immediate again) t
              if done then pure true else try_stop S fuel dft part (soft by_vsp_normal again) t)
            h
          ≡ climb S fuel part
              ((soft by_os_immediate again, t) ∷ (soft by_vsp_normal again, t) ∷ [])
              (hard again, dft)
              h
    immediate-climb again t =
        let o = soft by_vsp_normal again in
        try_then-climb again (soft by_os_immediate again) t (try_stop S fuel dft part o t)
          ((o, t) ∷ []) (try-climb again o t)

    normal-climb :
        (again : Bool) (t : ℕ) (h : Host S)
        → or_last again
            (do
              done ← try_stop S fuel dft part (soft by_os_normal again) t
              if done then pure true else (do
                next ← try_stop S fuel dft part (soft by_os_immediate again) dft
                if next
                    then pure true
                    else try_stop S fuel dft part (soft by_vsp_normal again) dft))
            h
          ≡ climb S fuel part (ibmi_rungs dft again false t) (hard again, dft) h
    normal-climb again t =
        try_then-climb again (soft by_os_normal again) t
          (do
            next ← try_stop S fuel dft part (soft by_os_immediate again) dft
            if next then pure true else try_stop S fuel dft part (soft by_vsp_normal again) dft)
          ((soft by_os_immediate again, dft) ∷ (soft by_vsp_normal again, dft) ∷ [])
          (immediate-climb again dft)

    -- On an IBMi partition power_off_progressive tries the shutdowns of `ibmi_rungs` and then the
    -- hard VSP shutdown with the default timeout, each with these Job parameters and no others.
    pub progressive_ibmi :
        (again ibmi_immed : Bool) (timeout : ℕ) (h : Host S)
        → part.env ≡ os400
        → power_off_progressive S fuel dft part again ibmi_immed timeout h
          ≡ climb S fuel part (ibmi_rungs dft again ibmi_immed timeout) (hard again, dft) h
    unfolding power_off_progressive
    progressive_ibmi true true timeout h e =
        rw ((text_eq_iff part.env os400).1 e) (immediate-climb true timeout h)
    progressive_ibmi false true timeout h e =
        rw ((text_eq_iff part.env os400).1 e) (immediate-climb false timeout h)
    progressive_ibmi true false timeout h e =
        rw ((text_eq_iff part.env os400).1 e) (normal-climb true timeout h)
    progressive_ibmi false false timeout h e =
        rw ((text_eq_iff part.env os400).1 e) (normal-climb false timeout h)

    standard_failed-climb :
        (again : Bool) (timeout : ℕ) (e : Exn) (h : Host S)
        → or_last again
            (do
              next ← standard_failed S fuel dft timeout e
              standard_then S fuel dft part (soft by_os_immediate again) next)
            h
          ≡ by_plan S fuel dft part again e (standard_rungs dft again timeout e) h
    unfolding vsp_normal
    standard_failed-climb again timeout (vm_power_off_timeout nm seconds) h =
        last_resort-climb again h
    standard_failed-climb true timeout (vm_power_off_failure nm reason) h =
        try-climb true (soft by_vsp_normal true) dft h
    standard_failed-climb false timeout (vm_power_off_failure nm reason) h =
        try-climb false (soft by_vsp_normal false) dft h
    standard_failed-climb true timeout (os_shutdown_no_rmc nm) h =
        try-climb true (soft by_vsp_normal true) timeout h
    standard_failed-climb false timeout (os_shutdown_no_rmc nm) h =
        try-climb false (soft by_vsp_normal false) timeout h
    standard_failed-climb again timeout e h = refl

    standard_climb_lem :
        (again : Bool) (timeout : ℕ) (q : Result Exn (Option ℕ)) (h : Host S)
        → or_last again
            (do
              next ←
                  catch
                    (do (λ t. (q, t)); pure (returned true))
                    (standard_failed S fuel dft timeout)
              standard_then S fuel dft part (soft by_os_immediate again) next)
            h
          ≡ standard_climb S fuel dft part again timeout q h
    standard_climb_lem again timeout (ok a) h = refl
    standard_climb_lem again timeout (err e) h = standard_failed-climb again timeout e h
    standard_climb_lem again timeout hang h = refl

    -- On any other partition it starts with the immediate OS shutdown, and goes on as
    -- `standard_rungs` says: after a timeout to the hard VSP shutdown, after another
    -- VMPowerOffFailure to the normal VSP shutdown with the default timeout, and after
    -- OSShutdownNoRMC to the normal VSP shutdown with the caller's timeout.
    pub progressive_standard :
        (again ibmi_immed : Bool) (timeout : ℕ) (h : Host S)
        → part.env ≢ os400
        → power_off_progressive S fuel dft part again ibmi_immed timeout h ≡ (
            let (q, t) = stop S fuel part (some (soft by_os_immediate again)) timeout true h in
            standard_climb S fuel dft part again timeout q t)
    unfolding power_off_progressive
    progressive_standard true ibmi_immed timeout h e =
        let (q, t) = stop S fuel part (some (soft by_os_immediate true)) timeout true h in
        rw (text_ne part.env os400 e) (standard_climb_lem true timeout q t)
    progressive_standard false ibmi_immed timeout h e =
        let (q, t) = stop S fuel part (some (soft by_os_immediate false)) timeout true h in
        rw (text_ne part.env os400 e) (standard_climb_lem false timeout q t)

    -- Without active RMC it never asks for an OS shutdown: the first Job is the normal VSP
    -- shutdown, with the caller's timeout.
    progressive_no_rmc :
        (again ibmi_immed : Bool) (timeout : ℕ) (h : Host S)
        → can_os_shutdown part ≡ false
        → power_off_progressive S fuel dft part again ibmi_immed timeout h
          ≡ climb S fuel part ((soft by_vsp_normal again, timeout) ∷ []) (hard again, dft) h
    progressive_no_rmc again ibmi_immed timeout h cannot =
        let refused =
          stop_no_rmc S fuel part (soft by_os_immediate again) timeout true h (soft-is_os again)
            cannot in
        progressive_standard again ibmi_immed timeout h (not_os400 part cannot)
        ∙ ap
            (λ (r : Result Exn (Option ℕ) × Host S).
              standard_climb S fuel dft part again timeout r.0 r.1)
            refused
