-- ===== src/Power/Flow/Ends.antt =====
-- The power operations of pypowervm/tasks/power.py come to an end: no wait of theirs is unbounded.
use pypowervm.Prelude.{
  ℕ, ◌+◌, ◌≤◌, ◌≢◌, refl, String, Bool, true, false, Bool-cases, inl, inr, Option, some, List, [],
  ◌∷◌, arith, text_eq, text_eq_iff,
}
use pypowervm.Exec.{Result, ok, err, hang, continue}
use pypowervm.Exn.{Exn, vm_power_off_failure, vm_power_off_timeout, os_shutdown_no_rmc}
use pypowervm.Job.{Entry, Server, wrap, run_job}
use pypowervm.Job.Poll.{Ticks}
use pypowervm.Job.Run.{Ends, run_job_ends}
use pypowervm.Power.Opts.{Opts, job_suffix, bld_jparms}
use pypowervm.Power.Opts.Modes.{Part, os400}
use pypowervm.Power.Opts.Contents.{by_vsp_normal, by_os_immediate}
use pypowervm.Power.Op.{Host, on_job, run, stop_failed, stop_with, stop}
use pypowervm.Power.Op.Outcome.{chosen, stop-stop_with}
use pypowervm.Power.Flow.{power_off_progressive}
use pypowervm.Power.Flow.Plan.{
  climb, hard, soft, ibmi_rungs, standard_rungs, by_plan, standard_climb,
}
use pypowervm.Power.Flow.Ladder.{progressive_ibmi, progressive_standard}

-- The server's clock goes on and every request ends, that for a Job's template too.
pub record Lively (S : Server) : Type 0 where
  pub ticks : Ticks S
  pub ends : Ends S
  pub template_ends : (t u s : String) (w : S.World) → (S.read_template t u s w).0 ≢ hang

-- A wait that is bounded, and for whose rounds there is fuel.
abbrev pub Bounded : ℕ → ℕ → Type 0
Bounded fuel timeout = (timeout ≢ 0) × (timeout + 2 ≤ fuel)

module _ (S : Server) (lively : Lively S) where
  read_then_ends :
      (fuel : ℕ) (part : Part) (o : Opts) (timeout : ℕ) (synchronous : Bool) (q : Result Exn Entry)
      (h : Host S)
      → Bounded fuel timeout
      → q ≢ hang
      → (continue q
          (λ e. on_job S e (run_job S fuel part.uuid (bld_jparms o.parm_map) timeout synchronous))
          h).0
        ≢ hang
  read_then_ends fuel part o timeout synchronous (ok e) h b k r =
      run_job_ends S lively.ticks lively.ends fuel part.uuid (bld_jparms o.parm_map) timeout
        synchronous (record { job = wrap e; world = h.world; threads = h.threads }) b.0 b.1 r
  read_then_ends fuel part o timeout synchronous (err e) h b k r = cc
  read_then_ends fuel part o timeout synchronous hang h b k r = k refl

  run_ends :
      (fuel : ℕ) (part : Part) (o : Opts) (timeout : ℕ) (synchronous : Bool) (h : Host S)
      → Bounded fuel timeout
      → (run S fuel part o timeout synchronous h).0 ≢ hang
  unfolding run
  run_ends fuel part o timeout synchronous h b =
      let q = S.read_template part.schema_type part.uuid (job_suffix o.kind) h.world in
      read_then_ends fuel part o timeout synchronous q.0 (record h { world = q.1 }) b
        (lively.template_ends part.schema_type part.uuid (job_suffix o.kind) h.world)

  stop_failed_ends :
      (part : Part) (o : Opts) (timeout : ℕ) (e : Exn) (h : Host S)
      → (stop_failed S part o timeout e h).0 ≢ hang
  unfolding stop_failed
  stop_failed_ends part o timeout e h r = ground arith

  -- `stop` ends, with any options: it returns or raises.
  pub stop_ends :
      (fuel : ℕ) (part : Part) (o : Option Opts) (timeout : ℕ) (synchronous : Bool) (h : Host S)
      → Bounded fuel timeout
      → (stop S fuel part o timeout synchronous h).0 ≢ hang
  unfolding stop_with
  stop_ends fuel part o timeout synchronous h b =
      rw (stop-stop_with S fuel part o timeout synchronous h) (λ r. ground (
        arith,
        run_ends fuel part (chosen part o) timeout synchronous h b,
        stop_failed_ends part (chosen part o) timeout,
      ))

  -- the shutdowns of a plan, each bounded
  abbrev AllBounded : ℕ → List (Opts × ℕ) → Type 0
  AllBounded fuel [] = Unit
  AllBounded fuel ((o, t) ∷ rungs) = Bounded fuel t × AllBounded fuel rungs

  climb_ends :
      (fuel : ℕ) (part : Part) (rungs : List (Opts × ℕ)) (o : Opts) (t : ℕ) (h : Host S)
      → AllBounded fuel rungs
      → Bounded fuel t
      → (climb S fuel part rungs (o, t) h).0 ≢ hang
  climb_ends fuel part [] o t h bs b r = ground (arith, stop_ends fuel part (some o) t true h b)
  climb_ends fuel part ((o', t') ∷ rungs) o t h bs b r = ground (
    arith,
    stop_ends fuel part (some o') t' true h bs.0,
    climb_ends fuel part rungs o t (stop S fuel part (some o') t' true h).1 bs.1 b,
  )

  module _ (fuel dft : ℕ) (part : Part) (again : Bool) (timeout : ℕ) (bt : Bounded fuel timeout)
      (bd : Bounded fuel dft) where
    by_plan_ends :
        (e : Exn) (h : Host S)
        → (by_plan S fuel dft part again e (standard_rungs dft again timeout e) h).0 ≢ hang
    by_plan_ends (vm_power_off_failure nm reason) h r =
        climb_ends fuel part ((soft by_vsp_normal again, dft) ∷ []) (hard again) dft h (bd, tt) bd r
    by_plan_ends (vm_power_off_timeout nm s) h r =
        climb_ends fuel part [] (hard again) dft h tt bd r
    by_plan_ends (os_shutdown_no_rmc nm) h r =
        climb_ends fuel part ((soft by_vsp_normal again, timeout) ∷ []) (hard again) dft h (bt, tt)
          bd r
    by_plan_ends e h r = cc

    standard_ends :
        (q : Result Exn (Option ℕ)) (h : Host S)
        → q ≢ hang
        → (standard_climb S fuel dft part again timeout q h).0 ≢ hang
    standard_ends (ok a) h k r = cc
    standard_ends (err e) h k r = by_plan_ends e h r
    standard_ends hang h k r = k refl

    rungs_bounded : (ibmi_immed : Bool) → AllBounded fuel (ibmi_rungs dft again ibmi_immed timeout)
    rungs_bounded true = (bt, (bt, tt))
    rungs_bounded false = (bt, (bd, (bd, tt)))

    -- A progressive shutdown ends, on every kind of partition: it returns or raises, provided that
    -- neither the caller's timeout nor the default one is zero, for which a wait is unbounded.
    pub progressive_ends :
        (ibmi_immed : Bool) (h : Host S)
        → (power_off_progressive S fuel dft part again ibmi_immed timeout h).0 ≢ hang
    progressive_ends ibmi_immed h = elim (Bool-cases (text_eq part.env os400)) [
      | inl ibmi ↦
          rw
            (progressive_ibmi S fuel dft part again ibmi_immed timeout h
              ((text_eq_iff part.env os400).0 ibmi))
            (climb_ends fuel part (ibmi_rungs dft again ibmi_immed timeout) (hard again) dft h
              (rungs_bounded ibmi_immed) bd)
      | inr other ↦
          let o = soft by_os_immediate again in
          rw
            (progressive_standard S fuel dft part again ibmi_immed timeout h
              (λ same. cc ((text_eq_iff part.env os400).1 same)))
            (standard_ends (stop S fuel part (some o) timeout true h).0
              (stop S fuel part (some o) timeout true h).1
              (stop_ends fuel part (some o) timeout true h bt))
    ]
