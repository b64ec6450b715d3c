-- ===== src/Power/Op/Errors.antt =====
-- Every exception that PowerOp.start and PowerOp.stop (pypowervm/tasks/power.py) raise, and that
-- both come to an end.
use mathlib.Core.Path.{subst}
use pypowervm.Prelude.{
  ℕ, ◌≡◌, refl, ap, sym, ◌∙◌, String, Bool, true, false, not, ◌||◌, ◌&&◌, Bool-cases, inl, inr,
  Option, none, some, arith, text_eq, if◌then◌else◌,
}
use pypowervm.Exec.{Result, ok, err, hang, continue, pure, handle}
use pypowervm.Exn.{
  Exn, text_of, job_request_failed, job_request_timed_out, api_error, foreign, vm_power_off_failure,
  vm_power_off_timeout, vm_power_on_failure, vm_power_on_timeout, os_shutdown_no_rmc,
}
use pypowervm.Job.{Entry, Server, wrap, run_job}
use pypowervm.Job.Timeout.{raw, RaisesRaw}
use pypowervm.Job.Raised.{expected, run_job_raised}
use pypowervm.Power.Opts.{os, Opts, job_suffix, power_off, new, bld_jparms}
use pypowervm.Power.Opts.Modes.{os400, Part, can_os_shutdown, is_os, is_text, is_restart}
use pypowervm.Power.Opts.Contents.{
  soft_detect_lem, mode_operation, by_os_normal, by_os_immediate, by_vsp_normal,
}
use pypowervm.Power.Op.{
  Host, run, start_failed, start, or_default, stop_failed, stop_with, stop, on_job, any_part,
  already_powered_on_errs, already_powered_off_errs,
}
use pypowervm.Power.Op.Outcome.{chosen, stop-stop_with}

-- What `start` may raise: a failure of the server, or the partition's own power-on exception.
abbrev pub StartRaises : Part → ℕ → Exn → Type 0
StartRaises part timeout (api_error m) = Unit
StartRaises part timeout (foreign m) = Unit
StartRaises part timeout (vm_power_on_failure nm reason) = nm ≡ part.name
StartRaises part timeout (vm_power_on_timeout nm seconds) = (nm ≡ part.name) × (seconds ≡ timeout)
StartRaises part timeout _ = ⊥

-- What `stop` may raise: OSShutdownNoRMC only where the caller's own options ask for an OS shutdown
-- that the partition cannot do.
abbrev pub StopRaises : Part → Option Opts → ℕ → Exn → Type 0
StopRaises part o timeout (api_error m) = Unit
StopRaises part o timeout (foreign m) = Unit
StopRaises part o timeout (vm_power_off_failure nm reason) = nm ≡ part.name
StopRaises part o timeout (vm_power_off_timeout nm seconds) = (nm ≡ part.name) × (seconds ≡ timeout)
StopRaises part none timeout (os_shutdown_no_rmc nm) = ⊥
StopRaises part (some o) timeout (os_shutdown_no_rmc nm) =
    (nm ≡ part.name) × (is_os o ≡ true) × (can_os_shutdown part ≡ false)
StopRaises part o timeout _ = ⊥

-- A server whose templates, too, fail only by its own failures.
pub record RaisesRawReads (S : Server) : Type 0 where
  pub jobs_raw : RaisesRaw S
  pub template_raw :
      (t u s : String) (w : S.World) (x : Exn) → (S.read_template t u s w).0 ≡ err x → raw x ≡ true

by_can :
    (ibmi active : Bool)
    → text_eq
        (mode_operation
          (if ibmi then by_os_normal else if active then by_os_immediate else by_vsp_normal))
        os
      ≡ (ibmi || active)
by_can true active = refl
by_can false true = refl
by_can false false = refl

chosen_can : (part : Part) → is_os (chosen part none) ≡ true → can_os_shutdown part ≡ true
unfolding can_os_shutdown is_text chosen
chosen_can part h = ground (
  arith,
  (soft_detect_lem part none (new power_off none)).2 "operation",
  by_can (text_eq part.env os400) (text_eq part.rmc_state "active"),
)

module _ (S : Server) where
  start_failed-StartRaises :
      (part : Part) (timeout : ℕ) (e x : Exn) (h : Host S)
      → expected e ≡ true
      → (start_failed S part timeout e h).0 ≡ err x
      → StartRaises part timeout x
  unfolding start_failed
  start_failed-StartRaises part timeout (api_error m) x h k r =
      subst (StartRaises part timeout) {x = api_error m} (cc) tt
  start_failed-StartRaises part timeout (foreign m) x h k r =
      subst (StartRaises part timeout) {x = foreign m} (cc) tt
  start_failed-StartRaises part timeout (job_request_timed_out op seconds) x h k r =
      subst (StartRaises part timeout) {x = vm_power_on_timeout part.name timeout} (cc) (refl, refl)
  start_failed-StartRaises part timeout (job_request_failed op error) x h k r =
      let emsg = text_of (job_request_failed op error) in
      elim (Bool-cases (any_part already_powered_on_errs emsg)) [
        | inl on ↦ absurd (ground arith)
        | inr off ↦
            subst (StartRaises part timeout) {x = vm_power_on_failure part.name emsg} (ground arith)
              refl
      ]
  start_failed-StartRaises part timeout e x h k r = cc

  stop_failed-StopRaises :
      (part : Part) (o : Option Opts) (opts : Opts) (timeout : ℕ) (e x : Exn) (h : Host S)
      → expected e ≡ true
      → (stop_failed S part opts timeout e h).0 ≡ err x
      → StopRaises part o timeout x
  unfolding stop_failed
  stop_failed-StopRaises part o opts timeout (api_error m) x h k r =
      subst (StopRaises part o timeout) {x = api_error m} (cc) tt
  stop_failed-StopRaises part o opts timeout (foreign m) x h k r =
      subst (StopRaises part o timeout) {x = foreign m} (cc) tt
  stop_failed-StopRaises part o opts timeout (job_request_timed_out op seconds) x h k r =
      subst (StopRaises part o timeout) {x = vm_power_off_timeout part.name timeout} (cc)
        (refl, refl)
  stop_failed-StopRaises part o opts timeout (job_request_failed op error) x h k r =
      let emsg = text_of (job_request_failed op error) in
      elim (Bool-cases (any_part already_powered_off_errs emsg && not (is_restart opts))) [
        | inl off ↦ absurd (ground arith)
        | inr on ↦
            subst (StopRaises part o timeout) {x = vm_power_off_failure part.name emsg}
              (ground arith) refl
      ]
  stop_failed-StopRaises part o opts timeout e x h k r = cc

module _ (S : Server) (raws : RaisesRawReads S) where
  read_then_run :
      (fuel : ℕ) (part : Part) (o : Opts) (timeout : ℕ) (synchronous : Bool) (x : Exn)
      (q : Result Exn Entry) (h : Host S)
      → (q ≡ err x → raw x ≡ true)
      → (continue q
          (λ e. on_job S e (run_job S fuel part.uuid (bld_jparms o.parm_map) timeout synchronous))
          h).0
        ≡ err x
      → expected x ≡ true
  read_then_run fuel part o timeout synchronous x (ok e) h k r =
      run_job_raised S raws.jobs_raw fuel part.uuid (bld_jparms o.parm_map) timeout synchronous
        (record { job = wrap e; world = h.world; threads = h.threads }) x r
  read_then_run fuel part o timeout synchronous x (err e) h k r = ground (arith, k (cc))
  read_then_run fuel part o timeout synchronous x hang h k r = cc

  run_raised :
      (fuel : ℕ) (part : Part) (o : Opts) (timeout : ℕ) (synchronous : Bool) (h : Host S) (x : Exn)
      → (run S fuel part o timeout synchronous h).0 ≡ err x
      → expected x ≡ true
  unfolding run
  run_raised fuel part o timeout synchronous h x r =
      let q = S.read_template part.schema_type part.uuid (job_suffix o.kind) h.world in
      read_then_run fuel part o timeout synchronous x q.0 (record h { world = q.1 })
        (raws.template_raw part.schema_type part.uuid (job_suffix o.kind) h.world x) r

  stop_with-StopRaises :
      (part : Part) (o : Option Opts) (timeout : ℕ) (x : Exn) (q : Result Exn (Unit {0}))
      (t : Host S)
      → ((e : Exn) → q ≡ err e → expected e ≡ true)
      → (let (c, u) = continue q (λ _. pure {A = Option ℕ} none) t in
          handle c (stop_failed S part (chosen part o) timeout) u).0
        ≡ err x
      → StopRaises part o timeout x
  stop_with-StopRaises part o timeout x (ok a) t k r = cc
  stop_with-StopRaises part o timeout x (err e) t k r =
      stop_failed-StopRaises S part o (chosen part o) timeout e x t (k e refl) r
  stop_with-StopRaises part o timeout x hang t k r = cc

  -- `start` raises nothing but failures of the server itself and the power-on exceptions for this
  -- partition and timeout.
  start-StartRaises :
      (fuel : ℕ) (part : Part) (o : Option Opts) (timeout : ℕ) (synchronous : Bool) (h : Host S)
      (x : Exn)
      → (start S fuel part o timeout synchronous h).0 ≡ err x
      → StartRaises part timeout x
  unfolding start
  start-StartRaises fuel part o timeout synchronous h x r =
      go (run S fuel part (or_default o) timeout synchronous h).0
        (run_raised fuel part (or_default o) timeout synchronous h) r
    where
      go :
          (q : Result Exn (Unit {0}))
          → ((e : Exn) → q ≡ err e → expected e ≡ true)
          → (handle q
              (start_failed S part timeout)
              (run S fuel part (or_default o) timeout synchronous h).1).0
            ≡ err x
          → StartRaises part timeout x
      go (ok a) k r' = cc
      go (err e) k r' =
          start_failed-StartRaises S part timeout e x
            (run S fuel part (or_default o) timeout synchronous h).1 (k e refl) r'
      go hang k r' = cc

  refused-StopRaises :
      (part : Part) (o : Option Opts) (timeout : ℕ) (x : Exn)
      → is_os (chosen part o) ≡ true
      → can_os_shutdown part ≡ false
      → os_shutdown_no_rmc part.name ≡ x
      → StopRaises part o timeout x
  refused-StopRaises part none timeout x os_asked cannot e = cc (chosen_can part os_asked)
  refused-StopRaises part (some o) timeout x os_asked cannot e =
      subst (StopRaises part (some o) timeout) e (refl, (unfold chosen in os_asked), cannot)

  -- `stop` raises nothing but failures of the server itself, the power-off exceptions for this
  -- partition and timeout, and OSShutdownNoRMC, which it raises only where the caller's options ask
  -- for an OS shutdown of a partition that cannot do one: never with its own default options.
  pub stop-StopRaises :
      (fuel : ℕ) (part : Part) (o : Option Opts) (timeout : ℕ) (synchronous : Bool) (h : Host S)
      (x : Exn)
      → (stop S fuel part o timeout synchronous h).0 ≡ err x
      → StopRaises part o timeout x
  unfolding stop_with
  stop-StopRaises fuel part o timeout synchronous h x r =
      let opts = chosen part o in
      let r' : (stop_with S fuel part opts timeout synchronous h).0 ≡ err x =
        ap (λ (q : Result Exn (Option ℕ) × Host S). q.0)
          (sym (stop-stop_with S fuel part o timeout synchronous h))
        ∙ r in
      elim (Bool-cases (is_os opts && not (can_os_shutdown part))) [
        | inl refuse ↦
            refused-StopRaises part o timeout x (ground arith) (ground arith) (ground arith)
        | inr go ↦
            let (q, t) = run S fuel part opts timeout synchronous h in
            stop_with-StopRaises part o timeout x q t
              (run_raised fuel part opts timeout synchronous h) (rw go at r')
      ]
