-- ===== src/Power/Op/Outcome.antt =====
-- What PowerOp.start and PowerOp.stop (pypowervm/tasks/power.py) return and raise, and that they
-- come to an end.
use pypowervm.Prelude.{
  ℕ, ◌≡◌, ◌≢◌, refl, ap, sym, ◌∙◌, Bool, true, false, Option, none, some, arith,
}
use pypowervm.Exec.{Result, ok, err, hang, handle}
use pypowervm.Exn.{Exn, is_job_request_failed, os_shutdown_no_rmc}
use pypowervm.Job.{Server}
use pypowervm.Power.Opts.{Opts, power_off, new}
use pypowervm.Power.Opts.Modes.{Part, can_os_shutdown, is_os}
use pypowervm.Power.Opts.Contents.{soft_detect_lem}
use pypowervm.Power.Op.{
  Host, run, start_failed, start, or_default, stop_failed, stop_with, or_soft_detect, stop,
}

module _ (S : Server) where
  start_failed_raised :
      (part : Part) (timeout : ℕ) (e x : Exn) (h : Host S)
      → (start_failed S part timeout e h).0 ≡ err x
      → is_job_request_failed x ≡ false
  unfolding start_failed
  start_failed_raised part timeout e x h r = ground arith

  stop_failed_raised :
      (part : Part) (o : Opts) (timeout : ℕ) (e x : Exn) (h : Host S)
      → (stop_failed S part o timeout e h).0 ≡ err x
      → is_job_request_failed x ≡ false
  unfolding stop_failed
  stop_failed_raised part o timeout e x h r = ground arith

  start_raised :
      (fuel : ℕ) (part : Part) (o : Option Opts) (timeout : ℕ) (synchronous : Bool) (h : Host S)
      (x : Exn)
      → (start S fuel part o timeout synchronous h).0 ≡ err x
      → is_job_request_failed x ≡ false
  unfolding start
  start_raised fuel part o timeout synchronous h x r =
      let (result, t) = run S fuel part (or_default o) timeout synchronous h in
      elim result
          as (λ q.
            (handle q (start_failed S part timeout) t).0 ≡ err x
            → is_job_request_failed x ≡ false) [
              | ok a ↦ λ e. cc
              | err e ↦ start_failed_raised part timeout e x t
              | hang ↦ λ e. cc
            ]
        r

-- The options that `stop` uses.
unfoldable pub chosen : Part → Option Opts → Opts
chosen part none = (soft_detect_lem part none (new power_off none)).0
chosen part (some o) = o

pub or_soft_detect-chosen :
    (part : Part) (o : Option Opts) → or_soft_detect part o ≡ ok (chosen part o)
unfolding or_soft_detect chosen
or_soft_detect-chosen part none = (soft_detect_lem part none (new power_off none)).1
or_soft_detect-chosen part (some o) = refl

module _ (S : Server) where
  pub stop-stop_with :
      (fuel : ℕ) (part : Part) (o : Option Opts) (timeout : ℕ) (synchronous : Bool) (h : Host S)
      → stop S fuel part o timeout synchronous h
        ≡ stop_with S fuel part (chosen part o) timeout synchronous h
  unfolding stop
  stop-stop_with fuel part o timeout synchronous h = rw (or_soft_detect-chosen part o)

  stop_with_raised :
      (fuel : ℕ) (part : Part) (o : Opts) (timeout : ℕ) (synchronous : Bool) (h : Host S) (x : Exn)
      → (stop_with S fuel part o timeout synchronous h).0 ≡ err x
      → is_job_request_failed x ≡ false
  unfolding stop_with
  stop_with_raised fuel part o timeout synchronous h x r =
      ground (arith, stop_failed_raised S part o timeout)

  -- No JobRequestFailed and no JobRequestTimedOut, which the Job's run raises, comes out of `start`
  -- or of `stop`, with any options and whatever the server does.
  pub PowerOp_raised :
      (fuel : ℕ) (part : Part) (o : Option Opts) (timeout : ℕ) (synchronous : Bool) (h : Host S)
      (x : Exn)
      → is_job_request_failed x ≡ true
      → ((start S fuel part o timeout synchronous h).0 ≢ err x)
        × ((stop S fuel part o timeout synchronous h).0 ≢ err x)
  PowerOp_raised fuel part o timeout synchronous h x job = (
    λ r. cc (start_raised S fuel part o timeout synchronous h x r),
    λ r. cc (
        stop_with_raised fuel part (chosen part o) timeout synchronous h x (
          ap (λ (q : Result Exn (Option ℕ) × Host S). q.0)
            (sym (stop-stop_with fuel part o timeout synchronous h))
          ∙ r)),
  )

  -- An OS shutdown of a partition that cannot do one asks nothing of the server.
  pub stop_no_rmc :
      (fuel : ℕ) (part : Part) (o : Opts) (timeout : ℕ) (synchronous : Bool) (h : Host S)
      → is_os o ≡ true
      → can_os_shutdown part ≡ false
      → stop S fuel part (some o) timeout synchronous h ≡ (err (os_shutdown_no_rmc part.name), h)
  unfolding stop or_soft_detect stop_with
  stop_no_rmc fuel part o timeout synchronous h asked cannot = rw (asked, cannot)
