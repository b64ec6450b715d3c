-- ===== src/Power/Flow/Legacy.antt =====
-- power_off of pypowervm/tasks/power.py, the deprecated entry with `add_parms` and a force flag.
use pypowervm.Prelude.{
  ℕ, ◌≡◌, refl, ap, ◌∙◌, String, Bool, true, false, Bool-cases, inl, inr, Option, none, some,
  text_eq,
}
use pypowervm.Prelude.Dict.{Dict, lookup, has}
use pypowervm.Exec.{Result, ok, err, hang, pure, ◌>>=◌, lift}
use pypowervm.Exn.{Exn}
use pypowervm.Job.{Server}
use pypowervm.Power.Opts.{Value, flag, Opts, power_off, new, is_true}
use pypowervm.Power.Opts.Modes.{
  Part, os400, is_immediate, is_text, equals_text, restart, soft_detect,
}
use pypowervm.Power.Opts.Contents.{soft_detect_lem, detected, mode_parm, process_bool_lem}
use pypowervm.Power.Op.{Host, stop}
use pypowervm.Power.Flow.{
  Force, on_failure, AddParms, no_parms, legacy_parms, typed_parms, legacy_power_opts, or_none,
  power_off_progressive, power_off_partition, by_force,
}
use pypowervm.Power.Flow.Plan.{finish}

-- No operation is set in typed options.
abbrev pub NoOperation : AddParms → Type 0
NoOperation no_parms = Unit
NoOperation (legacy_parms d) = Unit
NoOperation (typed_parms d) = has "operation" d ≡ false

by_request :
    (part : Part) (o o1 : Opts) (b : Bool)
    → ((k : String) → lookup k o1.parm_map ≡ mode_parm (detected part (or_none b)) o.parm_map k)
    → text_eq part.env os400 ≡ true
    → is_immediate o1 ≡ b
unfolding is_text is_true
by_request part o o1 true eq e = ap (equals_text "true") (eq "immediate") ∙ rw e
by_request part o o1 false eq e = ap (equals_text "true") (eq "immediate") ∙ rw e

is_immediate-restart : (v : Value) (o : Opts) → is_immediate (restart v o) ≡ is_immediate o
unfolding is_text restart
is_immediate-restart v o = ap (equals_text "true") (process_bool_lem "restart" v o "immediate")

module _ (S : Server) (fuel dft : ℕ) (part : Part) (timeout : ℕ) (h : Host S) where
  -- Options with an operation set mean that one shutdown, whatever the force flag and the restart
  -- argument say.
  power_off-operation :
      (force_immediate : Force) (again : Bool) (d : Dict Value)
      → has "operation" d ≡ true
      → power_off_partition S fuel dft part force_immediate again timeout (typed_parms d) h ≡ (
          let (r, h') =
            stop S fuel part (some (record { kind = power_off; parm_map = d })) timeout true h in
          finish S r h')
  unfolding power_off_partition
  power_off-operation force_immediate again d e = rw e (
      finish_eq
        (stop S fuel part (some (record { kind = power_off; parm_map = d })) timeout true h).0
        (stop S fuel part (some (record { kind = power_off; parm_map = d })) timeout true h).1)
    where
      finish_eq :
          (r : Result Exn (Option ℕ)) (h' : Host S)
          → ((λ (t : Host S). (r, t)) >>= λ _. pure tt) h' ≡ finish S r h'
      finish_eq (ok a) h' = refl
      finish_eq (err x) h' = refl
      finish_eq hang h' = refl

  standard_any :
      (again a b : Bool)
      → text_eq part.env os400 ≡ false
      → power_off_progressive S fuel dft part again a timeout h
        ≡ power_off_progressive S fuel dft part again b timeout h
  unfolding power_off_progressive
  standard_any again a b e = rw e

  after_detect :
      (again : Bool) (o o1 : Opts)
      → ((k : String)
          → lookup k o1.parm_map
            ≡ mode_parm (detected part (or_none (is_immediate o))) o.parm_map k)
      → power_off_progressive S fuel dft part again
          (is_immediate (restart (flag again) o1))
          timeout
          h
        ≡ power_off_progressive S fuel dft part again (is_immediate o) timeout h
  after_detect again o o1 eq = elim (Bool-cases (text_eq part.env os400)) [
    | inl ibmi ↦ rw (is_immediate-restart, by_request part o o1 (is_immediate o) eq ibmi)
    | inr standard ↦
        standard_any again (is_immediate (restart (flag again) o1)) (is_immediate o) standard
  ]

  detect_then :
      (again : Bool) (o : Opts)
      → (lift (soft_detect part (or_none (is_immediate o)) o) >>= λ o1.
            by_force S fuel dft part (restart (flag again) o1) on_failure again timeout)
          h
        ≡ power_off_progressive S fuel dft part again (is_immediate o) timeout h
  detect_then again o =
      let (o1, found, eq) = soft_detect_lem part (or_none (is_immediate o)) o in
      rw found (after_detect again o o1 eq)

  -- With Force.ON_FAILURE and no operation set, power_off does what power_off_progressive does with the
  -- same `restart` and timeout, and with the options' immediate flag as `ibmi_immed`. A restart in the
  -- options has no effect.
  pub power_off-on_failure :
      (again : Bool) (add_parms : AddParms)
      → NoOperation add_parms
      → power_off_partition S fuel dft part on_failure again timeout add_parms h
        ≡ power_off_progressive S fuel dft part again
            (is_immediate (legacy_power_opts power_off add_parms).0)
            timeout
            h
  unfolding power_off_partition
  power_off-on_failure again no_parms e = detect_then again (new power_off none)
  power_off-on_failure again (legacy_parms d) e = detect_then again (new power_off (some d))
  power_off-on_failure again (typed_parms d) e = rw e
