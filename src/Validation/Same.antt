-- ===== src/Validation/Same.antt =====
-- A resize to the values that the partition has (pypowervm/utils/validation.py).
use pypowervm.Prelude.{
  String, Bool, true, false, not, ◌&&◌, ◌||◌, Option, none, some, text_eq, text_eq_iff,
  if◌then◌else◌, ◌≡◌, refl, ◌⊎◌, inr, arith,
}
use pypowervm.Sanitize.{lower}
use pypowervm.Validation.{
  Numbers, Failure, Raised, is_other, ProcConfig, dedicated, shared, Partition, Host, has_dedicated,
  is_not_activated, Validator, validate, validate_host_has_available_res,
}
use pypowervm.Validation.Proc.{
  is_compat_changed, raise_where, is_units_changed, delta_vcpu, des_procs, des_vcpus, max_vcpus,
  max_per_lpar, sys_limit,
}
use pypowervm.Validation.Proc
use pypowervm.Validation.Mem
use pypowervm.Validation.All.{validate_all, validator}
use pypowervm.Validation.All
use pypowervm.Validation.Accept.{both_quiet, no_raise, quiet_parts}

other_itself : (a : Bool) → is_other a a ≡ false
other_itself true = refl
other_itself false = refl

and_false : (a b : Bool) → a ≡ false → (a && b) ≡ false
and_false a b h = ground (arith, h)

or_both : (a b : Bool) → a ≡ false → b ≡ false → (a || b) ≡ false
or_both a b h k = ground (arith, h, k)

text_same : (s : String) → text_eq s s ≡ true
text_same s = (text_eq_iff s s).1 refl

compat_itself : (mode pending : Option String) → is_compat_changed mode mode pending ≡ inr false
unfolding is_compat_changed
compat_itself none pending = refl
compat_itself (some m) none = rw (text_same (lower m)) refl
compat_itself (some m) (some p) = rw (text_same (lower m)) refl

where_quiet : (x : Failure ⊎ Bool) (msg : String) → x ≡ inr false → raise_where x msg ≡ none
where_quiet x msg h = rw h refl

either_branch : (c : Bool) (a b : Raised) → a ≡ none → b ≡ none → (if c then a else b) ≡ none
either_branch true a b h k = h
either_branch false a b h k = k

module _ {N : Type 0} (num : Numbers N) where
  -- A number is equal to itself, as a floating one too, and its difference from itself is 0, which
  -- is no more than `avail`, rounded or not.
  pub record IsReflexive (avail : N) : Type 0 where
    pub equal : (x : N) → num.ne x x ≡ false
    pub floating : (x : N) → num.ne (num.round2 x) (num.round2 (num.to_float x)) ≡ false
    pub no_difference : (x : N) → num.is_nonzero (num.sub x x) ≡ false
    pub fits : (x : N) → num.gt (num.round2 (num.sub x x)) (num.round2 avail) ≡ false
    pub rounded_fits :
        (x : N) → num.gt (num.round2 (num.round2 (num.sub x x))) (num.round2 avail) ≡ false

  ratio_itself :
      (r : Option N) → ((x : N) → num.ne x x ≡ false) → Mem.is_ratio_changed num r r ≡ false
  ratio_itself none equal = refl
  ratio_itself (some r) equal = equal r

  units_itself :
      ((x : N) → num.ne (num.round2 x) (num.round2 (num.to_float x)) ≡ false)
      → (p : ProcConfig N) → is_units_changed num p p ≡ false
  unfolding is_units_changed
  units_itself floating (dedicated d) = refl
  units_itself floating (shared s) = or_both _ _ (floating s.max_units) (floating s.min_units)

  module _ (host : Host N) (cur : Partition N) where
    -- What a delta that is known and fits comes to.
    avail_itself :
        IsReflexive host.proc_units_avail
        → (p : ProcConfig N) (u : N) → des_procs p ≡ some u
        → (d : N) × (delta_vcpu num p p ≡ inr d)
          × (num.gt (num.round2 d) (num.round2 host.proc_units_avail) ≡ false)
    unfolding delta_vcpu
    avail_itself r (dedicated c) u h = (num.sub c.desired c.desired, refl, r.fits c.desired)
    avail_itself r (shared s) u h = (num.round2 (num.sub u u), rw h refl, r.rounded_fits u)

    avail_quiet :
        (x : Failure ⊎ N) (d : N)
        → x ≡ inr d
        → num.gt (num.round2 d) (num.round2 host.proc_units_avail) ≡ false
        → Proc.validate_avail num cur host x ≡ none
    unfolding Proc.validate_avail validate_host_has_available_res
    avail_quiet x d e h = rw e (no_raise _ _ h)

    diffs_quiet : (x : Failure ⊎ N) (d : N) → x ≡ inr d → Proc.raised_by num cur host x ≡ none
    diffs_quiet x d e = rw e refl

    proc_quiet :
        IsReflexive host.proc_units_avail
        → (u : N) → des_procs cur.proc_config ≡ some u
        → (Proc.raised_by num cur host (delta_vcpu num cur.proc_config cur.proc_config) ≡ none)
          × (Proc.validate_resize_common num cur host cur ≡ none)
          × (Proc.validate_active_resize num cur host cur ≡ none)
    unfolding Proc.validate_resize_common Proc.validate_active_resize
    proc_quiet r u asked =
        let (d, known, free) = avail_itself r cur.proc_config u asked in
        let common = avail_quiet _ d known free in
        (
          diffs_quiet _ d known,
          common,
          both_quiet _ _ (no_raise _ _ (or_both _ _ (r.equal _) (r.equal _))) (
              both_quiet _ _ (no_raise _ _ (units_itself r.floating cur.proc_config)) (
                both_quiet _ _
                  (where_quiet _ _
                    (compat_itself cur.proc_compat_mode cur.pending_proc_compat_mode))
                  (both_quiet _ _ (no_raise _ _ (other_itself (has_dedicated cur.proc_config)))
                    common))),
        )

    mem_quiet :
        IsReflexive host.memory_free
        → (Mem.validate_resize_common num cur host cur ≡ none)
          × (Mem.validate_active_resize num cur host cur ≡ none)
    unfolding Mem.validate_resize_common Mem.validate_active_resize validate_host_has_available_res
    mem_quiet r =
        let common = no_raise _ _ (r.fits cur.mem_config.desired) in
        (
          common,
          both_quiet _ _ (no_raise _ _ (or_both _ _ (r.equal _) (r.equal _))) (
              both_quiet _ _ (no_raise _ _ (r.no_difference cur.mem_config.exp_factor)) (
                both_quiet _ _ (no_raise _ _ (ratio_itself cur.mem_config.ppt_ratio r.equal))
                  common)),
        )

    limits_quiet :
        num.gt (des_vcpus cur.proc_config) (max_per_lpar host cur.proc_config) ≡ false
        → num.gt (max_vcpus cur.proc_config) (sys_limit host cur.proc_config) ≡ false
        → Proc.validate_common num cur host ≡ none
    unfolding Proc.validate_common Proc.validate_host_max_allowed_procs_per_lpar
        Proc.validate_host_max_sys_procs_limit
    limits_quiet a b = both_quiet _ _ (no_raise _ _ a) (no_raise _ _ b)

    quiet_resize :
        (v : Validator N)
        → v.populate_resize_diffs cur ≡ none
        → v.validate_inactive_resize cur ≡ none
        → v.validate_active_resize cur ≡ none
        → v.validate_common ≡ none
        → validate false (some cur) v ≡ none
    unfolding validate
    quiet_resize v d i a c =
        both_quiet _ _ d (both_quiet _ _ (either_branch (is_not_activated cur) _ _ i a) c)

    -- Without the check of the DLPAR capability, a resize to the very values that the partition
    -- has passes, activated or not, where its desired processors or units are known and its
    -- desired and maximum processors are within the host's limits. Of the numbers it is asked
    -- that each equals itself and that its difference from itself is 0, which is not above what
    -- the host has free.
    validate_all_same :
        IsReflexive host.memory_free
        → IsReflexive host.proc_units_avail
        → (u : N) → des_procs cur.proc_config ≡ some u
        → num.gt (des_vcpus cur.proc_config) (max_per_lpar host cur.proc_config) ≡ false
        → num.gt (max_vcpus cur.proc_config) (sys_limit host cur.proc_config) ≡ false
        → validate_all num cur host (some cur) false ≡ none
    unfolding Proc.validator Mem.validator validator All.validate_active_resize
    validate_all_same mem procs u asked below_max below_limit =
        let (delta, common, active) = proc_quiet procs u asked in
        let (mem_common, mem_active) = mem_quiet mem in
        quiet_parts num cur host (some cur) false
          (quiet_resize (Proc.validator num cur host) delta common active
            (limits_quiet below_max below_limit))
          (quiet_resize (Mem.validator num cur host) refl mem_common mem_active refl)
          (quiet_resize (validator cur host) refl refl
            (no_raise _ _ (
              and_false (is_other cur.srr_enabled cur.srr_enabled) (not host.dynamic_srr_capable)
                (other_itself cur.srr_enabled)))
            refl)
