-- ===== src/Validation/Accept.antt =====
-- When a sequence of checks raises nothing: the checks that a deployment passes, and what the
-- check of the DLPAR capability adds (pypowervm/utils/validation.py).
use pypowervm.Prelude.{
  String, Bool, true, false, Option, none, some, ◌≡◌, refl, ◌↔◌, ◌⊎◌, inl, inr, arith,
  if◌then◌else◌,
}
use pypowervm.Validation.{
  Numbers, Failure, Raised, ◌>>>◌, raise_if, raise_reason, Partition, Host, can_modify_mem,
  is_not_activated, can_modify_proc, Validator, validate, validate_host_has_available_res,
}
use pypowervm.Validation.Proc.{
  raise_where, des_procs, max_per_lpar, sys_limit, des_vcpus, max_vcpus,
}
use pypowervm.Validation.Proc
use pypowervm.Validation.Mem
use pypowervm.Validation.All.{validator, validate_all}

pub first_quiet : (a b : Raised) → a >>> b ≡ none → a ≡ none
first_quiet none b h = refl
first_quiet (some e) b h = h

pub then_quiet : (a b : Raised) → a >>> b ≡ none → b ≡ none
then_quiet none b h = h
then_quiet (some e) b h = ground arith

pub both_quiet : (a b : Raised) → a ≡ none → b ≡ none → a >>> b ≡ none
both_quiet none b h k = k
both_quiet (some e) b h k = h

pub condition_false : (c : Bool) (msg : String) → raise_if c msg ≡ none → c ≡ false
condition_false true msg h = ground arith
condition_false false msg h = refl

pub no_raise : (c : Bool) (msg : String) → c ≡ false → raise_if c msg ≡ none
no_raise true msg h = ground arith
no_raise false msg h = refl

pub raise_where_quiet :
    (x : Failure ⊎ Bool) (msg : String) → raise_where x msg ≡ none → x ≡ inr false
raise_where_quiet (inl e) msg h = ground arith
raise_where_quiet (inr true) msg h = ground arith
raise_where_quiet (inr false) msg h = refl

reason_none : (o : Option String) → raise_reason o ≡ none → o ≡ none
reason_none none h = refl
reason_none (some r) h = ground arith

no_reason : (o : Option String) → o ≡ none → raise_reason o ≡ none
no_reason none h = refl
no_reason (some r) h = ground arith

module _ {N : Type 0} (num : Numbers N) (lpar : Partition N) (host : Host N) where
  -- What the host must have for a new partition.
  pub record IsDeployable : Type 0 where
    pub units : N
    pub asked_for : des_procs lpar.proc_config ≡ some units
    pub procs_free : num.gt (num.round2 units) (num.round2 host.proc_units_avail) ≡ false
    pub below_max : num.gt (des_vcpus lpar.proc_config) (max_per_lpar host lpar.proc_config) ≡ false
    pub below_limit : num.gt (max_vcpus lpar.proc_config) (sys_limit host lpar.proc_config) ≡ false
    pub mem_free : num.gt (num.round2 lpar.mem_config.desired) (num.round2 host.memory_free) ≡ false

  avail_quiet :
      (o : Option N)
      → Proc.validate_avail num lpar host (Proc.number num lpar host o) ≡ none
      → (u : N) × (o ≡ some u) × (num.gt (num.round2 u) (num.round2 host.proc_units_avail) ≡ false)
  unfolding Proc.validate_avail validate_host_has_available_res
  avail_quiet none h = ground arith
  avail_quiet (some u) h = (u, refl, condition_false _ _ h)

  quiet_avail :
      (o : Option N) (u : N)
      → o ≡ some u
      → num.gt (num.round2 u) (num.round2 host.proc_units_avail) ≡ false
      → Proc.validate_avail num lpar host (Proc.number num lpar host o) ≡ none
  unfolding Proc.validate_avail validate_host_has_available_res
  quiet_avail o u e h = rw e (no_raise _ _ h)

  -- A new partition passes exactly when its desired processors (or units) and memory, rounded to
  -- two digits, are not above what the host has free, and its desired and maximum processors are
  -- not above the host's limits.
  pub validate_all_deploy :
      (check : Bool) → (validate_all num lpar host none check ≡ none) ↔ IsDeployable
  unfolding validate_all validate Proc.validator Mem.validator validator Proc.validate_deploy
      Mem.validate_deploy validate_host_has_available_res Proc.validate_common
      Proc.validate_host_max_allowed_procs_per_lpar Proc.validate_host_max_sys_procs_limit
  validate_all_deploy check = (
    λ h.
        let p = first_quiet _ _ h in
        let m = first_quiet _ _ (then_quiet _ _ h) in
        let (u, asked, free) = avail_quiet _ (first_quiet _ _ p) in
        let c = then_quiet _ _ p in
        record {
          units = u;
          asked_for = asked;
          procs_free = free;
          below_max = condition_false _ _ (first_quiet _ _ c);
          below_limit = condition_false _ _ (then_quiet _ _ c);
          mem_free = condition_false _ _ (first_quiet _ _ m);
        },
    λ d.
        both_quiet _ _
          (both_quiet _ _ (quiet_avail _ d.units d.asked_for d.procs_free)
            (both_quiet _ _ (no_raise _ _ d.below_max) (no_raise _ _ d.below_limit)))
          (both_quiet _ _ (both_quiet _ _ (no_raise _ _ d.mem_free) refl) refl),
  )

module _ {N : Type 0} (cur : Partition N) (v : Validator N) where
  -- What a resize that passes has passed.
  pub resize_quiet :
      (check : Bool)
      → validate check (some cur) v ≡ none
      → (v.populate_resize_diffs cur ≡ none)
        × ((if is_not_activated cur
              then v.validate_inactive_resize cur
              else v.validate_active_resize cur)
            ≡ none)
        × (v.validate_common ≡ none)
  unfolding validate
  resize_quiet check h =
      let r = then_quiet (if check then v.can_modify cur else none) _ h in
      let q = then_quiet (v.populate_resize_diffs cur) _ r in
      (
        first_quiet (v.populate_resize_diffs cur) _ r,
        first_quiet _ v.validate_common q,
        then_quiet _ v.validate_common q,
      )

  checked_quiet :
      validate true (some cur) v ≡ none
      → (v.can_modify cur ≡ none) × (validate false (some cur) v ≡ none)
  unfolding validate
  checked_quiet h = (first_quiet (v.can_modify cur) _ h, then_quiet (v.can_modify cur) _ h)

  quiet_checked :
      v.can_modify cur ≡ none
      → validate false (some cur) v ≡ none
      → validate true (some cur) v ≡ none
  unfolding validate
  quiet_checked m h = both_quiet (v.can_modify cur) _ m h

module _ {N : Type 0} (num : Numbers N) (lpar : Partition N) (host : Host N) where
  -- The three validators pass one by one.
  pub parts_quiet :
      (cur : Option (Partition N)) (check : Bool)
      → validate_all num lpar host cur check ≡ none
      → (validate check cur (Proc.validator num lpar host) ≡ none)
        × (validate check cur (Mem.validator num lpar host) ≡ none)
        × (validate check cur (validator lpar host) ≡ none)
  unfolding validate_all
  parts_quiet cur check h =
      let r = then_quiet (validate check cur (Proc.validator num lpar host)) _ h in
      (
        first_quiet (validate check cur (Proc.validator num lpar host)) _ h,
        first_quiet _ (validate check cur (validator lpar host)) r,
        then_quiet _ (validate check cur (validator lpar host)) r,
      )

  pub quiet_parts :
      (cur : Option (Partition N)) (check : Bool)
      → validate check cur (Proc.validator num lpar host) ≡ none
      → validate check cur (Mem.validator num lpar host) ≡ none
      → validate check cur (validator lpar host) ≡ none
      → validate_all num lpar host cur check ≡ none
  unfolding validate_all
  quiet_parts cur check p m c = both_quiet _ _ p (both_quiet _ _ m c)

module _ {N : Type 0} (num : Numbers N) (lpar : Partition N) (host : Host N)
    (cur : Partition N) where
  -- With the check of the DLPAR capability, a resize passes exactly when the processors and the
  -- memory of the partition as it is may be modified and the resize passes without that check.
  validate_all_checked : (validate_all num lpar host (some cur) true ≡ none) ↔ (
      (can_modify_proc cur ≡ none)
      × (can_modify_mem cur ≡ none)
      × (validate_all num lpar host (some cur) false ≡ none))
  unfolding Proc.validator Mem.validator validator
  validate_all_checked = (
    λ h.
        let (p, m, c) = parts_quiet num lpar host (some cur) true h in
        let (pm, p') = checked_quiet cur (Proc.validator num lpar host) p in
        let (mm, m') = checked_quiet cur (Mem.validator num lpar host) m in
        let (cm, c') = checked_quiet cur (validator lpar host) c in
        (reason_none _ pm, reason_none _ mm, quiet_parts num lpar host (some cur) false p' m' c'),
    λ h.
        let (p, m, c) = parts_quiet num lpar host (some cur) false h.2 in
        quiet_parts num lpar host (some cur) true
          (quiet_checked cur (Proc.validator num lpar host) (no_reason _ h.0) p)
          (quiet_checked cur (Mem.validator num lpar host) (no_reason _ h.1) m)
          (quiet_checked cur (validator lpar host) refl c),
  )
