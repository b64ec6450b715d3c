-- ===== src/Validation/Proc.antt =====
-- ProcValidator of pypowervm/utils/validation.py.
use pypowervm.Prelude.{
  String, ◌<>◌, Bool, false, not, ◌&&◌, ◌||◌, ◌⊎◌, inl, inr, Option, none, some, text_eq,
  if◌then◌else◌,
}
use pypowervm.Sanitize.{lower}
use pypowervm.Validation.{
  Numbers, Failure, type_error, attribute_error, Raised, ◌>>>◌, raise_if, raise_reason,
  must_power_off, is_other, ProcConfig, dedicated, shared, Partition, Host, has_dedicated,
  can_modify_proc, Validator, validate_host_has_available_res,
}

-- Whether a mode is asked for that is neither the current nor the pending one.
unfoldable pub is_compat_changed : Option String → Option String → Option String → Failure ⊎ Bool
unfolding lower
is_compat_changed none cur pending = inr false
is_compat_changed (some mode) none pending = inl attribute_error
is_compat_changed (some mode) (some cur) none =
    if not (text_eq (lower mode) (lower cur)) then inl attribute_error else inr false
is_compat_changed (some mode) (some cur) (some pending) =
    inr (not (text_eq (lower mode) (lower cur)) && not (text_eq (lower mode) (lower pending)))

-- A condition whose evaluation may raise, and the exception raised where it holds.
abbrev pub raise_where : Failure ⊎ Bool → String → Raised
raise_where (inl e) msg = some e
raise_where (inr changed) msg = raise_if changed msg

module _ {N : Type 0} where
  -- `_populate_dedicated_proc_values` and `_populate_shared_proc_values`
  abbrev pub des_procs : ProcConfig N → Option N
  des_procs (dedicated d) = some d.desired
  des_procs (shared s) = s.desired_units

  abbrev pub res_name : ProcConfig N → String
  res_name (dedicated _) = "CPUs"
  res_name (shared _) = "processing units"

  abbrev pub max_per_lpar : Host N → ProcConfig N → N
  max_per_lpar host (dedicated _) = host.max_procs_per_aix_linux_lpar
  max_per_lpar host (shared _) = host.max_vcpus_per_aix_linux_lpar

  abbrev pub sys_limit : Host N → ProcConfig N → N
  sys_limit host (dedicated _) = host.max_sys_procs_limit
  sys_limit host (shared _) = host.max_sys_vcpus_limit

  abbrev pub des_vcpus : ProcConfig N → N
  des_vcpus (dedicated d) = d.desired
  des_vcpus (shared s) = s.desired_virtual

  abbrev pub max_vcpus : ProcConfig N → N
  max_vcpus (dedicated d) = d.max
  max_vcpus (shared s) = s.max_virtual

  abbrev pub min_vcpus : ProcConfig N → N
  min_vcpus (dedicated d) = d.min
  min_vcpus (shared s) = s.min_virtual

module _ {N : Type 0} (num : Numbers N) where
  -- `x - y`
  abbrev minus : Option N → Option N → Failure ⊎ N
  minus (some x) (some y) = inr (num.sub x y)
  minus (some x) none = inl type_error
  minus none y = inl type_error

  abbrev rounded : Failure ⊎ N → Failure ⊎ N
  rounded (inl e) = inl e
  rounded (inr x) = inr (num.round2 x)

  -- `_calculate_resize_deltas`: the processors or units that the resize adds.
  unfoldable pub delta_vcpu : ProcConfig N → ProcConfig N → Failure ⊎ N
  delta_vcpu (dedicated d) (dedicated c) = inr (num.sub d.desired c.desired)
  delta_vcpu (dedicated d) (shared c) = elim c.desired_units [
    | none ↦ inr (num.sub d.desired c.desired_virtual)
    | some units ↦ inr (num.round2 (num.sub d.desired units))
  ]
  delta_vcpu (shared s) (dedicated c) = rounded (minus s.desired_units (some c.desired))
  delta_vcpu (shared s) (shared c) = rounded (minus s.desired_units c.desired_units)

  -- Whether the least or greatest processing units change, where both modes are shared.
  unfoldable pub is_units_changed : ProcConfig N → ProcConfig N → Bool
  is_units_changed (shared s) (shared c) =
      num.ne (num.round2 s.max_units) (num.round2 (num.to_float c.max_units))
      || num.ne (num.round2 s.min_units) (num.round2 (num.to_float c.min_units))
  is_units_changed (shared _) (dedicated _) = false
  is_units_changed (dedicated _) _ = false

  module _ (lpar : Partition N) (host : Host N) where
    -- The host's processors suffice for what is asked of them.
    unfoldable pub validate_avail : Failure ⊎ N → Raised
    unfolding validate_host_has_available_res
    validate_avail (inl e) = some e
    validate_avail (inr des) =
        validate_host_has_available_res num lpar des host.proc_units_avail
          (res_name lpar.proc_config)

    abbrev pub number : Option N → Failure ⊎ N
    number none = inl type_error
    number (some x) = inr x

    unfoldable pub validate_deploy : Raised
    unfolding validate_avail
    validate_deploy = validate_avail (number (des_procs lpar.proc_config))

    unfoldable pub validate_resize_common : Partition N → Raised
    unfolding validate_avail delta_vcpu
    validate_resize_common cur = validate_avail (delta_vcpu lpar.proc_config cur.proc_config)

    unfoldable pub validate_active_resize : Partition N → Raised
    unfolding validate_resize_common is_units_changed is_compat_changed must_power_off
    validate_active_resize cur =
        raise_if
          (num.ne (max_vcpus lpar.proc_config) (max_vcpus cur.proc_config)
            || num.ne (min_vcpus lpar.proc_config) (min_vcpus cur.proc_config))
          (must_power_off "minimum or maximum processors" cur.name)
        >>> raise_if (is_units_changed lpar.proc_config cur.proc_config)
            (must_power_off "minimum or maximum processor units" cur.name)
        >>> raise_where
            (is_compat_changed lpar.proc_compat_mode cur.proc_compat_mode
              cur.pending_proc_compat_mode)
            (must_power_off "processor compatibility mode" cur.name)
        >>> raise_if (is_other (has_dedicated lpar.proc_config) (has_dedicated cur.proc_config))
            (must_power_off "processing mode" cur.name)
        >>> validate_resize_common cur

    unfoldable pub validate_host_max_allowed_procs_per_lpar : Raised
    validate_host_max_allowed_procs_per_lpar =
        raise_if (num.gt (des_vcpus lpar.proc_config) (max_per_lpar host lpar.proc_config)) (
          "The desired processors ("
          <> num.decimal (des_vcpus lpar.proc_config)
          <> ") cannot be above the maximum allowed processors per partition ("
          <> num.decimal (max_per_lpar host lpar.proc_config)
          <> ") for virtual machine '"
          <> lpar.name
          <> "'.")

    unfoldable pub validate_host_max_sys_procs_limit : Raised
    validate_host_max_sys_procs_limit =
        raise_if (num.gt (max_vcpus lpar.proc_config) (sys_limit host lpar.proc_config)) (
          "The maximum processors ("
          <> num.decimal (max_vcpus lpar.proc_config)
          <> ") cannot be above the maximum system capacity processor limit ("
          <> num.decimal (sys_limit host lpar.proc_config)
          <> ") for virtual machine '"
          <> lpar.name
          <> "'.")

    unfoldable pub validate_common : Raised
    unfolding validate_host_max_allowed_procs_per_lpar validate_host_max_sys_procs_limit
    validate_common = validate_host_max_allowed_procs_per_lpar >>> validate_host_max_sys_procs_limit

    -- `_populate_resize_diffs` raises what `_calculate_resize_deltas` raises.
    abbrev pub raised_by : Failure ⊎ N → Raised
    raised_by (inl e) = some e
    raised_by (inr delta) = none

    unfoldable pub validator : Validator N
    unfolding validate_deploy validate_resize_common validate_active_resize validate_common
        delta_vcpu can_modify_proc
    validator = record {
      can_modify = λ cur. raise_reason (can_modify_proc cur);
      populate_resize_diffs = λ cur. raised_by (delta_vcpu lpar.proc_config cur.proc_config);
      validate_deploy = validate_deploy;
      validate_active_resize = validate_active_resize;
      validate_inactive_resize = validate_resize_common;
      validate_common = validate_common;
    }
