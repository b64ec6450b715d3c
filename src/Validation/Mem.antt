-- ===== src/Validation/Mem.antt =====
-- MemValidator of pypowervm/utils/validation.py.
use pypowervm.Prelude.{Bool, true, false, ◌||◌, Option, none, some}
use pypowervm.Validation.{
  Numbers, Raised, ◌>>>◌, raise_if, raise_reason, must_power_off, Partition, Host, can_modify_mem,
  Validator, validate_host_has_available_res,
}

module _ {N : Type 0} (num : Numbers N) where
  -- `wanted is not None and wanted != cur`
  abbrev pub is_ratio_changed : Option N → Option N → Bool
  is_ratio_changed none cur = false
  is_ratio_changed (some wanted) none = true
  is_ratio_changed (some wanted) (some cur) = num.ne wanted cur

  module _ (lpar : Partition N) (host : Host N) where
    unfoldable pub validate_deploy : Raised
    unfolding validate_host_has_available_res
    validate_deploy =
        validate_host_has_available_res num lpar lpar.mem_config.desired host.memory_free "memory"

    -- `_validate_resize_common`, on the difference that `_calculate_resize_deltas` computes.
    unfoldable pub validate_resize_common : Partition N → Raised
    unfolding validate_host_has_available_res
    validate_resize_common cur =
        validate_host_has_available_res num lpar
          (num.sub lpar.mem_config.desired cur.mem_config.desired) host.memory_free "memory"

    unfoldable pub validate_active_resize : Partition N → Raised
    unfolding validate_resize_common must_power_off
    validate_active_resize cur =
        raise_if
          (num.ne lpar.mem_config.max cur.mem_config.max
            || num.ne lpar.mem_config.min cur.mem_config.min)
          (must_power_off "minimum or maximum memory" cur.name)
        >>> raise_if (num.is_nonzero (num.sub lpar.mem_config.exp_factor cur.mem_config.exp_factor))
            (must_power_off "expansion factor" cur.name)
        >>> raise_if (is_ratio_changed lpar.mem_config.ppt_ratio cur.mem_config.ppt_ratio)
            (must_power_off "physical page table ratio" cur.name)
        >>> validate_resize_common cur

    unfoldable pub validator : Validator N
    unfolding validate_deploy validate_resize_common validate_active_resize can_modify_mem
    validator = record {
      can_modify = λ cur. raise_reason (can_modify_mem cur);
      populate_resize_diffs = λ cur. none;
      validate_deploy = validate_deploy;
      validate_active_resize = validate_active_resize;
      validate_inactive_resize = validate_resize_common;
      validate_common = none;
    }
