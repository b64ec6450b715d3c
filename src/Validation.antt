-- ===== src/Validation.antt =====
-- Partitions as the validators of pypowervm/utils/validation.py read them, whether they may be
-- modified (wrappers/base_partition.py and wrappers/logical_partition.py), and the template method
-- of BaseValidator. Python's numbers, whole or floating, are the parameter `num`.
use pypowervm.Prelude.{
  String, ◌<>◌, Bool, true, false, not, ◌&&◌, Option, none, some, text_eq, if◌then◌else◌,
}
pub mod Mem
pub mod Proc
pub mod All
pub mod Accept
pub mod Active
pub mod Same
mod Examples

pub record Numbers (N : Type 0) : Type 0 where
  sub : N → N → N
  -- `round(x, 2)`
  round2 : N → N
  -- `float(x)`
  to_float : N → N
  -- `x > y`, `x != y` and `x != 0`
  gt : N → N → Bool
  ne : N → N → Bool
  is_nonzero : N → Bool
  -- `'%.2f' % x` and `'%d' % x`
  text2 : N → String
  decimal : N → String

pub data Failure : Type 0 where
  validator_exception : String → Failure
  -- arithmetic on None, and a method of None
  type_error : Failure
  attribute_error : Failure

-- What a method without a result raises.
abbrev pub Raised : Type 0
Raised = Option Failure

-- The second statement runs where the first raises nothing.
infixr 21 ◌>>>◌
abbrev pub ◌>>>◌ : Raised → Raised → Raised
none >>> r = r
some e >>> r = some e

abbrev pub raise_if : Bool → String → Raised
raise_if true msg = some (validator_exception msg)
raise_if false msg = none

-- `a != b` on Booleans.
abbrev pub is_other : Bool → Bool → Bool
is_other true b = not b
is_other false b = b

-- The reason why the partition cannot be modified, or none.
abbrev pub raise_reason : Option String → Raised
raise_reason none = none
raise_reason (some reason) = some (validator_exception reason)

unfoldable pub must_power_off : String → String → String
must_power_off what name =
    "The virtual machine must be powered off before changing the " <> what
    <> ". Power off virtual machine " <> name <> " and try again."

module _ (N : Type 0) where
  pub record MemConfig : Type 0 where
    desired : N
    max : N
    min : N
    exp_factor : N
    ppt_ratio : Option N

  pub record DedicatedCfg : Type 0 where
    desired : N
    max : N
    min : N

  pub record SharedCfg : Type 0 where
    desired_units : Option N
    max_units : N
    min_units : N
    desired_virtual : N
    max_virtual : N
    min_virtual : N

  -- `has_dedicated` says which of the two configurations is there.
  pub data ProcConfig : Type 0 where
    dedicated : DedicatedCfg → ProcConfig
    shared : SharedCfg → ProcConfig

  pub record Partition : Type 0 where
    name : String
    state : String
    rmc_state : String
    env : String
    is_mgmt_partition : Bool
    mem_dlpar : Bool
    proc_dlpar : Bool
    srr_enabled : Bool
    proc_compat_mode : Option String
    pending_proc_compat_mode : Option String
    mem_config : MemConfig
    proc_config : ProcConfig

  pub record Host : Type 0 where
    memory_free : N
    proc_units_avail : N
    max_procs_per_aix_linux_lpar : N
    max_sys_procs_limit : N
    max_vcpus_per_aix_linux_lpar : N
    max_sys_vcpus_limit : N
    dynamic_srr_capable : Bool

  -- The methods of a validator of one partition and host; those of a resize take the partition
  -- as it is.
  pub record Validator : Type 0 where
    can_modify : Partition → Raised
    populate_resize_diffs : Partition → Raised
    validate_deploy : Raised
    validate_active_resize : Partition → Raised
    validate_inactive_resize : Partition → Raised
    validate_common : Raised

module _ {N : Type 0} where
  abbrev pub has_dedicated : ProcConfig N → Bool
  has_dedicated (dedicated _) = true
  has_dedicated (shared _) = false

  abbrev pub is_not_activated : Partition N → Bool
  is_not_activated p = text_eq p.state "not activated"

  -- `_DlparCapable._can_modify`
  unfoldable pub base_can_modify : Partition N → Bool → String → Option String
  base_can_modify p dlpar_cap cap_desc =
      if is_not_activated p
      then none
      else if not (text_eq p.rmc_state "active") && not p.is_mgmt_partition
      then some "Partition does not have an active RMC connection."
      else if not dlpar_cap
      then some ("Partition does not have an active DLPAR capability for " <> cap_desc <> ".")
      else none

  -- `LPAR._can_modify`
  unfoldable pub can_modify : Partition N → Bool → String → Option String
  unfolding base_can_modify
  can_modify p dlpar_cap cap_desc =
      if text_eq p.env "OS400" then none else base_can_modify p dlpar_cap cap_desc

  unfoldable pub can_modify_mem : Partition N → Option String
  unfolding can_modify
  can_modify_mem p = can_modify p p.mem_dlpar "Memory"

  unfoldable pub can_modify_proc : Partition N → Option String
  unfolding can_modify
  can_modify_proc p = can_modify p p.proc_dlpar "Processors"

  -- `BaseValidator.validate`
  unfoldable pub validate : Bool → Option (Partition N) → Validator N → Raised
  validate check_dlpar none v = v.validate_deploy >>> v.validate_common
  validate check_dlpar (some cur) v =
      (if check_dlpar then v.can_modify cur else none)
      >>> v.populate_resize_diffs cur
      >>> (if is_not_activated cur
          then v.validate_inactive_resize cur
          else v.validate_active_resize cur)
      >>> v.validate_common

  unfoldable pub validate_host_has_available_res : Numbers N → Partition N → N → N → String → Raised
  validate_host_has_available_res num lpar des avail res_name =
      raise_if (num.gt (num.round2 des) (num.round2 avail)) (
        "Insufficient available "
        <> res_name
        <> " on host for virtual machine '"
        <> lpar.name
        <> "' ("
        <> num.text2 des
        <> " requested, "
        <> num.text2 avail
        <> " available)")
