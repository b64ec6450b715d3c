-- ===== src/Validation/Examples.antt =====
-- Partitions and a host whose numbers are whole, and resizes of them
-- (pypowervm/utils/validation.py).
use pypowervm.Prelude.{
  ℕ, ◌+◌, ◌-◌, String, Bool, true, false, not, none, some, ◌==◌, ltb, if◌then◌else◌, ◌≡◌, refl, ◌⊎◌,
  arith, ap, sym, le→ltb,
}
use pypowervm.Sanitize.{lower}
use pypowervm.Validation.{
  Numbers, dedicated, Partition, Host, can_modify_mem, can_modify_proc, validate,
  validate_host_has_available_res, can_modify, base_can_modify,
}
use pypowervm.Validation.Proc
use pypowervm.Validation.Mem
use pypowervm.Validation.All.{validate_all, validator}
use pypowervm.Validation.All
use pypowervm.Validation.Accept.{validate_all_deploy}
use pypowervm.Validation.Active.{IsExact, IsMemFrozen, IsProcFrozen, validate_all_frozen}
use pypowervm.Validation.Same.{IsReflexive}

-- Whole numbers: `neg n` is -(n + 1).
data Whole : Type 0 where
  nat : ℕ → Whole
  neg : ℕ → Whole

abbrev minus : ℕ → ℕ → Whole
minus a b = if ltb a b then neg (b - a - 1) else nat (a - b)

abbrev sub : Whole → Whole → Whole
sub (nat a) (nat b) = minus a b
sub (nat a) (neg b) = nat (a + b + 1)
sub (neg a) (nat b) = neg (a + b)
sub (neg a) (neg b) = minus b a

abbrev gt : Whole → Whole → Bool
gt (nat a) (nat b) = ltb b a
gt (nat a) (neg b) = true
gt (neg a) (nat b) = false
gt (neg a) (neg b) = ltb a b

abbrev ne : Whole → Whole → Bool
ne (nat a) (nat b) = not (a == b)
ne (neg a) (neg b) = not (a == b)
ne (nat _) (neg _) = true
ne (neg _) (nat _) = true

abbrev is_nonzero : Whole → Bool
is_nonzero (nat n) = not (n == 0)
is_nonzero (neg _) = true

abbrev whole : Numbers Whole
whole = record {
  sub = sub;
  round2 = λ x. x;
  to_float = λ x. x;
  gt = gt;
  ne = ne;
  is_nonzero = is_nonzero;
  text2 = λ x. "n";
  decimal = λ x. "n";
}

minus_itself : (n : ℕ) → minus n n ≡ nat 0
minus_itself n = ground arith

sub_itself : (x : Whole) → sub x x ≡ nat 0
sub_itself (nat n) = minus_itself n
sub_itself (neg n) = minus_itself n

ne_itself : (x : Whole) → ne x x ≡ false
ne_itself (nat n) = ground arith
ne_itself (neg n) = ground arith

ne_same : (x y : Whole) → ne x y ≡ false → x ≡ y
ne_same (nat a) (nat b) h = ap nat (ground arith)
ne_same (nat a) (neg b) h = ground arith
ne_same (neg a) (nat b) h = ground arith
ne_same (neg a) (neg b) h = ap neg (ground arith)

minus_zero : (a b : ℕ) → is_nonzero (minus a b) ≡ false → a ≡ b
minus_zero a b h = ground arith

sub_zero : (x y : Whole) → is_nonzero (sub x y) ≡ false → x ≡ y
sub_zero (nat a) (nat b) h = ap nat (minus_zero a b h)
sub_zero (nat a) (neg b) h = ground arith
sub_zero (neg a) (nat b) h = ground arith
sub_zero (neg a) (neg b) h = ap neg (sym (minus_zero b a h))

whole-IsExact : IsExact whole
whole-IsExact = record { same = ne_same; no_difference = sub_zero }

whole-IsReflexive : (n : ℕ) → IsReflexive whole (nat n)
whole-IsReflexive n = record {
  equal = ne_itself;
  floating = ne_itself;
  no_difference = λ x. rw (sub_itself x) refl;
  fits = λ x. rw (sub_itself x) (le→ltb n 0 (omega arith));
  rounded_fits = λ x. rw (sub_itself x) (le→ltb n 0 (omega arith));
}

abbrev machine : Host Whole
machine = record {
  memory_free = nat 4096;
  proc_units_avail = nat 8;
  max_procs_per_aix_linux_lpar = nat 64;
  max_sys_procs_limit = nat 64;
  max_vcpus_per_aix_linux_lpar = nat 64;
  max_sys_vcpus_limit = nat 64;
  dynamic_srr_capable = false;
}

-- A partition in the given state, with the given memory and processors.
abbrev guest : String → ℕ → ℕ → Partition Whole
guest state mem procs = record {
  name = "guest";
  state = state;
  rmc_state = "active";
  env = "AIX/Linux";
  is_mgmt_partition = false;
  mem_dlpar = true;
  proc_dlpar = true;
  srr_enabled = false;
  proc_compat_mode = some "POWER8";
  pending_proc_compat_mode = some "default";
  mem_config = record {
    desired = nat mem;
    max = nat 8192;
    min = nat 256;
    exp_factor = nat 0;
    ppt_ratio = some (nat 6);
  };
  proc_config = dedicated (record { desired = nat procs; max = nat 16; min = nat 1 });
}

validate_all_deploy_example :
    validate_all whole (guest "not activated" 2048 2) machine none true ≡ none
validate_all_deploy_example =
    (validate_all_deploy whole (guest "not activated" 2048 2) machine true).1 (record {
      units = nat 2;
      asked_for = refl;
      procs_free = refl;
      below_max = refl;
      below_limit = refl;
      mem_free = refl;
    })

validate_all_frozen_example :
    IsMemFrozen whole (guest "running" 3072 3) machine (guest "running" 2048 2)
    × IsProcFrozen whole (guest "running" 3072 3) machine (guest "running" 2048 2)
    × ((false ≡ false) ⊎ (false ≡ true))
unfolding validate_all validate Proc.validator Mem.validator validator Proc.validate_active_resize
    Mem.validate_active_resize All.validate_active_resize Proc.validate_resize_common
    Mem.validate_resize_common validate_host_has_available_res Proc.validate_avail
    Proc.validate_common Proc.validate_host_max_allowed_procs_per_lpar
    Proc.validate_host_max_sys_procs_limit Proc.is_compat_changed Proc.is_units_changed
    Proc.delta_vcpu can_modify_proc can_modify_mem can_modify base_can_modify lower
validate_all_frozen_example =
    validate_all_frozen whole (guest "running" 3072 3) machine (guest "running" 2048 2)
      whole-IsExact true refl refl
