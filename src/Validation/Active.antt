-- ===== src/Validation/Active.antt =====
-- What a resize of a running partition leaves as it is (pypowervm/utils/validation.py).
use pypowervm.Prelude.{
  String, Bool, true, false, not, ◌&&◌, ◌||◌, Option, none, some, text_eq, text_eq_iff,
  if◌then◌else◌, Bool-cases, ◌≡◌, refl, sym, ap, ◌⊎◌, inl, inr, arith,
}
use pypowervm.Sanitize.{lower}
use pypowervm.Validation.{
  Numbers, Failure, Raised, is_other, ProcConfig, dedicated, shared, Partition, Host, has_dedicated,
  is_not_activated,
}
use pypowervm.Validation.Proc.{is_compat_changed, is_units_changed, max_vcpus, min_vcpus}
use pypowervm.Validation.Proc
use pypowervm.Validation.Mem
use pypowervm.Validation.All.{validate_all, validator}
use pypowervm.Validation.All
use pypowervm.Validation.Accept.{
  first_quiet, then_quiet, condition_false, raise_where_quiet, parts_quiet, resize_quiet,
}

or_false : (a b : Bool) → (a || b) ≡ false → (a ≡ false) × (b ≡ false)
or_false a b h = ground arith

same_bool : (a b : Bool) → is_other a b ≡ false → a ≡ b
same_bool true true h = refl
same_bool true false h = ground arith
same_bool false true h = ground arith
same_bool false false h = refl

same_or_capable : (a b c : Bool) → (is_other a b && not c) ≡ false → (a ≡ b) ⊎ (c ≡ true)
same_or_capable a b true h = inr refl
same_or_capable true true false h = inl refl
same_or_capable true false false h = ground arith
same_or_capable false true false h = ground arith
same_or_capable false false false h = inl refl

-- The mode asked for, if one is, is a known current or pending mode but for its case.
abbrev pub IsKnownMode : Option String → Option String → Option String → Type 0
IsKnownMode none cur pending = Unit
IsKnownMode (some mode) cur pending =
    ((c : String) × (cur ≡ some c) × (lower mode ≡ lower c))
    ⊎ ((p : String) × (pending ≡ some p) × (lower mode ≡ lower p))

of_inr : (b c : Bool) → ◌≡◌ {A = Failure ⊎ Bool} (inr b) (inr c) → b ≡ c
of_inr true true h = refl
of_inr true false h = ground arith
of_inr false true h = ground arith
of_inr false false h = refl

either_false :
    (s t u : String) → (not (text_eq s t) && not (text_eq s u)) ≡ false → (s ≡ t) ⊎ (s ≡ u)
either_false s t u h = elim (Bool-cases (text_eq s t)) [
  | inl e ↦ inl ((text_eq_iff s t).0 e)
  | inr e ↦ inr ((text_eq_iff s u).0 (ground arith))
]

known_mode :
    (mode cur pending : Option String)
    → is_compat_changed mode cur pending ≡ inr false
    → IsKnownMode mode cur pending
unfolding is_compat_changed
known_mode none cur pending h = tt
known_mode (some m) none pending h = ground arith
known_mode (some m) (some c) none h = elim (Bool-cases (text_eq (lower m) (lower c))) [
  | inl e ↦ inl (c, refl, (text_eq_iff (lower m) (lower c)).0 e)
  | inr e ↦ ground (arith, e)
]
known_mode (some m) (some c) (some p) h =
    elim (either_false (lower m) (lower c) (lower p) (of_inr _ _ h)) [
      | inl e ↦ inl (c, refl, e)
      | inr e ↦ inr (p, refl, e)
    ]

module _ {N : Type 0} (num : Numbers N) where
  -- Numbers that compare equal, or whose difference is 0, are equal.
  pub record IsExact : Type 0 where
    pub same : (x y : N) → num.ne x y ≡ false → x ≡ y
    pub no_difference : (x y : N) → num.is_nonzero (num.sub x y) ≡ false → x ≡ y

  -- The bounds on processing units agree to two digits, where both modes are shared.
  abbrev pub HaveSameUnits : ProcConfig N → ProcConfig N → Type 0
  HaveSameUnits (shared s) (shared c) =
      (num.round2 s.max_units ≡ num.round2 (num.to_float c.max_units))
      × (num.round2 s.min_units ≡ num.round2 (num.to_float c.min_units))
  HaveSameUnits (shared _) (dedicated _) = Unit
  HaveSameUnits (dedicated _) _ = Unit

  same_units : IsExact → (p q : ProcConfig N) → is_units_changed num p q ≡ false → HaveSameUnits p q
  unfolding is_units_changed
  same_units e (shared s) (shared c) h = let (a, b) = or_false _ _ h in (e.same _ _ a, e.same _ _ b)
  same_units e (shared s) (dedicated c) h = tt
  same_units e (dedicated d) q h = tt

  -- A ratio that is asked for is the one that there is.
  abbrev pub IsKept : Option N → Option N → Type 0
  IsKept none cur = Unit
  IsKept (some r) cur = cur ≡ some r

  kept : IsExact → (r cur : Option N) → Mem.is_ratio_changed num r cur ≡ false → IsKept r cur
  kept e none cur h = tt
  kept e (some r) none h = ground arith
  kept e (some r) (some c) h = ap some (sym (e.same _ _ h))

  module _ (lpar : Partition N) (host : Host N) (cur : Partition N) where
    -- What the memory's validator and the processors' validator keep.
    pub record IsMemFrozen : Type 0 where
      pub max_mem : lpar.mem_config.max ≡ cur.mem_config.max
      pub min_mem : lpar.mem_config.min ≡ cur.mem_config.min
      pub exp_factor : lpar.mem_config.exp_factor ≡ cur.mem_config.exp_factor
      pub ppt_ratio : IsKept lpar.mem_config.ppt_ratio cur.mem_config.ppt_ratio

    pub record IsProcFrozen : Type 0 where
      pub max_procs : max_vcpus lpar.proc_config ≡ max_vcpus cur.proc_config
      pub min_procs : min_vcpus lpar.proc_config ≡ min_vcpus cur.proc_config
      pub units : HaveSameUnits lpar.proc_config cur.proc_config
      pub compat :
          IsKnownMode lpar.proc_compat_mode cur.proc_compat_mode cur.pending_proc_compat_mode
      pub mode : has_dedicated lpar.proc_config ≡ has_dedicated cur.proc_config

    mem_frozen : IsExact → Mem.validate_active_resize num lpar host cur ≡ none → IsMemFrozen
    unfolding Mem.validate_active_resize
    mem_frozen e h =
        let h1 = then_quiet _ _ h in
        let h2 = then_quiet _ _ h1 in
        let (max_eq, min_eq) = or_false _ _ (condition_false _ _ (first_quiet _ _ h)) in
        record {
          max_mem = e.same _ _ max_eq;
          min_mem = e.same _ _ min_eq;
          exp_factor = e.no_difference _ _ (condition_false _ _ (first_quiet _ _ h1));
          ppt_ratio = kept e _ _ (condition_false _ _ (first_quiet _ _ h2));
        }

    proc_frozen : IsExact → Proc.validate_active_resize num lpar host cur ≡ none → IsProcFrozen
    unfolding Proc.validate_active_resize
    proc_frozen e h =
        let h1 = then_quiet _ _ h in
        let h2 = then_quiet _ _ h1 in
        let h3 = then_quiet _ _ h2 in
        let (max_eq, min_eq) = or_false _ _ (condition_false _ _ (first_quiet _ _ h)) in
        record {
          max_procs = e.same _ _ max_eq;
          min_procs = e.same _ _ min_eq;
          units = same_units e _ _ (condition_false _ _ (first_quiet _ _ h1));
          compat = known_mode _ _ _ (raise_where_quiet _ _ (first_quiet _ _ h2));
          mode = same_bool _ _ (condition_false _ _ (first_quiet _ _ h3));
        }

    running_branch :
        (a b : Raised)
        → is_not_activated cur ≡ false
        → (if is_not_activated cur then a else b) ≡ none
        → b ≡ none
    running_branch a b running h = ground (arith, running)

    -- A resize that passes, of a partition that is activated, keeps the least and greatest memory
    -- and processors, the expansion factor, the processing mode, the least and greatest
    -- processing units to two digits where both modes are shared, a page table ratio that it
    -- names, and the remote restart flag unless the host can toggle it; a compatibility mode that
    -- it names is the current or the pending one but for the case. Numbers that compare equal, or
    -- whose difference is 0, are taken to be equal. Of the compatibility mode nothing more is kept: the
    -- pending one, which a resize sets, may be another.
    pub validate_all_frozen :
        IsExact
        → (check : Bool) → is_not_activated cur ≡ false
        → validate_all num lpar host (some cur) check ≡ none
        → IsMemFrozen
          × IsProcFrozen
          × ((cur.srr_enabled ≡ lpar.srr_enabled) ⊎ (host.dynamic_srr_capable ≡ true))
    unfolding Proc.validator Mem.validator validator All.validate_active_resize
    validate_all_frozen e check running h =
        let (p, m, c) = parts_quiet num lpar host (some cur) check h in
        (
          mem_frozen e (
              running_branch _ (Mem.validate_active_resize num lpar host cur) running
                (resize_quiet cur (Mem.validator num lpar host) check m).1),
          proc_frozen e (
              running_branch _ (Proc.validate_active_resize num lpar host cur) running
                (resize_quiet cur (Proc.validator num lpar host) check p).1),
          same_or_capable _ _ _ (
              condition_false _ _ (
                running_branch _ (All.validate_active_resize lpar host cur) running
                  (resize_quiet cur (validator lpar host) check c).1)),
        )
