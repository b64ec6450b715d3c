-- ===== src/ScsiMap/Bus.antt =====
-- The fuse limit of a bus (pypowervm/tasks/scsi_mapper.py).
use pypowervm.Prelude.{
  ℕ, ◌+◌, ◌≤◌, ◌<◌, String, Bool, true, false, ◌&&◌, ◌||◌, Option, none, some, List, [], ◌∷◌, ◌++◌,
  length, only, ltb, ltb→lt, Bool-cases, inl, inr, if◌then◌else◌, ◌≡◌, refl, sym, ap, ◌∙◌, arith,
}
use mathlib.Core.Path.{subst}
use pypowervm.Exec.{Result, ok, err, hang}
use pypowervm.Prelude.Keyed.{get, has_key, has_key-get, IsDistinct}
use pypowervm.Href.{Url}
use pypowervm.ScsiMap.{
  ClientAdapter, Mapping, Vios, Storage, option_eq, option_eq_iff, udid_key, or_nil,
  separate_mappings, clonable_map,
}
use pypowervm.ScsiMap.Build.{
  Request, BuildError, is_nonempty, built_from, with_adapter, set_slot, set_target, bld,
  bld_from_existing, build_vscsi_mapping,
}
use pypowervm.ScsiMap.Silos.{on_bus, separate_gathers, separate-IsDistinct}

get_past :
    (j k : Option String) (v w : List Mapping) (d : List (Option String × List Mapping))
    → has_key j d ≡ false
    → get k d ≡ some w
    → get k ((j, v) ∷ d) ≡ some w
unfolding get
get_past j k v w d fresh found = elim (Bool-cases (option_eq j k)) [
  | inl e ↦ ground (arith, has_key-get k d, found, fresh, (option_eq_iff j k).0 e)
  | inr e ↦ rw e found
]

pub if_true : {A : Type 0} (b : Bool) (p q r : A) → b ≡ true → (if b then p else q) ≡ r → p ≡ r
if_true true p q r e h = h
if_true false p q r e h = ground arith

pub if_false : {A : Type 0} (b : Bool) (p q r : A) → b ≡ false → (if b then p else q) ≡ r → q ≡ r
if_false true p q r e h = ground arith
if_false false p q r e h = h

or_this : Mapping → Option Mapping → Mapping
or_this x none = x
or_this x (some y) = y

same_some : (x y : Mapping) → some x ≡ some y → x ≡ y
unfolding or_this
same_some x y h = ap (or_this x) h

-- The mapping to clone is the first of a list below the limit, found under its key.
pub clonable_get :
    (fuse_limit : ℕ) (d : List (Option String × List Mapping)) (m : Mapping)
    → IsDistinct d
    → clonable_map fuse_limit d ≡ some m
    → (k : Option String) × (ms : List Mapping) × (get k d ≡ some (m ∷ ms))
      × (length (m ∷ ms) < fuse_limit)
unfolding clonable_map get
clonable_get fuse_limit [] m dist h = ground arith
clonable_get fuse_limit ((j, []) ∷ d) m dist h =
    let (k, ms, found, below) = clonable_get fuse_limit d m dist.1 h in
    (k, ms, get_past j k [] (m ∷ ms) d dist.0 found, below)
clonable_get fuse_limit ((j, x ∷ xs) ∷ d) m dist h =
    elim (Bool-cases (ltb (length (x ∷ xs)) fuse_limit)) [
      | inl e ↦ (
        j,
        xs,
        (rw ((option_eq_iff j j).1 refl) (
            ap (λ y. some (y ∷ xs))
              (same_some x m (if_true _ (some x) (clonable_map fuse_limit d) (some m) e h)))),
        ltb→lt (length (x ∷ xs)) fuse_limit e,
      )
      | inr e ↦
          (let (k, ms, found, below) =
              clonable_get fuse_limit d m dist.1
                (if_false _ (some x) (clonable_map fuse_limit d) (some m) e h) in
            (k, ms, get_past j k (x ∷ xs) (m ∷ ms) d dist.0 found, below))
    ]

or_ok : Mapping → Result BuildError Mapping → Mapping
or_ok m (ok x) = x
or_ok m _ = m

pub same_ok : (x y : Mapping) → ◌≡◌ {A = Result BuildError Mapping} (ok x) (ok y) → x ≡ y
unfolding or_ok
same_ok x y h = ap (or_ok x) h

set_target_server :
    (r : Request) (stg : Storage) (m m' : Mapping)
    → set_target r (some stg) m ≡ ok m'
    → m'.server_adapter ≡ m.server_adapter
set_target_server r stg m m' h =
    let asked = is_nonempty r.lua || is_nonempty r.target_name in
    elim (Bool-cases asked) [
      | inl e ↦ ap (λ x. x.server_adapter) (sym (same_ok _ m' (if_true asked _ _ _ e h)))
      | inr e ↦ ap (λ x. x.server_adapter) (sym (same_ok m m' (if_false asked _ _ _ e h)))
    ]

clone_server :
    (r : Request) (stg : Storage) (ca : Result BuildError (Option ClientAdapter)) (m m' : Mapping)
    → with_adapter ca m (some stg) r ≡ ok m'
    → m'.server_adapter ≡ m.server_adapter
unfolding with_adapter
clone_server r stg (ok ca) m m' h = set_target_server r stg _ m' h
clone_server r stg (err e) m m' h = ground arith
clone_server r stg hang m m' h = ground arith

first_or : Mapping → List Mapping → Mapping
first_or m [] = m
first_or m (x ∷ xs) = x

same_first : (x y : Mapping) (xs ys : List Mapping) → x ∷ xs ≡ y ∷ ys → x ≡ y
unfolding first_or
same_first x y xs ys h = ap (first_or x) h

pub only_head :
    (p : Mapping → Bool) (xs : List Mapping) (y : Mapping) (ys : List Mapping)
    → only p xs ≡ y ∷ ys
    → p y ≡ true
only_head p [] y ys h = ground arith
only_head p (x ∷ xs) y ys h = elim (Bool-cases (p x)) [
  | inl e ↦ rw (sym (same_first x y _ ys (if_true (p x) _ _ _ e h))) e
  | inr e ↦ only_head p xs y ys (if_false (p x) _ _ _ e h)
]

length-only_one :
    (p : Mapping → Bool) (xs : List Mapping) (m : Mapping)
    → length (only p (xs ++ m ∷ [])) ≡ length (only p xs) + (if p m then 1 else 0)
length-only_one p [] m = ground arith
length-only_one p (x ∷ xs) m = ground (arith, length-only_one p xs m)

and_true : (a b : Bool) → (a && b) ≡ true → b ≡ true
and_true a b h = ground arith

on_that_bus :
    (href : Url) (k : Option String) (m : Mapping)
    → on_bus href k m ≡ true
    → m.server_adapter.udid ≡ k
on_that_bus href k m h =
    (option_eq_iff m.server_adapter.udid k).0 (and_true _ (option_eq m.server_adapter.udid k) h)

module _ (fuse_limit : ℕ) (href : Url) (v : Vios) (stg : Storage) (r : Request) where
  silos : List (Option String × List Mapping)
  silos = separate_mappings (some href) [] v.scsi_mappings

  no_room :
      (u : String)
      → none ≡ some u
      → length (only (on_bus href (some u)) v.scsi_mappings) < fuse_limit
  no_room u h = ground arith

  -- The bus of the mapping that is cloned is below the limit.
  below_limit :
      (c : Mapping)
      → clonable_map fuse_limit silos ≡ some c
      → length (only (on_bus href c.server_adapter.udid) v.scsi_mappings) < fuse_limit
  unfolding silos get
  below_limit c chosen =
      let (k, ms, found, below) =
        clonable_get fuse_limit silos c (separate-IsDistinct href v.scsi_mappings [] tt) chosen in
      let gathered : only (on_bus href k) v.scsi_mappings ≡ c ∷ ms =
        sym (separate_gathers href k v.scsi_mappings []) ∙ ap or_nil found in
      let that : c.server_adapter.udid ≡ k =
        on_that_bus href k c (only_head (on_bus href k) v.scsi_mappings c ms gathered) in
      rw that (rw gathered below)

  room :
      (o : Option Mapping) (m : Mapping) (u : String)
      → clonable_map fuse_limit silos ≡ o
      → built_from o href stg r ≡ ok m
      → m.server_adapter.udid ≡ some u
      → length (only (on_bus href (some u)) v.scsi_mappings) < fuse_limit
  unfolding built_from bld_from_existing bld
  room none m u chosen built h =
      no_room u (ap (λ x. x.server_adapter.udid) (same_ok (bld href stg r) m built) ∙ h)
  room (some c) m u chosen built h =
      let same : m.server_adapter ≡ c.server_adapter =
        clone_server r stg (set_slot r.lpar_slot_num c.client_adapter) c m built in
      let that : c.server_adapter.udid ≡ some u = sym (ap (λ a. a.udid) same) ∙ h in
      subst (λ k. length (only (on_bus href k) v.scsi_mappings) < fuse_limit) that
        (below_limit c chosen)

  -- The mapping built for a storage element never puts more than `fuse_limit` mappings of the
  -- client on a bus that has a UDID and had no more than that.
  pub build_vscsi_mapping-fuse_limit :
      (m : Mapping) (u : String)
      → build_vscsi_mapping fuse_limit href v stg r ≡ ok m
      → length (only (on_bus href (some u)) v.scsi_mappings) ≤ fuse_limit
      → length (only (on_bus href (some u)) (v.scsi_mappings ++ m ∷ [])) ≤ fuse_limit
  unfolding build_vscsi_mapping silos
  build_vscsi_mapping-fuse_limit m u built before = elim (Bool-cases (on_bus href (some u) m)) [
    | inl e ↦ rw (length-only_one (on_bus href (some u)) v.scsi_mappings m) (
        rw e (
          omega (
            arith,
            room (clonable_map fuse_limit silos) m u refl built (on_that_bus href (some u) m e),
          )))
    | inr e ↦
        rw (length-only_one (on_bus href (some u)) v.scsi_mappings m) (rw e (omega (arith, before)))
  ]
