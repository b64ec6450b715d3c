-- ===== src/ScsiMap/Added.antt =====
-- A mapping that was added is found again (pypowervm/tasks/scsi_mapper.py).
use mathlib.Core.Path.{subst}
use pypowervm.Prelude.{
  ℕ, suc, String, Bool, true, false, ◌&&◌, ◌||◌, Option, none, some, List, [], ◌∷◌, ◌++◌, length,
  ltb, lt→ltb, only, is_some, text_eq_iff, Bool-cases, inl, inr, ◌≡◌, refl, sym, ap, ◌∙◌, arith,
}
use pypowervm.Exec.{ok}
use pypowervm.Prelude.Keyed.{get}
use pypowervm.Href.{Url}
use pypowervm.ScsiMap.{
  ClientAdapter, Mapping, Vios, Storage, uuid, storing, LparId, Wanted, option_eq, udid_key,
  path_uuid, or_nil, is_to, is_found, match_func, find_maps, separate_mappings, clonable_map,
}
use pypowervm.ScsiMap.Build.{
  Request, is_nonempty, set_slot, set_target, with_adapter, bld_from_existing, bld, built_from,
  build_vscsi_mapping,
}
use pypowervm.ScsiMap.Rest.{Service, given, add_one}
use pypowervm.ScsiMap.Silos.{on_bus, separate_gathers, separate-IsDistinct}
use pypowervm.ScsiMap.Bus.{if_true, if_false, same_ok, clonable_get, only_head}

-- The storage element is attached, and the client has an adapter.
abbrev IsAttached : Storage → Mapping → Type 0
IsAttached stg m = (m.backing_storage ≡ some stg) × (is_some m.client_adapter ≡ true)

target-IsAttached :
    (r : Request) (stg : Storage) (m m' : Mapping)
    → IsAttached stg m
    → set_target r (some stg) m ≡ ok m'
    → IsAttached stg m'
target-IsAttached r stg m m' a h =
    let asked = is_nonempty r.lua || is_nonempty r.target_name in
    elim (Bool-cases asked) [
      | inl e ↦ subst (IsAttached stg) (same_ok _ m' (if_true asked _ _ _ e h)) (a.0, a.1)
      | inr e ↦ subst (IsAttached stg) (same_ok m m' (if_false asked _ _ _ e h)) a
    ]

clone-IsAttached :
    (r : Request) (stg : Storage) (c m : Mapping) (slot : Option ℕ) (ca : Option ClientAdapter)
    → is_some ca ≡ true
    → with_adapter (set_slot slot ca) c (some stg) r ≡ ok m
    → IsAttached stg m
unfolding with_adapter
clone-IsAttached r stg c m none (some ca) has h = target-IsAttached r stg _ m (refl, refl) h
clone-IsAttached r stg c m (some n) (some ca) has h = target-IsAttached r stg _ m (refl, refl) h
clone-IsAttached r stg c m none none has h = ground arith
clone-IsAttached r stg c m (some n) none has h = ground arith

and_true_left : (a b : Bool) → (a && b) ≡ true → a ≡ true
and_true_left a b h = ground arith

and_true_right : (a b : Bool) → (a && b) ≡ true → b ≡ true
and_true_right a b h = ground arith

module _ (fuse_limit : ℕ) (href : Url) (v : Vios) (stg : Storage) (r : Request) where
  abbrev silos : List (Option String × List Mapping)
  silos = separate_mappings (some href) [] v.scsi_mappings

  clonable_adapter :
      (c : Mapping) → clonable_map fuse_limit silos ≡ some c → is_some c.client_adapter ≡ true
  unfolding get
  clonable_adapter c chosen =
      let (k, ms, found, below) =
        clonable_get fuse_limit silos c (separate-IsDistinct href v.scsi_mappings [] tt) chosen in
      let gathered : only (on_bus href k) v.scsi_mappings ≡ c ∷ ms =
        sym (separate_gathers href k v.scsi_mappings []) ∙ ap or_nil found in
      and_true_right _ (is_some c.client_adapter) (
        and_true_left _ (option_eq c.server_adapter.udid k)
          (only_head (on_bus href k) v.scsi_mappings c ms gathered))

  built-IsAttached :
      (o : Option Mapping) (m : Mapping)
      → clonable_map fuse_limit silos ≡ o
      → built_from o href stg r ≡ ok m
      → IsAttached stg m
  unfolding built_from bld_from_existing bld
  built-IsAttached none m chosen built =
      subst (IsAttached stg) (same_ok (bld href stg r) m built) (refl, refl)
  built-IsAttached (some c) m chosen built =
      clone-IsAttached r stg c m r.lpar_slot_num c.client_adapter (clonable_adapter c chosen) built

found_itself :
    (lpar_uuid : String) (stg : Storage) (m : Mapping)
    → IsAttached stg m
    → path_uuid true m.client_lpar_href ≡ some lpar_uuid
    → is_some m.client_lpar_href ≡ true
    → is_found (some (uuid lpar_uuid)) (storing stg) false m ≡ true
unfolding is_found is_to match_func
found_itself lpar_uuid stg m a h p = rw a.1 (
    rw p (
      rw h (
        rw ((text_eq_iff lpar_uuid lpar_uuid).1 refl) (
          rw a.0 (
            rw ((text_eq_iff stg.schema_type stg.schema_type).1 refl)
              ((text_eq_iff stg.name stg.name).1 refl))))))

has_href : (h : Option Url) (u : String) → path_uuid true h ≡ some u → is_some h ≡ true
has_href none u h = ground arith
has_href (some href) u h = refl

found_last :
    (client : Option LparId) (wanted : Wanted) (ms : List Mapping) (m : Mapping)
    → is_found client wanted false m ≡ true
    → ltb 0 (length (find_maps client wanted false (ms ++ m ∷ []))) ≡ true
unfolding find_maps
found_last client wanted [] m h = rw h refl
found_last client wanted (x ∷ ms) m h = elim (Bool-cases (is_found client wanted false x)) [
  | inl e ↦
      rw e (lt→ltb 0 (suc (length (find_maps client wanted false (ms ++ m ∷ [])))) (omega arith))
  | inr e ↦ rw e (found_last client wanted ms m h)
]

-- Where the mapping that build_vscsi_mapping builds for a client has, in its href, the client's
-- UUID in the very case in which it is given, a second add_vscsi_mapping of the same storage for
-- that client to the wrapper that has the mapping returns the wrapper as it is and asks nothing of
-- the server, whatever its other arguments.
pub add_one-build_vscsi_mapping :
    {S X : Type 0} (svc : Service S X) (fuse_limit : ℕ) (lpar_uuid : String) (v : Vios)
    (stg : Storage) (r : Request) (m : Mapping)
    → build_vscsi_mapping fuse_limit (svc.lpar_href lpar_uuid) v stg r ≡ ok m
    → path_uuid true m.client_lpar_href ≡ some lpar_uuid
    → (fuse_limit' : ℕ) (r' : Request) (s : S)
    → add_one svc fuse_limit' lpar_uuid stg r'
        (given (record v { scsi_mappings = v.scsi_mappings ++ m ∷ [] }))
        s
      ≡ (ok (record v { scsi_mappings = v.scsi_mappings ++ m ∷ [] }), s)
unfolding add_one build_vscsi_mapping
add_one-build_vscsi_mapping svc fuse_limit lpar_uuid v stg r m built href fuse_limit' r' s =
    rw
      (found_last (some (uuid lpar_uuid)) (storing stg) v.scsi_mappings m (
        found_itself lpar_uuid stg m
          (built-IsAttached fuse_limit (svc.lpar_href lpar_uuid) v stg r
            (clonable_map fuse_limit (silos fuse_limit (svc.lpar_href lpar_uuid) v stg r)) m refl
            built)
          href (has_href m.client_lpar_href lpar_uuid href)))
      refl
