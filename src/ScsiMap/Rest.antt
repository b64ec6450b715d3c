-- ===== src/ScsiMap/Rest.antt =====
-- The operations on virtual SCSI mappings that update the Virtual I/O Server, under their lock and
-- retried (pypowervm/tasks/scsi_mapper.py).
use pypowervm.Prelude.{
  ℕ, text_eq, ◌==◌, ltb, length, String, Bool, true, false, Option, none, some, List, [], ◌∷◌, ◌++◌,
  if◌then◌else◌,
}
use pypowervm.Exec.{Result, ok, err, hang, Exec, pure, raise, ◌>>=◌}
use pypowervm.Retry.{Exn, other, Options, dft_retry_codes, retry}
use pypowervm.Href.{Url}
use pypowervm.ScsiMap.{
  Storage, Mapping, Vios, LparId, uuid, StgClass, v_opt_media, pv, by_name, by_media_name,
  gen_match_func, matching, storing, find_maps,
}
use pypowervm.ScsiMap.Build.{BuildError, Request, build_vscsi_mapping}
use pypowervm.ScsiMap.Ops.{remove_maps}

-- What else than an HttpError is raised here, X being what the server raises.
pub data Fault (X : Type 0) : Type 0 where
  build_error : BuildError → Fault X
  single_mapping_not_found : ℕ → Fault X
  storage_map_exists : String → Fault X
  foreign : X → Fault X

pub record Service (S X : Type 0) : Type 0 where
  -- VIOS.get and VIOS.wrap(adapter.read(..)) of a UUID
  pub read : String → Exec S (Exn (Fault X)) Vios
  pub update : Vios → Exec S (Exn (Fault X)) Vios
  -- STEPPED_RANDOM_DELAY
  pub sleep : ℕ → ℕ → Exec S (Exn (Fault X)) (Unit {0})
  -- what lock.synchronized('vscsi_mapping') does before and after the call
  pub acquire : Exec S (Exn (Fault X)) (Unit {0})
  pub release : S → S
  -- VSCSIMapping.crt_related_href for the UUID of an LPAR
  pub lpar_href : String → Url

-- The argument `vios`.
pub data Source : Type 0 where
  given : Vios → Source
  by_uuid : String → Source

-- `_argmod`
abbrev pub argmod : Source → Source
argmod (given v) = by_uuid v.uuid
argmod (by_uuid u) = by_uuid u

abbrev pub storages : List Mapping → List Storage
storages [] = []
storages (m ∷ ms) = elim m.backing_storage [ none ↦ storages ms | some s ↦ s ∷ storages ms ]

-- The storage of the mapping with the given element is replaced.
unfoldable pub set_storage : ℕ → Storage → List Mapping → List Mapping
set_storage e s [] = []
set_storage e s (m ∷ ms) =
    let rest = set_storage e s ms in
    (if m.element == e then record m { backing_storage = some s } else m) ∷ rest

abbrev to_list : Option String → List String
to_list none = []
to_list (some s) = if text_eq s "" then [] else s ∷ []

module _ {S X : Type 0} (svc : Service S X) where
  unfoldable pub vios_of : Source → Exec S (Exn (Fault X)) Vios
  vios_of (given v) = pure v
  vios_of (by_uuid u) = svc.read u

  -- the arguments of the retry decorator
  unfoldable pub retry_options : {A : Type 0} → Options S Source A (Fault X)
  retry_options = record {
    tries = 60;
    delay_func = λ t n a. svc.sleep t n;
    retry_except = none;
    http_codes = some dft_retry_codes;
    test_func = none;
    resp_checker = none;
    limit_except = none;
    argmod_func = λ t n a. pure (argmod a);
  }

  -- lock.synchronized around retry
  unfoldable pub decorated :
      {A : Type 0}
      → (Source → Exec S (Exn (Fault X)) A)
      → Source
      → Exec S (Exn (Fault X)) (Option A)
  unfolding retry retry_options
  decorated func src =
      svc.acquire >>= λ _ s. let (r, t) = retry retry_options func src s in (r, svc.release t)

  -- The mapping that was built is appended and the wrapper updated.
  abbrev pub add_built : Vios → Result BuildError Mapping → Exec S (Exn (Fault X)) Vios
  add_built v (ok m) = svc.update (record v { scsi_mappings = v.scsi_mappings ++ m ∷ [] })
  add_built v (err e) = raise (other (build_error e))
  add_built v hang = λ s. (hang, s)

  -- One try of add_vscsi_mapping.
  unfoldable pub add_one : ℕ → String → Storage → Request → Source → Exec S (Exn (Fault X)) Vios
  unfolding vios_of find_maps build_vscsi_mapping
  add_one fuse_limit lpar_uuid stg r src = do
    v ← vios_of src
    let existing = find_maps (some (uuid lpar_uuid)) (storing stg) false v.scsi_mappings in
        if ltb 0 (length existing)
        then pure v
        else add_built v (build_vscsi_mapping fuse_limit (svc.lpar_href lpar_uuid) v stg r)

  unfoldable pub add_vscsi_mapping :
      ℕ → String → Storage → Request → Source → Exec S (Exn (Fault X)) (Option Vios)
  unfolding decorated add_one
  add_vscsi_mapping fuse_limit lpar_uuid stg r = decorated (add_one fuse_limit lpar_uuid stg r)

  -- What is done with the mappings found for the old media and the number found for the new.
  unfoldable pub remap : Vios → Storage → List Mapping → ℕ → Exec S (Exn (Fault X)) (Vios × Mapping)
  unfolding set_storage
  remap v new_media [] n = raise (other (single_mapping_not_found 0))
  remap v new_media (m ∷ m' ∷ ms) n =
      raise (other (single_mapping_not_found (length (m ∷ m' ∷ ms))))
  remap v new_media (m ∷ []) n =
      if ltb 0 n then raise (other (storage_map_exists new_media.name)) else do
        v' ←
            svc.update
              (record v { scsi_mappings = set_storage m.element new_media v.scsi_mappings })
        pure (v', record m { backing_storage = some new_media })

  -- One try of _modify_storage_elem.
  unfoldable pub modify_one :
      LparId → (Option Storage → Bool) → Storage → Source → Exec S (Exn (Fault X)) (Vios × Mapping)
  unfolding vios_of find_maps remap gen_match_func
  modify_one client_lpar_id match_func new_media src = do
    v ← vios_of src
    remap v new_media (find_maps (some client_lpar_id) (matching match_func) true v.scsi_mappings) (
        length (
          find_maps (some client_lpar_id)
            (matching (gen_match_func v_opt_media by_name (new_media.name ∷ []) [] [])) false
            v.scsi_mappings))

  -- One try of _remove_storage_elem.
  unfoldable pub remove_one :
      LparId → (Option Storage → Bool) → Source → Exec S (Exn (Fault X)) (Vios × List Storage)
  unfolding vios_of remove_maps
  remove_one client_lpar_id match_func src = do
    v ← vios_of src
    let (found, v') = remove_maps v (some client_lpar_id) (matching match_func) true in
        if ltb 0 (length found)
        then (svc.update v' >>= λ w. pure (w, storages found))
        else pure (v', [])

  unfoldable pub modify_vopt_mapping :
      LparId
      → Storage
      → Option String
      → Option String
      → Source
      → Exec S (Exn (Fault X)) (Option (Vios × Mapping))
  unfolding decorated modify_one gen_match_func
  modify_vopt_mapping client_lpar_id new_media media_name udid = decorated (
      modify_one client_lpar_id
        (gen_match_func v_opt_media by_media_name (to_list media_name) [] (to_list udid)) new_media)

  unfoldable pub remove_vopt_mapping :
      LparId
      → Option String
      → Option String
      → Source
      → Exec S (Exn (Fault X)) (Option (Vios × List Storage))
  unfolding decorated remove_one gen_match_func
  remove_vopt_mapping client_lpar_id media_name udid = decorated (
      remove_one client_lpar_id
        (gen_match_func v_opt_media by_media_name (to_list media_name) [] (to_list udid)))

  -- remove_vdisk_mapping and remove_lu_mapping are this for their class.
  unfoldable pub remove_disk_mapping :
      StgClass
      → LparId
      → List String
      → List String
      → List String
      → Source
      → Exec S (Exn (Fault X)) (Option (Vios × List Storage))
  unfolding decorated remove_one gen_match_func
  remove_disk_mapping cls client_lpar_id disk_names disk_prefixes udids =
      decorated
        (remove_one client_lpar_id (gen_match_func cls by_name disk_names disk_prefixes udids))

  unfoldable pub remove_pv_mapping :
      LparId
      → Option String
      → Option String
      → Source
      → Exec S (Exn (Fault X)) (Option (Vios × List Storage))
  unfolding decorated remove_one gen_match_func
  remove_pv_mapping client_lpar_id backing_dev udid = decorated (
      remove_one client_lpar_id (gen_match_func pv by_name (to_list backing_dev) [] (to_list udid)))
