-- ===== src/ScsiMap/Ops.antt =====
-- Adding, removing, detaching and replacing virtual SCSI mappings (pypowervm/tasks/scsi_mapper.py).
use pypowervm.Prelude.{
  ℕ, ◌+◌, ◌==◌, ltb, length, String, Bool, true, false, not, ◌&&◌, Option, none, some, List, [],
  ◌∷◌, ◌++◌, if◌then◌else◌,
}
use pypowervm.Exec.{ok}
use pypowervm.ScsiMap.{
  Storage, Mapping, Vios, LparId, uuid, everything, storing, Wanted, find_maps, path_uuid,
}
use pypowervm.ScsiMap.Build.{bld_from_existing}

-- `scsi_mappings.remove(m)`, which goes by the identity of the element.
unfoldable pub remove_map : Mapping → List Mapping → List Mapping
remove_map m [] = []
remove_map m (x ∷ xs) =
    let rest = remove_map m xs in if x.element == m.element then xs else x ∷ rest

unfoldable pub remove_each : List Mapping → List Mapping → List Mapping
unfolding remove_map
remove_each [] ms = ms
remove_each (f ∷ fs) ms = remove_each fs (remove_map f ms)

-- The mappings removed and the wrapper without them.
unfoldable pub remove_maps : Vios → Option LparId → Wanted → Bool → List Mapping × Vios
unfolding find_maps remove_each
remove_maps v client_lpar_id wanted include_orphans =
    let found = find_maps client_lpar_id wanted include_orphans v.scsi_mappings in
    (found, record v { scsi_mappings = remove_each found v.scsi_mappings })

-- The search that stg_elem and client_lpar_id stand for, where None is no restriction.
abbrev to_wanted : Option Storage → Wanted
to_wanted none = everything
to_wanted (some s) = storing s

abbrev to_client : Option String → Option LparId
to_client none = none
to_client (some u) = some (uuid u)

-- The mapping added, or none where one to the same client for the same storage is there.
unfoldable pub add_map : Vios → Mapping → Bool → Option Mapping × Vios
unfolding find_maps
add_map v m attach_vopt =
    let existing =
      find_maps (to_client (path_uuid true m.client_lpar_href)) (to_wanted m.backing_storage) false
        v.scsi_mappings in
    if ltb 0 (length existing) && not attach_vopt
    then (none, v)
    else (some m, record v { scsi_mappings = v.scsi_mappings ++ m ∷ [] })

-- Every mapping that is found is replaced by its like without storage, at the end. The new elements
-- have the identities from `next` on.
abbrev detach_each : ℕ → List Mapping → List Mapping → List Mapping
detach_each next [] ms = ms
detach_each next (f ∷ fs) ms = detach_each (next + 1) fs (
    remove_map f ms
    ++ elim (bld_from_existing f none
        (record { lpar_slot_num = none; lua = none; target_name = none; element = next })) [
          | ok m ↦ m ∷ []
          | _ ↦ []
        ])

-- The mappings that were found, as they were, and the wrapper.
unfoldable pub detach_storage : ℕ → Vios → Option LparId → Wanted → List Mapping × Vios
unfolding find_maps remove_map bld_from_existing
detach_storage next v client_lpar_id wanted =
    let found = find_maps client_lpar_id wanted true v.scsi_mappings in
    (found, record v { scsi_mappings = detach_each next found v.scsi_mappings })
