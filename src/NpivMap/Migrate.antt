-- ===== src/NpivMap/Migrate.antt =====
-- The virtual Fibre Channel mappings of a migration, per fabric and for groups of slots that stay
-- together (pypowervm/tasks/vfc_mapper.py).
use pypowervm.Prelude.{
  ℕ, String, ◌<>◌, Bool, true, false, not, ◌&&◌, ◌||◌, Option, none, some, List, [], ◌∷◌, ◌++◌,
  ◌==◌, ltb, length, only, nat_in, if◌then◌else◌,
}
use pypowervm.Exec.{Result, ok, err, hang}
use pypowervm.Exn.{decimal}
use pypowervm.NpivMap.{
  Port, Vios, Mapping, NpivError, unable_to_find_fc_port_map, attribute_error, find_ports_on_vio,
}
use pypowervm.NpivMap.Wwpns.{find_first, find_vios_for_wwpn}
use pypowervm.NpivMap.Maps.{derive_base_npiv_map}

-- A fabric's slots and the WWPNs of its physical ports.
pub record Fabric : Type 0 where
  pub slots : List ℕ
  pub p_port_wwpns : List String

abbrev pub FabricData : Type 0
FabricData = List (String × Fabric)

-- virtual-slot-number/vios-lpar-name/vios-lpar-ID//vios-fc-port-name
unfoldable pub migration_mapping : ℕ → Option (Vios × Port) → Result NpivError String
unfolding decimal
migration_mapping client_slot none = err attribute_error
migration_mapping client_slot (some (v, port)) = ok (
    decimal client_slot
    <> ("/" <> (v.vios_name <> ("/" <> (decimal v.vios_id <> ("//" <> port.name))))))

abbrev pub cons_result :
    {A : Type 0} → Result NpivError A → Result NpivError (List A) → Result NpivError (List A)
cons_result (ok a) (ok rest) = ok (a ∷ rest)
cons_result (ok a) (err e) = err e
cons_result (ok a) hang = hang
cons_result (err e) rest = err e
cons_result hang rest = hang

-- The loop over the NPIV map and the slots.
unfoldable pub zip_slots : List Vios → List Mapping → List ℕ → Result NpivError (List String)
unfolding migration_mapping find_vios_for_wwpn
zip_slots vios_wraps [] slots = ok []
zip_slots vios_wraps (m ∷ ms) [] = ok []
zip_slots vios_wraps (m ∷ ms) (s ∷ ss) =
    cons_result (migration_mapping s (find_vios_for_wwpn vios_wraps m.0))
      (zip_slots vios_wraps ms ss)

abbrev pub zip_derived :
    List Vios → List ℕ → Result NpivError (List Mapping) → Result NpivError (List String)
zip_derived vios_wraps slots (ok maps) = zip_slots vios_wraps maps slots
zip_derived vios_wraps slots (err e) = err e
zip_derived vios_wraps slots hang = hang

unfoldable pub build_migration_mappings_for_fabric :
    ℕ → List Vios → List String → List ℕ → Result NpivError (List String)
unfolding derive_base_npiv_map zip_slots
build_migration_mappings_for_fabric fuel vios_wraps p_port_wwpns client_slots =
    zip_derived vios_wraps client_slots
      (derive_base_npiv_map fuel vios_wraps p_port_wwpns (length client_slots))

-- _split_ports_per_fabric: a fabric with none of the slots is left out.
unfoldable pub split_ports_per_fabric : List ℕ → FabricData → FabricData
unfolding nat_in
split_ports_per_fabric slot_grouping [] = []
split_ports_per_fabric slot_grouping ((name, f) ∷ fs) =
    let rest = split_ports_per_fabric slot_grouping fs in
    elim (only (λ x. nat_in x slot_grouping) f.slots) [
      | [] ↦ rest
      | s ∷ ss ↦ (name, record { slots = s ∷ ss; p_port_wwpns = f.p_port_wwpns }) ∷ rest
    ]

-- _does_vios_support_split_map
unfoldable pub does_vios_support_split_map : Vios → FabricData → Bool
unfolding find_ports_on_vio
does_vios_support_split_map v [] = true
does_vios_support_split_map v ((name, f) ∷ fs) =
    if ltb (length (find_ports_on_vio v f.p_port_wwpns)) (length f.slots)
    then false
    else does_vios_support_split_map v fs

-- `sorted(slot_peers, key=len, reverse=True)`, which keeps the order of groups of one length.
unfoldable pub insert_group : List ℕ → List (List ℕ) → List (List ℕ)
insert_group g [] = g ∷ []
insert_group g (h ∷ hs) = if ltb (length g) (length h) then h ∷ insert_group g hs else g ∷ h ∷ hs

unfoldable pub sort_groups : List (List ℕ) → List (List ℕ)
unfolding insert_group
sort_groups [] = []
sort_groups (g ∷ gs) = insert_group g (sort_groups gs)

-- vios_to_split_map
abbrev pub Assigned : Type 0
Assigned = List (Vios × FabricData)

unfoldable pub is_assigned : Vios → Assigned → Bool
is_assigned v [] = false
is_assigned v ((w, sm) ∷ placed) = w.object == v.object || is_assigned v placed

unfoldable pub vios_for : List Vios → FabricData → Assigned → Option Vios
unfolding find_first is_assigned does_vios_support_split_map
vios_for vios_wraps split_map placed =
    find_first (λ v. not (is_assigned v placed) && does_vios_support_split_map v split_map)
      vios_wraps

-- The loop over the groups.
unfoldable pub assign_groups :
    List Vios → FabricData → Assigned → List (List ℕ) → Result NpivError Assigned
unfolding split_ports_per_fabric vios_for
assign_groups vios_wraps fabric_data placed [] = ok placed
assign_groups vios_wraps fabric_data placed (g ∷ gs) =
    let split_map = split_ports_per_fabric g fabric_data in
    elim (vios_for vios_wraps split_map placed) [
      | none ↦ err unable_to_find_fc_port_map
      | some v ↦ assign_groups vios_wraps fabric_data (placed ++ (v, split_map) ∷ []) gs
    ]

abbrev pub append_results :
    Result NpivError (List String) → Result NpivError (List String) → Result NpivError (List String)
append_results (ok xs) (ok ys) = ok (xs ++ ys)
append_results (ok xs) (err e) = err e
append_results (ok xs) hang = hang
append_results (err e) r = err e
append_results hang r = hang

-- The mappings of one VIOS.
unfoldable pub map_fabrics : ℕ → Vios → FabricData → Result NpivError (List String)
unfolding build_migration_mappings_for_fabric
map_fabrics fuel v [] = ok []
map_fabrics fuel v ((name, f) ∷ fs) =
    append_results (build_migration_mappings_for_fabric fuel (v ∷ []) f.p_port_wwpns f.slots)
      (map_fabrics fuel v fs)

unfoldable pub map_assigned : ℕ → Assigned → Result NpivError (List String)
unfolding map_fabrics
map_assigned fuel [] = ok []
map_assigned fuel ((v, split_map) ∷ placed) =
    append_results (map_fabrics fuel v split_map) (map_assigned fuel placed)

abbrev pub map_found : ℕ → Result NpivError Assigned → Result NpivError (List String)
map_found fuel (ok placed) = map_assigned fuel placed
map_found fuel (err e) = err e
map_found fuel hang = hang

unfoldable pub build_migration_mappings :
    ℕ → List Vios → FabricData → List (List ℕ) → Result NpivError (List String)
unfolding sort_groups assign_groups map_assigned
build_migration_mappings fuel vios_wraps fabric_data slot_peers =
    map_found fuel (assign_groups vios_wraps fabric_data [] (sort_groups slot_peers))
