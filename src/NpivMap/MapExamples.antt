-- ===== src/NpivMap/MapExamples.antt =====
-- Two VIOSes with virtual Fibre Channel mappings, and runs of the operations on them
-- (pypowervm/tasks/vfc_mapper.py).
use pypowervm.Prelude.{
  ℕ, ◌≡◌, ◌≢◌, ◌⊎◌, refl, true, false, none, some, List, [], ◌∷◌, ◌++◌, is_in, All, arith,
}
use pypowervm.Prelude.Keyed.{get, put}
use pypowervm.Exec.{ok, err, hang}
use pypowervm.Exn.{decimal}
use pypowervm.Href.{Url, get_req_path_uuid}
use pypowervm.Sanitize.{sanitize_wwpn_for_api, upper_char}
use pypowervm.ScsiMap.{uuid}
use pypowervm.NpivMap.{
  VfcMapping, Vios, Mapping, NpivError, fuse_vfc_ports, derive_npiv_map, derive_loop,
  find_ports_on_vio, ports_in, find_map_port, port_dict, count_uses, used, least_used,
  most_available,
}
use pypowervm.NpivMap.Wwpns.{
  words, split_at, sanitized, all_in, same_wwpns, find_first, first_vios, find_vios_for_wwpn,
  has_client_wwpns,
}
use pypowervm.NpivMap.Maps.{
  back_existing, back_first, append_map, bld, add_or_back, add_map, remove_maps, sort_out, detect,
  derive_map, markers, derive_base_npiv_map,
}
use pypowervm.NpivMap.Migrate.{
  FabricData, migration_mapping, zip_slots, build_migration_mappings_for_fabric,
  split_ports_per_fabric, does_vios_support_split_map, insert_group, sort_groups, is_assigned,
  vios_for, assign_groups, map_fabrics, map_assigned, build_migration_mappings,
}
use pypowervm.NpivMap.Derive.{fused_of, AreNew, IsReasonFor, IsBlocked}
use pypowervm.NpivMap.Added.{add_map_twice}
use pypowervm.NpivMap.Undone.{remove_maps-add_map}
use pypowervm.NpivMap.Preserved.{IsKept, new_pairs, backed_pairs, derive_map_lem}
use pypowervm.NpivMap.Finite.{build_migration_mappings_ends}

abbrev lpar : Url
lpar = record { path = "rest" ∷ "LogicalPartition" ∷ "089FFB20-5D19-4A8C-BB80-13650627D985" ∷ [] }

-- A mapping that is backed and one that is stale.
abbrev vios_1 : Vios
vios_1 = record {
  object = 1;
  vios_name = "vios1";
  vios_id = 2;
  vios_href = "href1";
  pfc_ports =
      record { wwpn = "aa:01"; name = "fcs0"; npiv_available_ports = 3 }
      ∷ record { wwpn = "AA02"; name = "fcs1"; npiv_available_ports = 9 }
      ∷ [];
  vfc_mappings =
      record {
        element = 1;
        client_lpar_href = some lpar;
        client_adapter = some (record { wwpns = "C001" ∷ "C002" ∷ []; slot = some 3 });
        lpar_id = some 5;
        backing_port = some (record { port_name = "fcs0"; port_wwpn = some "AA01" });
      }
      ∷ record {
        element = 2;
        client_lpar_href = some lpar;
        client_adapter = some (record { wwpns = "C003" ∷ "C004" ∷ []; slot = some 4 });
        lpar_id = some 5;
        backing_port = none;
      }
      ∷ [];
}

abbrev vios_2 : Vios
vios_2 = record {
  object = 2;
  vios_name = "vios2";
  vios_id = 3;
  vios_href = "href2";
  pfc_ports = record { wwpn = "BB01"; name = "fcs0"; npiv_available_ports = 5 } ∷ [];
  vfc_mappings = [];
}

abbrev vioses : List Vios
vioses = vios_1 ∷ vios_2 ∷ []

-- The first pair is kept, the second has a stale mapping and gets none, and the third is new.
derive_run :
    derive_map 10 vioses
      ("AA01" ∷ "aa02" ∷ "BB01" ∷ [])
      ("c0:01" ∷ "C002" ∷ "C003" ∷ "C004" ∷ "C005" ∷ "C006" ∷ [])
      true
    ≡ ok (("AA02", "C005 C006") ∷ ("AA01", "C001 C002") ∷ [])
unfolding derive_map detect sort_out has_client_wwpns same_wwpns all_in is_in sanitized split_at
    find_first first_vios fuse_vfc_ports derive_npiv_map derive_loop find_ports_on_vio ports_in
    find_map_port port_dict count_uses used least_used most_available get put sanitize_wwpn_for_api
    upper_char
derive_run = refl

derive_map_lem_example :
    ((e : NpivError) × (existing : List Mapping) × IsReasonFor vioses
        (sanitized ("AA01" ∷ []))
        existing
        e
      × (fused_of existing
          ≡ backed_pairs vioses (fuse_vfc_ports ("C001" ∷ "C002" ∷ "C005" ∷ "C006" ∷ [])))
      × All (IsKept vioses) existing
      × IsBlocked vioses
          (sanitized ("AA01" ∷ []))
          existing
          []
          (new_pairs vioses (fuse_vfc_ports ("C001" ∷ "C002" ∷ "C005" ∷ "C006" ∷ [])))
      × (derive_map 9 vioses ("AA01" ∷ []) ("C001" ∷ "C002" ∷ "C005" ∷ "C006" ∷ []) true ≡ err e))
    ⊎ ((new existing : List Mapping) × AreNew vioses
          (sanitized ("AA01" ∷ []))
          existing
          (new_pairs vioses (fuse_vfc_ports ("C001" ∷ "C002" ∷ "C005" ∷ "C006" ∷ [])))
          new
        × (fused_of existing
            ≡ backed_pairs vioses (fuse_vfc_ports ("C001" ∷ "C002" ∷ "C005" ∷ "C006" ∷ [])))
        × All (IsKept vioses) existing
        × (derive_map 9 vioses ("AA01" ∷ []) ("C001" ∷ "C002" ∷ "C005" ∷ "C006" ∷ []) true
            ≡ ok (new ++ existing)))
unfolding has_client_wwpns same_wwpns all_in is_in sanitized split_at find_first first_vios
    fuse_vfc_ports sanitize_wwpn_for_api upper_char
derive_map_lem_example =
    derive_map_lem vioses 9 ("AA01" ∷ []) ("C001" ∷ "C002" ∷ "C005" ∷ "C006" ∷ []) (omega arith)

abbrev new_map : VfcMapping
new_map = record {
  element = 7;
  client_lpar_href = some lpar;
  client_adapter = some (record { wwpns = "C007" ∷ "C008" ∷ []; slot = none });
  lpar_id = none;
  backing_port = some (record { port_name = "fcs1"; port_wwpn = none });
}

abbrev vios_1_with : Vios
vios_1_with = record vios_1 { vfc_mappings = vios_1.vfc_mappings ++ new_map ∷ [] }

add_map_run :
    add_map 7 lpar vios_1 ("AA02", "c007 C0:08") true none ≡ ok (some new_map, vios_1_with)
unfolding add_map add_or_back append_map bld back_existing back_first find_vios_for_wwpn same_wwpns
    all_in is_in words split_at sanitized find_first first_vios sanitize_wwpn_for_api upper_char
add_map_run = refl

add_map_twice_example :
    add_map 8 lpar vios_1_with ("AA02", "c007 C0:08") false (some 9) ≡ ok (none, vios_1_with)
unfolding words split_at sanitized sanitize_wwpn_for_api upper_char
add_map_twice_example =
    add_map_twice 7 8 lpar lpar vios_1 vios_1_with "AA02" "c007 C0:08" "C007" ("C008" ∷ []) none
      (some 9) new_map true false refl add_map_run

remove_maps-add_map_example :
    remove_maps vios_1_with
      (uuid "089FFB20-5D19-4A8C-BB80-13650627D985")
      none
      (some ("AA02", "c007 C0:08"))
    ≡ (new_map ∷ [], vios_1)
unfolding words split_at sanitized sanitize_wwpn_for_api upper_char same_wwpns all_in is_in
    get_req_path_uuid
remove_maps-add_map_example =
    remove_maps-add_map 7 lpar "089FFB20-5D19-4A8C-BB80-13650627D985" "AA02" "c007 C0:08" "C007"
      ("C008" ∷ []) vios_1 vios_1_with new_map true none refl refl refl (refl, (refl, tt))
      (omega arith) add_map_run

add_map_no_port : add_map 7 lpar vios_2 ("AA01", "-1 -1") false none ≡ ok (none, vios_2)
unfolding add_map find_vios_for_wwpn find_first first_vios sanitize_wwpn_for_api upper_char
add_map_no_port = refl

abbrev fabric_data : FabricData
fabric_data =
    ("A", record { slots = 3 ∷ 4 ∷ []; p_port_wwpns = "AA01" ∷ "BB01" ∷ [] })
    ∷ ("B", record { slots = 6 ∷ []; p_port_wwpns = "AA02" ∷ [] })
    ∷ []

abbrev slot_peers : List (List ℕ)
slot_peers = (4 ∷ []) ∷ (3 ∷ 6 ∷ []) ∷ []

migration_run :
    build_migration_mappings 10 vioses fabric_data slot_peers
    ≡ ok ("3/vios1/2//fcs0" ∷ "6/vios1/2//fcs1" ∷ "4/vios2/3//fcs0" ∷ [])
unfolding build_migration_mappings sort_groups insert_group assign_groups vios_for is_assigned
    split_ports_per_fabric does_vios_support_split_map map_assigned map_fabrics
    build_migration_mappings_for_fabric zip_slots migration_mapping decimal derive_base_npiv_map
    markers derive_map detect sort_out has_client_wwpns find_vios_for_wwpn same_wwpns all_in is_in
    sanitized split_at find_first first_vios fuse_vfc_ports derive_npiv_map derive_loop
    find_ports_on_vio ports_in find_map_port port_dict count_uses used least_used most_available get
    put sanitize_wwpn_for_api upper_char
migration_run = refl

build_migration_mappings_ends_example :
    build_migration_mappings 6 vioses fabric_data slot_peers ≢ hang
build_migration_mappings_ends_example =
    build_migration_mappings_ends 6 vioses fabric_data slot_peers (omega arith)
