-- ===== src/ScsiMap/Examples.antt =====
-- A Virtual I/O Server with three mappings (pypowervm/tasks/scsi_mapper.py).
use pypowervm.Prelude.{
  ℕ, ◌+◌, ◌≤◌, String, true, false, none, some, [], ◌∷◌, ◌++◌, length, only, ◌≡◌, refl, text_eq,
  arith,
}
use pypowervm.Prelude.Keyed.{text_key, get}
use pypowervm.Exec.{ok}
use pypowervm.Sanitize.{lower}
use pypowervm.Href.{Url, get_req_path_uuid, is_uuid}
use pypowervm.ScsiMap.{
  Storage, lu, pv, StgClass, Mapping, Vios, short, matching, or_nil, gen_match_func, by_name,
  is_found, separate_mappings, clonable_map,
}
use pypowervm.ScsiMap.Index.{index_mappings, str, storage_udid, lpar_uuid, lpar_id_text}
use pypowervm.ScsiMap.Indexed.{index_mappings_lem}
use pypowervm.ScsiMap.Build.{
  Request, built_from, bld_from_existing, with_adapter, build_vscsi_mapping,
}
use pypowervm.ScsiMap.Ops.{remove_maps}
use pypowervm.ScsiMap.Remove.{remove_maps_lem}
use pypowervm.ScsiMap.Silos.{on_bus}
use pypowervm.ScsiMap.Rest.{Service, given, add_one}
use pypowervm.ScsiMap.Added.{add_one-build_vscsi_mapping}
use pypowervm.ScsiMap.Bus.{build_vscsi_mapping-fuse_limit}

abbrev client_url : Url
client_url = record {
  path = "rest" ∷ "LogicalPartition" ∷ "0a1b2c3d-0000-1111-2222-0123456789ab" ∷ [];
}

abbrev disk : StgClass → String → Storage
disk cls name = record {
  cls = cls;
  schema_type = "PhysicalVolume";
  name = name;
  media_name = name;
  udid = some name;
}

abbrev mapping : ℕ → ℕ → String → Storage → Mapping
mapping element lpar_id udid stg = record {
  element = element;
  client_lpar_href = some client_url;
  client_adapter = some (record { slot = some 4; use_next_slot = false });
  server_adapter = record { lpar_id = some lpar_id; udid = some udid };
  backing_storage = some stg;
  target_dev = none;
}

abbrev server : Vios
server = record {
  uuid = "vios";
  scsi_mappings =
      mapping 0 5 "bus1" (disk pv "hdisk1")
      ∷ mapping 1 6 "bus2" (disk lu "lu1")
      ∷ mapping 2 5 "bus1" (disk lu "lu2")
      ∷ [];
}

remove_maps_lem_example :
    remove_maps server (some (short 5)) (matching (gen_match_func lu by_name [] [] [])) true ≡ (
      mapping 2 5 "bus1" (disk lu "lu2") ∷ [],
      record server {
        scsi_mappings =
            mapping 0 5 "bus1" (disk pv "hdisk1") ∷ mapping 1 6 "bus2" (disk lu "lu1") ∷ [];
      },
    )
unfolding is_found gen_match_func
remove_maps_lem_example =
    remove_maps_lem (some (short 5)) (matching (gen_match_func lu by_name [] [] [])) true server
      (refl, (refl, (refl, tt)))

index_mappings_lem_example :
    (or_nil (get "5" (index_mappings server.scsi_mappings).by_lpar_uuid)
      ≡ only (λ m. text_eq (str (lpar_uuid m)) "5") server.scsi_mappings)
    × (or_nil (get "5" (index_mappings server.scsi_mappings).by_lpar_id)
        ≡ only (λ m. text_eq (str (lpar_id_text m)) "5") server.scsi_mappings)
    × (or_nil (get "5" (index_mappings server.scsi_mappings).by_storage_udid)
        ≡ only (λ m. text_eq (str (storage_udid m.backing_storage)) "5") server.scsi_mappings)
index_mappings_lem_example = index_mappings_lem "5" server.scsi_mappings refl

abbrev asked : Request
asked = record { lpar_slot_num = none; lua = none; target_name = none; element = 9 }

-- With a limit of 2, bus1 is full and the mapping is put on bus2.
build_vscsi_mapping-fuse_limit_example :
    length (
      only
        (on_bus client_url (some "bus2"))
        (server.scsi_mappings ++ mapping 9 6 "bus2" (disk pv "hdisk3") ∷ []))
    ≤ 2
unfolding build_vscsi_mapping built_from bld_from_existing with_adapter separate_mappings
    clonable_map get_req_path_uuid is_uuid lower get
build_vscsi_mapping-fuse_limit_example =
    build_vscsi_mapping-fuse_limit 2 client_url server (disk pv "hdisk3") asked
      (mapping 9 6 "bus2" (disk pv "hdisk3")) "bus2" refl (omega arith)

-- A server whose state is the number of updates.
abbrev counter : Service ℕ (Unit {0})
counter = record {
  read = λ u s. (ok server, s);
  update = λ v s. (ok v, s + 1);
  sleep = λ t n s. (ok tt, s);
  acquire = λ s. (ok tt, s);
  release = λ s. s;
  lpar_href = λ u. client_url;
}

abbrev extended : Vios
extended = record server {
  scsi_mappings = server.scsi_mappings ++ mapping 9 6 "bus2" (disk pv "hdisk3") ∷ [];
}

add_one-build_vscsi_mapping_example :
    add_one counter 32 "0a1b2c3d-0000-1111-2222-0123456789ab"
      (disk pv "hdisk3")
      asked
      (given extended)
      0
    ≡ (ok extended, 0)
unfolding build_vscsi_mapping built_from bld_from_existing with_adapter separate_mappings
    clonable_map get_req_path_uuid is_uuid lower get
add_one-build_vscsi_mapping_example =
    add_one-build_vscsi_mapping counter 2 "0a1b2c3d-0000-1111-2222-0123456789ab" server
      (disk pv "hdisk3") asked (mapping 9 6 "bus2" (disk pv "hdisk3")) refl refl 32 asked 0
