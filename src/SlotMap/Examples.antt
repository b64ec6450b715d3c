-- ===== src/SlotMap/Examples.antt =====
-- Concrete stores, build maps and rebuilds (pypowervm/tasks/slot_map.py).
use pypowervm.Prelude.{
  ℕ, ◌≡◌, refl, String, true, false, none, some, List, [], ◌∷◌, arith, is_in, text_eq, text_eq_iff,
  ◌&&◌,
}
use pypowervm.Prelude.Keyed.{get, put, text_key, nat_key}
use pypowervm.Exec.{ok}
use pypowervm.SlotMap.{
  no_spec, text_spec, list_spec, Topology, Classes, SlotTopo, reg_topo, drop_topo, vfc, cna, pv,
}
use pypowervm.SlotMap.Register.{spec_at, IsCompact, drop_topo-reg_topo, reg_topo-IsCompact}
use pypowervm.SlotMap.Build.{BuildMap}
use pypowervm.SlotMap.Vscsi.{VolToVio, slot_info, build_slot, elems}
use pypowervm.SlotMap.Rebuild.{put_fabrics}
use pypowervm.SlotMap.Choice.{sees_all, IsClassPlaced, has_udid, slot_at, build_slot_places}
use pypowervm.SlotMap.{Store, new}
use pypowervm.SlotMap.Save.{load, save}
use pypowervm.SlotMap.Saved.{load-save, IsSynced}
use pypowervm.Prelude.Keyed.{get-put}
use pypowervm.Prelude.{Option}
use pypowervm.SlotMap.{lu, vdisk}

abbrev disks : Classes
disks = (pv, ("udid1", text_spec "lua1") ∷ ("udid2", text_spec "lua2") ∷ []) ∷ []

abbrev topo : Topology
topo =
    (3, (cna, ("AABB", text_spec "ETHERNET0") ∷ []) ∷ [])
    ∷ (4, disks)
    ∷ (6, (vfc, ("fabA", list_spec ("w1" ∷ "w2" ∷ [])) ∷ []) ∷ [])
    ∷ (70, (vfc, ("fabA", no_spec) ∷ ("fabB", no_spec) ∷ []) ∷ [])
    ∷ []

abbrev single : Topology
single = (3, (cna, ("AABB", text_spec "ETHERNET0") ∷ []) ∷ []) ∷ []

single-IsCompact : IsCompact (reg_topo cna "AABB" 3 (text_spec "ETHERNET0") [])
single-IsCompact = reg_topo-IsCompact cna "AABB" 3 (text_spec "ETHERNET0") [] (record {
  full_slots = λ j e. unfold get in ground (arith, e);
  full_classes = λ j cs c g e. unfold get in ground (arith, g);
})

drop_topo-reg_topo_example :
    drop_topo pv "udid1" 3
      (reg_topo pv "udid1" 3 (text_spec "lua") (reg_topo cna "AABB" 3 (text_spec "ETHERNET0") []))
    ≡ reg_topo cna "AABB" 3 (text_spec "ETHERNET0") []
drop_topo-reg_topo_example =
    drop_topo-reg_topo pv "udid1" 3 (text_spec "lua")
      (reg_topo cna "AABB" 3 (text_spec "ETHERNET0") []) single-IsCompact
      (unfold reg_topo get put in refl)

abbrev slots : SlotTopo
slots = record { topo = topo; max_vslots = none }

abbrev vols : VolToVio
vols = ("udid1", "v1" ∷ "v2" ∷ []) ∷ ("udid2", "v2" ∷ "v3" ∷ []) ∷ []

abbrev first : List String → String
first [] = ""
first (x ∷ xs) = x

first-is_in : (xs : List String) (w : String) → is_in w xs ≡ true → is_in (first xs) xs ≡ true
unfolding is_in
first-is_in [] w h = h
first-is_in (x ∷ xs) w h = ground (arith, text_eq_iff x x)

build_slot_places_example :
    (s : VolToVio × BuildMap) × (vios : String) × (build_slot first
        ("v1" ∷ "v2" ∷ "v3" ∷ [])
        4
        disks
        (vols, [])
      ≡ ok s)
    × (is_in vios ("v1" ∷ "v2" ∷ "v3" ∷ []) && sees_all vols vios (slot_info disks) ≡ true)
    × (IsClassPlaced 4 vios vols s pv disks
        × IsClassPlaced 4 vios vols s lu disks
        × IsClassPlaced 4 vios vols s vdisk disks)
    × ((c w u : String)
        → text_eq vios w && has_udid u (slot_info disks) ≡ false
        → slot_at s.1 c w u ≡ slot_at [] c w u)
    × ((u : String) → has_udid u (slot_info disks) ≡ false → get u s.0 ≡ get u vols)
build_slot_places_example =
    build_slot_places first ("v1" ∷ "v2" ∷ "v3" ∷ []) 4 disks vols [] "v2" first-is_in
      (unfold slot_info elems get in (refl, (refl, tt))) (unfold slot_info elems get in refl)
      (unfold slot_info elems get is_in in refl)

abbrev rebuilt : List String → BuildMap
rebuilt fabrics = put_fabrics fabrics topo []

abbrev twofold : Topology
twofold =
    (3, disks)
    ∷ (4, (pv, ("udid3", no_spec) ∷ []) ∷ (lu, ("udid4", no_spec) ∷ ("udid5", no_spec) ∷ []) ∷ [])
    ∷ []

-- A back end that keeps the topologies themselves.
abbrev Backend : Type 0
Backend = List (String × Topology)

abbrev unpickle : Topology → SlotTopo
unpickle t = record { topo = t; max_vslots = none }

abbrev load_blob : String → Backend → Option Topology
load_blob key d = get key d

abbrev save_blob : String → Topology → Backend → Backend
save_blob key blob d = put key blob d

abbrev same_topology : Topology → Topology
same_topology t = t

load_blob-save_blob :
    (key : String) (blob : Topology) (d : Backend)
    → load_blob key (save_blob key blob d) ≡ some blob
load_blob-save_blob key blob d = ground (arith, get-put key key blob d, text_eq_iff key key)

abbrev store : Store
store = record { inst_key = "lpar1"; slot_topo = slots; loaded_topo = unpickle single }

abbrev backend : Backend
backend = ("lpar1", single) ∷ []

load-save_example :
    IsSynced unpickle load_blob (save same_topology save_blob (store, backend))
    × ((slot : ℕ) (c k : String)
        → spec_at
            (load unpickle load_blob "lpar1" true
              (save same_topology save_blob (store, backend)).1).slot_topo.topo
            slot
            c
            k
          ≡ spec_at topo slot c k)
load-save_example =
    load-save unpickle load_blob same_topology save_blob store backend (λ t. refl)
      load_blob-save_blob (λ slot c k. unfold load new get in refl)

abbrev registered : Store
registered = record {
  inst_key = "lpar1";
  slot_topo = record { topo = topo; max_vslots = some 200 };
  loaded_topo = unpickle single;
}
