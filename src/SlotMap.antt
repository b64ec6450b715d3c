-- ===== src/SlotMap.antt =====
-- SlotMapStore of pypowervm/tasks/slot_map.py: which virtual slot of an LPAR serves which I/O. The
-- storage back end is what `save` hands to the subclass, and the VSwitch names come from requests,
-- so both are arguments. Deprecated aliases and warnings are left out.
pub mod Register
pub mod Build
pub mod Vscsi
pub mod Rebuild
pub mod Lookups
pub mod Choice
pub mod Fabrics
pub mod Save
pub mod Saved
pub mod Order
mod Examples
use pypowervm.Prelude.{
  ℕ, suc, zero, String, Bool, true, false, not, ◌&&◌, Option, none, some, List, [], ◌∷◌, ◌==◌,
  text_eq, if◌then◌else◌, length,
}
use pypowervm.Prelude.Keyed.{get, has_key, put, del, nat_key, text_key}
use pypowervm.Exec.{Result, ok, err, hang}

-- IOCLASS, whose values are texts
abbrev pub vfc : String
vfc = "VFC"

abbrev pub lu : String
lu = "LU"

abbrev pub vdisk : String
vdisk = "VDisk"

abbrev pub vopt : String
vopt = "VOptMedia"

abbrev pub pv : String
pv = "PV"

abbrev pub cna : String
cna = "CNA"

abbrev pub mgmt_cna : String
mgmt_cna = "MGMTCNA"

abbrev pub vnic : String
vnic = "VNIC"

-- An extra specification: None, a text, or a list of texts (the WWPNs of a VFC mapping).
pub data Spec : Type 0 where
  no_spec : Spec
  text_spec : String → Spec
  list_spec : List String → Spec

abbrev pub Keys : Type 0
Keys = List (String × Spec)

abbrev pub Classes : Type 0
Classes = List (String × Keys)

-- { slot_num: { IOCLASS: { io_key: extra_spec } } }
abbrev pub Topology : Type 0
Topology = List (ℕ × Classes)

-- What a store raises: of the dictionary of VSwitches, or for a device that is neither CNA nor VNIC.
pub data SlotError : Type 0 where
  invalid_virtual_network_device_type : SlotError
  key_error : SlotError

-- `_slot_topo` holds the topology and, under a key of its own, the maximum number of slots.
-- `_loaded_topo` is a copy of both.
pub record SlotTopo : Type 0 where
  pub topo : Topology
  pub max_vslots : Option ℕ

pub record Store : Type 0 where
  pub inst_key : String
  pub slot_topo : SlotTopo
  pub loaded_topo : SlotTopo

-- The caller gives what `load` has unpickled, or None.
unfoldable pub new : String → Option SlotTopo → Store
new inst_key none =
    let empty : SlotTopo = record { topo = []; max_vslots = none } in
    record { inst_key = inst_key; slot_topo = empty; loaded_topo = empty }
new inst_key (some t) = record { inst_key = inst_key; slot_topo = t; loaded_topo = t }

unfoldable pub register_max_vslots : ℕ → Store → Store
register_max_vslots n s = record s { slot_topo = record s.slot_topo { max_vslots = some n } }

abbrev pub or_nil : {A : Type 0} → Option (List A) → List A
or_nil none = []
or_nil (some xs) = xs

-- `_reg_slot` on the topology
unfoldable pub reg_topo : String → String → ℕ → Spec → Topology → Topology
unfolding get put
reg_topo io_class io_key slot spec t =
    let classes = or_nil (get slot t) in
    let keys = or_nil (get io_class classes) in
    put slot (put io_class (put io_key spec keys) classes) t

-- A class's keys once `keys` are what is left of them, and a slot's classes: what has become empty is
-- deleted.
abbrev pub classes_without : String → Keys → Classes → Classes
classes_without io_class [] classes = del io_class classes
classes_without io_class (k ∷ keys) classes = put io_class (k ∷ keys) classes

abbrev pub topo_without : ℕ → Classes → Topology → Topology
topo_without slot [] t = del slot t
topo_without slot (c ∷ classes) t = put slot (c ∷ classes) t

-- `_drop_slot` on the topology: a missing slot, class or key changes nothing, and what has become
-- empty goes.
unfoldable pub drop_topo : String → String → ℕ → Topology → Topology
unfolding get has_key put del
drop_topo io_class io_key slot t = elim (get slot t) [
  | none ↦ t
  | some classes ↦ elim (get io_class classes) [
    | none ↦ t
    | some keys ↦
        if has_key io_key keys
        then topo_without slot (classes_without io_class (del io_key keys) classes) t
        else t
  ]
]

unfoldable pub reg_slot : String → String → ℕ → Spec → Store → Store
unfolding reg_topo
reg_slot io_class io_key slot spec s = record s {
  slot_topo = record s.slot_topo { topo = reg_topo io_class io_key slot spec s.slot_topo.topo };
}

unfoldable pub drop_slot : String → String → ℕ → Store → Store
unfolding drop_topo
drop_slot io_class io_key slot s = record s {
  slot_topo = record s.slot_topo { topo = drop_topo io_class io_key slot s.slot_topo.topo };
}

-- A network device wrapper, as far as it is read.
pub data Vnet : Type 0 where
  cna_wrapper : String → ℕ → String → Vnet
  vnic_wrapper : String → ℕ → Vnet
  other_wrapper : Vnet

-- `switches` is the map of VSwitch ids to names.
unfoldable pub register_vnet : List (String × String) → Vnet → Store → Result SlotError Store
unfolding get reg_slot
register_vnet switches (cna_wrapper mac slot vswitch_id) s = elim (get vswitch_id switches) [
  | none ↦ err key_error
  | some name ↦ ok (reg_slot cna mac slot (text_spec name) s)
]
register_vnet switches (vnic_wrapper mac slot) s = ok (reg_slot vnic mac slot no_spec s)
register_vnet switches other_wrapper s = err invalid_virtual_network_device_type

unfoldable pub drop_vnet : Vnet → Store → Result SlotError Store
unfolding drop_slot
drop_vnet (cna_wrapper mac slot vswitch_id) s = ok (drop_slot cna mac slot s)
drop_vnet (vnic_wrapper mac slot) s = ok (drop_slot vnic mac slot s)
drop_vnet other_wrapper s = err invalid_virtual_network_device_type

-- A VFCMapping: the WWPNs of its client adapter, if it has one, and the client slot of its server
-- adapter.
pub record VfcMap : Type 0 where
  pub client_wwpns : Option (List String)
  pub lpar_slot_num : ℕ

unfoldable pub register_vfc_mapping : VfcMap → String → Store → Store
unfolding reg_slot
register_vfc_mapping m fab s = elim m.client_wwpns [
  | none ↦ reg_slot vfc fab m.lpar_slot_num no_spec s
  | some wwpns ↦ reg_slot vfc fab m.lpar_slot_num (list_spec wwpns) s
]

unfoldable pub drop_vfc_mapping : VfcMap → String → Store → Store
unfolding drop_slot
drop_vfc_mapping m fab s = drop_slot vfc fab m.lpar_slot_num s

-- Backing storage of a VSCSI mapping: its class, UDID and name.
pub record Backing : Type 0 where
  pub class_name : String
  pub udid : String
  pub name : String

-- A VSCSIMapping: the backing storage, the client slot of the server adapter, and the target
-- device's LUA, which is read for other storage than optical media.
pub record ScsiMap : Type 0 where
  pub backing_storage : Option Backing
  pub server_slot : Option ℕ
  pub lua : Spec

pub record Parsed : Type 0 where
  pub bstor : Backing
  pub cslot : ℕ
  pub extra_spec : Spec

-- _parse_vscsi_mapping, with none for four times None; the storage key is the backing's UDID.
unfoldable pub parse_vscsi_mapping : ScsiMap → Option Parsed
parse_vscsi_mapping m = elim m.backing_storage [
  | none ↦ none
  | some b ↦ elim m.server_slot [
    | none ↦ none
    | some slot ↦ some (record {
      bstor = b;
      cslot = slot;
      extra_spec = if text_eq b.class_name vopt then text_spec b.name else m.lua;
    })
  ]
]

unfoldable pub register_vscsi_mapping : ScsiMap → Store → Store
unfolding parse_vscsi_mapping reg_slot
register_vscsi_mapping m s = elim (parse_vscsi_mapping m) [
  | none ↦ s
  | some p ↦ reg_slot p.bstor.class_name p.bstor.udid p.cslot p.extra_spec s
]

unfoldable pub drop_vscsi_mapping : ScsiMap → Store → Store
unfolding parse_vscsi_mapping drop_slot
drop_vscsi_mapping m s = elim (parse_vscsi_mapping m) [
  | none ↦ s
  | some p ↦ drop_slot p.bstor.class_name p.bstor.udid p.cslot s
]
