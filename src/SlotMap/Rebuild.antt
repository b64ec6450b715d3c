-- ===== src/SlotMap/Rebuild.antt =====
-- RebuildSlotMap of pypowervm/tasks/slot_map.py: the build map of an LPAR that is rebuilt with the
-- slots of its source.
use pypowervm.Prelude.{
  ℕ, ◌+◌, String, ◌||◌, Option, none, some, List, [], ◌∷◌, ◌++◌, text_eq, is_in, if◌then◌else◌,
  ◌<>◌,
}
use pypowervm.Prelude.Keyed.{get, put, nat_key, text_key}
use pypowervm.Exec.{Result, ok, err}
use pypowervm.Sanitize.{sanitize_mac_for_api}
use pypowervm.SlotMap.{Spec, text_spec, Keys, Topology, or_nil, vfc, cna, vnic, mgmt_cna}
use pypowervm.SlotMap.Vscsi.{VolToVio, vscsi_build_out}
use pypowervm.SlotMap.Build.{
  is_nil, ◌>>=◌, Val, slot_val, slots_val, wwpns_val, mac_val, to_mac, to_slot, BuildMap, class_map,
  highest_slot, BuildError, fabrics_not_found,
}

unfoldable pub put_mgmt_vea_slot : String → ℕ → BuildMap → BuildMap
unfolding put
put_mgmt_vea_slot mac slot b = put mgmt_cna (("mac", mac_val mac) ∷ ("slot", slot_val slot) ∷ []) b

unfoldable pub put_novios_val : String → String → Val → BuildMap → BuildMap
unfolding put get
put_novios_val io_class io_key v b = put io_class (put io_key v (class_map io_class b)) b

-- _vea_build_out: the VEAs of one slot, then of all
unfoldable pub vea_slot : ℕ → Keys → BuildMap → BuildMap
unfolding put_mgmt_vea_slot put_novios_val
vea_slot slot [] b = b
vea_slot slot ((mac, text_spec vswitch) ∷ keys) b =
    let m = sanitize_mac_for_api mac in
    vea_slot slot keys (
      if text_eq vswitch "MGMTSWITCH"
      then put_mgmt_vea_slot m slot b
      else put_novios_val cna m (slot_val slot) b)
vea_slot slot ((mac, other) ∷ keys) b =
    vea_slot slot keys (put_novios_val cna (sanitize_mac_for_api mac) (slot_val slot) b)

unfoldable pub vea_build_out : Topology → BuildMap → BuildMap
unfolding vea_slot get
vea_build_out [] b = b
vea_build_out ((slot, classes) ∷ t) b = vea_build_out t (vea_slot slot (or_nil (get cna classes)) b)

unfoldable pub vnic_slot : ℕ → Keys → BuildMap → BuildMap
unfolding put_novios_val
vnic_slot slot [] b = b
vnic_slot slot ((mac, s) ∷ keys) b =
    vnic_slot slot keys (put_novios_val vnic (sanitize_mac_for_api mac) (slot_val slot) b)

unfoldable pub vnic_build_out : Topology → BuildMap → BuildMap
unfolding vnic_slot get
vnic_build_out [] b = b
vnic_build_out ((slot, classes) ∷ t) b =
    vnic_build_out t (vnic_slot slot (or_nil (get vnic classes)) b)

-- The slots of a fabric, each with its extra specification.
unfoldable pub fabric_slots : String → Topology → List (ℕ × Spec)
unfolding get
fabric_slots fabric [] = []
fabric_slots fabric ((slot, classes) ∷ t) =
    let rest = fabric_slots fabric t in
    elim (get fabric (or_nil (get vfc classes))) [ none ↦ rest | some spec ↦ (slot, spec) ∷ rest ]

abbrev pub slots_of : List (ℕ × Spec) → List ℕ
slots_of [] = []
slots_of ((slot, spec) ∷ more) = slot ∷ slots_of more

unfoldable pub put_fabrics : List String → Topology → BuildMap → BuildMap
unfolding put_novios_val fabric_slots
put_fabrics [] t b = b
put_fabrics (fabric ∷ fabrics) t b =
    let found = fabric_slots fabric t in
    put_fabrics fabrics t (
      put_novios_val vfc (fabric <> "_wwpn") (wwpns_val found)
        (put_novios_val vfc fabric (slots_val (slots_of found)) b))

abbrev pub key_list : Keys → List String
key_list [] = []
key_list ((k, s) ∷ keys) = k ∷ key_list keys

unfoldable pub topo_fabrics : Topology → List String
unfolding get
topo_fabrics [] = []
topo_fabrics ((slot, classes) ∷ t) = key_list (or_nil (get vfc classes)) ++ topo_fabrics t

-- `topo_fabrics - seen_fabrics`, without repetition: a fabric that was asked for and stands in the
-- topology was seen.
unfoldable pub missing : List String → List String → List String
unfolding is_in
missing fabrics [] = []
missing fabrics (f ∷ fs) =
    let rest = missing fabrics fs in if is_in f fabrics || is_in f fs then rest else f ∷ rest

unfoldable pub npiv_build_out : List String → Topology → BuildMap → Result BuildError BuildMap
unfolding put_fabrics topo_fabrics missing
npiv_build_out fabrics t b =
    let lost = missing fabrics (topo_fabrics t) in
    if is_nil lost then ok (put_fabrics fabrics t b) else err (fabrics_not_found lost)

-- get_mgmt_vea_slot: without a management VEA, the slot after the highest one in use.
unfoldable pub rebuild_mgmt_vea_slot : Topology → BuildMap → Option String × Option ℕ
unfolding get highest_slot
rebuild_mgmt_vea_slot t b =
    let mac = to_mac (get "mac" (class_map mgmt_cna b)) in
    elim (to_slot (get "slot" (class_map mgmt_cna b))) [
      | some slot ↦ (mac, some slot)
      | none ↦ (mac, if is_nil t then none else some (highest_slot t + 1))
    ]

module _ (pop : List String → String) where
  -- __init__
  unfoldable pub rebuild :
      List String → Topology → VolToVio → List String → Result BuildError BuildMap
  unfolding vea_build_out vnic_build_out vscsi_build_out npiv_build_out
  rebuild all_vioses t vols fabrics =
      vscsi_build_out pop all_vioses t vols (vnic_build_out t (vea_build_out t [])) >>= λ b.
      npiv_build_out fabrics t b
