-- ===== src/SlotMap/Build.antt =====
-- BuildSlotMap of pypowervm/tasks/slot_map.py: which slot to use for which device of a new LPAR.
use Prim.Native.Nat.{max}
use pypowervm.Prelude.{
  ℕ, suc, zero, ◌+◌, String, Bool, true, false, Option, none, some, List, [], ◌∷◌, ◌==◌, is_part,
  if◌then◌else◌, length,
}
use pypowervm.Prelude.Keyed.{get, nat_key, text_key}
use pypowervm.Exec.{Result, ok, err, hang}
use pypowervm.Sanitize.{sanitize_mac_for_api}
use pypowervm.SlotMap.{Spec, Topology, SlotTopo, or_nil, vfc, cna, vnic, mgmt_cna, pv}

-- A value of the build map, whose classes differ: a slot, slots, WWPNs by slot, the MAC of the
-- management VEA, or by UDID the slot and extra specification.
pub data Val : Type 0 where
  slot_val : ℕ → Val
  slots_val : List ℕ → Val
  wwpns_val : List (ℕ × Spec) → Val
  mac_val : String → Val
  udids_val : List (String × (ℕ × Spec)) → Val

abbrev pub BuildMap : Type 0
BuildMap = List (String × List (String × Val))

pub data BuildError : Type 0 where
  type_error : BuildError
  value_error : BuildError
  slot_mismatch : ℕ → ℕ → BuildError
  invalid_io_type : String → BuildError
  no_vios_for_udid : String → BuildError
  not_enough_vios : String → BuildError
  fabrics_not_found : List String → BuildError

abbrev pub is_nil : {A : Type 0} → List A → Bool
is_nil [] = true
is_nil (x ∷ xs) = false

infixl 5 ◌>>=◌
abbrev pub ◌>>=◌ :
    {A B : Type 0} → Result BuildError A → (A → Result BuildError B) → Result BuildError B
ok a >>= f = f a
err e >>= f = err e
hang >>= f = hang

-- `self._build_map.get(io_class, {})`
abbrev pub class_map : String → BuildMap → List (String × Val)
class_map io_class b = or_nil (get io_class b)

-- `udid in by_vuuid[vios]` and, where it is, `by_vuuid[vios][udid]`. A slot is no container; the
-- numbers of a list and the keys of a dictionary by slot equal no text; a text that holds the UDID
-- cannot be indexed by it.
unfoldable pub find_udid : String → Val → Result BuildError (Option (ℕ × Spec))
unfolding get is_part
find_udid udid (slot_val n) = err type_error
find_udid udid (slots_val ns) = ok none
find_udid udid (wwpns_val d) = ok none
find_udid udid (mac_val mac) = if is_part udid mac then err type_error else ok none
find_udid udid (udids_val d) = ok (get udid d)

unfoldable pub get_vscsi_slot : BuildMap → String → String → Result BuildError (Option (ℕ × Spec))
unfolding get find_udid
get_vscsi_slot [] vios udid = ok none
get_vscsi_slot ((c, by_vuuid) ∷ b) vios udid =
    let rest = get_vscsi_slot b vios udid in
    elim (get vios by_vuuid) [
      | none ↦ rest
      | some v ↦ elim (find_udid udid v) [
        | ok none ↦ rest
        | ok (some p) ↦ ok (some p)
        | err e ↦ err e
        | hang ↦ hang
      ]
    ]

abbrev pub to_udids : Option Val → List (String × (ℕ × Spec))
to_udids (some (udids_val d)) = d
to_udids _ = []

-- The map of PVs holds nothing but values by UDID.
unfoldable pub get_pv_vscsi_slot : BuildMap → String → String → Option ℕ
unfolding get
get_pv_vscsi_slot b vios udid = elim (get udid (to_udids (get vios (class_map pv b)))) [
  | none ↦ none
  | some p ↦ some p.0
]

-- The slot of a value that is one; the maps of VEAs and VNICs hold nothing else.
abbrev pub to_slot : Option Val → Option ℕ
to_slot (some (slot_val n)) = some n
to_slot _ = none

unfoldable pub get_vea_slot : BuildMap → String → Option ℕ
unfolding get
get_vea_slot b mac = to_slot (get (sanitize_mac_for_api mac) (class_map cna b))

-- `x or y`, where a slot 0 counts as false
abbrev pub or_slot : Option ℕ → Option ℕ → Option ℕ
or_slot none y = y
or_slot (some zero) y = y
or_slot (some (suc n)) y = some (suc n)

unfoldable pub get_vnet_slot : BuildMap → String → Option ℕ
unfolding get
get_vnet_slot b mac =
    let m = sanitize_mac_for_api mac in
    or_slot (to_slot (get m (class_map cna b))) (to_slot (get m (class_map vnic b)))

abbrev pub to_mac : Option Val → Option String
to_mac (some (mac_val m)) = some m
to_mac _ = none

unfoldable pub get_mgmt_vea_slot : BuildMap → Option String × Option ℕ
unfolding get
get_mgmt_vea_slot b =
    (to_mac (get "mac" (class_map mgmt_cna b)), to_slot (get "slot" (class_map mgmt_cna b)))

abbrev pub to_slots : Option Val → List ℕ
to_slots (some (slots_val ns)) = ns
to_slots _ = []

abbrev pub somes : List ℕ → List (Option ℕ)
somes [] = []
somes (n ∷ ns) = some n ∷ somes ns

abbrev pub nones : ℕ → List (Option ℕ)
nones zero = []
nones (suc n) = none ∷ nones n

-- `fabric` is the name of a fabric, and not one of the further keys under which the WWPNs stand.
unfoldable pub get_vfc_slots : BuildMap → String → ℕ → Result BuildError (List (Option ℕ))
unfolding get
get_vfc_slots b fabric number_of_slots =
    let slots = to_slots (get fabric (class_map vfc b)) in
    if length slots == 0
    then ok (nones number_of_slots)
    else if length slots == number_of_slots
    then ok (somes slots)
    else err (slot_mismatch number_of_slots (length slots))

-- lpar_builder.DEF_MAX_SLOT
abbrev pub def_max_slot : ℕ
def_max_slot = 64

-- `max` of the keys, or 0 where there are none
unfoldable pub highest_slot : Topology → ℕ
highest_slot [] = 0
highest_slot ((slot, classes) ∷ t) = max slot (highest_slot t)

unfoldable pub get_max_vslots : SlotTopo → ℕ
unfolding highest_slot
get_max_vslots s = elim s.max_vslots [
  | some n ↦ n
  | none ↦ max def_max_slot (highest_slot s.topo + 10)
]
