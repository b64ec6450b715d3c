-- ===== src/SlotMap/Fabrics.antt =====
-- The fabrics of a rebuild and the slots they get (RebuildSlotMap, pypowervm/tasks/slot_map.py).
use pypowervm.Prelude.{
  ℕ, ◌+◌, ◌≤◌, ◌≡◌, String, true, false, none, some, List, [], ◌∷◌, arith, All, Bool, only, text_eq,
  ◌<>◌,
}
use pypowervm.Prelude.Keyed.{get, has_key, text_key, nat_key}
use pypowervm.SlotMap.{Topology, Classes, vfc, mgmt_cna}
use pypowervm.SlotMap.Build.{BuildMap, class_map, to_slot, highest_slot}
use pypowervm.SlotMap.Rebuild.{rebuild_mgmt_vea_slot}

-- No fabric's further key, under which the WWPNs stand, is this fabric's name.
abbrev pub IsNoWwpnKey : String → List String → Type 0
IsNoWwpnKey fabric fabrics = All (λ f. text_eq (f <> "_wwpn") fabric ≡ false) fabrics

-- Whether the classes of a slot hold the fabric under VFC.
abbrev pub has_fabric : String → ℕ × Classes → Bool
has_fabric fabric p = elim (get vfc p.1) [ none ↦ false | some keys ↦ has_key fabric keys ]

abbrev slot_numbers : Topology → List ℕ
slot_numbers [] = []
slot_numbers ((slot, classes) ∷ t) = slot ∷ slot_numbers t

-- The slots of the topology that hold the fabric.
abbrev pub slots_with : String → Topology → List ℕ
slots_with fabric t = slot_numbers (only (has_fabric fabric) t)

highest_slot-above :
    (t : Topology) (m : ℕ) → highest_slot t ≤ m → All (λ (p : ℕ × Classes). p.0 ≤ m) t
unfolding highest_slot
highest_slot-above [] m h = tt
highest_slot-above ((slot, classes) ∷ t) m h = (omega arith, highest_slot-above t m (omega arith))

highest_slot-has_key :
    (slot : ℕ) (classes : Classes) (t : Topology)
    → has_key (highest_slot ((slot, classes) ∷ t)) ((slot, classes) ∷ t) ≡ true
unfolding highest_slot has_key
highest_slot-has_key slot classes [] = ground arith
highest_slot-has_key slot classes ((j, cs) ∷ t) = ground (arith, highest_slot-has_key j cs t)

-- Without a management VEA of its own, a rebuild of an LPAR that has a slot gives the management VEA
-- a slot that is one above some registered slot and above all of them.
rebuild_mgmt_vea_slot_next :
    (slot : ℕ) (classes : Classes) (t : Topology) (b : BuildMap)
    → to_slot (get "slot" (class_map mgmt_cna b)) ≡ none
    → (n : ℕ) × ((rebuild_mgmt_vea_slot ((slot, classes) ∷ t) b).1 ≡ some (n + 1))
      × All (λ (p : ℕ × Classes). p.0 ≤ n) ((slot, classes) ∷ t)
      × (has_key n ((slot, classes) ∷ t) ≡ true)
unfolding rebuild_mgmt_vea_slot
rebuild_mgmt_vea_slot_next slot classes t b h =
    let all = (slot, classes) ∷ t in
    (
      highest_slot all,
      rw (h, rebuild_mgmt_vea_slot),
      highest_slot-above all (highest_slot all) (omega arith),
      highest_slot-has_key slot classes t,
    )
