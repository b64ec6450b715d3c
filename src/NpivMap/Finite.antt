-- ===== src/NpivMap/Finite.antt =====
-- Building the mappings of a migration ends (build_migration_mappings, pypowervm/tasks/vfc_mapper.py).
use pypowervm.Prelude.{
  ℕ, zero, suc, ◌+◌, ◌*◌, ◌≤◌, ◌≡◌, ◌≢◌, refl, sym, ap, ◌∙◌, String, Bool, Option, none, some, List,
  [], ◌∷◌, only, nat_in, length, All, List-cases, inl, inr, arith,
}
use pypowervm.Exec.{Result, ok, err, hang}
use pypowervm.NpivMap.{Port, Vios, Mapping, NpivError, fuse_vfc_ports}
use pypowervm.NpivMap.Wwpns.{find_vios_for_wwpn}
use pypowervm.NpivMap.Maps.{markers, derive_base_npiv_map}
use pypowervm.NpivMap.Derive.{rounds}
use pypowervm.NpivMap.Preserved.{new_pairs, derive_map_lem}
use pypowervm.NpivMap.Migrate.{
  Fabric, FabricData, Assigned, migration_mapping, cons_result, zip_slots, zip_derived,
  build_migration_mappings_for_fabric, split_ports_per_fabric, sort_groups, append_results,
  map_fabrics, map_assigned, map_found, build_migration_mappings,
}
use pypowervm.NpivMap.Placed.{split_maps, assigned_maps, assign_groups_lem}

length-only : {A : Type 0} (p : A → Bool) (xs : List A) → length (only p xs) ≤ length xs
length-only p [] = omega arith
length-only p (x ∷ xs) = ground (arith, length-only p xs)

rounds_lem : (n : ℕ) (ws : List String) → rounds n ws ≡ (length ws + 1) * (n + 1)
rounds_lem n [] = grind arith
rounds_lem n (w ∷ ws) = grind (arith, rounds_lem n ws)

rounds-le : (n k : ℕ) (ws : List String) → length ws ≤ k → rounds n ws ≤ (k + 1) * (n + 1)
rounds-le n k ws h = grind (arith, rounds_lem n ws)

length-fuse_markers : (n : ℕ) → length (fuse_vfc_ports (markers n)) ≡ n
unfolding fuse_vfc_ports markers
length-fuse_markers zero = refl
length-fuse_markers (suc n) = ap suc (length-fuse_markers n)

derive_base_ends :
    (fuel n : ℕ) (vs : List Vios) (p_port_wwpns : List String)
    → (n + 1) * (length vs + 1) ≤ fuel
    → derive_base_npiv_map fuel vs p_port_wwpns n ≢ hang
unfolding derive_base_npiv_map
derive_base_ends fuel n vs p_port_wwpns h e =
    let pairs = fuse_vfc_ports (markers n) in
    let few : length (new_pairs vs pairs) ≤ n =
      omega (arith, length-only _ pairs, length-fuse_markers n) in
    let enough = rounds-le (length vs) n (new_pairs vs pairs) few in
    elim (derive_map_lem vs fuel p_port_wwpns (markers n) (omega arith)) [
      | inl (x, existing, why, backed, kept, blocked, raised) ↦
          absurd (let k = sym raised ∙ e in ground arith)
      | inr (new, existing, pairs, backed, kept, found) ↦
          absurd (let k = sym found ∙ e in ground arith)
    ]

cons_result_ends :
    (r : Result NpivError String) (s : Result NpivError (List String))
    → r ≢ hang
    → s ≢ hang
    → cons_result r s ≢ hang
cons_result_ends (ok a) (ok b) h k e = ground arith
cons_result_ends (ok a) (err b) h k e = ground arith
cons_result_ends (ok a) hang h k e = k refl
cons_result_ends (err a) s h k e = ground arith
cons_result_ends hang s h k e = h refl

migration_mapping_ends : (s : ℕ) (o : Option (Vios × Port)) → migration_mapping s o ≢ hang
unfolding migration_mapping
migration_mapping_ends s none e = ground arith
migration_mapping_ends s (some (v, p)) e = ground arith

zip_slots_ends : (vs : List Vios) (ms : List Mapping) (ss : List ℕ) → zip_slots vs ms ss ≢ hang
unfolding zip_slots
zip_slots_ends vs [] ss e = ground arith
zip_slots_ends vs (m ∷ ms) [] e = ground arith
zip_slots_ends vs (m ∷ ms) (s ∷ ss) e =
    cons_result_ends _ _ (migration_mapping_ends s (find_vios_for_wwpn vs m.0))
      (zip_slots_ends vs ms ss) e

zip_derived_ends :
    (vs : List Vios) (ss : List ℕ) (r : Result NpivError (List Mapping))
    → r ≢ hang
    → zip_derived vs ss r ≢ hang
zip_derived_ends vs ss (ok ms) h e = zip_slots_ends vs ms ss e
zip_derived_ends vs ss (err x) h e = ground arith
zip_derived_ends vs ss hang h e = h refl

-- Fuel for the derivation of each fabric on one VIOS.
abbrev pub IsEnough : ℕ → FabricData → Type 0
IsEnough fuel = All (λ (f : String × Fabric). (length f.1.slots + 1) * 2 ≤ fuel)

append_results_ends :
    (r s : Result NpivError (List String)) → r ≢ hang → s ≢ hang → append_results r s ≢ hang
append_results_ends (ok a) (ok b) h k e = ground arith
append_results_ends (ok a) (err b) h k e = ground arith
append_results_ends (ok a) hang h k e = k refl
append_results_ends (err a) s h k e = ground arith
append_results_ends hang s h k e = h refl

map_fabrics_ends :
    (fuel : ℕ) (v : Vios) (sm : FabricData) → IsEnough fuel sm → map_fabrics fuel v sm ≢ hang
unfolding map_fabrics build_migration_mappings_for_fabric
map_fabrics_ends fuel v [] h e = ground arith
map_fabrics_ends fuel v ((name, f) ∷ fs) (here, h) e =
    append_results_ends _ _
      (zip_derived_ends (v ∷ []) f.slots
        (derive_base_npiv_map fuel (v ∷ []) f.p_port_wwpns (length f.slots))
        (derive_base_ends fuel (length f.slots) (v ∷ []) f.p_port_wwpns (omega arith)))
      (map_fabrics_ends fuel v fs h) e

split-IsEnough :
    (fuel : ℕ) (group : List ℕ) (fd : FabricData)
    → IsEnough fuel fd
    → IsEnough fuel (split_ports_per_fabric group fd)
unfolding split_ports_per_fabric
split-IsEnough fuel group [] h = tt
split-IsEnough fuel group ((name, f) ∷ fs) (here, h) =
    elim (List-cases (only (λ x. nat_in x group) f.slots)) [
      | inl e ↦ rw (e, split_ports_per_fabric) (split-IsEnough fuel group fs h)
      | inr (s, ss, e) ↦
          rw (e, split_ports_per_fabric)
            (
              omega (arith, length-only (λ x. nat_in x group) f.slots, ap (length {0}) e),
              split-IsEnough fuel group fs h,
            )
    ]

split_maps-IsEnough :
    (fuel : ℕ) (vs : List Vios) (fd : FabricData) (gs : List (List ℕ))
    → IsEnough fuel fd
    → All (IsEnough fuel) (split_maps vs fd gs)
split_maps-IsEnough fuel vs fd [] h = tt
split_maps-IsEnough fuel vs fd (g ∷ gs) h =
    (split-IsEnough fuel g fd h, split_maps-IsEnough fuel vs fd gs h)

map_assigned_ends :
    (fuel : ℕ) (vs : List Vios) (fd : FabricData) (placed : Assigned)
    → All (IsEnough fuel) (assigned_maps vs fd placed)
    → map_assigned fuel placed ≢ hang
unfolding map_assigned
map_assigned_ends fuel vs fd [] h e = ground arith
map_assigned_ends fuel vs fd ((v, sm) ∷ placed) (here, h) e =
    append_results_ends _ _ (map_fabrics_ends fuel v sm here)
      (map_assigned_ends fuel vs fd placed h) e

-- Building the mappings ends, for any groups of slots, within
-- (the number of slots + 1) * 2 passes for each fabric.
pub build_migration_mappings_ends :
    (fuel : ℕ) (vs : List Vios) (fabric_data : FabricData) (slot_peers : List (List ℕ))
    → IsEnough fuel fabric_data
    → build_migration_mappings fuel vs fabric_data slot_peers ≢ hang
unfolding build_migration_mappings
build_migration_mappings_ends fuel vs fabric_data slot_peers h e =
    elim (assign_groups_lem vs fabric_data slot_peers).1 [
      | inl (stuck, raised) ↦ absurd (let k = ap (map_found fuel) (sym raised) ∙ e in ground arith)
      | inr (all, found, good, maps) ↦
          map_assigned_ends fuel vs fabric_data all
            (rw maps (split_maps-IsEnough fuel vs fabric_data (sort_groups slot_peers) h))
            (ap (map_found fuel) (sym found) ∙ e)
    ]
