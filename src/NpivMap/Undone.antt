-- ===== src/NpivMap/Undone.antt =====
-- Removing the virtual Fibre Channel mapping that was added (add_map and remove_maps,
-- pypowervm/tasks/vfc_mapper.py).
use pypowervm.Prelude.{
  ℕ, ◌≡◌, ◌≢◌, refl, ap, String, Bool, true, false, ◌&&◌, Option, none, some, List, [], ◌∷◌, ◌++◌,
  All, Option-cases, inl, inr, arith, text_eq_iff,
}
use pypowervm.Exec.{ok}
use pypowervm.Href.{Url}
use pypowervm.ScsiMap.{LparId, uuid, path_uuid}
use pypowervm.NpivMap.{VfcMapping, Vios, Mapping}
use pypowervm.NpivMap.Wwpns.{words, sanitized}
use pypowervm.NpivMap.Maps.{
  is_any, v_wwpns_of, is_of_client, is_of_adapter, is_of_wwpns, is_of_port_map, find_maps,
  remove_map, remove_each, remove_maps, bld, behind, back_existing, append_map, add_or_back,
  add_map,
}
use pypowervm.NpivMap.Added.{has_wwpns, same_wwpns_refl, port_on, found_port}

module _ (client : LparId) (adpt : Option (List String)) (pm : Option Mapping) where
  abbrev is_match : VfcMapping → Bool
  is_match m = is_of_client client m && is_of_adapter adpt m && is_of_port_map pm m

  find_maps-appended :
      (ms : List VfcMapping) (m : VfcMapping)
      → All (λ x. is_match x ≡ false) ms
      → is_match m ≡ true
      → find_maps client adpt pm (ms ++ m ∷ []) ≡ m ∷ []
  unfolding find_maps
  find_maps-appended [] m h k = rw k refl
  find_maps-appended (x ∷ ms) m (here, h) k = rw here (find_maps-appended ms m h k)

remove_map-appended :
    (m : VfcMapping) (ms : List VfcMapping)
    → All (λ (x : VfcMapping). x.element ≢ m.element) ms
    → remove_map m (ms ++ m ∷ []) ≡ ms
unfolding remove_map
remove_map-appended m [] h = ground arith
remove_map-appended m (x ∷ ms) (here, h) = ground (arith, remove_map-appended m ms h)

module _ (v_wwpns : List String) where
  back_existing-none :
      (name : String) (ms : List VfcMapping)
      → All (λ x. has_wwpns v_wwpns x ≡ false) ms
      → back_existing v_wwpns name ms ≡ none
  unfolding back_existing
  back_existing-none name [] h = refl
  back_existing-none name (x ∷ ms) (here, h) =
      rw here (ap (behind x) (back_existing-none name ms h))

  is_of_port_map_lem :
      (p_wwpn fused : String) (m : VfcMapping)
      → v_wwpns_of fused ≡ some v_wwpns
      → is_any v_wwpns ≡ false
      → is_of_port_map (some (p_wwpn, fused)) m ≡ has_wwpns v_wwpns m
  unfolding is_of_port_map is_of_wwpns
  is_of_port_map_lem p_wwpn fused m known any =
      let same : sanitized (words fused) ≡ v_wwpns = ground arith in rw (same, any) refl

module _ (element : ℕ) (href : Url) (u p_wwpn fused w : String) (ws : List String) where
  added : String → Option ℕ → VfcMapping
  added name slot = bld element href name (some (w ∷ ws)) slot

  added-is_match :
      (name : String) (slot : Option ℕ)
      → path_uuid true (some href) ≡ some u
      → v_wwpns_of fused ≡ some (w ∷ ws)
      → is_any (w ∷ ws) ≡ false
      → is_match (uuid u) none (some (p_wwpn, fused)) (added name slot) ≡ true
  unfolding is_of_client is_of_adapter added bld
  added-is_match name slot to_client known any =
      rw (to_client, is_of_port_map_lem (w ∷ ws) p_wwpn fused (added name slot) known any)
        (ground (arith, text_eq_iff u u, same_wwpns_refl (w ∷ ws)))

  others_differ :
      (ms : List VfcMapping)
      → v_wwpns_of fused ≡ some (w ∷ ws)
      → is_any (w ∷ ws) ≡ false
      → All (λ x. has_wwpns (w ∷ ws) x ≡ false) ms
      → All (λ x. is_match (uuid u) none (some (p_wwpn, fused)) x ≡ false) ms
  others_differ [] known any h = tt
  others_differ (x ∷ ms) known any (here, h) = (
    rw (is_of_port_map_lem (w ∷ ws) p_wwpn fused x known any, here) (ground arith),
    others_differ ms known any h,
  )

  removed_again :
      (v : Vios) (name : String) (slot : Option ℕ)
      → path_uuid true (some href) ≡ some u
      → v_wwpns_of fused ≡ some (w ∷ ws)
      → is_any (w ∷ ws) ≡ false
      → All (λ x. has_wwpns (w ∷ ws) x ≡ false) v.vfc_mappings
      → All (λ (x : VfcMapping). x.element ≢ element) v.vfc_mappings
      → remove_maps (append_map (added name slot) v).1 (uuid u) none (some (p_wwpn, fused))
        ≡ (added name slot ∷ [], v)
  unfolding remove_maps append_map remove_each
  removed_again v name slot to_client known any others fresh =
      let found =
        find_maps-appended (uuid u) none (some (p_wwpn, fused)) v.vfc_mappings (added name slot)
          (others_differ v.vfc_mappings known any others)
          (added-is_match name slot to_client known any) in
      rw found (
        ap (λ ms. (added name slot ∷ [], record v { vfc_mappings = ms }))
          (remove_map-appended (added name slot) v.vfc_mappings (unfold added bld in fresh)))

  -- Where the client's WWPNs are known, no mapping of the wrapper has them, and the client's href has
  -- its UUID, remove_maps by that UUID and the port map takes away the mapping that add_map has added,
  -- returns it alone, and leaves the wrapper as it was before.
  pub remove_maps-add_map :
      (v v' : Vios) (m : VfcMapping) (error_if_invalid : Bool) (slot : Option ℕ)
      → path_uuid true (some href) ≡ some u
      → v_wwpns_of fused ≡ some (w ∷ ws)
      → is_any (w ∷ ws) ≡ false
      → All (λ x. has_wwpns (w ∷ ws) x ≡ false) v.vfc_mappings
      → All (λ (x : VfcMapping). x.element ≢ element) v.vfc_mappings
      → add_map element href v (p_wwpn, fused) error_if_invalid slot ≡ ok (some m, v')
      → remove_maps v' (uuid u) none (some (p_wwpn, fused)) ≡ (m ∷ [], v)
  unfolding added add_map add_or_back
  remove_maps-add_map v v' m strict slot to_client known any others fresh h =
      elim (Option-cases (port_on p_wwpn v.pfc_ports)) [
        | inl e ↦ absurd (let k = rw (found_port p_wwpn v none e, add_map) at h in ground arith)
        | inr (port, e) ↦
            (let none_has = back_existing-none (w ∷ ws) port.name v.vfc_mappings others in
              let k =
                rw (found_port p_wwpn v (some port) e, known, none_has, add_map, add_or_back) at
                  h in
              let same : m ≡ added port.name slot = unfold append_map in cc in
              let result : v' ≡ (append_map (added port.name slot) v).1 = unfold append_map in cc in
              rw (same, result) (removed_again v port.name slot to_client known any others fresh))
      ]
