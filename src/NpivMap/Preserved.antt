-- ===== src/NpivMap/Preserved.antt =====
-- Which pairs of WWPNs the NPIV map of a client has (derive_npiv_map, pypowervm/tasks/vfc_mapper.py).
use pypowervm.Prelude.{
  ℕ, ◌≡◌, ◌≤◌, ◌⊎◌, refl, sym, ap, ◌∙◌, String, Bool, true, false, not, Option, none, some, List,
  [], ◌∷◌, ◌++◌, only, is_some, length, All, Option-cases, Bool-cases, inl, inr, if◌then◌else◌,
}
use pypowervm.Exec.{ok, err}
use pypowervm.NpivMap.{BackingPort, VfcMapping, Vios, Mapping, NpivError, fuse_vfc_ports}
use pypowervm.NpivMap.Wwpns.{
  is_blank, split_at, sanitized, same_wwpns, adapter_wwpns, find_first, first_vios,
  has_client_wwpns,
}
use pypowervm.NpivMap.Maps.{wwpn_text, sort_out, detect, derive_map}
use pypowervm.NpivMap.Derive.{rounds, fused_of, AreNew, IsReasonFor, IsBlocked, derive_npiv_map_lem}

-- All mappings of the VIOSes, in order.
abbrev pub beside : Vios → List VfcMapping → List (Vios × VfcMapping)
beside v [] = []
beside v (m ∷ ms) = (v, m) ∷ beside v ms

abbrev pub client_maps : List Vios → List (Vios × VfcMapping)
client_maps [] = []
client_maps (v ∷ vs) = beside v v.vfc_mappings ++ client_maps vs

abbrev pub first_of : List (Vios × VfcMapping) → Option (Vios × VfcMapping)
first_of [] = none
first_of (x ∷ xs) = some x

-- The mapping has a client adapter with the same set of WWPNs as the pair.
abbrev pub has_pair : String → Vios × VfcMapping → Bool
has_pair w (v, m) =
    adapter_wwpns (λ ws. same_wwpns (sanitized ws) (sanitized (split_at is_blank w)))
      m.client_adapter

first_beside :
    (w : String) (v : Vios) (ms : List VfcMapping) (rest : List (Vios × VfcMapping))
    → first_of (only (has_pair w) (beside v ms ++ rest))
      ≡ (elim (find_first (λ m. has_pair w (v, m)) ms) [
        | none ↦ first_of (only (has_pair w) rest)
        | some m ↦ some (v, m)
      ])
unfolding find_first
first_beside w v [] rest = refl
first_beside w v (m ∷ ms) rest = elim (Bool-cases (has_pair w (v, m))) [
  | inl yes' ↦ rw yes' refl
  | inr no' ↦ rw no' (first_beside w v ms rest)
]

first_vios_pair :
    (w : String) (vs : List Vios)
    → first_vios (λ v. find_first (λ m. has_pair w (v, m)) v.vfc_mappings) vs
      ≡ first_of (only (has_pair w) (client_maps vs))
unfolding first_vios
first_vios_pair w [] = refl
first_vios_pair w (v ∷ vs) =
    elim (Option-cases (find_first (λ m. has_pair w (v, m)) v.vfc_mappings)) [
      | inl absent ↦
          rw (first_beside w v v.vfc_mappings (client_maps vs), absent, first_vios)
            (first_vios_pair w vs)
      | inr (m, found) ↦
          rw (first_beside w v v.vfc_mappings (client_maps vs), found, first_vios) refl
    ]

-- has_client_wwpns finds the first mapping of all that has the pair.
has_client_wwpns_lem :
    (w : String) (vs : List Vios)
    → has_client_wwpns vs (split_at is_blank w) ≡ first_of (only (has_pair w) (client_maps vs))
unfolding has_client_wwpns
has_client_wwpns_lem w vs = first_vios_pair w vs

module _ (vs : List Vios) where
  -- The first mapping that has the pair.
  abbrev pub map_of : String → Option (Vios × VfcMapping)
  map_of w = first_of (only (has_pair w) (client_maps vs))

  abbrev pub is_backed : Option (Vios × VfcMapping) → Bool
  is_backed none = false
  is_backed (some (v, m)) = is_some m.backing_port

  -- The pairs that no mapping has.
  abbrev pub new_pairs : List String → List String
  new_pairs = only (λ w. not (is_some (map_of w)))

  -- The pairs whose mapping has a backing port.
  abbrev pub backed_pairs : List String → List String
  backed_pairs = only (λ w. is_backed (map_of w))

  -- The pair with the WWPN of the backing port of its mapping.
  abbrev pub IsKept : Mapping → Type 0
  IsKept (p, w) =
      (v : Vios) × (m : VfcMapping) × (b : BackingPort) × (map_of w ≡ some (v, m))
      × (m.backing_port ≡ some b)
      × (p ≡ wwpn_text b.port_wwpn)

  sort_out_lem :
      (w : String) (o : Option (Vios × VfcMapping)) (maps : List Mapping) (new : List String)
      → map_of w ≡ o
      → All IsKept maps
      → (fused_of (sort_out true w o (maps, new)).0
          ≡ (if is_backed o then w ∷ fused_of maps else fused_of maps))
        × ((sort_out true w o (maps, new)).1 ≡ (if not (is_some o) then w ∷ new else new))
        × All IsKept (sort_out true w o (maps, new)).0
  unfolding sort_out
  sort_out_lem w none maps new at h = (refl, refl, h)
  sort_out_lem w (some (v, m)) maps new at h = elim (Option-cases m.backing_port) [
    | inl e ↦ rw e (refl, refl, h)
    | inr (b, e) ↦ rw e (refl, refl, ((v, m, b, at, e, refl), h))
  ]

  detect_lem :
      (ws : List String)
      → (fused_of (detect vs true ws).0 ≡ backed_pairs ws)
        × ((detect vs true ws).1 ≡ new_pairs ws)
        × All IsKept (detect vs true ws).0
  unfolding detect
  detect_lem [] = (refl, refl, tt)
  detect_lem (w ∷ ws) =
      let (kept, new, all) = detect_lem ws in
      let (here, there, more) =
        sort_out_lem w (map_of w) (detect vs true ws).0 (detect vs true ws).1 refl all in
      rw (has_client_wwpns_lem w vs) (
        here ∙ ap (λ xs. if is_backed (map_of w) then w ∷ xs else xs) kept,
        there ∙ ap (λ xs. if not (is_some (map_of w)) then w ∷ xs else xs) new,
        more,
      )

  -- Where existing mappings are preserved, the derivation ends, within (the number of pairs that no
  -- mapping has + 1) * (the number of VIOSes + 1) passes. It answers with one new mapping to a usable
  -- port for each pair of client WWPNs that no mapping has, in order, followed by the pairs whose first
  -- mapping has a backing port, with the WWPN of that; a pair whose first mapping has no backing port
  -- is in neither part. Or it raises, IndexError only without VIOSes and otherwise
  -- UnableToFindFCPortMap: then some, but not all, pairs that no mapping has have new mappings like
  -- these, and each usable port is used by 128 of the new and preserved mappings at least.
  pub derive_map_lem :
      (fuel : ℕ) (p_port_wwpns v_port_wwpns : List String)
      → rounds (length vs) (new_pairs (fuse_vfc_ports v_port_wwpns)) ≤ fuel
      → ((e : NpivError) × (existing : List Mapping) × IsReasonFor vs
            (sanitized p_port_wwpns)
            existing
            e
          × (fused_of existing ≡ backed_pairs (fuse_vfc_ports v_port_wwpns))
          × All IsKept existing
          × IsBlocked vs
              (sanitized p_port_wwpns)
              existing
              []
              (new_pairs (fuse_vfc_ports v_port_wwpns))
          × (derive_map fuel vs p_port_wwpns v_port_wwpns true ≡ err e))
        ⊎ ((new existing : List Mapping) × AreNew vs
              (sanitized p_port_wwpns)
              existing
              (new_pairs (fuse_vfc_ports v_port_wwpns))
              new
            × (fused_of existing ≡ backed_pairs (fuse_vfc_ports v_port_wwpns))
            × All IsKept existing
            × (derive_map fuel vs p_port_wwpns v_port_wwpns true ≡ ok (new ++ existing)))
  unfolding derive_map
  derive_map_lem fuel p_port_wwpns v_port_wwpns h =
      let (kept, todo, all) = detect_lem (fuse_vfc_ports v_port_wwpns) in
      let sorted = detect vs true (fuse_vfc_ports v_port_wwpns) in
      elim (derive_npiv_map_lem vs (sanitized p_port_wwpns) sorted.0 fuel sorted.1 (rw todo h)) [
        | inl (e, why, blocked, raised) ↦
            inl (e, sorted.0, why, kept, all, rw (sym todo) blocked, raised)
        | inr (new, (pairs, ports), found) ↦
            inr (new, sorted.0, (pairs ∙ todo, ports), kept, all, found)
      ]
