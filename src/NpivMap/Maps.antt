-- ===== src/NpivMap/Maps.antt =====
-- Searching, adding and removing virtual Fibre Channel mappings, and the NPIV map of a client
-- (pypowervm/tasks/vfc_mapper.py, VFCMapping of pypowervm/wrappers/virtual_io_server.py).
use pypowervm.Prelude.{
  ℕ, zero, suc, String, Bool, true, false, ◌&&◌, Option, none, some, List, [], ◌∷◌, ◌++◌, ◌==◌,
  text_eq, if◌then◌else◌,
}
use pypowervm.Exec.{Result, ok, err}
use pypowervm.Href.{Url}
use pypowervm.ScsiMap.{LparId, short, uuid, path_uuid, option_eq}
use pypowervm.NpivMap.{
  BackingPort, VfcMapping, Vios, Mapping, NpivError, unable_to_derive_physical_port, fuse_vfc_ports,
  derive_npiv_map,
}
use pypowervm.NpivMap.Wwpns.{
  is_blank, split_at, words, sanitized, same_wwpns, adapter_wwpns, find_vios_for_wwpn,
  has_client_wwpns,
}

abbrev pub any_wwpn : String
any_wwpn = "-1"

abbrev pub fused_any_wwpn : String
fused_any_wwpn = "-1 -1"

-- The mapping is to the client: by the href for a UUID, by the server adapter for a short ID.
unfoldable pub is_of_client : LparId → VfcMapping → Bool
is_of_client (uuid u) m = option_eq (some u) (path_uuid true m.client_lpar_href)
is_of_client (short n) m = elim m.lpar_id [ none ↦ false | some k ↦ k == n ]

-- `wwpns == ['-1', '-1']`
abbrev pub is_any : List String → Bool
is_any (a ∷ b ∷ []) = text_eq a any_wwpn && text_eq b any_wwpn
is_any _ = false

abbrev pub has_none : List String → Bool
has_none [] = true
has_none (w ∷ ws) = false

-- The client adapter's WWPNs are the same. The source's test `client_adpt.wwpns != {'-1'}` compares
-- a list with a set, so it lets every client adapter pass.
unfoldable pub is_of_adapter : Option (List String) → VfcMapping → Bool
unfolding same_wwpns
is_of_adapter none m = true
is_of_adapter (some wwpns) m = adapter_wwpns (λ ws. same_wwpns wwpns ws) m.client_adapter

unfoldable pub is_of_wwpns : List String → List String → Bool
unfolding same_wwpns
is_of_wwpns v_wwpns ws = if is_any v_wwpns then has_none ws else same_wwpns ws v_wwpns

unfoldable pub is_of_port_map : Option Mapping → VfcMapping → Bool
unfolding is_of_wwpns words sanitized
is_of_port_map none m = true
is_of_port_map (some (p_wwpn, fused)) m =
    adapter_wwpns (λ ws. is_of_wwpns (sanitized (words fused)) ws) m.client_adapter

unfoldable pub find_maps :
    LparId → Option (List String) → Option Mapping → List VfcMapping → List VfcMapping
unfolding is_of_client is_of_adapter is_of_port_map
find_maps client_lpar_id client_adpt port_map [] = []
find_maps client_lpar_id client_adpt port_map (m ∷ ms) =
    let rest = find_maps client_lpar_id client_adpt port_map ms in
    if is_of_client client_lpar_id m && is_of_adapter client_adpt m && is_of_port_map port_map m
    then m ∷ rest
    else rest

-- `vfc_mappings.remove(m)`, which goes by the identity of the element.
unfoldable pub remove_map : VfcMapping → List VfcMapping → List VfcMapping
remove_map m [] = []
remove_map m (x ∷ xs) =
    let rest = remove_map m xs in if x.element == m.element then xs else x ∷ rest

unfoldable pub remove_each : List VfcMapping → List VfcMapping → List VfcMapping
unfolding remove_map
remove_each [] ms = ms
remove_each (f ∷ fs) ms = remove_each fs (remove_map f ms)

-- The mappings removed and the wrapper without them.
unfoldable pub remove_maps :
    Vios → LparId → Option (List String) → Option Mapping → List VfcMapping × Vios
unfolding find_maps remove_each
remove_maps v client_lpar_id client_adpt port_map =
    let found = find_maps client_lpar_id client_adpt port_map v.vfc_mappings in
    (found, record v { vfc_mappings = remove_each found v.vfc_mappings })

-- PhysFCPort.bld_ref
abbrev pub bld_ref : String → BackingPort
bld_ref name = record { port_name = name; port_wwpn = none }

-- What the adapter reads of the WWPNs that it was built with: they are upper case and have no blank,
-- so they come back as they are, and only no WWPN at all comes back as one that is empty.
abbrev pub built_wwpns : Option (List String) → List String
built_wwpns none = []
built_wwpns (some []) = "" ∷ []
built_wwpns (some (w ∷ ws)) = w ∷ ws

-- VFCMapping.bld, with the identity of the new element and the client's href.
unfoldable pub bld : ℕ → Url → String → Option (List String) → Option ℕ → VfcMapping
bld element href backing_phy_port adapter_wwpns lpar_slot_num = record {
  element = element;
  client_lpar_href = some href;
  client_adapter = some (record { wwpns = built_wwpns adapter_wwpns; slot = lpar_slot_num });
  lpar_id = none;
  backing_port = some (bld_ref backing_phy_port);
}

-- The first mapping has the WWPNs: nothing is left to be done, or it gets its backing port.
unfoldable pub back_first :
    String → VfcMapping → List VfcMapping → Option BackingPort → Option VfcMapping × List VfcMapping
back_first name m ms (some b) = (none, m ∷ ms)
back_first name m ms none =
    let m' = record m { backing_port = some (bld_ref name) } in (some m', m' ∷ ms)

abbrev pub behind :
    VfcMapping
    → Option (Option VfcMapping × List VfcMapping)
    → Option (Option VfcMapping × List VfcMapping)
behind m none = none
behind m (some (r, ms)) = some (r, m ∷ ms)

-- The loop over the mappings of add_map. Nothing where none has the WWPNs; else the mapping that is
-- returned, and the mappings, of which the one found has a backing port.
unfoldable pub back_existing :
    List String → String → List VfcMapping → Option (Option VfcMapping × List VfcMapping)
unfolding same_wwpns back_first
back_existing v_wwpns name [] = none
back_existing v_wwpns name (m ∷ ms) =
    let rest = behind m (back_existing v_wwpns name ms) in
    if adapter_wwpns (λ ws. same_wwpns ws v_wwpns) m.client_adapter
    then some (back_first name m ms m.backing_port)
    else rest

unfoldable pub append_map : VfcMapping → Vios → Option VfcMapping × Vios
append_map m v = (some m, record v { vfc_mappings = v.vfc_mappings ++ m ∷ [] })

-- From `v_wwpns = None` on.
unfoldable pub add_or_back :
    ℕ → Url → Vios → String → Option (List String) → Option ℕ → Option VfcMapping × Vios
unfolding back_existing append_map bld
add_or_back element href v name none slot = append_map (bld element href name none slot) v
add_or_back element href v name (some ws) slot = elim (back_existing ws name v.vfc_mappings) [
  | none ↦ append_map (bld element href name (some ws) slot) v
  | some (r, ms) ↦ (r, record v { vfc_mappings = ms })
]

-- The WWPNs of a port map, where they are known.
abbrev pub v_wwpns_of : String → Option (List String)
v_wwpns_of fused = if text_eq fused fused_any_wwpn then none else some (sanitized (words fused))

-- The mapping that was added or got its backing port, and the wrapper.
unfoldable pub add_map :
    ℕ → Url → Vios → Mapping → Bool → Option ℕ → Result NpivError (Option VfcMapping × Vios)
unfolding find_vios_for_wwpn add_or_back words sanitized
add_map element href v (p_wwpn, fused) error_if_invalid slot =
    elim (find_vios_for_wwpn (v ∷ []) p_wwpn) [
      | none ↦
          if error_if_invalid
          then err (unable_to_derive_physical_port p_wwpn v.vios_href)
          else ok (none, v)
      | some (w, port) ↦ ok (add_or_back element href v port.name (v_wwpns_of fused) slot)
    ]

-- The WWPN of a backing port. None, which is no port's WWPN, is the empty text.
abbrev pub wwpn_text : Option String → String
wwpn_text none = ""
wwpn_text (some w) = w

-- What becomes of a fused pair that a mapping with those client WWPNs may have.
unfoldable pub sort_out :
    Bool
    → String
    → Option (Vios × VfcMapping)
    → List Mapping × List String
    → List Mapping × List String
sort_out preserve w none (existing, new) = (existing, w ∷ new)
sort_out preserve w (some (v, m)) (existing, new) =
    if preserve
    then (elim m.backing_port [
      | none ↦ (existing, new)
      | some b ↦ ((wwpn_text b.port_wwpn, w) ∷ existing, new)
    ])
    else (existing, w ∷ new)

-- The loop of derive_npiv_map: the existing mappings and the pairs to be mapped.
unfoldable pub detect : List Vios → Bool → List String → List Mapping × List String
unfolding has_client_wwpns split_at sort_out
detect vios_wraps preserve [] = ([], [])
detect vios_wraps preserve (w ∷ ws) =
    sort_out preserve w (has_client_wwpns vios_wraps (split_at is_blank w))
      (detect vios_wraps preserve ws)

-- derive_npiv_map, with fuel for the loop of _derive_npiv_map.
unfoldable pub derive_map :
    ℕ → List Vios → List String → List String → Bool → Result NpivError (List Mapping)
unfolding detect fuse_vfc_ports sanitized derive_npiv_map
derive_map fuel vios_wraps p_port_wwpns v_port_wwpns preserve =
    let (existing, new) = detect vios_wraps preserve (fuse_vfc_ports v_port_wwpns) in
    derive_npiv_map vios_wraps (sanitized p_port_wwpns) existing fuel new

-- [_ANY_WWPN] * n * 2
unfoldable pub markers : ℕ → List String
markers zero = []
markers (suc n) = any_wwpn ∷ any_wwpn ∷ markers n

unfoldable pub derive_base_npiv_map :
    ℕ → List Vios → List String → ℕ → Result NpivError (List Mapping)
unfolding derive_map markers
derive_base_npiv_map fuel vios_wraps p_port_wwpns v_port_count =
    derive_map fuel vios_wraps p_port_wwpns (markers v_port_count) true
