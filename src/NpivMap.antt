-- ===== src/NpivMap.antt =====
-- Virtual Fibre Channel mappings, and the choice of physical ports for them
-- (pypowervm/tasks/vfc_mapper.py, VFCMapping of pypowervm/wrappers/virtual_io_server.py).
pub mod Ports
pub mod UsedUp
pub mod Turns
pub mod Derive
pub mod Choice
pub mod Wwpns
pub mod Maps
pub mod Migrate
pub mod Preserved
pub mod Added
pub mod Placed
pub mod Finite
pub mod Undone
pub mod Pairs
mod Examples
mod MapExamples
use pypowervm.Prelude.{
  ℕ, suc, zero, ◌+◌, ◌%◌, String, ◌<>◌, Bool, true, false, Option, none, some, List, [], ◌∷◌, ◌++◌,
  ◌==◌, ltb, is_in, if◌then◌else◌, length, get_elem?,
}
use pypowervm.Prelude.Keyed.{get, put, text_key}
use pypowervm.Exec.{Result, ok, err, hang}
use pypowervm.Sanitize.{sanitize_wwpn_for_api}
use pypowervm.Href.{Url}

pub record Port : Type 0 where
  pub wwpn : String
  pub name : String
  pub npiv_available_ports : ℕ

-- The WWPNs as the adapter's property reads them.
pub record ClientAdapter : Type 0 where
  pub wwpns : List String
  pub slot : Option ℕ

-- A port that was only built as a reference has no WWPN.
pub record BackingPort : Type 0 where
  pub port_name : String
  pub port_wwpn : Option String

-- `element` is the identity of the mapping's XML element, `lpar_id` that of its server adapter.
pub record VfcMapping : Type 0 where
  pub element : ℕ
  pub client_lpar_href : Option Url
  pub client_adapter : Option ClientAdapter
  pub lpar_id : Option ℕ
  pub backing_port : Option BackingPort

-- `object` is the identity of the wrapper, by which it is a key of a dictionary.
pub record Vios : Type 0 where
  pub object : ℕ
  pub vios_name : String
  pub vios_id : ℕ
  pub vios_href : String
  pub pfc_ports : List Port
  pub vfc_mappings : List VfcMapping

pub data NpivError : Type 0 where
  unable_to_find_fc_port_map : NpivError
  index_error : NpivError
  attribute_error : NpivError
  unable_to_derive_physical_port : String → String → NpivError

-- (p_port_wwpn, fused_vfc_port_wwpn)
abbrev pub Mapping : Type 0
Mapping = String × String

-- _fuse_vfc_ports: a last WWPN without a partner is left out.
unfoldable pub fuse_vfc_ports : List String → List String
unfolding sanitize_wwpn_for_api
fuse_vfc_ports [] = []
fuse_vfc_ports (a ∷ []) = []
fuse_vfc_ports (a ∷ b ∷ ws) =
    (sanitize_wwpn_for_api a <> (" " <> sanitize_wwpn_for_api b)) ∷ fuse_vfc_ports ws

unfoldable pub ports_in : List String → List Port → List Port
unfolding is_in sanitize_wwpn_for_api
ports_in wwpns [] = []
ports_in wwpns (p ∷ ps) =
    let rest = ports_in wwpns ps in
    if is_in (sanitize_wwpn_for_api p.wwpn) wwpns then p ∷ rest else rest

unfoldable pub find_ports_on_vio : Vios → List String → List Port
unfolding ports_in
find_ports_on_vio vio p_port_wwpns = ports_in p_port_wwpns vio.pfc_ports

-- The ports by WWPN, each with the number of mappings that use it.
abbrev pub PortDict : Type 0
PortDict = List (String × (ℕ × Port))

unfoldable pub port_dict : List Port → PortDict → PortDict
unfolding put
port_dict [] d = d
port_dict (p ∷ ps) d = port_dict ps (put p.wwpn (0, p) d)

unfoldable pub count_uses : List Mapping → PortDict → PortDict
unfolding get put
count_uses [] d = d
count_uses ((w, v) ∷ ms) d = elim (get w d) [
  | none ↦ count_uses ms d
  | some (n, p) ↦ count_uses ms (put w (n + 1, p) d)
]

unfoldable pub used : ℕ → PortDict → List Port
used n [] = []
used n ((w, (m, p)) ∷ d) = let rest = used n d in if m == n then p ∷ rest else rest

-- The ports with the lowest use that some port has, looked for from a number of uses up, as often as
-- the first argument says.
unfoldable pub least_used : ℕ → ℕ → PortDict → List Port
unfolding used
least_used zero n d = []
least_used (suc k) n d =
    let rest = least_used k (n + 1) d in elim (used n d) [ [] ↦ rest | p ∷ ps ↦ p ∷ ps ]

unfoldable pub most_available : Option Port → List Port → Option Port
most_available best [] = best
most_available none (p ∷ ps) = most_available (some p) ps
most_available (some b) (p ∷ ps) =
    most_available (if ltb b.npiv_available_ports p.npiv_available_ports then some p else some b) ps

unfoldable pub find_map_port : List Port → List Mapping → Option Port
unfolding port_dict count_uses least_used most_available
find_map_port potential_ports mappings =
    most_available none (least_used 128 0 (count_uses mappings (port_dict potential_ports [])))

-- The loop of _derive_npiv_map, over the fused WWPNs that are still to be mapped, with the position
-- of the next VIOS, the passes since the last mapping and the mappings built.
module _ (vios_wraps : List Vios) (p_port_wwpns : List String) (existing_maps : List Mapping) where
  unfoldable pub derive_loop :
      ℕ → List String → ℕ → ℕ → List Mapping → Result NpivError (List Mapping)
  unfolding find_ports_on_vio find_map_port
  derive_loop fuel [] pos loops built = ok (built ++ existing_maps)
  derive_loop zero (w ∷ ws) pos loops built = hang
  derive_loop (suc fuel) (w ∷ ws) pos loops built = elim (get_elem? vios_wraps pos) [
    | none ↦ err index_error
    | some vio ↦ elim (ltb (length vios_wraps) (loops + 1)) [
      | true ↦ err unable_to_find_fc_port_map
      | false ↦
          let next = (pos + 1) % length vios_wraps in
          elim (find_ports_on_vio vio p_port_wwpns) [
            | [] ↦ derive_loop fuel (w ∷ ws) next (loops + 1) built
            | p ∷ ps ↦ elim (find_map_port (p ∷ ps) (built ++ existing_maps)) [
              | none ↦ derive_loop fuel (w ∷ ws) next (loops + 1) built
              | some port ↦ derive_loop fuel ws next 0 (built ++ (port.wwpn, w) ∷ [])
            ]
          ]
    ]
  ]

  -- _derive_npiv_map
  unfoldable pub derive_npiv_map : ℕ → List String → Result NpivError (List Mapping)
  unfolding derive_loop
  derive_npiv_map fuel new_fused_wwpns = derive_loop fuel new_fused_wwpns 0 0 []
