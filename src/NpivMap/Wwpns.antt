-- ===== src/NpivMap/Wwpns.antt =====
-- How WWPNs are taken from texts and compared, and what is found by them among the VIOSes
-- (pypowervm/tasks/vfc_mapper.py).
use Prim.Native.Char.{Char, code}
use pypowervm.Prelude.{
  String, Bool, true, false, not, ◌&&◌, ◌||◌, Option, none, some, List, [], ◌∷◌, ◌==◌, leb, only,
  is_in, is_some, text_eq, map, if◌then◌else◌,
}
use pypowervm.Sanitize.{sanitize_wwpn_for_api}
use pypowervm.NpivMap.{Port, ClientAdapter, VfcMapping, Vios, Mapping}

abbrev onto : Char → List String → List String
onto c [] = String.◌∷◌ c "" ∷ []
onto c (w ∷ ws) = String.◌∷◌ c w ∷ ws

-- What stands between the characters of a kind.
unfoldable pub split_at : (Char → Bool) → String → List String
split_at is_sep String.[] = "" ∷ []
split_at is_sep (String.◌∷◌ c s) =
    let rest = split_at is_sep s in if is_sep c then "" ∷ rest else onto c rest

abbrev pub is_blank : Char → Bool
is_blank c = code c == 32

-- What an ASCII text is split at by `split()`.
abbrev pub is_space : Char → Bool
is_space c = leb 9 (code c) && leb (code c) 13 || leb 28 (code c) && leb (code c) 32

-- `s.split()`
unfoldable pub words : String → List String
unfolding split_at
words s = only (λ w. not (text_eq w "")) (split_at is_space s)

unfoldable pub sanitized : List String → List String
unfolding sanitize_wwpn_for_api
sanitized ws = map sanitize_wwpn_for_api ws

unfoldable pub all_in : List String → List String → Bool
unfolding is_in
all_in [] ys = true
all_in (x ∷ xs) ys = is_in x ys && all_in xs ys

-- `set(xs) == set(ys)`
unfoldable pub same_wwpns : List String → List String → Bool
unfolding all_in
same_wwpns xs ys = all_in xs ys && all_in ys xs

module _ {A : Type 0} where
  -- The first element that passes the test.
  unfoldable pub find_first : (A → Bool) → List A → Option A
  find_first p [] = none
  find_first p (x ∷ xs) = let rest = find_first p xs in if p x then some x else rest

  -- The first VIOS with something to be found, and that.
  unfoldable pub first_vios : (Vios → Option A) → List Vios → Option (Vios × A)
  first_vios find [] = none
  first_vios find (v ∷ vs) =
      let rest = first_vios find vs in elim (find v) [ none ↦ rest | some a ↦ some (v, a) ]

unfoldable pub find_vios_for_wwpn : List Vios → String → Option (Vios × Port)
unfolding find_first first_vios sanitize_wwpn_for_api
find_vios_for_wwpn vios_wraps p_port_wwpn =
    first_vios
      (λ v.
        find_first (λ p. text_eq (sanitize_wwpn_for_api p.wwpn) (sanitize_wwpn_for_api p_port_wwpn))
          v.pfc_ports)
      vios_wraps

-- The client adapter is there and its WWPNs pass the test.
abbrev pub adapter_wwpns : (List String → Bool) → Option ClientAdapter → Bool
adapter_wwpns p none = false
adapter_wwpns p (some a) = p a.wwpns

unfoldable pub find_vios_for_vfc_wwpns : List Vios → List String → Option (Vios × VfcMapping)
unfolding find_first first_vios sanitized same_wwpns
find_vios_for_vfc_wwpns vios_wraps vfc_wwpns =
    first_vios
      (λ v.
        find_first
          (λ m.
            is_some m.backing_port
            && adapter_wwpns (λ ws. same_wwpns (sanitized vfc_wwpns) ws) m.client_adapter)
          v.vfc_mappings)
      vios_wraps

unfoldable pub intersect_wwpns : List String → List String → List String
unfolding is_in sanitized sanitize_wwpn_for_api
intersect_wwpns wwpn_set1 wwpn_set2 =
    only (λ y. is_in (sanitize_wwpn_for_api y) (sanitized wwpn_set2)) wwpn_set1

unfoldable pub has_client_wwpns : List Vios → List String → Option (Vios × VfcMapping)
unfolding find_first first_vios sanitized same_wwpns
has_client_wwpns vios_wraps client_wwpn_pair =
    first_vios
      (λ v.
        find_first
          (λ m.
            adapter_wwpns (λ ws. same_wwpns (sanitized ws) (sanitized client_wwpn_pair))
              m.client_adapter)
          v.vfc_mappings)
      vios_wraps

abbrev port_wwpn_of : Option Port → Option String
port_wwpn_of none = none
port_wwpn_of (some p) = some p.wwpn

unfoldable pub find_pfc_wwpn_by_name : Vios → String → Option String
unfolding find_first
find_pfc_wwpn_by_name v pfc_name =
    port_wwpn_of (find_first (λ p. text_eq p.name pfc_name) v.pfc_ports)

abbrev pub only_vios : {A : Type 0} → Option (Vios × A) → Option Vios
only_vios none = none
only_vios (some (v, a)) = some v

unfoldable pub find_vios_for_port_map : List Vios → Mapping → Option Vios
unfolding find_vios_for_vfc_wwpns find_vios_for_wwpn words
find_vios_for_port_map vios_wraps (p_wwpn, fused) =
    elim (find_vios_for_vfc_wwpns vios_wraps (words fused)) [
      | none ↦ only_vios (find_vios_for_wwpn vios_wraps p_wwpn)
      | some (v, m) ↦ some v
    ]
