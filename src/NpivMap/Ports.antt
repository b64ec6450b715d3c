-- ===== src/NpivMap/Ports.antt =====
-- The port that is chosen for a mapping is one that may be used (pypowervm/tasks/vfc_mapper.py).
use pypowervm.Prelude.{
  ℕ, suc, zero, ◌+◌, ◌≡◌, sym, String, Bool, true, false, Option, none, some, List, [], ◌∷◌, ◌==◌,
  ltb, is_in, get_elem?, arith, All, Option-cases, Bool-cases, inl, inr, ◌||◌, text_eq, text_eq_iff,
}
use pypowervm.Prelude.Keyed.{get, put, text_key}
use pypowervm.Sanitize.{sanitize_wwpn_for_api}
use pypowervm.NpivMap.{
  Port, Vios, Mapping, PortDict, ports_in, port_dict, count_uses, used, least_used, most_available,
  find_map_port,
}

abbrev pub AllPorts : (Port → Type 0) → PortDict → Type 0
AllPorts P [] = Unit
AllPorts P ((w, (n, p)) ∷ d) = P p × AllPorts P d

abbrev pub OnSome : (Port → Type 0) → Option Port → Type 0
OnSome P none = Unit
OnSome P (some p) = P p

-- A property of all ports that are offered is one of the port that is chosen.
module _ (P : Port → Type 0) where
  put-AllPorts :
      (w : String) (n : ℕ) (p : Port) (d : PortDict)
      → P p
      → AllPorts P d
      → AllPorts P (put w (n, p) d)
  unfolding put
  put-AllPorts w n p [] h k = (h, tt)
  put-AllPorts w n p ((j, (m, q)) ∷ d) h k = elim (Bool-cases (text_eq j w)) [
    | inl here ↦ rw (here) (h, k.1)
    | inr there ↦ rw (there) (k.0, put-AllPorts w n p d h k.1)
  ]

  get-AllPorts :
      (w : String) (n : ℕ) (p : Port) (d : PortDict) → AllPorts P d → get w d ≡ some (n, p) → P p
  unfolding get
  get-AllPorts w n p [] k h = absurd (ground arith)
  get-AllPorts w n p ((j, (m, q)) ∷ d) k h = elim (Bool-cases (text_eq j w)) [
    | inl here ↦ let e : q ≡ p = ground arith in rw (sym e) k.0
    | inr there ↦ get-AllPorts w n p d k.1 (ground arith)
  ]

  port_dict-AllPorts :
      (ps : List Port) (d : PortDict) → All P ps → AllPorts P d → AllPorts P (port_dict ps d)
  unfolding port_dict
  port_dict-AllPorts [] d h k = k
  port_dict-AllPorts (p ∷ ps) d h k =
      port_dict-AllPorts ps (put p.wwpn (0, p) d) h.1 (put-AllPorts p.wwpn 0 p d h.0 k)

  count_uses-AllPorts :
      (ms : List Mapping) (d : PortDict) → AllPorts P d → AllPorts P (count_uses ms d)
  unfolding count_uses
  count_uses-AllPorts [] d k = k
  count_uses-AllPorts ((w, v) ∷ ms) d k = elim (Option-cases (get w d)) [
    | inl absent ↦ rw (absent, count_uses) (count_uses-AllPorts ms d k)
    | inr (entry, found) ↦
        rw (found, count_uses)
          (count_uses-AllPorts ms (put w (entry.0 + 1, entry.1) d)
            (put-AllPorts w (entry.0 + 1) entry.1 d (get-AllPorts w entry.0 entry.1 d k found) k))
  ]

  used-All : (n : ℕ) (d : PortDict) → AllPorts P d → All P (used n d)
  unfolding used
  used-All n [] k = tt
  used-All n ((w, (m, p)) ∷ d) k = elim (Bool-cases (m == n)) [
    | inl here ↦ rw (here) (k.0, used-All n d k.1)
    | inr there ↦ rw (there) (used-All n d k.1)
  ]

  or_else-All :
      (ps qs : List Port) → All P ps → All P qs → All P (elim ps [ [] ↦ qs | p ∷ more ↦ p ∷ more ])
  or_else-All [] qs h k = k
  or_else-All (p ∷ more) qs h k = h

  least_used-All : (fuel n : ℕ) (d : PortDict) → AllPorts P d → All P (least_used fuel n d)
  unfolding least_used
  least_used-All zero n d k = tt
  least_used-All (suc fuel) n d k =
      or_else-All (used n d) (least_used fuel (n + 1) d) (used-All n d k)
        (least_used-All fuel (n + 1) d k)

  most_available-OnSome :
      (best : Option Port) (ps : List Port)
      → OnSome P best
      → All P ps
      → OnSome P (most_available best ps)
  unfolding most_available
  most_available-OnSome none [] h k = tt
  most_available-OnSome (some b) [] h k = h
  most_available-OnSome none (p ∷ ps) h k = most_available-OnSome (some p) ps k.0 k.1
  most_available-OnSome (some b) (p ∷ ps) h k =
      elim (Bool-cases (ltb b.npiv_available_ports p.npiv_available_ports)) [
        | inl more ↦ rw (more) (most_available-OnSome (some p) ps k.0 k.1)
        | inr less ↦ rw (less) (most_available-OnSome (some b) ps h k.1)
      ]

  pub find_map_port-OnSome :
      (ps : List Port) (ms : List Mapping) → All P ps → OnSome P (find_map_port ps ms)
  unfolding find_map_port
  find_map_port-OnSome ps ms h =
      most_available-OnSome none _ tt
        (least_used-All 128 0 _ (count_uses-AllPorts ms _ (port_dict-AllPorts ps [] h tt)))

-- A physical port that may be used: a VIOS has it, and it is among the WWPNs that were given.
abbrev pub has_port : String → List Port → Bool
has_port w [] = false
has_port w (p ∷ ps) = text_eq w p.wwpn || has_port w ps

abbrev pub some_vios_has : String → List Vios → Bool
some_vios_has w [] = false
some_vios_has w (v ∷ vs) = has_port w v.pfc_ports || some_vios_has w vs

abbrev pub IsUsable : List Vios → List String → String → Type 0
IsUsable vs wwpns w = (some_vios_has w vs ≡ true) × (is_in (sanitize_wwpn_for_api w) wwpns ≡ true)

ports_in-All_of :
    (wwpns : List String) (ps all : List Port)
    → ((w : String) → has_port w ps ≡ true → has_port w all ≡ true)
    → All
        (λ p. (has_port p.wwpn all ≡ true) × (is_in (sanitize_wwpn_for_api p.wwpn) wwpns ≡ true))
        (ports_in wwpns ps)
unfolding ports_in
ports_in-All_of wwpns [] all h = tt
ports_in-All_of wwpns (p ∷ ps) all h =
    let rest = ports_in-All_of wwpns ps all (λ w k. h w (ground arith)) in
    elim (Bool-cases (is_in (sanitize_wwpn_for_api p.wwpn) wwpns)) [
      | inl known ↦ rw (known) ((h p.wwpn (ground (arith, text_eq_iff p.wwpn p.wwpn)), known), rest)
      | inr unknown ↦ rw (unknown) rest
    ]

pub ports_in-All :
    (wwpns : List String) (ps : List Port)
    → All
        (λ p. (has_port p.wwpn ps ≡ true) × (is_in (sanitize_wwpn_for_api p.wwpn) wwpns ≡ true))
        (ports_in wwpns ps)
ports_in-All wwpns ps = ports_in-All_of wwpns ps ps (λ w h. h)

pub some_vios_has-get_elem? :
    (w : String) (vs : List Vios) (i : ℕ) (v : Vios)
    → get_elem? vs i ≡ some v
    → has_port w v.pfc_ports ≡ true
    → some_vios_has w vs ≡ true
some_vios_has-get_elem? w [] i v h k = absurd (ground arith)
some_vios_has-get_elem? w (u ∷ vs) zero v h k = ground arith
some_vios_has-get_elem? w (u ∷ vs) (suc i) v h k =
    ground (arith, some_vios_has-get_elem? w vs i v h k)
