-- ===== src/NpivMap/UsedUp.antt =====
-- When no port can be chosen for a mapping (_find_map_port, pypowervm/tasks/vfc_mapper.py): all are used
-- up.
use pypowervm.Prelude.{
  ℕ, suc, zero, ◌+◌, ◌≤◌, ◌<◌, ◌≡◌, ◌≢◌, ◌⊎◌, refl, sym, ap, ◌∙◌, String, true, none, some, List,
  [], ◌∷◌, ltb, is_in, arith, Bool-cases, Option-cases, List-cases, inl, inr, text_eq, text_eq_iff,
  if◌then◌else◌,
}
use pypowervm.Prelude.Keyed.{get, put, get-put, text_key}
use pypowervm.Sanitize.{sanitize_wwpn_for_api}
use pypowervm.NpivMap.{
  Port, Vios, Mapping, PortDict, ports_in, port_dict, count_uses, used, least_used, most_available,
  find_map_port, find_ports_on_vio,
}
use pypowervm.NpivMap.Ports.{has_port}

-- How many of the mappings use the physical port.
abbrev pub uses : String → List Mapping → ℕ
uses w [] = 0
uses w ((u, v) ∷ ms) = if text_eq u w then suc (uses w ms) else uses w ms

some_is_available : (b : Port) (ps : List Port) → most_available (some b) ps ≢ none
unfolding most_available
some_is_available b [] h = ground arith
some_is_available b (p ∷ ps) h =
    elim (Bool-cases (ltb b.npiv_available_ports p.npiv_available_ports)) [
      | inl more ↦ some_is_available p ps (rw more at h)
      | inr less ↦ some_is_available b ps (rw less at h)
    ]

most_available-none : (ps : List Port) → most_available none ps ≡ none → ps ≡ []
unfolding most_available
most_available-none [] h = refl
most_available-none (p ∷ ps) h = absurd (some_is_available p ps h)

least_used-none :
    (k n : ℕ) (d : PortDict) → least_used k n d ≡ [] → (m : ℕ) → n ≤ m → m < n + k → used m d ≡ []
unfolding least_used
least_used-none zero n d h m a b = absurd (omega arith)
least_used-none (suc k) n d h m a b = elim (List-cases (used n d)) [
  | inl no_port ↦ elim (Bool-cases (ltb n m)) [
    | inl later ↦
        least_used-none k (n + 1) d (rw (no_port, least_used) at h) m (ground arith) (omega arith)
    | inr here ↦ (let e : m ≡ n = ground arith in rw e no_port)
  ]
  | inr (p, ps, found) ↦ absurd (let k = rw (found, least_used) at h in ground arith)
]

used_nonempty :
    (w : String) (n : ℕ) (p : Port) (d : PortDict) → get w d ≡ some (n, p) → used n d ≢ []
unfolding get used
used_nonempty w n p [] h e = ground arith
used_nonempty w n p ((j, (m, q)) ∷ d) h e = ground (arith, used_nonempty w n p d)

get-count_uses :
    (w : String) (ms : List Mapping) (d : PortDict) (n : ℕ) (p : Port)
    → get w d ≡ some (n, p)
    → (q : Port) × (get w (count_uses ms d) ≡ some (n + uses w ms, q))
unfolding count_uses
get-count_uses w [] d n p h = (p, ground arith)
get-count_uses w ((u, v) ∷ ms) d n p h = elim (Option-cases (get u d)) [
  | inl absent ↦ elim (Bool-cases (text_eq u w)) [
    | inl same ↦ absurd (ground (arith, text_eq_iff u w))
    | inr apart ↦ rw (absent, apart, count_uses) (get-count_uses w ms d n p h)
  ]
  | inr ((m, r), found) ↦ elim (Bool-cases (text_eq u w)) [
    | inl same ↦
        let at : get w (put u (m + 1, r) d) ≡ some (m + 1, r) =
          ground (arith, get-put u w (m + 1, r) d) in
        let e : m ≡ n = ground (arith, text_eq_iff u w) in
        let (q, more) = get-count_uses w ms (put u (m + 1, r) d) (m + 1) r at in
        (q, rw (found, same, count_uses) (more ∙ ap (λ x. some (x, q)) (omega (arith, e))))
    | inr apart ↦
        let at : get w (put u (m + 1, r) d) ≡ some (n, p) =
          ground (arith, get-put u w (m + 1, r) d) in
        rw (found, apart, count_uses) (get-count_uses w ms (put u (m + 1, r) d) n p at)
  ]
]

IsUnused : String → PortDict → Type 0
IsUnused w d = (q : Port) × (get w d ≡ some (0, q))

IsUnused-port_dict :
    (w : String) (ps : List Port) (d : PortDict)
    → IsUnused w d ⊎ (has_port w ps ≡ true)
    → IsUnused w (port_dict ps d)
unfolding port_dict IsUnused
IsUnused-port_dict w [] d (inl z) = z
IsUnused-port_dict w [] d (inr h) = absurd (ground arith)
IsUnused-port_dict w (p ∷ ps) d (inl (q, z)) = elim (Bool-cases (text_eq p.wwpn w)) [
  | inl same ↦
      IsUnused-port_dict w ps (put p.wwpn (0, p) d)
        (inl (p, ground (arith, get-put p.wwpn w (0, p) d)))
  | inr apart ↦
      IsUnused-port_dict w ps (put p.wwpn (0, p) d)
        (inl (q, ground (arith, get-put p.wwpn w (0, p) d)))
]
IsUnused-port_dict w (p ∷ ps) d (inr h) = elim (Bool-cases (text_eq p.wwpn w)) [
  | inl same ↦
      IsUnused-port_dict w ps (put p.wwpn (0, p) d)
        (inl (p, ground (arith, get-put p.wwpn w (0, p) d)))
  | inr apart ↦
      IsUnused-port_dict w ps (put p.wwpn (0, p) d)
        (inr (ground (arith, text_eq_iff p.wwpn w, text_eq_iff w p.wwpn)))
]

least_used_all :
    (k : ℕ) (w : String) (n : ℕ) (p : Port) (d : PortDict)
    → least_used k 0 d ≡ []
    → get w d ≡ some (n, p)
    → k ≤ n
least_used_all k w n p d h at = elim (Bool-cases (ltb n k)) [
  | inl few ↦
      absurd (used_nonempty w n p d at (least_used-none k 0 d h n (omega arith) (ground arith)))
  | inr many ↦ ground arith
]

-- Where no port is chosen, each of those offered is used by 128 mappings at least.
pub find_map_port-none :
    (ps : List Port) (ms : List Mapping) (w : String)
    → find_map_port ps ms ≡ none
    → has_port w ps ≡ true
    → 128 ≤ uses w ms
unfolding find_map_port IsUnused
find_map_port-none ps ms w h k =
    let d = count_uses ms (port_dict ps []) in
    let empty = most_available-none (least_used 128 0 d) h in
    let (q, z) = IsUnused-port_dict w ps [] (inr k) in
    let (r, at) = get-count_uses w ms (port_dict ps []) 0 q z in
    let enough = least_used_all 128 w (0 + uses w ms) r d empty at in omega (arith, enough)

has_port-ports_in :
    (wwpns : List String) (w : String) (ps : List Port)
    → has_port w ps ≡ true
    → is_in (sanitize_wwpn_for_api w) wwpns ≡ true
    → has_port w (ports_in wwpns ps) ≡ true
unfolding ports_in
has_port-ports_in wwpns w [] h k = h
has_port-ports_in wwpns w (p ∷ ps) h k = elim (Bool-cases (text_eq w p.wwpn)) [
  | inl same ↦
      let e : w ≡ p.wwpn = (text_eq_iff w p.wwpn).0 same in
      let known : is_in (sanitize_wwpn_for_api p.wwpn) wwpns ≡ true = rw (sym e) k in
      rw (known, same) refl
  | inr apart ↦ ground (arith, has_port-ports_in wwpns w ps)
]

-- A VIOS on which no port can be chosen has no port of those given that is used by fewer mappings.
abbrev pub IsFull : List String → List Mapping → Vios → Type 0
IsFull wwpns ms v =
    (w : String)
    → has_port w v.pfc_ports ≡ true
    → is_in (sanitize_wwpn_for_api w) wwpns ≡ true
    → 128 ≤ uses w ms

pub no_port-IsFull :
    (wwpns : List String) (ms : List Mapping) (v : Vios)
    → (find_ports_on_vio v wwpns ≡ []) ⊎ (find_map_port (find_ports_on_vio v wwpns) ms ≡ none)
    → IsFull wwpns ms v
unfolding find_ports_on_vio
no_port-IsFull wwpns ms v (inl e) w h k =
    let at = has_port-ports_in wwpns w v.pfc_ports h k in
    let gone = rw e at at in absurd (ground arith)
no_port-IsFull wwpns ms v (inr e) w h k =
    find_map_port-none (find_ports_on_vio v wwpns) ms w e
      (has_port-ports_in wwpns w v.pfc_ports h k)
