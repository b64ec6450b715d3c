-- ===== src/NpivMap/Choice.antt =====
-- Which of the physical ports is chosen for a mapping (_find_map_port, pypowervm/tasks/vfc_mapper.py).
use pypowervm.Prelude.{
  ℕ, suc, zero, ◌+◌, ◌≤◌, ◌<◌, ◌≡◌, ◌≢◌, ◌⊎◌, none, some, List, [], ◌∷◌, ltb, arith, All,
  Bool-cases, List-cases, inl, inr,
}
use pypowervm.NpivMap.{
  Port, Mapping, PortDict, port_dict, count_uses, used, least_used, most_available, find_map_port,
}

abbrev pub IsPortOf : Port → List Port → Type 0
IsPortOf p [] = ⊥
IsPortOf p (q ∷ qs) = (p ≡ q) ⊎ IsPortOf p qs

abbrev pub AreAtMost : ℕ → List Port → Type 0
AreAtMost n ps = All (λ (q : Port). q.npiv_available_ports ≤ n) ps

least_used-nonempty :
    (fuel start : ℕ) (d : PortDict) (p : Port) (ps : List Port)
    → least_used fuel start d ≡ p ∷ ps
    → (n : ℕ) × (used n d ≡ p ∷ ps) × ((m : ℕ) → start ≤ m → m < n → used m d ≡ [])
unfolding least_used
least_used-nonempty zero start d p ps h = absurd (ground arith)
least_used-nonempty (suc k) start d p ps h = elim (List-cases (used start d)) [
  | inl no_port ↦
      let (n, found, above) = least_used-nonempty k (start + 1) d p ps (ground arith) in
      (
        n,
        found,
        λ m a b. elim (Bool-cases (ltb start m)) [
          | inl later ↦ above m (ground arith) b
          | inr same ↦ (let e : m ≡ start = ground arith in rw (e) no_port)
        ],
      )
  | inr (q, qs, found) ↦ (start, ground arith, λ m a b. absurd (omega arith))
]

most_available_best :
    (best : Port) (ps : List Port) (p : Port)
    → most_available (some best) ps ≡ some p
    → IsPortOf p (best ∷ ps) × AreAtMost p.npiv_available_ports (best ∷ ps)
unfolding most_available
most_available_best best [] p h = (inl (ground arith), (ground arith, tt))
most_available_best best (q ∷ ps) p h =
    elim (Bool-cases (ltb best.npiv_available_ports q.npiv_available_ports)) [
      | inl more ↦
          let (at, most) = most_available_best q ps p (ground arith) in
          (inr at, (ground (arith, more, most.0), most))
      | inr less ↦
          let (at, most) = most_available_best best ps p (ground arith) in
          (
            elim at [ inl is_best ↦ inl is_best | inr later ↦ inr (inr later) ],
            (most.0, (ground (arith, less, most.0), most.1)),
          )
    ]

most_available-nil : (p : Port) → most_available none [] ≢ some p
unfolding most_available
most_available-nil p h = ground arith

most_available-cons :
    (q : Port) (ps : List Port) (p : Port)
    → most_available none (q ∷ ps) ≡ some p
    → IsPortOf p (q ∷ ps) × AreAtMost p.npiv_available_ports (q ∷ ps)
unfolding most_available
most_available-cons q ps p h = most_available_best q ps p h

-- The port that is chosen is one of the ports that the fewest mappings use, and none of these has
-- more free NPIV ports: it is among the ports used n times, no port is used less often, and no port
-- used n times has more of them.
find_map_port_lem :
    (ps : List Port) (ms : List Mapping) (port : Port)
    → find_map_port ps ms ≡ some port
    → (n : ℕ) × IsPortOf port (used n (count_uses ms (port_dict ps [])))
      × ((m : ℕ) → m < n → used m (count_uses ms (port_dict ps [])) ≡ [])
      × AreAtMost port.npiv_available_ports (used n (count_uses ms (port_dict ps [])))
unfolding find_map_port
find_map_port_lem ps ms port h =
    let d = count_uses ms (port_dict ps []) in
    elim (List-cases (least_used 128 0 d)) [
      | inl no_port ↦ absurd (most_available-nil port (rw no_port at h))
      | inr (p, more, found) ↦
          let (n, at, above) = least_used-nonempty 128 0 d p more found in
          let (is_one, most) = most_available-cons p more port (rw found at h) in
          (n, rw (at) is_one, (λ m b. above m (omega arith) b), rw (at) most)
    ]
