-- ===== src/NpivMap/Derive.antt =====
-- What _derive_npiv_map of pypowervm/tasks/vfc_mapper.py answers, and that it ends.
use pypowervm.Prelude.{
  ℕ, suc, zero, ◌+◌, ◌≤◌, ◌<◌, ◌%◌, ◌≡◌, ◌⊎◌, refl, sym, ap, ◌∙◌, String, true, Option, none, some,
  List, [], ◌∷◌, ◌++◌, ltb, is_in, length, get_elem?, arith, All, Option-cases, List-cases,
  Bool-cases, inl, inr,
}
use mathlib.Core.List.{append-nil, append_assoc}
use mathlib.Core.Path.{subst}
use native.Mathlib.Nat.{mod-lt}
use pypowervm.Exec.{ok, err}
use pypowervm.Sanitize.{sanitize_wwpn_for_api}
use pypowervm.NpivMap.{
  Port, Vios, Mapping, NpivError, index_error, unable_to_find_fc_port_map, find_ports_on_vio,
  find_map_port, derive_loop, derive_npiv_map,
}
use pypowervm.NpivMap.Ports.{
  OnSome, has_port, IsUsable, ports_in-All, some_vios_has-get_elem?, find_map_port-OnSome,
}
use pypowervm.NpivMap.Turns.{
  none_or_some, IsFullAt, AreTried, AreUsedUp, none_there, full_at, next_tried, untried,
  raised-AreUsedUp,
}

OnSome_of : (P : Port → Type 0) (o : Option Port) (p : Port) → o ≡ some p → OnSome P o → P p
OnSome_of P none p h k = absurd (ground arith)
OnSome_of P (some q) p h k = let e : q ≡ p = ground arith in rw (sym e) k

-- (length todo + 1) * (n + 1)
abbrev pub rounds : ℕ → List String → ℕ
rounds n [] = n + 1
rounds n (w ∷ ws) = rounds n ws + (n + 1)

abbrev pub fused_of : List Mapping → List String
fused_of [] = []
fused_of ((p, w) ∷ ms) = w ∷ fused_of ms

module _ (vs : List Vios) (wwpns : List String) (existing : List Mapping) where
  chosen-IsUsable :
      (pos : ℕ) (vio : Vios) (ms : List Mapping) (port : Port)
      → get_elem? vs pos ≡ some vio
      → find_map_port (find_ports_on_vio vio wwpns) ms ≡ some port
      → IsUsable vs wwpns port.wwpn
  unfolding find_ports_on_vio
  chosen-IsUsable pos vio ms port at found =
      let P : Port → Type 0 = λ p.
        (has_port p.wwpn vio.pfc_ports ≡ true)
        × (is_in (sanitize_wwpn_for_api p.wwpn) wwpns ≡ true) in
      let of_vio = OnSome_of P (find_map_port (find_ports_on_vio vio wwpns) ms) port found (
        find_map_port-OnSome P (find_ports_on_vio vio wwpns) ms
          (ports_in-All wwpns vio.pfc_ports)) in
      (some_vios_has-get_elem? port.wwpn vs pos vio at of_vio.0, of_vio.1)

  -- Which exception is raised.
  abbrev pub IsReasonFor : NpivError → Type 0
  IsReasonFor e = ((e ≡ index_error) × (length vs ≡ 0)) ⊎ (e ≡ unable_to_find_fc_port_map)

  -- One pass of the loop: it is past the end of the VIOSes or has tried them all, goes on to the next
  -- VIOS, or maps a usable port.
  derive_loop-cases :
      (fuel : ℕ) (w : String) (ws : List String) (pos loops : ℕ) (built : List Mapping)
      → ((e : NpivError) × ((get_elem? vs pos ≡ none) ⊎ (length vs < loops + 1))
          × ((length vs ≡ 0) ⊎ (pos < length vs) → IsReasonFor e)
          × (derive_loop vs wwpns existing (suc fuel) (w ∷ ws) pos loops built ≡ err e))
        ⊎ (((loops + 1 ≤ length vs)
              × IsFullAt vs wwpns (built ++ existing) pos
              × (derive_loop vs wwpns existing (suc fuel) (w ∷ ws) pos loops built
                  ≡ derive_loop vs wwpns existing fuel
                      (w ∷ ws)
                      ((pos + 1) % length vs)
                      (loops + 1)
                      built))
            ⊎ ((u : String) × (loops + 1 ≤ length vs)
                × IsUsable vs wwpns u
                × (derive_loop vs wwpns existing (suc fuel) (w ∷ ws) pos loops built
                    ≡ derive_loop vs wwpns existing fuel ws
                        ((pos + 1) % length vs)
                        0
                        (built ++ (u, w) ∷ []))))
  unfolding derive_loop
  derive_loop-cases fuel w ws pos loops built = elim (Option-cases (get_elem? vs pos)) [
    | inl absent ↦ inl (
      index_error,
      inl absent,
      λ within. inl (refl, none_there vs wwpns pos absent within),
      rw (derive_loop, absent) refl,
    )
    | inr (vio, at) ↦ elim (Bool-cases (ltb (length vs) (loops + 1))) [
      | inl over ↦ inl (
        unable_to_find_fc_port_map,
        inr (ground arith),
        λ within. inr refl,
        rw (derive_loop, at, over) refl,
      )
      | inr within ↦ elim (List-cases (find_ports_on_vio vio wwpns)) [
        | inl no_port ↦ inr (
            inl (
              ground arith,
              full_at vs wwpns pos vio (built ++ existing) at (inl no_port),
              rw (derive_loop, at, within, no_port) refl,
            ))
        | inr (p, ps, ports) ↦ elim (Option-cases (find_map_port (p ∷ ps) (built ++ existing))) [
          | inl no_port ↦ inr (
              inl (
                ground arith,
                full_at vs wwpns pos vio (built ++ existing) at (inr (rw (ports) no_port)),
                rw (derive_loop, at, within, ports, no_port) refl,
              ))
          | inr (port, found) ↦ inr (
              inr (
                port.wwpn,
                ground arith,
                chosen-IsUsable pos vio (built ++ existing) port at (rw (ports) found),
                rw (derive_loop, at, within, ports, found) refl,
              ))
        ]
      ]
    ]
  ]

  -- New mappings: one for each fused pair, in order, each on a usable port.
  abbrev pub AreNew : List String → List Mapping → Type 0
  AreNew todo new = (fused_of new ≡ todo) × All (λ (m : Mapping). IsUsable vs wwpns m.0) new

  -- Some pairs have got new mappings, beside those built before, and then all ports are used up while
  -- there is still a pair to map.
  abbrev pub IsBlocked : List Mapping → List String → Type 0
  IsBlocked built todo =
      (done : List String) × (w : String) × (rest : List String) × (new : List Mapping) × (todo
        ≡ done ++ w ∷ rest)
      × AreNew done new
      × AreUsedUp vs wwpns ((built ++ new) ++ existing)

  derive_loop_lem :
      (fuel : ℕ) (todo : List String) (pos loops : ℕ) (built : List Mapping)
      → loops ≤ length vs
      → rounds (length vs) todo ≤ fuel + loops
      → (length vs ≡ 0) ⊎ (pos < length vs)
      → AreTried vs wwpns pos loops (built ++ existing)
      → ((e : NpivError) × IsReasonFor e
          × IsBlocked built todo
          × (derive_loop vs wwpns existing fuel todo pos loops built ≡ err e))
        ⊎ ((new : List Mapping) × AreNew todo new
            × (derive_loop vs wwpns existing fuel todo pos loops built
                ≡ ok ((built ++ new) ++ existing)))
  derive_loop_lem fuel [] pos loops built h k below tried = inr (
    [],
    (refl, tt),
    unfold derive_loop in ap (λ ms. ok (ms ++ existing)) (sym (append-nil built)),
  )
  derive_loop_lem zero (w ∷ ws) pos loops built h k below tried = absurd (omega arith)
  derive_loop_lem (suc fuel) (w ∷ ws) pos loops built h k below tried =
      let next = (pos + 1) % length vs in
      elim (derive_loop-cases fuel w ws pos loops built) [
        | inl (e, over, reason, raised) ↦
            let used_up =
              raised-AreUsedUp vs wwpns pos loops (built ++ existing) below h over tried in
            inl (
              e,
              reason below,
              ([], w, ws, [], refl, (refl, tt), rw (append-nil built) used_up),
              raised,
            )
        | inr (inl (within, full, same)) ↦
            let (tried', below') =
              next_tried vs wwpns pos loops (built ++ existing) below within full tried in
            rw (same) (
              derive_loop_lem fuel (w ∷ ws) next (loops + 1) built within (omega arith) below'
                tried')
        | inr (inr (u, within, usable, same)) ↦
            elim (derive_loop_lem fuel ws next 0 (built ++ (u, w) ∷ []) (omega arith) (omega arith)
              (inr (mod-lt (pos + 1) (omega arith)))
              (untried vs wwpns next ((built ++ (u, w) ∷ []) ++ existing))) [
                | inl (e, why, (done, w', rest, new, split, (all, ports), used_up), raised) ↦ inl (
                  e,
                  why,
                  (
                    w ∷ done,
                    w',
                    rest,
                    (u, w) ∷ new,
                    ap (λ ws. w ∷ ws) split,
                    (ap (λ ws. w ∷ ws) all, (usable, ports)),
                    subst (λ ms. AreUsedUp vs wwpns (ms ++ existing))
                        (append_assoc built ((u, w) ∷ []) new) used_up,
                  ),
                  same ∙ raised,
                )
                | inr (new, (all, ports), result) ↦ inr (
                  (u, w) ∷ new,
                  (ap (λ ws. w ∷ ws) all, (usable, ports)),
                  same
                      ∙ result
                      ∙ ap (λ ms. ok (ms ++ existing)) (append_assoc built ((u, w) ∷ []) new),
                )
              ]
      ]

  -- The derivation ends, within (the number of pairs + 1) * (the number of VIOSes + 1) passes. It
  -- answers with one new mapping for each fused pair, in their order, followed by the existing
  -- mappings; the port of each new mapping is on one of the VIOSes and its sanitized WWPN is among the
  -- WWPNs that were given. Or it raises: some pairs have such mappings, and then each port that may be
  -- used is used by 128 mappings at least.
  pub derive_npiv_map_lem :
      (fuel : ℕ) (new_fused_wwpns : List String)
      → rounds (length vs) new_fused_wwpns ≤ fuel
      → ((e : NpivError) × IsReasonFor e
          × IsBlocked [] new_fused_wwpns
          × (derive_npiv_map vs wwpns existing fuel new_fused_wwpns ≡ err e))
        ⊎ ((new : List Mapping) × AreNew new_fused_wwpns new
            × (derive_npiv_map vs wwpns existing fuel new_fused_wwpns ≡ ok (new ++ existing)))
  unfolding derive_npiv_map
  derive_npiv_map_lem fuel todo h =
      derive_loop_lem fuel todo 0 0 [] (omega arith) (omega arith) (none_or_some (length vs))
        (untried vs wwpns 0 existing)
