-- ===== src/NpivMap/Added.antt =====
-- Adding one virtual Fibre Channel mapping twice (add_map, pypowervm/tasks/vfc_mapper.py).
use pypowervm.Prelude.{
  ℕ, ◌≡◌, refl, ap, String, Bool, true, Option, none, some, List, [], ◌∷◌, ◌++◌, is_in, Bool-cases,
  Option-cases, inl, inr, arith, text_eq, text_eq_iff,
}
use pypowervm.Exec.{ok}
use pypowervm.Href.{Url}
use pypowervm.Sanitize.{sanitize_wwpn_for_api}
use pypowervm.NpivMap.{Port, BackingPort, VfcMapping, Vios}
use pypowervm.NpivMap.Wwpns.{
  all_in, same_wwpns, find_first, first_vios, adapter_wwpns, find_vios_for_wwpn,
}
use pypowervm.NpivMap.Maps.{
  bld_ref, v_wwpns_of, behind, back_first, back_existing, append_map, bld, add_or_back, add_map,
}

is_in_behind : (x y : String) (ys : List String) → is_in x ys ≡ true → is_in x (y ∷ ys) ≡ true
unfolding is_in
is_in_behind x y ys h = ground arith

all_in_behind : (y : String) (xs ys : List String) → all_in xs ys ≡ true → all_in xs (y ∷ ys) ≡ true
unfolding all_in
all_in_behind y [] ys h = refl
all_in_behind y (x ∷ xs) ys h = ground (arith, is_in_behind x y ys, all_in_behind y xs ys)

all_in_refl : (xs : List String) → all_in xs xs ≡ true
unfolding all_in is_in
all_in_refl [] = refl
all_in_refl (x ∷ xs) = ground (arith, text_eq_iff x x, all_in_behind x xs xs (all_in_refl xs))

pub same_wwpns_refl : (xs : List String) → same_wwpns xs xs ≡ true
unfolding same_wwpns
same_wwpns_refl xs = ground (arith, all_in_refl xs)

-- The mapping has a backing port and those WWPNs.
abbrev IsDone : List String → VfcMapping → Type 0
IsDone ws m =
    (adapter_wwpns (λ x. same_wwpns x ws) m.client_adapter ≡ true)
    × ((b : BackingPort) × (m.backing_port ≡ some b))

bld-IsDone :
    (element : ℕ) (href : Url) (name w : String) (ws : List String) (slot : Option ℕ)
    → IsDone (w ∷ ws) (bld element href name (some (w ∷ ws)) slot)
unfolding bld
bld-IsDone element href name w ws slot = (same_wwpns_refl (w ∷ ws), (_, refl))

module _ (ws : List String) where
  abbrev pub has_wwpns : VfcMapping → Bool
  has_wwpns m = adapter_wwpns (λ x. same_wwpns x ws) m.client_adapter

  behind-none :
      (m : VfcMapping) (o : Option (Option VfcMapping × List VfcMapping))
      → behind m o ≡ none
      → o ≡ none
  behind-none m none h = refl
  behind-none m (some (r, ms)) h = absurd (ground arith)

  behind-some :
      (m : VfcMapping) (o : Option (Option VfcMapping × List VfcMapping)) (r : Option VfcMapping)
      (ms : List VfcMapping)
      → behind m o ≡ some (r, ms)
      → (ms' : List VfcMapping) × (o ≡ some (r, ms')) × (ms ≡ m ∷ ms')
  behind-some m none r ms h = absurd (ground arith)
  behind-some m (some (r', ms')) r ms h = (ms', ground arith, ground arith)

  -- A mapping that is done is the one found, where none before it has the WWPNs.
  back_existing-appended :
      (n n' : String) (m : VfcMapping) (ms : List VfcMapping)
      → IsDone ws m
      → back_existing ws n ms ≡ none
      → back_existing ws n' (ms ++ m ∷ []) ≡ some (none, ms ++ m ∷ [])
  unfolding back_existing back_first
  back_existing-appended n n' m [] (same, (b, has)) h = rw (same, has) refl
  back_existing-appended n n' m (x ∷ ms) done h = elim (Bool-cases (has_wwpns x)) [
    | inl e ↦ absurd (let k = rw e at h in ground arith)
    | inr e ↦ rw e (
        ap (behind x) (
          back_existing-appended n n' m ms done
            (behind-none x (back_existing ws n ms) (rw e at h))))
  ]

  again_here :
      (n n' : String) (m : VfcMapping) (ms ms' : List VfcMapping) (r : Option VfcMapping)
      (o : Option BackingPort)
      → m.backing_port ≡ o
      → has_wwpns m ≡ true
      → back_first n m ms o ≡ (r, ms')
      → back_existing ws n' ms' ≡ some (none, ms')
  unfolding back_existing back_first
  again_here n n' m ms ms' r (some b) at e h =
      let same : ms' ≡ m ∷ ms = ground arith in rw (same, e, at) refl
  again_here n n' m ms ms' r none at e h =
      let same : ms' ≡ record m { backing_port = some (bld_ref n) } ∷ ms = ground arith in
      rw (same, e) refl

  -- What was found or was given a backing port is found as done again.
  back_existing_again :
      (n n' : String) (ms ms' : List VfcMapping) (r : Option VfcMapping)
      → back_existing ws n ms ≡ some (r, ms')
      → back_existing ws n' ms' ≡ some (none, ms')
  unfolding back_existing
  back_existing_again n n' [] ms' r h = absurd (ground arith)
  back_existing_again n n' (x ∷ ms) ms' r h = elim (Bool-cases (has_wwpns x)) [
    | inl e ↦ again_here n n' x ms ms' r x.backing_port refl e (let k = rw e at h in ground arith)
    | inr e ↦
        (let (rest, found, same) = behind-some x (back_existing ws n ms) r ms' (rw e at h) in
          rw (same, e) (ap (behind x) (back_existing_again n n' ms rest r found)))
  ]

-- The port of the VIOS with the WWPN.
unfoldable pub port_on : String → List Port → Option Port
unfolding find_first sanitize_wwpn_for_api
port_on p_wwpn ports =
    find_first (λ p. text_eq (sanitize_wwpn_for_api p.wwpn) (sanitize_wwpn_for_api p_wwpn)) ports

pub found_port :
    (p_wwpn : String) (v : Vios) (o : Option Port)
    → port_on p_wwpn v.pfc_ports ≡ o
    → find_vios_for_wwpn (v ∷ []) p_wwpn ≡ (elim o [ none ↦ none | some p ↦ some (v, p) ])
unfolding find_vios_for_wwpn first_vios port_on
found_port p_wwpn v none h = rw (h, first_vios) refl
found_port p_wwpn v (some p) h = rw (h, first_vios) refl

add_or_back-some :
    (element : ℕ) (href : Url) (v v' : Vios) (n n' w : String) (ws : List String) (slot : Option ℕ)
    (r : Option VfcMapping)
    → add_or_back element href v n (some (w ∷ ws)) slot ≡ (r, v')
    → (v'.pfc_ports ≡ v.pfc_ports)
      × (back_existing (w ∷ ws) n' v'.vfc_mappings ≡ some (none, v'.vfc_mappings))
unfolding add_or_back append_map
add_or_back-some element href v v' n n' w ws slot r h =
    elim (Option-cases (back_existing (w ∷ ws) n v.vfc_mappings)) [
      | inl e ↦
          (let k = rw (e, add_or_back) at h in
            let m = bld element href n (some (w ∷ ws)) slot in
            let same : v' ≡ record v { vfc_mappings = v.vfc_mappings ++ m ∷ [] } = cc in
            rw same (
              refl,
              back_existing-appended (w ∷ ws) n n' m v.vfc_mappings
                  (bld-IsDone element href n w ws slot) e,
            ))
      | inr ((r', ms), e) ↦
          (let k = rw (e, add_or_back) at h in
            let same : v' ≡ record v { vfc_mappings = ms } = cc in
            rw same (refl, back_existing_again (w ∷ ws) n n' v.vfc_mappings ms r' e))
    ]

module _ (element element' : ℕ) (href href' : Url) (v v' : Vios) (p_wwpn fused w : String)
    (ws : List String) (slot slot' : Option ℕ) (m : VfcMapping) where
  add_map_again :
      (o : Option Port) (error_if_invalid error_if_invalid' : Bool)
      → port_on p_wwpn v.pfc_ports ≡ o
      → v_wwpns_of fused ≡ some (w ∷ ws)
      → add_map element href v (p_wwpn, fused) error_if_invalid slot ≡ ok (some m, v')
      → add_map element' href' v' (p_wwpn, fused) error_if_invalid' slot' ≡ ok (none, v')
  unfolding add_map
  add_map_again none strict strict' at known h =
      absurd (let k = rw (found_port p_wwpn v none at, add_map) at h in ground arith)
  add_map_again (some p) strict strict' at known h =
      let k = rw (found_port p_wwpn v (some p) at, known, add_map) at h in
      let (ports, found) =
        add_or_back-some element href v v' p.name p.name w ws slot (some m) (ground arith) in
      let there : port_on p_wwpn v'.pfc_ports ≡ some p = rw ports at in
      rw (found_port p_wwpn v' (some p) there, known, add_map) (rw (found, add_or_back) refl)

  -- Where the client's WWPNs are known, and add_map has added a mapping or given one its backing port,
  -- a second add_map of the same port map to the wrapper changes nothing and returns None, whatever
  -- the slot, the client and error_if_invalid.
  pub add_map_twice :
      (error_if_invalid error_if_invalid' : Bool)
      → v_wwpns_of fused ≡ some (w ∷ ws)
      → add_map element href v (p_wwpn, fused) error_if_invalid slot ≡ ok (some m, v')
      → add_map element' href' v' (p_wwpn, fused) error_if_invalid' slot' ≡ ok (none, v')
  add_map_twice strict strict' known h =
      add_map_again (port_on p_wwpn v.pfc_ports) strict strict' refl known h
