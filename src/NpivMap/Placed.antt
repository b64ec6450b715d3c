-- ===== src/NpivMap/Placed.antt =====
-- Which Virtual I/O Servers host the groups of slots of a migration (build_migration_mappings,
-- pypowervm/tasks/vfc_mapper.py).
use mathlib.Core.List.Perm
use mathlib.Core.List.{Perm, append-nil}
use pypowervm.Prelude.{
  ℕ, ◌≤◌, String, ◌≡◌, ◌⊎◌, refl, sym, ap, ◌∙◌, Bool, true, false, not, ◌&&◌, ◌||◌, none, some,
  List, [], ◌∷◌, ◌++◌, ◌==◌, ltb, length, All, Bool-cases, Option-cases, inl, inr, arith,
}
use pypowervm.Exec.{ok, err}
use pypowervm.NpivMap.{Vios, find_ports_on_vio, unable_to_find_fc_port_map}
use pypowervm.NpivMap.Wwpns.{find_first}
use pypowervm.NpivMap.Migrate.{
  Fabric, FabricData, Assigned, split_ports_per_fabric, does_vios_support_split_map, insert_group,
  sort_groups, is_assigned, vios_for, assign_groups,
}

abbrev pub IsOneOf : {A : Type 0} → A → List A → Type 0
IsOneOf a [] = ⊥
IsOneOf a (b ∷ bs) = (a ≡ b) ⊎ IsOneOf a bs

find_first_lem :
    (p : Vios → Bool) (vs : List Vios) (v : Vios)
    → find_first p vs ≡ some v
    → IsOneOf v vs × (p v ≡ true)
unfolding find_first
find_first_lem p [] v h = absurd (ground arith)
find_first_lem p (w ∷ ws) v h = elim (Bool-cases (p w)) [
  | inl e ↦ (let same : v ≡ w = let k = rw e at h in cc in (inl same, rw same e))
  | inr e ↦ (let k = find_first_lem p ws v (rw e at h) in (inr k.0, k.1))
]

or_false : (a b : Bool) → (a || b) ≡ false → (a ≡ false) × (b ≡ false)
or_false a b h = ground arith

and_true : (a b : Bool) → (not a && b) ≡ true → (a ≡ false) × (b ≡ true)
and_true a b h = ground arith

-- No VIOS comes twice.
abbrev pub AreDistinct : Assigned → Type 0
AreDistinct [] = Unit
AreDistinct ((v, split_map) ∷ placed) = (is_assigned v placed ≡ false) × AreDistinct placed

-- The VIOS has as many of a fabric's ports as there are slots, for each fabric.
abbrev pub HasPorts : Vios → FabricData → Type 0
HasPorts v sm =
    All (λ (f : String × Fabric). length f.1.slots ≤ length (find_ports_on_vio v f.1.p_port_wwpns))
      sm

supports-HasPorts :
    (v : Vios) (sm : FabricData) → does_vios_support_split_map v sm ≡ true → HasPorts v sm
unfolding does_vios_support_split_map
supports-HasPorts v [] h = tt
supports-HasPorts v ((name, f) ∷ sm) h =
    elim (Bool-cases (ltb (length (find_ports_on_vio v f.p_port_wwpns)) (length f.slots))) [
      | inl e ↦ absurd (let k = rw e at h in ground arith)
      | inr e ↦ (ground arith, supports-HasPorts v sm (rw e at h))
    ]

HasPorts-supports :
    (v : Vios) (sm : FabricData) → HasPorts v sm → does_vios_support_split_map v sm ≡ true
unfolding does_vios_support_split_map
HasPorts-supports v [] h = refl
HasPorts-supports v ((name, f) ∷ sm) (here, h) =
    elim (Bool-cases (ltb (length (find_ports_on_vio v f.p_port_wwpns)) (length f.slots))) [
      | inl e ↦ absurd (ground arith)
      | inr e ↦ rw e (HasPorts-supports v sm h)
    ]

module _ (vs : List Vios) where
  -- A VIOS of the list that has the ports for its split map.
  abbrev pub IsHosted : Vios × FabricData → Type 0
  IsHosted (v, split_map) = IsOneOf v vs × HasPorts v split_map

  abbrev pub IsPlaced : Assigned → Type 0
  IsPlaced placed = AreDistinct placed × All IsHosted placed

  is_assigned-append :
      (v w : Vios) (sm : FabricData) (placed : Assigned)
      → is_assigned w (placed ++ (v, sm) ∷ []) ≡ (is_assigned w placed || v.object == w.object)
  unfolding is_assigned
  is_assigned-append v w sm [] = ground arith
  is_assigned-append v w sm ((x, m) ∷ placed) = ground (arith, is_assigned-append v w sm placed)

  append-AreDistinct :
      (v : Vios) (sm : FabricData) (placed : Assigned)
      → is_assigned v placed ≡ false
      → AreDistinct placed
      → AreDistinct (placed ++ (v, sm) ∷ [])
  unfolding is_assigned
  append-AreDistinct v sm [] h d = (refl, tt)
  append-AreDistinct v sm ((x, m) ∷ placed) h (fresh, d) =
      let (apart, away) = or_false (x.object == v.object) (is_assigned v placed) h in
      (ground (arith, is_assigned-append v x sm placed), append-AreDistinct v sm placed away d)

  append-IsHosted :
      (a : Vios × FabricData) (placed : Assigned)
      → All IsHosted placed
      → IsHosted a
      → All IsHosted (placed ++ a ∷ [])
  append-IsHosted a [] h k = (k, tt)
  append-IsHosted a (b ∷ placed) h k = (h.0, append-IsHosted a placed h.1 k)

  vios_for-IsPlaced :
      (sm : FabricData) (placed : Assigned) (v : Vios)
      → vios_for vs sm placed ≡ some v
      → IsPlaced placed
      → IsPlaced (placed ++ (v, sm) ∷ [])
  unfolding vios_for
  vios_for-IsPlaced sm placed v h (d, hosted) =
      let (member, passes) = find_first_lem _ vs v h in
      let (fresh, supports) =
        and_true (is_assigned v placed) (does_vios_support_split_map v sm) passes in
      (
        append-AreDistinct v sm placed fresh d,
        append-IsHosted (v, sm) placed hosted (member, supports-HasPorts v sm supports),
      )

not_and : (a b : Bool) → (not a && b) ≡ false → (a ≡ true) ⊎ (b ≡ false)
not_and true b h = inl refl
not_and false b h = inr h

left_or_short :
    (v : Vios) (sm : FabricData) (placed : Assigned)
    → (not (is_assigned v placed) && does_vios_support_split_map v sm) ≡ false
    → (is_assigned v placed ≡ true) ⊎ (¬ (HasPorts v sm))
left_or_short v sm placed h =
    elim (not_and (is_assigned v placed) (does_vios_support_split_map v sm) h) [
      | inl e ↦ inl e
      | inr e ↦ inr (λ has. let k = HasPorts-supports v sm has in ground arith)
    ]

-- Each VIOS hosts a group already or has not the ports.
abbrev pub NoneIsLeft : Assigned → FabricData → List Vios → Type 0
NoneIsLeft placed split_map =
    All (λ (v : Vios). (is_assigned v placed ≡ true) ⊎ (¬ (HasPorts v split_map)))

vios_for-NoneIsLeft :
    (sm : FabricData) (placed : Assigned) (vs : List Vios)
    → vios_for vs sm placed ≡ none
    → NoneIsLeft placed sm vs
unfolding vios_for find_first
vios_for-NoneIsLeft sm placed [] h = tt
vios_for-NoneIsLeft sm placed (v ∷ vs) h =
    elim (Bool-cases (not (is_assigned v placed) && does_vios_support_split_map v sm)) [
      | inl e ↦ absurd (let k = rw e at h in ground arith)
      | inr e ↦ (left_or_short v sm placed e, vios_for-NoneIsLeft sm placed vs (rw e at h))
    ]

insert-perm : (g : List ℕ) (gs : List (List ℕ)) → Perm (insert_group g gs) (g ∷ gs)
unfolding insert_group
insert-perm g [] = Perm.refl (g ∷ [])
insert-perm g (h ∷ hs) = elim (Bool-cases (ltb (length g) (length h))) [
  | inl e ↦ rw e (Perm.trans (Perm.cons h (insert-perm g hs)) (Perm.swap g h hs))
  | inr e ↦ rw e (Perm.refl (g ∷ h ∷ hs))
]

sort-perm : (gs : List (List ℕ)) → Perm (sort_groups gs) gs
unfolding sort_groups
sort-perm [] = Perm.refl []
sort-perm (g ∷ gs) = Perm.trans (insert-perm g (sort_groups gs)) (Perm.cons g (sort-perm gs))

module _ (vs : List Vios) (fabric_data : FabricData) where
  -- The split maps of the groups, in order.
  abbrev pub split_maps : List (List ℕ) → List FabricData
  split_maps [] = []
  split_maps (g ∷ gs) = split_ports_per_fabric g fabric_data ∷ split_maps gs

  abbrev pub assigned_maps : Assigned → List FabricData
  assigned_maps [] = []
  assigned_maps ((v, split_map) ∷ placed) = split_map ∷ assigned_maps placed

  maps-append :
      (v : Vios) (sm : FabricData) (placed : Assigned) (more : List FabricData)
      → assigned_maps (placed ++ (v, sm) ∷ []) ++ more ≡ assigned_maps placed ++ sm ∷ more
  maps-append v sm [] more = refl
  maps-append v sm ((w, x) ∷ placed) more = ap (λ l. x ∷ l) (maps-append v sm placed more)

  -- A group for which no VIOS is left where exactly the groups before it have theirs, beside those
  -- placed at first.
  abbrev pub Stuck : Assigned → List (List ℕ) → Type 0
  Stuck at_first groups =
      (before : List (List ℕ)) × (group : List ℕ) × (after : List (List ℕ)) × (placed : Assigned)
      × (groups ≡ before ++ group ∷ after)
      × (assigned_maps placed ≡ assigned_maps at_first ++ split_maps before)
      × IsPlaced vs placed
      × NoneIsLeft placed (split_ports_per_fabric group fabric_data) vs

  all_assigned :
      (groups : List (List ℕ)) (placed : Assigned)
      → IsPlaced vs placed
      → (Stuck placed groups
          × (assign_groups vs fabric_data placed groups ≡ err unable_to_find_fc_port_map))
        ⊎ ((all : Assigned) × (assign_groups vs fabric_data placed groups ≡ ok all)
            × IsPlaced vs all
            × (assigned_maps all ≡ assigned_maps placed ++ split_maps groups))
  unfolding assign_groups
  all_assigned [] placed h = inr (placed, refl, h, sym (append-nil (assigned_maps placed)))
  all_assigned (g ∷ gs) placed h =
      let sm = split_ports_per_fabric g fabric_data in
      elim (Option-cases (vios_for vs sm placed)) [
        | inl e ↦ inl (
          (
            [],
            g,
            gs,
            placed,
            refl,
            sym (append-nil (assigned_maps placed)),
            h,
            vios_for-NoneIsLeft sm placed vs e,
          ),
          rw (e, assign_groups) refl,
        )
        | inr (v, e) ↦
            (let next = placed ++ (v, sm) ∷ [] in
              let same : assign_groups vs fabric_data placed (g ∷ gs)
                  ≡ assign_groups vs fabric_data next gs =
                rw (e, assign_groups) refl in
              elim (all_assigned gs next (vios_for-IsPlaced vs sm placed v e h)) [
                | inl ((before, group, after, p, split, maps, good, left), raised) ↦ inl (
                  (
                    g ∷ before,
                    group,
                    after,
                    p,
                    ap (λ l. g ∷ l) split,
                    maps ∙ maps-append v sm placed (split_maps before),
                    good,
                    left,
                  ),
                  same ∙ raised,
                )
                | inr (all, found, good, maps) ↦
                    inr (all, same ∙ found, good, maps ∙ maps-append v sm placed (split_maps gs))
              ])
      ]

  pub assign_groups_lem :
      (slot_peers : List (List ℕ))
      → Perm (sort_groups slot_peers) slot_peers
        × ((Stuck [] (sort_groups slot_peers)
              × (assign_groups vs fabric_data [] (sort_groups slot_peers)
                  ≡ err unable_to_find_fc_port_map))
            ⊎ ((all : Assigned) × (assign_groups vs fabric_data [] (sort_groups slot_peers)
                  ≡ ok all)
                × IsPlaced vs all
                × (assigned_maps all ≡ split_maps (sort_groups slot_peers))))
  assign_groups_lem slot_peers =
      (sort-perm slot_peers, all_assigned (sort_groups slot_peers) [] (tt, tt))
