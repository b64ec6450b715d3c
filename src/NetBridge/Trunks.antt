-- ===== src/NetBridge/Trunks.antt =====
-- NetworkBridgerTA of pypowervm/tasks/network_bridger.py: the trunk adapters that a VLAN is put on or
-- taken from. A trunk adapter that the source holds is the place where it stands.
use pypowervm.Prelude.{
  ℕ, zero, suc, ◌%◌, Bool, true, ◌&&◌, Option, none, some, List, [], ◌∷◌, ◌++◌, ◌==◌, ltb, length,
  get_elem?, if◌then◌else◌,
}
use pypowervm.NetBridge.{TrunkAdapter, Sea, NetBridge, max_veas_per_sea, max_vlans_per_vea}

-- The i-th additional adapter of seas[0], the primary adapter of seas[1], or its i-th additional.
pub data Place : Type 0 where
  additional : ℕ → Place
  peer_primary : Place
  peer_additional : ℕ → Place

-- What Python itself raises.
pub data PyError : Type 0 where
  attribute_error : PyError
  index_error : PyError
  type_error : PyError
  value_error : PyError

module _ {ℓ} {A : Type ℓ} where
  unfoldable pub change_at : ℕ → (A → A) → List A → List A
  change_at i f [] = []
  change_at zero f (x ∷ xs) = f x ∷ xs
  change_at (suc i) f (x ∷ xs) = x ∷ change_at i f xs

abbrev pub with_addl : (List TrunkAdapter → List TrunkAdapter) → Sea → Sea
with_addl f s = record s { addl_adpts = f s.addl_adpts }

abbrev pub on_head : (Sea → Sea) → List Sea → List Sea
on_head f [] = []
on_head f (s ∷ ss) = f s ∷ ss

abbrev pub with_primary : (TrunkAdapter → TrunkAdapter) → Sea → Sea
with_primary f s = record s { primary_adpt = f s.primary_adpt }

-- A change of the trunk adapter at a place.
unfoldable pub change : Place → (TrunkAdapter → TrunkAdapter) → NetBridge → NetBridge
unfolding change_at
change (additional i) f nb = record nb { first_sea = with_addl (change_at i f) nb.first_sea }
change peer_primary f nb = record nb { more_seas = on_head (with_primary f) nb.more_seas }
change (peer_additional i) f nb = record nb {
  more_seas = on_head (with_addl (change_at i f)) nb.more_seas;
}

unfoldable pub change_each : List Place → (TrunkAdapter → TrunkAdapter) → NetBridge → NetBridge
unfolding change
change_each [] f nb = nb
change_each (p ∷ ps) f nb = change_each ps f (change p f nb)

abbrev head_sea : List Sea → Option Sea
head_sea [] = none
head_sea (s ∷ ss) = some s

unfoldable pub trunk_at : Place → NetBridge → Option TrunkAdapter
trunk_at (additional i) nb = get_elem? nb.first_sea.addl_adpts i
trunk_at peer_primary nb = elim (head_sea nb.more_seas) [
  | none ↦ none
  | some s ↦ some s.primary_adpt
]
trunk_at (peer_additional i) nb = elim (head_sea nb.more_seas) [
  | none ↦ none
  | some s ↦ get_elem? s.addl_adpts i
]

-- The position of the first trunk adapter with the property, from i on.
unfoldable pub position : (TrunkAdapter → Bool) → ℕ → List TrunkAdapter → Option ℕ
position p i [] = none
position p i (t ∷ ts) = let rest = position p (suc i) ts in if p t then some i else rest

abbrev has_pvid : ℕ → TrunkAdapter → Bool
has_pvid pvid t = t.pvid == pvid

-- `_find_peer_trunk`, for the PVID of the trunk adapter given
unfoldable pub find_peer_trunk : List Sea → ℕ → List Place
unfolding position
find_peer_trunk [] pvid = []
find_peer_trunk (s ∷ ss) pvid =
    if s.primary_adpt.pvid == pvid
    then peer_primary ∷ []
    else elim (position (has_pvid pvid) 0 s.addl_adpts) [
      | none ↦ []
      | some i ↦ peer_additional i ∷ []
    ]

-- `_trunk_list`, for the i-th additional adapter of the first SEA
unfoldable pub trunk_list : NetBridge → ℕ → TrunkAdapter → List Place
unfolding find_peer_trunk
trunk_list nb i ta = additional i ∷ find_peer_trunk nb.more_seas ta.pvid

abbrev pub Least : Type 0
Least = Option (ℕ × TrunkAdapter) × ℕ

abbrev pub is_better : TrunkAdapter → Option (ℕ × TrunkAdapter) → Bool
is_better t none = true
is_better t (some (i, best)) = ltb (length t.tagged_vlans) (length best.tagged_vlans)

-- The loop over the trunks, with cur_min and avail_count.
unfoldable pub least_used : ℕ → List TrunkAdapter → Least → Least
least_used i [] found = found
least_used i (t ∷ ts) (cur_min, avail_count) = least_used (suc i) ts (
    if ltb (length t.tagged_vlans) max_vlans_per_vea
    then (if is_better t cur_min then some (i, t) else cur_min, suc avail_count)
    else (cur_min, avail_count))

-- `_find_available_trunks`, with CONF.load_balance_vlan_across_veas as first argument
unfoldable pub find_available_trunks : Bool → NetBridge → Option (List Place)
unfolding least_used trunk_list
find_available_trunks across_veas nb =
    let trunks = nb.first_sea.addl_adpts in
    let (cur_min, avail_count) = least_used 0 trunks (none, 0) in
    if across_veas && ltb (length trunks) max_veas_per_sea then none else elim cur_min [
      | none ↦ none
      | some (i, t) ↦
          (if nb.load_balance && (avail_count == 1) && (length trunks % 2 == 1)
            then none
            else some (trunk_list nb i t))
    ]

abbrev pub tag : ℕ → TrunkAdapter → TrunkAdapter
tag vlan t = record t { tagged_vlans = t.tagged_vlans ++ vlan ∷ [] }

-- TrunkAdapter.bld and the append, for one SEA
unfoldable pub append_trunk : ℕ → ℕ → ℕ → Sea → Sea
append_trunk arb_vid vlan switch_id sea = record sea {
  addl_adpts =
      sea.addl_adpts
      ++ record {
        dev_name = "Unknown";
        pvid = arb_vid;
        tagged_vlans = vlan ∷ [];
        vswitch_id = switch_id;
        trunk_pri = sea.primary_adpt.trunk_pri;
        rest = none;
      }
        ∷ [];
}

unfoldable pub append_trunks : ℕ → ℕ → ℕ → List Sea → List Sea
unfolding append_trunk
append_trunks arb_vid vlan switch_id [] = []
append_trunks arb_vid vlan switch_id (s ∷ ss) =
    append_trunk arb_vid vlan switch_id s ∷ append_trunks arb_vid vlan switch_id ss

-- The new trunk adapter, or pair of them, for a VLAN.
unfoldable pub with_trunk : ℕ → ℕ → ℕ → NetBridge → NetBridge
unfolding append_trunks append_trunk
with_trunk arb_vid vlan switch_id nb = record nb {
  first_sea = append_trunk arb_vid vlan switch_id nb.first_sea;
  more_seas = append_trunks arb_vid vlan switch_id nb.more_seas;
}
